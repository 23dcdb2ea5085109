-- ===== src/Server/Auth.antt =====
-- internal/server/auth.go: the bearer token that guards the API. A text is its code points here: the
-- scheme is ASCII, so that its seven bytes are seven code points wherever the header has it.
use nephtys.Prelude.{
  ℕ, zero, suc, ◌+◌, ◌≡◌, ◌≤◌, refl, sym, ap, ◌∙◌, ◌↔◌, String, Bool, true, false, Option, none,
  some, List, [], ◌∷◌, ◌++◌, not, ◌&&◌, leb, ltb, ◌==◌, if◌then◌else◌, arith, take, length,
}
use nephtys.Prelude.Text.{codes, is_blank}

-- `auth[:n]` is `take`, `auth[n:]`:
unfoldable pub from : ℕ → List ℕ → List ℕ
from zero xs = xs
from (suc n) [] = []
from (suc n) (x ∷ xs) = from n xs

unfoldable pub fold : ℕ → ℕ
fold c = if leb b'A' c && leb c b'Z' then c + 32 else c

-- `strings.EqualFold` with an ASCII text.
unfoldable pub equal_fold : List ℕ → List ℕ → Bool
unfolding fold
equal_fold [] [] = true
equal_fold (x ∷ xs) (y ∷ ys) = fold x == fold y && equal_fold xs ys
equal_fold _ _ = false

-- `subtle.ConstantTimeCompare(a, b) == 1`
unfoldable pub equal_codes : List ℕ → List ℕ → Bool
equal_codes [] [] = true
equal_codes (x ∷ xs) (y ∷ ys) = x == y && equal_codes xs ys
equal_codes _ _ = false

abbrev pub scheme : List ℕ
scheme = b'B' ∷ b'e' ∷ b'a' ∷ b'r' ∷ b'e' ∷ b'r' ∷ b' ' ∷ []

unfoldable pub has_scheme : List ℕ → Bool
unfolding equal_fold
has_scheme auth = not (ltb (length auth) 7) && equal_fold (take 7 auth) scheme

-- The status that the middleware answers with, `none` where it calls the next handler.
unfoldable pub bearer_auth : String → (String → Bool) → String → String → Option ℕ
unfolding has_scheme from equal_codes
bearer_auth token public_paths path authorization =
    let auth = codes authorization in
    if public_paths path
    then none
    else if is_blank token
    then some 403
    else if not (has_scheme auth)
    then some 401
    else if equal_codes (from 7 auth) (codes token)
    then none
    else some 401

equal_codes-eq : (xs ys : List ℕ) → equal_codes xs ys ≡ true → xs ≡ ys
unfolding equal_codes
equal_codes-eq [] [] e = refl
equal_codes-eq (x ∷ xs) (y ∷ ys) e = ground (arith, e, equal_codes-eq xs ys)
equal_codes-eq [] (y ∷ ys) e = cc
equal_codes-eq (x ∷ xs) [] e = cc

equal_codes_self : (xs : List ℕ) → equal_codes xs xs ≡ true
unfolding equal_codes
equal_codes_self [] = refl
equal_codes_self (x ∷ xs) = ground (arith, equal_codes_self xs)

take-from : (n : ℕ) (xs : List ℕ) → take n xs ++ from n xs ≡ xs
unfolding from
take-from zero xs = refl
take-from (suc n) [] = refl
take-from (suc n) (x ∷ xs) = ap (◌∷◌ x) (take-from n xs)

from-take : (n : ℕ) (xs ys : List ℕ) → n ≤ length xs → from n (take n xs ++ ys) ≡ ys
unfolding from
from-take zero xs ys l = refl
from-take (suc n) [] ys l = ground (arith, l)
from-take (suc n) (x ∷ xs) ys l = from-take n xs ys (omega (arith, l))

-- A path that is not public is served exactly if there is a token and the header is the scheme, in
-- any case of its letters, with the token behind it.
pub served_iff_token :
    (token : String) (public_paths : String → Bool) (path authorization : String)
    → public_paths path ≡ false
    → (bearer_auth token public_paths path authorization ≡ none) ↔ (
        (is_blank token ≡ false)
        × (has_scheme (codes authorization) ≡ true)
        × (take 7 (codes authorization) ++ codes token ≡ codes authorization))
unfolding bearer_auth has_scheme
served_iff_token token public_paths path authorization p =
    let auth = codes authorization in
    (
      (λ e.
          let same : equal_codes (from 7 auth) (codes token) ≡ true = ground (arith, e, p) in
          (
            ground (arith, e, p),
            ground (arith, e, p),
            ap (λ x. take 7 auth ++ x) (sym (equal_codes-eq (from 7 auth) (codes token) same))
                ∙ take-from 7 auth,
          )),
      (λ (t, h, e).
          let long : 7 ≤ length auth = ground (arith, h) in
          let rest : from 7 auth ≡ codes token =
            ap (from 7) (sym e) ∙ from-take 7 auth (codes token) long in
          let same : equal_codes (from 7 auth) (codes token) ≡ true =
            ap (λ x. equal_codes x (codes token)) rest ∙ equal_codes_self (codes token) in
          ground (arith, p, t, h, same)),
    )
