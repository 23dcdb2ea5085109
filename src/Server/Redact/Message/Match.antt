-- ===== src/Server/Redact/Message/Match.antt =====
-- internal/server/redact.go: what urlInMessage matches of a text with a URL in it.
use Prim.Native.Char.{Char, code}
use nephtys.Prelude.{
  ℕ, suc, ◌+◌, ◌≡◌, refl, ap, ◌∙◌, sym, String, Bool, true, false, none, some, ◌&&◌, ◌==◌, not,
  if◌then◌else◌, arith,
}
use nephtys.Prelude.Text.{append}
use nephtys.Server.Redact.Message.{
  is_letter, is_scheme_char, is_break, body_length, match_rest, one_more, match_scheme, match_url,
  take_text, text_length,
}

-- A text that no URL runs on from: it has no colon, and does not end in a character of a scheme.
unfoldable pub leads_in : String → Bool
leads_in String.[] = true
leads_in (String.◌∷◌ c String.[]) = not (code c == b':') && not (is_scheme_char (code c))
leads_in (String.◌∷◌ c (String.◌∷◌ d s)) =
    let rest = leads_in (String.◌∷◌ d s) in if code c == b':' then false else rest

unfoldable pub all_scheme : String → Bool
all_scheme String.[] = true
all_scheme (String.◌∷◌ c s) =
    let rest = all_scheme s in if is_scheme_char (code c) then rest else false

unfoldable pub no_break : String → Bool
no_break String.[] = true
no_break (String.◌∷◌ c s) = let rest = no_break s in if is_break (code c) then false else rest

unfoldable pub ends_url : String → Bool
ends_url String.[] = true
ends_url (String.◌∷◌ c s) = is_break (code c)

-- A URL as the pattern reads it: a letter, the rest of the scheme, the separator and at least one
-- character that is neither white space nor a quote.
abbrev pub url_text : Char → String → Char → String → String
url_text c scheme d body = String.◌∷◌ c (append scheme (append "://" (String.◌∷◌ d body)))

body_length-append :
    (body after : String)
    → no_break body ≡ true
    → ends_url after ≡ true
    → body_length (append body after) ≡ text_length body
unfolding body_length no_break ends_url text_length
body_length-append String.[] String.[] b e = refl
body_length-append String.[] (String.◌∷◌ c s) b e = ground (arith, e)
body_length-append (String.◌∷◌ c s) after b e = ground (arith, b, body_length-append s after)

colon_no_scheme : is_scheme_char b':' ≡ false
unfolding is_scheme_char is_letter
colon_no_scheme = refl

match_scheme-append :
    (scheme : String) (d : Char) (body after : String)
    → all_scheme scheme ≡ true
    → no_break (String.◌∷◌ d body) ≡ true
    → ends_url after ≡ true
    → match_scheme (append scheme (append "://" (String.◌∷◌ d (append body after))))
      ≡ some (text_length scheme + 4 + text_length body)
unfolding match_scheme match_rest all_scheme text_length
match_scheme-append String.[] d body after a b e =
    ground (arith, colon_no_scheme, body_length-append (String.◌∷◌ d body) after b e)
match_scheme-append (String.◌∷◌ c s) d body after a b e =
    ground (arith, a, match_scheme-append s d body after)

pub take-append : (s t : String) → take_text (text_length s) (append s t) ≡ s
unfolding take_text text_length
take-append String.[] t = refl
take-append (String.◌∷◌ c s) t = ap (String.◌∷◌ c) (take-append s t)

match_rest-other :
    (c : Char) (s : String) → (code c == b':') ≡ false → match_rest (String.◌∷◌ c s) ≡ none
unfolding match_rest
match_rest-other c String.[] n = refl
match_rest-other c (String.◌∷◌ d String.[]) n = refl
match_rest-other c (String.◌∷◌ d (String.◌∷◌ e s)) n = rw n

letter_in_scheme : (c : ℕ) → is_letter c ≡ true → is_scheme_char c ≡ true
unfolding is_scheme_char
letter_in_scheme c l = rw l

-- No match runs on from a text that leads in.
leads_in-match :
    (c : Char) (s t : String)
    → leads_in (String.◌∷◌ c s) ≡ true
    → match_scheme (append (String.◌∷◌ c s) t) ≡ none
unfolding match_scheme leads_in
leads_in-match c String.[] t l = ground (arith, l, match_rest-other c t)
leads_in-match c (String.◌∷◌ d s) t l =
    ground (arith, l, leads_in-match d s t, match_rest-other c (append (String.◌∷◌ d s) t))

pub leads_in-url :
    (c : Char) (s t : String)
    → leads_in (String.◌∷◌ c s) ≡ true
    → match_url (append (String.◌∷◌ c s) t) ≡ none
unfolding match_url leads_in
leads_in-url c String.[] t l = ground (arith, l, letter_in_scheme (code c))
leads_in-url c (String.◌∷◌ d s) t l = ground (arith, l, leads_in-match d s t)

pub leads_in-rest : (c : Char) (s : String) → leads_in (String.◌∷◌ c s) ≡ true → leads_in s ≡ true
unfolding leads_in
leads_in-rest c String.[] l = refl
leads_in-rest c (String.◌∷◌ d s) l = ground (arith, l)

text_length-append : (s t : String) → text_length (append s t) ≡ text_length s + text_length t
unfolding text_length
text_length-append String.[] t = omega arith
text_length-append (String.◌∷◌ c s) t = omega (arith, text_length-append s t)

append_assoc : (s t u : String) → append (append s t) u ≡ append s (append t u)
append_assoc String.[] t u = refl
append_assoc (String.◌∷◌ c s) t u = ap (String.◌∷◌ c) (append_assoc s t u)

pub url_text-match :
    (c d : Char) (scheme body after : String)
    → is_letter (code c) ≡ true
    → all_scheme scheme ≡ true
    → no_break (String.◌∷◌ d body) ≡ true
    → ends_url after ≡ true
    → match_url (append (url_text c scheme d body) after)
      ≡ some (suc (text_length (append scheme (append "://" (String.◌∷◌ d body)))))
unfolding match_url
url_text-match c d scheme body after l a b e =
    let tail = append "://" (String.◌∷◌ d body) in
    let long : text_length (append scheme tail) ≡ text_length scheme + 4 + text_length body =
      text_length-append scheme tail ∙ (unfold text_length in omega arith) in
    rw l (
      ap (λ s. one_more (match_scheme s)) (append_assoc scheme tail after)
      ∙ ap one_more (match_scheme-append scheme d body after a b e)
      ∙ ap (λ n. some (suc n)) (sym long))
