-- ===== src/Prelude/Result.antt =====
-- A value and an error, as the pair that a Go function returns.
use mathlib.Core.Path.{◌≡◌, refl}
use mathlib.Core.Bool.{Bool, true, false}
use mathlib.Core.Option.{Option, none, some}

pub data Result {ℓ} (E A : Type ℓ) : Type ℓ where
  ok : A → Result E A
  err : E → Result E A

-- A function that returns an error only.
abbrev pub Check : Type 0 → Type 0
Check E = Result E (Unit {0})

-- An early return with `e` unless the test holds.
abbrev pub require : {E : Type 0} → Bool → E → Check E
require false e = err e
require true e = ok tt

-- The rest of the function, after a call whose error is handed up.
infixl 5 ◌>>=◌ ◌>>◌
abbrev pub ◌>>=◌ {ℓ} : {E A B : Type ℓ} → Result E A → (A → Result E B) → Result E B
err e >>= rest = err e
ok a >>= rest = rest a

abbrev pub ◌>>◌ : {E B : Type 0} → Check E → Result E B → Result E B
call >> rest = call >>= λ _. rest

-- A function that returned no error got none from the calls before.
pub >>=-eq-ok {ℓ} :
    {E A B : Type ℓ} (call : Result E A) (rest : A → Result E B) {b : B}
    → (call >>= rest) ≡ ok b
    → (a : A) × (call ≡ ok a) × (rest a ≡ ok b)
>>=-eq-ok (err e) rest h = cc
>>=-eq-ok (ok a) rest h = (a, refl, h)

pub >>-eq-ok :
    {E B : Type 0} (call : Check E) (rest : Result E B) {b : B}
    → (call >> rest) ≡ ok b
    → (call ≡ ok tt) × (rest ≡ ok b)
>>-eq-ok (err e) rest h = cc
>>-eq-ok (ok tt) rest h = (refl, h)

-- What an optional error says of the call that returned it.
abbrev pub is_nil : {E : Type 0} → Option E → Bool
is_nil none = true
is_nil (some e) = false
