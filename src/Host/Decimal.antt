-- ===== src/Host/Decimal.antt =====
-- `strconv.Itoa`, and that `strconv.Atoi` reads back what it writes.
use Prim.Native.Char.{Char, code}
use nephtys.Prelude.{
  ℕ, zero, suc, ◌+◌, ◌*◌, ◌/◌, ◌%◌, ◌<◌, ◌≤◌, ◌≡◌, refl, String, true, false, some, List, [], ◌∷◌,
  ltb, if◌then◌else◌, arith, both-branches, ◌∙◌, is_empty,
}
use nephtys.Prelude.Int.{ℤ, pos, negsuc}
use nephtys.Prelude.Text.{codes}
use nephtys.Host.Number.{atoi, read_digits, read_number, read_signed, to_int, is_digit, max_int}

abbrev digit : ℕ → Char
digit zero = "0"
digit (suc zero) = "1"
digit (suc (suc zero)) = "2"
digit (suc (suc (suc zero))) = "3"
digit (suc (suc (suc (suc zero)))) = "4"
digit (suc (suc (suc (suc (suc zero))))) = "5"
digit (suc (suc (suc (suc (suc (suc zero)))))) = "6"
digit (suc (suc (suc (suc (suc (suc (suc zero))))))) = "7"
digit (suc (suc (suc (suc (suc (suc (suc (suc zero)))))))) = "8"
digit (suc (suc (suc (suc (suc (suc (suc (suc (suc n))))))))) = "9"

-- On fuel: a number has fewer digits than its value plus one.
write : ℕ → ℕ → String → String
write zero n acc = acc
write (suc fuel) n acc =
    let rest = write fuel (n / 10) (String.◌∷◌ (digit (n % 10)) acc) in
    if ltb n 10 then String.◌∷◌ (digit n) acc else rest

unfoldable pub itoa : ℤ → String
unfolding write
itoa (pos n) = write (suc n) n String.[]
itoa (negsuc n) = String.◌∷◌ "-" (write (suc (suc n)) (suc n) String.[])

code-digit : (n : ℕ) → n < 10 → code (digit n) ≡ b'0' + n
code-digit zero l = refl
code-digit (suc zero) l = refl
code-digit (suc (suc zero)) l = refl
code-digit (suc (suc (suc zero))) l = refl
code-digit (suc (suc (suc (suc zero)))) l = refl
code-digit (suc (suc (suc (suc (suc zero))))) l = refl
code-digit (suc (suc (suc (suc (suc (suc zero)))))) l = refl
code-digit (suc (suc (suc (suc (suc (suc (suc zero))))))) l = refl
code-digit (suc (suc (suc (suc (suc (suc (suc (suc zero)))))))) l = refl
code-digit (suc (suc (suc (suc (suc (suc (suc (suc (suc zero))))))))) l = refl
code-digit (suc (suc (suc (suc (suc (suc (suc (suc (suc (suc n)))))))))) l = ground (arith, l)

-- Reading on from the digits that are written is reading from the number.
read_digits-write :
    (fuel n : ℕ) (acc : String)
    → n < fuel
    → read_digits 0 (codes (write fuel n acc)) ≡ read_digits n (codes acc)
unfolding write read_digits is_digit
read_digits-write zero n acc l = ground (arith, l)
read_digits-write (suc fuel) n acc l =
    both-branches (λ x. read_digits 0 (codes x) ≡ read_digits n (codes acc)) (ltb n 10)
      (λ e. small e (code-digit n (ground (arith, e))))
      (λ e.
        read_digits-write fuel (n / 10) (String.◌∷◌ (digit (n % 10)) acc) (ground (arith, e, l))
        ∙ one (n / 10) (n % 10) (omega arith) n (omega arith))
  where
    one :
        (h d : ℕ)
        → d < 10
        → (n : ℕ) → h * 10 + d ≡ n
        → read_digits h (code (digit d) ∷ codes acc) ≡ read_digits n (codes acc)
    one h d l n e = ground (arith, code-digit d l, e)

    small :
        ltb n 10 ≡ true
        → code (digit n) ≡ b'0' + n
        → read_digits 0 (code (digit n) ∷ codes acc) ≡ read_digits n (codes acc)
    small e c = one 0 n (ground (arith, e)) n (omega arith)

write_not_empty :
    (fuel n : ℕ) (acc : String) → n < fuel → is_empty (codes (write fuel n acc)) ≡ false
unfolding write
write_not_empty zero n acc l = ground (arith, l)
write_not_empty (suc fuel) n acc l =
    both-branches (λ x. is_empty (codes x) ≡ false) (ltb n 10) (λ _. refl)
      (λ e. write_not_empty fuel (n / 10) (String.◌∷◌ (digit (n % 10)) acc) (ground (arith, e, l)))

read_signed-digits :
    (l : List ℕ) (n : ℕ)
    → is_empty l ≡ false
    → read_digits 0 l ≡ some n
    → n ≤ max_int
    → read_signed l ≡ some (pos n)
unfolding read_signed read_number to_int read_digits is_digit
read_signed-digits [] n e r b = cc
read_signed-digits (c ∷ cs) n e r b = ground (arith, r, b)

-- Atoi reads back what Itoa writes of a number that fits an int.
pub atoi-itoa : (n : ℕ) → n ≤ max_int → atoi (itoa (pos n)) ≡ some (pos n)
unfolding atoi itoa read_digits
atoi-itoa n l =
    let text = write (suc n) n String.[] in
    read_signed-digits (codes text) n (write_not_empty (suc n) n String.[] (omega arith))
      (read_digits-write (suc n) n String.[] (omega arith)) l
