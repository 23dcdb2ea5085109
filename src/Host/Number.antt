-- ===== src/Host/Number.antt =====
-- `strconv.Atoi`, `strconv.Itoa` and `strings.Split`.
use Prim.Native.Char.{Char, code}
use nephtys.Prelude.{
  ℕ, zero, suc, ◌+◌, ◌-◌, ◌*◌, ◌^◌, String, Bool, Option, none, some, List, [], ◌∷◌, ◌&&◌, leb,
  ◌==◌, if◌then◌else◌,
}
use nephtys.Prelude.Int.{ℤ, pos, negsuc}
use nephtys.Prelude.Text.{codes}

unfoldable pub is_digit : ℕ → Bool
is_digit c = leb b'0' c && leb c b'9'

unfoldable pub read_digits : ℕ → List ℕ → Option ℕ
unfolding is_digit
read_digits n [] = some n
read_digits n (c ∷ cs) =
    let rest = read_digits (n * 10 + (c - b'0')) cs in if is_digit c then rest else none

-- A sign with no digit behind it is an error, and so is the empty text.
unfoldable pub read_number : List ℕ → Option ℕ
unfolding read_digits
read_number [] = none
read_number (c ∷ cs) = read_digits 0 (c ∷ cs)

abbrev pub max_int : ℕ
max_int = 2 ^ 63 - 1

unfoldable pub to_int : Option ℕ → Option ℤ
to_int none = none
to_int (some n) = if leb n max_int then some (pos n) else none

unfoldable pub to_negative : Option ℕ → Option ℤ
to_negative none = none
to_negative (some zero) = some (pos 0)
to_negative (some (suc n)) = if leb n max_int then some (negsuc n) else none

unfoldable pub read_signed : List ℕ → Option ℤ
unfolding read_number to_int to_negative
read_signed [] = none
read_signed (c ∷ cs) =
    if c == b'-'
    then to_negative (read_number cs)
    else if c == b'+'
    then to_int (read_number cs)
    else to_int (read_number (c ∷ cs))

unfoldable pub atoi : String → Option ℤ
unfolding read_signed
atoi s = read_signed (codes s)

prefix_first : Char → List String → List String
prefix_first c [] = []
prefix_first c (s ∷ ss) = (String.◌∷◌ c s) ∷ ss

-- `strings.Split(path, ".")`
unfoldable pub split_dots : String → List String
unfolding prefix_first
split_dots String.[] = String.[] ∷ []
split_dots (String.◌∷◌ c s) =
    let rest = split_dots s in if code c == b'.' then String.[] ∷ rest else prefix_first c rest
