-- ===== src/Host/Float.antt =====
-- A float64: a finite one is a whole multiple of 2 ^ -1074, and the number counts those.
use nephtys.Prelude.{Bool, true, false, ◌^◌}
use nephtys.Prelude.Int.{ℤ, pos}

pub data Float : Type 0 where
  nan neg_inf pos_inf : Float
  finite : ℤ → Float

-- `math.Abs(a-b) >= delta` for a finite delta: a comparison with NaN is false, the difference of two
-- equal infinities is NaN, and any other difference with an infinity is infinite.
unfoldable pub reaches : (ℤ → ℤ → ℤ → Bool) → Float → Float → ℤ → Bool
reaches far (finite a) (finite b) delta = far a b delta
reaches far nan b delta = false
reaches far pos_inf nan delta = false
reaches far pos_inf pos_inf delta = false
reaches far pos_inf neg_inf delta = true
reaches far pos_inf (finite b) delta = true
reaches far neg_inf nan delta = false
reaches far neg_inf neg_inf delta = false
reaches far neg_inf pos_inf delta = true
reaches far neg_inf (finite b) delta = true
reaches far (finite a) nan delta = false
reaches far (finite a) pos_inf delta = true
reaches far (finite a) neg_inf delta = true

-- 1 and 2, in multiples of 2 ^ -1074
unfoldable pub float_one : ℤ
float_one = pos (2 ^ 1074)

unfoldable pub float_two : ℤ
float_two = pos (2 ^ 1075)
