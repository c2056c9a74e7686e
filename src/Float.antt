-- ===== src/Float.antt =====
-- float64 by its 64 bits: the comparisons and the tests for NaN and infinity are those of
-- IEEE 754; the rounded operations are taken as parameters, with no law assumed.
use screener_cd.Prelude.{ℕ, ◌/◌, ◌%◌, ◌^◌, Bool, false, not, ◌&&◌, ◌||◌, ltb, ◌==◌, if◌then◌else◌}

pub record FloatOps : Type 0 where
  pub mul : ℕ → ℕ → ℕ
  pub div : ℕ → ℕ → ℕ
  pub add : ℕ → ℕ → ℕ
  pub sub : ℕ → ℕ → ℕ

-- 0.0, 1.0, -1.0, math.MaxFloat64, 1e-9 and 1e-6
abbrev pub f_zero : ℕ
f_zero = 0

abbrev pub f_one : ℕ
f_one = 0x3ff0000000000000

abbrev pub f_minus_one : ℕ
f_minus_one = 0xbff0000000000000

abbrev pub f_max : ℕ
f_max = 0x7fefffffffffffff

abbrev pub f_nano : ℕ
f_nano = 0x3e112e0be826d695

abbrev pub f_micro : ℕ
f_micro = 0x3eb0c6f7a0b5ed8d

abbrev inf_bits : ℕ
inf_bits = 0x7ff0000000000000

abbrev magnitude : ℕ → ℕ
magnitude x = x % 2 ^ 63

abbrev is_negative : ℕ → Bool
is_negative x = not (x / 2 ^ 63 == 0)

-- math.Abs
unfoldable pub f_abs : ℕ → ℕ
f_abs x = magnitude x

-- math.IsNaN
unfoldable pub is_nan : ℕ → Bool
is_nan x = ltb inf_bits (magnitude x)

-- math.IsInf(x, 0)
unfoldable pub is_inf : ℕ → Bool
is_inf x = magnitude x == inf_bits

-- x < y and x <= y of two values that are no NaN.
abbrev lt_bits : ℕ → ℕ → Bool
lt_bits x y =
    if is_negative x
    then (if is_negative y
        then ltb (magnitude y) (magnitude x)
        else not (magnitude x == 0 && magnitude y == 0))
    else (if is_negative y then false else ltb (magnitude x) (magnitude y))

unfoldable pub f_lt : ℕ → ℕ → Bool
unfolding is_nan
f_lt x y = not (is_nan x) && not (is_nan y) && lt_bits x y

unfoldable pub f_le : ℕ → ℕ → Bool
unfolding is_nan
f_le x y = not (is_nan x) && not (is_nan y) && not (lt_bits y x)

-- x == 0
unfoldable pub is_zero : ℕ → Bool
is_zero x = magnitude x == 0

-- The test `x <= 0 || math.IsNaN(x) || math.IsInf(x, 0)`, in whatever order the source writes it.
unfoldable pub is_unusable : ℕ → Bool
unfolding f_le is_nan is_inf
is_unusable x = f_le x f_zero || (is_nan x || is_inf x)
