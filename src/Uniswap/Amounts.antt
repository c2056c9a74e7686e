-- ===== src/Uniswap/Amounts.antt =====
-- internal/dex/Etherium/Uniswap/v2_connector.go: fractions and reserves as float64. What
-- math/big rounds is a parameter, with no law assumed.
use screener_cd.Prelude.{ℕ, ◌||◌, ◌&&◌, Option, none, some, ltb, ◌==◌, if◌then◌else◌}
use screener_cd.Float.{f_zero, f_nano, f_lt, f_le, is_nan, is_inf, is_zero}
use screener_cd.Uniswap.Meta.{PoolConfig}
use screener_cd.Uniswap.Price.{Rat, PoolSnapshot, ten_pow}

-- A big.Float of 256 bits, and then `Float64`: of a fraction, of a number, and of the quotient
-- of two numbers.
pub record BigFloat : Type 0 where
  pub of_rat : Rat → ℕ
  pub of_int : ℕ → ℕ
  pub of_quo : ℕ → ℕ → ℕ

-- math.Max of two values that are neither NaN nor infinite.
unfoldable pub f_max_of : ℕ → ℕ → ℕ
f_max_of x y =
    if is_zero x && is_zero y then (if x == f_zero then x else y) else if f_lt y x then x else y

module _ (b : BigFloat) where
  -- `none` where the second result is false.
  unfoldable pub rat_to_float : Option Rat → Option ℕ
  rat_to_float none = none
  rat_to_float (some r) = let f = b.of_rat r in if is_nan f || is_inf f then none else some f

  unfoldable pub reserve_to_float : ℕ → ℕ → ℕ
  reserve_to_float reserve decimals =
      let val = if ltb 0 decimals then b.of_quo reserve (ten_pow decimals) else b.of_int reserve in
      if reserve == 0 then f_zero else if is_nan val || is_inf val then f_zero else val

  unfoldable pub reserve_weight : PoolSnapshot → PoolConfig → ℕ
  reserve_weight snap meta =
      let weight =
        f_max_of (reserve_to_float snap.reserve0 meta.token0.decimals)
          (reserve_to_float snap.reserve1 meta.token1.decimals) in
      if f_le weight f_zero then f_nano else weight
