-- ===== src/UniswapV4/Fields.antt =====
-- internal/dex/Etherium/Uniswap/v4_connector.go: the fields of a decoded event, the prices in them
-- as exact fractions, and their float64.
use screener_cd.Prelude.{ℕ, ◌*◌, ◌^◌, List, [], ◌∷◌, Option, none, some, ◌==◌, if◌then◌else◌}
use screener_cd.Prelude.Int.{ℤ, pos, pos_part, neg_part, nonpos}
use Prim.Native.Nat.{max}
use screener_cd.Prelude.Dict.{lookup}
use screener_cd.Text.{Text, codes, eqb, has_prefix, text_eq}
use screener_cd.Text.Hex.{from_bytes}
use screener_cd.Float.{f_zero, f_le, is_nan, is_inf, is_unusable}
use screener_cd.Uniswap.Price.{Rat, ten_pow, invert}
use screener_cd.Uniswap.Amounts.{BigFloat, reserve_to_float, f_max_of}
use screener_cd.Uniswap.Configs.{V4PoolConfig}

-- What `UnpackIntoMap` puts into the map, by the cases of the type switch of `bigIntField`: a
-- big.Int or a pointer to one, the numerator of a big.Rat, a string, bytes, a machine integer, or
-- any other value.
pub data Field : Type 0 where
  big_int : ℤ → Field
  big_rat : ℤ → Field
  string : Text → Field
  bytes : List ℕ → Field
  integer : ℤ → Field
  other : Field

-- hexutil.DecodeBig and SetString of a big.Int in base ten.
pub record BigText : Type 0 where
  pub decode_big : Text → Option ℤ
  pub set_string : Text → Option ℤ

abbrev pub or_option {ℓ} : {A : Type ℓ} → Option A → Option A → Option A
or_option (some a) b = some a
or_option none b = b

unfoldable pub from_string : BigText → Text → Option ℤ
from_string t v =
    if eqb v []
    then none
    else if has_prefix v (codes "0x")
    then or_option (t.decode_big v) (t.set_string v)
    else t.set_string v

abbrev pub from_field : BigText → Field → Option ℤ
from_field t (big_int n) = some n
from_field t (big_rat n) = some n
from_field t (string v) = from_string t v
from_field t (bytes []) = none
from_field t (bytes (b ∷ bs)) = some (pos (from_bytes (b ∷ bs)))
from_field t (integer n) = some n
from_field t other = none

abbrev pub from_entry : BigText → Option Field → Option ℤ
from_entry t none = none
from_entry t (some f) = from_field t f

unfoldable pub big_int_field : BigText → List (Text × Field) → Text → Option ℤ
big_int_field t fields key = from_entry t (lookup key fields)

-- The price of token 0 in token 1, and its inverse; `none` if the root is not positive.
unfoldable pub sqrt_price_to_directional_prices : V4PoolConfig → ℤ → Option (Rat × Option Rat)
sqrt_price_to_directional_prices pool sqrt =
    let root = pos_part sqrt in
    let price : Rat = record {
      num = root * root * ten_pow pool.token0.decimals;
      den = 2 ^ 192 * ten_pow pool.token1.decimals;
    } in
    if nonpos sqrt then none else some (price, invert (some price))

-- `ratToFloat64`; `none` where it gives a reason.
unfoldable pub rat_to_float64 : BigFloat → Rat → Option ℕ
rat_to_float64 b r =
    let val = b.of_rat r in
    if r.num == 0
    then none
    else if is_nan val
    then none
    else if is_inf val
    then none
    else if f_le val f_zero
    then none
    else some val

-- |n|
abbrev pub abs_ℤ : ℤ → ℕ
abs_ℤ n = max (pos_part n) (neg_part n)

abbrev pub amount_to_float : BigFloat → Option ℤ → ℕ → ℕ
amount_to_float b none decimals = f_zero
amount_to_float b (some n) decimals = reserve_to_float b (abs_ℤ n) decimals

unfoldable pub calc_swap_weight : BigFloat → V4PoolConfig → Option ℤ → Option ℤ → ℕ
calc_swap_weight b pool amount0 amount1 =
    let weight =
      f_max_of (amount_to_float b amount0 pool.token0.decimals)
        (amount_to_float b amount1 pool.token1.decimals) in
    if is_unusable weight then f_zero else weight
