-- ===== src/Uniswap/Price.antt =====
-- internal/dex/Etherium/Uniswap/v2_connector.go: reserves, prices as exact fractions, and the
-- filter on small changes. A big.Rat is a fraction that need not be in lowest terms.
use screener_cd.Prelude.{
  ℕ, ◌+◌, ◌-◌, ◌*◌, ◌^◌, Bool, true, false, ◌||◌, List, Option, none, some, ltb, ◌==◌,
  if◌then◌else◌, length, take, drop,
}
use screener_cd.Prelude.Result.{Result, ok, err}
use screener_cd.Text.{Text, codes, trim_prefix}
use screener_cd.Text.Hex.{decode_hex, from_bytes}
use screener_cd.Uniswap.Meta.{PoolConfig}

-- The denominator is not zero, and no price is negative.
pub record Rat : Type 0 where
  pub num : ℕ
  pub den : ℕ

pub record PoolSnapshot : Type 0 where
  pub price : Option Rat
  pub reserve0 : ℕ
  pub reserve1 : ℕ

pub data SnapshotError : Type 0 where
  invalid_payload : SnapshotError
  invalid_hex : SnapshotError

abbrev pub ten_pow : ℕ → ℕ
ten_pow dec = 10 ^ dec

-- (num / 10^num_dec) / (den / 10^den_dec)
unfoldable pub ratio : ℕ → ℕ → ℕ → ℕ → Option Rat
ratio num num_dec den den_dec =
    if den == 0
    then none
    else some (record { num = num * ten_pow den_dec; den = ten_pow num_dec * den })

unfoldable pub price_of : PoolConfig → ℕ → ℕ → Option Rat
price_of pool r0 r1 =
    if pool.base_is_token0
    then ratio r1 pool.token1.decimals r0 pool.token0.decimals
    else ratio r0 pool.token0.decimals r1 pool.token1.decimals

-- The snapshot of two reserves; `none` if one of them is zero.
unfoldable pub snapshot_of : PoolConfig → ℕ → ℕ → Option PoolSnapshot
snapshot_of pool r0 r1 =
    if r0 == 0 || r1 == 0
    then none
    else some (record { price = price_of pool r0 r1; reserve0 = r0; reserve1 = r1 })

abbrev pub decoded_snapshot :
    PoolConfig → Option (List ℕ) → Result SnapshotError (Option PoolSnapshot)
decoded_snapshot pool none = err invalid_hex
decoded_snapshot pool (some payload) =
    ok (snapshot_of pool (from_bytes (take 32 payload)) (from_bytes (take 32 (drop 32 payload))))

unfoldable pub compute_snapshot : PoolConfig → Text → Result SnapshotError (Option PoolSnapshot)
compute_snapshot pool raw =
    let digits = trim_prefix raw (codes "0x") in
    if ltb (length digits) 128
    then err invalid_payload
    else decoded_snapshot pool (decode_hex digits)

unfoldable pub invert : Option Rat → Option Rat
invert none = none
invert (some r) = if r.num == 0 then none else some (record { num = r.den; den = r.num })

-- |a * b - c|
abbrev pub distance : ℕ → ℕ → ℕ
distance a b = (a - b) + (b - a)

-- Whether two fractions are equal: `delta.Sign() == 0`.
unfoldable pub same_rat : Rat → Rat → Bool
same_rat p q = p.num * q.den == q.num * p.den

-- |price - last| < last / 10000
unfoldable pub is_close : Rat → Rat → Bool
is_close price last =
    ltb (distance (price.num * last.den) (last.num * price.den) * 10000) (last.num * price.den)

-- `shouldDrop`, with the last price that it leaves.
unfoldable pub should_drop : Option Rat → Rat → Bool × Rat
should_drop none price = (false, price)
should_drop (some last) price =
    if same_rat price last
    then (true, last)
    else if is_close price last
    then (true, last)
    else (false, price)
