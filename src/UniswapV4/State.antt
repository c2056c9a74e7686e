-- ===== src/UniswapV4/State.antt =====
-- internal/dex/Etherium/Uniswap/v4_connector.go: the state of the connector and of its pools. The
-- fields `loaded` and `loadErr` of a pool are never read or written.
use screener_cd.Prelude.{
  ℕ, ◌+◌, ◌%◌, ◌^◌, Bool, true, false, not, ◌&&◌, List, [], ◌∷◌, Option, some, if◌then◌else◌,
  ◌==◌ as eq_ℕ,
}
use screener_cd.Prelude.Dict.{insert, nat_eq}
use screener_cd.Prelude.Int.{ℤ}
use screener_cd.Market.{MarketData}
use screener_cd.Uniswap.Price.{Rat}
use screener_cd.Uniswap.Configs.{V4PoolConfig}

pub record V4PoolState : Type 0 where
  pub meta : V4PoolConfig
  pub registered : Bool
  pub last_price : Option Rat
  pub last_price1_per0 : Option Rat
  pub last_price0_per1 : Option Rat
  pub last_float1_per0 : ℕ
  pub last_float0_per1 : ℕ
  pub last_weight : ℕ
  pub last_amount0 : Option ℤ
  pub last_amount1 : Option ℤ
  pub last_liquidity : Option ℤ
  pub last_tick : ℤ
  pub last_fee : Option ℤ
  pub once_emitted : Bool
  pub last_update : ℕ

-- The connector, with the tokens it has registered, its three counters and what it has sent.
pub record V4Connector (P : Type 0) : Type 0 where
  pub pools : List (ℕ × V4PoolState)
  pub registered : List ℕ
  pub success_updates : ℕ
  pub conversion_errors : ℕ
  pub unknown_pool_events : ℕ
  pub pricer : P
  pub out : List MarketData

-- atomic.AddUint64(&n, 1)
abbrev pub add_one : ℕ → ℕ
add_one n = (n + 1) % 2 ^ 64

-- What a swap stores in its pool.
pub record SwapMetrics : Type 0 where
  pub canonical_price : Rat
  pub price1_per0 : Rat
  pub price0_per1 : Rat
  pub float1 : ℕ
  pub float0 : ℕ
  pub weight : ℕ
  pub amount0 : Option ℤ
  pub amount1 : Option ℤ
  pub liquidity : Option ℤ
  pub fee : Option ℤ
  pub tick : ℤ
  pub at : ℕ

pub record OnceStatus : Type 0 where
  pub marked : Bool
  pub remaining : ℕ
  pub completed : Bool

-- How many pools have not been marked.
unfoldable pub unmarked : List (ℕ × V4PoolState) → ℕ
unmarked [] = 0
unmarked ((id, p) ∷ ps) = let rest = unmarked ps in if p.once_emitted then rest else rest + 1

unfoldable pub store : Bool → SwapMetrics → V4PoolState → V4PoolState
store once s p = record p {
  registered = true;
  last_price = some s.canonical_price;
  last_price1_per0 = some s.price1_per0;
  last_price0_per1 = some s.price0_per1;
  last_float1_per0 = s.float1;
  last_float0_per1 = s.float0;
  last_weight = s.weight;
  last_amount0 = s.amount0;
  last_amount1 = s.amount1;
  last_liquidity = s.liquidity;
  last_tick = s.tick;
  last_fee = s.fee;
  once_emitted = if once then true else p.once_emitted;
  last_update = s.at;
}

unfoldable pub once_status : Bool → V4PoolState → List (ℕ × V4PoolState) → OnceStatus
once_status once before pools =
    if once && not before.once_emitted
    then record { marked = true; remaining = unmarked pools; completed = eq_ℕ (unmarked pools) 0 }
    else record { marked = false; remaining = 0; completed = false }

-- `storeSwapMetrics` of a pool that is there: the pools after it, and the status.
unfoldable pub store_swap_metrics :
    Bool
    → ℕ
    → V4PoolState
    → SwapMetrics
    → List (ℕ × V4PoolState)
    → List (ℕ × V4PoolState) × OnceStatus
store_swap_metrics once id p s pools =
    let pools' = insert id (store once s p) pools in (pools', once_status once p pools')
