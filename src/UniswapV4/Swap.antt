-- ===== src/UniswapV4/Swap.antt =====
-- internal/dex/Etherium/Uniswap/v4_connector.go: what a swap sends and changes. The pricer is any
-- implementation of `pricing.Pricer`; `now k` is the k-th reading of the clock that an event
-- causes, none of which is the zero time.
use screener_cd.Prelude.{
  ℕ, Bool, true, false, not, ◌||◌, ◌&&◌, List, [], ◌∷◌, ◌++◌, Option, none, some, ◌==◌ as eq_ℕ,
  if◌then◌else◌,
}
use screener_cd.Prelude.Dict.{lookup, nat_eq}
use screener_cd.Prelude.Int.{ℤ, pos}
use screener_cd.Text.{Text, codes, eqb, equal_fold, to_lower, to_upper, trim_space, trim_prefix}
use screener_cd.Float.{f_zero, f_nano, f_le, is_unusable}
use screener_cd.Eth.{EthCommon}
use screener_cd.Market.{MarketData}
use screener_cd.Util.Helpers.{normalize_spot_symbol}
use screener_cd.Pricing.Graph.{TokenInfo}
use screener_cd.Pricing.Resolve as Route
use screener_cd.Uniswap.Meta.{TokenMeta}
use screener_cd.Uniswap.Gecko.{is_seen}
use screener_cd.Uniswap.Price.{Rat}
use screener_cd.Uniswap.Amounts.{BigFloat}
use screener_cd.Uniswap.Configs.{V4PoolConfig}
use screener_cd.Uniswap.Connector.{Pricer, info_of, unix_milli, to_list, positive, LogEvent}
use screener_cd.UniswapV4.Fields.{
  Field, BigText, big_int_field, sqrt_price_to_directional_prices, rat_to_float64, calc_swap_weight,
}
use screener_cd.UniswapV4.State.{V4PoolState, V4Connector, SwapMetrics, add_one, store_swap_metrics}

unfoldable pub exchange_name_v4 : Text → Text
exchange_name_v4 configured =
    let name = to_lower (trim_space configured) in if eqb name [] then codes "uniswap_v4" else name

-- Whether a text is there: `symbol == ""` is an early return.
abbrev pub usable_symbol : Text → ℕ → Text → ℕ → Option MarketData
usable_symbol exchange price raw at =
    let symbol = normalize_spot_symbol exchange raw in
    if eqb symbol []
    then none
    else some
        (record { exchange = exchange; symbol = symbol; price = price; timestamp = unix_milli at })

unfoldable pub token_symbol_v4 : EthCommon → TokenMeta → Text
token_symbol_v4 e meta =
    let symbol = to_upper (trim_space meta.symbol) in
    if not (eqb symbol [])
    then symbol
    else if eq_ℕ meta.address 0
    then []
    else to_upper (trim_prefix (e.hex meta.address) (codes "0x"))

-- The events of the contract by their signatures, the decoding of their data, and `Int64`.
pub record Abi : Type 0 where
  pub event_of : ℕ → Option Text
  pub decode : Text → Option (List ℕ)
  pub unpack : List ℕ → Option (List (Text × Field))
  pub text : BigText
  pub to_int64 : ℤ → ℤ
  pub hash : Text → ℕ

pub data SwapResult : Type 0 where
  handled : SwapResult
  once_complete : SwapResult
  abi_failed : SwapResult

abbrev pub or_zero : Option ℕ → ℕ
or_zero none = f_zero
or_zero (some v) = v

-- A conversion that fails counts.
abbrev pub count_none : Option ℕ → ℕ → ℕ
count_none none n = add_one n
count_none (some v) n = n

abbrev pub tick_of : Abi → Option ℤ → ℤ
tick_of a none = pos 0
tick_of a (some n) = a.to_int64 n

module _ {P : Type 0} (e : EthCommon) (b : BigFloat) (pricer : Pricer P) (exchange : Text) where
  unfoldable pub emit_spot : TokenMeta → TokenMeta → ℕ → Option ℕ → Option MarketData
  emit_spot base quote at none = none
  emit_spot base quote at (some price) =
      let base_sym = token_symbol_v4 e base in
      let quote_sym = token_symbol_v4 e quote in
      if is_unusable price
      then none
      else if eqb base_sym [] || eqb quote_sym []
      then none
      else usable_symbol exchange price (base_sym ++ quote_sym) at

  unfoldable pub emit_usd_v4 : ℕ → ℕ → TokenInfo → P → Option MarketData
  emit_usd_v4 clock at info g = resolved (pricer.resolve_usd clock info g)
    where
      raw : Text
      raw =
          let symbol = to_upper (trim_space info.symbol) in
          if eqb symbol [] then to_upper (trim_prefix (e.hex info.address) (codes "0x")) else symbol

      resolved : Route.Result × Bool → Option MarketData
      resolved (res, found) =
          if not found || is_unusable res.price
          then none
          else usable_symbol exchange res.price (raw ++ codes "USD") at

  unfoldable pub register_token_v4 : TokenMeta → List ℕ × P → List ℕ × P
  register_token_v4 meta (known, g) =
      let named = pricer.register_token (info_of meta) g in
      if eq_ℕ meta.address 0 || is_seen meta.address known
      then (known, g)
      else if meta.is_stable
      then (meta.address ∷ known, pricer.register_stable (info_of meta) named)
      else (meta.address ∷ known, named)

  abbrev pub update_with : ℕ → ℕ → TokenInfo → TokenInfo → Option ℕ → ℕ → P → P
  update_with clock at s t none weight g = g
  update_with clock at s t (some price) weight g = pricer.update_pair clock s t price weight at g

  abbrev pub is_absent : Option ℕ → Bool
  is_absent none = true
  is_absent (some v) = false

  -- The prices are those that are valid and positive.
  unfoldable pub update_pricing_v4 :
      (ℕ → ℕ) → V4PoolConfig → Option ℕ → Option ℕ → ℕ → V4Connector P → V4Connector P
  update_pricing_v4 now meta price1 price0 weight c =
      let w = if is_unusable weight then f_nano else weight in
      let info0 = info_of meta.token0 in
      let info1 = info_of meta.token1 in
      let g1 = update_with (now 1) (now 0) info0 info1 price1 w c.pricer in
      let g2 = update_with (now 1) (now 0) info1 info0 price0 w g1 in
      if is_absent price1 && is_absent price0 then c else record c {
        pricer = g2;
        success_updates = add_one c.success_updates;
        out =
            c.out
            ++ (to_list (emit_spot meta.token0 meta.token1 (now 0) price1)
                ++ (to_list (emit_spot meta.token1 meta.token0 (now 0) price0)
                    ++ (to_list (emit_usd_v4 (now 2) (now 0) info0 g2)
                        ++ to_list (emit_usd_v4 (now 3) (now 0) info1 g2))));
      }

  -- `handleSwapEvent` from the two prices on, with `Once` as `once`.
  unfoldable pub swap_priced :
      Abi
      → Bool
      → (ℕ → ℕ)
      → ℕ
      → V4PoolState
      → List (Text × Field)
      → Rat
      → Rat
      → V4Connector P
      → SwapResult × V4Connector P
  swap_priced a once now id state fields p1 p0 c =
      let meta = state.meta in
      let v1 = rat_to_float64 b p1 in
      let v0 = rat_to_float64 b p0 in
      let amount0 = big_int_field a.text fields (codes "amount0") in
      let amount1 = big_int_field a.text fields (codes "amount1") in
      let weight = calc_swap_weight b meta amount0 amount1 in
      let metrics : SwapMetrics = record {
        canonical_price = if meta.base_is_token0 then p1 else p0;
        price1_per0 = p1;
        price0_per1 = p0;
        float1 = or_zero v1;
        float0 = or_zero v0;
        weight = if f_le weight f_zero then f_nano else weight;
        amount0 = amount0;
        amount1 = amount1;
        liquidity = big_int_field a.text fields (codes "liquidity");
        fee = big_int_field a.text fields (codes "fee");
        tick = tick_of a (big_int_field a.text fields (codes "tick"));
        at = now 0;
      } in
      let stored = store_swap_metrics once id state metrics c.pools in
      let both =
        register_token_v4 meta.token1 (register_token_v4 meta.token0 (c.registered, c.pricer)) in
      let reg = if state.registered then (c.registered, c.pricer) else both in
      let c' : V4Connector P = record {
        pools = stored.0;
        registered = reg.0;
        success_updates = c.success_updates;
        conversion_errors = count_none v0 (count_none v1 c.conversion_errors);
        unknown_pool_events = c.unknown_pool_events;
        pricer = reg.1;
        out = c.out;
      } in
      (
        if once && stored.1.marked && stored.1.completed then once_complete else handled,
        update_pricing_v4 now meta (positive v1) (positive v0) metrics.weight c',
      )

  abbrev pub with_root :
      Abi
      → Bool
      → (ℕ → ℕ)
      → ℕ
      → V4PoolState
      → List (Text × Field)
      → Option (Rat × Option Rat)
      → V4Connector P
      → SwapResult × V4Connector P
  with_root a once now id state fields none c = (handled, c)
  with_root a once now id state fields (some (p1, none)) c = (handled, c)
  with_root a once now id state fields (some (p1, some p0)) c =
      swap_priced a once now id state fields p1 p0 c

  abbrev pub with_sqrt :
      Abi
      → Bool
      → (ℕ → ℕ)
      → ℕ
      → V4PoolState
      → List (Text × Field)
      → Option ℤ
      → V4Connector P
      → SwapResult × V4Connector P
  with_sqrt a once now id state fields none c = (handled, c)
  with_sqrt a once now id state fields (some sqrt) c =
      with_root a once now id state fields (sqrt_price_to_directional_prices state.meta sqrt) c

  abbrev pub with_fields :
      Abi
      → Bool
      → (ℕ → ℕ)
      → ℕ
      → V4PoolState
      → Option (List (Text × Field))
      → V4Connector P
      → SwapResult × V4Connector P
  with_fields a once now id state none c = (handled, c)
  with_fields a once now id state (some fields) c =
      with_sqrt a once now id state fields (big_int_field a.text fields (codes "sqrtPriceX96")) c

  abbrev pub with_payload :
      Abi
      → Bool
      → (ℕ → ℕ)
      → ℕ
      → V4PoolState
      → Option (List ℕ)
      → V4Connector P
      → SwapResult × V4Connector P
  with_payload a once now id state none c = (handled, c)
  with_payload a once now id state (some payload) c =
      with_fields a once now id state (a.unpack payload) c

  -- The data of a swap of a pool that is known, or an event of one that is not.
  unfoldable pub with_pool :
      Abi
      → Bool
      → (ℕ → ℕ)
      → ℕ
      → Text
      → Option V4PoolState
      → V4Connector P
      → SwapResult × V4Connector P
  with_pool a once now id payload none c =
      (handled, record c { unknown_pool_events = add_one c.unknown_pool_events })
  with_pool a once now id payload (some state) c =
      let field = trim_space payload in
      if eqb field [] || equal_fold field (codes "0x")
      then (handled, c)
      else with_payload a once now id state (a.decode field) c

  abbrev pub handle_swap_event :
      Abi → Bool → (ℕ → ℕ) → LogEvent → List Text → V4Connector P → SwapResult × V4Connector P
  handle_swap_event a once now ev [] c = (handled, c)
  handle_swap_event a once now ev (sig ∷ []) c = (handled, c)
  handle_swap_event a once now ev (sig ∷ topic ∷ rest) c =
      with_pool a once now (a.hash topic) ev.payload (lookup (a.hash topic) c.pools) c
