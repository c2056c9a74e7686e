-- ===== src/UniswapV4/Safe.antt =====
-- What a stream sends, what it leaves in the pricer, and how often it asks again.
use screener_cd.Prelude.{
  ℕ, ◌≡◌, refl, inl, inr, Bool, false, not, ◌||◌, ◌&&◌, List, [], ◌∷◌, Option, none, some, ◌==◌,
  Bool-cases, Option-cases, All, All-append,
}
use screener_cd.Prelude.Dict.{lookup, nat_eq}
use screener_cd.Prelude.Int.{ℤ}
use screener_cd.Text.{Text, codes, eqb, equal_fold, trim_space}
use screener_cd.Float.{is_unusable}
use screener_cd.Eth.{EthCommon}
use screener_cd.Market.{MarketData}
use screener_cd.Util.Helpers.{normalize_spot_symbol}
use screener_cd.Pricing.Graph.{TokenInfo}
use screener_cd.Uniswap.Gecko.{is_seen}
use screener_cd.Uniswap.Meta.{TokenMeta}
use screener_cd.Uniswap.Price.{Rat}
use screener_cd.Uniswap.Amounts.{BigFloat}
use screener_cd.Uniswap.Configs.{V4PoolConfig}
use screener_cd.Uniswap.Connector.{Pricer, info_of, to_list, LogEvent, Json}
use screener_cd.Uniswap.Published.{KeptBy}
use screener_cd.UniswapV4.Fields.{Field, big_int_field, sqrt_price_to_directional_prices}
use screener_cd.UniswapV4.State.{V4PoolState, V4Connector}
use screener_cd.UniswapV4.Swap.{
  Abi, usable_symbol, token_symbol_v4, emit_spot, emit_usd_v4, register_token_v4, update_with,
  is_absent, update_pricing_v4, swap_priced, with_sqrt, with_payload, with_pool, handle_swap_event,
}

-- A price that is positive and finite, under the connector's name and a symbol.
pub record IsQuote (name : Text) (md : MarketData) : Type 0 where
  pub usable : is_unusable md.price ≡ false
  pub named : md.exchange ≡ name
  pub symbolic : eqb md.symbol [] ≡ false

usable_symbol-IsQuote :
    (name : Text) (price : ℕ) (raw : Text) (at : ℕ)
    → is_unusable price ≡ false
    → All (IsQuote name) (to_list (usable_symbol name price raw at))
usable_symbol-IsQuote name price raw at h =
    elim (Bool-cases (eqb (normalize_spot_symbol name raw) [])) [
      | inl empty ↦ rw empty tt
      | inr filled ↦ rw filled (record { usable = h; named = refl; symbolic = filled }, tt)
    ]

module _ {P : Type 0} (e : EthCommon) (b : BigFloat) (json : Json) (pricer : Pricer P) (name : Text)
    (I : P → Type 0) (kept : KeptBy P pricer I) where
  emit_spot-IsQuote :
      (base quote : TokenMeta) (at : ℕ) (price : Option ℕ)
      → All (IsQuote name) (to_list (emit_spot e b pricer name base quote at price))
  unfolding emit_spot
  emit_spot-IsQuote base quote at none = tt
  emit_spot-IsQuote base quote at (some price) = elim (Bool-cases (is_unusable price)) [
    | inl bad ↦ rw bad tt
    | inr good ↦
        elim (Bool-cases (eqb (token_symbol_v4 e base) [] || eqb (token_symbol_v4 e quote) [])) [
          | inl empty ↦ rw (good, empty) tt
          | inr filled ↦ rw (good, filled) (usable_symbol-IsQuote name price _ at good)
        ]
  ]

  emit_usd_v4-IsQuote :
      (clock at : ℕ) (info : TokenInfo) (g : P)
      → All (IsQuote name) (to_list (emit_usd_v4 e b pricer name clock at info g))
  unfolding emit_usd_v4
  emit_usd_v4-IsQuote clock at info g =
      let r = pricer.resolve_usd clock info g in
      elim (Bool-cases (not r.1)) [
        | inl absent ↦ rw absent tt
        | inr found ↦ elim (Bool-cases (is_unusable r.0.price)) [
          | inl bad ↦ rw (found, bad) tt
          | inr good ↦ rw (found, good) (usable_symbol-IsQuote name r.0.price _ at good)
        ]
      ]

  pub register_token_v4-kept :
      (t : TokenMeta) (kg : List ℕ × P) → I kg.1 → I (register_token_v4 e b pricer name t kg).1
  unfolding register_token_v4
  register_token_v4-kept t (known, g) h =
      elim (Bool-cases (t.address == 0 || is_seen t.address known)) [
        | inl again ↦ rw again h
        | inr new ↦ elim (Bool-cases t.is_stable) [
          | inl stable ↦
              rw (new, stable) (kept.by_stable (info_of t) _ (kept.by_token (info_of t) g h))
          | inr other ↦ rw (new, other) (kept.by_token (info_of t) g h)
        ]
      ]

  update_with-kept :
      (clock at : ℕ) (s t : TokenInfo) (price : Option ℕ) (weight : ℕ) (g : P)
      → I g
      → I (update_with e b pricer name clock at s t price weight g)
  update_with-kept clock at s t none weight g h = h
  update_with-kept clock at s t (some price) weight g h = kept.by_pair clock s t price weight at g h

  -- What holds of a connector at all times.
  abbrev pub IsQuoting : V4Connector P → Type 0
  IsQuoting c = I c.pricer × All (IsQuote name) c.out

  update_pricing_v4-IsQuoting :
      (now : ℕ → ℕ) (meta : V4PoolConfig) (price1 price0 : Option ℕ) (weight : ℕ)
      (c : V4Connector P)
      → IsQuoting c
      → IsQuoting (update_pricing_v4 e b pricer name now meta price1 price0 weight c)
  unfolding update_pricing_v4
  update_pricing_v4-IsQuoting now meta price1 price0 weight c (held, sent) =
      elim (Bool-cases (is_absent e b pricer name price1 && is_absent e b pricer name price0)) [
        | inl nothing ↦ rw nothing (held, sent)
        | inr something ↦ rw something (
          update_with-kept _ _ _ _ price0 _ _ (update_with-kept _ _ _ _ price1 _ _ held),
          All-append (IsQuote name) c.out _ sent (
              All-append (IsQuote name)
                (to_list (emit_spot e b pricer name meta.token0 meta.token1 (now 0) price1)) _
                (emit_spot-IsQuote meta.token0 meta.token1 (now 0) price1)
                (All-append (IsQuote name)
                  (to_list (emit_spot e b pricer name meta.token1 meta.token0 (now 0) price0)) _
                  (emit_spot-IsQuote meta.token1 meta.token0 (now 0) price0)
                  (All-append (IsQuote name)
                    (to_list (emit_usd_v4 e b pricer name (now 2) (now 0) (info_of meta.token0) _))
                    _ (emit_usd_v4-IsQuote (now 2) (now 0) (info_of meta.token0) _)
                    (emit_usd_v4-IsQuote (now 3) (now 0) (info_of meta.token1) _)))),
        )
      ]

  module _ (a : Abi) (once : Bool) (now : ℕ → ℕ) where
    swap_priced-IsQuoting :
        (id : ℕ) (state : V4PoolState) (fields : List (Text × Field)) (p1 p0 : Rat)
        (c : V4Connector P)
        → IsQuoting c
        → IsQuoting (swap_priced e b pricer name a once now id state fields p1 p0 c).1
    unfolding swap_priced
    swap_priced-IsQuoting id state fields p1 p0 c (held, sent) =
        let meta = state.meta in
        let both =
          register_token_v4-kept meta.token1 _
            (register_token_v4-kept meta.token0 (c.registered, c.pricer) held) in
        elim (Bool-cases state.registered) [
          | inl known ↦ rw known (update_pricing_v4-IsQuoting now meta _ _ _ _ (held, sent))
          | inr new ↦ rw new (update_pricing_v4-IsQuoting now meta _ _ _ _ (both, sent))
        ]

    with_sqrt-IsQuoting :
        (id : ℕ) (state : V4PoolState) (fields : List (Text × Field)) (sqrt : Option ℤ)
        (c : V4Connector P)
        → IsQuoting c
        → IsQuoting (with_sqrt e b pricer name a once now id state fields sqrt c).1
    with_sqrt-IsQuoting id state fields none c h = h
    with_sqrt-IsQuoting id state fields (some sqrt) c h =
        elim (Option-cases (sqrt_price_to_directional_prices state.meta sqrt)) [
          | inl not_positive ↦ rw not_positive h
          | inr ((p1, none), found) ↦ rw found h
          | inr ((p1, some p0), found) ↦ rw found (swap_priced-IsQuoting id state fields p1 p0 c h)
        ]

    with_payload-IsQuoting :
        (id : ℕ) (state : V4PoolState) (payload : Option (List ℕ)) (c : V4Connector P)
        → IsQuoting c
        → IsQuoting (with_payload e b pricer name a once now id state payload c).1
    with_payload-IsQuoting id state none c h = h
    with_payload-IsQuoting id state (some payload) c h = elim (Option-cases (a.unpack payload)) [
      | inl malformed ↦ rw malformed h
      | inr (fields, found) ↦ rw found (
          with_sqrt-IsQuoting id state fields (big_int_field a.text fields (codes "sqrtPriceX96")) c
            h)
    ]

    with_pool-IsQuoting :
        (id : ℕ) (payload : Text) (o : Option V4PoolState) (c : V4Connector P)
        → IsQuoting c
        → IsQuoting (with_pool e b pricer name a once now id payload o c).1
    unfolding with_pool
    with_pool-IsQuoting id payload none c h = h
    with_pool-IsQuoting id payload (some state) c h =
        let field = trim_space payload in
        elim (Bool-cases (eqb field [] || equal_fold field (codes "0x"))) [
          | inl empty ↦ rw empty h
          | inr filled ↦ rw filled (with_payload-IsQuoting id state (a.decode field) c h)
        ]

    pub handle_swap_event-IsQuoting :
        (ev : LogEvent) (topics : List Text) (c : V4Connector P)
        → IsQuoting c
        → IsQuoting (handle_swap_event e b pricer name a once now ev topics c).1
    handle_swap_event-IsQuoting ev [] c h = h
    handle_swap_event-IsQuoting ev (sig ∷ []) c h = h
    handle_swap_event-IsQuoting ev (sig ∷ topic ∷ rest) c h =
        with_pool-IsQuoting (a.hash topic) ev.payload (lookup (a.hash topic) c.pools) c h
