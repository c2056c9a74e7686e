-- ===== src/UniswapV4/Once.antt =====
-- When a connector that is to publish each pool once is complete.
use mathlib.Core.Path.{subst⁻¹}
use screener_cd.Prelude.{
  ℕ, ◌≡◌, refl, inl, inr, Bool, true, false, not, ◌||◌, ◌&&◌, List, [], ◌∷◌, Option, none, some,
  arith, if◌then◌else◌, Bool-cases, Option-cases, All,
}
use screener_cd.Prelude.Dict.{lookup, nat_eq}
use screener_cd.Prelude.Int.{ℤ}
use screener_cd.Text.{Text, codes, eqb, equal_fold, trim_space}
use screener_cd.Eth.{EthCommon}
use screener_cd.Uniswap.Price.{Rat}
use screener_cd.Uniswap.Amounts.{BigFloat}
use screener_cd.Uniswap.Configs.{V4PoolConfig}
use screener_cd.Uniswap.Connector.{Pricer, LogEvent}
use screener_cd.UniswapV4.Fields.{Field, big_int_field, sqrt_price_to_directional_prices}
use screener_cd.UniswapV4.State.{
  V4PoolState, V4Connector, unmarked, once_status, store_swap_metrics,
}
use screener_cd.UniswapV4.Swap.{
  Abi, SwapResult, handled, once_complete, is_absent, update_pricing_v4, swap_priced, with_sqrt,
  with_payload, with_pool, handle_swap_event,
}

abbrev pub IsEmitted : List (ℕ × V4PoolState) → Type 0
IsEmitted = All (λ x. x.1.once_emitted ≡ true)

unmarked-IsEmitted : (ps : List (ℕ × V4PoolState)) → unmarked ps ≡ 0 → IsEmitted ps
unfolding unmarked
unmarked-IsEmitted [] h = tt
unmarked-IsEmitted ((id, p) ∷ ps) h = elim (Bool-cases p.once_emitted) [
  | inl emitted ↦ (emitted, unmarked-IsEmitted ps (rw emitted at h))
  | inr silent ↦ absurd (omega (arith, rw silent at h))
]

once_status-IsEmitted :
    (once : Bool) (p : V4PoolState) (ps : List (ℕ × V4PoolState))
    → (once_status once p ps).completed ≡ true
    → IsEmitted ps
unfolding once_status
once_status-IsEmitted once p ps h = elim (Bool-cases (once && not p.once_emitted)) [
  | inl marks ↦ unmarked-IsEmitted ps (ground (arith, rw marks at h))
  | inr rests ↦ absurd (cc (rw rests at h))
]

-- What the result `once_complete` means.
abbrev pub IsComplete : {P : Type 0} → SwapResult × V4Connector P → Type 0
IsComplete r = r.0 ≡ once_complete → IsEmitted r.1.pools

and_last :
    (a b c : Bool) → (if a && b && c then once_complete else handled) ≡ once_complete → c ≡ true
and_last true true true h = refl
and_last true true false h = cc
and_last true false c h = cc
and_last false b c h = cc

module _ {P : Type 0} (e : EthCommon) (b : BigFloat) (pricer : Pricer P) (name : Text) (a : Abi)
    (once : Bool) (now : ℕ → ℕ) where
  update_pricing_v4-pools :
      (meta : V4PoolConfig) (price1 price0 : Option ℕ) (weight : ℕ) (c : V4Connector P)
      → (update_pricing_v4 e b pricer name now meta price1 price0 weight c).pools ≡ c.pools
  unfolding update_pricing_v4
  update_pricing_v4-pools meta price1 price0 weight c =
      elim (Bool-cases (is_absent e b pricer name price1 && is_absent e b pricer name price0)) [
        | inl nothing ↦ rw nothing refl
        | inr something ↦ rw something refl
      ]

  swap_priced-IsComplete :
      (id : ℕ) (state : V4PoolState) (fields : List (Text × Field)) (p1 p0 : Rat)
      (c : V4Connector P)
      → IsComplete (swap_priced e b pricer name a once now id state fields p1 p0 c)
  unfolding swap_priced store_swap_metrics
  swap_priced-IsComplete id state fields p1 p0 c h =
      subst⁻¹ IsEmitted (update_pricing_v4-pools _ _ _ _ _)
        (once_status-IsEmitted once state _ (and_last once _ _ h))

  with_sqrt-IsComplete :
      (id : ℕ) (state : V4PoolState) (fields : List (Text × Field)) (sqrt : Option ℤ)
      (c : V4Connector P)
      → IsComplete (with_sqrt e b pricer name a once now id state fields sqrt c)
  with_sqrt-IsComplete id state fields none c = λ h. cc
  with_sqrt-IsComplete id state fields (some sqrt) c =
      elim (Option-cases (sqrt_price_to_directional_prices state.meta sqrt)) [
        | inl not_positive ↦ rw not_positive (λ h. cc)
        | inr ((p1, none), found) ↦ rw found (λ h. cc)
        | inr ((p1, some p0), found) ↦ rw found (swap_priced-IsComplete id state fields p1 p0 c)
      ]

  with_payload-IsComplete :
      (id : ℕ) (state : V4PoolState) (payload : Option (List ℕ)) (c : V4Connector P)
      → IsComplete (with_payload e b pricer name a once now id state payload c)
  with_payload-IsComplete id state none c = λ h. cc
  with_payload-IsComplete id state (some payload) c = elim (Option-cases (a.unpack payload)) [
    | inl malformed ↦ rw malformed (λ h. cc)
    | inr (fields, found) ↦ rw found (
        with_sqrt-IsComplete id state fields (big_int_field a.text fields (codes "sqrtPriceX96")) c)
  ]

  with_pool-IsComplete :
      (id : ℕ) (payload : Text) (o : Option V4PoolState) (c : V4Connector P)
      → IsComplete (with_pool e b pricer name a once now id payload o c)
  unfolding with_pool
  with_pool-IsComplete id payload none c = λ h. cc
  with_pool-IsComplete id payload (some state) c =
      let field = trim_space payload in
      elim (Bool-cases (eqb field [] || equal_fold field (codes "0x"))) [
        | inl empty ↦ rw empty (λ h. cc)
        | inr filled ↦ rw filled (with_payload-IsComplete id state (a.decode field) c)
      ]

  -- If the handling of a swap tells that the connector is complete, every pool is marked as
  -- published once.
  pub handle_swap_event-IsComplete :
      (ev : LogEvent) (topics : List Text) (c : V4Connector P)
      → (handle_swap_event e b pricer name a once now ev topics c).0 ≡ once_complete
      → IsEmitted (handle_swap_event e b pricer name a once now ev topics c).1.pools
  handle_swap_event-IsComplete ev [] c h = absurd cc
  handle_swap_event-IsComplete ev (sig ∷ []) c h = absurd cc
  handle_swap_event-IsComplete ev (sig ∷ topic ∷ rest) c h =
      with_pool-IsComplete (a.hash topic) ev.payload (lookup (a.hash topic) c.pools) c h
