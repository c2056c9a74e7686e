-- ===== src/Uniswap/Published.antt =====
-- What the connector sends and what it leaves in the pricer.
use screener_cd.Prelude.{
  ℕ, ◌≡◌, refl, inl, inr, true, false, not, ◌||◌, List, [], ◌∷◌, ◌++◌, Option, none, some, ◌==◌,
  Bool-cases, Option-cases, All, All-append,
}
use screener_cd.Prelude.Dict.{lookup, nat_eq}
use screener_cd.Prelude.Result.{Result, ok, err}
use screener_cd.Text.{Text}
use screener_cd.Float.{is_unusable}
use screener_cd.Eth.{EthCommon}
use screener_cd.Market.{MarketData}
use screener_cd.Pricing.Graph.{TokenInfo}
use screener_cd.Uniswap.Meta.{TokenMeta, PoolConfig}
use screener_cd.Uniswap.Price.{Rat, PoolSnapshot, SnapshotError, compute_snapshot, should_drop}
use screener_cd.Uniswap.Amounts.{BigFloat, rat_to_float}
use screener_cd.Uniswap.Connector.{
  Pricer, PoolState, Connector, SubAck, SubNote, Json, try_ack, try_note, info_of, emit_float,
  emit_price, emit_usd, usd_symbol, pool_symbol, to_list, register_meta, register_pool_tokens,
  pair_price, update_pricing, update_pricer, publish,
}
use screener_cd.Uniswap.Handle.{
  handle_price, with_price, handle_snapshot, handle_note, handle_ack, handle_raw, handle_all,
  register_pools, new_connector,
}

-- A price that is positive and finite, under the connector's name.
pub record IsSent (exchange : Text) (md : MarketData) : Type 0 where
  pub usable : is_unusable md.price ≡ false
  pub named : md.exchange ≡ exchange

-- What every operation of a pricer keeps.
pub record KeptBy (P : Type 0) (pricer : Pricer P) (I : P → Type 0) : Type 0 where
  pub by_token : (t : TokenInfo) (g : P) → I g → I (pricer.register_token t g)
  pub by_stable : (t : TokenInfo) (g : P) → I g → I (pricer.register_stable t g)
  pub by_pair :
      (now : ℕ) (s t : TokenInfo) (price weight ts : ℕ) (g : P)
      → I g
      → I (pricer.update_pair now s t price weight ts g)

abbrev pub Held : {P : Type 0} → (P → Type 0) → Option P → Type 0
Held I none = Unit
Held I (some g) = I g

emit_float-IsSent :
    (exchange symbol : Text) (value now : ℕ)
    → All (IsSent exchange) (to_list (emit_float exchange symbol value now))
unfolding emit_float
emit_float-IsSent exchange symbol value now = elim (Bool-cases (is_unusable value)) [
  | inl bad ↦ rw bad tt
  | inr good ↦ rw good (record { usable = good; named = refl }, tt)
]

module _ {P : Type 0} (e : EthCommon) (b : BigFloat) (json : Json) (pricer : Pricer P)
    (exchange : Text) (I : P → Type 0) (kept : KeptBy P pricer I) where
  emit_price-IsSent :
      (symbol : Text) (value : Rat) (now : ℕ)
      → All (IsSent exchange) (to_list (emit_price b exchange symbol value now))
  unfolding emit_price
  emit_price-IsSent symbol value now = elim (Option-cases (rat_to_float b (some value))) [
    | inl out_of_range ↦ rw out_of_range tt
    | inr (val, h) ↦ rw h (emit_float-IsSent exchange symbol val now)
  ]

  emit_usd-IsSent :
      (at sent : ℕ) (info : TokenInfo) (g : P)
      → All (IsSent exchange) (to_list (emit_usd e b pricer exchange at sent info g))
  unfolding emit_usd
  emit_usd-IsSent at sent info g =
      let r = pricer.resolve_usd at info g in
      elim (Bool-cases (not r.1 || is_unusable r.0.price)) [
        | inl bad ↦ rw bad tt
        | inr good ↦ rw good (emit_float-IsSent exchange (usd_symbol e info) r.0.price sent)
      ]

  with_both :
      (t0 t1 t2 t3 : ℕ) (s t : TokenInfo) (g : P)
      → I g
      → I g
        × All (IsSent exchange) (
            to_list (emit_usd e b pricer exchange t0 t1 s g)
            ++ to_list (emit_usd e b pricer exchange t2 t3 t g))
  with_both t0 t1 t2 t3 s t g h = (
    h,
    All-append (IsSent exchange) (to_list (emit_usd e b pricer exchange t0 t1 s g)) _
        (emit_usd-IsSent t0 t1 s g) (emit_usd-IsSent t2 t3 t g),
  )

  update_pricing-IsSent :
      (now : ℕ → ℕ) (meta : PoolConfig) (snap : PoolSnapshot) (price : Rat) (g : P)
      → I g
      → I (update_pricing e b pricer exchange now meta snap price g).0
        × All (IsSent exchange) (update_pricing e b pricer exchange now meta snap price g).1
  unfolding update_pricing
  update_pricing-IsSent now meta snap price g h = elim (Option-cases (pair_price b meta price)) [
    | inl early ↦ rw early (h, tt)
    | inr ((true, val), found) ↦ rw found (with_both _ _ _ _ _ _ _ (kept.by_pair _ _ _ _ _ _ g h))
    | inr ((false, val), found) ↦ rw found (with_both _ _ _ _ _ _ _ (kept.by_pair _ _ _ _ _ _ g h))
  ]

  update_pricer-IsSent :
      (now : ℕ → ℕ) (meta : PoolConfig) (snap : PoolSnapshot) (price : Rat) (pr : Option P)
      → Held I pr
      → Held I (update_pricer e b pricer exchange now meta snap price pr).0
        × All (IsSent exchange) (update_pricer e b pricer exchange now meta snap price pr).1
  update_pricer-IsSent now meta snap price none h = (tt, tt)
  update_pricer-IsSent now meta snap price (some g) h =
      update_pricing-IsSent now meta snap price g h

  -- What holds of a connector at all times.
  abbrev pub IsGood : Connector P → Type 0
  IsGood c = Held I c.pricer × All (IsSent exchange) c.out

  handle_price-IsGood :
      (now : ℕ → ℕ) (addr : ℕ) (state : PoolState) (snap : PoolSnapshot) (price : Rat)
      (c : Connector P)
      → IsGood c
      → IsGood (handle_price e b json pricer exchange now addr state snap price c)
  unfolding handle_price publish
  handle_price-IsGood now addr state snap price c (held, sent) =
      let seen = record state { last_price = some (should_drop state.last_price price).1 } in
      let (held', more) = update_pricer-IsSent now seen.meta snap price c.pricer held in
      elim (Bool-cases (should_drop state.last_price price).0) [
        | inl drops ↦ rw drops (held, sent)
        | inr passes ↦ rw passes (
          held',
          All-append (IsSent exchange) c.out _ sent (
              All-append (IsSent exchange)
                (to_list (emit_price b exchange (pool_symbol state.meta) price (now 0))) _
                (emit_price-IsSent (pool_symbol state.meta) price (now 0)) more),
        )
      ]

  with_price-IsGood :
      (now : ℕ → ℕ) (addr : ℕ) (state : PoolState) (snap : PoolSnapshot) (price : Option Rat)
      (c : Connector P)
      → IsGood c
      → IsGood (with_price e b json pricer exchange now addr state snap price c)
  with_price-IsGood now addr state snap none c h = h
  with_price-IsGood now addr state snap (some price) c h =
      handle_price-IsGood now addr state snap price c h

  handle_snapshot-IsGood :
      (now : ℕ → ℕ) (addr : ℕ) (state : PoolState) (r : Result SnapshotError (Option PoolSnapshot))
      (c : Connector P)
      → IsGood c
      → IsGood (handle_snapshot e b json pricer exchange now addr state r c).1
  unfolding handle_snapshot
  handle_snapshot-IsGood now addr state (err x) c h = h
  handle_snapshot-IsGood now addr state (ok none) c h = h
  handle_snapshot-IsGood now addr state (ok (some snap)) c h =
      with_price-IsGood now addr state snap snap.price c h

  handle_note-IsGood :
      (now : ℕ → ℕ) (o : Option SubNote) (c : Connector P)
      → IsGood c
      → IsGood (handle_note e b json pricer exchange now o c).1
  unfolding handle_note
  handle_note-IsGood now none c h = h
  handle_note-IsGood now (some note) c h =
      elim (Option-cases (lookup (e.hex_to_address note.result.address) c.pools)) [
        | inl unknown ↦ rw unknown h
        | inr (state, known) ↦ rw known (
            handle_snapshot-IsGood now _ state (compute_snapshot state.meta note.result.payload) c
              h)
      ]

  handle_ack-IsGood :
      (now : ℕ → ℕ) (raw : Text) (o : Option SubAck) (c : Connector P)
      → IsGood c
      → IsGood (handle_ack e b json pricer exchange now raw o c).1
  unfolding handle_ack
  handle_ack-IsGood now raw (some ack) c h = h
  handle_ack-IsGood now raw none c h = handle_note-IsGood now (try_note (json.note raw)) c h

  pub handle_all-IsGood :
      (messages : List ((ℕ → ℕ) × Text)) (c : Connector P)
      → IsGood c
      → IsGood (handle_all e b json pricer exchange messages c)
  unfolding handle_all handle_raw
  handle_all-IsGood [] c h = h
  handle_all-IsGood ((now, raw) ∷ rest) c h =
      handle_all-IsGood rest _ (handle_ack-IsGood now raw (try_ack (json.ack raw)) c h)

  register_meta-kept : (t : TokenMeta) (g : P) → I g → I (register_meta pricer t g)
  unfolding register_meta
  register_meta-kept t g h = elim (Bool-cases (t.address == 0)) [
    | inl unknown ↦ rw unknown h
    | inr known ↦ elim (Bool-cases t.is_stable) [
      | inl stable ↦
          rw (known, stable) (kept.by_stable (info_of t) _ (kept.by_token (info_of t) g h))
      | inr other ↦ rw (known, other) (kept.by_token (info_of t) g h)
    ]
  ]

  register_pool_tokens-Held :
      (pool : PoolConfig) (pr : Option P) → Held I pr → Held I (register_pool_tokens pricer pool pr)
  unfolding register_pool_tokens
  register_pool_tokens-Held pool none h = tt
  register_pool_tokens-Held pool (some g) h =
      register_meta-kept pool.token1 _ (register_meta-kept pool.token0 g h)

  register_pools-IsGood :
      (ps : List PoolConfig) (c : Connector P) → IsGood c → IsGood (register_pools pricer ps c)
  unfolding register_pools
  register_pools-IsGood [] c h = h
  register_pools-IsGood (pool ∷ rest) c (held, sent) =
      register_pools-IsGood rest _ (register_pool_tokens-Held pool c.pricer held, sent)

  pub new_connector-IsGood :
      (ps : List PoolConfig) (pr : Option P) → Held I pr → IsGood (new_connector pricer ps pr)
  unfolding new_connector
  new_connector-IsGood ps pr held = register_pools-IsGood ps _ (held, tt)
