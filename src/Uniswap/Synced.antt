-- ===== src/Uniswap/Synced.antt =====
-- What a Sync message does to the connector, and what a message that fails does not.
use screener_cd.Prelude.{
  ℕ, ◌*◌, ◌^◌, ◌<◌, ◌≡◌, ◌≢◌, refl, ap, ◌∙◌, inl, inr, Bool, true, false, ◌||◌, List, ◌∷◌, ◌++◌,
  Option, none, some, arith, if◌then◌else◌, Bool-cases, Option-cases, ◌==◌,
}
use screener_cd.Prelude.Dict.{lookup, insert, lookup-insert, lookup-insert_self, nat_eq}
use screener_cd.Prelude.Result.{Result, ok, err}
use screener_cd.Text.{Text}
use screener_cd.Text.Hex.{limit}
use screener_cd.Float.{is_unusable, is_nan, is_inf}
use screener_cd.Eth.{EthCommon}
use screener_cd.Market.{MarketData}
use screener_cd.Uniswap.Meta.{PoolConfig}
use screener_cd.Uniswap.Price.{
  Rat, PoolSnapshot, SnapshotError, compute_snapshot, snapshot_of, price_of, ratio, should_drop,
}
use screener_cd.Uniswap.RoundTrip.{sync_data, compute_snapshot-sync_data}
use screener_cd.Uniswap.Amounts.{BigFloat, rat_to_float}
use screener_cd.Uniswap.Connector.{
  Pricer, PoolState, Connector, HandleError, SubAck, SubNote, Json, try_ack, try_note, emit_float,
  emit_price, to_list, pool_symbol, publish, update_pricer, unix_milli,
}
use screener_cd.Uniswap.Handle.{
  Handled, handle_price, handle_snapshot, handle_note, handle_ack, handle_raw,
}

-- The price of the base in the quote: the reserves, each in units of its token.
abbrev pub exact_price : PoolConfig → ℕ → ℕ → Rat
exact_price p r0 r1 =
    if p.base_is_token0
    then record { num = r1 * 10 ^ p.token0.decimals; den = 10 ^ p.token1.decimals * r0 }
    else record { num = r0 * 10 ^ p.token1.decimals; den = 10 ^ p.token0.decimals * r1 }

or_right : (a b : Bool) → (a || b) ≡ false → b ≡ false
or_right true b h = cc
or_right false b h = h

is_unusable-parts : (v : ℕ) → is_unusable v ≡ false → (is_nan v || is_inf v) ≡ false
unfolding is_unusable
is_unusable-parts v h = or_right _ _ h

lookup-insert_other :
    (k j : ℕ) (v : PoolState) (m : List (ℕ × PoolState))
    → j ≢ k
    → lookup j (insert k v m) ≡ lookup j m
lookup-insert_other k j v m h =
    lookup-insert k j v m ∙ ap (λ t. if t then some v else lookup j m) (differ k j h)
  where
    differ : (k j : ℕ) → j ≢ k → (k == j) ≡ false
    differ k j h = ground arith

nonzero : (r : ℕ) → 0 < r → (r == 0) ≡ false
nonzero r h = ground arith

price_of-exact :
    (p : PoolConfig) (r0 r1 : ℕ) → 0 < r0 → 0 < r1 → price_of p r0 r1 ≡ some (exact_price p r0 r1)
unfolding price_of ratio
price_of-exact p r0 r1 h0 h1 = elim (Bool-cases p.base_is_token0) [
  | inl base ↦ rw (base, nonzero r0 h0) refl
  | inr quote ↦ rw (quote, nonzero r1 h1) refl
]

-- The first message of a price: its value in float64 under the symbol of the pool.
abbrev pub price_message : Text → PoolConfig → ℕ → ℕ → MarketData
price_message exchange meta value now = record {
  exchange = exchange;
  symbol = pool_symbol meta;
  price = value;
  timestamp = unix_milli now;
}

module _ {P : Type 0} (e : EthCommon) (b : BigFloat) (json : Json) (pricer : Pricer P)
    (exchange : Text) where
  -- A message that ends in an error.
  abbrev pub FailsAlone : Connector P → Handled P → Type 0
  FailsAlone c r = (x : HandleError) → r.0 ≡ err x → r.1 ≡ c

  handle_snapshot-FailsAlone :
      (now : ℕ → ℕ) (addr : ℕ) (state : PoolState) (r : Result SnapshotError (Option PoolSnapshot))
      (c : Connector P)
      → FailsAlone c (handle_snapshot e b json pricer exchange now addr state r c)
  unfolding handle_snapshot
  handle_snapshot-FailsAlone now addr state (err y) c x h = refl
  handle_snapshot-FailsAlone now addr state (ok none) c x h = refl
  handle_snapshot-FailsAlone now addr state (ok (some snap)) c x h = absurd cc

  handle_note-FailsAlone :
      (now : ℕ → ℕ) (o : Option SubNote) (c : Connector P)
      → FailsAlone c (handle_note e b json pricer exchange now o c)
  unfolding handle_note
  handle_note-FailsAlone now none c = λ x h. refl
  handle_note-FailsAlone now (some note) c =
      elim (Option-cases (lookup (e.hex_to_address note.result.address) c.pools)) [
        | inl unknown ↦ rw unknown (λ x h. refl)
        | inr (state, known) ↦ rw known (
            handle_snapshot-FailsAlone now _ state (compute_snapshot state.meta note.result.payload)
              c)
      ]

  handle_ack-FailsAlone :
      (now : ℕ → ℕ) (raw : Text) (o : Option SubAck) (c : Connector P)
      → FailsAlone c (handle_ack e b json pricer exchange now raw o c)
  unfolding handle_ack
  handle_ack-FailsAlone now raw (some ack) c = λ x h. refl
  handle_ack-FailsAlone now raw none c = handle_note-FailsAlone now (try_note (json.note raw)) c

  -- A message that ends in an error, of the subscription or of the data of an event, leaves the
  -- connector as it was: no price is sent, no pool and no price in the graph changes.
  pub handle_raw-FailsAlone :
      (now : ℕ → ℕ) (raw : Text) (c : Connector P) (x : HandleError)
      → (handle_raw e b json pricer exchange now raw c).0 ≡ err x
      → (handle_raw e b json pricer exchange now raw c).1 ≡ c
  unfolding handle_raw
  handle_raw-FailsAlone now raw c x h = handle_ack-FailsAlone now raw (try_ack (json.ack raw)) c x h

  -- What a price does to a pool that is known.
  pub record IsPriced (now : ℕ → ℕ) (addr : ℕ) (state : PoolState) (price : Rat)
      (c c' : Connector P) : Type 0 where
    pub kept :
        (s : PoolState) × (lookup addr c'.pools ≡ some s)
        × (s.last_price ≡ some (should_drop state.last_price price).1)
    pub others : (a : ℕ) → a ≢ addr → lookup a c'.pools ≡ lookup a c.pools
    pub dropped :
        (should_drop state.last_price price).0 ≡ true → (c'.out ≡ c.out) × (c'.pricer ≡ c.pricer)
    pub sent :
        (should_drop state.last_price price).0 ≡ false
        → is_unusable (b.of_rat price) ≡ false
        → (more : List MarketData) × (c'.out
            ≡ c.out ++ price_message exchange state.meta (b.of_rat price) (now 0) ∷ more)

  emit_price-sent :
      (symbol : Text) (price : Rat) (at : ℕ)
      → is_unusable (b.of_rat price) ≡ false
      → emit_price b exchange symbol price at
        ≡ some (record {
          exchange = exchange;
          symbol = symbol;
          price = b.of_rat price;
          timestamp = unix_milli at;
        })
  unfolding emit_price rat_to_float emit_float
  emit_price-sent symbol price at h = rw (is_unusable-parts (b.of_rat price) h, h) refl

  -- What the pricer adds to the message of a price.
  abbrev more : (ℕ → ℕ) → PoolState → PoolSnapshot → Rat → Connector P → List MarketData
  more now state snap price c =
      (update_pricer e b pricer exchange now state.meta snap price c.pricer).1

  handle_price-IsPriced :
      (now : ℕ → ℕ) (addr : ℕ) (state : PoolState) (snap : PoolSnapshot) (price : Rat)
      (c : Connector P)
      → IsPriced now addr state price c
          (handle_price e b json pricer exchange now addr state snap price c)
  unfolding handle_price publish
  handle_price-IsPriced now addr state snap price c =
      elim (Bool-cases (should_drop state.last_price price).0) [
        | inl drops ↦ rw drops (record {
          kept = (_, lookup-insert_self addr _ c.pools, refl);
          others = λ a h. lookup-insert_other addr a _ c.pools h;
          dropped = λ _. (refl, refl);
          sent = λ passes _. absurd cc;
        })
        | inr passes ↦ rw passes (record {
          kept = (_, lookup-insert_self addr _ c.pools, refl);
          others = λ a h. lookup-insert_other addr a _ c.pools h;
          dropped = λ drops. absurd cc;
          sent = λ _ usable. (
            more now state snap price c,
            ap (λ o. c.out ++ (to_list o ++ more now state snap price c))
                (emit_price-sent (pool_symbol state.meta) price (now 0) usable),
          );
        })
      ]

  -- A notification of a Sync event of a pool that is known, with two reserves that are not zero
  -- and below 256 ^ 32, is handled without an error. With the exact price of these reserves the
  -- pool then keeps the price that the filter leaves, and no other pool changes; if the filter
  -- drops the price, nothing is sent and the pricer stays; if not and the price is positive and
  -- finite in float64, the first message sent is that price, under the symbol of the pool.
  pub handle_raw-IsPriced :
      (now : ℕ → ℕ) (raw : Text) (note : SubNote) (state : PoolState) (r0 r1 : ℕ) (c : Connector P)
      → try_ack (json.ack raw) ≡ none
      → try_note (json.note raw) ≡ some note
      → lookup (e.hex_to_address note.result.address) c.pools ≡ some state
      → note.result.payload ≡ sync_data r0 r1
      → 0 < r0
      → 0 < r1
      → r0 < limit 32
      → r1 < limit 32
      → ((handle_raw e b json pricer exchange now raw c).0 ≡ ok tt)
        × IsPriced now
            (e.hex_to_address note.result.address)
            state
            (exact_price state.meta r0 r1)
            c
            (handle_raw e b json pricer exchange now raw c).1
  unfolding handle_raw handle_ack handle_note handle_snapshot snapshot_of
  handle_raw-IsPriced now raw note state r0 r1 c no_ack noted known payload p0 p1 l0 l1 =
      rw
        (
          no_ack,
          noted,
          known,
          payload,
          compute_snapshot-sync_data state.meta r0 r1 l0 l1,
          nonzero r0 p0,
          nonzero r1 p1,
          price_of-exact state.meta r0 r1 p0 p1,
        )
        (
          refl,
          handle_price-IsPriced now (e.hex_to_address note.result.address) state _
              (exact_price state.meta r0 r1) c,
        )
