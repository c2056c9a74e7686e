-- ===== src/Uniswap/Handle.antt =====
-- internal/dex/Etherium/Uniswap/v2_connector.go: `handleRaw`, and the pools that `Run` registers.
use screener_cd.Prelude.{ℕ, false, List, [], ◌∷◌, ◌++◌, Option, none, some, if◌then◌else◌}
use screener_cd.Prelude.Dict.{lookup, insert, nat_eq}
use screener_cd.Prelude.Result.{Result, ok, err}
use screener_cd.Text.{Text}
use screener_cd.Eth.{EthCommon}
use screener_cd.Uniswap.Meta.{PoolConfig}
use screener_cd.Uniswap.Price.{Rat, PoolSnapshot, SnapshotError, compute_snapshot, should_drop}
use screener_cd.Uniswap.Amounts.{BigFloat}
use screener_cd.Uniswap.Connector.{
  Pricer, PoolState, Connector, HandleError, snapshot_error, SubAck, SubNote, Json, try_ack,
  try_note, ack_result, publish, register_pool_tokens,
}

-- The result of `handleRaw`, and the connector after it.
abbrev pub Handled : Type 0 → Type 0
Handled P = Result HandleError (Unit {0}) × Connector P

module _ {P : Type 0} (e : EthCommon) (b : BigFloat) (json : Json) (pricer : Pricer P)
    (exchange : Text) where
  -- A new price of the pool at `addr`.
  unfoldable pub handle_price :
      (ℕ → ℕ) → ℕ → PoolState → PoolSnapshot → Rat → Connector P → Connector P
  handle_price now addr state snap price c =
      let d = should_drop state.last_price price in
      let seen = record state { last_price = some d.1 } in
      let p = publish e b pricer exchange now seen snap price c.pricer in
      if d.0
      then record c { pools = insert addr seen c.pools }
      else record c { pools = insert addr p.0 c.pools; pricer = p.1; out = c.out ++ p.2 }

  abbrev pub with_price :
      (ℕ → ℕ) → ℕ → PoolState → PoolSnapshot → Option Rat → Connector P → Connector P
  with_price now addr state snap none c = c
  with_price now addr state snap (some price) c = handle_price now addr state snap price c

  unfoldable pub handle_snapshot :
      (ℕ → ℕ) → ℕ → PoolState → Result SnapshotError (Option PoolSnapshot) → Connector P → Handled P
  handle_snapshot now addr state (err x) c = (err (snapshot_error x), c)
  handle_snapshot now addr state (ok none) c = (ok tt, c)
  handle_snapshot now addr state (ok (some snap)) c =
      (ok tt, with_price now addr state snap snap.price c)

  unfoldable pub handle_note : (ℕ → ℕ) → Option SubNote → Connector P → Handled P
  handle_note now none c = (ok tt, c)
  handle_note now (some note) c = found (lookup addr c.pools)
    where
      addr : ℕ
      addr = e.hex_to_address note.result.address

      found : Option PoolState → Handled P
      found none = (ok tt, c)
      found (some state) =
          handle_snapshot now addr state (compute_snapshot state.meta note.result.payload) c

  unfoldable pub handle_ack : (ℕ → ℕ) → Text → Option SubAck → Connector P → Handled P
  handle_ack now raw (some ack) c = (ack_result ack.error, c)
  handle_ack now raw none c = handle_note now (try_note (json.note raw)) c

  unfoldable pub handle_raw : (ℕ → ℕ) → Text → Connector P → Handled P
  handle_raw now raw c = handle_ack now raw (try_ack (json.ack raw)) c

  -- The messages of a session, each with its readings of the clock; `Run` ignores the errors.
  unfoldable pub handle_all : List ((ℕ → ℕ) × Text) → Connector P → Connector P
  handle_all [] c = c
  handle_all ((now, raw) ∷ rest) c = handle_all rest (handle_raw now raw c).1

module _ {P : Type 0} (pricer : Pricer P) where
  -- The loop of `Run` that fills the map of the pools and registers their tokens.
  unfoldable pub register_pools : List PoolConfig → Connector P → Connector P
  register_pools [] c = c
  register_pools (pool ∷ rest) c =
      let state : PoolState = record { meta = pool; last_price = none; got_first = false } in
      register_pools rest (record c {
        pools = insert pool.address state c.pools;
        pricer = register_pool_tokens pricer pool c.pricer;
      })

  unfoldable pub new_connector : List PoolConfig → Option P → Connector P
  new_connector ps pr = register_pools ps (record { pools = []; pricer = pr; out = [] })
