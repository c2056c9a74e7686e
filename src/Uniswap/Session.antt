-- ===== src/Uniswap/Session.antt =====
-- internal/dex/Etherium/Uniswap/v2_connector.go: subscriptions, pauses and `Run`. An `Attempt` is
-- what a round of the loop of `Run` meets; with the list of them the context is cancelled. The
-- pings of `keepAlive` are left out: they change no state.
use screener_cd.Prelude.{
  ℕ, zero, suc, ◌+◌, ◌*◌, Bool, true, false, not, List, [], ◌∷◌, ◌++◌, map, Option, none, some, ltb,
  ◌==◌, if◌then◌else◌, length, take, drop,
}
use screener_cd.Prelude.Int.{ℤ, nonpos, pos_part}
use screener_cd.Prelude.Result.{Result, ok, err}
use screener_cd.Text.{Text, eqb, trim_space}
use screener_cd.Eth.{EthCommon}
use screener_cd.Uniswap.Meta.{PoolConfig}
use screener_cd.Uniswap.Amounts.{BigFloat}
use screener_cd.Uniswap.Order.{Ask, ok_or, adjust_pools_ordering}
use screener_cd.Uniswap.Connector.{Pricer, Connector, Json, exchange_name}
use screener_cd.Uniswap.Handle.{handle_all, new_connector}

pub record Config : Type 0 where
  pub ws_url : Text
  pub http_url : Text
  pub exchange : Text
  pub pools : List PoolConfig
  pub subscribe_batch_size : ℤ
  pub ping_interval : ℤ

-- A request `eth_subscribe` for the logs of some addresses.
pub record RpcRequest : Type 0 where
  pub id : ℕ
  pub addresses : List Text

unfoldable pub batch_size : ℤ → ℕ
batch_size size = if nonpos size then 150 else pos_part size

-- The loop of `subscribeAll` from a request's number on, over the addresses that are left; the
-- number of the request that could not be written, if any. `write` tells which can be.
unfoldable pub subscribe_loop : (ℕ → Bool) → ℕ → ℕ → ℕ → List Text → List RpcRequest × Option ℕ
subscribe_loop write size zero id addresses = ([], none)
subscribe_loop write size (suc k) id [] = ([], none)
subscribe_loop write size (suc k) id (a ∷ more) =
    let rest = subscribe_loop write size k (id + 1) (drop size (a ∷ more)) in
    let request : RpcRequest = record { id = id; addresses = take size (a ∷ more) } in
    if write id then (request ∷ rest.0, rest.1) else ([], some id)

unfoldable pub subscribe_all : (ℕ → Bool) → ℤ → List Text → List RpcRequest × Option ℕ
subscribe_all write size addresses =
    subscribe_loop write (batch_size size) (length addresses) 1 addresses

-- Durations are in nanoseconds.
abbrev pub second : ℕ
second = 1000000000

abbrev pub backoff_max : ℕ
backoff_max = 15 * second

unfoldable pub next_backoff : ℕ → ℕ → ℕ
next_backoff cur max =
    let next = cur * 2 in if ltb max next then max else if ltb next second then second else next

-- What a round of the loop meets: whether the endpoint answers, in which order `range` visits the
-- pools, which requests can be written, and the messages until the connection ends.
pub record Attempt : Type 0 where
  pub answers : Bool
  pub order : List ℕ → List ℕ
  pub write : ℕ → Bool
  pub messages : List ((ℕ → ℕ) × Text)

abbrev pub is_done : Option ℕ → Bool
is_done none = true
is_done (some id) = false

-- The connector, the next pause, the pauses so far and the requests that were written.
pub record Running (P : Type 0) : Type 0 where
  pub connector : Connector P
  pub backoff : ℕ
  pub pauses : List ℕ
  pub requests : List RpcRequest

pub data RunError : Type 0 where
  no_pools : RunError
  no_dialer : RunError

module _ {P : Type 0} (e : EthCommon) (b : BigFloat) (json : Json) (pricer : Pricer P)
    (cfg : Config) where
  unfoldable pub dial : Attempt → Bool
  dial a = if eqb (trim_space cfg.ws_url) [] then false else a.answers

  unfoldable pub pool_addresses : Attempt → Connector P → List Text
  pool_addresses a c = map e.hex (a.order (map (λ x. x.0) c.pools))

  abbrev pub pause : Running P → Running P
  pause r = record r {
    pauses = r.pauses ++ r.backoff ∷ [];
    backoff = next_backoff r.backoff backoff_max;
  }

  -- A session that is subscribed: its messages, and then a pause of a second.
  unfoldable pub session : Attempt → Running P → Running P
  session a r = pause (record r {
    connector = handle_all e b json pricer (exchange_name cfg.exchange) a.messages r.connector;
    backoff = second;
  })

  unfoldable pub attempt : Attempt → Running P → Running P
  attempt a r =
      let sub = subscribe_all a.write cfg.subscribe_batch_size (pool_addresses a r.connector) in
      let subscribed = record r { requests = r.requests ++ sub.0 } in
      if not (dial a)
      then pause r
      else if is_done sub.1
      then session a subscribed
      else pause subscribed

  unfoldable pub run_loop : List Attempt → Running P → Running P
  run_loop [] r = r
  run_loop (a ∷ rest) r = run_loop rest (attempt a r)

  -- The pools that `Run` works with: those of the configuration if they cannot be adjusted.
  unfoldable pub pools_of_run : (ℕ → ℤ) → (Text → Option Ask) → List PoolConfig
  pools_of_run wrapped rpc =
      ok_or cfg.pools (adjust_pools_ordering e wrapped rpc cfg.http_url cfg.pools)

  -- `has_dialer` is whether there is a dialer.
  unfoldable pub run :
      Bool → (ℕ → ℤ) → (Text → Option Ask) → Option P → List Attempt → Result RunError (Running P)
  run has_dialer wrapped rpc pr attempts =
      if length cfg.pools == 0
      then err no_pools
      else if not has_dialer
      then err no_dialer
      else ok (
          run_loop attempts (record {
            connector = new_connector pricer (pools_of_run wrapped rpc) pr;
            backoff = second;
            pauses = [];
            requests = [];
          }))
