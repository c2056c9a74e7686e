-- ===== src/Uniswap/Wired.antt =====
-- cmd/screener-core/main.go gives the connectors the graph of internal/dex/pricing: the connector
-- and the graph together.
use screener_cd.Prelude.{
  ℕ, ◌≡◌, ◌≤◌, ◌*◌, ◌∷◌, arith, All-append, Bool-cases, length, ◌==◌, ◌++◌, inl, inr, not, Bool,
  false, List, [], Option, none, some, All,
}
use mathlib.Core.Path.{subst}
use screener_cd.Prelude.Int.{ℤ}
use screener_cd.Prelude.Result.{ok, ok_inj}
use screener_cd.Text.{Text}
use screener_cd.Float.{FloatOps}
use screener_cd.Eth.{EthCommon}
use screener_cd.Pricing.Graph.{
  TokenInfo, Edges, GraphPricer, register_token, register_stable, update_pair, new_pricer,
  add_token, add_stable, add_price, apply, run,
}
use screener_cd.Pricing.Resolve as Route
use screener_cd.Pricing.Edges.{IsSound, apply-IsSound, run-IsSound as graph-IsSound}
use screener_cd.Uniswap.Amounts.{BigFloat}
use screener_cd.Uniswap.Connector.{Pricer, Json, exchange_name}
use screener_cd.Uniswap.Session.{
  Config, Attempt, Running, second, backoff_max, next_backoff, dial, pool_addresses, pause, session,
  attempt, run_loop, run as run_connector, is_done, subscribe_all,
}
use screener_cd.Uniswap.Order.{Ask}
use screener_cd.Uniswap.Published.{
  IsGood, handle_all-IsGood, new_connector-IsGood, KeptBy, Held, IsSent,
}

-- The search never runs out of fuel, so the first case does not occur.
abbrev answer : Option (Route.Result × Bool) → Route.Result × Bool
answer none = (record { price = 0; route = []; weight = 0; updated_at = 0 }, false)
answer (some r) = r

abbrev pub graph_pricer : FloatOps → EthCommon → (ℕ → Edges → Edges) → Pricer GraphPricer
graph_pricer f e order = record {
  register_token = register_token e;
  register_stable = register_stable e;
  update_pair = update_pair f e;
  resolve_usd = λ now token g. answer (Route.resolve_usd f g order e now token);
}

pub graph_pricer-KeptBy :
    (f : FloatOps) (e : EthCommon) (order : ℕ → Edges → Edges)
    → KeptBy GraphPricer (graph_pricer f e order) IsSound
unfolding apply
graph_pricer-KeptBy f e order = record {
  by_token = λ t g h. apply-IsSound f e (add_token t) g h;
  by_stable = λ t g h. apply-IsSound f e (add_stable t) g h;
  by_pair =
      λ now s t price weight ts g h. apply-IsSound f e (add_price now s t price weight ts) g h;
}

-- Between one second and fifteen.
abbrev pub IsPause : ℕ → Type 0
IsPause d = (second ≤ d) × (d ≤ 15 * second)

next_backoff-IsPause : (d : ℕ) → IsPause d → IsPause (next_backoff d backoff_max)
unfolding next_backoff
next_backoff-IsPause d h = ground arith

module _ {P : Type 0} (e : EthCommon) (b : BigFloat) (json : Json) (pricer : Pricer P)
    (cfg : Config) (I : P → Type 0) (kept : KeptBy P pricer I) where
  -- What holds of a connector and of the pauses of its loop at all times.
  record IsRunning (r : Running P) : Type 0 where
    good : IsGood e b json pricer (exchange_name cfg.exchange) I kept r.connector
    next : IsPause r.backoff
    slept : All IsPause r.pauses

  pause-IsRunning : (r : Running P) → IsRunning r → IsRunning (pause e b json pricer cfg r)
  pause-IsRunning r h = record {
    good = h.good;
    next = next_backoff-IsPause r.backoff h.next;
    slept = All-append IsPause r.pauses (r.backoff ∷ []) h.slept (h.next, tt);
  }

  session-IsRunning :
      (a : Attempt) (r : Running P) → IsRunning r → IsRunning (session e b json pricer cfg a r)
  unfolding session
  session-IsRunning a r h = pause-IsRunning _ (record {
    good =
        handle_all-IsGood e b json pricer (exchange_name cfg.exchange) I kept a.messages r.connector
          h.good;
    next = (omega arith, omega arith);
    slept = h.slept;
  })

  attempt-IsRunning :
      (a : Attempt) (r : Running P) → IsRunning r → IsRunning (attempt e b json pricer cfg a r)
  unfolding attempt
  attempt-IsRunning a r h =
      let sub =
        subscribe_all a.write cfg.subscribe_batch_size
          (pool_addresses e b json pricer cfg a r.connector) in
      let subscribed = record r { requests = r.requests ++ sub.0 } in
      let still : IsRunning subscribed = record { good = h.good; next = h.next; slept = h.slept } in
      elim (Bool-cases (not (dial e b json pricer cfg a))) [
        | inl unanswered ↦ rw unanswered (pause-IsRunning r h)
        | inr dialled ↦ elim (Bool-cases (is_done sub.1)) [
          | inl written ↦ rw (dialled, written) (session-IsRunning a subscribed still)
          | inr refused ↦ rw (dialled, refused) (pause-IsRunning subscribed still)
        ]
      ]

  run_loop-IsRunning :
      (all : List Attempt) (r : Running P)
      → IsRunning r
      → IsRunning (run_loop e b json pricer cfg all r)
  unfolding run_loop
  run_loop-IsRunning [] r h = h
  run_loop-IsRunning (a ∷ rest) r h = run_loop-IsRunning rest _ (attempt-IsRunning a r h)

  run-IsRunning :
      (has_dialer : Bool) (wrapped : ℕ → ℤ) (rpc : Text → Option Ask) (pr : Option P)
      (attempts : List Attempt) (r : Running P)
      → Held I pr
      → run_connector e b json pricer cfg has_dialer wrapped rpc pr attempts ≡ ok r
      → IsRunning r
  unfolding run_connector
  run-IsRunning has_dialer wrapped rpc pr attempts r held h =
      elim (Bool-cases (length cfg.pools == 0)) [
        | inl empty ↦ absurd (cc (rw empty at h))
        | inr filled ↦ elim (Bool-cases (not has_dialer)) [
          | inl missing ↦ absurd (cc (rw (filled, missing) at h))
          | inr ready ↦ subst IsRunning (ok_inj (rw (filled, ready) at h)) (
              run_loop-IsRunning attempts _ (record {
                good =
                    new_connector-IsGood e b json pricer (exchange_name cfg.exchange) I kept _ pr
                      held;
                next = (omega arith, omega arith);
                slept = tt;
              }))
        ]
      ]

-- A sound graph, usable prices under a name, and bounded pauses.
abbrev pub IsWired : Text → Running GraphPricer → Type 0
IsWired name r =
    Held IsSound r.connector.pricer × All (IsSent name) r.connector.out × All IsPause r.pauses

-- Whatever its dialer, its node, its endpoint and its messages do, `Run` with the graph as its
-- pricer returns early or has sent positive, finite prices only, all under its own name; every
-- edge of the graph then has a positive, finite price and weight, and each pause was between one
-- second and fifteen.
pub run-IsWired :
    (f : FloatOps) (e : EthCommon) (order : ℕ → Edges → Edges) (b : BigFloat) (json : Json)
    (cfg : Config) (stables : List TokenInfo) (has_dialer : Bool) (wrapped : ℕ → ℤ)
    (rpc : Text → Option Ask) (attempts : List Attempt) (r : Running GraphPricer)
    → run_connector e b json
        (graph_pricer f e order)
        cfg
        has_dialer
        wrapped
        rpc
        (some (new_pricer e stables))
        attempts
      ≡ ok r
    → IsWired (exchange_name cfg.exchange) r
unfolding run
run-IsWired f e order b json cfg stables has_dialer wrapped rpc attempts r h =
    let running =
      run-IsRunning e b json (graph_pricer f e order) cfg IsSound (graph_pricer-KeptBy f e order)
        has_dialer wrapped rpc (some (new_pricer e stables)) attempts r
        (graph-IsSound f e stables []) h in
    (running.good.0, running.good.1, running.slept)
