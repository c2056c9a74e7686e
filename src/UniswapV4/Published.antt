-- ===== src/UniswapV4/Published.antt =====
-- The connector of Uniswap V4 with the graph of internal/dex/pricing, and the end of `Once`.
use mathlib.Core.Path.{subst⁻¹}
use screener_cd.Prelude.{ℕ, ◌*◌, ◌≤◌, ◌≡◌, Bool, List, [], Option, All}
use screener_cd.Text.{Text}
use screener_cd.Float.{FloatOps}
use screener_cd.Eth.{EthCommon}
use screener_cd.Pricing.Graph.{TokenInfo, Edges, GraphPricer, Op, new_pricer, run}
use screener_cd.Pricing.Edges.{IsSound, run-IsSound}
use screener_cd.Uniswap.Amounts.{BigFloat}
use screener_cd.Uniswap.Connector.{Json}
use screener_cd.Uniswap.Session.{second}
use screener_cd.Uniswap.Wired.{graph_pricer, graph_pricer-KeptBy}
use screener_cd.UniswapV4.State.{V4Connector}
use screener_cd.UniswapV4.Swap.{Abi, exchange_name_v4}
use screener_cd.UniswapV4.Safe.{IsQuote}
use screener_cd.UniswapV4.Stream.{Stream, StreamEvent, start_stream, run_stream}
use screener_cd.UniswapV4.Streams.{run_stream-IsStreaming}

-- A sound graph, quotes under the connector's name, and pauses of two to ten seconds.
pub record IsPublished (name : Text) (s : Stream GraphPricer) : Type 0 where
  pub sound : IsSound s.connector.pricer
  pub quoted : All (IsQuote name) s.connector.out
  pub slept : All (λ d. (2 * second ≤ d) × (d ≤ 10 * second)) s.pauses

-- Whatever pools and tokens the connector has at the start, whatever operations the graph has seen
-- before, and whatever the stream then receives: it sends positive, finite prices only, each under
-- the connector's name and a symbol; every edge of the graph has a positive, finite price and
-- weight; each pause before it asks again is two to ten
-- seconds.
pub run_stream-IsPublished :
    (f : FloatOps) (e : EthCommon) (order : ℕ → Edges → Edges) (b : BigFloat) (json : Json)
    (abi : Option Abi) (once : Bool) (name : Text) (stop_on_error : Bool) (stables : List TokenInfo)
    (ops : List Op) (c : V4Connector GraphPricer) (evs : List StreamEvent)
    → c.pricer ≡ run f e ops (new_pricer e stables)
    → c.out ≡ []
    → IsPublished (exchange_name_v4 name) (
        run_stream e b json
          (graph_pricer f e order)
          abi
          once
          name
          stop_on_error
          evs
          (start_stream c))
unfolding start_stream
run_stream-IsPublished f e order b json abi once name stop_on_error stables ops c evs shared
      silent =
    let h =
      run_stream-IsStreaming e b json (graph_pricer f e order) abi once name IsSound
        (graph_pricer-KeptBy f e order) stop_on_error evs (start_stream c)
        (record {
          good = (
            subst⁻¹ IsSound shared (run-IsSound f e stables ops),
            subst⁻¹ (All (IsQuote (exchange_name_v4 name))) silent tt,
          );
          slept = tt;
        }) in
    record { sound = h.good.0; quoted = h.good.1; slept = h.slept }
