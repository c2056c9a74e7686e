-- ===== src/UniswapV4/Tests.antt =====
-- The theorems on the connector of Uniswap V4 at concrete inputs.
use screener_cd.Prelude.{
  ◌≤◌, arith, replicate, length, ℕ, ◌^◌, ◌≡◌, ◌≢◌, refl, true, false, List, [], ◌∷◌, none, some,
  length,
}
use screener_cd.Prelude.Dict.{lookup, insert, nat_eq}
use screener_cd.Prelude.Int.{pos}
use screener_cd.Text.{codes, eqb, equal_fold, to_lower, trim_space, is_space, text_eq}
use screener_cd.Float.{f_one, f_zero}
use screener_cd.Samples.{sample_eth, sample_float, in_order}
use screener_cd.Pricing.Graph.{Op, GraphPricer, new_pricer, run}
use screener_cd.Uniswap.Amounts.{BigFloat}
use screener_cd.Uniswap.Price.{invert}
use screener_cd.Uniswap.Configs.{V4PoolConfig, V4Config}
use screener_cd.Uniswap.Registry.{empty_registry}
use screener_cd.Pricing.Edges.{IsSound, run-IsSound}
use screener_cd.Prelude.Result.{ok}
use screener_cd.UniswapV4.Pools.{
  prepare_inline, normalize_inline_pool, enrich_token_meta, is_wanted, wanted_keys,
}
use screener_cd.UniswapV4.Boot.{bootstrap_pools, prepared}
use screener_cd.UniswapV4.Booted.{IsBooted, bootstrap_pools-IsBooted}
use screener_cd.Uniswap.Connector.{Pricer, LogEvent, Json}
use screener_cd.Uniswap.Wired.{graph_pricer, graph_pricer-KeptBy}
use screener_cd.UniswapV4.Fields.{big_int, big_int_field, sqrt_price_to_directional_prices}
use screener_cd.UniswapV4.State.{
  V4PoolState, V4Connector, unmarked, once_status, store, store_swap_metrics,
}
use screener_cd.UniswapV4.Swap.{
  Abi, SwapResult, once_complete, handle_swap_event, with_pool, swap_priced, exchange_name_v4,
}
use screener_cd.UniswapV4.Once.{IsEmitted, handle_swap_event-IsComplete}
use screener_cd.UniswapV4.Stream.{StreamEvent, timeout, frame, run_stream, start_stream}
use screener_cd.UniswapV4.Ending.{timeouts, HasEnded, start_stream-HasEnded}
use screener_cd.UniswapV4.Patience.{pauses_in_row, start_stream-IsPatient}
use screener_cd.UniswapV4.Published.{IsPublished, run_stream-IsPublished}

abbrev pool : V4PoolConfig
pool = record {
  pool_id = 7;
  pool_address = 0;
  hook_address = 0;
  pair_name = codes "ABC/USDC";
  token0 = record {
    address = 1;
    symbol = codes "ABC";
    decimals = 18;
    is_stable = false;
    is_weth = false;
  };
  token1 = record {
    address = 2;
    symbol = codes "USDC";
    decimals = 6;
    is_stable = true;
    is_weth = false;
  };
  base_is_token0 = true;
  canonical_pair = codes "ABCUSDC";
}

abbrev state : V4PoolState
state = record {
  meta = pool;
  registered = false;
  last_price = none;
  last_price1_per0 = none;
  last_price0_per1 = none;
  last_float1_per0 = f_zero;
  last_float0_per1 = f_zero;
  last_weight = f_zero;
  last_amount0 = none;
  last_amount1 = none;
  last_liquidity = none;
  last_tick = pos 0;
  last_fee = none;
  once_emitted = false;
  last_update = 0;
}

abbrev ones : BigFloat
ones = record { of_rat = λ r. f_one; of_int = λ n. f_one; of_quo = λ n d. f_one }

-- Every event is a swap at the root 2 ^ 96, and a topic stands for its length.
abbrev abi : Abi
abi = record {
  event_of = λ sig. some (codes "Swap");
  decode = λ t. some [];
  unpack = λ bytes. some ((codes "sqrtPriceX96", big_int (pos (2 ^ 96))) ∷ []);
  text = record { decode_big = λ t. none; set_string = λ t. none };
  to_int64 = λ n. n;
  hash = λ t. length t;
}

abbrev swap : LogEvent
swap = record {
  address = [];
  payload = codes "0x00";
  topics = codes "0x" ∷ codes "0x00000" ∷ [];
  removed = false;
}

abbrev graph : Pricer GraphPricer
graph = graph_pricer sample_float sample_eth in_order

abbrev clock : ℕ → ℕ
clock k = 1000000000

abbrev earlier : List Op
earlier = []

abbrev connector : V4Connector GraphPricer
connector = record {
  pools = (7, state) ∷ [];
  registered = [];
  success_updates = 0;
  conversion_errors = 0;
  unknown_pool_events = 0;
  pricer = run sample_float sample_eth earlier (new_pricer sample_eth []);
  out = [];
}

abbrev swapped : SwapResult × V4Connector GraphPricer
swapped =
    handle_swap_event sample_eth ones graph (codes "uni") abi true clock swap swap.topics connector

swap-completes : swapped.0 ≡ once_complete
unfolding with_pool swap_priced big_int_field sqrt_price_to_directional_prices invert lookup insert
    eqb equal_fold to_lower trim_space is_space store_swap_metrics store once_status unmarked
swap-completes = refl

handle_swap_event-IsComplete_example : IsEmitted swapped.1.pools
handle_swap_event-IsComplete_example =
    handle_swap_event-IsComplete sample_eth ones graph (codes "uni") abi true clock swap swap.topics
      connector swap-completes

abbrev synced : Json
synced = record {
  ack = λ raw. none;
  note = λ raw. some (record { method = codes "eth_subscription"; result = swap });
}

abbrev events : List StreamEvent
events = timeout true true ∷ frame clock [] true true ∷ []

run_stream-IsPublished_example : IsPublished (exchange_name_v4 (codes "Uni")) (
    run_stream sample_eth ones synced graph
      (some abi)
      true
      (codes "Uni")
      false
      events
      (start_stream connector))
run_stream-IsPublished_example =
    run_stream-IsPublished sample_float sample_eth in_order ones synced (some abi) true
      (codes "Uni") false [] earlier connector events refl refl

start_stream-IsPatient_example :
    pauses_in_row sample_eth ones synced graph
      (some abi)
      true
      (codes "Uni")
      false
      0
      events
      (start_stream connector)
    ≤ 4
start_stream-IsPatient_example =
    start_stream-IsPatient sample_eth ones synced graph (some abi) true (codes "Uni") false
      connector events

start_stream-HasEnded_example : HasEnded (
    run_stream sample_eth ones synced graph
      (some abi)
      true
      (codes "Uni")
      false
      (timeouts (replicate 5 (true, true)))
      (start_stream connector))
start_stream-HasEnded_example =
    start_stream-HasEnded sample_eth ones synced graph (some abi) true (codes "Uni") false connector
      (replicate 5 (true, true)) (omega arith)

abbrev config : V4Config
config = record {
  exchange = codes "uni";
  network = [];
  ws_url = codes "wss://node";
  http_url = codes "https://node";
  pool_manager = 5;
  pools_path = [];
  pools = pool ∷ pool ∷ [];
  subscribe_batch = pos 150;
  ping_interval = pos 25;
  max_meta_workers = pos 4;
  swap_only = true;
  log_all_events = false;
  stop_on_ack_error = false;
  once = false;
  wanted_pairs = [];
  wanted_pairs_only = false;
  registry = some empty_registry;
}

booted :
    (c : V4Connector GraphPricer) × (bootstrap_pools sample_eth ones graph
        (codes "uni")
        length
        (λ path. none)
        (λ text. none)
        config
        connector
      ≡ ok c)
unfolding bootstrap_pools prepared prepare_inline normalize_inline_pool enrich_token_meta is_wanted
    wanted_keys
booted = (_, refl)

bootstrap_pools-IsBooted_example :
    (booted.0.pools ≢ [])
    × IsBooted sample_eth ones synced graph
        (codes "uni")
        IsSound
        (graph_pricer-KeptBy sample_float sample_eth in_order)
        connector
        booted.0
bootstrap_pools-IsBooted_example =
    bootstrap_pools-IsBooted sample_eth ones synced graph (codes "uni") IsSound
      (graph_pricer-KeptBy sample_float sample_eth in_order) length (λ path. none) (λ text. none)
      config connector booted.0 (run-IsSound sample_float sample_eth [] earlier) booted.1
