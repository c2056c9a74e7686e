-- ===== src/Uniswap/FlowTests.antt =====
-- The theorems on the messages and the sessions of the connector at concrete inputs.
use screener_cd.Prelude.{
  ℕ, ◌+◌, ◌≡◌, refl, true, false, List, [], ◌∷◌, ◌++◌, map, none, some, arith, inl, if◌then◌else◌,
}
use screener_cd.Prelude.Dict.{lookup, nat_eq}
use screener_cd.Prelude.Int.{ℤ, pos}
use screener_cd.Prelude.Result.{ok, err}
use screener_cd.Text.{
  codes, eqb, equal_fold, to_lower, trim_space, is_space, trim_prefix, has_prefix, drop_prefix,
}
use screener_cd.Text.Hex.{
  to_bytes, from_bytes, from_bytes_onto, encode_hex, limit, decode_hex, hex_value, hex_digit,
}
use screener_cd.Float.{f_one}
use screener_cd.Eth.{EthCommon}
use screener_cd.Samples.{sample_eth, sample_float, in_order}
use screener_cd.Pricing.Graph.{GraphPricer, new_pricer}
use screener_cd.Uniswap.Meta.{
  PoolConfig, finalize_pool, swap_pool_tokens, normalize_pair, base_symbol, quote_symbol,
}
use screener_cd.Uniswap.Order.{
  Ask, fetch_pair_tokens, ensure_pool_order, adjust_pools_ordering, adjust_pools, call_address,
  parse_address_result, ordered,
}
use screener_cd.Uniswap.Gecko.{is_seen}
use screener_cd.Uniswap.Pools.{IsPoolList}
use screener_cd.Uniswap.Markets.{market_of}
use screener_cd.Uniswap.Ordered.{IsOrdered, adjust_pools_ordering-IsPoolList, ensure_pool_order-lem}
use screener_cd.Uniswap.Amounts.{BigFloat}
use screener_cd.Uniswap.RoundTrip.{sync_data}
use screener_cd.Uniswap.Connector.{
  Pricer, PoolState, Connector, SubNote, RpcError, Json, subscribe_error, try_ack, try_note,
  sync_topic, exchange_name,
}
use screener_cd.Uniswap.Handle.{handle_raw, handle_ack, new_connector}
use screener_cd.Uniswap.Synced.{IsPriced, exact_price, handle_raw-FailsAlone, handle_raw-IsPriced}
use screener_cd.Uniswap.Session.{Config, Attempt, Running, run, run_loop, pools_of_run}
use screener_cd.Uniswap.Wired.{graph_pricer, IsWired, run-IsWired}
use screener_cd.Uniswap.Tests.{pool}

abbrev test_eth : EthCommon
test_eth = record sample_eth { bytes_to_address = from_bytes }

-- A node whose pools all have the tokens 2 and 1, in this order.
abbrev crossed : Ask
crossed n addr payload =
    some
      (codes "0x" ++ encode_hex (to_bytes 32 (if eqb payload (codes "0x0dfe1681") then 2 else 1)))

abbrev no_wrap : ℕ → ℤ
no_wrap n = pos 0

adjusted_pools : List PoolConfig
unfolding adjust_pools
adjusted_pools = adjust_pools test_eth no_wrap crossed 0 (pool ∷ []) []

pools_adjusted :
    adjust_pools_ordering test_eth no_wrap (λ url. some crossed) (codes "http://node") (pool ∷ [])
    ≡ ok adjusted_pools
unfolding adjust_pools_ordering adjusted_pools trim_space is_space
pools_adjusted = refl

pool-IsPoolList : IsPoolList [] (pool ∷ [])
unfolding is_seen
pool-IsPoolList = ((record { priced_in = inl refl; flagged = refl; paired = refl }, tt), (refl, tt))

fetch_crossed : fetch_pair_tokens test_eth crossed 0 pool.address ≡ ok (2, 1)
unfolding fetch_pair_tokens call_address parse_address_result decode_hex from_bytes from_bytes_onto
    hex_value hex_digit encode_hex to_bytes trim_space is_space trim_prefix has_prefix drop_prefix
    eqb
fetch_crossed = refl

adjusted_pool : PoolConfig
unfolding ordered finalize_pool swap_pool_tokens normalize_pair base_symbol quote_symbol eqb
adjusted_pool = finalize_pool (swap_pool_tokens pool)

pool_adjusted : ensure_pool_order test_eth crossed 0 pool ≡ ok adjusted_pool
unfolding ensure_pool_order ordered adjusted_pool
pool_adjusted = rw fetch_crossed refl

ensure_pool_order-lem_example : IsOrdered pool adjusted_pool 2 1
ensure_pool_order-lem_example =
    ensure_pool_order-lem test_eth crossed 0 pool adjusted_pool 2 1 fetch_crossed pool_adjusted

adjust_pools_ordering-IsPoolList_example :
    (map market_of adjusted_pools ≡ map market_of (pool ∷ [])) × IsPoolList [] adjusted_pools
adjust_pools_ordering-IsPoolList_example =
    adjust_pools_ordering-IsPoolList test_eth no_wrap (λ url. some crossed) (codes "http://node")
      (pool ∷ []) adjusted_pools pools_adjusted pool-IsPoolList

-- What is recorded of a message is whether it is an acknowledgement with an error, or a Sync event.
abbrev refusal : RpcError
refusal = record { code = pos 32601; message = codes "no such method" }

abbrev refused : Json
refused = record {
  ack = λ raw. some (record { result = []; error = some refusal });
  note = λ raw. none;
}

abbrev event : SubNote
event = record {
  method = codes "eth_subscription";
  result = record {
    address = codes "0x1111111";
    payload = sync_data 5000 7000;
    topics = sync_topic ∷ [];
    removed = false;
  };
}

abbrev synced : Json
synced = record { ack = λ raw. none; note = λ raw. some event }

-- Every number in float64 is 1.0 here.
abbrev ones : BigFloat
ones = record { of_rat = λ r. f_one; of_int = λ n. f_one; of_quo = λ n d. f_one }

abbrev graph : Pricer GraphPricer
graph = graph_pricer sample_float sample_eth in_order

abbrev clock : ℕ → ℕ
clock k = 1000000000 + k

abbrev state : PoolState
state = record { meta = pool; last_price = none; got_first = false }

abbrev connector : Connector GraphPricer
connector = record { pools = (7, state) ∷ []; pricer = some (new_pricer sample_eth []); out = [] }

refused-fails :
    (handle_raw sample_eth ones refused graph (codes "uni") clock [] connector).0
    ≡ err (subscribe_error refusal)
unfolding handle_raw handle_ack try_ack eqb
refused-fails = refl

handle_raw-FailsAlone_example :
    (handle_raw sample_eth ones refused graph (codes "uni") clock [] connector).1 ≡ connector
handle_raw-FailsAlone_example =
    handle_raw-FailsAlone sample_eth ones refused graph (codes "uni") clock [] connector
      (subscribe_error refusal) refused-fails

event_noted : try_note (some event) ≡ some event
unfolding try_note equal_fold to_lower eqb
event_noted = refl

state_known : lookup 7 connector.pools ≡ some state
unfolding lookup
state_known = refl

handle_raw-IsPriced_example :
    ((handle_raw sample_eth ones synced graph (codes "uni") clock [] connector).0 ≡ ok tt)
    × IsPriced sample_eth ones synced graph
        (codes "uni")
        clock
        7
        state
        (exact_price pool 5000 7000)
        connector
        (handle_raw sample_eth ones synced graph (codes "uni") clock [] connector).1
unfolding limit try_ack
handle_raw-IsPriced_example =
    handle_raw-IsPriced sample_eth ones synced graph (codes "uni") clock [] event state 5000 7000
      connector refl event_noted state_known refl (omega arith) (omega arith) (omega arith)
      (omega arith)

abbrev config : Config
config = record {
  ws_url = codes "wss://node";
  http_url = [];
  exchange = codes "uni";
  pools = pool ∷ [];
  subscribe_batch_size = pos 0;
  ping_interval = pos 0;
}

-- An endpoint that does not answer, and then one that does.
abbrev attempts : List Attempt
attempts =
    record { answers = false; order = λ xs. xs; write = λ id. true; messages = [] }
    ∷ record { answers = true; order = λ xs. xs; write = λ id. true; messages = (clock, []) ∷ [] }
    ∷ []

abbrev ended : Running GraphPricer
ended = run_loop sample_eth ones synced graph config attempts (record {
  connector =
      new_connector graph (pools_of_run sample_eth ones synced graph config no_wrap (λ url. none))
        (some (new_pricer sample_eth []));
  backoff = 1000000000;
  pauses = [];
  requests = [];
})

run-ended :
    run sample_eth ones synced graph config true no_wrap
      (λ url. none)
      (some (new_pricer sample_eth []))
      attempts
    ≡ ok ended
unfolding run
run-ended = refl

run-IsWired_example : IsWired (codes "uni") ended
unfolding exchange_name eqb trim_space is_space
run-IsWired_example =
    run-IsWired sample_float sample_eth in_order ones synced config [] true no_wrap (λ url. none)
      attempts ended run-ended
