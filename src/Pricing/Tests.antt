-- ===== src/Pricing/Tests.antt =====
-- The scenario of graph_pricer_test.go, and the theorems at concrete graphs.
use screener_cd.Prelude.{
  ℕ, ◌<◌, ◌≡◌, ◌≢◌, refl, ◌⊎◌, Bool, true, false, ◌&&◌, List, [], ◌∷◌, Option, none, some, arith,
}
use screener_cd.Prelude.Dict.{lookup, insert}
use screener_cd.Text.{codes, to_upper, to_lower, trim_space, is_space, eqb}
use screener_cd.Float.{f_one, f_max, f_lt, f_le, is_nan, is_inf, is_zero, is_unusable, f_abs}
use screener_cd.Eth.{normalize_addr, lower_hex}
use screener_cd.Samples.{sample_eth, sample_float, in_order, in_order-perm}
use screener_cd.Pricing.Graph.{
  TokenInfo, GraphPricer, new_pricer, Op, add_price, run, apply, update_pair, merge_edge,
  stored_weight, stored_time, link, set_edge, edges_of, keeps_edge, register_token, display_symbol,
  register_anchors, register_stable, new_graph_pricer, is_usable, is_stable,
}
use screener_cd.Pricing.Resolve.{
  resolve_usd, Result, search_loop, enough_fuel, power, max_degree, start_search, start_item,
  visit_edges, visit_edge, extend, offer, improves, better_candidate, enqueue, is_pruned,
  should_visit, symbol_path, symbol_unsafe, next_freshness,
}
use screener_cd.Pricing.Route.{resolve_usd-IsRouted, IsRouted, IsAnchored}
use screener_cd.Pricing.Ends.{resolve_usd-returns}
use screener_cd.Pricing.Edges.{run-IsSound, IsSound}
use screener_cd.Pricing.Update.{update_pair_frame, edge_between, addr_of}

abbrev usdc : TokenInfo
usdc = record { address = 1; symbol = codes "USDC"; decimals = 6 }

abbrev usdt : TokenInfo
usdt = record { address = 2; symbol = codes "USDT"; decimals = 6 }

abbrev abc : TokenInfo
abc = record { address = 3; symbol = codes "abc"; decimals = 18 }

-- 10.0, 9.0, 50.0 and 120.0
abbrev ten : ℕ
ten = 0x4024000000000000

abbrev nine : ℕ
nine = 0x4022000000000000

abbrev fifty : ℕ
fifty = 0x4049000000000000

abbrev heavy : ℕ
heavy = 0x405e000000000000

abbrev prices : List Op
prices = add_price 9 abc usdc ten fifty 7 ∷ add_price 9 abc usdt nine heavy 8 ∷ []

-- A pricer with two anchors after these prices; the line names what a run computes with.
graph : List Op → GraphPricer
unfolding run apply update_pair link set_edge edges_of merge_edge keeps_edge is_usable stored_weight
    stored_time register_token display_symbol new_pricer register_anchors register_stable
    new_graph_pricer normalize_addr lower_hex is_unusable f_le f_lt is_nan is_inf lookup insert eqb
    to_upper to_lower trim_space is_space
graph ops = run sample_float sample_eth ops (new_pricer sample_eth (usdc ∷ usdt ∷ []))

resolve : List Op → TokenInfo → Option (Result × Bool)
unfolding graph resolve_usd is_stable search_loop enough_fuel power max_degree start_search
    start_item visit_edges visit_edge extend offer improves better_candidate enqueue is_pruned
    should_visit symbol_path symbol_unsafe next_freshness f_abs is_zero
resolve ops token = resolve_usd sample_float (graph ops) in_order sample_eth 9 token

abbrev answer : Result
answer = record {
  price = nine;
  route = codes "ABC" ∷ codes "USDT" ∷ [];
  weight = heavy;
  updated_at = 8;
}

highest_weight : resolve prices abc ≡ some (answer, true)
unfolding resolve
highest_weight = refl

three_hops : 0 < (graph prices).max_hops
unfolding graph
three_hops = omega arith

-- A token with no edges has no price.
no_route :
    resolve [] abc
    ≡ some (record { price = 0; route = []; weight = 0xbff0000000000000; updated_at = 0 }, false)
unfolding resolve
no_route = refl

anchor :
    resolve [] usdc
    ≡ some
        (record { price = f_one; route = codes "USDC" ∷ []; weight = f_max; updated_at = 9 }, true)
unfolding resolve
anchor = refl

resolve_usd-IsRouted_example :
    IsAnchored (graph prices) (normalize_addr sample_eth 3) 9 answer
    ⊎ (is_stable (graph prices) (normalize_addr sample_eth 3) ≡ false)
      × IsRouted sample_float (graph prices) (normalize_addr sample_eth 3) answer
resolve_usd-IsRouted_example =
    resolve_usd-IsRouted sample_float (graph prices) in_order sample_eth 9 abc answer in_order-perm
      (three_hops) (unfold resolve in highest_weight)

resolve_usd-returns_example :
    resolve_usd sample_float (graph prices) in_order sample_eth 9 abc ≢ none
resolve_usd-returns_example =
    resolve_usd-returns sample_float (graph prices) in_order sample_eth 9 abc in_order-perm

run-IsSound_example :
    IsSound (run sample_float sample_eth prices (new_pricer sample_eth (usdc ∷ [])))
run-IsSound_example = run-IsSound sample_float sample_eth (usdc ∷ []) prices

apart :
    ((eqb (addr_of sample_eth abc) (addr_of sample_eth abc)
        && eqb (addr_of sample_eth usdc) (addr_of sample_eth usdt))
      ≡ false)
    × ((eqb (addr_of sample_eth usdc) (addr_of sample_eth abc)
          && eqb (addr_of sample_eth abc) (addr_of sample_eth usdt))
        ≡ false)
unfolding graph
apart = (refl, refl)

update_pair_frame_example :
    edge_between
      (update_pair sample_float sample_eth 9 abc usdc ten fifty 7 (graph prices))
      (addr_of sample_eth abc)
      (addr_of sample_eth usdt)
    ≡ edge_between (graph prices) (addr_of sample_eth abc) (addr_of sample_eth usdt)
update_pair_frame_example =
    update_pair_frame sample_float sample_eth 9 abc usdc ten fifty 7 (graph prices)
      (addr_of sample_eth abc) (addr_of sample_eth usdt) apart.0 apart.1
