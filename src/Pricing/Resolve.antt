-- ===== src/Pricing/Resolve.antt =====
-- internal/dex/pricing/graph_pricer.go: `ResolveUSD`, the search for a route to a stable coin.
-- `range` over a map goes in any order: `order k es` is the order of the visit that starts with
-- `k` rounds of fuel left.
use screener_cd.Prelude.{
  ℕ, zero, suc, ◌+◌, ◌*◌, Bool, true, false, not, ◌&&◌, ◌||◌, List, [], ◌∷◌, ◌++◌, map, Option,
  none, some, ltb, leb, ◌==◌ as eq_ℕ, if◌then◌else◌, length,
}
use Prim.Native.Nat.{max}
use screener_cd.Prelude.Dict.{lookup, insert}
use screener_cd.Text.{Text, eqb, text_eq}
use screener_cd.Float.{
  FloatOps, f_zero, f_one, f_minus_one, f_max, f_micro, f_abs, f_lt, f_le, is_zero, is_unusable,
}
use screener_cd.Eth.{EthCommon, normalize_addr}
use screener_cd.Pricing.Graph.{TokenInfo, Edge, Edges, GraphPricer, edges_of, is_stable}

pub record Result : Type 0 where
  pub price : ℕ
  pub route : List Text
  pub weight : ℕ
  pub updated_at : ℕ

pub record QueueItem : Type 0 where
  pub addr : Text
  pub price : ℕ
  pub weight : ℕ
  pub freshness : ℕ
  pub path : List Text
  pub hops : ℕ

pub record VisitInfo : Type 0 where
  pub weight : ℕ
  pub hops : ℕ

-- The variables of the search.
pub record Search : Type 0 where
  pub visited : List (Text × VisitInfo)
  pub queue : List QueueItem
  pub best : Result
  pub found : Bool

abbrev pub or_text : Text → Option Text → Text
or_text addr none = addr
or_text addr (some s) = s

-- `symbolUnsafe` and `symbolPath`
unfoldable pub symbol_unsafe : GraphPricer → Text → Text
symbol_unsafe g addr = or_text addr (lookup addr g.symbols)

unfoldable pub symbol_path : GraphPricer → List Text → List Text
symbol_path g path = map (symbol_unsafe g) path

abbrev pub or_unvisited : Option VisitInfo → VisitInfo
or_unvisited none = record { weight = f_zero; hops = 0 }
or_unvisited (some v) = v

-- The value of `nextFresh`.
unfoldable pub next_freshness : ℕ → ℕ → ℕ
next_freshness cur updated = if not (eq_ℕ cur 0) && ltb cur updated then cur else updated

-- The largest number of edges out of a token, and rounds that suffice.
unfoldable pub max_degree : List (Text × Edges) → ℕ
max_degree [] = 0
max_degree ((u, es) ∷ m) = max (length es) (max_degree m)

unfoldable pub power : ℕ → ℕ → ℕ
power b zero = 1
power b (suc n) = b * power b n

unfoldable pub enough_fuel : GraphPricer → ℕ
enough_fuel g = suc (power (max_degree g.edges + 1) g.max_hops)

unfoldable pub start_item : Text → QueueItem
start_item addr = record {
  addr = addr;
  price = f_one;
  weight = f_max;
  freshness = 0;
  path = addr ∷ [];
  hops = 0;
}

unfoldable pub start_search : Text → Search
start_search addr = record {
  visited = (addr, record { weight = f_max; hops = 0 }) ∷ [];
  queue = start_item addr ∷ [];
  best = record { price = 0; route = []; weight = f_minus_one; updated_at = 0 };
  found = false;
}

abbrev pub outcome : Option Search → Option (Result × Bool)
outcome none = none
outcome (some s) = some (s.best, s.found)

module _ (f : FloatOps) where
  unfoldable pub should_visit : VisitInfo → ℕ → ℕ → Bool
  should_visit prev weight hops =
      if f_le weight f_zero
      then false
      else if is_zero prev.weight && eq_ℕ prev.hops 0
      then true
      else if f_lt (f.add prev.weight f_micro) weight
      then true
      else f_le (f_abs (f.sub weight prev.weight)) f_micro && ltb hops prev.hops

  unfoldable pub better_candidate : Result → Result → ℕ → Bool
  better_candidate current candidate eps =
      if f_lt (f.add current.weight eps) candidate.weight
      then true
      else f_le (f_abs (f.sub candidate.weight current.weight)) eps
        && ltb current.updated_at candidate.updated_at

  -- The item that the edge (next, e) would add behind `cur`.
  unfoldable pub extend : QueueItem → Text → Edge → QueueItem
  extend cur next e = record {
    addr = next;
    price = f.mul cur.price e.price;
    weight = if f_lt e.weight cur.weight then e.weight else cur.weight;
    freshness = next_freshness cur.freshness e.updated_at;
    path = cur.path ++ next ∷ [];
    hops = cur.hops + 1;
  }

  module _ (g : GraphPricer) where
    abbrev pub result_of : QueueItem → Result
    result_of item = record {
      price = item.price;
      route = symbol_path g item.path;
      weight = item.weight;
      updated_at = item.freshness;
    }

    -- Whether the route of `item` replaces the best one.
    unfoldable pub improves : QueueItem → Search → Bool
    improves item s =
        let candidate : Result = record {
          price = item.price;
          route = [];
          weight = item.weight;
          updated_at = item.freshness;
        } in
        not s.found || better_candidate s.best candidate f_micro

    -- An edge into a stable coin.
    unfoldable pub offer : QueueItem → Search → Search
    offer item s = if improves item s then record s { best = result_of item; found = true } else s

    -- Whether an edge is not followed: `hops >= maxHops`, or `shouldVisit` refuses it.
    unfoldable pub is_pruned : QueueItem → Search → Bool
    is_pruned item s =
        leb g.max_hops item.hops
        || not (should_visit (or_unvisited (lookup item.addr s.visited)) item.weight item.hops)

    -- An edge into another token.
    unfoldable pub enqueue : QueueItem → Search → Search
    enqueue item s = if is_pruned item s then s else record s {
      visited = insert item.addr (record { weight = item.weight; hops = item.hops }) s.visited;
      queue = s.queue ++ item ∷ [];
    }

    -- The body of the loop over the edges of `cur`.
    unfoldable pub visit_edge : QueueItem → Search → Text → Edge → Search
    visit_edge cur s next e =
        let item = extend cur next e in
        if is_unusable e.price
        then s
        else if is_unusable item.price
        then s
        else if f_le item.weight f_zero
        then s
        else if is_stable g next
        then offer item s
        else enqueue item s

    unfoldable pub visit_edges : QueueItem → Search → Edges → Search
    visit_edges cur s [] = s
    visit_edges cur s ((next, e) ∷ es) = visit_edges cur (visit_edge cur s next e) es

    module _ (order : ℕ → Edges → Edges) where
      -- `for len(queue) > 0`; `none` means that the fuel ran out.
      unfoldable pub search_loop : ℕ → Search → Option Search
      search_loop zero s = none
      search_loop (suc k) s = elim s.queue [
        | [] ↦ some s
        | cur ∷ rest ↦
            search_loop k
              (visit_edges cur (record s { queue = rest }) (order k (edges_of g cur.addr)))
      ]

      -- `none` where the fuel ran out, else the result and `ok`.
      unfoldable pub resolve_usd : EthCommon → ℕ → TokenInfo → Option (Result × Bool)
      resolve_usd c now token =
          let addr = normalize_addr c token.address in
          if eqb addr []
          then some (record { price = 0; route = []; weight = 0; updated_at = 0 }, false)
          else if is_stable g addr
          then some (
            record {
              price = f_one;
              route = symbol_unsafe g addr ∷ [];
              weight = f_max;
              updated_at = now;
            },
            true,
          )
          else outcome (search_loop (enough_fuel g) (start_search addr))
