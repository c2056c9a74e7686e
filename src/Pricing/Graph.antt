-- ===== src/Pricing/Graph.antt =====
-- internal/dex/pricing/graph_pricer.go: the graph of prices, its registration and its updates.
-- A time is a number of nanoseconds, zero for `time.Time{}`; `now` is what `time.Now()` gives.
-- The lock is held by each operation from its first access on, so operations run one by one.
use screener_cd.Prelude.{
  ℕ, Bool, true, false, not, ◌&&◌, ◌||◌, List, [], ◌∷◌, Option, none, some, ltb, ◌==◌ as eq_ℕ,
  if◌then◌else◌,
}
use screener_cd.Prelude.Dict.{lookup, insert}
use screener_cd.Text.{Text, to_upper, trim_space, eqb, text_eq}
use screener_cd.Float.{
  FloatOps, f_zero, f_one, f_nano, f_micro, f_lt, f_le, is_nan, is_inf, is_unusable,
}
use screener_cd.Eth.{EthCommon, normalize_addr}

pub record TokenInfo : Type 0 where
  pub address : ℕ
  pub symbol : Text
  pub decimals : ℕ

pub record Edge : Type 0 where
  pub price : ℕ
  pub weight : ℕ
  pub updated_at : ℕ

abbrev pub Edges : Type 0
Edges = List (Text × Edge)

pub record GraphPricer : Type 0 where
  pub edges : List (Text × Edges)
  pub symbols : List (Text × Text)
  pub stables : List (Text × Bool)
  pub max_hops : ℕ

unfoldable pub new_graph_pricer : GraphPricer
new_graph_pricer = record { edges = []; symbols = []; stables = []; max_hops = 3 }

-- m[k] of a map to maps: the empty map if the key is missing.
abbrev pub or_empty : Option Edges → Edges
or_empty none = []
or_empty (some es) = es

abbrev pub or_false : Option Bool → Bool
or_false none = false
or_false (some b) = b

unfoldable pub edges_of : GraphPricer → Text → Edges
edges_of g u = or_empty (lookup u g.edges)

unfoldable pub is_stable : GraphPricer → Text → Bool
is_stable g u = or_false (lookup u g.stables)

-- The symbol that is kept for a token: its address where it has none.
unfoldable pub display_symbol : Text → Text → Text
display_symbol addr raw =
    let symbol = to_upper (trim_space raw) in if eqb symbol [] then addr else symbol

unfoldable pub register_token : EthCommon → TokenInfo → GraphPricer → GraphPricer
register_token e token g =
    let addr = normalize_addr e token.address in
    if eqb addr []
    then g
    else record g { symbols = insert addr (display_symbol addr token.symbol) g.symbols }

unfoldable pub register_stable : EthCommon → TokenInfo → GraphPricer → GraphPricer
register_stable e token g =
    let addr = normalize_addr e token.address in
    if eqb addr [] then g else record g {
      symbols = insert addr (display_symbol addr token.symbol) g.symbols;
      stables = insert addr true g.stables;
    }

unfoldable pub register_anchors : EthCommon → List TokenInfo → GraphPricer → GraphPricer
register_anchors e [] g = g
register_anchors e (t ∷ ts) g = register_anchors e ts (register_stable e t g)

unfoldable pub new_pricer : EthCommon → List TokenInfo → GraphPricer
new_pricer e stables = register_anchors e stables new_graph_pricer

-- `inv > 0 && !math.IsInf(inv, 0) && !math.IsNaN(inv)`
unfoldable pub is_usable : ℕ → Bool
is_usable inv = f_lt f_zero inv && (not (is_inf inv) && not (is_nan inv))

-- The weight and the time that an update stores.
unfoldable pub stored_weight : ℕ → ℕ
stored_weight weight = if is_unusable weight then f_nano else weight

unfoldable pub stored_time : ℕ → ℕ → ℕ
stored_time now ts = if eq_ℕ ts 0 then now else ts

module _ (f : FloatOps) where
  -- Whether the stored edge stays: it is no older, and no lighter up to the tolerance.
  unfoldable pub keeps_edge : Edge → ℕ → ℕ → Bool
  keeps_edge cur weight ts = not (ltb cur.updated_at ts) && f_le weight (f.add cur.weight f_micro)

  unfoldable pub merge_edge : Option Edge → ℕ → ℕ → ℕ → Edge
  merge_edge none price weight ts = record { price = price; weight = weight; updated_at = ts }
  merge_edge (some cur) price weight ts =
      if keeps_edge cur weight ts
      then cur
      else record { price = price; weight = weight; updated_at = ts }

  -- `setEdgeLocked`
  unfoldable pub set_edge : Text → Text → ℕ → ℕ → ℕ → GraphPricer → GraphPricer
  set_edge from to price weight ts g =
      let neighbors = edges_of g from in
      let kept = merge_edge (lookup to neighbors) price weight ts in
      record g { edges = insert from (insert to kept neighbors) g.edges }

  -- The two calls of `setEdgeLocked` at the end of `UpdatePair`.
  unfoldable pub link : Text → Text → ℕ → ℕ → ℕ → GraphPricer → GraphPricer
  link a b price weight ts g =
      let g1 = set_edge a b price weight ts g in
      let inv = f.div f_one price in if is_usable inv then set_edge b a inv weight ts g1 else g1

  unfoldable pub update_pair :
      EthCommon → ℕ → TokenInfo → TokenInfo → ℕ → ℕ → ℕ → GraphPricer → GraphPricer
  update_pair e now a b price weight ts g =
      if is_unusable price
      then g
      else if eqb (normalize_addr e a.address) [] || eqb (normalize_addr e b.address) []
      then g
      else link (normalize_addr e a.address) (normalize_addr e b.address) price
          (stored_weight weight) (stored_time now ts) (register_token e b (register_token e a g))

-- The operations of the interface `Pricer` that change the graph.
pub data Op : Type 0 where
  add_token : TokenInfo → Op
  add_stable : TokenInfo → Op
  add_price : ℕ → TokenInfo → TokenInfo → ℕ → ℕ → ℕ → Op

unfoldable pub apply : FloatOps → EthCommon → Op → GraphPricer → GraphPricer
apply f e (add_token t) g = register_token e t g
apply f e (add_stable t) g = register_stable e t g
apply f e (add_price now a b price weight ts) g = update_pair f e now a b price weight ts g

unfoldable pub run : FloatOps → EthCommon → List Op → GraphPricer → GraphPricer
run f e [] g = g
run f e (op ∷ ops) g = run f e ops (apply f e op g)
