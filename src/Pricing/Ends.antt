-- ===== src/Pricing/Ends.antt =====
-- The search of `ResolveUSD` ends: each round takes an item off the queue and adds fewer, deeper
-- ones, so a load that weighs an item by its remaining hops falls.
use mathlib.Core.List.{Permᴰ}
use native.Mathlib.Nat.{mul-le-mul_right}
use screener_cd.Prelude.{
  ℕ, zero, suc, ◌+◌, ◌-◌, ◌*◌, ◌<◌, ◌≤◌, ◌≡◌, ◌≢◌, refl, false, List, [], ◌∷◌, ◌++◌, none, some,
  arith, ltb, if◌then◌else◌, if_intro, length, List-cases, Bool-cases, inl, inr, ap,
}
use screener_cd.Prelude.Dict.{lookup}
use screener_cd.Prelude.Perm.{length-perm}
use screener_cd.Text.{Text, eqb, text_eq}
use screener_cd.Float.{FloatOps, f_zero, f_le, is_unusable}
use screener_cd.Eth.{EthCommon, normalize_addr}
use screener_cd.Pricing.Graph.{TokenInfo, Edge, Edges, GraphPricer, edges_of, is_stable, or_empty}
use screener_cd.Pricing.Resolve.{
  resolve_usd, enough_fuel, max_degree, power, QueueItem, Search, extend, offer, improves, enqueue,
  is_pruned, visit_edge, visit_edges, search_loop, start_item, start_search,
}

length-lookup : (u : Text) (m : List (Text × Edges)) → length (or_empty (lookup u m)) ≤ max_degree m
unfolding max_degree lookup
length-lookup u [] = omega arith
length-lookup u ((v, es) ∷ m) = elim (Bool-cases (eqb v u)) [
  | inl e ↦ rw e (omega arith)
  | inr e ↦ rw e (omega (arith, length-lookup u m))
]

power_pos : (b n : ℕ) → 0 < power (b + 1) n
unfolding power
power_pos b zero = omega arith
power_pos b (suc n) = grind (arith, power_pos b n)

mul-lt : (d n c : ℕ) → n ≤ d → 0 < c → n * c < (d + 1) * c
mul-lt d n c h pos = omega (arith, mul-le-mul_right c h)

power-lt : (d n m k : ℕ) → m ≡ suc k → n ≤ d → n * power (d + 1) k < power (d + 1) m
unfolding power
power-lt d n m k e h = rw e (mul-lt d n (power (d + 1) k) h (power_pos d k))

module _ (f : FloatOps) (g : GraphPricer) where
  abbrev base : ℕ
  base = max_degree g.edges + 1

  -- An item by the hops that are left to it.
  abbrev item_load : QueueItem → ℕ
  item_load item = power base (g.max_hops - item.hops)

  abbrev load : List QueueItem → ℕ
  load [] = 0
  load (item ∷ items) = item_load item + load items

  load-append :
      (xs : List QueueItem) (item : QueueItem) → load (xs ++ item ∷ []) ≡ load xs + item_load item
  load-append [] item = omega arith
  load-append (x ∷ xs) item = omega (arith, load-append xs item)

  -- What one edge out of an item with these hops adds at most.
  abbrev edge_load : ℕ → ℕ
  edge_load hops = if ltb (hops + 1) g.max_hops then power base (g.max_hops - (hops + 1)) else 0

  enqueue-load :
      (item : QueueItem) (h : ℕ) (s : Search)
      → item.hops ≡ h + 1
      → load (enqueue f g item s).queue ≤ load s.queue + edge_load h
  unfolding enqueue
  enqueue-load item h s e =
      if_intro (λ (t : Search). load t.queue ≤ load s.queue + edge_load h) (is_pruned f g item s) _
        _ (λ _. omega arith) λ (kept : is_pruned f g item s ≡ false). added kept
    where
      added :
          is_pruned f g item s ≡ false → load (s.queue ++ item ∷ []) ≤ load s.queue + edge_load h
      added kept =
          unfold is_pruned in
          ground (arith, load-append s.queue item, ap (λ (k : ℕ). power base (g.max_hops - k)) e)

  visit_edge-load :
      (cur : QueueItem) (s : Search) (next : Text) (e : Edge)
      → load (visit_edge f g cur s next e).queue ≤ load s.queue + edge_load cur.hops
  unfolding visit_edge offer extend
  visit_edge-load cur s next e =
      let item = extend f cur next e in
      let P = λ (t : Search). load t.queue ≤ load s.queue + edge_load cur.hops in
      if_intro P (is_unusable e.price) _ _ (λ _. omega arith)
        λ _.
          if_intro P (is_unusable item.price) _ _ (λ _. omega arith)
            λ _.
              if_intro P (f_le item.weight f_zero) _ _ (λ _. omega arith)
                λ _.
                  if_intro P (is_stable g next) _ _
                    (λ _.
                      if_intro P (improves f g item s) _ _ (λ _. omega arith) (λ _. omega arith))
                    (λ _. enqueue-load item cur.hops s refl)

  visit_edges-load :
      (cur : QueueItem) (s : Search) (es : Edges)
      → load (visit_edges f g cur s es).queue ≤ load s.queue + length es * edge_load cur.hops
  unfolding visit_edges
  visit_edges-load cur s [] = omega arith
  visit_edges-load cur s ((next, e) ∷ es) =
      omega
        (arith, visit_edges-load cur (visit_edge f g cur s next e) es, visit_edge-load cur s next e)

  -- All the edges out of an item weigh less than the item.
  edges_load-lt : (h n : ℕ) → n ≤ max_degree g.edges → n * edge_load h < power base (g.max_hops - h)
  edges_load-lt h n le = elim (Bool-cases (ltb (h + 1) g.max_hops)) [
    | inl deep ↦
        rw deep (
          power-lt (max_degree g.edges) n (g.max_hops - h) (g.max_hops - (h + 1)) (ground arith) le)
    | inr flat ↦ rw flat (omega (arith, power_pos (max_degree g.edges) (g.max_hops - h)))
  ]

  length-range :
      (order : ℕ → Edges → Edges)
      → ((k : ℕ) (es : Edges) → Permᴰ es (order k es))
      → (k : ℕ) (u : Text) → length (order k (edges_of g u)) ≤ max_degree g.edges
  unfolding edges_of
  length-range order ranges k u =
      omega (arith, length-perm (ranges k (edges_of g u)), length-lookup u g.edges)

  search_loop-ends :
      (order : ℕ → Edges → Edges)
      → ((k : ℕ) (es : Edges) → Permᴰ es (order k es))
      → (k : ℕ) (s : Search) → load s.queue < k
      → (t : Search) × (search_loop f g order k s ≡ some t)
  unfolding search_loop
  search_loop-ends order ranges zero s h = absurd (omega arith)
  search_loop-ends order ranges (suc k) s h = elim (List-cases s.queue) [
    | inl empty ↦ (s, simp (empty, search_loop))
    | inr (cur, rest, q) ↦
        let es = edges_of g cur.addr in
        let s' = visit_edges f g cur (record s { queue = rest }) (order k es) in
        let falls = visit_edges-load cur (record s { queue = rest }) (order k es) in
        let (t, e) = search_loop-ends order ranges k s' (
          omega (
            arith,
            falls,
            ap load q,
            edges_load-lt cur.hops (length (order k es)) (length-range order ranges k cur.addr),
          )) in
        (t, rw (q, search_loop) e)
  ]

start-load :
    (f : FloatOps) (g : GraphPricer) (addr : Text)
    → load f g (start_search addr).queue < enough_fuel g
unfolding start_search start_item enough_fuel
start-load f g addr =
    let zero_hops : g.max_hops - 0 ≡ g.max_hops = omega arith in
    omega (arith, ap (power (base f g)) zero_hops)

-- The search never runs out of the fuel given: `ResolveUSD` returns for every graph and token,
-- in whatever permutation of its entries each map is ranged over.
pub resolve_usd-returns :
    (f : FloatOps) (g : GraphPricer) (order : ℕ → Edges → Edges) (c : EthCommon) (now : ℕ)
    (token : TokenInfo)
    → ((k : ℕ) (es : Edges) → Permᴰ es (order k es))
    → resolve_usd f g order c now token ≢ none
unfolding resolve_usd
resolve_usd-returns f g order c now token ranges =
    let addr = normalize_addr c token.address in
    elim (Bool-cases (eqb addr [])) [
      | inl empty ↦ rw empty (λ h. cc)
      | inr filled ↦ elim (Bool-cases (is_stable g addr)) [
        | inl stable ↦ rw (filled, stable) (λ h. cc)
        | inr other ↦
            let (t, e) =
              search_loop-ends f g order ranges (enough_fuel g) (start_search addr)
                (start-load f g addr) in
            rw (filled, other, e) (λ h. cc)
      ]
    ]
