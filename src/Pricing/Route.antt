-- ===== src/Pricing/Route.antt =====
-- What `ResolveUSD` returns is the price of a real route: a walk over usable edges of the graph
-- that ends in a stable coin within the bound on hops.
use mathlib.Core.List.{Memᴰ}
use mathlib.Core.List.{Permᴰ}
use screener_cd.Prelude.{
  ℕ, zero, suc, ◌+◌, ◌<◌, ◌≤◌, ◌≡◌, refl, true, false, List, [], ◌∷◌, ◌++◌, Option, none, some,
  arith, if◌then◌else◌, if_intro, some_inj, ◌⊎◌, Bool-cases, sym, ap, All, All-append, List-cases,
  inl, inr, ◌≤◌,
}
use mathlib.Core.Path.{subst}
use screener_cd.Prelude.Perm.{All-perm, All-Memᴰ}
use screener_cd.Text.{Text, eqb}
use screener_cd.Eth.{EthCommon, normalize_addr}
use screener_cd.Float.{FloatOps, f_zero, f_one, f_max, f_lt, f_le, is_unusable}
use screener_cd.Pricing.Graph.{TokenInfo, Edge, Edges, GraphPricer, edges_of, is_stable}
use screener_cd.Pricing.Resolve.{
  resolve_usd, outcome, enough_fuel, result_of, improves, is_pruned, Result, QueueItem, Search,
  symbol_path, symbol_unsafe, extend, offer, enqueue, visit_edge, visit_edges, search_loop,
  start_item, start_search,
}

module _ (f : FloatOps) (g : GraphPricer) (start : Text) where
  -- A walk from `start`: where it ends, the tokens on it, the product of the prices, the least
  -- weight and the number of edges.
  pub data Walk : Text → List Text → ℕ → ℕ → ℕ → Type 0 where
    here : Walk start (start ∷ []) f_one f_max 0
    step :
        {u : Text} {p : List Text} {price w h : ℕ} (v : Text) (e : Edge)
        → Walk u p price w h
        → Memᴰ (v, e) (edges_of g u)
        → is_unusable e.price ≡ false
        → is_unusable (f.mul price e.price) ≡ false
        → Walk v
            (p ++ v ∷ [])
            (f.mul price e.price)
            (if f_lt e.weight w then e.weight else w)
            (h + 1)

  -- The result is the walk's: it ends in a stable coin, and the weight is positive.
  pub record IsRouted (r : Result) : Type 0 where
    pub last : Text
    pub path : List Text
    pub hops : ℕ
    pub walk : Walk last path r.price r.weight hops
    pub ends : is_stable g last ≡ true
    pub shown : r.route ≡ symbol_path g path
    pub short : hops ≤ g.max_hops
    pub heavy : f_le r.weight f_zero ≡ false

  abbrev IsWalked : QueueItem → Type 0
  IsWalked item =
      Walk item.addr item.path item.price item.weight item.hops × (item.hops < g.max_hops)

  record Inv (s : Search) : Type 0 where
    queued : All IsWalked s.queue
    routed : s.found ≡ true → IsRouted s.best

  offer-Inv :
      (item : QueueItem) (s : Search)
      → IsRouted (result_of f g item)
      → Inv s
      → Inv (offer f g item s)
  unfolding offer
  offer-Inv item s r h =
      if_intro Inv (improves f g item s) _ _ (λ _. record { queued = h.queued; routed = λ _. r })
        (λ _. h)

  enqueue-Inv :
      (item : QueueItem) (s : Search)
      → Walk item.addr item.path item.price item.weight item.hops
      → Inv s
      → Inv (enqueue f g item s)
  unfolding enqueue
  enqueue-Inv item s w h =
      if_intro Inv (is_pruned f g item s) _ _ (λ _. h)
        λ (kept : is_pruned f g item s ≡ false). record {
          queued = All-append IsWalked s.queue (item ∷ []) h.queued ((w, within kept), tt);
          routed = h.routed;
        }
    where
      within : is_pruned f g item s ≡ false → item.hops < g.max_hops
      within kept = unfold is_pruned in ground arith

  visit_edge-Inv :
      (cur : QueueItem) (s : Search) (next : Text) (e : Edge)
      → IsWalked cur
      → Memᴰ (next, e) (edges_of g cur.addr)
      → Inv s
      → Inv (visit_edge f g cur s next e)
  unfolding visit_edge extend
  visit_edge-Inv cur s next e (w, room) m h =
      let item = extend f cur next e in
      if_intro Inv (is_unusable e.price) _ _ (λ _. h)
        λ good_edge.
          if_intro Inv (is_unusable item.price) _ _ (λ _. h)
            λ good_price.
              if_intro Inv (f_le item.weight f_zero) _ _ (λ _. h)
                λ heavy.
                  let walk = step next e w m good_edge good_price in
                  if_intro Inv (is_stable g next) _ _
                    (λ stable.
                      offer-Inv item s
                        (record {
                          last = next;
                          path = item.path;
                          hops = item.hops;
                          walk = walk;
                          ends = stable;
                          shown = refl;
                          short = omega arith;
                          heavy = heavy;
                        })
                        h)
                    (λ _. enqueue-Inv item s walk h)

  visit_edges-Inv :
      (cur : QueueItem) (s : Search) (es : Edges)
      → IsWalked cur
      → All (λ x. Memᴰ x (edges_of g cur.addr)) es
      → Inv s
      → Inv (visit_edges f g cur s es)
  unfolding visit_edges
  visit_edges-Inv cur s [] w m h = h
  visit_edges-Inv cur s ((next, e) ∷ es) w (m, ms) h =
      visit_edges-Inv cur (visit_edge f g cur s next e) es w ms (visit_edge-Inv cur s next e w m h)

  start-Inv : 0 < g.max_hops → Inv (start_search start)
  unfolding start_search start_item
  start-Inv h = record { queued = ((here, h), tt); routed = λ e. cc }

  module _ (order : ℕ → Edges → Edges)
      (is_range : (k : ℕ) (es : Edges) → Permᴰ es (order k es)) where
    -- One round of the loop, with its range in any order.
    round-Inv :
        (k : ℕ) (s : Search) (cur : QueueItem) (rest : List QueueItem)
        → All IsWalked (cur ∷ rest)
        → Inv s
        → Inv (visit_edges f g cur (record s { queue = rest }) (order k (edges_of g cur.addr)))
    round-Inv k s cur rest (w, ws) h =
        let es = edges_of g cur.addr in
        visit_edges-Inv cur (record s { queue = rest }) (order k es) w
          (All-perm (λ x. Memᴰ x es) (is_range k es) (All-Memᴰ es))
          (record { queued = ws; routed = h.routed })

    search_loop-Inv : (k : ℕ) (s t : Search) → Inv s → search_loop f g order k s ≡ some t → Inv t
    unfolding search_loop
    search_loop-Inv zero s t h e = cc
    search_loop-Inv (suc k) s t h e = elim (List-cases s.queue) [
      | inl empty ↦ subst Inv (some_inj (rw (empty, search_loop) at e)) h
      | inr (cur, rest, q) ↦
          search_loop-Inv k
            (visit_edges f g cur (record s { queue = rest }) (order k (edges_of g cur.addr))) t
            (round-Inv k s cur rest (subst (All IsWalked) q h.queued) h) (rw (q, search_loop) at e)
    ]

-- The answer for a stable coin.
pub record IsAnchored (g : GraphPricer) (addr : Text) (now : ℕ) (r : Result) : Type 0 where
  pub anchor : is_stable g addr ≡ true
  pub price : r.price ≡ f_one
  pub route : r.route ≡ symbol_unsafe g addr ∷ []
  pub weight : r.weight ≡ f_max
  pub updated_at : r.updated_at ≡ now

outcome-found :
    (o : Option Search) (r : Result)
    → outcome o ≡ some (r, true)
    → (t : Search) × (o ≡ some t) × (t.best ≡ r) × (t.found ≡ true)
outcome-found none r h = cc
outcome-found (some t) r h = (t, refl, ap (λ x. x.0) (some_inj h), ap (λ x. x.1) (some_inj h))

-- Where the hop limit is positive and each map is ranged over in a permutation of its entries, the
-- answer for a stable coin is the price 1.0 at the greatest weight, with its own symbol as the route
-- and the time of the call; and the answer for a token that is not one is a route's: the price is
-- the product along a walk of at most `max_hops` usable edges from the token to a stable coin, whose
-- symbols are the route and whose least weight is the weight.
pub resolve_usd-IsRouted :
    (f : FloatOps) (g : GraphPricer) (order : ℕ → Edges → Edges) (c : EthCommon) (now : ℕ)
    (token : TokenInfo) (r : Result)
    → ((k : ℕ) (es : Edges) → Permᴰ es (order k es))
    → 0 < g.max_hops
    → resolve_usd f g order c now token ≡ some (r, true)
    → IsAnchored g (normalize_addr c token.address) now r
      ⊎ (is_stable g (normalize_addr c token.address) ≡ false)
        × IsRouted f g (normalize_addr c token.address) r
unfolding resolve_usd
resolve_usd-IsRouted f g order c now token r ranges pos h =
    let addr = normalize_addr c token.address in
    elim (Bool-cases (eqb addr [])) [
      | inl empty ↦ absurd (cc (rw empty at h))
      | inr filled ↦ elim (Bool-cases (is_stable g addr)) [
        | inl stable ↦
            let same = some_inj (rw (filled, stable) at h) in
            inl (record {
              anchor = stable;
              price = sym (ap (λ x. x.0.price) same);
              route = sym (ap (λ x. x.0.route) same);
              weight = sym (ap (λ x. x.0.weight) same);
              updated_at = sym (ap (λ x. x.0.updated_at) same);
            })
        | inr other ↦
            let (t, e, b, found) = outcome-found _ r (rw (filled, other) at h) in
            let inv =
              search_loop-Inv f g addr order ranges (enough_fuel g) (start_search addr) t
                (start-Inv f g addr pos) e in
            inr (other, subst (IsRouted f g addr) b (inv.routed found))
      ]
    ]
