-- ===== src/Pricing/Edges.antt =====
-- What the updates leave in the graph: usable prices, positive weights, and all the edges that an
-- update is not about.
use mathlib.Core.Path.{subst, subst⁻¹}
use screener_cd.Prelude.{
  some_inj, Option-cases, ◌∙◌, ℕ, ◌≡◌, refl, true, false, ◌||◌, List, [], ◌∷◌, Option, none, some,
  arith, if_intro, All, Bool-cases, inl, inr,
}
use screener_cd.Prelude.Dict.{lookup, insert}
use screener_cd.Text.{Text, eqb, text_eq}
use screener_cd.Float.{FloatOps, f_one, f_nano, f_lt, is_unusable}
use screener_cd.Eth.{EthCommon, normalize_addr}
use screener_cd.Pricing.Graph.{
  TokenInfo, Edge, Edges, GraphPricer, edges_of, register_token, register_stable, register_anchors,
  new_pricer, new_graph_pricer, merge_edge, is_usable, Op, add_token, add_stable, add_price, apply,
  run, keeps_edge, set_edge, stored_weight, stored_time, link, update_pair,
}

-- A price that `ResolveUSD` does not skip, and a positive, finite weight.
pub record IsGoodEdge (e : Edge) : Type 0 where
  pub good_price : is_unusable e.price ≡ false
  pub good_weight : is_unusable e.weight ≡ false

abbrev AllEdges : Edges → Type 0
AllEdges = All (λ x. IsGoodEdge x.1)

-- Every edge of the graph is good.
abbrev pub IsSound : GraphPricer → Type 0
IsSound g = All (λ x. AllEdges x.1) g.edges

module _ {V : Type 0} (P : V → Type 0) where
  All-insert :
      (k : Text) (v : V) (m : List (Text × V))
      → P v
      → All (λ x. P x.1) m
      → All (λ x. P x.1) (insert k v m)
  unfolding insert
  All-insert k v [] hv h = (hv, tt)
  All-insert k v ((j, w) ∷ m) hv (hw, h) =
      if_intro (All (λ (x : Text × V). P x.1)) (eqb j k) _ _ (λ _. (hv, h))
        (λ _. (hw, All-insert k v m hv h))

  lookup-holds :
      (k : Text) (m : List (Text × V)) (v : V) → All (λ x. P x.1) m → lookup k m ≡ some v → P v
  unfolding lookup
  lookup-holds k [] v h e = cc
  lookup-holds k ((j, w) ∷ m) v (hw, h) e = elim (Bool-cases (eqb j k)) [
    | inl same ↦ subst P (some_inj (rw same at e)) hw
    | inr other ↦ lookup-holds k m v h (rw other at e)
  ]

edges_of-AllEdges : (g : GraphPricer) (u : Text) → IsSound g → AllEdges (edges_of g u)
unfolding edges_of
edges_of-AllEdges g u h = elim (Option-cases (lookup u g.edges)) [
  | inl e ↦ rw e tt
  | inr (es, e) ↦ rw e (lookup-holds AllEdges u g.edges es h e)
]

module _ (f : FloatOps) where
  merge_edge-IsGoodEdge :
      (o : Option Edge) (price w t : ℕ)
      → ((cur : Edge) → o ≡ some cur → IsGoodEdge cur)
      → is_unusable price ≡ false
      → is_unusable w ≡ false
      → IsGoodEdge (merge_edge f o price w t)
  unfolding merge_edge
  merge_edge-IsGoodEdge none price w t old hp hw = (record { good_price = hp; good_weight = hw })
  merge_edge-IsGoodEdge (some cur) price w t old hp hw =
      if_intro IsGoodEdge (keeps_edge f cur w t) _ _ (λ _. old cur refl)
        (λ _. record { good_price = hp; good_weight = hw })

  set_edge-IsSound :
      (a b : Text) (price w t : ℕ) (g : GraphPricer)
      → is_unusable price ≡ false
      → is_unusable w ≡ false
      → IsSound g
      → IsSound (set_edge f a b price w t g)
  unfolding set_edge
  set_edge-IsSound a b price w t g hp hw h =
      let es = edges_of g a in
      let good = edges_of-AllEdges g a h in
      All-insert AllEdges a (insert b (merge_edge f (lookup b es) price w t) es) g.edges
        (All-insert IsGoodEdge b (merge_edge f (lookup b es) price w t) es
          (merge_edge-IsGoodEdge (lookup b es) price w t
            (λ cur e. lookup-holds IsGoodEdge b es cur good e) hp hw)
          good)
        h

f_nano_usable : is_unusable f_nano ≡ false
unfolding is_unusable
f_nano_usable = refl

stored_weight_usable : (w : ℕ) → is_unusable (stored_weight w) ≡ false
unfolding stored_weight
stored_weight_usable w =
    if_intro (λ (x : ℕ). is_unusable x ≡ false) (is_unusable w) _ _ (λ _. f_nano_usable) (λ e. e)

is_usable-is_unusable : (x : ℕ) → is_usable x ≡ true → is_unusable x ≡ false
unfolding is_usable is_unusable f_lt
is_usable-is_unusable x h = ground arith

module _ (c : EthCommon) where
  -- A registration leaves the edges and the bound alone.
  pub register_token-edges :
      (t : TokenInfo) (g : GraphPricer) → (register_token c t g).edges ≡ g.edges
  unfolding register_token
  register_token-edges t g = ground arith

  register_stable-edges :
      (t : TokenInfo) (g : GraphPricer) → (register_stable c t g).edges ≡ g.edges
  unfolding register_stable
  register_stable-edges t g = ground arith

  register_anchors-edges :
      (ts : List TokenInfo) (g : GraphPricer) → (register_anchors c ts g).edges ≡ g.edges
  unfolding register_anchors
  register_anchors-edges [] g = refl
  register_anchors-edges (t ∷ ts) g =
      register_anchors-edges ts (register_stable c t g) ∙ register_stable-edges t g

abbrev GoodEdges : List (Text × Edges) → Type 0
GoodEdges = All (λ x. AllEdges x.1)

module _ (f : FloatOps) (c : EthCommon) where
  link-IsSound :
      (a b : Text) (price w t : ℕ) (g : GraphPricer)
      → is_unusable price ≡ false
      → is_unusable w ≡ false
      → IsSound g
      → IsSound (link f a b price w t g)
  unfolding link
  link-IsSound a b price w t g hp hw h =
      let h1 = set_edge-IsSound f a b price w t g hp hw h in
      if_intro IsSound (is_usable (f.div f_one price)) _ _
        (λ u. set_edge-IsSound f b a (f.div f_one price) w t _ (is_usable-is_unusable _ u) hw h1)
        (λ _. h1)

  update_pair-IsSound :
      (now : ℕ) (a b : TokenInfo) (price w t : ℕ) (g : GraphPricer)
      → IsSound g
      → IsSound (update_pair f c now a b price w t g)
  unfolding update_pair
  update_pair-IsSound now a b price w t g h =
      let A = normalize_addr c a.address in
      let B = normalize_addr c b.address in
      if_intro IsSound (is_unusable price) _ _ (λ _. h)
        λ hp.
          if_intro IsSound (eqb A [] || eqb B []) _ _ (λ _. h)
            λ _.
              link-IsSound A B price (stored_weight w) (stored_time now t) _ hp
                (stored_weight_usable w)
                (subst⁻¹ GoodEdges
                  (register_token-edges c b (register_token c a g) ∙ register_token-edges c a g) h)

  pub apply-IsSound : (op : Op) (g : GraphPricer) → IsSound g → IsSound (apply f c op g)
  unfolding apply
  apply-IsSound (add_token t) g h = subst⁻¹ GoodEdges (register_token-edges c t g) h
  apply-IsSound (add_stable t) g h = subst⁻¹ GoodEdges (register_stable-edges c t g) h
  apply-IsSound (add_price now a b price w ts) g h = update_pair-IsSound now a b price w ts g h

  run_from-IsSound : (ops : List Op) (g : GraphPricer) → IsSound g → IsSound (run f c ops g)
  unfolding run
  run_from-IsSound [] g h = h
  run_from-IsSound (op ∷ ops) g h = run_from-IsSound ops (apply f c op g) (apply-IsSound op g h)

-- Whatever operations a pricer has seen, every edge of its graph has a positive, finite price and
-- a positive, finite weight.
pub run-IsSound :
    (f : FloatOps) (c : EthCommon) (stables : List TokenInfo) (ops : List Op)
    → IsSound (run f c ops (new_pricer c stables))
unfolding new_pricer new_graph_pricer
run-IsSound f c stables ops =
    run_from-IsSound f c ops (new_pricer c stables)
      (subst⁻¹ GoodEdges (register_anchors-edges c stables new_graph_pricer) tt)
