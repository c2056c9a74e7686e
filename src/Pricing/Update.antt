-- ===== src/Pricing/Update.antt =====
-- What an update of a pair leaves as it was: every edge but the two between its tokens.
use screener_cd.Prelude.{
  ℕ, ◌≡◌, ap, ◌∙◌, false, ◌&&◌, Option, some, arith, if◌then◌else◌, Bool-cases, inl, inr,
}
use screener_cd.Prelude.Dict.{lookup, lookup-insert}
use screener_cd.Text.{Text, eqb, eqb_iff, text_eq}
use screener_cd.Float.{FloatOps, f_one}
use screener_cd.Eth.{EthCommon, normalize_addr}
use screener_cd.Pricing.Graph.{
  TokenInfo, Edge, GraphPricer, edges_of, register_token, merge_edge, set_edge, stored_weight,
  stored_time, is_usable, link, update_pair,
}
use screener_cd.Pricing.Edges.{register_token-edges}

-- g.edges[u][v]
unfoldable pub edge_between : GraphPricer → Text → Text → Option Edge
edge_between g u v = lookup v (edges_of g u)

edge_between-set_edge :
    (f : FloatOps) (a b u v : Text) (price w t : ℕ) (g : GraphPricer)
    → edge_between (set_edge f a b price w t g) u v ≡ (
        if eqb a u && eqb b v
        then some (merge_edge f (edge_between g a b) price w t)
        else edge_between g u v)
unfolding edge_between set_edge edges_of
edge_between-set_edge f a b u v price w t g = elim (Bool-cases (eqb a u)) [
  | inl same ↦
      rw (lookup-insert, same, lookup-insert)
        (ap
          (λ x.
            if eqb b v
            then some (merge_edge f (lookup b (edges_of g a)) price w t)
            else lookup v (edges_of g x))
          ((eqb_iff a u).0 same))
  | inr other ↦ rw (lookup-insert, other)
]

edge_between-register :
    (c : EthCommon) (t : TokenInfo) (g : GraphPricer) (u v : Text)
    → edge_between (register_token c t g) u v ≡ edge_between g u v
unfolding edge_between edges_of
edge_between-register c t g u v = rw (register_token-edges c t g)

-- The graph behind an accepted price, at any pair of tokens.
edge_between-link :
    (f : FloatOps) (a b u v : Text) (price w t : ℕ) (g : GraphPricer)
    → edge_between (link f a b price w t g) u v ≡ (
        if is_usable (f.div f_one price) && (eqb b u && eqb a v)
        then some
            (merge_edge f (edge_between (set_edge f a b price w t g) b a) (f.div f_one price) w t)
        else edge_between (set_edge f a b price w t g) u v)
unfolding link
edge_between-link f a b u v price w t g = elim (Bool-cases (is_usable (f.div f_one price))) [
  | inl e ↦ rw (e, edge_between-set_edge f b a u v)
  | inr e ↦ rw e
]

abbrev pub addr_of : EthCommon → TokenInfo → Text
addr_of c t = normalize_addr c t.address

registered :
    (c : EthCommon) (a b : TokenInfo) (g : GraphPricer) (u v : Text)
    → edge_between (register_token c b (register_token c a g)) u v ≡ edge_between g u v
registered c a b g u v =
    edge_between-register c b (register_token c a g) u v ∙ edge_between-register c a g u v

-- An update changes no edge but the two between its tokens, whether its price is accepted or not.
pub update_pair_frame :
    (f : FloatOps) (c : EthCommon) (now : ℕ) (a b : TokenInfo) (price w t : ℕ) (g : GraphPricer)
    (u v : Text)
    → (eqb (addr_of c a) u && eqb (addr_of c b) v) ≡ false
    → (eqb (addr_of c b) u && eqb (addr_of c a) v) ≡ false
    → edge_between (update_pair f c now a b price w t g) u v ≡ edge_between g u v
unfolding update_pair
update_pair_frame f c now a b price w t g u v h k =
    let A = addr_of c a in
    let B = addr_of c b in
    let g' = register_token c b (register_token c a g) in
    ground (
      arith,
      registered c a b g u v,
      edge_between-link f A B u v price (stored_weight w) (stored_time now t) g',
      edge_between-set_edge f A B u v price (stored_weight w) (stored_time now t) g',
    )
