-- ===== src/Pricing/Stables.antt =====
-- The stable coins that a pricer knows are those that the registry lists.
use screener_cd.Prelude.{
  ◌≡◌, refl, ap, ◌∙◌, Bool, true, false, not, ◌||◌, ◌&&◌, List, [], ◌∷◌, map, some, arith,
  Bool-cases, inl, inr, All,
}
use screener_cd.Prelude.Dict.{lookup, insert, has_key, lookup-insert}
use screener_cd.Text.{Text, eqb, eqb_iff, text_eq, trim_space}
use screener_cd.Eth.{EthCommon, normalize_addr}
use screener_cd.Assets.Token.{TokenInfo as AssetToken, token_type_stable}
use screener_cd.Assets.Provider.{Provider, tokens_by_network, network_names}
use screener_cd.Pricing.Graph.{
  TokenInfo, GraphPricer, new_graph_pricer, register_anchors, register_stable, is_stable,
}
use screener_cd.Pricing.Anchors.{
  Anchors, anchor_of, or_all, add_anchor, add_tokens, add_networks, insert_anchor, sort_anchors,
  anchors_from_provider, or_fallback, new_pricer_from_assets,
}

module _ (e : EthCommon) (a : Text) where
  -- Whether a text is the address of one of the tokens.
  unfoldable pub is_anchor : List TokenInfo → Bool
  is_anchor [] = false
  is_anchor (t ∷ ts) = eqb (normalize_addr e t.address) a || is_anchor ts

  unfoldable pub is_token : List AssetToken → Bool
  is_token [] = false
  is_token (t ∷ ts) = eqb (normalize_addr e t.address) a || is_token ts

  -- Whether it is the address of a stable token of one of the networks.
  unfoldable pub is_listed : Provider → List Text → Bool
  is_listed p [] = false
  is_listed p (raw ∷ rest) =
      (not (eqb (trim_space raw) [])
        && is_token (tokens_by_network p (trim_space raw) token_type_stable))
      || is_listed p rest

  is_stable-register_stable :
      (t : TokenInfo) (g : GraphPricer)
      → eqb a [] ≡ false
      → is_stable (register_stable e t g) a ≡ (eqb (normalize_addr e t.address) a || is_stable g a)
  unfolding register_stable is_stable
  is_stable-register_stable t g h =
      let addr = normalize_addr e t.address in
      ground
        (arith, eqb_iff addr a, eqb_iff addr [], eqb_iff a [], lookup-insert addr a true g.stables)

  is_stable-register_anchors :
      (ts : List TokenInfo) (g : GraphPricer)
      → eqb a [] ≡ false
      → is_stable (register_anchors e ts g) a ≡ (is_anchor ts || is_stable g a)
  unfolding register_anchors is_anchor
  is_stable-register_anchors [] g h = refl
  is_stable-register_anchors (t ∷ ts) g h = ground (
    arith,
    is_stable-register_anchors ts (register_stable e t g) h,
    is_stable-register_stable t g h,
  )

  is_anchor-insert :
      (t : TokenInfo) (ts : List TokenInfo)
      → is_anchor (insert_anchor e t ts) ≡ (eqb (normalize_addr e t.address) a || is_anchor ts)
  unfolding insert_anchor is_anchor
  is_anchor-insert t [] = refl
  is_anchor-insert t (u ∷ us) = ground (arith, is_anchor-insert t us)

  is_anchor-sort : (ts : List TokenInfo) → is_anchor (sort_anchors e ts) ≡ is_anchor ts
  unfolding sort_anchors is_anchor
  is_anchor-sort [] = refl
  is_anchor-sort (t ∷ ts) =
      ground (arith, is_anchor-insert t (sort_anchors e ts), is_anchor-sort ts)

  abbrev values : Anchors → List TokenInfo
  values m = map (λ entry. entry.1) m

  is_anchor-insert_new :
      (addr : Text) (t : TokenInfo) (m : Anchors)
      → has_key addr m ≡ false
      → is_anchor (values (insert addr t m))
        ≡ (eqb (normalize_addr e t.address) a || is_anchor (values m))
  unfolding insert has_key is_anchor
  is_anchor-insert_new addr t [] h = refl
  is_anchor-insert_new addr t ((k, u) ∷ m) h = ground (arith, is_anchor-insert_new addr t m)

  -- Each anchor stands under its own address.
  abbrev Keyed : Anchors → Type 0
  Keyed = All (λ entry. entry.0 ≡ normalize_addr e entry.1.address)

  insert-Keyed :
      (t : TokenInfo) (m : Anchors)
      → has_key (normalize_addr e t.address) m ≡ false
      → Keyed m
      → Keyed (insert (normalize_addr e t.address) t m)
  unfolding insert has_key
  insert-Keyed t [] h ks = (refl, tt)
  insert-Keyed t ((k, u) ∷ m) h (ku, ks) = elim (Bool-cases (eqb k (normalize_addr e t.address))) [
    | inl same ↦ absurd (cc (rw same at h))
    | inr other ↦ rw other (ku, insert-Keyed t m (rw other at h) ks)
  ]

  add_anchor-Keyed : (t : AssetToken) (m : Anchors) → Keyed m → Keyed (add_anchor e t m)
  unfolding add_anchor
  add_anchor-Keyed t m ks =
      let addr = normalize_addr e t.address in
      elim (Bool-cases (eqb addr [] || has_key addr m)) [
        | inl stays ↦ rw stays ks
        | inr new ↦ rw new (insert-Keyed (anchor_of t) m (ground arith) ks)
      ]

  has_key-Keyed : (m : Anchors) → Keyed m → has_key a m ≡ is_anchor (values m)
  unfolding has_key is_anchor
  has_key-Keyed [] ks = refl
  has_key-Keyed ((k, u) ∷ m) (ku, ks) = rw (ku, has_key-Keyed m ks) refl

  is_anchor-add_anchor :
      (t : AssetToken) (m : Anchors)
      → eqb a [] ≡ false
      → Keyed m
      → is_anchor (values (add_anchor e t m))
        ≡ (eqb (normalize_addr e t.address) a || is_anchor (values m))
  unfolding add_anchor
  is_anchor-add_anchor t m h ks =
      let addr = normalize_addr e t.address in
      elim (Bool-cases (eqb addr a)) [
        | inl same ↦
            let path = (eqb_iff addr a).0 same in
            ground (
              arith,
              same,
              ap (λ x. eqb x []) path,
              ap (λ x. has_key x m) path,
              has_key-Keyed m ks,
              is_anchor-insert_new addr (anchor_of t) m,
            )
        | inr other ↦ ground (arith, other, is_anchor-insert_new addr (anchor_of t) m)
      ]

  is_anchor-add_tokens :
      (ts : List AssetToken) (m : Anchors)
      → eqb a [] ≡ false
      → Keyed m
      → (is_anchor (values (add_tokens e ts m)) ≡ (is_token ts || is_anchor (values m)))
        × Keyed (add_tokens e ts m)
  unfolding add_tokens is_token
  is_anchor-add_tokens [] m h ks = (refl, ks)
  is_anchor-add_tokens (t ∷ ts) m h ks =
      let (eq, keyed) = is_anchor-add_tokens ts (add_anchor e t m) h (add_anchor-Keyed t m ks) in
      (ground (arith, eq, is_anchor-add_anchor t m h ks), keyed)

  is_anchor-add_networks :
      (p : Provider) (ns : List Text) (m : Anchors)
      → eqb a [] ≡ false
      → Keyed m
      → is_anchor (values (add_networks e p ns m)) ≡ (is_listed p ns || is_anchor (values m))
  unfolding add_networks is_listed
  is_anchor-add_networks p [] m h ks = refl
  is_anchor-add_networks p (raw ∷ ns) m h ks = elim (Bool-cases (eqb (trim_space raw) [])) [
    | inl blank ↦ rw blank (is_anchor-add_networks p ns m h ks)
    | inr named ↦
        let ts = tokens_by_network p (trim_space raw) token_type_stable in
        let (eq, keyed) = is_anchor-add_tokens ts m h ks in
        rw named (ground (arith, eq, is_anchor-add_networks p ns (add_tokens e ts m) h keyed))
  ]

-- Without a fallback, an address is stable to a pricer that is made from the registry just if it
-- is that of a stable token of a requested network, or of any where none is requested.
pub new_pricer_from_assets-is_stable :
    (e : EthCommon) (p : Provider) (networks : List Text) (a : Text)
    → eqb a [] ≡ false
    → is_stable (new_pricer_from_assets e (some p) networks []) a
      ≡ is_listed e a p (or_all networks (network_names p))
unfolding new_pricer_from_assets anchors_from_provider is_anchor new_graph_pricer is_stable lookup
new_pricer_from_assets-is_stable e p networks a h =
    let requested = or_all networks (network_names p) in
    let found = values e a (add_networks e p requested []) in
    ap (λ l. is_stable (register_anchors e l new_graph_pricer) a)
      (no_fallback (sort_anchors e found))
    ∙ is_stable-register_anchors e a (sort_anchors e found) new_graph_pricer h
    ∙ ground (arith, is_anchor-sort e a found, is_anchor-add_networks e a p requested [] h tt)
  where
    no_fallback : (l : List TokenInfo) → or_fallback e l [] ≡ l
    no_fallback [] = refl
    no_fallback (t ∷ ts) = refl
