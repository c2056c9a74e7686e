-- ===== src/Pricing/Anchors.antt =====
-- internal/dex/pricing/graph_pricer.go: the stable coins of the token registry as the anchors of a
-- pricer. `range` over the map of anchors is followed by a sort, so its order does not matter.
use screener_cd.Prelude.{Bool, ◌||◌, List, [], ◌∷◌, map, Option, none, some, if◌then◌else◌}
use screener_cd.Prelude.Dict.{insert, has_key}
use screener_cd.Text.{Text, eqb, ltb_text, text_eq, trim_space}
use screener_cd.Eth.{EthCommon, normalize_addr}
use screener_cd.Assets.Token.{TokenInfo as AssetToken, token_type_stable}
use screener_cd.Assets.Provider.{Provider, tokens_by_network, network_names}
use screener_cd.Pricing.Graph.{TokenInfo, GraphPricer, new_graph_pricer, register_anchors}

abbrev pub Anchors : Type 0
Anchors = List (Text × TokenInfo)

-- The anchor that a token of the registry becomes.
abbrev pub anchor_of : AssetToken → TokenInfo
anchor_of t = record { address = t.address; symbol = t.symbol; decimals = t.decimals }

abbrev pub or_all : List Text → List Text → List Text
or_all [] all = all
or_all (n ∷ ns) all = n ∷ ns

module _ (e : EthCommon) where
  -- The body of the loop over the tokens of a network.
  unfoldable pub add_anchor : AssetToken → Anchors → Anchors
  add_anchor t m =
      let addr = normalize_addr e t.address in
      if eqb addr [] || has_key addr m then m else insert addr (anchor_of t) m

  unfoldable pub add_tokens : List AssetToken → Anchors → Anchors
  add_tokens [] m = m
  add_tokens (t ∷ ts) m = add_tokens ts (add_anchor t m)

  unfoldable pub add_networks : Provider → List Text → Anchors → Anchors
  add_networks p [] m = m
  add_networks p (raw ∷ rest) m =
      let network = trim_space raw in
      let m1 =
        if eqb network []
        then m
        else add_tokens (tokens_by_network p network token_type_stable) m in
      add_networks p rest m1

  -- The order of sort.Slice: by the symbol, then by the address.
  unfoldable pub comes_before : TokenInfo → TokenInfo → Bool
  comes_before a b =
      if eqb a.symbol b.symbol
      then ltb_text (normalize_addr e a.address) (normalize_addr e b.address)
      else ltb_text a.symbol b.symbol

  unfoldable pub insert_anchor : TokenInfo → List TokenInfo → List TokenInfo
  insert_anchor a [] = a ∷ []
  insert_anchor a (b ∷ bs) = if comes_before b a then b ∷ insert_anchor a bs else a ∷ (b ∷ bs)

  unfoldable pub sort_anchors : List TokenInfo → List TokenInfo
  sort_anchors [] = []
  sort_anchors (a ∷ bs) = insert_anchor a (sort_anchors bs)

  unfoldable pub anchors_from_provider : Option Provider → List Text → List TokenInfo
  anchors_from_provider none networks = []
  anchors_from_provider (some p) networks =
      sort_anchors (map (λ entry. entry.1) (add_networks p (or_all networks (network_names p)) []))

  abbrev pub or_fallback : List TokenInfo → List TokenInfo → List TokenInfo
  or_fallback [] fallback = fallback
  or_fallback (a ∷ bs) fallback = a ∷ bs

  unfoldable pub new_pricer_from_assets : Option Provider → List Text → List TokenInfo → GraphPricer
  new_pricer_from_assets p networks fallback =
      register_anchors e (or_fallback (anchors_from_provider p networks) fallback) new_graph_pricer
