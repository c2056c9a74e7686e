-- ===== src/Uniswap/Exclusive.antt =====
-- What a token registry is sure to hold, whatever the provider lists.
use screener_cd.Prelude.{
  ℕ, ◌≡◌, ◌≢◌, refl, Bool, true, false, ◌||◌, ◌&&◌, List, [], ◌∷◌, Option, none, some, arith,
  Bool-cases, Option-cases, inl, inr, if_intro, some_inj,
}
use mathlib.Core.Path.{subst}
use screener_cd.Prelude.Int.{ℤ, pos}
use screener_cd.Prelude.Dict.{lookup, insert, lookup-insert, lookup-insert_self}
use screener_cd.Text.{Text, eqb, eqb_iff, equal_fold, to_lower, text_eq, trim_space}
use screener_cd.Eth.{EthCommon, IsLawful, lower_hex}
use screener_cd.Assets.Token.{TokenInfo, token_type_stable, token_type_native}
use screener_cd.Assets.Provider.{Provider, tokens_by_network, network_names}
use screener_cd.Uniswap.Meta.{TokenMeta}
use screener_cd.Uniswap.Registry.{
  TokenRegistry, empty_registry, weth, is_empty_map, weth_meta, stable_meta, add_stable,
  native_meta, add_native, add_stables, add_natives, add_network_tokens, add_networks,
  from_provider, add_default_stables, with_stables, default_weth, with_weth, new_token_registry,
  resolve_symbol, resolve,
}

-- A token is not both stable and WETH.
abbrev pub IsExclusive : TokenMeta → Type 0
IsExclusive t = (t.is_stable && t.is_weth) ≡ false

abbrev Entries : (Text → TokenMeta → Type 0) → List (Text × TokenMeta) → Type 0
Entries P m = (k : Text) (t : TokenMeta) → lookup k m ≡ some t → P k t

pub record IsRegistry (r : TokenRegistry) : Type 0 where
  pub exclusive : Entries (λ k t. IsExclusive t) r.by_address
  pub stables : Entries (λ k t. (t.is_stable ≡ true) × (t.is_weth ≡ false)) r.stable_by_symbol
  pub natives : Entries (λ k t. t.is_stable ≡ false) r.native_by_symbol
  pub known_weth : r.weth_addr ≢ [] → lookup r.weth_addr r.by_address ≢ none

Entries-insert :
    (P : Text → TokenMeta → Type 0) (k : Text) (t : TokenMeta) (m : List (Text × TokenMeta))
    → P k t
    → Entries P m
    → Entries P (insert k t m)
Entries-insert P k t m p h j u e = elim (Bool-cases (eqb k j)) [
  | inl same ↦
      let key = (eqb_iff k j).0 same in
      let value = some_inj (rw (lookup-insert k j t m, same) at e) in
      subst (λ i. P i u) key (subst (P k) value p)
  | inr other ↦ h j u (rw (lookup-insert k j t m, other) at e)
]

insert_known :
    (k j : Text) (t : TokenMeta) (m : List (Text × TokenMeta))
    → lookup j m ≢ none
    → lookup j (insert k t m) ≢ none
insert_known k j t m h = ground (arith, lookup-insert k j t m)

insert_filled :
    (k : Text) (t : TokenMeta) (m : List (Text × TokenMeta)) → is_empty_map (insert k t m) ≡ false
unfolding insert
insert_filled k t [] = refl
insert_filled k t ((j, u) ∷ m) = ground arith

module _ (e : EthCommon) where
  add_stable-IsRegistry :
      (symbol : Text) (addr : ℕ) (decimals : ℤ) (r : TokenRegistry)
      → IsRegistry r
      → IsRegistry (add_stable e symbol addr decimals r)
  unfolding add_stable
  add_stable-IsRegistry symbol addr decimals r h =
      let meta = stable_meta e symbol addr decimals in
      record {
        exclusive =
            Entries-insert (λ k t. IsExclusive t) (lower_hex e addr) meta r.by_address refl
              h.exclusive;
        stables = Entries-insert _ meta.symbol meta r.stable_by_symbol (refl, refl) h.stables;
        natives = h.natives;
        known_weth =
            λ ne. insert_known (lower_hex e addr) r.weth_addr meta r.by_address (h.known_weth ne);
      }

  add_native-IsRegistry :
      (symbol : Text) (addr : ℕ) (decimals : ℤ) (marked : Bool) (r : TokenRegistry)
      → IsRegistry r
      → IsRegistry (add_native e symbol addr decimals marked r)
  unfolding add_native
  add_native-IsRegistry symbol addr decimals marked r h =
      let meta = native_meta e symbol addr decimals marked in
      let k = lower_hex e addr in
      record {
        exclusive = Entries-insert (λ k t. IsExclusive t) k meta r.by_address refl h.exclusive;
        stables = h.stables;
        natives = Entries-insert _ meta.symbol meta r.native_by_symbol refl h.natives;
        known_weth =
            if_intro (λ a. a ≢ [] → lookup a (insert k meta r.by_address) ≢ none) meta.is_weth k
              r.weth_addr (λ is ne none_there. cc (lookup-insert_self k meta r.by_address))
              (λ no ne. insert_known k r.weth_addr meta r.by_address (h.known_weth ne));
      }

  add_stables-IsRegistry :
      (ts : List TokenInfo) (r : TokenRegistry) → IsRegistry r → IsRegistry (add_stables e ts r)
  unfolding add_stables
  add_stables-IsRegistry [] r h = h
  add_stables-IsRegistry (t ∷ ts) r h =
      add_stables-IsRegistry ts _ (add_stable-IsRegistry t.symbol t.address (pos t.decimals) r h)

  add_natives-IsRegistry :
      (ts : List TokenInfo) (r : TokenRegistry) → IsRegistry r → IsRegistry (add_natives e ts r)
  unfolding add_natives
  add_natives-IsRegistry [] r h = h
  add_natives-IsRegistry (t ∷ ts) r h = add_natives-IsRegistry ts _ (
      add_native-IsRegistry t.symbol t.address (pos t.decimals)
        (t.wrapped || equal_fold t.symbol weth) r h)

  add_network_tokens-IsRegistry :
      (p : Provider) (net : Text) (r : TokenRegistry)
      → IsRegistry r
      → IsRegistry (add_network_tokens e p net r)
  unfolding add_network_tokens
  add_network_tokens-IsRegistry p net r h =
      if_intro IsRegistry _ _ _ (λ _. h)
        (λ _.
          add_natives-IsRegistry (tokens_by_network p net token_type_native) _
            (add_stables-IsRegistry (tokens_by_network p net token_type_stable) r h))

  add_networks-IsRegistry :
      (p : Provider) (nets : List Text) (r : TokenRegistry)
      → IsRegistry r
      → IsRegistry (add_networks e p nets r)
  unfolding add_networks
  add_networks-IsRegistry p [] r h = h
  add_networks-IsRegistry p (net ∷ nets) r h =
      let h1 = add_network_tokens-IsRegistry p net r h in
      if_intro IsRegistry _ _ _ (λ _. h1) (λ _. add_networks-IsRegistry p nets _ h1)

  from_provider-IsRegistry :
      (provider : Option Provider) (network : Text) (r : TokenRegistry)
      → IsRegistry r
      → IsRegistry (from_provider e provider network r)
  unfolding from_provider
  from_provider-IsRegistry none network r h = h
  from_provider-IsRegistry (some p) network r h =
      if_intro IsRegistry _ _ _ (λ _. add_networks-IsRegistry p (network_names p) r h)
        (λ _. add_network_tokens-IsRegistry p (trim_space network) r h)

  add_default_stables-IsRegistry :
      (r : TokenRegistry)
      → IsRegistry r
      → IsRegistry (add_default_stables e r)
        × (is_empty_map (add_default_stables e r).stable_by_symbol ≡ false)
  unfolding add_default_stables add_stable
  add_default_stables-IsRegistry r h = (
    add_stable-IsRegistry _ _ _ _ (
        add_stable-IsRegistry _ _ _ _ (
          add_stable-IsRegistry _ _ _ _
            (add_stable-IsRegistry _ _ _ _ (add_stable-IsRegistry _ _ _ r h)))),
    insert_filled _ _ _,
  )

  with_stables-IsRegistry :
      (provider : Option Provider) (network : Text)
      → IsRegistry (with_stables e provider network)
        × (is_empty_map (with_stables e provider network).stable_by_symbol ≡ false)
  unfolding with_stables lookup empty_registry
  with_stables-IsRegistry provider network =
      let r1 = from_provider e provider network empty_registry in
      let h1 = from_provider-IsRegistry provider network empty_registry (record {
        exclusive = λ k t q. absurd cc;
        stables = λ k t q. absurd cc;
        natives = λ k t q. absurd cc;
        known_weth = λ ne. absurd (ne refl);
      }) in
      if_intro (λ r. IsRegistry r × (is_empty_map r.stable_by_symbol ≡ false)) _ _ r1
        (λ _. add_default_stables-IsRegistry r1 h1) (λ filled. (h1, filled))

  with_weth-IsRegistry : (r : TokenRegistry) → IsRegistry r → IsRegistry (with_weth e r)
  unfolding with_weth
  with_weth-IsRegistry r h =
      if_intro IsRegistry (eqb r.weth_addr []) _ r
        (λ _. add_native-IsRegistry weth (default_weth e) (pos 18) true r h) (λ _. h)

  pub new_token_registry-IsRegistry :
      (provider : Option Provider) (network : Text)
      → IsRegistry (new_token_registry e provider network)
  unfolding new_token_registry
  new_token_registry-IsRegistry provider network =
      with_weth-IsRegistry (with_stables e provider network)
        (with_stables-IsRegistry provider network).0

  -- A token that a registry resolves is not both stable and WETH.
  resolve_symbol-IsExclusive :
      (r : TokenRegistry) (addr : ℕ) (symbol : Text) (decimals : ℤ)
      → IsExclusive (resolve_symbol e r addr symbol decimals)
  unfolding resolve_symbol
  resolve_symbol-IsExclusive r addr symbol decimals =
      elim (Option-cases (lookup symbol r.stable_by_symbol)) [
        | inr (s, found) ↦ rw found refl
        | inl missing ↦ elim (Option-cases (lookup symbol r.native_by_symbol)) [
          | inr (n, found) ↦ rw (missing, found) refl
          | inl none_there ↦ rw (missing, none_there) refl
        ]
      ]

  pub resolve-IsExclusive :
      (r : TokenRegistry) (addr : ℕ) (raw : Text) (decimals : ℤ)
      → IsRegistry r
      → IsExclusive (resolve e r addr raw decimals)
  unfolding resolve
  resolve-IsExclusive r addr raw decimals h =
      elim (Option-cases (lookup (lower_hex e addr) r.by_address)) [
        | inr (t, found) ↦ rw found (h.exclusive (lower_hex e addr) t found)
        | inl missing ↦ rw missing (resolve_symbol-IsExclusive r addr _ decimals)
      ]

with_weth-stables :
    (e : EthCommon) (r : TokenRegistry)
    → is_empty_map r.stable_by_symbol ≡ false
    → is_empty_map (with_weth e r).stable_by_symbol ≡ false
unfolding with_weth add_native
with_weth-stables e r h = ground arith

with_weth-named :
    (e : EthCommon) (r : TokenRegistry) → IsLawful e → eqb (with_weth e r).weth_addr [] ≡ false
unfolding with_weth add_native native_meta lower_hex
with_weth-named e r law =
    let written = law.hex-ne-nil (default_weth e) in
    ground (arith, eqb_iff (to_lower (e.hex (default_weth e))) [])

-- Whatever the provider lists and whichever network is asked for, the registry has a stable coin
-- and knows WETH, if no address is written as nothing.
pub new_token_registry-known :
    (e : EthCommon) (provider : Option Provider) (network : Text)
    → IsLawful e
    → (is_empty_map (new_token_registry e provider network).stable_by_symbol ≡ false)
      × (weth_meta (new_token_registry e provider network) ≢ none)
unfolding new_token_registry weth_meta
new_token_registry-known e provider network law =
    let r = with_stables e provider network in
    let (h, filled) = with_stables-IsRegistry e provider network in
    let named = with_weth-named e r law in
    (
      with_weth-stables e r filled,
      rw named (
          (with_weth-IsRegistry e r h).known_weth
            (λ nil. ground (arith, eqb_iff (with_weth e r).weth_addr []))),
    )
