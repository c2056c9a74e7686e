-- ===== src/Assets/Index.antt =====
-- The indexes of a provider agree: what a lookup finds has the key that was asked for, and for every
-- token that is listed for a chain both of its keys are there.
use mathlib.Core.Path.{subst}
use screener_cd.Prelude.{
  ℕ, ◌≡◌, ap, ◌∙◌, ◌&&◌, ◌||◌, List, [], ◌∷◌, ◌++◌, Option, some, arith, ◌==◌ as eq_ℕ,
  if◌then◌else◌, if_intro, All, All-append, All-implies, Bool-cases, inl, inr, ==_iff,
}
use screener_cd.Prelude.Dict.{lookup, lookup-insert, nat_eq, beq_self}
use screener_cd.Text.{Text, to_upper, trim_space, eqb, eqb_iff, text_eq}
use screener_cd.Eth.{EthCommon, IsLawful, lower_hex}
use screener_cd.Assets.Token.{TokenType, TokenInfo, canonical_symbol}
use screener_cd.Assets.Loader.{NetworkCatalog}
use screener_cd.Assets.Provider.{
  ByKey, Provider, map_or_empty, tokens_or_nil, put, ensure, index_token, index_each, make_chain,
  index_tokens, add_catalog, add_catalogs, new_provider, empty_provider, tokens_by_chain,
  find_by_symbol, find_by_address, has_no_tokens,
}

-- m[c][k]
abbrev get : {V : Type 0} → ℕ → Text → ByKey V → Option V
get c k m = lookup k (map_or_empty (lookup c m))

get-put :
    {V : Type 0} (c d : ℕ) (k j : Text) (v : V) (m : ByKey V)
    → get d j (put c k v m) ≡ (if eq_ℕ c d && eqb k j then some v else get d j m)
unfolding put
get-put c d k j v m = elim (Bool-cases (eq_ℕ c d)) [
  | inl same ↦
      rw (lookup-insert, same, lookup-insert)
        (ap (λ x. if eqb k j then some v else lookup j (map_or_empty (lookup x m)))
          ((==_iff c d).0 same))
  | inr other ↦ rw (lookup-insert, other)
]

get-ensure : {V : Type 0} (c d : ℕ) (j : Text) (m : ByKey V) → get d j (ensure c m) ≡ get d j m
unfolding ensure
get-ensure c d j m = elim (Bool-cases (eq_ℕ c d)) [
  | inl same ↦
      rw (lookup-insert, same)
        (ap (λ x. lookup j (map_or_empty (lookup x m))) ((==_iff c d).0 same))
  | inr other ↦ rw (lookup-insert, other)
]

module _ (e : EthCommon) where
  -- A token's two keys are in the indexes of a chain.
  abbrev IsFound : Provider → ℕ → TokenInfo → Type 0
  IsFound p c t =
      ((u : TokenInfo) × (get c (canonical_symbol t) p.by_chain_symbol ≡ some u))
      × ((u : TokenInfo) × (get c (lower_hex e t.address) p.by_chain_addr ≡ some u))

  abbrev listed : Provider → ℕ → TokenType → List TokenInfo
  listed p c typ = tokens_or_nil (get c typ p.by_chain_tokens)

  record IsIndexed (p : Provider) : Type 0 where
    symbols :
        (c : ℕ) (k : Text) (t : TokenInfo)
        → get c k p.by_chain_symbol ≡ some t
        → canonical_symbol t ≡ k
    addresses :
        (c : ℕ) (k : Text) (t : TokenInfo)
        → get c k p.by_chain_addr ≡ some t
        → lower_hex e t.address ≡ k
    found : (c : ℕ) (typ : TokenType) → All (IsFound p c) (listed p c typ)

  -- An entry of `put` is the new value under the new key, or an old entry.
  put-entry :
      {V : Type 0} (key_of : V → Text) (c d : ℕ) (j : Text) (v t : V) (m : ByKey V)
      → (get d j m ≡ some t → key_of t ≡ j)
      → get d j (put c (key_of v) v m) ≡ some t
      → key_of t ≡ j
  put-entry key_of c d j v t m old h =
      ground (arith, get-put c d (key_of v) j v m, eqb_iff (key_of v) j)

  put-present :
      {V : Type 0} (c d : ℕ) (k j : Text) (v : V) (m : ByKey V)
      → ((u : V) × (get d j m ≡ some u))
      → (u : V) × (get d j (put c k v m) ≡ some u)
  put-present c d k j v m (u, h) = elim (Bool-cases (eq_ℕ c d && eqb k j)) [
    | inl b ↦ (v, rw (get-put c d k j v m, b))
    | inr b ↦ (u, rw (get-put c d k j v m, b) h)
  ]

  index_token-IsFound :
      (c d : ℕ) (typ : TokenType) (v t : TokenInfo) (p : Provider)
      → IsFound p d t
      → IsFound (index_token e c typ v p) d t
  unfolding index_token
  index_token-IsFound c d typ v t p (s, a) = (
    put-present c d (canonical_symbol v) (canonical_symbol t) v p.by_chain_symbol s,
    put-present c d (lower_hex e v.address) (lower_hex e t.address) v p.by_chain_addr a,
  )

  index_token-finds :
      (c : ℕ) (typ : TokenType) (v : TokenInfo) (p : Provider)
      → IsFound (index_token e c typ v p) c v
  unfolding index_token
  index_token-finds c typ v p = (
    (
      v,
      rw (
        get-put c c (canonical_symbol v) (canonical_symbol v) v p.by_chain_symbol,
        beq_self c,
        beq_self (canonical_symbol v),
      ),
    ),
    (
      v,
      rw (
        get-put c c (lower_hex e v.address) (lower_hex e v.address) v p.by_chain_addr,
        beq_self c,
        beq_self (lower_hex e v.address),
      ),
    ),
  )

  listed-index_token :
      (c d : ℕ) (typ ty : TokenType) (v : TokenInfo) (p : Provider)
      → listed (index_token e c typ v p) d ty
        ≡ (if eq_ℕ c d && eqb typ ty then listed p d ty ++ v ∷ [] else listed p d ty)
  unfolding index_token
  listed-index_token c d typ ty v p = elim (Bool-cases (eq_ℕ c d && eqb typ ty)) [
    | inl b ↦
        let same_chain : c ≡ d = ground arith in
        let same_type : typ ≡ ty = ground (arith, eqb_iff typ ty) in
        rw (get-put c d typ ty (listed p c typ ++ v ∷ []) p.by_chain_tokens, b)
          (λ i. listed p (same_chain i) (same_type i) ++ v ∷ [])
    | inr b ↦ rw (get-put c d typ ty (listed p c typ ++ v ∷ []) p.by_chain_tokens, b)
  ]

  index_token-All-IsFound :
      (c : ℕ) (typ : TokenType) (v : TokenInfo) (p : Provider) (d : ℕ) (ty : TokenType)
      → All (IsFound p d) (listed p d ty)
      → All (IsFound (index_token e c typ v p) d) (listed (index_token e c typ v p) d ty)
  index_token-All-IsFound c typ v p d ty h =
      let p' = index_token e c typ v p in
      let old =
        All-implies (IsFound p d) (IsFound p' d) (listed p d ty)
          (λ t. index_token-IsFound c d typ v t p) h in
      elim (Bool-cases (eq_ℕ c d && eqb typ ty)) [
        | inl b ↦
            let same_chain : c ≡ d = ground arith in
            rw (listed-index_token c d typ ty v p, b)
              (All-append (IsFound p' d) (listed p d ty) (v ∷ []) old
                (subst (λ x. IsFound p' x v) same_chain (index_token-finds c typ v p), tt))
        | inr b ↦ rw (listed-index_token c d typ ty v p, b) old
      ]

  index_token-IsIndexed :
      (c : ℕ) (typ : TokenType) (v : TokenInfo) (p : Provider)
      → IsIndexed p
      → IsIndexed (index_token e c typ v p)
  index_token-IsIndexed c typ v p h = record {
    symbols = λ d k t.
        unfold index_token in
        put-entry canonical_symbol c d k v t p.by_chain_symbol (h.symbols d k t);
    addresses = λ d k t.
        unfold index_token in
        put-entry (λ u. lower_hex e u.address) c d k v t p.by_chain_addr (h.addresses d k t);
    found = λ d ty. index_token-All-IsFound c typ v p d ty (h.found d ty);
  }

  index_each-IsIndexed :
      (c : ℕ) (typ : TokenType) (ts : List TokenInfo) (p : Provider)
      → IsIndexed p
      → IsIndexed (index_each e c typ ts p)
  unfolding index_each
  index_each-IsIndexed c typ [] p h = h
  index_each-IsIndexed c typ (t ∷ ts) p h =
      index_each-IsIndexed c typ ts (index_token e c typ t p) (index_token-IsIndexed c typ t p h)

  make_chain-IsIndexed : (c : ℕ) (p : Provider) → IsIndexed p → IsIndexed (make_chain e c p)
  unfolding make_chain
  make_chain-IsIndexed c p h = record {
    symbols = λ d k t. rw (get-ensure c d k p.by_chain_symbol) (h.symbols d k t);
    addresses = λ d k t. rw (get-ensure c d k p.by_chain_addr) (h.addresses d k t);
    found = λ d ty. rw (get-ensure c d ty p.by_chain_tokens) (
        All-implies (IsFound p d) (IsFound (make_chain e c p) d) (listed p d ty)
          (λ t f. (
            (f.0.0, get-ensure c d (canonical_symbol t) p.by_chain_symbol ∙ f.0.1),
            (f.1.0, get-ensure c d (lower_hex e t.address) p.by_chain_addr ∙ f.1.1),
          ))
          (h.found d ty));
  }

  index_tokens-IsIndexed :
      (c : ℕ) (ts : List TokenInfo) (typ : TokenType) (p : Provider)
      → IsIndexed p
      → IsIndexed (index_tokens e c ts typ p)
  unfolding index_tokens
  index_tokens-IsIndexed c ts typ p h =
      if_intro IsIndexed (eq_ℕ c 0 || has_no_tokens ts) _ _ (λ _. h)
        (λ _. index_each-IsIndexed c typ ts (make_chain e c p) (make_chain-IsIndexed c p h))

  add_catalog-IsIndexed :
      (name : Text) (catalog : NetworkCatalog) (p : Provider)
      → IsIndexed p
      → IsIndexed (add_catalog e name catalog p)
  unfolding add_catalog
  add_catalog-IsIndexed name catalog p h = index_tokens-IsIndexed _ _ _ _ (
      index_tokens-IsIndexed _ _ _ _
        (record { symbols = h.symbols; addresses = h.addresses; found = h.found }))

  add_catalogs-IsIndexed :
      (cs : List (Text × NetworkCatalog)) (p : Provider)
      → IsIndexed p
      → IsIndexed (add_catalogs e cs p)
  unfolding add_catalogs
  add_catalogs-IsIndexed [] p h = h
  add_catalogs-IsIndexed ((n, c) ∷ cs) p h =
      add_catalogs-IsIndexed cs (add_catalog e n c p) (add_catalog-IsIndexed n c p h)

  new_provider-IsIndexed : (cs : List (Text × NetworkCatalog)) → IsIndexed (new_provider e cs)
  unfolding new_provider lookup
  new_provider-IsIndexed cs =
      add_catalogs-IsIndexed cs empty_provider
        (record { symbols = λ c k t h. cc; addresses = λ c k t h. cc; found = λ c ty. tt })

-- A lookup by symbol finds a token of that symbol, up to case and surrounding spaces.
pub find_by_symbol_sound :
    (e : EthCommon) (cs : List (Text × NetworkCatalog)) (chain : ℕ) (symbol : Text) (t : TokenInfo)
    → find_by_symbol (new_provider e cs) chain symbol ≡ some t
    → canonical_symbol t ≡ to_upper (trim_space symbol)
unfolding find_by_symbol
find_by_symbol_sound e cs chain symbol t h =
    (new_provider-IsIndexed e cs).symbols chain (to_upper (trim_space symbol)) t h

-- A lookup by address finds a token of that very address, if the text of an address tells it.
pub find_by_address_sound :
    (e : EthCommon) (cs : List (Text × NetworkCatalog)) (chain addr : ℕ) (t : TokenInfo)
    → IsLawful e
    → find_by_address e (new_provider e cs) chain addr ≡ some t
    → t.address ≡ addr
unfolding find_by_address lower_hex
find_by_address_sound e cs chain addr t law h =
    law.hex_injective t.address addr
      ((new_provider-IsIndexed e cs).addresses chain (lower_hex e addr) t h)

-- For every token that is listed for a chain and a type, a lookup of its symbol finds a token of
-- the same canonical symbol, and a lookup of its address one of the same address, if the text of an
-- address tells it.
pub tokens_by_chain_found :
    (e : EthCommon) (cs : List (Text × NetworkCatalog)) (chain : ℕ) (typ : TokenType)
    → IsLawful e
    → All
        (λ t.
          ((u : TokenInfo) × (find_by_symbol (new_provider e cs) chain t.symbol ≡ some u)
            × (canonical_symbol u ≡ canonical_symbol t))
          × ((u : TokenInfo) × (find_by_address e (new_provider e cs) chain t.address ≡ some u)
              × (u.address ≡ t.address)))
        (tokens_by_chain (new_provider e cs) chain typ)
unfolding find_by_symbol find_by_address tokens_by_chain canonical_symbol
tokens_by_chain_found e cs chain typ law =
    All-implies _ _ _
      (λ t f. (
        (f.0.0, f.0.1, find_by_symbol_sound e cs chain t.symbol f.0.0 f.0.1),
        (f.1.0, f.1.1, find_by_address_sound e cs chain t.address f.1.0 law f.1.1),
      ))
      ((new_provider-IsIndexed e cs).found chain typ)
