-- ===== src/Assets/Provider.antt =====
-- internal/assets/provider.go: the indexes over the catalogs and their lookups. The locks make
-- each operation atomic; `range` over the catalogs goes in the order of the list.
use screener_cd.Prelude.{
  ℕ, Bool, true, false, ◌||◌, List, [], ◌∷◌, ◌++◌, Option, none, some, ◌==◌, if◌then◌else◌, map,
}
use screener_cd.Prelude.Dict.{lookup, insert, nat_eq}
use screener_cd.Prelude.Result.{Result, ok, err}
use screener_cd.Text.{Text, to_upper, trim_space, eqb, text_eq}
use screener_cd.Text.Sort.{sort_strings}
use screener_cd.Eth.{EthCommon, lower_hex}
use screener_cd.Assets.Token.{
  TokenType, TokenInfo, token_type_stable, token_type_native, canonical_symbol,
}
use screener_cd.Assets.Loader.{
  NetworkCatalog, FileNetwork, AssetsError, read_failed, parse_registry_yaml,
}

abbrev pub ByKey : Type 0 → Type 0
ByKey V = List (ℕ × List (Text × V))

pub record Provider : Type 0 where
  pub catalogs : List (Text × NetworkCatalog)
  pub by_chain_tokens : ByKey (List TokenInfo)
  pub by_chain_symbol : ByKey TokenInfo
  pub by_chain_addr : ByKey TokenInfo

-- The inner map of a chain; reading a missing one gives an empty map.
abbrev pub map_or_empty : {V : Type 0} → Option (List (Text × V)) → List (Text × V)
map_or_empty none = []
map_or_empty (some m) = m

abbrev pub tokens_or_nil : Option (List TokenInfo) → List TokenInfo
tokens_or_nil none = []
tokens_or_nil (some ts) = ts

-- m[chain][key] = v
unfoldable pub put : {V : Type 0} → ℕ → Text → V → ByKey V → ByKey V
put chain key v m = insert chain (insert key v (map_or_empty (lookup chain m))) m

-- m[chain], which is made if it is missing.
unfoldable pub ensure : {V : Type 0} → ℕ → ByKey V → ByKey V
ensure chain m = insert chain (map_or_empty (lookup chain m)) m

abbrev pub has_no_tokens : List TokenInfo → Bool
has_no_tokens [] = true
has_no_tokens (t ∷ ts) = false

abbrev pub empty_provider : Provider
empty_provider = record {
  catalogs = [];
  by_chain_tokens = [];
  by_chain_symbol = [];
  by_chain_addr = [];
}

-- The result is a copy; values need none.
abbrev of_type : TokenType → Option NetworkCatalog → List TokenInfo
of_type typ none = []
of_type typ (some catalog) =
    if eqb typ token_type_stable
    then catalog.stable
    else if eqb typ token_type_native
    then catalog.native
    else []

unfoldable pub tokens_by_network : Provider → Text → TokenType → List TokenInfo
tokens_by_network p network typ = of_type typ (lookup (trim_space network) p.catalogs)

unfoldable pub tokens_by_chain : Provider → ℕ → TokenType → List TokenInfo
tokens_by_chain p chain typ =
    tokens_or_nil (lookup typ (map_or_empty (lookup chain p.by_chain_tokens)))

unfoldable pub find_by_symbol : Provider → ℕ → Text → Option TokenInfo
find_by_symbol p chain symbol =
    lookup (to_upper (trim_space symbol)) (map_or_empty (lookup chain p.by_chain_symbol))

unfoldable pub network_names : Provider → List Text
network_names p = sort_strings (map (λ entry. entry.0) p.catalogs)

module _ (e : EthCommon) where
  unfoldable pub index_token : ℕ → TokenType → TokenInfo → Provider → Provider
  index_token chain typ token p =
      let listed = tokens_or_nil (lookup typ (map_or_empty (lookup chain p.by_chain_tokens))) in
      record p {
        by_chain_tokens = put chain typ (listed ++ token ∷ []) p.by_chain_tokens;
        by_chain_symbol = put chain (canonical_symbol token) token p.by_chain_symbol;
        by_chain_addr = put chain (lower_hex e token.address) token p.by_chain_addr;
      }

  unfoldable pub index_each : ℕ → TokenType → List TokenInfo → Provider → Provider
  index_each chain typ [] p = p
  index_each chain typ (t ∷ ts) p = index_each chain typ ts (index_token chain typ t p)

  -- The maps of a chain that has none yet; the three are made together.
  unfoldable pub make_chain : ℕ → Provider → Provider
  make_chain chain p = record p {
    by_chain_tokens = ensure chain p.by_chain_tokens;
    by_chain_symbol = ensure chain p.by_chain_symbol;
    by_chain_addr = ensure chain p.by_chain_addr;
  }

  unfoldable pub index_tokens : ℕ → List TokenInfo → TokenType → Provider → Provider
  index_tokens chain tokens typ p =
      if chain == 0 || has_no_tokens tokens
      then p
      else index_each chain typ tokens (make_chain chain p)

  unfoldable pub add_catalog : Text → NetworkCatalog → Provider → Provider
  add_catalog raw_name catalog p =
      let key = trim_space raw_name in
      let p1 = record p {
        catalogs =
            insert key
              (record {
                name = key;
                chain = catalog.chain;
                stable = catalog.stable;
                native = catalog.native;
              })
              p.catalogs;
      } in
      let p2 = index_tokens catalog.chain catalog.stable token_type_stable p1 in
      index_tokens catalog.chain catalog.native token_type_native p2

  unfoldable pub add_catalogs : List (Text × NetworkCatalog) → Provider → Provider
  add_catalogs [] p = p
  add_catalogs ((name, catalog) ∷ rest) p = add_catalogs rest (add_catalog name catalog p)

  unfoldable pub new_provider : List (Text × NetworkCatalog) → Provider
  new_provider catalogs = add_catalogs catalogs empty_provider

  unfoldable pub find_by_address : Provider → ℕ → ℕ → Option TokenInfo
  find_by_address p chain addr =
      lookup (lower_hex e addr) (map_or_empty (lookup chain p.by_chain_addr))

  -- `LoadOrGetProvider`: the cache of providers, `read` for os.ReadFile, `unmarshal` for yaml.
  unfoldable pub load_or_get_provider :
      (Text → Option Text)
      → (Text → Option (List (Text × FileNetwork)))
      → Text
      → List (Text × Provider)
      → Result AssetsError Provider × List (Text × Provider)
  load_or_get_provider read unmarshal path cache = cached (lookup path cache)
    where
      store :
          Result AssetsError (List (Text × NetworkCatalog))
          → Result AssetsError Provider × List (Text × Provider)
      store (err why) = (err why, cache)
      store (ok catalogs) = let p = new_provider catalogs in (ok p, insert path p cache)

      load : Option Text → Result AssetsError Provider × List (Text × Provider)
      load none = (err read_failed, cache)
      load (some payload) = store (parse_registry_yaml e unmarshal payload)

      cached : Option Provider → Result AssetsError Provider × List (Text × Provider)
      cached (some p) = (ok p, cache)
      cached none = load (read path)
