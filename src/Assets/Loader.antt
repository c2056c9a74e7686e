-- ===== src/Assets/Loader.antt =====
-- internal/assets/loader.go: the checks on the registry file.
use screener_cd.Prelude.{
  ℕ, ◌+◌, Bool, false, not, ◌||◌, List, [], ◌∷◌, Option, none, some, ◌==◌, if◌then◌else◌,
}
use screener_cd.Prelude.Int.{ℤ, pos, nonpos, pos_part, ltb_ℤ}
use screener_cd.Prelude.Dict.{insert}
use screener_cd.Prelude.Result.{Result, ok, err, ◌>>=◌, ◌>>◌, reject}
use screener_cd.Text.{Text, to_upper, trim_space, eqb, text_eq}
use screener_cd.Eth.{EthCommon, lower_hex}
use screener_cd.Assets.Token.{
  TokenType, TokenInfo, token_type_stable, token_type_native, is_zero, with_type, canonical_symbol,
}

pub record NetworkCatalog : Type 0 where
  pub name : Text
  pub chain : ℕ
  pub stable : List TokenInfo
  pub native : List TokenInfo

pub record FileToken : Type 0 where
  pub symbol : Text
  pub address : Text
  pub decimals : ℤ
  pub wrapped : Bool

pub record FileNetwork : Type 0 where
  pub chain_id : ℕ
  pub stable : List FileToken
  pub native : List FileToken

-- The errors, without their texts.
pub data AssetsError : Type 0 where
  read_failed : AssetsError
  empty_payload : AssetsError
  decode_failed : AssetsError
  no_networks : AssetsError
  empty_network_name : AssetsError
  missing_chain_id : Text → AssetsError
  missing_symbol : ℕ → AssetsError
  invalid_address : Text → AssetsError
  invalid_decimals : Text → AssetsError
  missing_fields : Text → AssetsError
  duplicate_symbol : Text → AssetsError
  duplicate_address : ℕ → AssetsError

unfoldable pub contains : Text → List Text → Bool
contains k [] = false
contains k (s ∷ seen) = eqb s k || contains k seen

module _ (e : EthCommon) where
  -- The token that an entry of the file stands for.
  unfoldable pub token_of : FileToken → ℕ → TokenType → TokenInfo
  token_of tok chain_id typ =
      let info : TokenInfo = record {
        symbol = to_upper (trim_space tok.symbol);
        address = e.hex_to_address (trim_space tok.address);
        decimals = pos_part tok.decimals;
        type_tag = [];
        chain_id = chain_id;
        wrapped = tok.wrapped;
      } in
      with_type info typ

  unfoldable pub convert_token : FileToken → ℕ → TokenType → ℕ → Result AssetsError TokenInfo
  convert_token tok chain_id typ idx = do
    let symbol = to_upper (trim_space tok.symbol)
    reject (eqb symbol []) (missing_symbol idx)
    reject (not (e.is_hex_address (trim_space tok.address))) (invalid_address symbol)
    reject (nonpos tok.decimals || ltb_ℤ (pos 255) tok.decimals) (invalid_decimals symbol)
    reject (is_zero (token_of tok chain_id typ)) (missing_fields symbol)
    ok (token_of tok chain_id typ)

  -- The loop of `convertTokens`, with the index and the two sets of keys that were seen.
  unfoldable pub convert_from :
      List FileToken
      → ℕ
      → TokenType
      → ℕ
      → List Text
      → List Text
      → Result AssetsError (List TokenInfo)
  convert_from [] chain_id typ idx symbols addresses = ok []
  convert_from (t ∷ ts) chain_id typ idx symbols addresses = do
    info ← convert_token t chain_id typ idx
    reject (contains (canonical_symbol info) symbols) (duplicate_symbol info.symbol)
    reject (contains (lower_hex e info.address) addresses) (duplicate_address info.address)
    rest ←
        convert_from ts chain_id typ (idx + 1) (canonical_symbol info ∷ symbols)
          (lower_hex e info.address ∷ addresses)
    ok (info ∷ rest)

  unfoldable pub convert_tokens :
      List FileToken → ℕ → TokenType → Result AssetsError (List TokenInfo)
  convert_tokens tokens chain_id typ = convert_from tokens chain_id typ 0 [] []

  unfoldable pub convert_network : Text → FileNetwork → Result AssetsError NetworkCatalog
  convert_network raw_name raw = do
    let name = trim_space raw_name
    reject (eqb name []) empty_network_name
    reject (raw.chain_id == 0) (missing_chain_id name)
    stable ← convert_tokens raw.stable raw.chain_id token_type_stable
    native ← convert_tokens raw.native raw.chain_id token_type_native
    ok (record { name = name; chain = raw.chain_id; stable = stable; native = native })

  -- The loop over the networks, in the order in which the map is ranged over.
  unfoldable pub convert_networks :
      List (Text × FileNetwork)
      → List (Text × NetworkCatalog)
      → Result AssetsError (List (Text × NetworkCatalog))
  convert_networks [] catalogs = ok catalogs
  convert_networks ((name, net) ∷ raw) catalogs = do
    catalog ← convert_network name net
    convert_networks raw (insert name catalog catalogs)

  -- `unmarshal` stands for yaml.Unmarshal into the map of networks.
  unfoldable pub parse_registry_yaml :
      (Text → Option (List (Text × FileNetwork)))
      → Text
      → Result AssetsError (List (Text × NetworkCatalog))
  parse_registry_yaml unmarshal payload =
      if eqb payload [] then err empty_payload else decoded (unmarshal payload)
    where
      decoded :
          Option (List (Text × FileNetwork)) → Result AssetsError (List (Text × NetworkCatalog))
      decoded none = err decode_failed
      decoded (some []) = err no_networks
      decoded (some (net ∷ raw)) = convert_networks (net ∷ raw) []
