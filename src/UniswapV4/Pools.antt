-- ===== src/UniswapV4/Pools.antt =====
-- internal/dex/Etherium/Uniswap/v4_connector.go: the pools that `bootstrapPools` loads. A context
-- that is cancelled meanwhile, which ends the loading, is left out. `hash` stands for
-- common.HexToHash.
use screener_cd.Prelude.{
  ℕ, Bool, true, false, not, ◌||◌, ◌&&◌, List, [], ◌∷◌, ◌++◌, Option, none, some, ◌==◌ as eq_ℕ,
  if◌then◌else◌, length,
}
use screener_cd.Prelude.Dict.{nat_eq}
use screener_cd.Prelude.Int.{ℤ, pos}
use screener_cd.Prelude.Result.{Result, ok, err, ◌>>=◌}
use screener_cd.Text.{Text, codes, eqb, equal_fold, has_prefix, to_lower, to_upper, trim_space}
use screener_cd.Text.Sort.{is_in}
use screener_cd.Eth.{EthCommon}
use screener_cd.Config.Paths.{or_else}
use screener_cd.Uniswap.Meta.{TokenMeta, clamp_decimals, short_address}
use screener_cd.Uniswap.Registry.{TokenRegistry, resolve}
use screener_cd.Uniswap.Gecko.{GeckoToken, or_default}
use screener_cd.Uniswap.Configs.{V4PoolConfig}

pub record GeckoEntry : Type 0 where
  pub dex : Text
  pub network : Text
  pub pair_name : Text
  pub pool_id : Text
  pub pool_addr : Text
  pub token0 : GeckoToken
  pub token1 : GeckoToken
  pub hooks : Text

pub data BootError : Type 0 where
  wanted_pairs_empty : BootError
  missing_pool_id : BootError
  empty_address : BootError
  read_failed : BootError
  decode_failed : BootError
  no_pools : BootError

unfoldable pub pair_key : Text → Text
pair_key name = to_upper (trim_space name)

-- The set of the wanted keys.
unfoldable pub wanted_keys : List Text → List Text
wanted_keys [] = []
wanted_keys (pair ∷ pairs) =
    let rest = wanted_keys pairs in if eqb (pair_key pair) [] then rest else pair_key pair ∷ rest

unfoldable pub normalize_pair_name : Text → Text → Text → Text
normalize_pair_name current symbol0 symbol1 =
    to_upper (or_else (trim_space current) (to_upper symbol0 ++ b'/' ∷ to_upper symbol1))

unfoldable pub canonical_pair_of : TokenMeta → TokenMeta → Bool → Text
canonical_pair_of t0 t1 base = if base then t0.symbol ++ t1.symbol else t1.symbol ++ t0.symbol

unfoldable pub choose_base_token : TokenMeta → TokenMeta → Bool
choose_base_token t0 t1 =
    if t0.is_stable && not t1.is_stable
    then false
    else if t1.is_stable && not t0.is_stable
    then true
    else true

-- Whether a pool passes the filter on the wanted pairs.
unfoldable pub is_wanted : Bool → List Text → Text → Bool
is_wanted filter wanted name = not filter || is_in (pair_key name) wanted

module _ (e : EthCommon) (hash : Text → ℕ) (registry : Option TokenRegistry) where
  unfoldable pub parse_optional_address : Text → ℕ
  parse_optional_address raw =
      let addr = trim_space raw in
      if eqb addr []
      then 0
      else if has_prefix (to_lower addr) (codes "0x") && eq_ℕ (length addr) 66
      then 0
      else if not (e.is_hex_address addr)
      then 0
      else e.hex_to_address addr

  -- The checks at the end of `buildTokenMeta` and `enrichTokenMeta`.
  unfoldable pub checked_meta : ℕ → Text → TokenMeta → TokenMeta
  checked_meta addr symbol meta = record meta {
    symbol = or_else symbol (to_upper (short_address (e.hex addr)));
    decimals = or_default (clamp_decimals (pos meta.decimals));
  }

  -- What the registry tells of a token, where it gives no address.
  unfoldable pub known_parts : ℕ → Text → ℤ → TokenMeta → TokenMeta
  known_parts addr symbol decimals resolved = record {
    address = addr;
    symbol = or_else resolved.symbol (to_upper (trim_space symbol));
    decimals =
        if eq_ℕ resolved.decimals 0
        then clamp_decimals decimals
        else clamp_decimals (pos resolved.decimals);
    is_stable = resolved.is_stable;
    is_weth = resolved.is_weth;
  }

  -- The token of `buildTokenMeta` before its last checks; without a registry it is the file's.
  unfoldable pub gecko_meta : Option TokenRegistry → ℕ → Text → ℤ → TokenMeta
  gecko_meta none addr symbol decimals = record {
    address = addr;
    symbol = to_upper (trim_space symbol);
    decimals = clamp_decimals decimals;
    is_stable = false;
    is_weth = false;
  }
  gecko_meta (some r) addr symbol decimals =
      let resolved = resolve e r addr symbol decimals in
      if eq_ℕ resolved.address 0 then known_parts addr symbol decimals resolved else resolved

  -- `buildTokenMeta`; `none` is an error.
  unfoldable pub build_token : GeckoToken → Option TokenMeta
  build_token t =
      let trimmed = trim_space t.address in
      let addr = e.hex_to_address trimmed in
      let meta = gecko_meta registry addr t.symbol t.decimals in
      if not (e.is_hex_address trimmed) then none else some (checked_meta addr meta.symbol meta)

  -- What the registry tells of an inline token: the token and the symbol that it goes on with.
  unfoldable pub enriched : TokenMeta → Text → TokenMeta → TokenMeta × Text
  enriched meta symbol resolved = if not (eq_ℕ resolved.address 0) then (resolved, symbol) else (
    record meta {
      decimals =
          if eq_ℕ resolved.decimals 0
          then meta.decimals
          else clamp_decimals (pos resolved.decimals);
      is_stable = meta.is_stable || resolved.is_stable;
      is_weth = meta.is_weth || resolved.is_weth;
    },
    or_else resolved.symbol symbol,
  )

  abbrev pub known_inline : Option TokenRegistry → TokenMeta → Text → TokenMeta × Text
  known_inline none meta symbol = (meta, symbol)
  known_inline (some r) meta symbol =
      enriched meta symbol (resolve e r meta.address symbol (pos meta.decimals))

  unfoldable pub enrich_token_meta : TokenMeta → Result BootError TokenMeta
  enrich_token_meta meta =
      let symbol = to_upper (trim_space meta.symbol) in
      let known = known_inline registry meta symbol in
      if eq_ℕ meta.address 0
      then err empty_address
      else ok (checked_meta known.0.address known.1 known.0)

  -- `normalizeInlinePool`; `none` is a pool that the filter leaves out.
  unfoldable pub normalize_inline_pool :
      Bool → List Text → V4PoolConfig → Result BootError (Option V4PoolConfig)
  normalize_inline_pool filter wanted pool =
      if not (is_wanted filter wanted pool.pair_name)
      then ok none
      else if eq_ℕ pool.pool_id 0
      then err missing_pool_id
      else enrich_token_meta pool.token0 >>= λ t0. enrich_token_meta pool.token1 >>= λ t1. ok (
          some (record pool {
            token0 = t0;
            token1 = t1;
            pair_name = normalize_pair_name pool.pair_name t0.symbol t1.symbol;
            canonical_pair =
                or_else pool.canonical_pair (canonical_pair_of t0 t1 pool.base_is_token0);
          }))

  abbrev pub add_some {ℓ} : {A : Type ℓ} → Option A → List A → List A
  add_some none xs = xs
  add_some (some x) xs = x ∷ xs

  unfoldable pub prepare_inline :
      Bool → List Text → List V4PoolConfig → Result BootError (List V4PoolConfig)
  prepare_inline filter wanted [] = ok []
  prepare_inline filter wanted (pool ∷ pools) = normalize_inline_pool filter wanted pool >>= λ o.
      prepare_inline filter wanted pools >>= λ rest. ok (add_some o rest)

  abbrev pub gecko_pool : GeckoEntry → ℕ → Option TokenMeta → Option TokenMeta → Option V4PoolConfig
  gecko_pool entry id none t1 = none
  gecko_pool entry id (some t0) none = none
  gecko_pool entry id (some t0) (some t1) =
      let base = choose_base_token t0 t1 in
      if t0.is_stable && t1.is_stable
      then none
      else some (record {
        pool_id = id;
        pool_address = parse_optional_address entry.pool_addr;
        hook_address = parse_optional_address entry.hooks;
        pair_name = normalize_pair_name entry.pair_name t0.symbol t1.symbol;
        token0 = t0;
        token1 = t1;
        base_is_token0 = base;
        canonical_pair = canonical_pair_of t0 t1 base;
      })

  -- `poolFromGecko`; the loop goes on after any error.
  unfoldable pub pool_from_gecko : GeckoEntry → Option V4PoolConfig
  pool_from_gecko entry =
      let id = trim_space entry.pool_id in
      if not (has_prefix id (codes "0x")) || not (eq_ℕ (length id) 66)
      then none
      else gecko_pool entry (hash id) (build_token entry.token0) (build_token entry.token1)

  -- Whether the loop over the entries of the file skips one.
  unfoldable pub is_skipped : Text → Bool → List Text → GeckoEntry → Bool
  is_skipped network filter wanted entry =
      not (equal_fold entry.dex (codes "uniswap_v4"))
      || (not (eqb network []) && not (equal_fold entry.network network)
          || not (is_wanted filter wanted entry.pair_name))

  unfoldable pub pools_of_entries : Text → Bool → List Text → List GeckoEntry → List V4PoolConfig
  pools_of_entries network filter wanted [] = []
  pools_of_entries network filter wanted (entry ∷ entries) =
      let rest = pools_of_entries network filter wanted entries in
      if is_skipped network filter wanted entry then rest else add_some (pool_from_gecko entry) rest
