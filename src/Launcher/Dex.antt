-- ===== src/Launcher/Dex.antt =====
-- internal/launcher/register_dex.go: the configuration of each DEX connector. `hash` stands for
-- common.HexToHash; the files and the environment are those of the configuration and of the pools.
use screener_cd.Prelude.{
  ℕ, ◌*◌, ◌++◌, not, ◌||◌, List, [], ◌∷◌, map, Option, some, ◌==◌ as eq_ℕ, if◌then◌else◌, length,
}
use screener_cd.Prelude.Int.{ℤ, pos, nonpos, int64, ◌*ℤ◌}
use screener_cd.Prelude.Result.{Result, ok, err, ◌>>=◌, ◌>>◌, reject}
use screener_cd.Text.{Text, codes, eqb, to_lower, to_upper, trim_space, trim_prefix, has_prefix}
use screener_cd.Eth.{EthCommon}
use screener_cd.Config.Types.{Os, DexConfig, DexPoolConfig}
use screener_cd.Config.Paths.{resolve_pools_path, or_else}
use screener_cd.Assets.Provider.{Provider}
use screener_cd.Uniswap.Meta.{TokenMeta, finalize_pool}
use screener_cd.Uniswap.Registry.{TokenRegistry, new_token_registry, resolve}
use screener_cd.Uniswap.Gecko.{GeckoPool, LoadError, load_pools}
use screener_cd.Uniswap.Session.{Config, second}
use screener_cd.Uniswap.Configs.{V3Config, V4Config, V4PoolConfig}
use screener_cd.Launcher.Wanted.{merge_wanted_pairs}

pub data BuildError : Type 0 where
  ws_url_empty : BuildError
  http_url_empty : BuildError
  pools_path_empty : BuildError
  pools_failed : LoadError → BuildError
  invalid_pool_manager : BuildError
  missing_pool_id : BuildError
  invalid_pool_id : BuildError
  invalid_address : BuildError

-- `if n <= 0 { n = default }`
unfoldable pub positive_or : ℕ → ℤ → ℤ
positive_or d n = if nonpos n then pos d else n

-- `time.Duration(n) * time.Second`, which wraps.
unfoldable pub seconds : ℤ → ℤ
seconds n = int64 (n *ℤ pos second)

abbrev pub or_failed : {A : Type 0} → Result LoadError A → Result BuildError A
or_failed (ok a) = ok a
or_failed (err e) = err (pools_failed e)

module _ (os : Os) (e : EthCommon) where
  unfoldable pub build_uniswap_v2_config :
      (Text → Option Text)
      → (Text → Option (List GeckoPool))
      → DexConfig
      → Text
      → Option Provider
      → Result BuildError Config
  build_uniswap_v2_config read unmarshal dex shared provider =
      reject (eqb dex.ws_url []) ws_url_empty
      >> (reject (eqb dex.http_url []) http_url_empty
          >> (or_failed (
                load_pools e read unmarshal (resolve_pools_path os dex shared)
                  (some (new_token_registry e provider dex.network)))
              >>= λ pools. ok (record {
                ws_url = dex.ws_url;
                http_url = dex.http_url;
                exchange = dex.name;
                pools = map finalize_pool pools;
                subscribe_batch_size = positive_or 150 dex.subscribe_batch;
                ping_interval = seconds (positive_or 25 dex.ping_interval);
              })))

  unfoldable pub build_uniswap_v3_config :
      DexConfig → Text → Option Provider → Result BuildError V3Config
  build_uniswap_v3_config dex shared provider =
      let path = resolve_pools_path os dex shared in
      reject (eqb dex.ws_url [] || eqb dex.http_url []) ws_url_empty
      >> (reject (eqb path []) pools_path_empty
          >> ok (record {
            exchange = dex.name;
            ws_url = dex.ws_url;
            http_url = dex.http_url;
            pools_path = path;
            dex_filter = dex.pools_source.gecko_dex;
            network_filter = dex.pools_source.gecko_network;
            batch_size = positive_or 150 dex.subscribe_batch;
            ping_interval = positive_or (25 * second) (seconds dex.ping_interval);
            stop_on_ack_error = dex.stop_on_ack_error;
            log_all_events = dex.log_all_events;
            decode_swap_only = dex.swap_only;
            max_meta_workers = dex.max_meta_workers;
            registry = some (new_token_registry e provider dex.network);
          }))

module _ (e : EthCommon) (hash : Text → ℕ) where
  -- The token of `buildTokenMetaForV4` where the registry gives no address.
  unfoldable pub default_meta : ℕ → Text → ℕ → TokenMeta → TokenMeta
  default_meta addr symbol decimals meta = record meta {
    address = addr;
    symbol =
        or_else (to_upper (trim_space symbol)) (to_upper (trim_prefix (e.hex addr) (codes "0x")));
    decimals = if eq_ℕ decimals 0 then 18 else decimals;
  }

  unfoldable pub build_token_meta : TokenRegistry → Text → Text → ℕ → Result BuildError TokenMeta
  build_token_meta r raw symbol decimals =
      let addr = e.hex_to_address (trim_space raw) in
      let meta = resolve e r addr symbol (pos decimals) in
      if not (e.is_hex_address (trim_space raw))
      then err invalid_address
      else ok (if eq_ℕ meta.address 0 then default_meta addr symbol decimals meta else meta)

  unfoldable pub convert_pool : TokenRegistry → DexPoolConfig → Result BuildError V4PoolConfig
  convert_pool r entry =
      let pool_id = trim_space entry.address in
      reject (eqb pool_id []) missing_pool_id
      >> (reject
            (not (eq_ℕ (length pool_id) 66) || not (has_prefix (to_lower pool_id) (codes "0x")))
            invalid_pool_id
          >> (build_token_meta r entry.token0_address entry.token0_symbol entry.token0_decimals
              >>= λ t0.
                  build_token_meta r entry.token1_address entry.token1_symbol entry.token1_decimals
                  >>= λ t1. ok (record {
                    pool_id = hash pool_id;
                    pool_address = 0;
                    hook_address = 0;
                    pair_name =
                        or_else (trim_space entry.pair_name) (t0.symbol ++ b'/' ∷ t1.symbol);
                    token0 = t0;
                    token1 = t1;
                    base_is_token0 = entry.base_is_token0;
                    canonical_pair = trim_space entry.canonical_pair;
                  })))

  unfoldable pub convert_dex_pools :
      TokenRegistry → List DexPoolConfig → Result BuildError (List V4PoolConfig)
  convert_dex_pools r [] = ok []
  convert_dex_pools r (entry ∷ entries) =
      convert_pool r entry >>= λ pool. convert_dex_pools r entries >>= λ pools. ok (pool ∷ pools)

  unfoldable pub build_uniswap_v4_config :
      Os → DexConfig → Text → Option Provider → Result BuildError V4Config
  build_uniswap_v4_config os dex shared provider =
      let ws_url = trim_space dex.ws_url in
      let http_url = trim_space dex.http_url in
      let manager = trim_space dex.pool_manager in
      let registry = new_token_registry e provider dex.network in
      reject (eqb ws_url [] || eqb http_url []) ws_url_empty
      >> (reject (not (e.is_hex_address manager)) invalid_pool_manager
          >> (convert_dex_pools registry dex.pools >>= λ pools. ok (record {
            exchange =
                or_else (to_lower (or_else (trim_space dex.name) (codes "uniswap_v4")))
                  (codes "uniswap_v4");
            network = to_lower (trim_space dex.network);
            ws_url = ws_url;
            http_url = http_url;
            pool_manager = e.hex_to_address manager;
            pools_path = trim_space (resolve_pools_path os dex (trim_space shared));
            pools = pools;
            subscribe_batch = positive_or 150 dex.subscribe_batch;
            ping_interval = positive_or (25 * second) (seconds dex.ping_interval);
            max_meta_workers = positive_or 4 dex.max_meta_workers;
            swap_only = dex.swap_only;
            log_all_events = dex.log_all_events;
            stop_on_ack_error = dex.stop_on_ack_error;
            once = dex.once;
            wanted_pairs = merge_wanted_pairs dex.wanted_pairs dex.pools_source.wanted_pairs;
            wanted_pairs_only = dex.wanted_pairs_only;
            registry = some registry;
          })))
