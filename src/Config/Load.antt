-- ===== src/Config/Load.antt =====
-- internal/config/config.go: the defaults, the checks and `LoadConfig`. log.Fatalf ends the
-- program, so an error of the model is the end of the program.
use screener_cd.Prelude.{
  ℕ, suc, Bool, true, false, ◌||◌, ◌&&◌, ◌++◌, List, [], ◌∷◌, map, if◌then◌else◌, Option, none,
  some,
}
use screener_cd.Prelude.Int.{ℤ, pos, nonpos, ltb_ℤ}
use screener_cd.Prelude.Result.{Result, ok, err, ◌>>=◌, ◌>>◌, reject}
use screener_cd.Text.{Text, codes, eqb, equal_fold, to_lower, trim_space}
use screener_cd.Config.Types.{
  Os, DexConfig, Config, DexError, name_required, network_required, ws_url_required,
  subscribe_batch_range, ping_interval_range, wanted_pairs_missing, http_url_required,
  pool_manager_required, max_meta_workers_range, pools_required, ConfigError, unreadable, malformed,
  dex_invalid, assets_path_required, registry_required,
}
use screener_cd.Config.Paths.{
  or_else, resolve, resolve_pools, resolve_assets_path, resolve_assets_registry_path,
}

abbrev pub uniswap_v4 : Text
uniswap_v4 = codes "uniswap_v4"

-- `if x <= 0 { x = d }`
abbrev pub default_to : ℕ → ℤ → ℤ
default_to d x = if nonpos x then pos d else x

unfoldable pub apply_defaults : DexConfig → DexConfig
apply_defaults d = record d {
  subscribe_batch = default_to 150 d.subscribe_batch;
  ping_interval = default_to 25 d.ping_interval;
  max_meta_workers =
      if equal_fold d.name uniswap_v4 && nonpos d.max_meta_workers
      then pos 4
      else d.max_meta_workers;
}

-- `x < lo || x > hi`
abbrev pub outside : ℕ → ℕ → ℤ → Bool
outside lo hi x = ltb_ℤ x (pos lo) || ltb_ℤ (pos hi) x

abbrev pub is_empty {ℓ} : {A : Type ℓ} → List A → Bool
is_empty [] = true
is_empty (x ∷ xs) = false

-- The runtime numbers that `LoadConfig` sets.
unfoldable pub set_runtime : Config → Config
set_runtime c = record c {
  data_channel_buffer = default_to 8192 c.data_channel_buffer;
  redis_workers = default_to 8 c.redis_workers;
  redis_pipeline_size = default_to 300 c.redis_pipeline_size;
  subscribe_batch_size = default_to 100 c.subscribe_batch_size;
  subscribe_batch_pause_ms = default_to 150 c.subscribe_batch_pause_ms;
  metrics_period_sec = default_to 5 c.metrics_period_sec;
  bitget_subscribe_batch_size = default_to 30 c.bitget_subscribe_batch_size;
  bitget_subscribe_pause_ms = default_to 700 c.bitget_subscribe_pause_ms;
  bitget_ping_interval_sec = default_to 25 c.bitget_ping_interval_sec;
}

module _ (os : Os) where
  -- The checks for `uniswap_v4`.
  unfoldable pub validate_v4 : DexConfig → Result DexError (Unit {0})
  validate_v4 d = do
    reject (eqb (trim_space d.http_url) []) http_url_required
    reject (eqb (trim_space d.pool_manager) []) pool_manager_required
    reject (outside 1 64 d.max_meta_workers) max_meta_workers_range
    let path =
        or_else (trim_space (resolve_pools os d.pools_source))
          (trim_space (os.expand_env d.pools_file))
    reject (is_empty d.pools && eqb path []) pools_required
    ok tt

  unfoldable pub validate_dex : DexConfig → Result DexError (Unit {0})
  validate_dex d = do
    let name = trim_space d.name
    reject (eqb name []) name_required
    reject (eqb (trim_space d.network) []) network_required
    reject (eqb (trim_space d.ws_url) []) ws_url_required
    reject (outside 1 500 d.subscribe_batch) subscribe_batch_range
    reject (outside 5 120 d.ping_interval) ping_interval_range
    reject (d.wanted_pairs_only && is_empty d.wanted_pairs) wanted_pairs_missing
    if equal_fold name uniswap_v4 then validate_v4 d else ok tt

  -- The name that the error of the connector at index `i` shows.
  abbrev label : ℕ → DexConfig → Text
  label i d = or_else (trim_space d.name) (codes "index " ++ os.itoa (pos i))

  abbrev pub in_dex : ℕ → DexConfig → Result DexError (Unit {0}) → Result ConfigError (Unit {0})
  in_dex i d (ok done) = ok tt
  in_dex i d (err e) = err (dex_invalid (label i d) e)

  abbrev pub is_v4 : DexConfig → Bool
  is_v4 d = eqb (to_lower (trim_space d.name)) uniswap_v4

  -- The loop of `Config.Validate`: its value is `requiresV4`.
  unfoldable pub validate_each : Text → ℕ → List DexConfig → Result ConfigError Bool
  validate_each registry i [] = ok false
  validate_each registry i (d ∷ ds) = do
    in_dex i d (validate_dex d)
    reject (is_v4 d && (eqb (trim_space d.assets_path) [] && eqb registry []))
        (assets_path_required d.name)
    later ← validate_each registry (suc i) ds
    ok (is_v4 d || later)

  unfoldable pub validate : Config → Result ConfigError (Unit {0})
  validate c = do
    let registry = trim_space (resolve_assets_registry_path os c)
    requires_v4 ← validate_each registry 0 c.dex_configs
    reject (requires_v4 && eqb registry []) registry_required
    ok tt

  -- The body of the loop of `LoadConfig` over the connectors.
  unfoldable pub prepare_dex : Text → DexConfig → DexConfig
  prepare_dex shared d =
      let d1 = record d {
        ws_url = trim_space (os.expand_env d.ws_url);
        http_url = trim_space (os.expand_env d.http_url);
        pool_manager = trim_space (os.expand_env d.pool_manager);
      } in
      let d2 = apply_defaults d1 in record d2 { assets_path = resolve_assets_path os d2 shared }

  unfoldable pub prepare : Config → Config
  prepare raw =
      let c = set_runtime raw in
      record c {
        dex_configs = map (prepare_dex (trim_space (resolve os c.assets_registry))) c.dex_configs;
      }

  -- `read` stands for ioutil.ReadFile and `unmarshal` for yaml.Unmarshal.
  unfoldable pub load_config :
      (Text → Option Text) → (Text → Option Config) → Text → Result ConfigError Config
  load_config read unmarshal path = loaded (read path)
    where
      checked : Config → Result ConfigError Config
      checked c = do validate c; ok c

      decoded : Option Config → Result ConfigError Config
      decoded none = err malformed
      decoded (some raw) = checked (prepare raw)

      loaded : Option Text → Result ConfigError Config
      loaded none = err unreadable
      loaded (some payload) = decoded (unmarshal payload)
