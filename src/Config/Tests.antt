-- ===== src/Config/Tests.antt =====
-- A small configuration: its defaults and paths, and the theorem about it at a witness.
use screener_cd.Prelude.{true, false, ◌≡◌, refl, [], ◌∷◌, Option, some}
use screener_cd.Prelude.Int.{ℤ, pos, negsuc}
use screener_cd.Prelude.Result.{Result, ok, err}
use screener_cd.Text.{Text, codes, eqb, equal_fold, to_lower, trim_space, is_space}
use screener_cd.Config.Types.{
  Os, PoolsSource, DexConfig, Config, ConfigError, dex_invalid, ping_interval_range,
}
use screener_cd.Config.Paths.{
  resolve, resolve_pools, resolve_assets_path, resolve_assets_registry_path,
  resolve_shared_pools_path, first_dex_path, redis_address,
}
use screener_cd.Config.Load.{
  apply_defaults, set_runtime, validate_v4, validate_dex, validate_each, validate, prepare_dex,
  prepare, load_config,
}
use screener_cd.Config.Valid.{IsReady, load_config-IsReady}

-- No variable is set, and no text has one in it.
abbrev sample_os : Os
sample_os = record { getenv = λ name. []; expand_env = λ s. s; itoa = λ n. codes "7" }

abbrev no_pools : PoolsSource
no_pools = record {
  file = [];
  env = [];
  gecko_dex = [];
  gecko_network = [];
  include_stable = false;
  wanted_pairs = [];
}

abbrev v4_dex : ℤ → DexConfig
v4_dex ping = record {
  name = codes "Uniswap_V4";
  network = codes "ethereum";
  ws_url = codes " wss://node ";
  http_url = codes "https://node";
  subscribe_batch = pos 0;
  ping_interval = ping;
  pool_manager = codes "0x1";
  pools = [];
  pools_file = codes "pools.json";
  pools_source = no_pools;
  assets_source = record { file = []; env = [] };
  assets_path = [];
  max_meta_workers = pos 0;
  swap_only = true;
  log_all_events = false;
  stop_on_ack_error = false;
  wanted_pairs = [];
  wanted_pairs_only = false;
  once = false;
}

abbrev config_of : Text → ℤ → Config
config_of registry ping = record {
  exchange = [];
  exchanges = [];
  symbol = [];
  api_key = [];
  secret = [];
  default_symbols_file = [];
  shared_pools = no_pools;
  assets_registry = record { file = registry; env = [] };
  exchange_configs = [];
  redis = record { address = []; host = codes "redis"; port = pos 7; password = [] };
  data_channel_buffer = pos 0;
  redis_workers = negsuc 2;
  redis_pipeline_size = pos 50;
  subscribe_batch_size = pos 0;
  subscribe_batch_pause_ms = pos 0;
  metrics_period_sec = pos 0;
  bitget_subscribe_batch_size = pos 0;
  bitget_subscribe_pause_ms = pos 0;
  bitget_ping_interval_sec = pos 0;
  dex_configs = v4_dex ping ∷ [];
}

-- A batch of two for Bitget.
abbrev pub sample_config : Config
sample_config = record (config_of [] (pos 0)) { bitget_subscribe_batch_size = pos 2 }

abbrev read : Text → Option Text
read path = some path

abbrev decode : Config → Text → Option Config
decode c payload = some c

load : Config → Result ConfigError Config
unfolding load_config prepare prepare_dex set_runtime apply_defaults validate validate_each
    validate_dex validate_v4 resolve_assets_path resolve_assets_registry_path resolve_pools resolve
    equal_fold to_lower trim_space is_space eqb
load c = load_config sample_os read (decode c) (codes "config.yaml")

paths :
    (resolve_shared_pools_path sample_os (config_of [] (pos 0)) ≡ codes "pools.json")
    × (redis_address sample_os (config_of [] (pos 0)).redis ≡ codes "redis:7")
unfolding resolve_shared_pools_path first_dex_path resolve_pools resolve trim_space is_space
    redis_address eqb
paths = (refl, refl)

-- The interval is out of range, and no registry is named.
refused :
    (load (config_of (codes "assets.yaml") (pos 3))
      ≡ err (dex_invalid (codes "Uniswap_V4") ping_interval_range))
    × (load (record (config_of [] (pos 0)) { dex_configs = [] })
        ≡ ok (prepare sample_os (record (config_of [] (pos 0)) { dex_configs = [] })))
unfolding load
refused = (refl, refl)

loaded :
    load_config sample_os read
      (decode (config_of (codes "assets.yaml") (pos 0)))
      (codes "config.yaml")
    ≡ ok (prepare sample_os (config_of (codes "assets.yaml") (pos 0)))
unfolding load
loaded = refl

load_config-IsReady_example :
    IsReady sample_os (prepare sample_os (config_of (codes "assets.yaml") (pos 0)))
load_config-IsReady_example =
    load_config-IsReady sample_os read (decode (config_of (codes "assets.yaml") (pos 0)))
      (codes "config.yaml") (prepare sample_os (config_of (codes "assets.yaml") (pos 0))) loaded
