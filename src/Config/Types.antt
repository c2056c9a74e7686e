-- ===== src/Config/Types.antt =====
-- internal/config/config.go: the configuration as YAML fills it. A Go int is an integer here.
use screener_cd.Prelude.{ℕ, Bool, List}
use screener_cd.Prelude.Int.{ℤ}
use screener_cd.Text.{Text}

-- What the configuration asks of the operating system, os.Getenv and os.ExpandEnv, and `%d`.
pub record Os : Type 0 where
  pub getenv : Text → Text
  pub expand_env : Text → Text
  pub itoa : ℤ → Text

pub record FileSource : Type 0 where
  pub file : Text
  pub env : Text

pub record PoolsSource : Type 0 where
  pub file : Text
  pub env : Text
  pub gecko_dex : Text
  pub gecko_network : Text
  pub include_stable : Bool
  pub wanted_pairs : List Text

pub record DexPoolConfig : Type 0 where
  pub address : Text
  pub pair_name : Text
  pub token0_symbol : Text
  pub token1_symbol : Text
  pub token0_address : Text
  pub token1_address : Text
  pub token0_decimals : ℕ
  pub token1_decimals : ℕ
  pub base_is_token0 : Bool
  pub canonical_pair : Text

pub record DexConfig : Type 0 where
  pub name : Text
  pub network : Text
  pub ws_url : Text
  pub http_url : Text
  pub subscribe_batch : ℤ
  pub ping_interval : ℤ
  pub pool_manager : Text
  pub pools : List DexPoolConfig
  pub pools_file : Text
  pub pools_source : PoolsSource
  pub assets_source : FileSource
  pub assets_path : Text
  pub max_meta_workers : ℤ
  pub swap_only : Bool
  pub log_all_events : Bool
  pub stop_on_ack_error : Bool
  pub wanted_pairs : List Text
  pub wanted_pairs_only : Bool
  pub once : Bool

pub record ExchangeConfig : Type 0 where
  pub name : Text
  pub symbols : List Text
  pub symbols_file : Text

pub record RedisConfig : Type 0 where
  pub address : Text
  pub host : Text
  pub port : ℤ
  pub password : Text

pub record Config : Type 0 where
  pub exchange : Text
  pub exchanges : List Text
  pub symbol : Text
  pub api_key : Text
  pub secret : Text
  pub default_symbols_file : Text
  pub shared_pools : PoolsSource
  pub assets_registry : FileSource
  pub exchange_configs : List ExchangeConfig
  pub redis : RedisConfig
  pub data_channel_buffer : ℤ
  pub redis_workers : ℤ
  pub redis_pipeline_size : ℤ
  pub subscribe_batch_size : ℤ
  pub subscribe_batch_pause_ms : ℤ
  pub metrics_period_sec : ℤ
  pub bitget_subscribe_batch_size : ℤ
  pub bitget_subscribe_pause_ms : ℤ
  pub bitget_ping_interval_sec : ℤ
  pub dex_configs : List DexConfig

-- The errors of `Validate` and `LoadConfig`, without their texts.
pub data DexError : Type 0 where
  name_required : DexError
  network_required : DexError
  ws_url_required : DexError
  subscribe_batch_range : DexError
  ping_interval_range : DexError
  wanted_pairs_missing : DexError
  http_url_required : DexError
  pool_manager_required : DexError
  max_meta_workers_range : DexError
  pools_required : DexError

pub data ConfigError : Type 0 where
  unreadable : ConfigError
  malformed : ConfigError
  dex_invalid : Text → DexError → ConfigError
  assets_path_required : Text → ConfigError
  registry_required : ConfigError
