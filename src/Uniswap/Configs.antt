-- ===== src/Uniswap/Configs.antt =====
-- internal/dex/Etherium/Uniswap/{v4_connector,connect_uniswap_v3_all}.go: the configurations of
-- the connectors of Uniswap V3 and V4. A duration is in nanoseconds, a hash its 32 bytes as a
-- number.
use screener_cd.Prelude.{ℕ, Bool, List, Option}
use screener_cd.Prelude.Int.{ℤ}
use screener_cd.Text.{Text}
use screener_cd.Uniswap.Meta.{TokenMeta}
use screener_cd.Uniswap.Registry.{TokenRegistry}

pub record V3Config : Type 0 where
  pub exchange : Text
  pub ws_url : Text
  pub http_url : Text
  pub pools_path : Text
  pub dex_filter : Text
  pub network_filter : Text
  pub batch_size : ℤ
  pub ping_interval : ℤ
  pub stop_on_ack_error : Bool
  pub log_all_events : Bool
  pub decode_swap_only : Bool
  pub max_meta_workers : ℤ
  pub registry : Option TokenRegistry

pub record V4PoolConfig : Type 0 where
  pub pool_id : ℕ
  pub pool_address : ℕ
  pub hook_address : ℕ
  pub pair_name : Text
  pub token0 : TokenMeta
  pub token1 : TokenMeta
  pub base_is_token0 : Bool
  pub canonical_pair : Text

pub record V4Config : Type 0 where
  pub exchange : Text
  pub network : Text
  pub ws_url : Text
  pub http_url : Text
  pub pool_manager : ℕ
  pub pools_path : Text
  pub pools : List V4PoolConfig
  pub subscribe_batch : ℤ
  pub ping_interval : ℤ
  pub max_meta_workers : ℤ
  pub swap_only : Bool
  pub log_all_events : Bool
  pub stop_on_ack_error : Bool
  pub once : Bool
  pub wanted_pairs : List Text
  pub wanted_pairs_only : Bool
  pub registry : Option TokenRegistry
