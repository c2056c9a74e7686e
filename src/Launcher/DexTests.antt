-- ===== src/Launcher/DexTests.antt =====
-- The theorems on the configurations of the DEX connectors at concrete settings.
use screener_cd.Prelude.{
  ◌≡◌, refl, true, false, List, [], ◌∷◌, ◌++◌, none, some, length, map, arith,
}
use screener_cd.Prelude.Int.{pos}
use screener_cd.Prelude.Result.{ok}
use screener_cd.Text.{Text, codes, eqb, trim_space, is_space, has_prefix}
use screener_cd.Samples.{sample_eth}
use screener_cd.Config.Types.{Os, DexConfig, PoolsSource}
use screener_cd.Uniswap.Registry.{new_token_registry}
use screener_cd.Uniswap.Meta.{finalize_pool}
use screener_cd.Uniswap.Gecko.{load_pools, load_entries}
use screener_cd.Uniswap.Session.{Config}
use screener_cd.Uniswap.Configs.{V4Config}
use screener_cd.Launcher.Wanted.{merge_wanted_pairs, merge_wanted_pairs-IsMerged, IsMerged}
use screener_cd.Launcher.Dex.{
  build_uniswap_v2_config, build_uniswap_v4_config, convert_dex_pools, positive_or, seconds,
}
use screener_cd.Launcher.Built.{
  IsReadyV2, IsReadyV4, build_uniswap_v2_config-IsReadyV2, build_uniswap_v4_config-IsReadyV4,
}

abbrev two_pairs : List Text
two_pairs = codes "WETH/USDC" ∷ codes " abc/usdt" ∷ []

abbrev same_pair : List Text
same_pair = codes "ABC/USDT" ∷ [] ∷ []

merge_wanted_pairs-IsMerged_example :
    IsMerged (two_pairs ++ same_pair) [] (merge_wanted_pairs two_pairs same_pair)
merge_wanted_pairs-IsMerged_example = merge_wanted_pairs-IsMerged two_pairs same_pair

abbrev plain_os : Os
plain_os = record { getenv = λ t. []; expand_env = λ t. t; itoa = λ n. [] }

abbrev source : PoolsSource
source = record {
  file = codes "pools.json";
  env = [];
  gecko_dex = [];
  gecko_network = [];
  include_stable = false;
  wanted_pairs = same_pair;
}

abbrev dex : DexConfig
dex = record {
  name = codes "uni";
  network = codes "ethereum";
  ws_url = codes "wss://node";
  http_url = codes "https://node";
  subscribe_batch = pos 0;
  ping_interval = pos 20;
  pool_manager = codes "0x111";
  pools = [];
  pools_file = [];
  pools_source = source;
  assets_source = record { file = []; env = [] };
  assets_path = [];
  max_meta_workers = pos 0;
  swap_only = true;
  log_all_events = false;
  stop_on_ack_error = false;
  wanted_pairs = two_pairs;
  wanted_pairs_only = true;
  once = false;
}

abbrev v2 : Config
v2 = record {
  ws_url = codes "wss://node";
  http_url = codes "https://node";
  exchange = codes "uni";
  pools =
      map finalize_pool
        (load_entries sample_eth (new_token_registry sample_eth none (codes "ethereum")) [] []);
  subscribe_batch_size = positive_or 150 (pos 0);
  ping_interval = seconds (positive_or 25 (pos 20));
}

v2-built :
    build_uniswap_v2_config plain_os sample_eth (λ path. some []) (λ text. some []) dex [] none
    ≡ ok v2
unfolding build_uniswap_v2_config load_pools eqb
v2-built = refl

build_uniswap_v2_config-IsReadyV2_example : IsReadyV2 v2
build_uniswap_v2_config-IsReadyV2_example =
    build_uniswap_v2_config-IsReadyV2 plain_os sample_eth (λ path. some []) (λ text. some []) dex []
      none v2 (omega arith) v2-built

v4-builds :
    (cfg : V4Config) × (build_uniswap_v4_config sample_eth length plain_os dex [] none ≡ ok cfg)
unfolding build_uniswap_v4_config convert_dex_pools eqb trim_space is_space has_prefix
v4-builds = (_, refl)

build_uniswap_v4_config-IsReadyV4_example : IsReadyV4 length dex v4-builds.0
build_uniswap_v4_config-IsReadyV4_example =
    build_uniswap_v4_config-IsReadyV4 sample_eth length plain_os dex [] none v4-builds.0 v4-builds.1
