-- ===== src/Uniswap/Tests.antt =====
-- The theorems on the Uniswap V2 connector at concrete inputs.
use screener_cd.Prelude.{◌≡◌, ◌≢◌, refl, true, false, List, [], ◌∷◌, ◌++◌, none, some, arith}
use screener_cd.Prelude.Dict.{nat_eq}
use screener_cd.Prelude.Int.{pos}
use screener_cd.Prelude.Result.{ok}
use screener_cd.Text.{Text, codes}
use screener_cd.Text.Hex.{limit}
use screener_cd.Samples.{sample_eth, sample_eth-IsLawful}
use screener_cd.Uniswap.Meta.{TokenMeta, PoolConfig}
use screener_cd.Uniswap.Registry.{new_token_registry, is_empty_map, weth_meta}
use screener_cd.Uniswap.Exclusive.{new_token_registry-known}
use screener_cd.Uniswap.Gecko.{GeckoPool, load_pools, load_entries}
use screener_cd.Uniswap.Pools.{IsPoolList, load_pools-IsPoolList}
use screener_cd.Uniswap.Price.{Rat, compute_snapshot, snapshot_of}
use screener_cd.Uniswap.RoundTrip.{sync_data, compute_snapshot-sync_data}
use screener_cd.Uniswap.Drop.{passed, last_kept, IsSpaced, IsNear, should_drop-IsSpaced}
use screener_cd.Uniswap.Session.{subscribe_all, batch_size}
use screener_cd.Uniswap.Batches.{IsCovering, subscribe_all-IsCovering}

new_token_registry-known_example :
    (is_empty_map (new_token_registry sample_eth none []).stable_by_symbol ≡ false)
    × (weth_meta (new_token_registry sample_eth none []) ≢ none)
new_token_registry-known_example = new_token_registry-known sample_eth none [] sample_eth-IsLawful

-- One entry of a file: a token in USDC.
abbrev entry : GeckoPool
entry = record {
  dex = codes "Uniswap_V2";
  network = codes "eth";
  pair_name = codes "ABC / USDC";
  pool_id = codes "0x111";
  pool_address = [];
  token0 = record { address = codes "0x11"; symbol = codes "ABC"; decimals = pos 18 };
  token1 = record {
    address = codes "0xA0b86991c6218b36c1d19D4a2e9Eb0cE3606eB48";
    symbol = codes "USDC";
    decimals = pos 6;
  };
}

abbrev loaded : List PoolConfig
loaded = load_entries sample_eth (new_token_registry sample_eth none []) (entry ∷ []) []

load_pools-loaded :
    load_pools sample_eth
      (λ path. some [])
      (λ text. some (entry ∷ []))
      (codes "pools.json")
      (some (new_token_registry sample_eth none []))
    ≡ ok loaded
unfolding load_pools
load_pools-loaded = refl

load_pools-IsPoolList_example : IsPoolList [] loaded
load_pools-IsPoolList_example =
    load_pools-IsPoolList sample_eth (λ path. some []) (λ text. some (entry ∷ []))
      (codes "pools.json") none [] loaded load_pools-loaded

-- A pool of a token with 18 decimals and of a stable coin with 6.
abbrev pub abc_meta : TokenMeta
abc_meta = record {
  address = 1;
  symbol = codes "ABC";
  decimals = 18;
  is_stable = false;
  is_weth = false;
}

abbrev pub usdc_meta : TokenMeta
usdc_meta = record {
  address = 2;
  symbol = codes "USDC";
  decimals = 6;
  is_stable = true;
  is_weth = false;
}

abbrev pub pool : PoolConfig
pool = record {
  address = 7;
  pair_name = codes "ABC / USDC";
  token0 = abc_meta;
  token1 = usdc_meta;
  base_is_token0 = true;
  canonical_pair = codes "ABCUSDC";
  has_stable = true;
  has_weth = false;
  stable_symbol = codes "USDC";
}

compute_snapshot-sync_data_example :
    compute_snapshot pool (sync_data 5000 7000) ≡ ok (snapshot_of pool 5000 7000)
unfolding limit
compute_snapshot-sync_data_example =
    compute_snapshot-sync_data pool 5000 7000 (omega arith) (omega arith)

abbrev some_prices : List Rat
some_prices =
    record { num = 100000; den = 1 }
    ∷ record { num = 100001; den = 1 }
    ∷ record { num = 2; den = 3 }
    ∷ []

abbrev last_price : Rat
last_price = record { num = 4; den = 6 }

should_drop-IsSpaced_example :
    IsSpaced none (passed none (some_prices ++ last_price ∷ []))
    × ((q : Rat) × (last_kept none (some_prices ++ last_price ∷ []) ≡ some q) × IsNear last_price q)
should_drop-IsSpaced_example = should_drop-IsSpaced some_prices last_price

abbrev three_addresses : List Text
three_addresses = codes "0x1" ∷ codes "0x2" ∷ codes "0x3" ∷ []

subscribe_all-IsCovering_example :
    IsCovering
      (λ id. true)
      (batch_size (pos 2))
      1
      three_addresses
      (subscribe_all (λ id. true) (pos 2) three_addresses)
subscribe_all-IsCovering_example = subscribe_all-IsCovering (λ id. true) (pos 2) three_addresses
