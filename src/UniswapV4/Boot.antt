-- ===== src/UniswapV4/Boot.antt =====
-- internal/dex/Etherium/Uniswap/v4_connector.go: `loadPoolsFromFile` and `bootstrapPools`. `read`
-- stands for os.ReadFile and `unmarshal` for json.Unmarshal.
use screener_cd.Prelude.{
  ℕ, false, ◌&&◌, List, [], ◌∷◌, Option, none, some, ◌==◌ as eq_ℕ, if◌then◌else◌, length,
}
use screener_cd.Prelude.Dict.{insert, nat_eq}
use screener_cd.Prelude.Int.{pos}
use screener_cd.Prelude.Result.{Result, ok, err, ◌>>=◌, ◌>>◌, reject}
use screener_cd.Text.{Text, codes, trim_space}
use screener_cd.Float.{f_zero}
use screener_cd.Eth.{EthCommon}
use screener_cd.Config.Paths.{or_else}
use screener_cd.Uniswap.Gecko.{is_seen}
use screener_cd.Uniswap.Configs.{V4Config, V4PoolConfig}
use screener_cd.Uniswap.Amounts.{BigFloat}
use screener_cd.Uniswap.Connector.{Pricer}
use screener_cd.UniswapV4.State.{V4PoolState, V4Connector}
use screener_cd.UniswapV4.Swap.{register_token_v4}
use screener_cd.UniswapV4.Pools.{
  GeckoEntry, BootError, wanted_pairs_empty, read_failed, decode_failed, no_pools, wanted_keys,
  prepare_inline, pools_of_entries,
}

-- `&v4PoolState{meta: metaCopy}`
unfoldable pub new_state : V4PoolConfig → V4PoolState
new_state pool = record {
  meta = pool;
  registered = false;
  last_price = none;
  last_price1_per0 = none;
  last_price0_per1 = none;
  last_float1_per0 = f_zero;
  last_float0_per1 = f_zero;
  last_weight = f_zero;
  last_amount0 = none;
  last_amount1 = none;
  last_liquidity = none;
  last_tick = pos 0;
  last_fee = none;
  once_emitted = false;
  last_update = 0;
}

module _ (e : EthCommon) (hash : Text → ℕ) (cfg : V4Config) where
  abbrev pub unmarshalled :
      List Text → Option (List GeckoEntry) → Result BootError (List V4PoolConfig)
  unmarshalled wanted none = err decode_failed
  unmarshalled wanted (some entries) = ok (
      pools_of_entries e hash cfg.registry (trim_space cfg.network) cfg.wanted_pairs_only wanted
        entries)

  abbrev pub read_with :
      (Text → Option (List GeckoEntry))
      → List Text
      → Option Text
      → Result BootError (List V4PoolConfig)
  read_with unmarshal wanted none = err read_failed
  read_with unmarshal wanted (some text) = unmarshalled wanted (unmarshal text)

  unfoldable pub load_pools_from_file :
      (Text → Option Text)
      → (Text → Option (List GeckoEntry))
      → List Text
      → Result BootError (List V4PoolConfig)
  load_pools_from_file read unmarshal wanted =
      let path =
        or_else (trim_space cfg.pools_path) (codes "ticker_source/geckoterminal_pools.json") in
      read_with unmarshal wanted (read path)

  -- The inline pools, or those of the file where no inline pool is left.
  unfoldable pub prepared :
      (Text → Option Text)
      → (Text → Option (List GeckoEntry))
      → List Text
      → Result BootError (List V4PoolConfig)
  prepared read unmarshal wanted =
      prepare_inline e hash cfg.registry cfg.wanted_pairs_only wanted cfg.pools >>= λ inline.
      if eq_ℕ (length inline) 0 then load_pools_from_file read unmarshal wanted else ok inline

module _ {P : Type 0} (e : EthCommon) (b : BigFloat) (pricer : Pricer P) (name : Text) where
  -- The last loop: a state for each pool, its tokens registered, and no identifier twice.
  unfoldable pub install : List V4PoolConfig → List ℕ → V4Connector P → V4Connector P
  install [] seen c = c
  install (pool ∷ pools) seen c =
      let reg =
        register_token_v4 e b pricer name pool.token1
          (register_token_v4 e b pricer name pool.token0 (c.registered, c.pricer)) in
      let skipped = install pools seen c in
      let taken = install pools (pool.pool_id ∷ seen) (record c {
        pools = insert pool.pool_id (new_state pool) c.pools;
        registered = reg.0;
        pricer = reg.1;
      }) in
      if is_seen pool.pool_id seen then skipped else taken

  unfoldable pub bootstrap_pools :
      (Text → ℕ)
      → (Text → Option Text)
      → (Text → Option (List GeckoEntry))
      → V4Config
      → V4Connector P
      → Result BootError (V4Connector P)
  bootstrap_pools hash read unmarshal cfg c =
      let wanted = wanted_keys cfg.wanted_pairs in
      reject (cfg.wanted_pairs_only && eq_ℕ (length wanted) 0) wanted_pairs_empty
      >> (prepared e hash cfg read unmarshal wanted >>= λ pools.
          reject (eq_ℕ (length pools) 0) no_pools
          >> ok (install pools [] (record c { pools = [] })))
