-- ===== src/Launcher/Built.antt =====
-- What the launcher's configurations of the DEX connectors are sure to be.
use mathlib.Core.Path.{subst}
use screener_cd.Prelude.{
  ℕ, zero, suc, ◌*◌, ◌^◌, ◌<◌, ◌≡◌, ◌≢◌, refl, sym, ap, inl, inr, Bool, true, false, not, ◌||◌,
  List, [], ◌∷◌, ◌++◌, map, Option, some, arith, length, ◌==◌, Bool-cases,
}
use screener_cd.Prelude.Int.{ℤ, pos, negsuc, pos_part, int64-pos, ◌*ℤ◌}
use screener_cd.Prelude.Result.{ok, >>=-eq-ok, reject-ok, ok_inj, Result-cases}
use screener_cd.Text.{Text, codes, eqb, eqb_iff, to_lower, trim_space, has_prefix}
use screener_cd.Eth.{EthCommon}
use screener_cd.Config.Types.{Os, DexConfig, DexPoolConfig}
use screener_cd.Config.Paths.{resolve_pools_path, or_else}
use screener_cd.Assets.Provider.{Provider}
use screener_cd.Uniswap.Meta.{PoolConfig, finalize_pool}
use screener_cd.Uniswap.Registry.{TokenRegistry, new_token_registry}
use screener_cd.Uniswap.Gecko.{GeckoPool, load_pools}
use screener_cd.Uniswap.Pools.{IsPoolList, load_pools-IsPoolList}
use screener_cd.Uniswap.Markets.{finalize_pool-market_of, finalize_pool-IsQuoted}
use screener_cd.Uniswap.Ordered.{replace-IsPoolList}
use screener_cd.Uniswap.Session.{Config, second}
use screener_cd.Uniswap.Configs.{V4Config, V4PoolConfig}
use screener_cd.Launcher.Wanted.{IsMerged, merge_wanted_pairs-IsMerged}
use screener_cd.Launcher.Dex.{
  positive_or, seconds, build_uniswap_v2_config, build_uniswap_v4_config, convert_dex_pools,
  convert_pool, build_token_meta, missing_pool_id, invalid_pool_id, ws_url_empty,
  invalid_pool_manager,
}

finalized-IsPoolList :
    (ps : List PoolConfig) (seen : List ℕ)
    → IsPoolList seen ps
    → IsPoolList seen (map finalize_pool ps)
finalized-IsPoolList [] seen h = h
finalized-IsPoolList (p ∷ ps) seen h =
    replace-IsPoolList p (finalize_pool p) ps (map finalize_pool ps) seen
      (finalize_pool-market_of p, λ q. finalize_pool-IsQuoted p p q refl refl) h
      (finalized-IsPoolList ps (p.address ∷ seen))

abbrev pub IsPositive : ℤ → Type 0
IsPositive n = 0 < pos_part n

positive_or-IsPositive : (d : ℕ) (n : ℤ) → 0 < d → IsPositive (positive_or d n)
unfolding positive_or
positive_or-IsPositive d (pos zero) h = h
positive_or-IsPositive d (pos (suc n)) h = omega arith
positive_or-IsPositive d (negsuc n) h = h

-- Of a positive number that fits the product fits, if the number is small enough.
seconds-IsPositive : (n : ℤ) → IsPositive n → pos_part n * second < 2 ^ 63 → IsPositive (seconds n)
unfolding seconds ◌*ℤ◌
seconds-IsPositive (pos n) h small =
    let product : pos n *ℤ pos second ≡ pos (n * second) = ground arith in
    rw (product, int64-pos (n * second) small) (omega arith)
seconds-IsPositive (negsuc n) h small = absurd (omega arith)

positive_or-small :
    (n : ℤ) → pos_part n * second < 2 ^ 63 → pos_part (positive_or 25 n) * second < 2 ^ 63
unfolding positive_or
positive_or-small (pos zero) h = omega arith
positive_or-small (pos (suc n)) h = h
positive_or-small (negsuc n) h = omega arith

filled : (t : Text) → eqb t [] ≡ false → t ≢ []
filled t h nil = cc ((eqb_iff t []).1 nil, h)

-- A configuration of V2 that can run: both addresses, positive numbers, and pools as they load.
pub record IsReadyV2 (cfg : Config) : Type 0 where
  pub ws : cfg.ws_url ≢ []
  pub http : cfg.http_url ≢ []
  pub batch : IsPositive cfg.subscribe_batch_size
  pub ping : IsPositive cfg.ping_interval
  pub listed : IsPoolList [] cfg.pools

-- If the seconds of the ping interval fit in an int64 of nanoseconds, a configuration that
-- buildUniswapV2Config returns has the addresses of an endpoint and of a node, a positive batch and
-- ping interval, and pools with different addresses, each priced in a stable coin, or in WETH where
-- neither of its tokens is one.
pub build_uniswap_v2_config-IsReadyV2 :
    (os : Os) (e : EthCommon) (read : Text → Option Text)
    (unmarshal : Text → Option (List GeckoPool)) (dex : DexConfig) (shared : Text)
    (provider : Option Provider) (cfg : Config)
    → pos_part dex.ping_interval * second < 2 ^ 63
    → build_uniswap_v2_config os e read unmarshal dex shared provider ≡ ok cfg
    → IsReadyV2 cfg
unfolding build_uniswap_v2_config
build_uniswap_v2_config-IsReadyV2 os e read unmarshal dex shared provider cfg small h =
    let path = resolve_pools_path os dex shared in
    elim (Bool-cases (eqb dex.ws_url [])) [
      | inl no_ws ↦ absurd (cc (rw no_ws at h))
      | inr ws ↦ elim (Bool-cases (eqb dex.http_url [])) [
        | inl no_http ↦ absurd (cc (rw (ws, no_http) at h))
        | inr http ↦
            elim (Result-cases (
              load_pools e read unmarshal path
                (some (new_token_registry e provider dex.network)))) [
                  | inl (ps, loaded) ↦
                      subst IsReadyV2 (ok_inj (rw (ws, http, loaded) at h)) (record {
                        ws = filled dex.ws_url ws;
                        http = filled dex.http_url http;
                        batch = positive_or-IsPositive 150 dex.subscribe_batch (omega arith);
                        ping =
                            seconds-IsPositive _
                              (positive_or-IsPositive 25 dex.ping_interval (omega arith))
                              (positive_or-small dex.ping_interval small);
                        listed = finalized-IsPoolList ps [] (
                            load_pools-IsPoolList e read unmarshal path provider dex.network ps
                              loaded);
                      })
                  | inr (x, failed) ↦ absurd (cc (rw (ws, http, failed) at h))
                ]
      ]
    ]

module _ (e : EthCommon) (hash : Text → ℕ) (r : TokenRegistry) where
  -- The identifier of a pool is that of its entry.
  convert_pool-id :
      (entry : DexPoolConfig) (p : V4PoolConfig)
      → convert_pool e hash r entry ≡ ok p
      → p.pool_id ≡ hash (trim_space entry.address)
  unfolding convert_pool
  convert_pool-id entry p h =
      let id = trim_space entry.address in
      let token0 =
        build_token_meta e hash r entry.token0_address entry.token0_symbol entry.token0_decimals in
      let token1 =
        build_token_meta e hash r entry.token1_address entry.token1_symbol entry.token1_decimals in
      let malformed = not (length id == 66) || not (has_prefix (to_lower id) (codes "0x")) in
      let (_, h1) = reject-ok (eqb id []) missing_pool_id _ h in
      let (_, h2) = reject-ok malformed invalid_pool_id _ h1 in
      let (t0, _, h3) = >>=-eq-ok token0 _ h2 in
      let (t1, _, h4) = >>=-eq-ok token1 _ h3 in
      sym (ap (λ (q : V4PoolConfig). q.pool_id) (ok_inj h4))

  convert_dex_pools-ids :
      (entries : List DexPoolConfig) (ps : List V4PoolConfig)
      → convert_dex_pools e hash r entries ≡ ok ps
      → map (λ (p : V4PoolConfig). p.pool_id) ps
        ≡ map (λ (d : DexPoolConfig). hash (trim_space d.address)) entries
  unfolding convert_dex_pools
  convert_dex_pools-ids [] ps h = rw⁻¹ (ok_inj h) refl
  convert_dex_pools-ids (entry ∷ entries) ps h =
      let (p, made, h1) = >>=-eq-ok (convert_pool e hash r entry) _ h in
      let (qs, more, h2) = >>=-eq-ok (convert_dex_pools e hash r entries) _ h1 in
      rw⁻¹ (ok_inj h2)
        (rw (convert_pool-id entry p made, convert_dex_pools-ids entries qs more) refl)

-- A configuration of V4 that can run, for the pools of its settings.
pub record IsReadyV4 (hash : Text → ℕ) (dex : DexConfig) (cfg : V4Config) : Type 0 where
  pub named : cfg.exchange ≢ []
  pub ws : cfg.ws_url ≢ []
  pub http : cfg.http_url ≢ []
  pub batch : IsPositive cfg.subscribe_batch
  pub ping : IsPositive cfg.ping_interval
  pub workers : IsPositive cfg.max_meta_workers
  pub ids :
      map (λ (p : V4PoolConfig). p.pool_id) cfg.pools
      ≡ map (λ (d : DexPoolConfig). hash (trim_space d.address)) dex.pools
  pub wanted : IsMerged (dex.wanted_pairs ++ dex.pools_source.wanted_pairs) [] cfg.wanted_pairs

or_else-filled : (a b : Text) → b ≢ [] → or_else a b ≢ []
or_else-filled a b h = elim (Bool-cases (eqb a [])) [
  | inl empty ↦ rw empty h
  | inr some_text ↦ rw some_text (filled a some_text)
]

or_parts : (a b : Bool) → (a || b) ≡ false → (a ≡ false) × (b ≡ false)
or_parts true b h = cc
or_parts false b h = (refl, h)

-- A configuration that buildUniswapV4Config returns has a name, the addresses of an endpoint and
-- of a node, a positive batch, ping interval and number of workers, a pool for each one of the
-- settings, in order and under its identifier, and the merged wanted pairs.
pub build_uniswap_v4_config-IsReadyV4 :
    (e : EthCommon) (hash : Text → ℕ) (os : Os) (dex : DexConfig) (shared : Text)
    (provider : Option Provider) (cfg : V4Config)
    → build_uniswap_v4_config e hash os dex shared provider ≡ ok cfg
    → IsReadyV4 hash dex cfg
unfolding build_uniswap_v4_config
build_uniswap_v4_config-IsReadyV4 e hash os dex shared provider cfg h =
    let (urls, h1) =
      reject-ok (eqb (trim_space dex.ws_url) [] || eqb (trim_space dex.http_url) []) ws_url_empty _
        h in
    let (_, h2) =
      reject-ok (not (e.is_hex_address (trim_space dex.pool_manager))) invalid_pool_manager _ h1 in
    let (ps, made, h3) =
      >>=-eq-ok (convert_dex_pools e hash (new_token_registry e provider dex.network) dex.pools) _
        h2 in
    let (no_ws, no_http) = or_parts _ _ urls in
    subst (IsReadyV4 hash dex) (ok_inj h3) (record {
      named = or_else-filled _ (codes "uniswap_v4") (λ nil. cc);
      ws = filled (trim_space dex.ws_url) no_ws;
      http = filled (trim_space dex.http_url) no_http;
      batch = positive_or-IsPositive 150 dex.subscribe_batch (omega arith);
      ping = positive_or-IsPositive (25 * second) (seconds dex.ping_interval) (omega arith);
      workers = positive_or-IsPositive 4 dex.max_meta_workers (omega arith);
      ids = convert_dex_pools-ids e hash _ dex.pools ps made;
      wanted = merge_wanted_pairs-IsMerged dex.wanted_pairs dex.pools_source.wanted_pairs;
    })
