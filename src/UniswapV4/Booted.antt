-- ===== src/UniswapV4/Booted.antt =====
-- What the loading of the pools leaves in the connector.
use mathlib.Core.Path.{subst, subst⁻¹}
use screener_cd.Prelude.{
  ℕ, ◌≡◌, ◌≢◌, refl, inl, inr, false, ◌&&◌, List, [], ◌∷◌, Option, arith, length, ◌==◌ as eq_ℕ,
  Bool-cases, List-cases, All, if_intro,
}
use screener_cd.Prelude.Dict.{insert, nat_eq}
use screener_cd.Prelude.Result.{ok, >>=-eq-ok, reject-ok, ok_inj}
use screener_cd.Text.{Text}
use screener_cd.Eth.{EthCommon}
use screener_cd.Uniswap.Gecko.{is_seen}
use screener_cd.Uniswap.Configs.{V4Config, V4PoolConfig}
use screener_cd.Uniswap.Amounts.{BigFloat}
use screener_cd.Uniswap.Connector.{Pricer, Json}
use screener_cd.Uniswap.Published.{KeptBy}
use screener_cd.UniswapV4.State.{V4PoolState, V4Connector}
use screener_cd.UniswapV4.Safe.{register_token_v4-kept}
use screener_cd.UniswapV4.Pools.{GeckoEntry, wanted_pairs_empty, no_pools, wanted_keys}
use screener_cd.UniswapV4.Boot.{new_state, prepared, install, bootstrap_pools}

-- A pool stands under its own identifier and has not been published.
abbrev pub IsKeyed : ℕ × V4PoolState → Type 0
IsKeyed x = (x.0 ≡ x.1.meta.pool_id) × (x.1.once_emitted ≡ false)

insert-IsKeyed :
    (pool : V4PoolConfig) (ps : List (ℕ × V4PoolState))
    → All IsKeyed ps
    → All IsKeyed (insert pool.pool_id (new_state pool) ps)
unfolding insert new_state
insert-IsKeyed pool [] h = ((refl, refl), tt)
insert-IsKeyed pool ((id, p) ∷ ps) (hp, h) = elim (Bool-cases (eq_ℕ id pool.pool_id)) [
  | inl same ↦ rw same ((ground arith, refl), h)
  | inr other ↦ rw other (hp, insert-IsKeyed pool ps h)
]

insert-ne-nil : (k : ℕ) (v : V4PoolState) (ps : List (ℕ × V4PoolState)) → insert k v ps ≢ []
unfolding insert
insert-ne-nil k v [] h = cc
insert-ne-nil k v ((id, p) ∷ ps) h = elim (Bool-cases (eq_ℕ id k)) [
  | inl same ↦ cc (rw same at h)
  | inr other ↦ cc (rw other at h)
]

module _ {P : Type 0} (e : EthCommon) (b : BigFloat) (json : Json) (pricer : Pricer P) (name : Text)
    (I : P → Type 0) (kept : KeptBy P pricer I) where
  -- The pools are keyed, and what was sent and what holds of the pricer stays.
  pub record IsBooted (before c : V4Connector P) : Type 0 where
    pub keyed : All IsKeyed c.pools
    pub held : I c.pricer
    pub quiet : c.out ≡ before.out

  install-IsBooted :
      (pools : List V4PoolConfig) (seen : List ℕ) (before c : V4Connector P)
      → IsBooted before c
      → IsBooted before (install e b pricer name pools seen c)
  unfolding install
  install-IsBooted [] seen before c h = h
  install-IsBooted (pool ∷ pools) seen before c h =
      if_intro (IsBooted before) (is_seen pool.pool_id seen) _ _
        (λ _. install-IsBooted pools seen before c h)
        (λ _. install-IsBooted pools (pool.pool_id ∷ seen) before _ (record {
          keyed = insert-IsKeyed pool c.pools h.keyed;
          held = register_token_v4-kept e b json pricer name I kept pool.token1 _ (
              register_token_v4-kept e b json pricer name I kept pool.token0
                (c.registered, c.pricer) h.held);
          quiet = h.quiet;
        }))

  -- A connector with a pool keeps one.
  install-filled :
      (pools : List V4PoolConfig) (seen : List ℕ) (c : V4Connector P)
      → c.pools ≢ []
      → (install e b pricer name pools seen c).pools ≢ []
  unfolding install
  install-filled [] seen c h = h
  install-filled (pool ∷ pools) seen c h = elim (Bool-cases (is_seen pool.pool_id seen)) [
    | inl again ↦ rw again (install-filled pools seen c h)
    | inr new ↦
        rw new (install-filled pools (pool.pool_id ∷ seen) _ (insert-ne-nil pool.pool_id _ c.pools))
  ]

  install-first :
      (pool : V4PoolConfig) (pools : List V4PoolConfig) (c : V4Connector P)
      → (install e b pricer name (pool ∷ pools) [] c).pools ≢ []
  unfolding install is_seen
  install-first pool pools c =
      install-filled pools (pool.pool_id ∷ []) _ (insert-ne-nil pool.pool_id _ c.pools)

  -- If `bootstrapPools` ends without an error, there is a pool; each pool stands under its own
  -- identifier and is not marked as published; nothing has been sent; and what every operation of
  -- the pricer keeps holds of it if it held before.
  pub bootstrap_pools-IsBooted :
      (hash : Text → ℕ) (read : Text → Option Text) (unmarshal : Text → Option (List GeckoEntry))
      (cfg : V4Config) (c c' : V4Connector P)
      → I c.pricer
      → bootstrap_pools e b pricer name hash read unmarshal cfg c ≡ ok c'
      → (c'.pools ≢ []) × IsBooted c c'
  unfolding bootstrap_pools
  bootstrap_pools-IsBooted hash read unmarshal cfg c c' held h =
      let wanted = wanted_keys cfg.wanted_pairs in
      let (_, h1) =
        reject-ok (cfg.wanted_pairs_only && eq_ℕ (length wanted) 0) wanted_pairs_empty _ h in
      let (pools, _, h2) = >>=-eq-ok (prepared e hash cfg read unmarshal wanted) _ h1 in
      let (some_pool, h3) = reject-ok (eq_ℕ (length pools) 0) no_pools _ h2 in
      let start : V4Connector P = record c { pools = [] } in
      let booted =
        install-IsBooted pools [] c start (record { keyed = tt; held = held; quiet = refl }) in
      elim (List-cases pools) [
        | inl none_left ↦ absurd (cc (rw none_left at some_pool))
        | inr (pool, rest, filled) ↦
            subst (λ x. (x.pools ≢ []) × IsBooted c x) (ok_inj h3)
              (
                subst⁻¹ (λ ps. (install e b pricer name ps [] start).pools ≢ []) filled
                    (install-first pool rest start),
                booted,
              )
      ]
