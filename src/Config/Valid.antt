-- ===== src/Config/Valid.antt =====
-- What a configuration that `LoadConfig` accepts is sure to have.
use screener_cd.Prelude.{
  ℕ, suc, ◌≤◌, ◌≡◌, ◌≢◌, refl, ◌⊎◌, inl, inr, Bool, true, false, ◌||◌, ◌&&◌, List, [], ◌∷◌,
  if◌then◌else◌, Option, arith, All, All-implies, Option-cases,
}
use screener_cd.Prelude.Int.{ℤ, pos, negsuc, ◌≤ℤ◌}
use screener_cd.Prelude.Result.{Result, ok, err, ◌>>=◌, ok_inj, >>=-eq-ok, reject-ok}
use mathlib.Core.Path.{subst}
use screener_cd.Text.{Text, eqb, eqb_iff, equal_fold, trim_space}
use screener_cd.Config.Types.{Os, DexConfig, Config, DexError, ConfigError}
use screener_cd.Config.Paths.{or_else, resolve_pools, resolve_assets_registry_path}
use screener_cd.Config.Load.{
  default_to, outside, is_empty, in_dex, is_v4, uniswap_v4, set_runtime, validate_v4, validate_dex,
  validate_each, validate, prepare, load_config,
}

abbrev pub IsBetween : ℕ → ℕ → ℤ → Type 0
IsBetween lo hi x = (pos lo ≤ℤ x) × (x ≤ℤ pos hi)

pub record IsValidV4 (os : Os) (d : DexConfig) : Type 0 where
  pub http : trim_space d.http_url ≢ []
  pub manager : trim_space d.pool_manager ≢ []
  pub workers : IsBetween 1 64 d.max_meta_workers
  pub pooled :
      (is_empty d.pools ≡ false)
      ⊎ (or_else
            (trim_space (resolve_pools os d.pools_source))
            (trim_space (os.expand_env d.pools_file))
          ≢ [])

pub record IsValidDex (os : Os) (d : DexConfig) : Type 0 where
  pub named : trim_space d.name ≢ []
  pub placed : trim_space d.network ≢ []
  pub connected : trim_space d.ws_url ≢ []
  pub batch : IsBetween 1 500 d.subscribe_batch
  pub ping : IsBetween 5 120 d.ping_interval
  pub wanted : d.wanted_pairs_only ≡ true → is_empty d.wanted_pairs ≡ false
  pub v4 : equal_fold (trim_space d.name) uniswap_v4 ≡ true → IsValidV4 os d

-- A number of the runtime settings is positive.
abbrev IsPositive : ℤ → Type 0
IsPositive x = pos 1 ≤ℤ x

pub record IsTuned (c : Config) : Type 0 where
  pub buffer : IsPositive c.data_channel_buffer
  pub workers : IsPositive c.redis_workers
  pub pipeline : IsPositive c.redis_pipeline_size
  pub batch : IsPositive c.subscribe_batch_size
  pub pause : IsPositive c.subscribe_batch_pause_ms
  pub metrics : IsPositive c.metrics_period_sec
  pub bitget_batch : IsPositive c.bitget_subscribe_batch_size
  pub bitget_pause : IsPositive c.bitget_subscribe_pause_ms
  pub bitget_ping : IsPositive c.bitget_ping_interval_sec

inside : (lo hi : ℕ) (x : ℤ) → outside lo hi x ≡ false → IsBetween lo hi x
inside lo hi x h = ground arith

filled : (s : Text) → eqb s [] ≡ false → s ≢ []
filled s h = ground (arith, eqb_iff s [])

default_to-IsPositive : (d : ℕ) (x : ℤ) → 1 ≤ d → IsPositive (default_to d x)
default_to-IsPositive d (pos n) h = ground arith
default_to-IsPositive d (negsuc n) h = omega arith

prepare-IsTuned : (os : Os) (raw : Config) → IsTuned (prepare os raw)
unfolding prepare set_runtime
prepare-IsTuned os raw = record {
  buffer = default_to-IsPositive 8192 raw.data_channel_buffer (omega arith);
  workers = default_to-IsPositive 8 raw.redis_workers (omega arith);
  pipeline = default_to-IsPositive 300 raw.redis_pipeline_size (omega arith);
  batch = default_to-IsPositive 100 raw.subscribe_batch_size (omega arith);
  pause = default_to-IsPositive 150 raw.subscribe_batch_pause_ms (omega arith);
  metrics = default_to-IsPositive 5 raw.metrics_period_sec (omega arith);
  bitget_batch = default_to-IsPositive 30 raw.bitget_subscribe_batch_size (omega arith);
  bitget_pause = default_to-IsPositive 700 raw.bitget_subscribe_pause_ms (omega arith);
  bitget_ping = default_to-IsPositive 25 raw.bitget_ping_interval_sec (omega arith);
}

-- `a && b` is false.
either : (a b : Bool) → (a && b) ≡ false → (a ≡ false) ⊎ (b ≡ false)
either a b h = ground arith

-- What `requiresV4` is after one more connector.
joined :
    (a b n : Bool)
    → ◌≡◌ {A = Result ConfigError Bool} (ok (a || b)) (ok n)
    → (a ≡ true → n ≡ true) × (b ≡ true → n ≡ true)
joined true b n h = (λ e. cc, λ e. cc)
joined false b n h = (λ e. cc, λ e. cc)

guarded : (a b : Bool) → (a && b) ≡ false → a ≡ true → b ≡ false
guarded a b h k = ground arith

when_true :
    (b : Bool) (k : Result DexError (Unit {0}))
    → (if b then k else ok tt) ≡ ok tt
    → b ≡ true
    → k ≡ ok tt
when_true true k h e = h
when_true false k h e = absurd cc

module _ (os : Os) where
  validate_v4-IsValid : (d : DexConfig) → validate_v4 os d ≡ ok tt → IsValidV4 os d
  unfolding validate_v4
  validate_v4-IsValid d h =
      let (a, h1) = reject-ok _ _ _ h in
      let (b, h2) = reject-ok _ _ _ h1 in
      let (c, h3) = reject-ok _ _ _ h2 in
      let (e, _) = reject-ok _ _ _ h3 in
      record {
        http = filled _ a;
        manager = filled _ b;
        workers = inside 1 64 d.max_meta_workers c;
        pooled = elim (either _ _ e) [
          | inl some_pools ↦ inl some_pools
          | inr some_path ↦ inr (filled _ some_path)
        ];
      }

  validate_dex-IsValid : (d : DexConfig) → validate_dex os d ≡ ok tt → IsValidDex os d
  unfolding validate_dex
  validate_dex-IsValid d h =
      let (a, h1) = reject-ok _ _ _ h in
      let (b, h2) = reject-ok _ _ _ h1 in
      let (c, h3) = reject-ok _ _ _ h2 in
      let (e, h4) = reject-ok _ _ _ h3 in
      let (f, h5) = reject-ok _ _ _ h4 in
      let (g, h6) = reject-ok _ _ _ h5 in
      record {
        named = filled _ a;
        placed = filled _ b;
        connected = filled _ c;
        batch = inside 1 500 d.subscribe_batch e;
        ping = inside 5 120 d.ping_interval f;
        wanted = guarded _ _ g;
        v4 = λ is. validate_v4-IsValid d (when_true _ _ h6 is);
      }

  checked_dex :
      (i : ℕ) (d : DexConfig) → in_dex os i d (validate_dex os d) ≡ ok tt → IsValidDex os d
  checked_dex i d h = validate_dex-IsValid d (passed i d (validate_dex os d) h)
    where
      passed :
          (i : ℕ) (d : DexConfig) (r : Result DexError (Unit {0}))
          → in_dex os i d r ≡ ok tt
          → r ≡ ok tt
      passed i d (ok tt) h = refl
      passed i d (err e) h = cc

  -- Every connector is valid, and the result tells whether one is `uniswap_v4`.
  validate_each-IsValid :
      (registry : Text) (i : ℕ) (ds : List DexConfig) (needs : Bool)
      → validate_each os registry i ds ≡ ok needs
      → All (IsValidDex os) ds × All (λ d. is_v4 os d ≡ true → needs ≡ true) ds
  unfolding validate_each
  validate_each-IsValid registry i [] needs h = (tt, tt)
  validate_each-IsValid registry i (d ∷ ds) needs h =
      let (_, good, h1) = >>=-eq-ok (in_dex os i d (validate_dex os d)) _ h in
      let (_, h2) = reject-ok _ _ _ h1 in
      let (later, h3, h4) = >>=-eq-ok (validate_each os registry (suc i) ds) _ h2 in
      let (valid, flagged) = validate_each-IsValid registry (suc i) ds later h3 in
      (
        (checked_dex i d good, valid),
        ((joined _ _ _ h4).0, All-implies _ _ ds (λ d' f v. (joined _ _ _ h4).1 (f v)) flagged),
      )

  validate-IsValid :
      (c : Config)
      → validate os c ≡ ok tt
      → All (IsValidDex os) c.dex_configs
        × All
            (λ d. is_v4 os d ≡ true → trim_space (resolve_assets_registry_path os c) ≢ [])
            c.dex_configs
  unfolding validate
  validate-IsValid c h =
      let registry = trim_space (resolve_assets_registry_path os c) in
      let (needs, h1, h2) = >>=-eq-ok (validate_each os registry 0 c.dex_configs) _ h in
      let (closed, _) = reject-ok _ _ _ h2 in
      let (valid, flagged) = validate_each-IsValid registry 0 c.dex_configs needs h1 in
      (valid, All-implies _ _ c.dex_configs (λ d f v. filled _ (guarded _ _ closed (f v))) flagged)

  -- A configuration that is fit to run with.
  abbrev pub IsReady : Config → Type 0
  IsReady c =
      IsTuned c
      × All (IsValidDex os) c.dex_configs
      × All (λ d. is_v4 os d ≡ true → trim_space (resolve_assets_registry_path os c) ≢ [])
          c.dex_configs

  prepared :
      (raw c : Config)
      → (validate os (prepare os raw) >>= λ _. ok (prepare os raw)) ≡ ok c
      → IsReady c
  prepared raw c h =
      let (_, h1, h2) = >>=-eq-ok (validate os (prepare os raw)) _ h in
      let (valid, registered) = validate-IsValid (prepare os raw) h1 in
      subst IsReady (ok_inj h2) (prepare-IsTuned os raw, valid, registered)

  -- A configuration that `LoadConfig` returns has positive runtime numbers, every connector in it
  -- is valid, and if one is `uniswap_v4` the path of the registry is not empty.
  pub load_config-IsReady :
      (read : Text → Option Text) (unmarshal : Text → Option Config) (path : Text) (c : Config)
      → load_config os read unmarshal path ≡ ok c
      → IsReady c
  unfolding load_config
  load_config-IsReady read unmarshal path c h = elim (Option-cases (read path)) [
    | inl no_file ↦ absurd (cc (rw no_file at h))
    | inr (payload, e) ↦ elim (Option-cases (unmarshal payload)) [
      | inl no_yaml ↦ absurd (cc (rw (e, no_yaml) at h))
      | inr (raw, u) ↦ prepared raw c (rw (e, u) at h)
    ]
  ]
