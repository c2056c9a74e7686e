-- ===== src/Config/Paths.antt =====
-- internal/config/config.go: which file a setting names, by the order of its sources.
use screener_cd.Prelude.{◌||◌, ◌++◌, List, [], ◌∷◌, if◌then◌else◌}
use screener_cd.Prelude.Int.{is_zero_ℤ}
use screener_cd.Text.{Text, codes, eqb, trim_space}
use screener_cd.Config.Types.{Os, FileSource, PoolsSource, DexConfig, RedisConfig, Config}

-- `if a != "" { return a }; return b`
abbrev pub or_else : Text → Text → Text
or_else a b = if eqb a [] then b else a

module _ (os : Os) where
  -- os.Getenv of a name that is set in the settings, trimmed.
  abbrev from_env : Text → Text
  from_env env = if eqb env [] then [] else trim_space (os.getenv env)

  unfoldable pub resolve : FileSource → Text
  resolve fs =
      or_else (from_env (trim_space fs.env))
        (if eqb fs.file [] then [] else trim_space (os.expand_env fs.file))

  unfoldable pub resolve_pools : PoolsSource → Text
  resolve_pools ps = resolve (record { file = ps.file; env = ps.env })

  unfoldable pub resolve_pools_path : DexConfig → Text → Text
  resolve_pools_path d shared =
      or_else (trim_space (resolve_pools d.pools_source))
        (or_else (trim_space (os.expand_env d.pools_file)) (trim_space shared))

  unfoldable pub resolve_assets_path : DexConfig → Text → Text
  resolve_assets_path d shared = or_else (trim_space (resolve d.assets_source)) (trim_space shared)

  unfoldable pub resolve_assets_registry_path : Config → Text
  resolve_assets_registry_path c = trim_space (resolve c.assets_registry)

  -- The loop of `ResolveSharedPoolsPath` over the connectors.
  unfoldable pub first_dex_path : List DexConfig → Text
  first_dex_path [] = []
  first_dex_path (d ∷ ds) =
      or_else (trim_space (resolve_pools d.pools_source))
        (or_else (trim_space (os.expand_env d.pools_file)) (first_dex_path ds))

  unfoldable pub resolve_shared_pools_path : Config → Text
  resolve_shared_pools_path c =
      or_else (trim_space (resolve_pools c.shared_pools))
        (or_else (trim_space (os.expand_env c.default_symbols_file)) (first_dex_path c.dex_configs))

  unfoldable pub redis_address : RedisConfig → Text
  redis_address r =
      if eqb r.address []
      then (if eqb r.host [] || is_zero_ℤ r.port
          then codes "localhost:6379"
          else r.host ++ (b':' ∷ os.itoa r.port))
      else r.address
