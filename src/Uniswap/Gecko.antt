-- ===== src/Uniswap/Gecko.antt =====
-- internal/dex/Etherium/Uniswap/v2_connector.go: the pools of a GeckoTerminal file, and the three
-- reference pools of WETH that are added to them. `read` stands for os.ReadFile, `unmarshal` for
-- json.Unmarshal, `unquote` and `json_int` for it on a string and on a number, `atoi` for
-- strconv.Atoi.
use screener_cd.Prelude.{
  ℕ, Bool, true, false, not, ◌||◌, ◌&&◌, List, [], ◌∷◌, Option, none, some, ◌==◌ as eq_ℕ,
  if◌then◌else◌,
}
use screener_cd.Prelude.Int.{ℤ, pos}
use screener_cd.Prelude.Result.{Result, ok, err}
use screener_cd.Text.{Text, codes, contains, eqb, equal_fold, to_lower, to_upper, trim_space}
use screener_cd.Eth.{EthCommon}
use screener_cd.Uniswap.Meta.{TokenMeta, PoolConfig, finalize_pool, short_address}
use screener_cd.Uniswap.Registry.{
  TokenRegistry, new_token_registry, resolve, stable_by_symbol, weth_meta,
}

pub record GeckoToken : Type 0 where
  pub address : Text
  pub symbol : Text
  pub decimals : ℤ

pub record GeckoPool : Type 0 where
  pub dex : Text
  pub network : Text
  pub pair_name : Text
  pub pool_id : Text
  pub pool_address : Text
  pub token0 : GeckoToken
  pub token1 : GeckoToken

pub data LoadError : Type 0 where
  read_failed : LoadError
  decode_failed : LoadError

-- `intOrString.UnmarshalJSON`; `none` is an error.
unfoldable pub int_or_string :
    (Text → Option Text) → (Text → Option ℤ) → (Text → Option ℤ) → Text → Option ℤ
int_or_string unquote atoi json_int raw = from_bytes (trim_space raw)
  where
    from_string : Option Text → Option ℤ
    from_string none = none
    from_string (some s) =
        let trimmed = trim_space s in if eqb trimmed [] then some (pos 0) else atoi trimmed

    from_bytes : Text → Option ℤ
    from_bytes [] = some (pos 0)
    from_bytes (c ∷ b) = if eq_ℕ c b'"' then from_string (unquote (c ∷ b)) else json_int (c ∷ b)

-- Which token is the base, from what the two are.
unfoldable pub base_choice : Bool → Bool → Bool → Bool → Bool
base_choice stable0 stable1 weth0 weth1 =
    if (weth0 || weth1) && (stable0 || stable1)
    then (if weth0 && stable1 then true else if stable0 && weth1 then false else weth0)
    else if stable0 || stable1
    then not stable0
    else if weth0 || weth1
    then not weth0
    else true

-- Whether a pair is left out: two stable coins, or no stable coin and no WETH.
unfoldable pub is_left_out : TokenMeta → TokenMeta → Bool
is_left_out t0 t1 =
    t0.is_stable && t1.is_stable
    || not t0.is_stable && not t1.is_stable && not t0.is_weth && not t1.is_weth

unfoldable pub is_seen : ℕ → List ℕ → Bool
is_seen a [] = false
is_seen a (b ∷ bs) = eq_ℕ b a || is_seen a bs

abbrev pub or_default : ℕ → ℕ
or_default decimals = if eq_ℕ decimals 0 then 18 else decimals

-- A pool as `PoolConfig{…}` makes it, then finalised.
unfoldable pub make_pool : ℕ → Text → TokenMeta → TokenMeta → Bool → PoolConfig
make_pool addr name t0 t1 base = finalize_pool (record {
  address = addr;
  pair_name = name;
  token0 = t0;
  token1 = t1;
  base_is_token0 = base;
  canonical_pair = [];
  has_stable = false;
  has_weth = false;
  stable_symbol = [];
})

-- The three reference pools, by the stable coin.
pub data HardStable : Type 0 where
  hard_usdc : HardStable
  hard_usdt : HardStable
  hard_dai : HardStable

abbrev pub hard_weth_stable : List HardStable
hard_weth_stable = hard_usdc ∷ hard_usdt ∷ hard_dai ∷ []

abbrev pub hard_addr : HardStable → Text
hard_addr hard_usdc = codes "0xB4e16d0168e52d35CaCD2c6185b44281Ec28C9Dc"
hard_addr hard_usdt = codes "0x0d4a11d5EEaaC28EC3F61d100daf4d40471f1852"
hard_addr hard_dai = codes "0xA478c2975Ab1Ea89e8196811F51A7B7Ade33eB11"

abbrev pub hard_symbol : HardStable → Text
hard_symbol hard_usdc = codes "USDC"
hard_symbol hard_usdt = codes "USDT"
hard_symbol hard_dai = codes "DAI"

unfoldable pub hard_pool : HardStable → ℕ → TokenMeta → TokenMeta → PoolConfig
hard_pool hard_usdc addr stable weth = make_pool addr (codes "USDC / WETH (hard)") stable weth false
hard_pool hard_usdt addr stable weth = make_pool addr (codes "WETH / USDT (hard)") weth stable true
hard_pool hard_dai addr stable weth = make_pool addr (codes "DAI / WETH (hard)") stable weth false

-- The copies of the registry's tokens that such a pool gets.
abbrev pub stable_copy : TokenMeta → TokenMeta
stable_copy t = record t { is_stable = true; decimals = or_default t.decimals }

abbrev pub weth_copy : TokenMeta → TokenMeta
weth_copy t = record t { is_weth = true; decimals = or_default t.decimals }

-- `hasWETH` with an address that is not zero.
abbrev pub usable_weth : Option TokenMeta → Option TokenMeta
usable_weth none = none
usable_weth (some t) = if eq_ℕ t.address 0 then none else some t

abbrev pub hard_of : HardStable → ℕ → Option TokenMeta → Option TokenMeta → Option PoolConfig
hard_of h addr none weth = none
hard_of h addr (some stable) none = none
hard_of h addr (some stable) (some weth) =
    some (hard_pool h addr (stable_copy stable) (weth_copy weth))

-- A pool before the rest, if there is one.
abbrev pub add_pool : Option PoolConfig → List PoolConfig → List PoolConfig
add_pool none ps = ps
add_pool (some p) ps = p ∷ ps

abbrev pub see : Option PoolConfig → List ℕ → List ℕ
see none seen = seen
see (some p) seen = p.address ∷ seen

module _ (e : EthCommon) where
  unfoldable pub normalize_token : GeckoToken → TokenRegistry → TokenMeta
  normalize_token token r =
      let addr = e.hex_to_address (trim_space token.address) in
      let meta = resolve e r addr token.symbol token.decimals in
      record meta {
        address = if eq_ℕ meta.address 0 then addr else meta.address;
        symbol = if eqb meta.symbol [] then to_upper (short_address (e.hex addr)) else meta.symbol;
        decimals = or_default meta.decimals;
      }

  abbrev pub pool_hex : GeckoPool → Text
  pool_hex entry = if eqb entry.pool_id [] then entry.pool_address else entry.pool_id

  -- The tests of an entry before its tokens are read.
  unfoldable pub is_refused : List ℕ → GeckoPool → Bool
  is_refused seen entry =
      not (equal_fold entry.dex (codes "uniswap_v2"))
      || (not (contains (to_lower entry.network) (codes "eth"))
          || (not (e.is_hex_address (pool_hex entry))
              || is_seen (e.hex_to_address (pool_hex entry)) seen))

  -- The body of the loop over the entries; `none` where it goes on to the next one.
  unfoldable pub entry_pool : TokenRegistry → List ℕ → GeckoPool → Option PoolConfig
  entry_pool r seen entry =
      let t0 = normalize_token entry.token0 r in
      let t1 = normalize_token entry.token1 r in
      if is_refused seen entry
      then none
      else if is_left_out t0 t1
      then none
      else some (
          make_pool (e.hex_to_address (pool_hex entry)) entry.pair_name t0 t1
            (base_choice t0.is_stable t1.is_stable t0.is_weth t1.is_weth))

  -- The loop over the reference pools.
  unfoldable pub hard_pools : TokenRegistry → List HardStable → List ℕ → List PoolConfig
  hard_pools r [] seen = []
  hard_pools r (h ∷ hs) seen =
      let addr = e.hex_to_address (hard_addr h) in
      let found =
        if is_seen addr seen
        then none
        else hard_of h addr (stable_by_symbol r (hard_symbol h)) (usable_weth (weth_meta r)) in
      add_pool found (hard_pools r hs (see found seen))

  -- The loop over the entries, and then over the reference pools.
  unfoldable pub load_entries : TokenRegistry → List GeckoPool → List ℕ → List PoolConfig
  load_entries r [] seen = hard_pools r hard_weth_stable seen
  load_entries r (entry ∷ rest) seen =
      let found = entry_pool r seen entry in add_pool found (load_entries r rest (see found seen))

  abbrev pub or_new_registry : Option TokenRegistry → TokenRegistry
  or_new_registry none = new_token_registry e none []
  or_new_registry (some r) = r

  unfoldable pub load_pools :
      (Text → Option Text)
      → (Text → Option (List GeckoPool))
      → Text
      → Option TokenRegistry
      → Result LoadError (List PoolConfig)
  load_pools read unmarshal path registry = loaded (read path)
    where
      decoded : Option (List GeckoPool) → Result LoadError (List PoolConfig)
      decoded none = err decode_failed
      decoded (some entries) = ok (load_entries (or_new_registry registry) entries [])

      loaded : Option Text → Result LoadError (List PoolConfig)
      loaded none = err read_failed
      loaded (some payload) = decoded (unmarshal payload)
