-- ===== src/Uniswap/Registry.antt =====
-- internal/dex/Etherium/Uniswap/v2_connector.go: `TokenRegistry`, the stable and the native tokens
-- of a network. `range` over a map goes in the order of the list.
use screener_cd.Prelude.{
  ℕ, Bool, true, false, not, ◌||◌, ◌&&◌, List, [], ◌∷◌, map, Option, none, some, ◌==◌ as eq_ℕ,
  if◌then◌else◌,
}
use screener_cd.Prelude.Int.{ℤ, pos}
use screener_cd.Prelude.Dict.{lookup, insert}
use screener_cd.Text.{Text, codes, eqb, equal_fold, text_eq, to_upper, trim_space}
use screener_cd.Eth.{EthCommon, lower_hex}
use screener_cd.Assets.Token.{TokenInfo, token_type_stable, token_type_native}
use screener_cd.Assets.Provider.{Provider, tokens_by_network, network_names}
use screener_cd.Uniswap.Meta.{TokenMeta, symbol_key, clamp_decimals, short_address}

pub record TokenRegistry : Type 0 where
  pub by_address : List (Text × TokenMeta)
  pub stable_by_symbol : List (Text × TokenMeta)
  pub native_by_symbol : List (Text × TokenMeta)
  pub weth_addr : Text

unfoldable pub empty_registry : TokenRegistry
empty_registry = record {
  by_address = [];
  stable_by_symbol = [];
  native_by_symbol = [];
  weth_addr = [];
}

abbrev pub weth : Text
weth = codes "WETH"

abbrev pub is_empty_map : List (Text × TokenMeta) → Bool
is_empty_map [] = true
is_empty_map (m ∷ ms) = false

abbrev pub or_zero_address : EthCommon → Text → ℕ
or_zero_address e [] = 0
or_zero_address e (c ∷ s) = e.hex_to_address (c ∷ s)

-- The values of a map.
unfoldable pub metas : List (Text × TokenMeta) → List TokenMeta
metas m = map (λ entry. entry.1) m

unfoldable pub stable_by_symbol : TokenRegistry → Text → Option TokenMeta
stable_by_symbol r symbol = lookup (symbol_key symbol) r.stable_by_symbol

unfoldable pub stable_tokens : Option TokenRegistry → List TokenMeta
stable_tokens none = []
stable_tokens (some r) = metas r.stable_by_symbol

unfoldable pub native_tokens : Option TokenRegistry → List TokenMeta
native_tokens none = []
native_tokens (some r) = metas r.native_by_symbol

unfoldable pub weth_meta : TokenRegistry → Option TokenMeta
weth_meta r = if eqb r.weth_addr [] then none else lookup r.weth_addr r.by_address

abbrev is_some : Option TokenMeta → Bool
is_some none = false
is_some (some m) = true

unfoldable pub is_stable_symbol : TokenRegistry → Text → Bool
is_stable_symbol r symbol = is_some (stable_by_symbol r symbol)

module _ (e : EthCommon) where
  unfoldable pub stable_meta : Text → ℕ → ℤ → TokenMeta
  stable_meta symbol addr decimals = record {
    address = addr;
    symbol = symbol_key symbol;
    decimals = clamp_decimals decimals;
    is_stable = true;
    is_weth = false;
  }

  unfoldable pub add_stable : Text → ℕ → ℤ → TokenRegistry → TokenRegistry
  unfolding stable_meta
  add_stable symbol addr decimals r =
      let meta = stable_meta symbol addr decimals in
      record r {
        stable_by_symbol = insert meta.symbol meta r.stable_by_symbol;
        by_address = insert (lower_hex e addr) meta r.by_address;
      }

  unfoldable pub native_meta : Text → ℕ → ℤ → Bool → TokenMeta
  native_meta symbol addr decimals marked = record {
    address = addr;
    symbol = symbol_key symbol;
    decimals = clamp_decimals decimals;
    is_stable = false;
    is_weth = marked || equal_fold symbol weth;
  }

  unfoldable pub add_native : Text → ℕ → ℤ → Bool → TokenRegistry → TokenRegistry
  unfolding native_meta
  add_native symbol addr decimals marked r =
      let meta = native_meta symbol addr decimals marked in
      record r {
        native_by_symbol = insert meta.symbol meta r.native_by_symbol;
        by_address = insert (lower_hex e addr) meta r.by_address;
        weth_addr = if meta.is_weth then lower_hex e addr else r.weth_addr;
      }

  -- The two loops of `addNetworkTokens`.
  unfoldable pub add_stables : List TokenInfo → TokenRegistry → TokenRegistry
  add_stables [] r = r
  add_stables (t ∷ ts) r = add_stables ts (add_stable t.symbol t.address (pos t.decimals) r)

  unfoldable pub add_natives : List TokenInfo → TokenRegistry → TokenRegistry
  add_natives [] r = r
  add_natives (t ∷ ts) r =
      let marked = t.wrapped || equal_fold t.symbol weth in
      add_natives ts (add_native t.symbol t.address (pos t.decimals) marked r)

  unfoldable pub add_network_tokens : Provider → Text → TokenRegistry → TokenRegistry
  add_network_tokens p net r =
      if eqb net []
      then r
      else add_natives (tokens_by_network p net token_type_native)
          (add_stables (tokens_by_network p net token_type_stable) r)

  -- The loop over all networks, which stops once there are a stable coin and WETH.
  unfoldable pub add_networks : Provider → List Text → TokenRegistry → TokenRegistry
  add_networks p [] r = r
  add_networks p (net ∷ nets) r =
      let r1 = add_network_tokens p net r in
      if not (is_empty_map r1.stable_by_symbol) && not (eqb r1.weth_addr [])
      then r1
      else add_networks p nets r1

  unfoldable pub from_provider : Option Provider → Text → TokenRegistry → TokenRegistry
  from_provider none network r = r
  from_provider (some p) network r =
      let trimmed = trim_space network in
      if eqb trimmed [] then add_networks p (network_names p) r else add_network_tokens p trimmed r

  unfoldable pub add_default_stables : TokenRegistry → TokenRegistry
  add_default_stables r =
      let address = e.hex_to_address in
      let r1 =
        add_stable (codes "USDC") (address (codes "0xa0b86991c6218b36c1d19d4a2e9eb0ce3606eb48"))
          (pos 6) r in
      let r2 =
        add_stable (codes "USDT") (address (codes "0xdac17f958d2ee523a2206206994597c13d831ec7"))
          (pos 6) r1 in
      let r3 =
        add_stable (codes "DAI") (address (codes "0x6b175474e89094c44da98b954eedeac495271d0f"))
          (pos 18) r2 in
      let r4 =
        add_stable (codes "TUSD") (address (codes "0x0000000000085d4780B73119b644AE5ecd22b376"))
          (pos 18) r3 in
      add_stable (codes "USD1") (address (codes "0x8d0d000ee44948fc98c9b98a4fa4921476f08b0d"))
        (pos 18) r4

  unfoldable pub with_stables : Option Provider → Text → TokenRegistry
  with_stables provider network =
      let r = from_provider provider network empty_registry in
      if is_empty_map r.stable_by_symbol then add_default_stables r else r

  abbrev pub default_weth : ℕ
  default_weth = e.hex_to_address (codes "0xC02aaA39b223FE8D0A0e5C4F27eAD9083C756Cc2")

  unfoldable pub with_weth : TokenRegistry → TokenRegistry
  with_weth r = if eqb r.weth_addr [] then add_native weth default_weth (pos 18) true r else r

  unfoldable pub new_token_registry : Option Provider → Text → TokenRegistry
  new_token_registry provider network = with_weth (with_stables provider network)

  -- `Resolve` of a token that is not known by its address.
  unfoldable pub resolve_symbol : TokenRegistry → ℕ → Text → ℤ → TokenMeta
  resolve_symbol r addr symbol decimals =
      let meta : TokenMeta = record {
        address = addr;
        symbol = symbol;
        decimals = 0;
        is_stable = false;
        is_weth = false;
      } in
      let clamped = clamp_decimals decimals in
      by_stable meta clamped (lookup symbol r.stable_by_symbol)
    where
      unknown : TokenMeta → ℕ → TokenMeta
      unknown meta clamped = record meta {
        decimals = if eq_ℕ clamped 0 then 18 else clamped;
        is_weth = eqb (lower_hex e addr) r.weth_addr || eqb symbol weth;
      }

      by_native : TokenMeta → ℕ → Option TokenMeta → TokenMeta
      by_native meta clamped none = unknown meta clamped
      by_native meta clamped (some native) = record meta {
        decimals = native.decimals;
        is_weth = native.is_weth;
      }

      by_stable : TokenMeta → ℕ → Option TokenMeta → TokenMeta
      by_stable meta clamped none = by_native meta clamped (lookup symbol r.native_by_symbol)
      by_stable meta clamped (some stable) = record meta {
        decimals = stable.decimals;
        is_stable = true;
      }

  unfoldable pub resolve : TokenRegistry → ℕ → Text → ℤ → TokenMeta
  resolve r addr raw decimals = known (lookup (lower_hex e addr) r.by_address)
    where
      known : Option TokenMeta → TokenMeta
      known (some meta) = meta
      known none =
          let key = symbol_key raw in
          let symbol = if eqb key [] then to_upper (short_address (e.hex addr)) else key in
          resolve_symbol r addr symbol decimals

  unfoldable pub weth_address : Option TokenRegistry → ℕ
  weth_address none = 0
  weth_address (some r) = or_zero_address e r.weth_addr

  unfoldable pub is_weth_address : TokenRegistry → ℕ → Bool
  is_weth_address r addr = not (eqb r.weth_addr []) && eqb (lower_hex e addr) r.weth_addr
