-- ===== src/Uniswap/Meta.antt =====
-- internal/dex/Etherium/Uniswap/v2_connector.go: tokens and pools.
use screener_cd.Prelude.{
  ℕ, ◌-◌, Bool, not, ◌||◌, ◌&&◌, [], ◌++◌, leb, if◌then◌else◌, length, take, drop,
}
use screener_cd.Prelude.Int.{ℤ, pos, pos_part, nonpos, ltb_ℤ}
use screener_cd.Text.{Text, codes, eqb, to_upper, trim_space, trim_prefix}

-- `Decimals` is an int that no code makes negative.
pub record TokenMeta : Type 0 where
  pub address : ℕ
  pub symbol : Text
  pub decimals : ℕ
  pub is_stable : Bool
  pub is_weth : Bool

pub record PoolConfig : Type 0 where
  pub address : ℕ
  pub pair_name : Text
  pub token0 : TokenMeta
  pub token1 : TokenMeta
  pub base_is_token0 : Bool
  pub canonical_pair : Text
  pub has_stable : Bool
  pub has_weth : Bool
  pub stable_symbol : Text

unfoldable pub base_symbol : PoolConfig → Text
base_symbol p = if p.base_is_token0 then p.token0.symbol else p.token1.symbol

unfoldable pub quote_symbol : PoolConfig → Text
quote_symbol p = if p.base_is_token0 then p.token1.symbol else p.token0.symbol

-- The symbol of the token that is neither the stable coin nor WETH, where just one of them is.
unfoldable pub token_symbol : PoolConfig → Text
token_symbol p =
    let by_stable = p.has_stable && not p.has_weth in
    let by_weth = p.has_weth && not p.has_stable in
    if by_stable && p.token0.is_stable
    then p.token1.symbol
    else if by_stable && p.token1.is_stable
    then p.token0.symbol
    else if by_weth && p.token0.is_weth
    then p.token1.symbol
    else if by_weth && p.token1.is_weth
    then p.token0.symbol
    else base_symbol p

unfoldable pub normalize_pair : PoolConfig → Text
unfolding base_symbol quote_symbol
normalize_pair p =
    if eqb p.canonical_pair [] then base_symbol p ++ quote_symbol p else p.canonical_pair

unfoldable pub finalize_pool : PoolConfig → PoolConfig
unfolding normalize_pair
finalize_pool p = record p {
  has_stable = p.token0.is_stable || p.token1.is_stable;
  has_weth = p.token0.is_weth || p.token1.is_weth;
  stable_symbol =
      if p.token0.is_stable
      then p.token0.symbol
      else if p.token1.is_stable
      then p.token1.symbol
      else [];
  canonical_pair = if eqb p.canonical_pair [] then normalize_pair p else p.canonical_pair;
}

unfoldable pub swap_pool_tokens : PoolConfig → PoolConfig
swap_pool_tokens p = record p {
  token0 = p.token1;
  token1 = p.token0;
  base_is_token0 = not p.base_is_token0;
}

unfoldable pub symbol_key : Text → Text
symbol_key symbol = to_upper (trim_space symbol)

unfoldable pub clamp_decimals : ℤ → ℕ
clamp_decimals dec = if nonpos dec || ltb_ℤ (pos 255) dec then 0 else pos_part dec

unfoldable pub short_address : Text → Text
short_address raw =
    let addr = trim_prefix raw (codes "0x") in
    if leb (length addr) 6
    then to_upper addr
    else to_upper (take 3 addr ++ drop (length addr - 3) addr)
