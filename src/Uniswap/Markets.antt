-- ===== src/Uniswap/Markets.antt =====
-- What a pool trades, whichever token its contract puts first, and that finalising and swapping
-- keep it.
use screener_cd.Prelude.{
  ℕ, ◌≡◌, refl, sym, ap, ◌∙◌, ◌⊎◌, inl, inr, Bool, true, false, [], ◌++◌, Bool-cases, List-cases,
}
use mathlib.Core.Path.{subst}
use screener_cd.Prelude.Dict.{nat_eq}
use screener_cd.Text.{Text, eqb}
use screener_cd.Uniswap.Meta.{
  TokenMeta, PoolConfig, finalize_pool, normalize_pair, base_symbol, quote_symbol, swap_pool_tokens,
}
use screener_cd.Uniswap.Price.{price_of}
use screener_cd.Uniswap.Pools.{IsQuoted, base_token, quote_token}

-- A token without its decimals.
pub record Label : Type 0 where
  pub address : ℕ
  pub symbol : Text
  pub is_stable : Bool
  pub is_weth : Bool

-- What a pool trades, whichever token its contract puts first.
pub record Market : Type 0 where
  pub address : ℕ
  pub base : Label
  pub quote : Label

abbrev pub label : TokenMeta → Label
label t = record {
  address = t.address;
  symbol = t.symbol;
  is_stable = t.is_stable;
  is_weth = t.is_weth;
}

abbrev pub market_of : PoolConfig → Market
market_of p = record {
  address = p.address;
  base = label (base_token p);
  quote = label (quote_token p);
}

-- Swapping the tokens and the reserves together leaves the price of the base in the quote.
pub swap-price_of :
    (p : PoolConfig) (r0 r1 : ℕ)
    → price_of (finalize_pool (swap_pool_tokens p)) r0 r1 ≡ price_of p r1 r0
unfolding price_of swap_pool_tokens finalize_pool
swap-price_of p r0 r1 = elim (Bool-cases p.base_is_token0) [ inl h ↦ rw h refl | inr h ↦ rw h refl ]

pub finalize_pool-market_of : (p : PoolConfig) → market_of (finalize_pool p) ≡ market_of p
unfolding finalize_pool
finalize_pool-market_of p = elim (Bool-cases p.base_is_token0) [
  | inl h ↦ rw h refl
  | inr h ↦ rw h refl
]

pub swap-market : (p : PoolConfig) → market_of (swap_pool_tokens p) ≡ market_of p
unfolding swap_pool_tokens
swap-market p = elim (Bool-cases p.base_is_token0) [ inl h ↦ rw h refl | inr h ↦ rw h refl ]

pub swap-market_of : (p : PoolConfig) → market_of (finalize_pool (swap_pool_tokens p)) ≡ market_of p
unfolding swap_pool_tokens finalize_pool
swap-market_of p = elim (Bool-cases p.base_is_token0) [ inl h ↦ rw h refl | inr h ↦ rw h refl ]

-- The name of a pool's market is that of the pool, or is made of the symbols.
market_name : PoolConfig → Text
market_name q = (base_token q).symbol ++ (quote_token q).symbol

symbols_lem : (q : PoolConfig) → base_symbol q ++ quote_symbol q ≡ market_name q
unfolding base_symbol quote_symbol market_name
symbols_lem q = elim (Bool-cases q.base_is_token0) [ inl h ↦ rw h refl | inr h ↦ rw h refl ]

finalize_pool-name :
    (q : PoolConfig)
    → (q.canonical_pair ≡ []) ⊎ (q.canonical_pair ≡ market_name q)
    → (finalize_pool q).canonical_pair ≡ market_name q
unfolding finalize_pool normalize_pair eqb market_name
finalize_pool-name q (inl empty) = rw (empty, symbols_lem q) refl
finalize_pool-name q (inr named) = elim (List-cases q.canonical_pair) [
  | inl empty ↦ rw (empty, symbols_lem q) refl
  | inr (c, s, filled) ↦ rw filled (sym filled ∙ named)
]

-- The pool that `finalize_pool` makes is quoted like the one before it.
pub finalize_pool-IsQuoted :
    (p q : PoolConfig)
    → IsQuoted p
    → market_of q ≡ market_of p
    → q.canonical_pair ≡ p.canonical_pair
    → IsQuoted (finalize_pool q)
unfolding finalize_pool market_name
finalize_pool-IsQuoted p q h same pair = record {
  priced_in =
      subst
        (λ (m : Market).
          (m.quote.is_stable ≡ true) ⊎ ((m.quote.is_weth ≡ true) × (m.base.is_stable ≡ false)))
        (sym same) h.priced_in;
  flagged = refl;
  paired =
      finalize_pool-name q
        (inr (pair ∙ h.paired ∙ ap (λ (m : Market). m.base.symbol ++ m.quote.symbol) (sym same)));
}

pub swap-IsQuoted : (p : PoolConfig) → IsQuoted p → IsQuoted (finalize_pool (swap_pool_tokens p))
unfolding swap_pool_tokens
swap-IsQuoted p h = finalize_pool-IsQuoted p (swap_pool_tokens p) h (swap-market p) refl
