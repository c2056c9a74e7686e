-- ===== src/Uniswap/Ordered.antt =====
-- What the adjustment of the pools keeps, and what it brings about.
use screener_cd.Prelude.{
  ℕ, ◌+◌, ◌≡◌, refl, sym, ap, ◌∙◌, ◌⊎◌, inl, inr, false, ◌&&◌, List, [], ◌∷◌, Option, none, some,
  arith, map, ◌==◌, Bool-cases, Option-cases, List-cases,
}
use mathlib.Core.Path.{subst}
use screener_cd.Prelude.Dict.{lookup, nat_eq}
use screener_cd.Prelude.Int.{ℤ}
use screener_cd.Prelude.Result.{ok, ok_inj, Result-cases}
use screener_cd.Text.{Text, trim_space}
use screener_cd.Eth.{EthCommon}
use screener_cd.Uniswap.Meta.{TokenMeta, PoolConfig, finalize_pool, swap_pool_tokens}
use screener_cd.Uniswap.Price.{price_of}
use screener_cd.Uniswap.Pools.{IsQuoted, IsPoolList, Separate}
use screener_cd.Uniswap.Gecko.{is_seen}
use screener_cd.Uniswap.Order.{
  adjust_pools_ordering, Ask, ok_or, ordered, ensure_pool_order, fetch_pair_tokens,
  fetch_token_decimals, from_cache, is_settled, update_meta_decimals, update_token_decimals,
  adjust_pools,
}
use screener_cd.Uniswap.Markets.{
  Market, label, market_of, finalize_pool-market_of, swap-market_of, swap-price_of,
  finalize_pool-IsQuoted, swap-IsQuoted,
}

-- What a pool keeps when it is put in order.
abbrev pub Keeps : PoolConfig → PoolConfig → Type 0
Keeps p q = (market_of q ≡ market_of p) × (IsQuoted p → IsQuoted q)

-- A pool that is as before, or whose price is that of the reserves the other way round.
abbrev pub Turned : PoolConfig → PoolConfig → Type 0
Turned p q = (q ≡ p) ⊎ ((r0 r1 : ℕ) → price_of q r0 r1 ≡ price_of p r1 r0)

-- What a pool is after its contract has told the two addresses.
abbrev pub IsOrdered : PoolConfig → PoolConfig → ℕ → ℕ → Type 0
IsOrdered p q a0 a1 = (q.token0.address ≡ a0) × (q.token1.address ≡ a1) × Turned p q × Keeps p q

module _ (e : EthCommon) (ask : Ask) where
  -- The order of an ordered pool is the one told.
  ordered-lem :
      (p q : PoolConfig) (a0 a1 : ℕ) → ordered e ask p (a0, a1) ≡ ok q → IsOrdered p q a0 a1
  unfolding ordered swap_pool_tokens finalize_pool
  ordered-lem p q a0 a1 h = elim (Bool-cases (a0 == p.token0.address && a1 == p.token1.address)) [
    | inl straight ↦
        subst (λ x. IsOrdered p x a0 a1) (ok_inj (rw straight at h))
          (ground arith, ground arith, inl refl, (refl, λ k. k))
    | inr other ↦ elim (Bool-cases (a0 == p.token1.address && a1 == p.token0.address)) [
      | inl crossed ↦
          subst (λ x. IsOrdered p x a0 a1) (ok_inj (rw (other, crossed) at h))
            (ground arith, ground arith, inr (swap-price_of p), (swap-market_of p, swap-IsQuoted p))
      | inr strange ↦ absurd (cc (rw (other, strange) at h))
    ]
  ]

  ordered-Keeps : (p : PoolConfig) (ts : ℕ × ℕ) → Keeps p (ok_or p (ordered e ask p ts))
  ordered-Keeps p (a0, a1) = elim (Result-cases (ordered e ask p (a0, a1))) [
    | inl (q, h) ↦ rw h (ordered-lem p q a0 a1 h).3
    | inr (x, h) ↦ rw h (refl, λ k. k)
  ]

  ensure_pool_order-Keeps :
      (n : ℕ) (p : PoolConfig) → Keeps p (ok_or p (ensure_pool_order e ask n p))
  unfolding ensure_pool_order
  ensure_pool_order-Keeps n p = elim (Result-cases (fetch_pair_tokens e ask n p.address)) [
    | inl (ts, h) ↦ rw h (ordered-Keeps p ts)
    | inr (x, h) ↦ rw h (refl, λ k. k)
  ]

module _ (wrapped : ℕ → ℤ) (ask : Ask) where
  from_cache-label :
      (n : ℕ) (t : TokenMeta) (cache : List (ℕ × ℕ)) (o : Option ℕ)
      → label (from_cache wrapped ask n t cache o).0 ≡ label t
  unfolding from_cache
  from_cache-label n t cache (some d) = refl
  from_cache-label n t cache none =
      elim (Result-cases (fetch_token_decimals wrapped ask n t.address)) [
        | inl (d, h) ↦ rw h refl
        | inr (x, h) ↦ rw h refl
      ]

  update_meta_decimals-label :
      (n : ℕ) (t : TokenMeta) (cache : List (ℕ × ℕ))
      → label (update_meta_decimals wrapped ask n t cache).0 ≡ label t
  unfolding update_meta_decimals
  update_meta_decimals-label n t cache = elim (Bool-cases (is_settled t)) [
    | inl settled ↦ rw settled refl
    | inr unsettled ↦ rw unsettled (from_cache-label n t cache (lookup t.address cache))
  ]

  -- New tokens with the same labels make the same market.
  abbrev retold : PoolConfig → TokenMeta → TokenMeta → PoolConfig
  retold p t0 t1 = record p { token0 = t0; token1 = t1 }

  retold-market_of :
      (p : PoolConfig) (t0 t1 : TokenMeta)
      → label t0 ≡ label p.token0
      → label t1 ≡ label p.token1
      → market_of (retold p t0 t1) ≡ market_of p
  retold-market_of p t0 t1 h0 h1 = elim (Bool-cases p.base_is_token0) [
    | inl h ↦ rw (h, h0, h1) refl
    | inr h ↦ rw (h, h0, h1) refl
  ]

  update_token_decimals-Keeps :
      (n : ℕ) (p : PoolConfig) (cache : List (ℕ × ℕ))
      → Keeps p (update_token_decimals wrapped ask n p cache).0
  unfolding update_token_decimals
  update_token_decimals-Keeps n p cache =
      let r0 = update_meta_decimals wrapped ask n p.token0 cache in
      let r1 = update_meta_decimals wrapped ask (n + 1) p.token1 r0.1 in
      let same =
        retold-market_of p r0.0 r1.0 (update_meta_decimals-label n p.token0 cache)
          (update_meta_decimals-label (n + 1) p.token1 r0.1) in
      (
        finalize_pool-market_of (retold p r0.0 r1.0) ∙ same,
        λ q. finalize_pool-IsQuoted p (retold p r0.0 r1.0) q same refl,
      )

-- A pool takes the place of one whose market it keeps.
pub replace-IsPoolList :
    (p q : PoolConfig) (ps qs : List PoolConfig) (seen : List ℕ)
    → Keeps p q
    → IsPoolList seen (p ∷ ps)
    → (IsPoolList (p.address ∷ seen) ps → IsPoolList (p.address ∷ seen) qs)
    → IsPoolList seen (q ∷ qs)
replace-IsPoolList p q ps qs seen (same, quoted) ((h, hs), (new, apart)) next =
    let here = sym (ap (λ (m : Market). m.address) same) in
    let (rest, rest_apart) = next (hs, apart) in
    (
      (quoted h, rest),
      (
        subst (λ a. is_seen a seen ≡ false) here new,
        subst (λ a. Separate (a ∷ seen) qs) here rest_apart,
      ),
    )

module _ (e : EthCommon) (wrapped : ℕ → ℤ) (ask : Ask) where
  abbrev adjusted : ℕ → PoolConfig → List (ℕ × ℕ) → PoolConfig
  adjusted n p cache =
      (update_token_decimals wrapped ask (n + 2) (ok_or p (ensure_pool_order e ask n p)) cache).0

  adjusted-Keeps : (n : ℕ) (p : PoolConfig) (cache : List (ℕ × ℕ)) → Keeps p (adjusted n p cache)
  adjusted-Keeps n p cache =
      let (m1, q1) = ensure_pool_order-Keeps e ask n p in
      let (m2, q2) =
        update_token_decimals-Keeps wrapped ask (n + 2) (ok_or p (ensure_pool_order e ask n p))
          cache in
      (m2 ∙ m1, λ k. q2 (q1 k))

  adjust_pools-market_of :
      (ps : List PoolConfig) (n : ℕ) (cache : List (ℕ × ℕ))
      → map market_of (adjust_pools e wrapped ask n ps cache) ≡ map market_of ps
  unfolding adjust_pools
  adjust_pools-market_of [] n cache = refl
  adjust_pools-market_of (p ∷ ps) n cache =
      let known =
        (update_token_decimals wrapped ask (n + 2) (ok_or p (ensure_pool_order e ask n p))
          cache).1 in
      ap (λ m. m ∷ map market_of (adjust_pools e wrapped ask (n + 4) ps known))
        (adjusted-Keeps n p cache).0
      ∙ ap (λ ms. market_of p ∷ ms) (adjust_pools-market_of ps (n + 4) known)

  adjust_pools-IsPoolList :
      (ps : List PoolConfig) (n : ℕ) (cache : List (ℕ × ℕ)) (seen : List ℕ)
      → IsPoolList seen ps
      → IsPoolList seen (adjust_pools e wrapped ask n ps cache)
  unfolding adjust_pools
  adjust_pools-IsPoolList [] n cache seen h = h
  adjust_pools-IsPoolList (p ∷ ps) n cache seen h =
      let known =
        (update_token_decimals wrapped ask (n + 2) (ok_or p (ensure_pool_order e ask n p))
          cache).1 in
      replace-IsPoolList p (adjusted n p cache) ps _ seen (adjusted-Keeps n p cache) h
        (adjust_pools-IsPoolList ps (n + 4) known (p.address ∷ seen))

-- Of pools with different addresses that are quoted as loaded pools are: whatever a node answers to
-- the calls, if the pools are adjusted without an error, the adjusted ones have the same markets, in
-- the same order, have different addresses, and are quoted as loaded pools are.
pub adjust_pools_ordering-IsPoolList :
    (e : EthCommon) (wrapped : ℕ → ℤ) (dial : Text → Option Ask) (url : Text)
    (ps qs : List PoolConfig)
    → adjust_pools_ordering e wrapped dial url ps ≡ ok qs
    → IsPoolList [] ps
    → (map market_of qs ≡ map market_of ps) × IsPoolList [] qs
unfolding adjust_pools_ordering
adjust_pools_ordering-IsPoolList e wrapped dial url ps qs h quoted =
    elim (List-cases (trim_space url)) [
      | inl no_url ↦
          subst (λ x. (map market_of x ≡ map market_of ps) × IsPoolList [] x)
            (ok_inj (rw no_url at h)) (refl, quoted)
      | inr (c, s, filled) ↦ elim (Option-cases (dial (c ∷ s))) [
        | inl no_node ↦ absurd (cc (rw (filled, no_node) at h))
        | inr (ask, node) ↦
            subst (λ x. (map market_of x ≡ map market_of ps) × IsPoolList [] x)
              (ok_inj (rw (filled, node) at h))
              (
                adjust_pools-market_of e wrapped ask ps 0 [],
                adjust_pools-IsPoolList e wrapped ask ps 0 [] [] quoted,
              )
      ]
    ]

-- If the contract of a pool tells two addresses and the pool is put in order without an error, its
-- tokens have these addresses, in this order; its market stays, and it is as before or its price
-- is that of the two reserves the other way round.
pub ensure_pool_order-lem :
    (e : EthCommon) (ask : Ask) (n : ℕ) (p q : PoolConfig) (a0 a1 : ℕ)
    → fetch_pair_tokens e ask n p.address ≡ ok (a0, a1)
    → ensure_pool_order e ask n p ≡ ok q
    → IsOrdered p q a0 a1
unfolding ensure_pool_order
ensure_pool_order-lem e ask n p q a0 a1 told h = ordered-lem e ask p q a0 a1 (rw told at h)
