-- ===== src/Uniswap/Pools.antt =====
-- What the pools that are loaded are sure to be.
use screener_cd.Prelude.{
  ℕ, ◌≡◌, refl, sym, ◌⊎◌, inl, inr, Bool, true, false, not, ◌||◌, ◌&&◌, List, [], ◌∷◌, ◌++◌, Option,
  none, some, arith, if◌then◌else◌, Bool-cases, Option-cases, All, if_intro,
}
use screener_cd.Prelude.Result.{ok, ok_inj}
use mathlib.Core.Path.{subst}
use screener_cd.Text.{Text, eqb, trim_space}
use screener_cd.Eth.{EthCommon}
use screener_cd.Assets.Provider.{Provider}
use screener_cd.Uniswap.Meta.{
  TokenMeta, PoolConfig, finalize_pool, normalize_pair, base_symbol, quote_symbol,
}
use screener_cd.Uniswap.Registry.{TokenRegistry, new_token_registry, stable_by_symbol, weth_meta}
use screener_cd.Uniswap.Exclusive.{
  IsExclusive, IsRegistry, resolve-IsExclusive, new_token_registry-IsRegistry,
}
use screener_cd.Uniswap.Gecko.{
  GeckoToken, GeckoPool, HardStable, hard_usdc, hard_usdt, hard_dai, base_choice, is_left_out,
  is_seen, make_pool, hard_weth_stable, hard_symbol, hard_pool, hard_of, usable_weth, stable_copy,
  weth_copy, add_pool, see, normalize_token, pool_hex, is_refused, entry_pool, hard_pools,
  load_entries, load_pools,
}

-- The token that a pool's price is in.
abbrev pub quote_token : PoolConfig → TokenMeta
quote_token p = if p.base_is_token0 then p.token1 else p.token0

abbrev pub base_token : PoolConfig → TokenMeta
base_token p = if p.base_is_token0 then p.token0 else p.token1

-- The quote is a stable coin, or it is WETH and neither token is a stable coin; the flags tell
-- whether there is one, and the symbol of the pair is that of the base and the quote.
pub record IsQuoted (p : PoolConfig) : Type 0 where
  pub priced_in :
      ((quote_token p).is_stable ≡ true)
      ⊎ (((quote_token p).is_weth ≡ true) × ((base_token p).is_stable ≡ false))
  pub flagged : p.has_stable ≡ (p.token0.is_stable || p.token1.is_stable)
  pub paired : p.canonical_pair ≡ (base_token p).symbol ++ (quote_token p).symbol

-- The case analysis behind the choice of the base, on the flags alone.
choice_lem :
    (s0 s1 w0 w1 : Bool)
    → (s0 && w0) ≡ false
    → (s1 && w1) ≡ false
    → (s0 && s1 || not s0 && not s1 && not w0 && not w1) ≡ false
    → ((if base_choice s0 s1 w0 w1 then s1 else s0) ≡ true)
      ⊎ (((if base_choice s0 s1 w0 w1 then w1 else w0) ≡ true)
          × ((if base_choice s0 s1 w0 w1 then s0 else s1) ≡ false))
unfolding base_choice
choice_lem true s1 true w1 a b c = absurd cc
choice_lem true true false w1 a b c = absurd cc
choice_lem true false false true a b c = inl refl
choice_lem true false false false a b c = inl refl
choice_lem false true w0 true a b c = absurd cc
choice_lem false true true false a b c = inl refl
choice_lem false true false false a b c = inl refl
choice_lem false false true true a b c = inr (refl, refl)
choice_lem false false true false a b c = inr (refl, refl)
choice_lem false false false true a b c = inr (refl, refl)
choice_lem false false false false a b c = absurd cc

make_pool-IsQuoted :
    (addr : ℕ) (name : Text) (t0 t1 : TokenMeta) (b : Bool)
    → ((if b then t1.is_stable else t0.is_stable) ≡ true)
      ⊎ (((if b then t1.is_weth else t0.is_weth) ≡ true)
          × ((if b then t0.is_stable else t1.is_stable) ≡ false))
    → IsQuoted (make_pool addr name t0 t1 b)
unfolding make_pool finalize_pool normalize_pair base_symbol quote_symbol eqb
make_pool-IsQuoted addr name t0 t1 true h = record { priced_in = h; flagged = refl; paired = refl }
make_pool-IsQuoted addr name t0 t1 false h = record { priced_in = h; flagged = refl; paired = refl }

hard_pool-IsQuoted :
    (h : HardStable) (addr : ℕ) (s w : TokenMeta)
    → IsQuoted (hard_pool h addr (stable_copy s) (weth_copy w))
unfolding hard_pool
hard_pool-IsQuoted hard_usdc addr s w =
    make_pool-IsQuoted addr _ (stable_copy s) (weth_copy w) false (inl refl)
hard_pool-IsQuoted hard_usdt addr s w =
    make_pool-IsQuoted addr _ (weth_copy w) (stable_copy s) true (inl refl)
hard_pool-IsQuoted hard_dai addr s w =
    make_pool-IsQuoted addr _ (stable_copy s) (weth_copy w) false (inl refl)

hard_pool-address :
    (h : HardStable) (addr : ℕ) (s w : TokenMeta) → (hard_pool h addr s w).address ≡ addr
unfolding hard_pool make_pool finalize_pool
hard_pool-address hard_usdc addr s w = refl
hard_pool-address hard_usdt addr s w = refl
hard_pool-address hard_dai addr s w = refl

-- No address is among those that were seen before, or twice among the pools.
abbrev pub Separate : List ℕ → List PoolConfig → Type 0
Separate seen [] = Unit
Separate seen (p ∷ ps) = (is_seen p.address seen ≡ false) × Separate (p.address ∷ seen) ps

abbrev pub IsPoolList : List ℕ → List PoolConfig → Type 0
IsPoolList seen ps = All IsQuoted ps × Separate seen ps

-- What the loops need of the pool they have just made.
data IsNew (seen : List ℕ) : Option PoolConfig → Type 0 where
  skipped : IsNew seen none
  taken : {p : PoolConfig} → IsQuoted p → is_seen p.address seen ≡ false → IsNew seen (some p)

add_pool-IsPoolList :
    (o : Option PoolConfig) (seen : List ℕ) (ps : List PoolConfig)
    → IsNew seen o
    → IsPoolList (see o seen) ps
    → IsPoolList seen (add_pool o ps)
add_pool-IsPoolList none seen ps skipped k = k
add_pool-IsPoolList (some p) seen ps (taken quoted new) (qs, apart) = ((quoted, qs), (new, apart))

module _ (e : EthCommon) (r : TokenRegistry) (registry : IsRegistry r) where
  normalize_token-IsExclusive : (t : GeckoToken) → IsExclusive (normalize_token e t r)
  unfolding normalize_token
  normalize_token-IsExclusive t =
      resolve-IsExclusive e r (e.hex_to_address (trim_space t.address)) t.symbol t.decimals registry

  entry_pool-IsNew : (seen : List ℕ) (entry : GeckoPool) → IsNew seen (entry_pool e r seen entry)
  unfolding entry_pool is_refused is_left_out make_pool finalize_pool
  entry_pool-IsNew seen entry =
      let addr = e.hex_to_address (pool_hex e entry) in
      let t0 = normalize_token e entry.token0 r in
      let t1 = normalize_token e entry.token1 r in
      elim (Bool-cases (is_refused e seen entry)) [
        | inl refused ↦ rw refused skipped
        | inr accepted ↦ elim (Bool-cases (is_left_out t0 t1)) [
          | inl out ↦ rw (accepted, out) skipped
          | inr kept ↦
              rw (accepted, kept)
                (taken
                  (make_pool-IsQuoted addr entry.pair_name t0 t1
                    (base_choice t0.is_stable t1.is_stable t0.is_weth t1.is_weth)
                    (choice_lem t0.is_stable t1.is_stable t0.is_weth t1.is_weth
                      (normalize_token-IsExclusive entry.token0)
                      (normalize_token-IsExclusive entry.token1) kept))
                  (ground arith))
        ]
      ]

  hard_of-IsNew :
      (seen : List ℕ) (h : HardStable) (addr : ℕ) (s w : Option TokenMeta)
      → is_seen addr seen ≡ false
      → IsNew seen (hard_of h addr s w)
  hard_of-IsNew seen h addr none w new = skipped
  hard_of-IsNew seen h addr (some s) none new = skipped
  hard_of-IsNew seen h addr (some s) (some w) new = taken (hard_pool-IsQuoted h addr s w) (
      subst (λ a. is_seen a seen ≡ false)
        (sym (hard_pool-address h addr (stable_copy s) (weth_copy w))) new)

  hard_pools-IsPoolList :
      (hs : List HardStable) (seen : List ℕ) → IsPoolList seen (hard_pools e r hs seen)
  unfolding hard_pools
  hard_pools-IsPoolList [] seen = (tt, tt)
  hard_pools-IsPoolList (h ∷ hs) seen =
      add_pool-IsPoolList _ seen _
        (if_intro (IsNew seen) _ _ _ (λ _. skipped)
          (hard_of-IsNew seen h _ (stable_by_symbol r (hard_symbol h)) (usable_weth (weth_meta r))))
        (hard_pools-IsPoolList hs _)

  load_entries-IsPoolList :
      (entries : List GeckoPool) (seen : List ℕ) → IsPoolList seen (load_entries e r entries seen)
  unfolding load_entries
  load_entries-IsPoolList [] seen = hard_pools-IsPoolList hard_weth_stable seen
  load_entries-IsPoolList (entry ∷ rest) seen =
      add_pool-IsPoolList (entry_pool e r seen entry) seen _ (entry_pool-IsNew seen entry)
        (load_entries-IsPoolList rest (see (entry_pool e r seen entry) seen))

-- The pools that load with the registry of any provider and network have different addresses, and
-- each is priced in a stable coin, or in WETH where neither of its tokens is one; its pair is
-- named by the base and the quote.
pub load_pools-IsPoolList :
    (e : EthCommon) (read : Text → Option Text) (unmarshal : Text → Option (List GeckoPool))
    (path : Text) (provider : Option Provider) (network : Text) (ps : List PoolConfig)
    → load_pools e read unmarshal path (some (new_token_registry e provider network)) ≡ ok ps
    → IsPoolList [] ps
unfolding load_pools
load_pools-IsPoolList e read unmarshal path provider network ps h =
    let registry = new_token_registry-IsRegistry e provider network in
    elim (Option-cases (read path)) [
      | inl no_file ↦ absurd (cc (rw no_file at h))
      | inr (payload, got) ↦ elim (Option-cases (unmarshal payload)) [
        | inl no_json ↦ absurd (cc (rw (got, no_json) at h))
        | inr (entries, u) ↦
            subst (IsPoolList []) (ok_inj (rw (got, u) at h)) (
              load_entries-IsPoolList e (new_token_registry e provider network) registry entries [])
      ]
    ]
