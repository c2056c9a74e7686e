-- ===== src/Uniswap/Order.antt =====
-- internal/dex/Etherium/Uniswap/v2_connector.go: the order of a pool's tokens and their decimals,
-- as its contract tells them. `ask n` stands for the n-th `eth_call` of a run: from the address
-- and the data of a call to the result, `none` if the call fails. `wrapped` is what `Int64` gives
-- for a number that is too large for it.
use screener_cd.Prelude.{
  ℕ, ◌+◌, ◌^◌, Bool, not, ◌||◌, ◌&&◌, List, [], ◌∷◌, Option, none, some, ltb, leb, ◌==◌ as eq_ℕ,
  if◌then◌else◌, length, drop,
}
use screener_cd.Prelude.Dict.{lookup, insert, nat_eq}
use screener_cd.Prelude.Int.{ℤ, pos, nonpos, pos_part}
use screener_cd.Prelude.Result.{Result, ok, err, ◌>>=◌}
use screener_cd.Text.{Text, codes, eqb, has_prefix, trim_prefix, trim_space}
use screener_cd.Text.Hex.{decode_hex, from_bytes}
use screener_cd.Eth.{EthCommon}
use screener_cd.Uniswap.Meta.{TokenMeta, PoolConfig, finalize_pool, swap_pool_tokens}

pub data CallError : Type 0 where
  call_failed : CallError
  unexpected_result : CallError
  invalid_hex : CallError
  too_short : CallError
  token_mismatch : CallError
  invalid_decimals : CallError

-- A node's answers, by the number of the call.
abbrev pub Ask : Type 0
Ask = ℕ → ℕ → Text → Option Text

abbrev pub or_error : {A : Type 0} → CallError → Option A → Result CallError A
or_error e none = err e
or_error e (some a) = ok a

abbrev pub ok_or {ℓ} : {E A : Type ℓ} → A → Result E A → A
ok_or a (ok b) = b
ok_or a (err e) = a

-- int(n.Int64())
unfoldable pub to_int64 : (ℕ → ℤ) → ℕ → ℤ
to_int64 wrapped n = if ltb n (2 ^ 63) then pos n else wrapped n

module _ (e : EthCommon) (ask : Ask) where
  unfoldable pub parse_address_result : Text → Result CallError ℕ
  parse_address_result raw =
      let res = trim_space raw in
      if not (has_prefix res (codes "0x"))
      then err unexpected_result
      else or_error invalid_hex (decode_hex (trim_prefix res (codes "0x"))) >>= λ b.
          if ltb (length b) 32 then err too_short else ok (e.bytes_to_address (drop 12 b))

  unfoldable pub call_address : ℕ → ℕ → Text → Result CallError ℕ
  call_address n pair payload =
      or_error call_failed (ask n pair payload) >>= λ result. parse_address_result result

  unfoldable pub fetch_pair_tokens : ℕ → ℕ → Result CallError (ℕ × ℕ)
  fetch_pair_tokens n pair = call_address n pair (codes "0x0dfe1681") >>= λ t0.
      call_address (n + 1) pair (codes "0xd21220a7") >>= λ t1. ok (t0, t1)

  -- The pool in the order that its contract tells; the pool stays as it is on an error.
  unfoldable pub ordered : PoolConfig → ℕ × ℕ → Result CallError PoolConfig
  ordered pool (t0, t1) =
      if eq_ℕ t0 pool.token0.address && eq_ℕ t1 pool.token1.address
      then ok pool
      else if eq_ℕ t0 pool.token1.address && eq_ℕ t1 pool.token0.address
      then ok (finalize_pool (swap_pool_tokens pool))
      else err token_mismatch

  unfoldable pub ensure_pool_order : ℕ → PoolConfig → Result CallError PoolConfig
  ensure_pool_order n pool = fetch_pair_tokens n pool.address >>= λ ts. ordered pool ts

-- Whether the decimals of a token are left alone.
unfoldable pub is_settled : TokenMeta → Bool
is_settled meta =
    meta.is_stable
    || meta.is_weth
    || ltb 0 meta.decimals && leb meta.decimals 18 && leb 10 meta.decimals

module _ (wrapped : ℕ → ℤ) (ask : Ask) where
  -- The decimals in the bytes of a result.
  unfoldable pub read_decimals : List ℕ → Result CallError ℕ
  read_decimals [] = err unexpected_result
  read_decimals (b ∷ bs) =
      let dec = to_int64 wrapped (from_bytes (b ∷ bs)) in
      if nonpos dec then err invalid_decimals else ok (pos_part dec)

  unfoldable pub fetch_token_decimals : ℕ → ℕ → Result CallError ℕ
  fetch_token_decimals n addr = or_error call_failed (ask n addr (codes "0x313ce567")) >>= λ result.
      let res = trim_prefix (trim_space result) (codes "0x") in
      if eqb res []
      then err unexpected_result
      else or_error invalid_hex (decode_hex res) >>= λ b. read_decimals b

  -- The decimals of a token from those fetched before, or else from the node.
  unfoldable pub from_cache : ℕ → TokenMeta → List (ℕ × ℕ) → Option ℕ → TokenMeta × List (ℕ × ℕ)
  from_cache n meta cache (some cached) = (record meta { decimals = cached }, cache)
  from_cache n meta cache none = fetched (fetch_token_decimals n meta.address)
    where
      fetched : Result CallError ℕ → TokenMeta × List (ℕ × ℕ)
      fetched (ok dec) = (record meta { decimals = dec }, insert meta.address dec cache)
      fetched (err e) = (meta, cache)

  -- `updateMetaDecimals`
  unfoldable pub update_meta_decimals : ℕ → TokenMeta → List (ℕ × ℕ) → TokenMeta × List (ℕ × ℕ)
  update_meta_decimals n meta cache =
      if is_settled meta then (meta, cache) else from_cache n meta cache (lookup meta.address cache)

  unfoldable pub update_token_decimals : ℕ → PoolConfig → List (ℕ × ℕ) → PoolConfig × List (ℕ × ℕ)
  update_token_decimals n pool cache =
      let r0 = update_meta_decimals n pool.token0 cache in
      let r1 = update_meta_decimals (n + 1) pool.token1 r0.1 in
      (finalize_pool (record pool { token0 = r0.0; token1 = r1.0 }), r1.1)

module _ (e : EthCommon) (wrapped : ℕ → ℤ) where
  -- The loop over the pools; each takes up to four calls.
  unfoldable pub adjust_pools : Ask → ℕ → List PoolConfig → List (ℕ × ℕ) → List PoolConfig
  adjust_pools ask n [] cache = []
  adjust_pools ask n (pool ∷ pools) cache =
      let (adjusted, known) =
        update_token_decimals wrapped ask (n + 2) (ok_or pool (ensure_pool_order e ask n pool))
          cache in
      adjusted ∷ adjust_pools ask (n + 4) pools known

  -- `dial` gives the node at a URL; without a URL the pools stay as they are.
  unfoldable pub adjust_pools_ordering :
      (Text → Option Ask) → Text → List PoolConfig → Result CallError (List PoolConfig)
  adjust_pools_ordering dial http_url pools = dialled (trim_space http_url)
    where
      with_client : Option Ask → Result CallError (List PoolConfig)
      with_client none = err call_failed
      with_client (some ask) = ok (adjust_pools ask 0 pools [])

      dialled : Text → Result CallError (List PoolConfig)
      dialled [] = ok pools
      dialled (c ∷ url) = with_client (dial (c ∷ url))
