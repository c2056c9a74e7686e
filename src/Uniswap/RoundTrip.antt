-- ===== src/Uniswap/RoundTrip.antt =====
-- The reserves that a Sync event carries are those that the snapshot is made of.
use screener_cd.Prelude.{
  ℕ, ◌<◌, ◌≡◌, refl, sym, ap, ◌∙◌, false, ◌++◌, arith, length, take, drop, length-append,
  All-append, take-append_all, drop-append_all, take-length, ltb,
}
use screener_cd.Prelude.Result.{ok}
use screener_cd.Text.{Text, codes, trim_prefix}
use screener_cd.Text.Hex.{
  to_bytes, encode_hex, limit, from_bytes-to_bytes, length-to_bytes, to_bytes-IsBytes,
  decode_hex-encode_hex, length-encode_hex,
}
use screener_cd.Uniswap.Meta.{PoolConfig}
use screener_cd.Uniswap.Price.{snapshot_of, compute_snapshot}

-- The data of a Sync event: two words of 32 bytes in hexadecimal.
abbrev pub sync_data : ℕ → ℕ → Text
sync_data r0 r1 = codes "0x" ++ encode_hex (to_bytes 32 r0 ++ to_bytes 32 r1)

words_length : (r0 r1 : ℕ) → length (encode_hex (to_bytes 32 r0 ++ to_bytes 32 r1)) ≡ 128
words_length r0 r1 = omega (
  arith,
  length-encode_hex (to_bytes 32 r0 ++ to_bytes 32 r1),
  length-append (to_bytes 32 r0) (to_bytes 32 r1),
  length-to_bytes 32 r0,
  length-to_bytes 32 r1,
)

ltb-words : (r0 r1 : ℕ) → ltb (length (encode_hex (to_bytes 32 r0 ++ to_bytes 32 r1))) 128 ≡ false
ltb-words r0 r1 = rw (words_length r0 r1) refl

first_word : (r0 r1 : ℕ) → take 32 (to_bytes 32 r0 ++ to_bytes 32 r1) ≡ to_bytes 32 r0
first_word r0 r1 =
    ap (λ n. take n (to_bytes 32 r0 ++ to_bytes 32 r1)) (sym (length-to_bytes 32 r0))
    ∙ take-append_all (to_bytes 32 r0) (to_bytes 32 r1)

second_word : (r0 r1 : ℕ) → take 32 (drop 32 (to_bytes 32 r0 ++ to_bytes 32 r1)) ≡ to_bytes 32 r1
second_word r0 r1 =
    ap (λ n. take 32 (drop n (to_bytes 32 r0 ++ to_bytes 32 r1))) (sym (length-to_bytes 32 r0))
    ∙ ap (take 32) (drop-append_all (to_bytes 32 r0) (to_bytes 32 r1))
    ∙ ap (λ n. take n (to_bytes 32 r1)) (sym (length-to_bytes 32 r1))
    ∙ take-length (to_bytes 32 r1)

-- Of the data of a Sync event with two reserves below 256 ^ 32 the snapshot is computed without
-- an error, and it is that of these reserves.
pub compute_snapshot-sync_data :
    (pool : PoolConfig) (r0 r1 : ℕ)
    → r0 < limit 32
    → r1 < limit 32
    → compute_snapshot pool (sync_data r0 r1) ≡ ok (snapshot_of pool r0 r1)
unfolding compute_snapshot trim_prefix
compute_snapshot-sync_data pool r0 r1 h0 h1 =
    let payload = to_bytes 32 r0 ++ to_bytes 32 r1 in
    rw
      (
        ltb-words r0 r1,
        decode_hex-encode_hex payload (
            All-append (λ b. b < 256) (to_bytes 32 r0) (to_bytes 32 r1) (to_bytes-IsBytes 32 r0)
              (to_bytes-IsBytes 32 r1)),
        first_word r0 r1,
        second_word r0 r1,
        from_bytes-to_bytes 32 r0 h0,
        from_bytes-to_bytes 32 r1 h1,
      )
      refl
