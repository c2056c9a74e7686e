-- ===== src/Samples.antt =====
-- Concrete instances of the parameters, for tests and witnesses: addresses written in unary, and
-- float64 operations that are right where the samples use them (products with 1.0, no rounding).
use mathlib.Core.List.{Permᴰ}
use mathlib.Core.List.Permᴰ
use screener_cd.Prelude.{
  ℕ, suc, ◌-◌, ◌≡◌, ◌≢◌, refl, ap, List, [], ◌∷◌, arith, replicate, length, length-replicate,
  if◌then◌else◌, ◌==◌,
}
use screener_cd.Text.{Text, codes, to_lower, has_prefix}
use screener_cd.Float.{FloatOps, f_one}
use screener_cd.Eth.{EthCommon, IsLawful}

abbrev pub unary_hex : ℕ → Text
unary_hex a = b'0' ∷ b'x' ∷ replicate a b'1'

abbrev pub sample_eth : EthCommon
sample_eth = record {
  hex = unary_hex;
  is_hex_address = λ s. has_prefix s (codes "0x");
  hex_to_address = λ s. length s - 2;
  bytes_to_address = λ b. length b;
}

length-to_lower : (s : Text) → length (to_lower s) ≡ length s
unfolding to_lower
length-to_lower [] = refl
length-to_lower (c ∷ s) = ap suc (length-to_lower s)

pub sample_eth-IsLawful : IsLawful sample_eth
sample_eth-IsLawful = record { hex_injective = same; hex-ne-nil = filled }
  where
    same : (a b : ℕ) → to_lower (unary_hex a) ≡ to_lower (unary_hex b) → a ≡ b
    same a b e = omega (
      arith,
      ap length e,
      length-to_lower (unary_hex a),
      length-to_lower (unary_hex b),
      length-replicate {A = ℕ} a b'1',
      length-replicate {A = ℕ} b b'1',
    )

    filled : (a : ℕ) → to_lower (unary_hex a) ≢ []
    filled a e = omega (arith, ap length e, length-to_lower (unary_hex a))

abbrev pub sample_float : FloatOps
sample_float = record {
  mul = λ a b. if a == f_one then b else a;
  div = λ a b. b;
  add = λ a b. a;
  sub = λ a b. if a == b then 0 else a;
}

-- The order in which the entries stand.
abbrev pub in_order {ℓ} : {A : Type ℓ} → ℕ → List A → List A
in_order k xs = xs

pub in_order-perm {ℓ} : {A : Type ℓ} (k : ℕ) (xs : List A) → Permᴰ xs (in_order k xs)
in_order-perm k xs = Permᴰ.refl xs
