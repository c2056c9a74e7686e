-- ===== src/Text/Laws.antt =====
-- Case, trimming and separators: the laws that the normalisers rest on.
use screener_cd.Prelude.{
  ℕ, ◌≡◌, refl, sym, ap, ◌∙◌, true, false, [], ◌∷◌, ◌++◌, arith, Bool-cases, inl, inr,
}
use screener_cd.Text.Defs.{
  Text, is_space, upper_byte, lower_byte, to_upper, to_lower, push, trim_left, trim_right,
  trim_space,
}

pub upper_byte_idem : (c : ℕ) → upper_byte (upper_byte c) ≡ upper_byte c
unfolding upper_byte
upper_byte_idem c = ground arith

lower_byte_idem : (c : ℕ) → lower_byte (lower_byte c) ≡ lower_byte c
unfolding lower_byte
lower_byte_idem c = ground arith

lower_byte-upper_byte : (c : ℕ) → upper_byte (lower_byte c) ≡ upper_byte c
unfolding lower_byte upper_byte
lower_byte-upper_byte c = ground arith

is_space-upper_byte : (c : ℕ) → is_space (upper_byte c) ≡ is_space c
unfolding upper_byte is_space
is_space-upper_byte c = ground arith

is_space-lower_byte : (c : ℕ) → is_space (lower_byte c) ≡ is_space c
unfolding lower_byte is_space
is_space-lower_byte c = ground arith

pub to_upper_idem : (s : Text) → to_upper (to_upper s) ≡ to_upper s
unfolding to_upper
to_upper_idem [] = refl
to_upper_idem (c ∷ s) = cc (upper_byte_idem c, to_upper_idem s)

pub to_lower_idem : (s : Text) → to_lower (to_lower s) ≡ to_lower s
unfolding to_lower
to_lower_idem [] = refl
to_lower_idem (c ∷ s) = cc (lower_byte_idem c, to_lower_idem s)

pub to_upper-to_lower : (s : Text) → to_upper (to_lower s) ≡ to_upper s
unfolding to_upper to_lower
to_upper-to_lower [] = refl
to_upper-to_lower (c ∷ s) = cc (lower_byte-upper_byte c, to_upper-to_lower s)

pub to_upper-append : (s t : Text) → to_upper (s ++ t) ≡ to_upper s ++ to_upper t
unfolding to_upper
to_upper-append [] t = refl
to_upper-append (c ∷ s) t = cc (to_upper-append s t)

-- Trimming.

push_idem : (c : ℕ) (t : Text) → trim_right t ≡ t → trim_right (push c t) ≡ push c t
unfolding trim_right push
push_idem c [] h = ground arith
push_idem c (d ∷ r) h = rw h

pub trim_right_idem : (s : Text) → trim_right (trim_right s) ≡ trim_right s
unfolding trim_right
trim_right_idem [] = refl
trim_right_idem (c ∷ s) = push_idem c (trim_right s) (trim_right_idem s)

trim_left_idem : (s : Text) → trim_left (trim_left s) ≡ trim_left s
unfolding trim_left
trim_left_idem [] = refl
trim_left_idem (c ∷ s) = ground (arith, trim_left_idem s)

push-ne : (c : ℕ) (t : Text) → is_space c ≡ false → push c t ≡ c ∷ t
unfolding push
push-ne c [] h = rw h
push-ne c (d ∷ r) h = refl

-- Text that ends in no space keeps that when its leading spaces go.
trim_right-trim_left : (s : Text) → trim_right (trim_left s) ≡ trim_left (trim_right s)
unfolding trim_left trim_right
trim_right-trim_left [] = refl
trim_right-trim_left (c ∷ s) = elim (Bool-cases (is_space c)) [
  | inl space ↦ rw space (trim_right-trim_left s ∙ sym (skip c (trim_right s) space))
  | inr solid ↦ rw (solid, push-ne c (trim_right s) solid, solid)
]
  where
    skip : (c : ℕ) (t : Text) → is_space c ≡ true → trim_left (push c t) ≡ trim_left t
    skip c [] h = rw (push, h)
    skip c (d ∷ r) h = rw (push, h)

pub trim_space_idem : (s : Text) → trim_space (trim_space s) ≡ trim_space s
unfolding trim_space
trim_space_idem s =
    rw (trim_right-trim_left (trim_right s), trim_right_idem s) (trim_left_idem (trim_right s))

-- Case and trimming commute.

to_upper-trim_left : (s : Text) → to_upper (trim_left s) ≡ trim_left (to_upper s)
unfolding to_upper trim_left
to_upper-trim_left [] = refl
to_upper-trim_left (c ∷ s) = ground (arith, is_space-upper_byte c, to_upper-trim_left s)

to_upper-push : (c : ℕ) (s : Text) → to_upper (push c s) ≡ push (upper_byte c) (to_upper s)
unfolding to_upper push
to_upper-push c [] = ground (arith, is_space-upper_byte c)
to_upper-push c (d ∷ s) = refl

to_upper-trim_right : (s : Text) → to_upper (trim_right s) ≡ trim_right (to_upper s)
unfolding trim_right to_upper
to_upper-trim_right [] = refl
to_upper-trim_right (c ∷ s) =
    to_upper-push c (trim_right s)
    ∙ unfold to_upper in ap (push (upper_byte c)) (to_upper-trim_right s)

pub to_upper-trim_space : (s : Text) → to_upper (trim_space s) ≡ trim_space (to_upper s)
unfolding trim_space
to_upper-trim_space s = rw (to_upper-trim_left (trim_right s), to_upper-trim_right s)

to_lower-trim_left : (s : Text) → to_lower (trim_left s) ≡ trim_left (to_lower s)
unfolding to_lower trim_left
to_lower-trim_left [] = refl
to_lower-trim_left (c ∷ s) = ground (arith, is_space-lower_byte c, to_lower-trim_left s)

to_lower-push : (c : ℕ) (s : Text) → to_lower (push c s) ≡ push (lower_byte c) (to_lower s)
unfolding to_lower push
to_lower-push c [] = ground (arith, is_space-lower_byte c)
to_lower-push c (d ∷ s) = refl

to_lower-trim_right : (s : Text) → to_lower (trim_right s) ≡ trim_right (to_lower s)
unfolding trim_right to_lower
to_lower-trim_right [] = refl
to_lower-trim_right (c ∷ s) =
    to_lower-push c (trim_right s)
    ∙ unfold to_lower in ap (push (lower_byte c)) (to_lower-trim_right s)

pub to_lower-trim_space : (s : Text) → to_lower (trim_space s) ≡ trim_space (to_lower s)
unfolding trim_space
to_lower-trim_space s = rw (to_lower-trim_left (trim_right s), to_lower-trim_right s)
