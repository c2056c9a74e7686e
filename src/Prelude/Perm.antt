-- ===== src/Prelude/Perm.antt =====
-- Predicates of every element along a permutation, for the unspecified order of `range`.
use mathlib.Core.Path.{subst}
use mathlib.Core.List.{Memᴰ, Permᴰ}
use screener_cd.Prelude.{List, [], ◌∷◌, All, All-implies, refl, ◌≡◌, length, ap, ◌∙◌, suc}

pub All-perm {ℓ κ} :
    {A : Type ℓ} (P : A → Type κ) {xs ys : List A} → Permᴰ xs ys → All P xs → All P ys
All-perm P Permᴰ.nil h = tt
All-perm P (Permᴰ.cons e p) (hx, h) = (subst P e hx, All-perm P p h)
All-perm P (Permᴰ.swap e e') (ha, (hb, h)) = (subst P e' hb, (subst P e ha, h))
All-perm P (Permᴰ.trans p q) h = All-perm P q (All-perm P p h)

pub All-Memᴰ {ℓ} : {A : Type ℓ} (xs : List A) → All (λ x. Memᴰ x xs) xs
All-Memᴰ [] = tt
All-Memᴰ (x ∷ xs) = (
  Memᴰ.head refl,
  All-implies (λ y. Memᴰ y xs) (λ y. Memᴰ y (x ∷ xs)) xs (λ y m. Memᴰ.tail m) (All-Memᴰ xs),
)

pub length-perm {ℓ} : {A : Type ℓ} {xs ys : List A} → Permᴰ xs ys → length xs ≡ length ys
length-perm Permᴰ.nil = refl
length-perm (Permᴰ.cons e p) = ap suc (length-perm p)
length-perm (Permᴰ.swap e e') = refl
length-perm (Permᴰ.trans p q) = length-perm p ∙ length-perm q
