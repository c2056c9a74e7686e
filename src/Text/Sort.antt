-- ===== src/Text/Sort.antt =====
-- sort.Strings, and the order of its result.
use screener_cd.Prelude.{
  ◌≡◌, refl, Bool, true, false, ◌||◌, List, [], ◌∷◌, arith, if◌then◌else◌, Bool-cases, inl, inr,
  All,
}
use screener_cd.Text.Defs.{Text, eqb, eqb_iff, ltb_text}

unfoldable pub insert_sorted : Text → List Text → List Text
insert_sorted s [] = s ∷ []
insert_sorted s (t ∷ ts) = if ltb_text t s then t ∷ insert_sorted s ts else s ∷ (t ∷ ts)

unfoldable pub sort_strings : List Text → List Text
sort_strings [] = []
sort_strings (s ∷ ss) = insert_sorted s (sort_strings ss)

-- Whether a text is in a list, as Go asks a map that is used as a set.
unfoldable pub is_in : Text → List Text → Bool
is_in k [] = false
is_in k (s ∷ ss) = eqb s k || is_in k ss

-- Texts in strictly ascending order, hence without a repetition.
abbrev pub Below : Text → List Text → Type 0
Below s [] = Unit
Below s (t ∷ ts) = ltb_text s t ≡ true

abbrev pub Ascending : List Text → Type 0
Ascending [] = Unit
Ascending (s ∷ ss) = Below s ss × Ascending ss

ltb_text_total : (s t : Text) → eqb s t ≡ false → ltb_text t s ≡ false → ltb_text s t ≡ true
unfolding eqb ltb_text
ltb_text_total [] [] e h = absurd cc
ltb_text_total [] (d ∷ t) e h = refl
ltb_text_total (c ∷ s) [] e h = absurd cc
ltb_text_total (c ∷ s) (d ∷ t) e h = ground (arith, ltb_text_total s t)

insert_sorted-Below :
    (r s : Text) (ss : List Text) → ltb_text r s ≡ true → Below r ss → Below r (insert_sorted s ss)
unfolding insert_sorted
insert_sorted-Below r s [] h b = h
insert_sorted-Below r s (t ∷ ts) h b = ground arith

insert_sorted-Ascending :
    (s : Text) (ss : List Text) → is_in s ss ≡ false → Ascending ss → Ascending (insert_sorted s ss)
unfolding insert_sorted is_in
insert_sorted-Ascending s [] h a = (tt, tt)
insert_sorted-Ascending s (t ∷ ts) h (b, a) = elim (Bool-cases (ltb_text t s)) [
  | inl less ↦
      rw less (insert_sorted-Below t s ts less b, insert_sorted-Ascending s ts (ground arith) a)
  | inr more ↦ rw more (ltb_text_total s t (ground (arith, eqb_iff s t, eqb_iff t s)) more, (b, a))
]

pub is_in-insert_sorted :
    (k s : Text) (ss : List Text) → is_in k (insert_sorted s ss) ≡ (eqb s k || is_in k ss)
unfolding insert_sorted is_in
is_in-insert_sorted k s [] = refl
is_in-insert_sorted k s (t ∷ ts) = ground (arith, is_in-insert_sorted k s ts)

pub is_in-sort_strings : (k : Text) (ss : List Text) → is_in k (sort_strings ss) ≡ is_in k ss
unfolding sort_strings is_in
is_in-sort_strings k [] = refl
is_in-sort_strings k (s ∷ ss) =
    ground (arith, is_in-insert_sorted k s (sort_strings ss), is_in-sort_strings k ss)

abbrev pub Unrepeated : List Text → Type 0
Unrepeated [] = Unit
Unrepeated (s ∷ ss) = (is_in s ss ≡ false) × Unrepeated ss

pub sort_strings-Ascending : (ss : List Text) → Unrepeated ss → Ascending (sort_strings ss)
unfolding sort_strings
sort_strings-Ascending [] u = tt
sort_strings-Ascending (s ∷ ss) (fresh, u) =
    insert_sorted-Ascending s (sort_strings ss) (rw (is_in-sort_strings s ss) fresh)
      (sort_strings-Ascending ss u)

pub insert_sorted-All :
    (P : Text → Type 0) (s : Text) (ss : List Text) → P s → All P ss → All P (insert_sorted s ss)
unfolding insert_sorted
insert_sorted-All P s [] p ps = (p, tt)
insert_sorted-All P s (t ∷ ts) p (q, ps) = elim (Bool-cases (ltb_text t s)) [
  | inl less ↦ rw less (q, insert_sorted-All P s ts p ps)
  | inr more ↦ rw more (p, (q, ps))
]

pub sort_strings-All : (P : Text → Type 0) (ss : List Text) → All P ss → All P (sort_strings ss)
unfolding sort_strings
sort_strings-All P [] ps = tt
sort_strings-All P (s ∷ ss) (p, ps) =
    insert_sorted-All P s (sort_strings ss) p (sort_strings-All P ss ps)
