-- ===== src/Launcher/Wanted.antt =====
-- internal/launcher/register_dex.go: the merge of the wanted pairs.
use screener_cd.Prelude.{
  ◌≡◌, ◌≢◌, refl, ◌⊎◌, inl, inr, Bool, true, false, ◌||◌, List, [], ◌∷◌, ◌++◌, map, arith,
  if◌then◌else◌, Bool-cases,
}
use mathlib.Core.Path.{subst}
use screener_cd.Text.{Text, eqb, eqb_iff, to_upper, trim_space}
use screener_cd.Text.Sort.{is_in}

-- `add` on a list, with the keys that were seen before.
unfoldable pub add_pairs : List Text → List Text → List Text
add_pairs [] seen = []
add_pairs (raw ∷ raws) seen =
    let trimmed = trim_space raw in
    let rest = add_pairs raws seen in
    let longer = trimmed ∷ add_pairs raws (to_upper trimmed ∷ seen) in
    if eqb trimmed [] then rest else if is_in (to_upper trimmed) seen then rest else longer

-- The two calls of `add` share the keys, so they are one call on both lists.
unfoldable pub merge_wanted_pairs : List Text → List Text → List Text
merge_wanted_pairs primary secondary = add_pairs (primary ++ secondary) []

-- No pair is, up to case, among those seen before or twice in the list.
abbrev pub IsFresh : List Text → List Text → Type 0
IsFresh seen [] = Unit
IsFresh seen (t ∷ ts) = (is_in (to_upper t) seen ≡ false) × IsFresh (to_upper t ∷ seen) ts

-- What becomes of a list of raw pairs.
pub record IsMerged (raws seen ts : List Text) : Type 0 where
  pub fresh : IsFresh seen ts
  pub complete :
      (raw : Text)
      → is_in raw raws ≡ true
      → trim_space raw ≢ []
      → (is_in (to_upper (trim_space raw)) seen
          || is_in (to_upper (trim_space raw)) (map to_upper ts))
        ≡ true
  pub taken : (t : Text) → is_in t ts ≡ true → (t ≢ []) × (is_in t (map trim_space raws) ≡ true)

or_cases : (a b : Bool) → (a || b) ≡ true → (a ≡ true) ⊎ (b ≡ true)
or_cases true b h = inl refl
or_cases false b h = inr h

or_swap : (a b c : Bool) → ((a || b) || c) ≡ true → (b || (a || c)) ≡ true
or_swap a b c h = ground arith

or_right : (a b : Bool) → b ≡ true → (a || b) ≡ true
or_right a b h = ground arith

-- A raw pair of the list is the first one or one of the rest.
in_cons :
    (r raw : Text) (raws : List Text)
    → is_in r (raw ∷ raws) ≡ true
    → (raw ≡ r) ⊎ (is_in r raws ≡ true)
unfolding is_in
in_cons r raw raws h = elim (or_cases (eqb raw r) (is_in r raws) h) [
  | inl same ↦ inl ((eqb_iff raw r).0 same)
  | inr later ↦ inr later
]

add_pairs-IsMerged : (raws seen : List Text) → IsMerged raws seen (add_pairs raws seen)
unfolding add_pairs is_in
add_pairs-IsMerged [] seen = record {
  fresh = tt;
  complete = λ raw h filled. absurd cc;
  taken = λ t h. absurd cc;
}
add_pairs-IsMerged (raw ∷ raws) seen =
    let t = trim_space raw in
    let rest = add_pairs-IsMerged raws seen in
    let longer = add_pairs-IsMerged raws (to_upper t ∷ seen) in
    elim (Bool-cases (eqb t [])) [
      | inl empty ↦ rw empty (record {
        fresh = rest.fresh;
        complete = λ r h filled. elim (in_cons r raw raws h) [
          | inl same ↦
              absurd (filled (subst (λ x. trim_space x ≡ []) same ((eqb_iff t []).0 empty)))
          | inr later ↦ rest.complete r later filled
        ];
        taken = λ u h. ((rest.taken u h).0, or_right _ _ (rest.taken u h).1);
      })
      | inr filled ↦ elim (Bool-cases (is_in (to_upper t) seen)) [
        | inl known ↦
            rw (filled, known)
              (record {
                fresh = rest.fresh;
                complete = λ r h f. elim (in_cons r raw raws h) [
                  | inl same ↦
                      subst
                        (λ x.
                          (is_in (to_upper (trim_space x)) seen
                            || is_in (to_upper (trim_space x)) (map to_upper (add_pairs raws seen)))
                          ≡ true)
                        same (rw known refl)
                  | inr later ↦ rest.complete r later f
                ];
                taken = λ u h. ((rest.taken u h).0, or_right _ _ (rest.taken u h).1);
              })
        | inr new ↦
            rw (filled, new)
              (record {
                fresh = (new, longer.fresh);
                complete = λ r h f. elim (in_cons r raw raws h) [
                  | inl same ↦
                      subst
                        (λ x.
                          (is_in (to_upper (trim_space x)) seen
                            || (eqb (to_upper t) (to_upper (trim_space x))
                                || is_in (to_upper (trim_space x))
                                    (map to_upper (add_pairs raws (to_upper t ∷ seen)))))
                          ≡ true)
                        same (rw (new, (eqb_iff (to_upper t) (to_upper t)).1 refl) refl)
                  | inr later ↦
                      or_swap (eqb (to_upper t) (to_upper (trim_space r))) _ _
                        (longer.complete r later f)
                ];
                taken = λ u h. elim (in_cons u t (add_pairs raws (to_upper t ∷ seen)) h) [
                  | inl same ↦
                      subst (λ x. (x ≢ []) × ((eqb t x || is_in x (map trim_space raws)) ≡ true))
                        same
                        ((λ nil. cc ((eqb_iff t []).1 nil, filled)), rw ((eqb_iff t t).1 refl) refl)
                  | inr later ↦ ((longer.taken u later).0, or_right _ _ (longer.taken u later).1)
                ];
              })
      ]
    ]

-- The merged pairs are trimmed, not empty, and from one of the two lists; no two are the same up
-- to case; and each pair of the two lists that is not blank is among them up to case.
pub merge_wanted_pairs-IsMerged :
    (primary secondary : List Text)
    → IsMerged (primary ++ secondary) [] (merge_wanted_pairs primary secondary)
unfolding merge_wanted_pairs
merge_wanted_pairs-IsMerged primary secondary = add_pairs-IsMerged (primary ++ secondary) []
