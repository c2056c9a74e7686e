-- ===== src/Util/Gate.antt =====
-- internal/util/helpers.go: where `BybitToGateSymbol` cuts a symbol.
use screener_cd.Prelude.{
  ◌-◌, ◌≤◌, ◌<◌, ◌≡◌, sym, ap, ◌∙◌, true, ◌&&◌, ◌⊎◌, inl, inr, List, [], ◌∷◌, ◌++◌, none, some,
  arith, ltb, length, take, drop, take-append-drop, drop-append_all, length-append, length-take,
  All, Bool-cases, Option-cases,
}
use screener_cd.Text.{Text, eqb, eqb_iff}
use screener_cd.Text.Sort.{is_in}
use screener_cd.Util.Helpers.{
  bybit_to_gate_symbol, split_suffix, default_split, quote_suffixes, insert_at,
}

abbrev pub EndsIn : Text → Text → Type 0
EndsIn q s = (r : Text) × (s ≡ r ++ q)

-- `t` is `s` with an underscore between a base that is not empty and a quote of the list `qs`.
abbrev IsQuoted : List Text → Text → Text → Type 0
IsQuoted qs t s =
    (p : Text) × (q : Text) × (s ≡ p ++ q)
    × (t ≡ p ++ b'_' ∷ q)
    × (0 < length p)
    × (is_in q qs ≡ true)

-- The underscore stands before a known quote, or before the last four bytes of a symbol that ends
-- in no known quote.
abbrev pub IsGateForm : Text → Text → Type 0
IsGateForm t s =
    (p : Text) × (q : Text) × (s ≡ p ++ q)
    × (t ≡ p ++ b'_' ∷ q)
    × (0 < length p)
    × ((is_in q quote_suffixes ≡ true) ⊎ (length q ≡ 4) × All (λ x. ¬ EndsIn x s) quote_suffixes)

-- The rest from where a text that ends in `q` has `q`.
drop-EndsIn : (q s : Text) → EndsIn q s → drop (length s - length q) s ≡ q
drop-EndsIn q s (r, e) =
    let here : length s - length q ≡ length r = omega (arith, ap length e, length-append r q) in
    ap (λ n. drop n s) here ∙ ap (drop (length r)) e ∙ drop-append_all r q

split_suffix-IsQuoted : (qs : List Text) (s t : Text) → split_suffix qs s ≡ some t → IsQuoted qs t s
unfolding split_suffix insert_at is_in
split_suffix-IsQuoted [] s t h = cc
split_suffix-IsQuoted (q ∷ qs) s t h =
    let n = length s - length q in
    elim (Bool-cases (ltb (length q) (length s) && eqb (drop n s) q)) [
      | inl fits ↦ (
        take n s,
        drop n s,
        sym (take-append-drop n s),
        ground arith,
        ground (arith, length-take n s),
        ground (arith, eqb_iff (drop n s) q, eqb_iff q (drop n s)),
      )
      | inr other ↦
          let (p, u, e, f, filled, known) = split_suffix-IsQuoted qs s t (rw other at h) in
          (p, u, e, f, filled, ground arith)
    ]

split_suffix-All :
    (qs : List Text) (s : Text)
    → All (λ q. length q < length s) qs
    → split_suffix qs s ≡ none
    → All (λ q. ¬ EndsIn q s) qs
unfolding split_suffix
split_suffix-All [] s short h = tt
split_suffix-All (q ∷ qs) s (lt, short) h =
    let n = length s - length q in
    elim (Bool-cases (ltb (length q) (length s) && eqb (drop n s) q)) [
      | inl fits ↦ absurd (cc (rw fits at h))
      | inr other ↦ (
        λ ends. absurd (ground (arith, eqb_iff (drop n s) q, drop-EndsIn q s ends)),
        split_suffix-All qs s short (rw other at h),
      )
    ]

-- From five bytes on, `BybitToGateSymbol` puts one underscore into the symbol, behind at least one
-- byte: before a known quote, or before the last four bytes if the symbol ends in no known quote.
pub bybit_to_gate-IsGateForm : (s : Text) → 5 ≤ length s → IsGateForm (bybit_to_gate_symbol s) s
unfolding bybit_to_gate_symbol default_split insert_at
bybit_to_gate-IsGateForm s h = elim (Option-cases (split_suffix quote_suffixes s)) [
  | inl e ↦ (
    take (length s - 4) s,
    drop (length s - 4) s,
    sym (take-append-drop (length s - 4) s),
    ground arith,
    omega (arith, length-take (length s - 4) s),
    inr (
      omega (
        arith,
        length-take (length s - 4) s,
        length-append (take (length s - 4) s) (drop (length s - 4) s),
        ap length (take-append-drop (length s - 4) s),
      ),
      split_suffix-All quote_suffixes s (omega arith) e,
    ),
  )
  | inr (t, e) ↦
      let (p, q, a, b, filled, known) = split_suffix-IsQuoted quote_suffixes s t e in
      (p, q, a, ground arith, filled, inl known)
]

pub bybit_to_gate-short : (s : Text) → length s < 5 → bybit_to_gate_symbol s ≡ s
unfolding bybit_to_gate_symbol
bybit_to_gate-short s h = ground arith
