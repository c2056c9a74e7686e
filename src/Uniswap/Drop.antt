-- ===== src/Uniswap/Drop.antt =====
-- What the filter on small changes lets through, over a whole run of prices.
use screener_cd.Prelude.{
  ◌*◌, ◌≤◌, ◌≡◌, refl, ◌⊎◌, inl, inr, true, false, List, [], ◌∷◌, ◌++◌, Option, none, some, arith,
  Bool-cases, sym, if◌then◌else◌,
}
use mathlib.Core.Path.{subst}
use screener_cd.Uniswap.Price.{Rat, distance, same_rat, is_close, should_drop}

-- The prices that pass, in order, from the last price kept; and the last price kept at the end.
abbrev pub passed : Option Rat → List Rat → List Rat
passed last [] = []
passed last (p ∷ ps) =
    let rest = passed (some (should_drop last p).1) ps in
    if (should_drop last p).0 then rest else p ∷ rest

abbrev pub last_kept : Option Rat → List Rat → Option Rat
last_kept last [] = last
last_kept last (p ∷ ps) = last_kept (some (should_drop last p).1) ps

-- The price is another one, and differs by at least a ten thousandth of the last.
abbrev pub IsChangeFrom : Option Rat → Rat → Type 0
IsChangeFrom none price = Unit
IsChangeFrom (some last) price =
    (same_rat price last ≡ false)
    × (last.num * price.den ≤ distance (price.num * last.den) (last.num * price.den) * 10000)

-- Each price is a change from the one before it.
abbrev pub IsSpaced : Option Rat → List Rat → Type 0
IsSpaced last [] = Unit
IsSpaced last (p ∷ ps) = IsChangeFrom last p × IsSpaced (some p) ps

-- The price equals the last one kept, or differs from it by less than a ten thousandth.
abbrev pub IsNear : Rat → Rat → Type 0
IsNear price last = (same_rat price last ≡ true) ⊎ (is_close price last ≡ true)

-- The two outcomes of the filter.
data Outcome (last : Option Rat) (price : Rat) : Type 0 where
  dropped :
      (q : Rat)
      → last ≡ some q
      → should_drop last price ≡ (true, q)
      → IsNear price q
      → Outcome last price
  let_through :
      should_drop last price ≡ (false, price) → IsChangeFrom last price → Outcome last price

should_drop-cases : (last : Option Rat) (price : Rat) → Outcome last price
unfolding should_drop is_close
should_drop-cases none price = let_through refl tt
should_drop-cases (some q) price = elim (Bool-cases (same_rat price q)) [
  | inl same ↦ dropped q refl (rw same refl) (inl same)
  | inr other ↦ elim (Bool-cases (is_close price q)) [
    | inl close ↦ dropped q refl (rw (other, close) refl) (inr close)
    | inr far ↦ let_through (rw (other, far) refl) (other, ground arith)
  ]
]

passed-IsSpaced : (last : Option Rat) (ps : List Rat) → IsSpaced last (passed last ps)
passed-IsSpaced last [] = tt
passed-IsSpaced last (p ∷ ps) = elim (should_drop-cases last p) [
  | dropped q here d near ↦
      rw d (subst (λ o. IsSpaced o (passed (some q) ps)) (sym here) (passed-IsSpaced (some q) ps))
  | let_through d change ↦ rw d (change, passed-IsSpaced (some p) ps)
]

-- What is kept after a price is near to it.
kept-IsNear : (last : Option Rat) (p : Rat) → IsNear p (should_drop last p).1
unfolding same_rat
kept-IsNear last p = elim (should_drop-cases last p) [
  | dropped q here d near ↦ rw d near
  | let_through d change ↦ rw d (inl (ground arith))
]

last_kept-snoc :
    (last : Option Rat) (ps : List Rat) (p : Rat)
    → last_kept last (ps ++ p ∷ []) ≡ some (should_drop (last_kept last ps) p).1
last_kept-snoc last [] p = refl
last_kept-snoc last (q ∷ ps) p = last_kept-snoc (some (should_drop last q).1) ps p

-- Of any run of prices, each that the filter lets through differs from the one let through before
-- by at least a ten thousandth of it; and the last price that is kept is within a ten thousandth
-- of the last price of the run.
pub should_drop-IsSpaced :
    (ps : List Rat) (p : Rat)
    → IsSpaced none (passed none (ps ++ p ∷ []))
      × ((q : Rat) × (last_kept none (ps ++ p ∷ []) ≡ some q) × IsNear p q)
should_drop-IsSpaced ps p = (
  passed-IsSpaced none (ps ++ p ∷ []),
  (
    (should_drop (last_kept none ps) p).1,
    last_kept-snoc none ps p,
    kept-IsNear (last_kept none ps) p,
  ),
)
