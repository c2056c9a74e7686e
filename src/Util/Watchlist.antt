-- ===== src/Util/Watchlist.antt =====
-- What a list of symbols that was read from a file is sure to be.
use screener_cd.Prelude.{
  ◌≡◌, ◌≢◌, refl, sym, ap, ◌∙◌, ◌⊎◌, inl, inr, true, false, not, ◌&&◌, ◌||◌, List, [], ◌∷◌, map,
  Option, none, some, arith, Bool-cases, Option-cases,
}
use screener_cd.Prelude.Result.{Result, ok, err, ok_inj}
use mathlib.Core.Path.{subst}
use screener_cd.Text.{Text, eqb, eqb_iff}
use screener_cd.Text.Sort.{
  is_in, sort_strings, Ascending, Unrepeated, is_in-sort_strings, sort_strings-Ascending,
}
use screener_cd.Util.Symbols.{
  SymbolsError, normalize_base_symbol, is_skipped, collect, non_empty, parse_symbols, or_legacy,
  load_symbols_from_file,
}

-- The symbols of a list of raw tickers: in order and without a repetition, and just those that
-- are not skipped.
pub record IsWatchlist (raws ss : List Text) : Type 0 where
  pub filled : ss ≢ []
  pub ascending : Ascending ss
  pub members :
      (s : Text) → is_in s ss ≡ (is_in s (map normalize_base_symbol raws) && not (is_skipped s))

-- The loop gives no symbol that it has seen, and none twice.
collect-seen :
    (raws seen : List Text) (s : Text) → is_in s seen ≡ true → is_in s (collect raws seen) ≡ false
unfolding collect is_in
collect-seen [] seen s h = refl
collect-seen (raw ∷ raws) seen s h =
    let x = normalize_base_symbol raw in
    ground (arith, eqb_iff x s, collect-seen raws seen s h, collect-seen raws (x ∷ seen) s)

collect-Unrepeated : (raws seen : List Text) → Unrepeated (collect raws seen)
unfolding collect is_in
collect-Unrepeated [] seen = tt
collect-Unrepeated (raw ∷ raws) seen =
    let x = normalize_base_symbol raw in
    elim (Bool-cases (is_skipped x || is_in x seen)) [
      | inl passes ↦ rw passes (collect-Unrepeated raws seen)
      | inr taken ↦ rw taken (
        collect-seen raws (x ∷ seen) x (ground (arith, eqb_iff x x)),
        collect-Unrepeated raws (x ∷ seen),
      )
    ]

-- What is in the result of the loop.
is_in-collect :
    (raws seen : List Text) (s : Text)
    → is_in s (collect raws seen)
      ≡ (is_in s (map normalize_base_symbol raws) && not (is_skipped s) && not (is_in s seen))
unfolding collect is_in
is_in-collect [] seen s = refl
is_in-collect (raw ∷ raws) seen s =
    let x = normalize_base_symbol raw in
    elim (Bool-cases (eqb x s)) [
      | inl same ↦
          let path = (eqb_iff x s).0 same in
          ground (
            arith,
            same,
            ap is_skipped path,
            ap (λ y. is_in y seen) path,
            is_in-collect raws seen s,
          )
      | inr other ↦
          ground (arith, other, is_in-collect raws seen s, is_in-collect raws (x ∷ seen) s)
    ]

collect-IsWatchlist :
    (raws : List Text) → collect raws [] ≢ [] → IsWatchlist raws (sort_strings (collect raws []))
unfolding is_in
collect-IsWatchlist raws h = record {
  filled = λ e. h (empty_sort (collect raws []) e);
  ascending = sort_strings-Ascending (collect raws []) (collect-Unrepeated raws []);
  members = λ s. is_in-sort_strings s (collect raws []) ∙ ground (arith, is_in-collect raws [] s);
}
  where
    empty_sort : (ss : List Text) → sort_strings ss ≡ [] → ss ≡ []
    empty_sort [] e = refl
    empty_sort (s ∷ ss) e =
        ground (arith, is_in-sort_strings s (s ∷ ss), ap (is_in s) e, eqb_iff s s)

-- Bytes that give no symbol: they do not decode, or each of their tickers is skipped.
abbrev pub IsBarren : Option (List Text) → Type 0
IsBarren none = Unit
IsBarren (some raws) =
    (s : Text) → (is_in s (map normalize_base_symbol raws) && not (is_skipped s)) ≡ false

unparsed : (o : Option (List Text)) (why : SymbolsError) → parse_symbols o ≡ err why → IsBarren o
unfolding parse_symbols
unparsed none why h = tt
unparsed (some []) why h = λ s. unfold is_in in refl
unparsed (some (raw ∷ raws)) why h = barren (collect (raw ∷ raws) []) refl h
  where
    barren :
        (found : List Text)
        → found ≡ collect (raw ∷ raws) []
        → non_empty found ≡ err why
        → IsBarren (some (raw ∷ raws))
    barren [] e k =
        λ s. unfold is_in in ground (arith, ap (is_in s) e, is_in-collect (raw ∷ raws) [] s)
    barren (x ∷ xs) e k = absurd cc

parsed :
    (o : Option (List Text)) (ss : List Text)
    → parse_symbols o ≡ ok ss
    → (raws : List Text) × (o ≡ some raws) × IsWatchlist raws (sort_strings ss)
unfolding parse_symbols
parsed none ss h = absurd cc
parsed (some []) ss h = absurd cc
parsed (some (raw ∷ raws)) ss h = (raw ∷ raws, refl, taken (collect (raw ∷ raws) []) refl h)
  where
    taken :
        (found : List Text)
        → found ≡ collect (raw ∷ raws) []
        → non_empty found ≡ ok ss
        → IsWatchlist (raw ∷ raws) (sort_strings ss)
    taken [] e k = absurd cc
    taken (x ∷ xs) e k =
        subst (λ l. IsWatchlist (raw ∷ raws) (sort_strings l)) (sym e ∙ ok_inj k)
          (collect-IsWatchlist (raw ∷ raws) (λ q. cc (e ∙ q)))

-- A list of symbols that loads is the watch list of the file's entries, or, only where the entries
-- give no symbol, of its keys: not empty, strictly ascending, and with just the symbols of them that
-- are not skipped.
pub load_symbols-IsWatchlist :
    (read : Text → Option Text) (entries keys : Text → Option (List Text)) (path : Text)
    (ss : List Text)
    → load_symbols_from_file read entries keys path ≡ ok ss
    → (payload : Text) × (raws : List Text) × (read path ≡ some payload)
      × ((entries payload ≡ some raws) ⊎ IsBarren (entries payload) × (keys payload ≡ some raws))
      × IsWatchlist raws ss
unfolding load_symbols_from_file
load_symbols-IsWatchlist read entries keys path ss h = elim (Option-cases (read path)) [
  | inl no_file ↦ absurd (cc (rw no_file at h))
  | inr (payload, e) ↦
      let (raws, source, good) =
        chosen (parse_symbols (entries payload)) (parse_symbols (keys payload)) payload
          (parsed (entries payload)) (unparsed (entries payload)) (parsed (keys payload))
          (rw e at h) in
      (payload, raws, e, source, good)
]
  where
    IsFrom : Option (List Text) → Result SymbolsError (List Text) → Type 0
    IsFrom o r =
        (found : List Text)
        → r ≡ ok found
        → (raws : List Text) × (o ≡ some raws) × IsWatchlist raws (sort_strings found)

    chosen :
        (a b : Result SymbolsError (List Text)) (payload : Text)
        → IsFrom (entries payload) a
        → ((why : SymbolsError) → a ≡ err why → IsBarren (entries payload))
        → IsFrom (keys payload) b
        → or_legacy a b ≡ ok ss
        → (raws : List Text) × ((entries payload ≡ some raws)
            ⊎ IsBarren (entries payload) × (keys payload ≡ some raws))
          × IsWatchlist raws ss
    chosen (ok found) b payload fa na fb k =
        let (raws, source, good) = fa found refl in
        (raws, inl source, subst (IsWatchlist raws) (ok_inj k) good)
    chosen (err why) (ok found) payload fa na fb k =
        let (raws, source, good) = fb found refl in
        (raws, inr (na why refl, source), subst (IsWatchlist raws) (ok_inj k) good)
    chosen (err why) (err why2) payload fa na fb k = absurd cc
