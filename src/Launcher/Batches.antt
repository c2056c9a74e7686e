-- ===== src/Launcher/Batches.antt =====
-- The batches of a session: every symbol once, in order, and no batch too large.
use mathlib.Core.List.{flatten}
use screener_cd.Prelude.{
  ℕ, ◌≤◌, ◌<◌, ◌≡◌, refl, ap, ◌∙◌, List, [], ◌∷◌, ◌++◌, map, leb, arith, length, length-append,
  append_assoc, append-nil, All, Bool-cases, inl, inr,
}
use screener_cd.Prelude.Int.{ℤ, pos, negsuc}
use screener_cd.Text.{Text}
use mathlib.Core.Path.{subst⁻¹}
use screener_cd.Config.Types.{Config}
use screener_cd.Launcher.Cex.{
  Action, subscribe, subscribe_batch, pause, read_loop, keep_alive, forward, close, push,
  subscribe_batches, size_or, bitget_session, okx_session, bitget_inst_id, okx_inst_id,
}

-- The batches among the actions.
unfoldable pub batches_of : List Action → List (List Text)
batches_of [] = []
batches_of (subscribe_batch b ∷ rest) = b ∷ batches_of rest
batches_of (subscribe s ∷ rest) = batches_of rest
batches_of (pause n ∷ rest) = batches_of rest
batches_of (read_loop ∷ rest) = batches_of rest
batches_of (keep_alive n ∷ rest) = batches_of rest
batches_of (forward ∷ rest) = batches_of rest
batches_of (close ∷ rest) = batches_of rest

module _ (name : Text → Text) (size : ℕ) (rest : ℤ) where
  push-flatten :
      (batch : List Text) (later : List Action)
      → flatten (batches_of (push rest batch later)) ≡ batch ++ flatten (batches_of later)
  unfolding batches_of flatten
  push-flatten [] later = refl
  push-flatten (s ∷ batch) later = refl

  flatten-batches :
      (ss batch : List Text)
      → flatten (batches_of (subscribe_batches name size rest batch ss)) ≡ batch ++ map name ss
  unfolding subscribe_batches batches_of flatten
  flatten-batches [] batch = push-flatten batch []
  flatten-batches (s ∷ ss) batch =
      let batch1 = batch ++ name s ∷ [] in
      let moved = append_assoc batch (name s ∷ []) (map name ss) in
      elim (Bool-cases (leb size (length batch1))) [
        | inl full ↦ rw full (
            push-flatten batch1 (subscribe_batches name size rest [] ss)
            ∙ ap (λ t. batch1 ++ t) (flatten-batches ss [])
            ∙ moved)
        | inr more ↦ rw more (flatten-batches ss batch1 ∙ moved)
      ]

  abbrev IsShort : List Text → Type 0
  IsShort b = (0 < length b) × (length b ≤ size)

  push-IsShort :
      (batch : List Text) (later : List Action)
      → length batch ≤ size
      → All IsShort (batches_of later)
      → All IsShort (batches_of (push rest batch later))
  unfolding batches_of
  push-IsShort [] later h later_short = later_short
  push-IsShort (s ∷ batch) later h later_short = ((omega arith, h), later_short)

  batches-IsShort :
      (ss batch : List Text)
      → length batch < size
      → All IsShort (batches_of (subscribe_batches name size rest batch ss))
  unfolding subscribe_batches batches_of
  batches-IsShort [] batch h = push-IsShort batch [] (omega arith) tt
  batches-IsShort (s ∷ ss) batch h =
      let batch1 = batch ++ name s ∷ [] in
      let grown = length-append batch (name s ∷ []) in
      elim (Bool-cases (leb size (length batch1))) [
        | inl full ↦ rw full (
            push-IsShort batch1 (subscribe_batches name size rest [] ss) (omega (arith, grown))
              (batches-IsShort ss [] (omega arith)))
        | inr more ↦ rw more (batches-IsShort ss batch1 (ground (arith, grown)))
      ]

batches_of-append : (xs ys : List Action) → batches_of (xs ++ ys) ≡ batches_of xs ++ batches_of ys
unfolding batches_of
batches_of-append [] ys = refl
batches_of-append (subscribe_batch b ∷ xs) ys = ap (λ t. b ∷ t) (batches_of-append xs ys)
batches_of-append (subscribe s ∷ xs) ys = batches_of-append xs ys
batches_of-append (pause n ∷ xs) ys = batches_of-append xs ys
batches_of-append (read_loop ∷ xs) ys = batches_of-append xs ys
batches_of-append (keep_alive n ∷ xs) ys = batches_of-append xs ys
batches_of-append (forward ∷ xs) ys = batches_of-append xs ys
batches_of-append (close ∷ xs) ys = batches_of-append xs ys

-- Each symbol stands in one batch, in order, under the exchange's name, and every batch has
-- between one and `size` symbols.
abbrev pub IsBatched : (Text → Text) → ℕ → List Text → List Action → Type 0
IsBatched name size symbols actions =
    (flatten (batches_of actions) ≡ map name symbols)
    × All (λ b. (0 < length b) × (length b ≤ size)) (batches_of actions)

-- The batches of a session are those of its loop.
session-IsBatched :
    (name : Text → Text) (size : ℕ) (rest : ℤ) (symbols : List Text) (tail : List Action)
    → 0 < size
    → batches_of tail ≡ []
    → IsBatched name size symbols (subscribe_batches name size rest [] symbols ++ tail)
session-IsBatched name size rest symbols tail filled none_there =
    let loop = subscribe_batches name size rest [] symbols in
    let same =
      batches_of-append loop tail
      ∙ ap (λ t. batches_of loop ++ t) none_there
      ∙ append-nil (batches_of loop) in
    (
      ap flatten same ∙ flatten-batches name size rest symbols [],
      subst⁻¹ (All (λ b. (0 < length b) × (length b ≤ size))) same
          (batches-IsShort name size rest symbols [] filled),
    )

size_or-positive : (d : ℕ) (x : ℤ) → 0 < d → 0 < size_or d x
size_or-positive d (pos n) h = ground arith
size_or-positive d (negsuc n) h = h

-- A Bitget session subscribes to every symbol once, in order, in batches of the configured size,
-- or of 30 where none is configured, and none is empty.
pub bitget_session-IsBatched :
    (c : Config) (symbols : List Text)
    → IsBatched bitget_inst_id
        (size_or 30 c.bitget_subscribe_batch_size)
        symbols
        (bitget_session c symbols)
unfolding bitget_session batches_of
bitget_session-IsBatched c symbols =
    session-IsBatched bitget_inst_id (size_or 30 c.bitget_subscribe_batch_size) _ symbols _
      (size_or-positive 30 c.bitget_subscribe_batch_size (omega arith)) refl

-- An OKX session subscribes to every symbol once, in order, in batches of the configured size, or
-- of 100 where none is configured, and none is empty.
pub okx_session-IsBatched :
    (c : Config) (symbols : List Text)
    → IsBatched okx_inst_id (size_or 100 c.subscribe_batch_size) symbols (okx_session c symbols)
unfolding okx_session batches_of
okx_session-IsBatched c symbols =
    session-IsBatched okx_inst_id (size_or 100 c.subscribe_batch_size) _ symbols _
      (size_or-positive 100 c.subscribe_batch_size (omega arith)) refl
