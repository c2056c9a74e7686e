-- ===== src/Util/Canonical.antt =====
-- The canonical spot symbol does not depend on how an exchange writes the pair.
use screener_cd.Prelude.{
  ℕ, sym, ◌≡◌, refl, ap, ◌∙◌, Bool, true, false, ◌||◌, [], ◌∷◌, ◌++◌, arith, ◌==◌, if◌then◌else◌,
  length, take, drop, take-append-drop, All,
}
use native.Mathlib.Decide.{dec_lt}
use screener_cd.Text.{
  Text, upper_byte, to_upper, trim_space, push, trim_left, trim_right, remove_byte,
}
use screener_cd.Text.Laws.{to_upper_idem, to_upper-trim_space, trim_space_idem}
use screener_cd.Util.Gate.{bybit_to_gate-IsGateForm, bybit_to_gate-short}
use screener_cd.Util.Helpers.{normalize_spot_symbol, bybit_to_gate_symbol, insert_at}

-- The bytes that the normaliser drops.
abbrev pub is_separator : ℕ → Bool
is_separator c = c == b'-' || (c == b'_' || (c == b'/' || c == b'.'))

unfoldable pub strip : Text → Text
strip [] = []
strip (c ∷ s) = let rest = strip s in if is_separator c then rest else c ∷ rest

remove_all :
    (s : Text)
    → remove_byte b'.' (remove_byte b'/' (remove_byte b'_' (remove_byte b'-' s))) ≡ strip s
unfolding remove_byte strip
remove_all [] = refl
remove_all (c ∷ s) = ground (arith, remove_all s)

pub normalize_spot-strip :
    (e s : Text) → normalize_spot_symbol e s ≡ trim_space (strip (to_upper s))
unfolding normalize_spot_symbol
normalize_spot-strip e s = ap trim_space (remove_all (to_upper s))

pub strip-append : (s t : Text) → strip (s ++ t) ≡ strip s ++ strip t
unfolding strip
strip-append [] t = refl
strip-append (c ∷ s) t = ground (arith, strip-append s t)

strip-halves :
    (p q : Text) (b : ℕ)
    → is_separator (upper_byte b) ≡ true
    → strip (to_upper (p ++ (b ∷ q))) ≡ strip (to_upper (p ++ q))
unfolding strip to_upper
strip-halves [] q b h = rw h
strip-halves (c ∷ p) q b h = rw (strip-halves p q b h)

-- A separator put anywhere into the text is dropped again.
pub strip-insert_at :
    (n b : ℕ) (s : Text)
    → is_separator (upper_byte b) ≡ true
    → strip (to_upper (insert_at n b s)) ≡ strip (to_upper s)
unfolding insert_at
strip-insert_at n b s h =
    strip-halves (take n s) (drop n s) b h ∙ ap (λ t. strip (to_upper t)) (take-append-drop n s)

underscore : is_separator (upper_byte b'_') ≡ true
unfolding upper_byte
underscore = refl

-- Whatever an exchange's Gate form of a symbol is, the canonical symbol is that of the original.
pub normalize_spot-bybit_to_gate :
    (e s : Text) → normalize_spot_symbol e (bybit_to_gate_symbol s) ≡ normalize_spot_symbol e s
normalize_spot-bybit_to_gate e s = elim (dec_lt (length s) 5) [
  | yes h ↦ ap (normalize_spot_symbol e) (bybit_to_gate-short s h)
  | no h ↦
      let (p, q, whole, cut, filled, known) = bybit_to_gate-IsGateForm s (omega arith) in
      rw (normalize_spot-strip, normalize_spot-strip, cut)
        (ap trim_space (strip-halves p q b'_' underscore)
          ∙ ap (λ t. trim_space (strip (to_upper t))) (sym whole))
]

-- Idempotence.

abbrev IsClean : Text → Type 0
IsClean = All (λ c. is_separator c ≡ false)

strip-IsClean : (s : Text) → IsClean (strip s)
unfolding strip
strip-IsClean [] = tt
strip-IsClean (c ∷ s) = ground (arith, strip-IsClean s)

strip_of_IsClean : (s : Text) → IsClean s → strip s ≡ s
unfolding strip
strip_of_IsClean [] h = refl
strip_of_IsClean (c ∷ s) (hc, h) = rw (hc, strip_of_IsClean s h)

trim_left-IsClean : (s : Text) → IsClean s → IsClean (trim_left s)
unfolding trim_left
trim_left-IsClean [] h = tt
trim_left-IsClean (c ∷ s) h = ground (arith, trim_left-IsClean s)

push-IsClean : (c : ℕ) (s : Text) → is_separator c ≡ false → IsClean s → IsClean (push c s)
unfolding push
push-IsClean c [] hc h = ground arith
push-IsClean c (d ∷ s) hc h = (hc, h)

trim_right-IsClean : (s : Text) → IsClean s → IsClean (trim_right s)
unfolding trim_right
trim_right-IsClean [] h = tt
trim_right-IsClean (c ∷ s) (hc, h) = push-IsClean c (trim_right s) hc (trim_right-IsClean s h)

is_separator-upper_byte : (c : ℕ) → is_separator (upper_byte c) ≡ is_separator c
unfolding upper_byte
is_separator-upper_byte c = ground arith

pub to_upper-strip : (s : Text) → to_upper (strip s) ≡ strip (to_upper s)
unfolding strip to_upper
to_upper-strip [] = refl
to_upper-strip (c ∷ s) = ground (arith, to_upper-strip s, is_separator-upper_byte c)

-- Normalising twice is normalising once.
pub normalize_spot_idem :
    (e s : Text) → normalize_spot_symbol e (normalize_spot_symbol e s) ≡ normalize_spot_symbol e s
unfolding trim_space
normalize_spot_idem e s =
    let t = strip (to_upper s) in
    let clean =
      trim_left-IsClean (trim_right t) (trim_right-IsClean t (strip-IsClean (to_upper s))) in
    simp (normalize_spot-strip, to_upper-trim_space, to_upper-strip, to_upper_idem)
      (ap trim_space (strip_of_IsClean (trim_space t) clean) ∙ trim_space_idem t)
