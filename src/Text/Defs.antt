-- ===== src/Text/Defs.antt =====
-- The functions of the package strings that the program calls, with one-byte separators.
use Prim.Native.Char.{code}
use Prim.Native.String.{String}
use screener_cd.Prelude.{
  ℕ, ◌+◌, ◌-◌, ◌≡◌, refl, ◌↔◌, Bool, true, false, ◌&&◌, ◌||◌, List, [], ◌∷◌, ◌++◌, arith, ltb, leb,
  ◌==◌, if◌then◌else◌,
}
use screener_cd.Prelude.Dict.{Eq}

abbrev pub Text : Type 0
Text = List ℕ

-- The bytes of a literal.
abbrev pub codes : String → Text
codes String.[] = []
codes (String.◌∷◌ c s) = code c ∷ codes s

-- '\t' to '\r', and ' '
unfoldable pub is_space : ℕ → Bool
is_space c = c == 32 || leb 9 c && leb c 13

unfoldable pub upper_byte : ℕ → ℕ
upper_byte c = if leb b'a' c && leb c b'z' then c - 32 else c

unfoldable pub lower_byte : ℕ → ℕ
lower_byte c = if leb b'A' c && leb c b'Z' then c + 32 else c

-- strings.ToUpper
unfoldable pub to_upper : Text → Text
unfolding upper_byte
to_upper [] = []
to_upper (c ∷ s) = upper_byte c ∷ to_upper s

-- strings.ToLower
unfoldable pub to_lower : Text → Text
unfolding lower_byte
to_lower [] = []
to_lower (c ∷ s) = lower_byte c ∷ to_lower s

unfoldable pub trim_left : Text → Text
unfolding is_space
trim_left [] = []
trim_left (c ∷ s) = if is_space c then trim_left s else c ∷ s

-- A byte before trimmed text: a space goes if nothing is behind it.
unfoldable pub push : ℕ → Text → Text
unfolding is_space
push c [] = if is_space c then [] else c ∷ []
push c (d ∷ r) = c ∷ d ∷ r

unfoldable pub trim_right : Text → Text
unfolding push
trim_right [] = []
trim_right (c ∷ s) = push c (trim_right s)

-- strings.TrimSpace
unfoldable pub trim_space : Text → Text
unfolding trim_left trim_right
trim_space s = trim_left (trim_right s)

-- strings.ReplaceAll(s, b, "")
unfoldable pub remove_byte : ℕ → Text → Text
remove_byte b [] = []
remove_byte b (c ∷ s) = let rest = remove_byte b s in if c == b then rest else c ∷ rest

-- strings.ReplaceAll(s, b, d)
unfoldable pub replace_byte : ℕ → ℕ → Text → Text
replace_byte b d [] = []
replace_byte b d (c ∷ s) = (if c == b then d else c) ∷ replace_byte b d s

-- strings.Contains(s, b)
unfoldable pub contains_byte : ℕ → Text → Bool
contains_byte b [] = false
contains_byte b (c ∷ s) = c == b || contains_byte b s

-- ==
unfoldable pub eqb : Text → Text → Bool
eqb [] [] = true
eqb [] (d ∷ t) = false
eqb (c ∷ s) [] = false
eqb (c ∷ s) (d ∷ t) = c == d && eqb s t

-- <
unfoldable pub ltb_text : Text → Text → Bool
ltb_text s [] = false
ltb_text [] (d ∷ t) = true
ltb_text (c ∷ s) (d ∷ t) = ltb c d || (c == d && ltb_text s t)

-- strings.EqualFold
unfoldable pub equal_fold : Text → Text → Bool
unfolding eqb to_lower
equal_fold s t = eqb (to_lower s) (to_lower t)

-- strings.HasPrefix(s, p)
unfoldable pub has_prefix : Text → Text → Bool
has_prefix s [] = true
has_prefix [] (d ∷ p) = false
has_prefix (c ∷ s) (d ∷ p) = c == d && has_prefix s p

-- strings.Contains(s, p)
unfoldable pub contains : Text → Text → Bool
unfolding has_prefix
contains [] p = has_prefix [] p
contains (c ∷ s) p = has_prefix (c ∷ s) p || contains s p

unfoldable pub drop_prefix : Text → Text → Text
drop_prefix s [] = s
drop_prefix [] (d ∷ p) = []
drop_prefix (c ∷ s) (d ∷ p) = drop_prefix s p

-- strings.TrimPrefix(s, p)
unfoldable pub trim_prefix : Text → Text → Text
unfolding has_prefix drop_prefix
trim_prefix s p = if has_prefix s p then drop_prefix s p else s

-- A byte before the first part of a split text.
unfoldable pub cut_byte : ℕ → List Text → List Text
cut_byte c [] = (c ∷ []) ∷ []
cut_byte c (p ∷ ps) = (c ∷ p) ∷ ps

-- strings.Split(s, b)
unfoldable pub split_byte : ℕ → Text → List Text
unfolding cut_byte
split_byte b [] = [] ∷ []
split_byte b (c ∷ s) = let rest = split_byte b s in if c == b then [] ∷ rest else cut_byte c rest

-- strings.Join(parts, b)
unfoldable pub join_byte : ℕ → List Text → Text
join_byte b [] = []
join_byte b (p ∷ []) = p
join_byte b (p ∷ q ∷ ps) = p ++ (b ∷ join_byte b (q ∷ ps))

eqb_sound : (s t : Text) → eqb s t ≡ true → s ≡ t
unfolding eqb
eqb_sound [] [] h = refl
eqb_sound [] (d ∷ t) h = ground arith
eqb_sound (c ∷ s) [] h = ground arith
eqb_sound (c ∷ s) (d ∷ t) h = ground (arith, eqb_sound s t)

eqb_refl : (s : Text) → eqb s s ≡ true
unfolding eqb
eqb_refl [] = refl
eqb_refl (c ∷ s) = ground (arith, eqb_refl s)

pub eqb_iff : (s t : Text) → (eqb s t ≡ true) ↔ (s ≡ t)
eqb_iff s t = (eqb_sound s t, λ e. rw e (eqb_refl t))

instance abbrev pub text_eq : Eq Text
text_eq = record { beq = eqb; beq_iff = eqb_iff }
