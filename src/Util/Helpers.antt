-- ===== src/Util/Helpers.antt =====
-- internal/util/helpers.go: the canonical names of exchanges and trading pairs.
use screener_cd.Prelude.{
  ℕ, ◌-◌, ◌&&◌, List, [], ◌∷◌, ◌++◌, Option, none, some, ltb, if◌then◌else◌, length, take, drop,
}
use screener_cd.Prelude.Dict.{lookup}
use screener_cd.Text.{Text, codes, to_upper, to_lower, trim_space, remove_byte, eqb, text_eq}

abbrev pub gate : Text
gate = codes "gate"

abbrev pub exchange_aliases : List (Text × Text)
exchange_aliases =
    (codes "gate", gate)
    ∷ (codes "gateio", gate)
    ∷ (codes "gate-io", gate)
    ∷ (codes "gate_io", gate)
    ∷ (codes "gate-spot", gate)
    ∷ (codes "gate.io", gate)
    ∷ []

-- The alias of a trimmed name in lower case, or the name.
abbrev pub canonical_of : Text → Option Text → Text
canonical_of trimmed (some canon) = canon
canonical_of trimmed none = trimmed

unfoldable pub normalize_exchange_name : Text → Text
normalize_exchange_name name =
    let trimmed = to_lower (trim_space name) in
    if eqb trimmed [] then [] else canonical_of trimmed (lookup trimmed exchange_aliases)

abbrev pub quote_suffixes : List Text
quote_suffixes = codes "USDT" ∷ codes "USDC" ∷ codes "DAI" ∷ codes "BUSD" ∷ []

-- bybit[:n] + sep + bybit[n:]
unfoldable pub insert_at : ℕ → ℕ → Text → Text
insert_at n sep s = take n s ++ (sep ∷ drop n s)

-- The loop over the suffixes; `none` if no suffix matches.
unfoldable pub split_suffix : List Text → Text → Option Text
split_suffix [] s = none
split_suffix (q ∷ qs) s =
    if ltb (length q) (length s) && eqb (drop (length s - length q) s) q
    then some (insert_at (length s - length q) b'_' s)
    else split_suffix qs s

unfoldable pub default_split : Text → Option Text → Text
default_split s (some t) = t
default_split s none = if ltb 4 (length s) then insert_at (length s - 4) b'_' s else s

unfoldable pub bybit_to_gate_symbol : Text → Text
bybit_to_gate_symbol s =
    if ltb (length s) 5 then s else default_split s (split_suffix quote_suffixes s)

unfoldable pub normalize_spot_symbol : Text → Text → Text
normalize_spot_symbol exchange raw =
    let s1 = to_upper raw in
    let s2 = remove_byte b'-' s1 in
    let s3 = remove_byte b'_' s2 in
    let s4 = remove_byte b'/' s3 in let s5 = remove_byte b'.' s4 in trim_space s5

-- The loop of `AttachQuote` over the bases; without a quote it attaches the empty text.
unfoldable pub attach : Text → List Text → List Text
attach quote [] = []
attach quote (base ∷ bases) =
    let trimmed = to_upper (trim_space base) in
    let rest = attach quote bases in if eqb trimmed [] then rest else (trimmed ++ quote) ∷ rest

unfoldable pub attach_plain : List Text → List Text
attach_plain [] = []
attach_plain (base ∷ bases) =
    let trimmed = to_upper (trim_space base) in
    let rest = attach_plain bases in if eqb trimmed [] then rest else trimmed ∷ rest

unfoldable pub attach_quote : List Text → Text → List Text
unfolding attach attach_plain
attach_quote bases quote =
    let normalized_quote = to_upper (trim_space quote) in
    if eqb normalized_quote [] then attach_plain bases else attach normalized_quote bases
