-- ===== src/Redis/Normalize.antt =====
-- internal/redisclient/normalize.go: old keys are merged into those of the canonical exchange
-- names. The Redis server is a parameter, and so is strconv.ParseInt.
use screener_cd.Prelude.{
  ℕ, zero, suc, ◌+◌, ◌-◌, Bool, true, false, not, ◌&&◌, ◌||◌, List, [], ◌∷◌, ◌++◌, Option, none,
  some, ltb, ◌==◌ as eq_ℕ, if◌then◌else◌, length, take, drop, get_or,
}
use screener_cd.Prelude.Int.{ℤ, pos, ltb_ℤ}
use screener_cd.Prelude.Dict.{lookup, insert, has_key}
use screener_cd.Text.{
  Text, codes, eqb, text_eq, to_upper, to_lower, trim_space, split_byte, join_byte, contains_byte,
}
use screener_cd.Util.Helpers.{gate, normalize_exchange_name, bybit_to_gate_symbol}

abbrev pub Fields : Type 0
Fields = List (Text × Text)

-- HGETALL, HSET, DEL and SCAN. `none`, or `false` beside the new state, is an error.
pub record RedisOps (S : Type 0) : Type 0 where
  pub hget_all : S → Text → Option Fields
  pub hset : Text → Fields → S → S × Bool
  pub del : Text → S → S × Bool
  pub scan : S → ℕ → Text → Option (List Text × ℕ)

abbrev pub colon : ℕ
colon = b':'

abbrev pub field_price : Text
field_price = codes "price"

abbrev pub field_timestamp : Text
field_timestamp = codes "timestamp"

abbrev pub field_exchange : Text
field_exchange = codes "exchange"

abbrev pub field_symbol : Text
field_symbol = codes "symbol"

abbrev pub field_order : List Text
field_order = field_price ∷ field_timestamp ∷ field_exchange ∷ field_symbol ∷ []

-- The value of a field before the rest of the output.
abbrev pub emit : Text → Option Text → Fields → Fields
emit key none out = out
emit key (some v) out = (key, v) ∷ out

-- The first loop of `flattenFields`.
unfoldable pub ordered : List Text → Fields → Fields
ordered [] fields = []
ordered (key ∷ keys) fields = emit key (lookup key fields) (ordered keys fields)

-- The second loop: the fields that the first one has not seen.
unfoldable pub others : Fields → Fields → Fields
others seen [] = []
others seen ((key, v) ∷ fields) =
    let rest = others seen fields in if has_key key seen then rest else (key, v) ∷ rest

-- The arguments that HSET takes, in pairs.
unfoldable pub flatten_fields : Fields → Fields
flatten_fields fields = let front = ordered field_order fields in front ++ others front fields

abbrev pub is_blank : Fields → Bool
is_blank [] = true
is_blank (f ∷ fs) = false

abbrev pub or_zero : Option ℤ → ℤ
or_zero none = pos 0
or_zero (some n) = n

abbrev pub parsed : (Text → Option ℤ) → Option Text → ℤ
parsed parse_int none = pos 0
parsed parse_int (some v) = or_zero (parse_int v)

unfoldable pub parse_timestamp : (Text → Option ℤ) → Fields → ℤ
parse_timestamp parse_int fields = parsed parse_int (lookup field_timestamp fields)

-- `srcFields` with the new exchange and, if there is one, the new symbol.
unfoldable pub renamed : Text → Text → Fields → Fields
renamed exchange symbol fields =
    let f1 = insert field_exchange exchange fields in
    if eqb symbol [] then f1 else insert field_symbol symbol f1

-- `len(destFields) == 0 || srcTs >= destTs`
unfoldable pub is_fresher : (Text → Option ℤ) → Fields → Fields → Bool
is_fresher parse_int src dest =
    is_blank dest || not (ltb_ℤ (parse_timestamp parse_int src) (parse_timestamp parse_int dest))

abbrev pub is_text : Option Text → Text → Bool
is_text none s = eqb [] s
is_text (some t) s = eqb t s

module _ {S : Type 0} (r : RedisOps S) (parse_int : Text → Option ℤ) where
  -- The end of `mergeAndDelete`: `none` is its error.
  unfoldable pub finish : Text → S × Bool → Option ℕ × S
  finish src (s, written) =
      if written
      then (let (s1, gone) = r.del src s in (if gone then some 1 else none, s1))
      else (none, s)

  -- A destination that is fresher gets the names; errors of these writes are only logged.
  unfoldable pub rename_dest : Text → Text → Text → Fields → S → S
  rename_dest dest exchange symbol fields s =
      if is_text (lookup field_exchange fields) exchange
      then s
      else (let s1 = (r.hset dest ((field_exchange, exchange) ∷ []) s).0 in
          if eqb symbol [] then s1 else (r.hset dest ((field_symbol, symbol) ∷ []) s1).0)

  unfoldable pub merge_into : Text → Text → Text → Text → Fields → Option Fields → S → Option ℕ × S
  merge_into src dest exchange symbol fields none s = (none, s)
  merge_into src dest exchange symbol fields (some old) s =
      if is_fresher parse_int fields old
      then finish src (r.hset dest (flatten_fields fields) s)
      else finish src (rename_dest dest exchange symbol old s, true)

  unfoldable pub merge_fields : Text → Text → Text → Text → Option Fields → S → Option ℕ × S
  merge_fields src dest exchange symbol none s = (none, s)
  merge_fields src dest exchange symbol (some []) s = (some 1, (r.del src s).0)
  merge_fields src dest exchange symbol (some (f ∷ fs)) s =
      merge_into src dest exchange symbol (renamed exchange symbol (f ∷ fs)) (r.hget_all s dest) s

  unfoldable pub merge_and_delete : Text → Text → Text → Text → S → Option ℕ × S
  merge_and_delete src dest exchange symbol s =
      if eqb src dest
      then (some 0, s)
      else merge_fields src dest exchange symbol (r.hget_all s src) s

  -- `fmt.Sprintf("%s:%s:%s", a, b, c)`
  abbrev pub key_of : Text → Text → Text → Text
  key_of a b c = a ++ (colon ∷ b ++ (colon ∷ c))

  -- The case "price": `symbol` is the last part and `exchange` all between.
  unfoldable pub normalize_price : Text → Text → Text → S → Option ℕ × S
  normalize_price key exchange last s =
      let lower = normalize_exchange_name exchange in
      let symbol = trim_space last in
      let is_gate = eqb lower gate in
      let dest_symbol =
        if is_gate && not (contains_byte b'_' symbol)
        then bybit_to_gate_symbol (to_upper symbol)
        else symbol in
      if eqb exchange []
      then (some 0, s)
      else if eqb lower (to_lower (trim_space exchange))
          && (not is_gate || contains_byte b'_' symbol)
      then (some 0, s)
      else merge_and_delete key (key_of field_price lower dest_symbol) lower dest_symbol s

  unfoldable pub normalize_canon : Text → Text → Text → S → Option ℕ × S
  normalize_canon key canon exchange s =
      let lower = normalize_exchange_name exchange in
      if eqb exchange []
      then (some 0, s)
      else if eqb lower (to_lower (trim_space exchange))
      then (some 0, s)
      else merge_and_delete key (key_of (codes "price_canon") canon lower) lower [] s

  unfoldable pub normalize_key : Text → Text → S → Option ℕ × S
  normalize_key prefix key s =
      let parts = split_byte colon key in
      let n = length parts in
      if ltb n 3
      then (some 0, s)
      else if eqb prefix field_price
      then normalize_price key (join_byte colon (take (n - 2) (drop 1 parts)))
          (get_or parts (n - 1) []) s
      else if eqb prefix (codes "price_canon")
      then normalize_canon key (get_or parts 1 []) (join_byte colon (drop 2 parts)) s
      else (some 0, s)

  abbrev count_of : Option ℕ → ℕ
  count_of none = 0
  count_of (some n) = n

  -- The loop over the keys of one SCAN; a key that fails is skipped.
  unfoldable pub normalize_keys : Text → List Text → ℕ → S → ℕ × S
  normalize_keys prefix [] normalized s = (normalized, s)
  normalize_keys prefix (key ∷ keys) normalized s =
      let (count, s1) = normalize_key prefix key s in
      normalize_keys prefix keys (normalized + count_of count) s1

  -- The loop over the cursor: whether it ended without an error, the count and the store. It
  -- ends when SCAN gives cursor zero; fuel that runs out counts as an error.
  unfoldable pub normalize_from : ℕ → Text → ℕ → ℕ → S → Bool × ℕ × S
  normalize_from zero prefix cursor normalized s = (false, normalized, s)
  normalize_from (suc fuel) prefix cursor normalized s =
      elim (r.scan s cursor (prefix ++ codes ":*")) [
        | none ↦ (false, normalized, s)
        | some (keys, next) ↦
            let (count, s1) = normalize_keys prefix keys normalized s in
            if eq_ℕ next 0 then (true, count, s1) else normalize_from fuel prefix next count s1
      ]

  unfoldable pub normalize_exchange_keys : ℕ → S → S
  normalize_exchange_keys fuel s =
      let (_, _, s1) = normalize_from fuel field_price 0 0 s in
      let (_, _, s2) = normalize_from fuel (codes "price_canon") 0 0 s1 in s2
