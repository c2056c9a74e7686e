-- ===== src/Redis/Flatten.antt =====
-- `flattenFields` loses no field, changes none and repeats none.
use screener_cd.Prelude.{
  ◌≡◌, refl, sym, ap, ◌∙◌, ◌⊎◌, inl, inr, true, false, ◌||◌, List, [], ◌∷◌, ◌++◌, Option, none,
  some, arith, Option-cases, Bool-cases,
}
use screener_cd.Prelude.Dict.{lookup, insert, has_key, beq_self}
use screener_cd.Text.{Text, text_eq, eqb, eqb_iff}
use screener_cd.Text.Sort.{is_in, Unrepeated}
use screener_cd.Redis.Normalize.{Fields, field_order, ordered, others, flatten_fields}

-- The value in the first list, or that in the second.
abbrev pub first_of : Option Text → Option Text → Option Text
first_of none b = b
first_of (some v) b = some v

lookup-append : (k : Text) (a b : Fields) → lookup k (a ++ b) ≡ first_of (lookup k a) (lookup k b)
unfolding lookup
lookup-append k [] b = refl
lookup-append k ((j, v) ∷ a) b = ground (arith, lookup-append k a b)

-- What the first loop puts out is in the fields, and a field that it was asked for is put out.
lookup-ordered :
    (k : Text) (keys : List Text) (fields : Fields)
    → (lookup k (ordered keys fields) ≡ none) ⊎ (lookup k (ordered keys fields) ≡ lookup k fields)
unfolding ordered lookup
lookup-ordered k [] fields = inl refl
lookup-ordered k (key ∷ keys) fields = elim (Option-cases (lookup key fields)) [
  | inl missing ↦ rw missing (lookup-ordered k keys fields)
  | inr (v, e) ↦ elim (Bool-cases (eqb key k)) [
    | inl same ↦ inr (rw (e, same) (sym e ∙ ap (λ j. lookup j fields) ((eqb_iff key k).0 same)))
    | inr other ↦ rw (e, other) (lookup-ordered k keys fields)
  ]
]

lookup-others :
    (k : Text) (seen fields : Fields)
    → has_key k seen ≡ false
    → lookup k (others seen fields) ≡ lookup k fields
unfolding others lookup
lookup-others k seen [] h = refl
lookup-others k seen ((j, v) ∷ fields) h =
    ground (arith, lookup-others k seen fields h, eqb_iff j k)

has_key-lookup : (k : Text) (m : Fields) → lookup k m ≡ none → has_key k m ≡ false
unfolding lookup has_key
has_key-lookup k [] h = refl
has_key-lookup k ((j, v) ∷ m) h = ground (arith, has_key-lookup k m)

pub lookup-flatten_fields :
    (k : Text) (fields : Fields) → lookup k (flatten_fields fields) ≡ lookup k fields
unfolding flatten_fields
lookup-flatten_fields k fields =
    let front = ordered field_order fields in
    elim (Option-cases (lookup k front)) [
      | inl missing ↦
          rw (lookup-append, missing)
            (lookup-others k front fields (has_key-lookup k front missing))
      | inr (v, e) ↦ elim (lookup-ordered k field_order fields) [
        | inl missing ↦ absurd cc
        | inr same ↦ rw (lookup-append, e) (sym e ∙ same)
      ]
    ]

-- Fields under different names, as those of a hash are.
abbrev pub Distinct : Fields → Type 0
Distinct [] = Unit
Distinct ((k, v) ∷ m) = (has_key k m ≡ false) × Distinct m

has_key-insert : (k j v : Text) (m : Fields) → has_key j (insert k v m) ≡ (eqb k j || has_key j m)
unfolding has_key insert
has_key-insert k j v [] = ground arith
has_key-insert k j v ((i, u) ∷ m) =
    ground (arith, eqb_iff i k, eqb_iff i j, eqb_iff k j, has_key-insert k j v m)

pub insert-Distinct : (k v : Text) (m : Fields) → Distinct m → Distinct (insert k v m)
unfolding insert has_key
insert-Distinct k v [] d = (refl, tt)
insert-Distinct k v ((i, u) ∷ m) (fresh, d) = elim (Bool-cases (eqb i k)) [
  | inl same ↦ rw same (fresh, d)
  | inr other ↦
      let apart : eqb k i ≡ false = ground (arith, eqb_iff i k, eqb_iff k i) in
      rw other (rw (has_key-insert k i v m, apart) fresh, insert-Distinct k v m d)
]

has_key-others_seen :
    (j : Text) (seen m : Fields) → has_key j seen ≡ true → has_key j (others seen m) ≡ false
unfolding others has_key
has_key-others_seen j seen [] h = refl
has_key-others_seen j seen ((i, u) ∷ m) h =
    ground (arith, eqb_iff i j, has_key-others_seen j seen m h)

has_key-others :
    (j : Text) (seen m : Fields) → has_key j m ≡ false → has_key j (others seen m) ≡ false
unfolding others has_key
has_key-others j seen [] h = refl
has_key-others j seen ((i, u) ∷ m) h = ground (arith, has_key-others j seen m)

others-Distinct : (seen m : Fields) → Distinct m → Distinct (others seen m)
unfolding others has_key
others-Distinct seen [] d = tt
others-Distinct seen ((i, u) ∷ m) (fresh, d) =
    ground (arith, has_key-others i seen m fresh, others-Distinct seen m d)

has_key-append : (j : Text) (a b : Fields) → has_key j (a ++ b) ≡ (has_key j a || has_key j b)
unfolding has_key
has_key-append j [] b = refl
has_key-append j ((i, u) ∷ a) b = ground (arith, has_key-append j a b)

append-Distinct :
    (a b : Fields)
    → Distinct a
    → Distinct b
    → ((j : Text) → has_key j a ≡ true → has_key j b ≡ false)
    → Distinct (a ++ b)
unfolding has_key
append-Distinct [] b da db apart = db
append-Distinct ((i, u) ∷ a) b (fresh, da) db apart = (
  rw (has_key-append, fresh) (apart i (rw (beq_self i) refl)),
  append-Distinct a b da db (λ j h. apart j (ground arith)),
)

has_key-ordered :
    (j : Text) (keys : List Text) (m : Fields)
    → is_in j keys ≡ false
    → has_key j (ordered keys m) ≡ false
unfolding ordered has_key is_in
has_key-ordered j [] m h = refl
has_key-ordered j (k ∷ keys) m h = ground (arith, has_key-ordered j keys m)

ordered-Distinct : (keys : List Text) (m : Fields) → Unrepeated keys → Distinct (ordered keys m)
unfolding ordered
ordered-Distinct [] m u = tt
ordered-Distinct (k ∷ keys) m (fresh, u) = elim (Option-cases (lookup k m)) [
  | inl missing ↦ rw missing (ordered-Distinct keys m u)
  | inr (v, e) ↦ rw e (has_key-ordered k keys m fresh, ordered-Distinct keys m u)
]

field_order-Unrepeated : Unrepeated field_order
unfolding eqb is_in
field_order-Unrepeated = (refl, (refl, (refl, (refl, tt))))

pub flatten_fields-Distinct : (m : Fields) → Distinct m → Distinct (flatten_fields m)
unfolding flatten_fields
flatten_fields-Distinct m d =
    let front = ordered field_order m in
    append-Distinct front (others front m) (ordered-Distinct field_order m field_order-Unrepeated)
      (others-Distinct front m d) (λ j h. has_key-others_seen j front m h)
