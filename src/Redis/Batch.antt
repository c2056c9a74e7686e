-- ===== src/Redis/Batch.antt =====
-- internal/redisclient/client.go: the commands that `HSetBatch` puts into a pipeline.
-- `sprint` stands for fmt.Sprint; a value is what the callers put behind `interface{}`.
use screener_cd.Prelude.{ℕ, List, [], ◌∷◌, Option, none, some}
use screener_cd.Prelude.Int.{ℤ}
use screener_cd.Text.{Text}

pub data Value : Type 0 where
  str : Text → Value
  float : ℕ → Value
  int : ℤ → Value

abbrev pub Entry : Type 0
Entry = List Value

-- HSET key field value …
pub record Command : Type 0 where
  pub key : Text
  pub fields : List (Text × Text)

-- A type assertion to string.
abbrev pub as_string : Value → Option Text
as_string (str s) = some s
as_string _ = none

module _ (sprint : Value → Text) where
  abbrev add_field : Text → Text → Option (List (Text × Text)) → Option (List (Text × Text))
  add_field name value none = none
  add_field name value (some fields) = some ((name, value) ∷ fields)

  abbrev named : Option Text → Value → Option (List (Text × Text)) → Option (List (Text × Text))
  named none v rest = none
  named (some name) v rest = add_field name (sprint v) rest

  -- The loop over the pairs behind the key; `none` where it sets `valid = false`.
  unfoldable pub read_fields : List Value → Option (List (Text × Text))
  read_fields [] = some []
  read_fields (name ∷ []) = none
  read_fields (name ∷ v ∷ rest) = named (as_string name) v (read_fields rest)

  abbrev command_of : Option Text → Option (List (Text × Text)) → Option Command
  command_of none fields = none
  command_of (some key) none = none
  command_of (some key) (some []) = none
  command_of (some key) (some (f ∷ fields)) = some (record { key = key; fields = f ∷ fields })

  -- The body of the loop over the entries; `none` where it skips the entry.
  unfoldable pub read_entry : Entry → Option Command
  read_entry [] = none
  read_entry (key ∷ []) = none
  read_entry (key ∷ name ∷ []) = none
  read_entry (key ∷ name ∷ v ∷ rest) = command_of (as_string key) (read_fields (name ∷ v ∷ rest))

  abbrev pub add_command : Option Command → List Command → List Command
  add_command none cmds = cmds
  add_command (some c) cmds = c ∷ cmds

  unfoldable pub pipeline : List Entry → List Command
  pipeline [] = []
  pipeline (e ∷ es) = add_command (read_entry e) (pipeline es)
