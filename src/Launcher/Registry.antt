-- ===== src/Launcher/Registry.antt =====
-- internal/launcher/registry.go: connectors by name. A panic is an error of the model.
use screener_cd.Prelude.{◌≡◌, List, [], map, Option, none, some, if◌then◌else◌}
use screener_cd.Prelude.Dict.{lookup, insert, has_key, lookup-insert}
use screener_cd.Prelude.Result.{Result, ok, err, ◌>>◌, reject, reject-ok, ok_inj}
use mathlib.Core.Path.{subst}
use screener_cd.Text.{Text, eqb, text_eq, to_lower, trim_space}

pub data Panic : Type 0 where
  empty_name : Panic
  nil_builder : Panic
  duplicate : Panic

-- The key of a name in the registry.
unfoldable pub key_of : Text → Text
key_of name = to_lower (trim_space name)

module _ {B : Type 0} where
  -- `none` is a nil builder.
  unfoldable pub register : Text → Option B → List (Text × B) → Result Panic (List (Text × B))
  register name builder registry = do reject (eqb (key_of name) []) empty_name; checked builder
    where
      checked : Option B → Result Panic (List (Text × B))
      checked none = err nil_builder
      checked (some b) = do
        reject (has_key (key_of name) registry) duplicate
        ok (insert (key_of name) b registry)

  unfoldable pub get : Text → List (Text × B) → Option B
  get name registry = lookup (key_of name) registry

  unfoldable pub keys : List (Text × B) → List Text
  keys registry = map (λ entry. entry.0) registry

  -- A registration that does not panic adds the builder under its name, in any case and with any
  -- surrounding spaces, and leaves every other name.
  pub get-register :
      (name other : Text) (b : B) (registry after : List (Text × B))
      → register name (some b) registry ≡ ok after
      → get other after ≡ (if eqb (key_of name) (key_of other) then some b else get other registry)
  unfolding register get
  get-register name other b registry after h =
      let (_, h1) = reject-ok (eqb (key_of name) []) empty_name _ h in
      let (_, h2) = reject-ok (has_key (key_of name) registry) duplicate _ h1 in
      subst
        (λ m.
          lookup (key_of other) m
          ≡ (if eqb (key_of name) (key_of other) then some b else lookup (key_of other) registry))
        (ok_inj h2) (lookup-insert (key_of name) (key_of other) b registry)
