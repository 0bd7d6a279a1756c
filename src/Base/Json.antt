-- ===== src/Base/Json.antt =====
-- The values that `json.loads` and `tomllib` return. A float is kept as its literal. A dict holds its
-- keys in order of insertion.
use Prim.Native.Nat.{ℕ}
use Prim.Native.String.{String}
use mathlib.Core.Bool.{Bool}
use mathlib.Core.Option.{Option, none, some}
use mathlib.Core.List.{List, [], ◌∷◌}
use text.Mathlib.Text.{◌==◌}
use dev_platform.Base.Tests.{if◌then◌else◌}

-- `negsuc n` is -(n + 1).
pub data ℤ : Type 0 where
  pos : ℕ → ℤ
  negsuc : ℕ → ℤ

mutual
  pub data Json : Type 0 where
    null : Json
    bool : Bool → Json
    int : ℤ → Json
    float : String → Json
    str : String → Json
    arr : Items → Json
    obj : Fields → Json

  pub data Items : Type 0 where
    end : Items
    item : Json → Items → Items

  pub data Fields : Type 0 where
    close : Fields
    field : String → Json → Fields → Fields

-- `d.get(key)`, `none` where the key is missing
unfoldable pub lookup : String → Fields → Option Json
lookup k close = none
lookup k (field j v fs) = if k == j then some v else lookup k fs

-- `d[key] = v`
unfoldable pub set_field : String → Json → Fields → Fields
set_field key v close = field key v close
set_field key v (field k w fs) = if key == k then field key v fs else field k w (set_field key v fs)

-- `d.setdefault(key, v)`
unfoldable pub set_default : String → Json → Fields → Fields
set_default key v close = field key v close
set_default key v (field k w fs) =
    if key == k then field k w fs else field k w (set_default key v fs)

-- `d.get(key, other)`
unfoldable pub get_or : Json → Option Json → Json
get_or other none = other
get_or other (some j) = j

-- the keys of a dict
unfoldable pub keys : Fields → List String
keys close = []
keys (field j v fs) = j ∷ keys fs

unfoldable pub to_list : Items → List Json
to_list end = []
to_list (item j js) = j ∷ to_list js

-- `isinstance(value, str)`, with the text
unfoldable pub as_text : Option Json → Option String
as_text (some (str s)) = some s
as_text _ = none

-- `isinstance(value, dict)`, with its fields
unfoldable pub as_fields : Option Json → Option Fields
as_fields (some (obj fs)) = some fs
as_fields _ = none
