-- ===== src/Base/Json.antt =====
-- Decoded JSON and YAML values: Go's `any`, with `map[string]any` and `[]any`. A number is opaque.
use mathlib.Core.Option.{Option, none, some}
use mathlib.Core.Bool.{Bool}
use mathlib.Core.List.{List, [], ◌∷◌}
use Prim.Native.Nat.{ℕ}
use ec_cli.Base.Tests.{Text, ◌==◌, text_eq, if◌then◌else◌}

mutual
  pub data Json : Type 0 where
    null : Json
    boolean : Bool → Json
    number : ℕ → Json
    text : Text → Json
    array : JsonItems → Json
    object : JsonFields → Json

  pub data JsonItems : Type 0 where
    no_items : JsonItems
    item : Json → JsonItems → JsonItems

  pub data JsonFields : Type 0 where
    no_fields : JsonFields
    field : Text → Json → JsonFields → JsonFields

-- `m[key]` with the flag that tells whether the key is there
unfoldable pub get_field : Text → JsonFields → Option Json
get_field key no_fields = none
get_field key (field k v fields) = if k == key then some v else get_field key fields

unfoldable pub items : JsonItems → List Json
items no_items = []
items (item v vs) = v ∷ items vs

-- The type assertions `v.(string)`, `v.([]any)` and `v.(map[string]any)`, of a missing value too.
abbrev pub as_text : Option Json → Option Text
as_text (some (text t)) = some t
as_text _ = none

abbrev pub as_items : Option Json → Option (List Json)
as_items (some (array vs)) = some (items vs)
as_items _ = none

abbrev pub as_fields : Option Json → Option JsonFields
as_fields (some (object fields)) = some fields
as_fields _ = none
