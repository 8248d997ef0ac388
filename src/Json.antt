-- ===== src/Json.antt =====
-- A JSON document as `serde_json` parses it, and the look-ups of `serde_json::Value` that the operator
-- uses. The fields of an object stand in the order in which they are iterated.
use postgres_restore_operato.Prelude.{String, Bool, Option, none, some, ◌==◌, if◌then◌else◌}

mutual
  pub data Json : Type 0 where
    null : Json
    boolean : Bool → Json
    -- A number, as its text.
    number : String → Json
    text : String → Json
    array : Items → Json
    object : Fields → Json

  pub data Items : Type 0 where
    nil : Items
    cons : Json → Items → Items

  pub data Fields : Type 0 where
    end : Fields
    field : String → Json → Fields → Fields

unfoldable pub lookup_field : String → Fields → Option Json
lookup_field key end = none
lookup_field key (field k v fields) =
    let rest = lookup_field key fields in if k == key then some v else rest

-- `Value::get` at a key.
unfoldable pub get : String → Json → Option Json
unfolding lookup_field
get key (object fields) = lookup_field key fields
get key _ = none

abbrev pub as_str : Json → Option String
as_str (text s) = some s
as_str _ = none

abbrev pub as_object : Json → Option Fields
as_object (object fields) = some fields
as_object _ = none

-- `Option::and_then`.
abbrev pub and_then : {A B : Type 0} → Option A → (A → Option B) → Option B
and_then none f = none
and_then (some a) f = f a
