-- ===== src/Validation/DeepObjects.antt =====
-- crates/chasm-engine/src/validation.rs: query parameters in the style `deepObject`.
pub mod Flat
use chasm.Prelude.{
  Bool, true, false, Option, some, none, List, [], ◌∷◌, ◌++◌, is_empty, if◌then◌else◌,
}
use chasm.Text.{strip_last, Text, ascii, strip_prefix}
use chasm.OpenApi.{
  Spec, Schema, described, Properties, ParameterSchemaOrContent, schema, content, object_type,
  schema_kind, Value, Members, string, object, end, member,
}
use chasm.Engine.Values.{insert_field}
use chasm.Validation.Library.{Library}
use chasm.Validation.Coercion.{
  resolve_schema, resolve_boxed_schema, coerce_string_to_schema_value, or_string, property_at,
}

-- The key inside the brackets of `name[key]`.
unfoldable pub deep_key : Text → Text → Option Text
deep_key name key = elim (strip_prefix key (name ++ ascii "[")) [
  | none ↦ none
  | some rest ↦ elim (strip_last b']' rest) [
    | none ↦ none
    | some inner ↦ if is_empty inner then none else some inner
  ]
]

unfoldable pub deep_entries : Text → List (Text × Text) → Members → Members
deep_entries name [] map = map
deep_entries name ((k, v) ∷ entries) map =
    deep_entries name entries
      (elim (deep_key name k) [ none ↦ map | some inner ↦ insert_field map inner (string v) ])

abbrev pub schema_of : Spec → ParameterSchemaOrContent → Option Schema
schema_of spec content = none
schema_of spec (schema s) = resolve_schema spec s

unfoldable pub is_object_typed_param : Spec → ParameterSchemaOrContent → Bool
is_object_typed_param spec fmt = elim (schema_of spec fmt) [
  | none ↦ false
  | some (described d k) ↦ elim k [ object_type _ _ _ ↦ true | _ ↦ false ]
]

module _ (lib : Library) (spec : Spec) where
  -- One entry of a deep object, by the schema of its property. An entry is a string.
  unfoldable pub coerce_entry : Properties → Text → Text → Value
  coerce_entry props key raw = elim (property_at props key) [
    | none ↦ string raw
    | some r ↦ elim (resolve_boxed_schema spec r) [
      | none ↦ string raw
      | some s ↦ or_string raw (coerce_string_to_schema_value lib.floats raw (schema_kind s))
    ]
  ]

  unfoldable pub coerce_entries : Properties → Members → Members
  coerce_entries props end = end
  coerce_entries props (member k (string raw) m) =
      member k (coerce_entry props k raw) (coerce_entries props m)
  coerce_entries props (member k v m) = member k v (coerce_entries props m)

  unfoldable pub coerce_deep_object_values : Schema → Members → Value
  coerce_deep_object_values (described d k) decoded = elim k [
    | object_type props _ _ ↦ object (coerce_entries props decoded)
    | _ ↦ object decoded
  ]
