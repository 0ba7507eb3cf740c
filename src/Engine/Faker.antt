-- ===== src/Engine/Faker.antt =====
-- crates/chasm-engine/src/engine.rs: the schemas that the faker is given, and what the engine takes
-- from the faker, the validator and the crates it calls.
use chasm.Validation.Errors.{ValidationError}
use chasm.Prelude.{Bool, false, ◌||◌, Option, List, is_some, if◌then◌else◌}
use chasm.Prelude.Result.{Result, ok, ◌>>=◌}
use chasm.Text.{Text, ascii}
use chasm.OpenApi.{
  schema_data, Spec, Operation, Schema, ReferenceOr, item, reference, Value, Values, Members,
  object, array, string, nil, cons, end, member,
}
use chasm.Request.{MockRequest}
use chasm.Engine.Values.{field, push_field}
use chasm.Engine.Config.{GenerateOptions}
use chasm.Engine.Negotiation.{Quality}

-- The operations that the engine calls: `percent_decode_str` with `decode_utf8`; `to_string` of a
-- JSON value; `generate` and `generate_static` of chasm-faker; `validate` of validation.rs; and the
-- document's `components.schemas` as JSON, an empty object where it has none, or an error of its
-- serialisation (`cached_spec_root_and_defs`).
pub record Services : Type 1 where
  pub decode : Text → Option Text
  pub to_string : Value → Text
  pub generate : Value → GenerateOptions → Result Text Value
  pub generate_static : Value → GenerateOptions → Result Text Value
  pub validate : Spec → Text → Operation → List (Text × Text) → MockRequest → List ValidationError
  pub schemas : Spec → Result Text Value
  pub quality : Quality

unfoldable mutual
  pub schema_has_ref : Value → Bool
  schema_has_ref (object m) = is_some (field m (ascii "$ref")) || any_field_has_ref m
  schema_has_ref (array vs) = any_item_has_ref vs
  schema_has_ref _ = false

  any_field_has_ref : Members → Bool
  any_field_has_ref end = false
  any_field_has_ref (member k v m) = schema_has_ref v || any_field_has_ref m

  any_item_has_ref : Values → Bool
  any_item_has_ref nil = false
  any_item_has_ref (cons v vs) = schema_has_ref v || any_item_has_ref vs

-- A field that is there is kept.
abbrev with_field : Members → Text → Value → Members
with_field m k v = if is_some (field m k) then m else push_field m k v

unfoldable pub attach_components : Value → Value → Value
attach_components (object m) defs = object (
    with_field (with_field m (ascii "components") (object (member (ascii "schemas") defs end)))
      (ascii "$defs") defs)
attach_components v defs = v

-- The serialisation of a schema itself, which cannot fail for the crate's types, is its `json`.
unfoldable pub schema_ref_to_json : Services → Spec → ReferenceOr Schema → Result Text Value
schema_ref_to_json env spec schema_ref = do
  defs ← env.schemas spec
  ok (elim schema_ref [
    | item schema ↦
        if schema_has_ref (schema_data schema).json
        then attach_components (schema_data schema).json defs
        else (schema_data schema).json
    | reference r ↦ attach_components (object (member (ascii "$ref") (string r) end)) defs
  ])
