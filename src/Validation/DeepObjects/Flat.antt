-- ===== src/Validation/DeepObjects/Flat.antt =====
-- A deep object nests once.
use native.Mathlib.Nat.{le_trans}
use chasm.Prelude.{suc, ◌≡◌, ◌≤◌, List, [], ◌∷◌, refl, arith, inl, inr, Option-cases}
use chasm.Text.{Text}
use chasm.OpenApi.{
  Spec, Schema, described, Properties, Members, string, end, member, object_type, schema_kind,
}
use chasm.Engine.Values.{insert_field}
use chasm.Validation.Library.{Library}
use chasm.Validation.Values.Depth.{depth, depth_members}
use chasm.Validation.Coercion.{property_at, resolve_boxed_schema, coerce_string_to_schema_value}
use chasm.Validation.Coercion.Flat.{coerce_string-IsFlat, depth-or_string, depth-insert_field}
use chasm.Validation.DeepObjects.{
  deep_key, deep_entries, coerce_entry, coerce_entries, coerce_deep_object_values,
}

pub depth-deep_entries :
    (name : Text) (entries : List (Text × Text)) (map : Members)
    → depth_members (deep_entries name entries map) ≤ depth_members map
unfolding deep_entries depth
depth-deep_entries name [] map = omega arith
depth-deep_entries name ((k, v) ∷ entries) map = elim (Option-cases (deep_key name k)) [
  | inl e ↦ rw (deep_entries, e) (depth-deep_entries name entries map)
  | inr (inner, e) ↦
      rw (deep_entries, e)
        (le_trans (depth-deep_entries name entries (insert_field map inner (string v)))
          (depth-insert_field map inner (string v) refl))
]

module _ (lib : Library) (spec : Spec) where
  depth-coerce_entry :
      (props : Properties) (key raw : Text) → depth (coerce_entry lib spec props key raw) ≡ 0
  unfolding coerce_entry depth
  depth-coerce_entry props key raw = elim (Option-cases (property_at props key)) [
    | inl e ↦ rw (coerce_entry, e) refl
    | inr (r, e) ↦ elim (Option-cases (resolve_boxed_schema spec r)) [
      | inl f ↦ rw (coerce_entry, e, f) refl
      | inr (s, f) ↦
          rw (coerce_entry, e, f)
            (depth-or_string raw (coerce_string_to_schema_value lib.floats raw (schema_kind s))
              (coerce_string-IsFlat lib.floats raw (schema_kind s)))
    ]
  ]

  depth-coerce_entries :
      (props : Properties) (map : Members)
      → depth_members (coerce_entries lib spec props map) ≤ depth_members map
  unfolding coerce_entries depth_members
  depth-coerce_entries props end = omega arith
  depth-coerce_entries props (member k (string raw) m) =
      omega (arith, depth-coerce_entry props k raw, depth-coerce_entries props m)
  depth-coerce_entries props (member k _ m) = omega (arith, depth-coerce_entries props m)

  pub depth-coerce_deep_object_values :
      (s : Schema) (map : Members)
      → depth (coerce_deep_object_values lib spec s map) ≤ suc (depth_members map)
  unfolding coerce_deep_object_values depth
  depth-coerce_deep_object_values (described d (object_type ps rs ap)) map =
      omega (arith, depth-coerce_entries ps map)
  depth-coerce_deep_object_values (described d _) map = omega arith
