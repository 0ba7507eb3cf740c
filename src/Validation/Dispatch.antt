-- ===== src/Validation/Dispatch.antt =====
-- crates/chasm-engine/src/validation.rs: `validate_value`, by the kind of the schema.
pub mod Ending
pub mod SelfReference
use chasm.Prelude.{
  ℕ, Bool, true, false, not, ◌&&◌, ◌||◌, Option, some, none, List, [], ◌∷◌, ◌++◌, leb, ◌==◌,
  is_empty, is_some, zero, suc, if◌then◌else◌,
}
use chasm.Text.{decimal, Text, ascii, text_eq}
use chasm.OpenApi.{
  AdditionalProperties, Spec, Schema, described, SchemaData, SchemaKind, SchemaSlot, AnyData,
  Properties, slot, string_type, integer_type, number_type, boolean_type, object_type, array_type,
  one_of, any_of, all_of, not_schema, any_schema, Value, Values, null, bool, number, string, array,
  object, pos_int,
}
use chasm.Engine.Values.{as_i64, as_bool, count_items}
use chasm.Validation.Errors.{ValidationError, ValidationLocation, new, type_error}
use chasm.Validation.Library.{Library}
use chasm.Validation.Checked.{Checked, done, panicked, exhausted, ◌>>=◌}
use chasm.Validation.Formats.{validate_format, check_pattern}
use chasm.Validation.Coercion.{resolve_slot}
use chasm.Validation.Equality.{value_eq, has_duplicate_json_values}
use chasm.Validation.Scalars.{
  unless, validate_string, validate_integer, validate_number, validate_boolean,
}
use chasm.Validation.Values.{
  Errors, Recurse, missing_required, check_properties, check_additional, check_items, check_one_of,
  any_branch, check_all_of, collect_allof_declared_properties, check_not,
}

abbrev pub is_null : Value → Bool
is_null null = true
is_null _ = false

-- Whether a value has the type of a name, of an `AnySchema`.
unfoldable pub has_type : Text → Value → Bool
has_type typ v =
    if text_eq typ (ascii "string")
    then (elim v [ string _ ↦ true | _ ↦ false ])
    else if text_eq typ (ascii "integer")
    then is_some (as_i64 v)
    else if text_eq typ (ascii "number")
    then (elim v [ number _ ↦ true | _ ↦ false ])
    else if text_eq typ (ascii "boolean")
    then (elim v [ bool _ ↦ true | _ ↦ false ])
    else if text_eq typ (ascii "object")
    then (elim v [ object _ ↦ true | _ ↦ false ])
    else if text_eq typ (ascii "array")
    then (elim v [ array _ ↦ true | _ ↦ false ])
    else true

module _ (lib : Library) where
  abbrev in_enumeration : List Value → Value → Bool
  in_enumeration [] v = false
  in_enumeration (w ∷ ws) v = value_eq lib.floats w v || in_enumeration ws v

  module _ (spec : Spec) (rec : Recurse) (location : ValidationLocation) (f : Text) where
    -- The checks of an `AnySchema` that look at the value alone.
    unfoldable pub any_checks : AnyData → Value → Errors
    any_checks a v =
        unless (is_empty a.enumeration || in_enumeration a.enumeration v)
          (new location f (ascii "enum") (ascii "value not in enum"))
        ++ (elim v [
          | string s ↦
              (elim a.pattern [ none ↦ [] | some p ↦ check_pattern lib s p location f ])
              ++ (elim a.format [ none ↦ [] | some g ↦ validate_format lib s g location f ])
          | _ ↦ []
        ])

    abbrev any_members : AnyData → Properties → Value → Checked Errors
    any_members a ps v = elim v [
      | object map ↦ do
        es ← check_properties spec rec location f map ps
        done (missing_required location f map a.required ++ es)
      | _ ↦ done []
    ]

    unfoldable pub validate_any_schema : AnyData → Properties → SchemaSlot → Value → Checked Errors
    validate_any_schema a ps n v =
        if (elim a.typ [ none ↦ true | some typ ↦ has_type typ v ])
        then (do
          es ← check_not spec rec v location f n
          ms ← any_members a ps v
          done (any_checks a v ++ (es ++ ms)))
        else done (type_error location f (elim a.typ [ none ↦ [] | some typ ↦ typ ]) ∷ [])

    unfoldable pub validate_object :
        Properties → List Text → AdditionalProperties → Value → Checked Errors
    validate_object ps required ap (object map) = do
      es ← check_properties spec rec location f map ps
      xs ← check_additional spec rec location f ps ap map
      done (missing_required location f map required ++ (es ++ xs))
    validate_object ps required ap v = done (type_error location f (ascii "object") ∷ [])

    unfoldable pub validate_array : SchemaSlot → Option ℕ → Option ℕ → Bool → Value → Checked Errors
    validate_array items min_items max_items unique (array vs) = do
      es ← elim (resolve_slot spec items) [
        | none ↦ done []
        | some s ↦ check_items spec rec location f s 0 vs
      ]
      done (
          (elim min_items [
            | none ↦ []
            | some n ↦ unless (leb n (count_items vs)) (
                new location f (ascii "minItems")
                  (ascii "array length below minItems " ++ decimal n))
          ])
          ++ ((elim max_items [
            | none ↦ []
            | some n ↦ unless (leb (count_items vs) n) (
                new location f (ascii "maxItems")
                  (ascii "array length above maxItems " ++ decimal n))
          ])
              ++ (es
                  ++ unless (not (unique && has_duplicate_json_values lib.floats vs))
                      (new location f (ascii "uniqueItems") (ascii "array items are not unique")))))
    validate_array items min_items max_items unique v =
        done (type_error location f (ascii "array") ∷ [])

    unfoldable pub validate_kind : SchemaData → SchemaKind → Value → Checked Errors
    validate_kind d (string_type st) v = elim v [
      | string s ↦ done (validate_string lib location f st s)
      | _ ↦ done (type_error location f (ascii "string") ∷ [])
    ]
    validate_kind d (integer_type it) v = elim (as_i64 v) [
      | some n ↦ validate_integer location f it n
      | none ↦ done (type_error location f (ascii "integer") ∷ [])
    ]
    validate_kind d (number_type nt) v = elim v [
      | number n ↦ done (validate_number lib.floats location f nt (lib.floats.of_number n))
      | _ ↦ done (type_error location f (ascii "number") ∷ [])
    ]
    validate_kind d (boolean_type enumeration) v = elim v [
      | bool b ↦ done (validate_boolean location f enumeration b)
      | _ ↦ done (type_error location f (ascii "boolean") ∷ [])
    ]
    validate_kind d (object_type ps required ap) v = validate_object ps required ap v
    validate_kind d (array_type items lo hi unique) v = validate_array items lo hi unique v
    validate_kind d (one_of bs) v = check_one_of spec rec bs d.discriminator v location f
    validate_kind d (any_of bs) v = do
      matched ← any_branch spec rec bs v
      done (
          unless matched
            (new location f (ascii "anyOf") (ascii "value did not match any anyOf branch")))
    validate_kind d (all_of bs) v =
        check_all_of spec rec v location f (collect_allof_declared_properties spec bs) bs
    validate_kind d (not_schema r) v = check_not spec rec v location f (slot r)
    validate_kind d (any_schema a ps n) v = validate_any_schema a ps n v

  -- `validate_value`, with the depth of recursion that is left.
  unfoldable pub validate_value : ℕ → Spec → Recurse
  validate_value zero spec s v location f = exhausted
  validate_value (suc fuel) spec (described d k) v location f =
      let checked = validate_kind spec (validate_value fuel spec) location f d k v in
      if is_null v && d.nullable then done [] else checked
