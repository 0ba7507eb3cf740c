-- ===== src/Validation/Coercion.antt =====
-- crates/chasm-engine/src/validation.rs: the values that raw parameters stand for.
pub mod Flat
use chasm.Prelude.{
  ◌||◌, ℕ, Bool, true, false, Option, some, none, List, [], ◌∷◌, ◌^◌, ◌-◌, ◌==◌, ltb, is_empty,
  unwrap_or, zero, suc, if◌then◌else◌,
}
use chasm.Prelude.Int.{ℤ, pos, negsuc}
use chasm.Prelude.Maybe.{◌>>=◌}
use chasm.Text.{
  Text, ascii, text_eq, split, split_once, strip_prefix, get, parse_digits, parse_uint,
}
use chasm.OpenApi.{
  Spec, Schema, schema_kind, SchemaKind, SchemaRef, SchemaSlot, absent, slot, string_type,
  integer_type, number_type, boolean_type, object_type, array_type, any_schema, ReferenceOr, item,
  reference, to_reference_or, Properties, no_property, property, Value, Values, Members, object,
  array, string, number, bool, nil, cons, end,
}
use chasm.Validation.Library.{Floats}
use chasm.Engine.Values.{insert_field, of_ℤ}

-- A reference is followed once.
unfoldable pub resolve_schema : Spec → ReferenceOr Schema → Option Schema
resolve_schema spec (item s) = some s
resolve_schema spec (reference r) = do
  name ← strip_prefix r (ascii "#/components/schemas/")
  components ← spec.components
  entry ← get components.schemas name
  elim entry [ item s ↦ some s | reference _ ↦ none ]

unfoldable pub resolve_boxed_schema : Spec → SchemaRef → Option Schema
resolve_boxed_schema spec s = resolve_schema spec (to_reference_or s)

-- `-` in front of a magnitude.
abbrev pub negated : ℕ → ℤ
negated zero = pos 0
negated (suc n) = negsuc n

-- `parse::<i128>()`.
unfoldable pub parse_i128 : Text → Option ℤ
parse_i128 [] = none
parse_i128 (c ∷ []) = do n ← parse_uint (2 ^ 127 - 1) (c ∷ []); some (pos n)
parse_i128 (c ∷ d ∷ s) =
    if c == b'-'
    then elim (parse_digits (2 ^ 127) 0 (d ∷ s)) [ none ↦ none | some n ↦ some (negated n) ]
    else elim (parse_uint (2 ^ 127 - 1) (c ∷ d ∷ s)) [ none ↦ none | some n ↦ some (pos n) ]

abbrev pub fits_i64 : ℤ → Bool
fits_i64 (pos n) = ltb n (2 ^ 63)
fits_i64 (negsuc n) = ltb n (2 ^ 63)

abbrev is_type_name : Text → Bool
is_type_name t =
    text_eq t (ascii "string")
    || text_eq t (ascii "integer")
    || text_eq t (ascii "number")
    || text_eq t (ascii "boolean")
    || text_eq t (ascii "object")
    || text_eq t (ascii "array")

unfoldable pub primary_type_label : SchemaKind → Option Text
primary_type_label (string_type _) = some (ascii "string")
primary_type_label (integer_type _) = some (ascii "integer")
primary_type_label (number_type _) = some (ascii "number")
primary_type_label (boolean_type _) = some (ascii "boolean")
primary_type_label (object_type _ _ _) = some (ascii "object")
primary_type_label (array_type _ _ _ _) = some (ascii "array")
primary_type_label (any_schema d _ _) = elim d.typ [
  | none ↦ none
  | some t ↦ if is_type_name t then some t else none
]
primary_type_label _ = none

pub data Coercion : Type 0 where
  value : Value → Coercion
  integer_overflow : Coercion

unfoldable pub coerce_string_to_schema_value : Floats → Text → SchemaKind → Coercion
coerce_string_to_schema_value floats raw kind =
    let label = unwrap_or (primary_type_label kind) [] in
    if text_eq label (ascii "integer")
    then (elim (parse_i128 raw) [
      | none ↦ value (string raw)
      | some n ↦ if fits_i64 n then value (of_ℤ n) else integer_overflow
    ])
    else if text_eq label (ascii "number")
    then (elim (floats.parse raw) [
      | none ↦ value (string raw)
      | some x ↦ elim (floats.to_number x) [ none ↦ value (string raw) | some n ↦ value (number n) ]
    ])
    else if text_eq label (ascii "boolean")
    then (if text_eq raw (ascii "true")
        then value (bool true)
        else if text_eq raw (ascii "false")
        then value (bool false)
        else value (string raw))
    else value (string raw)

-- A value, with the raw text for an integer that overflows.
abbrev pub or_string : Text → Coercion → Value
or_string raw (value v) = v
or_string raw integer_overflow = string raw

abbrev pub resolve_slot : Spec → SchemaSlot → Option Schema
resolve_slot spec absent = none
resolve_slot spec (slot r) = resolve_boxed_schema spec r

-- One piece of an array.
unfoldable pub coerce_piece : Floats → Option Schema → Text → Value
coerce_piece floats none piece = string piece
coerce_piece floats (some s) piece =
    or_string piece (coerce_string_to_schema_value floats piece (schema_kind s))

unfoldable pub coerce_pieces : Floats → Option Schema → List Text → Values
coerce_pieces floats s [] = nil
coerce_pieces floats s (p ∷ ps) = cons (coerce_piece floats s p) (coerce_pieces floats s ps)

unfoldable pub coerce_array_param : Floats → Spec → SchemaSlot → Text → Value
coerce_array_param floats spec items raw =
    if is_empty raw
    then array nil
    else array (coerce_pieces floats (resolve_slot spec items) (split b',' raw))

-- `k=v` chunks; others are dropped.
unfoldable pub exploded_members : List Text → Members → Members
exploded_members [] map = map
exploded_members (chunk ∷ chunks) map =
    exploded_members chunks
      (elim (split_once b'=' chunk) [ none ↦ map | some (k, v) ↦ insert_field map k (string v) ])

-- Keys and values in turn.
unfoldable pub paired_members : List Text → Members → Members
paired_members [] map = map
paired_members (key ∷ []) map = insert_field map key (string [])
paired_members (key ∷ v ∷ parts) map = paired_members parts (insert_field map key (string v))

unfoldable pub coerce_object_param : Text → Bool → Value
coerce_object_param raw explode =
    if is_empty raw
    then object end
    else if explode
    then object (exploded_members (split b',' raw) end)
    else object (paired_members (split b',' raw) end)

-- `properties.get(key)`.
unfoldable pub property_at : Properties → Text → Option SchemaRef
property_at no_property k = none
property_at (property j r ps) k = if text_eq j k then some r else property_at ps k
