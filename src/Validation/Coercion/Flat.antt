-- ===== src/Validation/Coercion/Flat.antt =====
-- Parameters stand for values that nest once at most.
use native.Mathlib.Nat.{le_trans}
use chasm.Prelude.{
  unwrap_or, Bool, true, false, ◌≡◌, ◌≤◌, Option, some, none, List, [], ◌∷◌, refl, arith, inl, inr,
  Bool-cases, Option-cases, if◌then◌else◌, is_empty,
}
use chasm.Prelude.Int.{ℤ, pos, negsuc}
use chasm.Text.{ascii, Text, text_eq, split, split_once}
use chasm.OpenApi.{
  schema_kind, Spec, Schema, SchemaKind, SchemaSlot, Value, Members, string, number, bool, end,
  member,
}
use chasm.Router.Methods.{text_le}
use chasm.Engine.Values.{insert_field, of_ℤ}
use chasm.Validation.Library.{Floats}
use chasm.Validation.Values.Depth.{depth, depth_items, depth_members}
use chasm.Validation.Coercion.{
  parse_i128, primary_type_label, resolve_slot, Coercion, value, integer_overflow, fits_i64,
  coerce_string_to_schema_value, or_string, coerce_piece, coerce_pieces, coerce_array_param,
  exploded_members, paired_members, coerce_object_param,
}

-- The value that is read, if one is, is no array and no object.
abbrev pub IsFlat : Coercion → Type 0
IsFlat (value v) = depth v ≡ 0
IsFlat integer_overflow = Unit {0}

IsFlat-if : (b : Bool) (x y : Coercion) → IsFlat x → IsFlat y → IsFlat (if b then x else y)
IsFlat-if true x y h k = h
IsFlat-if false x y h k = k

IsFlat-integer :
    (raw : Text) (o : Option ℤ)
    → IsFlat (elim o [
      | none ↦ value (string raw)
      | some n ↦ if fits_i64 n then value (of_ℤ n) else integer_overflow
    ])
unfolding depth
IsFlat-integer raw none = refl
IsFlat-integer raw (some (pos n)) =
    IsFlat-if (fits_i64 (pos n)) (value (of_ℤ (pos n))) integer_overflow refl tt
IsFlat-integer raw (some (negsuc n)) =
    IsFlat-if (fits_i64 (negsuc n)) (value (of_ℤ (negsuc n))) integer_overflow refl tt

IsFlat-boolean :
    (raw : Text)
    → IsFlat (
        if text_eq raw (ascii "true")
        then value (bool true)
        else if text_eq raw (ascii "false")
        then value (bool false)
        else value (string raw))
unfolding depth
IsFlat-boolean raw = elim (Bool-cases (text_eq raw (ascii "true"))) [
  | inl a ↦ rw a refl
  | inr a ↦ elim (Bool-cases (text_eq raw (ascii "false"))) [
    | inl b ↦ rw (a, b) refl
    | inr b ↦ rw (a, b) refl
  ]
]

IsFlat-number :
    (floats : Floats) (raw : Text) (o : Option floats.F64)
    → IsFlat (elim o [
      | none ↦ value (string raw)
      | some x ↦ elim (floats.to_number x) [ none ↦ value (string raw) | some n ↦ value (number n) ]
    ])
unfolding depth
IsFlat-number floats raw none = refl
IsFlat-number floats raw (some x) = elim (Option-cases (floats.to_number x)) [
  | inl e ↦ rw e refl
  | inr (n, e) ↦ rw e refl
]

pub coerce_string-IsFlat :
    (floats : Floats) (raw : Text) (kind : SchemaKind)
    → IsFlat (coerce_string_to_schema_value floats raw kind)
unfolding coerce_string_to_schema_value depth
coerce_string-IsFlat floats raw kind =
    let label = unwrap_or (primary_type_label kind) [] in
    elim (Bool-cases (text_eq label (ascii "integer"))) [
      | inl a ↦ rw a (IsFlat-integer raw (parse_i128 raw))
      | inr a ↦ elim (Bool-cases (text_eq label (ascii "number"))) [
        | inl b ↦ rw (a, b) (IsFlat-number floats raw (floats.parse raw))
        | inr b ↦ elim (Bool-cases (text_eq label (ascii "boolean"))) [
          | inl c ↦ rw (a, b, c) (IsFlat-boolean raw)
          | inr c ↦ rw (a, b, c) refl
        ]
      ]
    ]

pub depth-or_string : (raw : Text) (c : Coercion) → IsFlat c → depth (or_string raw c) ≡ 0
unfolding depth
depth-or_string raw (value v) h = h
depth-or_string raw integer_overflow h = refl

depth-coerce_piece :
    (floats : Floats) (s : Option Schema) (piece : Text) → depth (coerce_piece floats s piece) ≡ 0
unfolding coerce_piece depth
depth-coerce_piece floats none piece = refl
depth-coerce_piece floats (some s) piece =
    depth-or_string piece (coerce_string_to_schema_value floats piece (schema_kind s))
      (coerce_string-IsFlat floats piece (schema_kind s))

depth-coerce_pieces :
    (floats : Floats) (s : Option Schema) (ps : List Text)
    → depth_items (coerce_pieces floats s ps) ≡ 0
unfolding coerce_pieces depth_items
depth-coerce_pieces floats s [] = refl
depth-coerce_pieces floats s (p ∷ ps) =
    omega (arith, depth-coerce_piece floats s p, depth-coerce_pieces floats s ps)

pub depth-coerce_array_param :
    (floats : Floats) (spec : Spec) (items : SchemaSlot) (raw : Text)
    → depth (coerce_array_param floats spec items raw) ≤ 1
unfolding coerce_array_param depth
depth-coerce_array_param floats spec items raw = elim (Bool-cases (is_empty raw)) [
  | inl e ↦ rw e (omega arith)
  | inr e ↦
      rw e (omega (arith, depth-coerce_pieces floats (resolve_slot spec items) (split b',' raw)))
]

pub depth-insert_field :
    (map : Members) (k : Text) (v : Value)
    → depth v ≡ 0
    → depth_members (insert_field map k v) ≤ depth_members map
unfolding insert_field depth_members
depth-insert_field end k v h = omega (arith, h)
depth-insert_field (member j w m) k v h = elim (Bool-cases (text_eq j k)) [
  | inl e ↦ rw e (omega (arith, h))
  | inr e ↦ elim (Bool-cases (text_le k j)) [
    | inl l ↦ rw (e, l) (omega (arith, h))
    | inr l ↦ rw (e, l) (omega (arith, depth-insert_field m k v h))
  ]
]

depth-insert_string :
    (map : Members) (k v : Text) → depth_members (insert_field map k (string v)) ≤ depth_members map
unfolding depth
depth-insert_string map k v = depth-insert_field map k (string v) refl

depth-exploded_members :
    (chunks : List Text) (map : Members)
    → depth_members (exploded_members chunks map) ≤ depth_members map
unfolding exploded_members
depth-exploded_members [] map = omega arith
depth-exploded_members (chunk ∷ chunks) map = elim (Option-cases (split_once b'=' chunk)) [
  | inl e ↦ rw (exploded_members, e) (depth-exploded_members chunks map)
  | inr (kv, e) ↦
      rw (exploded_members, e)
        (le_trans (depth-exploded_members chunks (insert_field map kv.0 (string kv.1)))
          (depth-insert_string map kv.0 kv.1))
]

depth-paired_members :
    (parts : List Text) (map : Members)
    → depth_members (paired_members parts map) ≤ depth_members map
unfolding paired_members
depth-paired_members [] map = omega arith
depth-paired_members (key ∷ []) map = depth-insert_string map key []
depth-paired_members (key ∷ v ∷ parts) map =
    le_trans (depth-paired_members parts (insert_field map key (string v)))
      (depth-insert_string map key v)

pub depth-coerce_object_param :
    (raw : Text) (explode : Bool) → depth (coerce_object_param raw explode) ≤ 1
unfolding coerce_object_param depth
depth-coerce_object_param raw explode = elim (Bool-cases (is_empty raw)) [
  | inl e ↦ rw e (omega arith)
  | inr e ↦ elim (Bool-cases explode) [
    | inl x ↦ rw (e, x) (omega (arith, depth-exploded_members (split b',' raw) end))
    | inr x ↦ rw (e, x) (omega (arith, depth-paired_members (split b',' raw) end))
  ]
]
