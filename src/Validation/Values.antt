-- ===== src/Validation/Values.antt =====
-- crates/chasm-engine/src/validation.rs: `validate_value`. Its recursion goes through references of
-- the document, so it takes fuel; the loops take the recursive call as an argument.
pub mod Depth
pub mod Ending
use chasm.Prelude.{
  ℕ, Bool, true, false, not, ◌&&◌, ◌||◌, Option, some, none, List, [], ◌∷◌, ◌++◌, ◌==◌, is_empty,
  is_some, suc, if◌then◌else◌,
}
use mathlib.Core.List.{reverse}
use chasm.Text.{Text, ascii, text_eq, eq_ignore_ascii_case, strip_prefix, get, split, decimal}
use chasm.OpenApi.{
  Spec, Schema, described, inline, pointer, SchemaSlot, Branches, no_branch, branch, Properties,
  no_property, property, AdditionalProperties, unsaid, any, extra, Discriminator, object_type,
  any_schema, Value, Values, Members, string, object, nil, cons, end, member,
}
use chasm.Engine.Values.{field, has_field}
use chasm.Validation.Errors.{ValidationError, ValidationLocation, body, new}
use chasm.Validation.Checked.{Checked, done, ◌>>=◌}
use chasm.Validation.Coercion.{resolve_boxed_schema, resolve_slot, property_at}
use chasm.Validation.Scalars.{unless}

abbrev pub Errors : Type 0
Errors = List ValidationError

-- The recursive call: a schema, a value, a location and a field.
abbrev pub Recurse : Type 0
Recurse = Schema → Value → ValidationLocation → Text → Checked Errors

abbrev pub dotted : Text → Text → Text
dotted f key = f ++ (b'.' ∷ key)

abbrev pub indexed : Text → ℕ → Text
indexed f i = f ++ (b'[' ∷ (decimal i ++ ascii "]"))

-- The entries for required properties that are missing.
unfoldable pub missing_required : ValidationLocation → Text → Members → List Text → Errors
missing_required location f map [] = []
missing_required location f map (r ∷ rs) =
    unless (has_field map r)
      (new location (dotted f r) (ascii "required") (ascii "missing required property"))
    ++ missing_required location f map rs

-- `additionalProperties: false`.
unfoldable pub forbidden_extra : ValidationLocation → Text → Properties → Members → Errors
forbidden_extra location f props end = []
forbidden_extra location f props (member k v map) =
    unless (is_some (property_at props k)) (
      new location (dotted f k) (ascii "additionalProperties")
        (ascii "additional property is not allowed"))
    ++ forbidden_extra location f props map

-- The last piece of a field's path.
unfoldable pub last_segment : Text → Text
last_segment f = elim (reverse (split b'.' f)) [ [] ↦ f | s ∷ _ ↦ s ]

unfoldable pub contains_text : List Text → Text → Bool
contains_text [] t = false
contains_text (s ∷ ss) t = text_eq s t || contains_text ss t

-- What is kept of a branch's entries under `allOf`.
unfoldable pub keep_unless_declared : List Text → Errors → Errors
keep_unless_declared union [] = []
keep_unless_declared union (e ∷ es) =
    let rest = keep_unless_declared union es in
    if text_eq e.code (ascii "additionalProperties") && contains_text union (last_segment e.field)
    then rest
    else e ∷ rest

abbrev pub property_names : Properties → List Text
property_names no_property = []
property_names (property k r ps) = k ∷ property_names ps

module _ (spec : Spec) where
  -- A set as the list of what is inserted.
  unfoldable pub collect_allof_declared_properties : Branches → List Text
  collect_allof_declared_properties no_branch = []
  collect_allof_declared_properties (branch r bs) =
      (elim (resolve_boxed_schema spec r) [
        | none ↦ []
        | some (described d k) ↦ elim k [
          | object_type ps rs ap ↦ property_names ps
          | any_schema a ps n ↦ property_names ps
          | _ ↦ []
        ]
      ])
      ++ collect_allof_declared_properties bs

  -- Whether a branch is the one that the discriminator names.
  unfoldable pub is_discriminated : Option Text → Text → Text → Bool
  is_discriminated target key r =
      (elim target [ none ↦ false | some t ↦ text_eq r t ])
      || (elim (strip_prefix r (ascii "#/components/schemas/")) [
        | none ↦ false
        | some name ↦ eq_ignore_ascii_case name key
      ])

  unfoldable pub discriminated_branch : Option Text → Text → Branches → Option Schema
  discriminated_branch target key no_branch = none
  discriminated_branch target key (branch (inline s) bs) = discriminated_branch target key bs
  discriminated_branch target key (branch (pointer r) bs) =
      let rest = discriminated_branch target key bs in
      if is_discriminated target key r then resolve_boxed_schema spec (pointer r) else rest

  unfoldable pub resolve_discriminated_branch :
      Branches → Option Discriminator → Value → Option Schema
  resolve_discriminated_branch bs none v = none
  resolve_discriminated_branch bs (some disc) (object map) = elim (field map disc.property_name) [
    | some (string key) ↦ discriminated_branch (get disc.mapping key) key bs
    | _ ↦ none
  ]
  resolve_discriminated_branch bs (some disc) _ = none

  module _ (rec : Recurse) where
    -- `validate_value_silently`.
    abbrev pub silently : Schema → Value → Checked Errors
    silently s v = rec s v body (ascii "_")

    unfoldable pub check_properties :
        ValidationLocation → Text → Members → Properties → Checked Errors
    check_properties location f map no_property = done []
    check_properties location f map (property key r ps) = do
      here ← elim (field map key) [
        | none ↦ done []
        | some child ↦ elim (resolve_boxed_schema spec r) [
          | none ↦ done []
          | some s ↦ rec s child location (dotted f key)
        ]
      ]
      later ← check_properties location f map ps
      done (here ++ later)

    unfoldable pub check_extra :
        ValidationLocation → Text → Properties → Schema → Members → Checked Errors
    check_extra location f props s end = done []
    check_extra location f props s (member key child map) = do
      here ←
          if is_some (property_at props key) then done [] else rec s child location (dotted f key)
      later ← check_extra location f props s map
      done (here ++ later)

    unfoldable pub check_additional :
        ValidationLocation → Text → Properties → AdditionalProperties → Members → Checked Errors
    check_additional location f props unsaid map = done []
    check_additional location f props (any true) map = done []
    check_additional location f props (any false) map = done (forbidden_extra location f props map)
    check_additional location f props (extra r) map = elim (resolve_boxed_schema spec r) [
      | none ↦ done []
      | some s ↦ check_extra location f props s map
    ]

    unfoldable pub check_items : ValidationLocation → Text → Schema → ℕ → Values → Checked Errors
    check_items location f s i nil = done []
    check_items location f s i (cons v vs) = do
      here ← rec s v location (indexed f i)
      later ← check_items location f s (suc i) vs
      done (here ++ later)

    -- How many branches resolve, and how many of these the value matches.
    unfoldable pub count_branches : Branches → Value → Checked (ℕ × ℕ)
    count_branches no_branch v = done (0, 0)
    count_branches (branch r bs) v = elim (resolve_boxed_schema spec r) [
      | none ↦ count_branches bs v
      | some s ↦ do
        es ← silently s v
        counts ← count_branches bs v
        done (suc counts.0, if is_empty es then suc counts.1 else counts.1)
    ]

    -- The first match ends the search.
    unfoldable pub any_branch : Branches → Value → Checked Bool
    any_branch no_branch v = done false
    any_branch (branch r bs) v = elim (resolve_boxed_schema spec r) [
      | none ↦ any_branch bs v
      | some s ↦ do
        es ← silently s v
        elim (is_empty es) [ true ↦ done true | false ↦ any_branch bs v ]
    ]

    abbrev pub suppresses_additional : Schema → Bool
    suppresses_additional (described d k) = elim k [
      | object_type _ _ _ ↦ true
      | any_schema _ _ _ ↦ true
      | _ ↦ false
    ]

    unfoldable pub validate_allof_branch :
        Schema → Value → ValidationLocation → Text → List Text → Checked Errors
    validate_allof_branch s v location f union = do
      es ← rec s v location f
      done (if suppresses_additional s then keep_unless_declared union es else es)

    unfoldable pub check_all_of :
        Value → ValidationLocation → Text → List Text → Branches → Checked Errors
    check_all_of v location f union no_branch = done []
    check_all_of v location f union (branch r bs) = elim (resolve_boxed_schema spec r) [
      | none ↦ check_all_of v location f union bs
      | some s ↦ do
        here ← validate_allof_branch s v location f union
        later ← check_all_of v location f union bs
        done (here ++ later)
    ]

    unfoldable pub check_not : Value → ValidationLocation → Text → SchemaSlot → Checked Errors
    check_not v location f n = elim (resolve_slot spec n) [
      | none ↦ done []
      | some s ↦ do
        es ← silently s v
        done (
            unless (not (is_empty es)) (
              new location f (ascii "not")
                (ascii "value matched a schema it was required not to match")))
    ]

    unfoldable pub check_one_of :
        Branches → Option Discriminator → Value → ValidationLocation → Text → Checked Errors
    check_one_of bs disc v location f = elim (resolve_discriminated_branch bs disc v) [
      | some s ↦ rec s v location f
      | none ↦ do
        counts ← count_branches bs v
        done (
            unless (counts.1 == 1) (
              new location f (ascii "oneOf") (
                ascii "value matches "
                ++ (decimal counts.1
                    ++ (ascii " of "
                        ++ (decimal counts.0 ++ ascii " oneOf branches (must match exactly 1)"))))))
    ]
