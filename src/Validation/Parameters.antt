-- ===== src/Validation/Parameters.antt =====
-- crates/chasm-engine/src/validation.rs: parameters. The warnings on styles are only logged.
pub mod Ending
use chasm.Prelude.{
  Bool, true, false, ◌&&◌, ◌||◌, Option, some, none, List, [], ◌∷◌, ◌++◌, is_empty, unwrap_or,
  find_first, if◌then◌else◌,
}
use mathlib.Core.List.{reverse}
use chasm.Text.{Text, ascii, text_eq, eq_ignore_ascii_case, strip_prefix, get}
use chasm.OpenApi.{
  Spec, Schema, described, ReferenceOr, item, reference, Branches, no_branch, branch, Parameter,
  ParameterData, path_parameter, query_parameter, header_parameter, cookie_parameter, QueryStyle,
  deep_object, ParameterSchemaOrContent, object_type, array_type, one_of, any_of, schema_kind,
  Value, end, member,
}
use chasm.Validation.Errors.{ValidationLocation, path, query, header, new}
use chasm.Validation.Library.{Library}
use chasm.Validation.Checked.{Checked, done, ◌>>=◌}
use chasm.Validation.Coercion.{
  resolve_boxed_schema, coerce_string_to_schema_value, coerce_array_param, coerce_object_param,
  value, integer_overflow,
}
use chasm.Validation.DeepObjects.{
  schema_of, is_object_typed_param, deep_entries, coerce_deep_object_values,
}
use chasm.Validation.Values.{Errors, Recurse}

-- One hop of a reference is followed.
unfoldable pub resolve_parameter : Spec → ReferenceOr Parameter → Option Parameter
resolve_parameter spec (item p) = some p
resolve_parameter spec (reference r) = elim (strip_prefix r (ascii "#/components/parameters/")) [
  | none ↦ none
  | some name ↦ elim spec.components [
    | none ↦ none
    | some components ↦ elim (get components.parameters name) [ some (item p) ↦ some p | _ ↦ none ]
  ]
]

unfoldable pub path_item_parameters_for_template : Spec → Text → List (ReferenceOr Parameter)
path_item_parameters_for_template spec template = elim (get spec.paths template) [
  | some (item i) ↦ i.parameters
  | _ ↦ []
]

-- A name and the word of its place.
unfoldable pub parameter_dedupe_key : Parameter → Text × Text
parameter_dedupe_key (path_parameter d _) = (d.name, ascii "path")
parameter_dedupe_key (query_parameter d _) = (d.name, ascii "query")
parameter_dedupe_key (header_parameter d) = (d.name, ascii "header")
parameter_dedupe_key (cookie_parameter d) = (d.name, ascii "cookie")

abbrev pub key_eq : Text × Text → Text × Text → Bool
key_eq a b = text_eq a.0 b.0 && text_eq a.1 b.1

abbrev pub seen : Text × Text → List (Text × Text) → Bool
seen k [] = false
seen k (j ∷ js) = key_eq j k || seen k js

-- The loop over the parameters from the last; `keys` is the set.
unfoldable pub keep_first_seen : List (Text × Text) → List Parameter → List Parameter
keep_first_seen keys [] = []
keep_first_seen keys (p ∷ ps) =
    let k = parameter_dedupe_key p in
    let rest = keep_first_seen (k ∷ keys) ps in
    if seen k keys then keep_first_seen keys ps else p ∷ rest

unfoldable pub dedupe_parameters : List Parameter → List Parameter
dedupe_parameters params = reverse (keep_first_seen [] (reverse params))

unfoldable pub resolve_all : Spec → List (ReferenceOr Parameter) → List Parameter
resolve_all spec [] = []
resolve_all spec (p ∷ ps) = elim (resolve_parameter spec p) [
  | none ↦ resolve_all spec ps
  | some q ↦ q ∷ resolve_all spec ps
]

unfoldable pub is_reserved_header_name : Text → Bool
is_reserved_header_name name =
    eq_ignore_ascii_case name (ascii "Accept")
    || eq_ignore_ascii_case name (ascii "Content-Type")
    || eq_ignore_ascii_case name (ascii "Authorization")

abbrev pub out_of_int64 : Text → Text
out_of_int64 raw =
    ascii "value '"
    ++ (raw ++ ascii "' is outside the int64 range [-9223372036854775808, 9223372036854775807]")

module _ (lib : Library) (spec : Spec) where
  module _ (rec : Recurse) where
    unfoldable pub validate_string_against_schema :
        ParameterSchemaOrContent → Text → ValidationLocation → Text → Checked Errors
    validate_string_against_schema fmt raw location f = elim (schema_of spec fmt) [
      | none ↦ done []
      | some s ↦ elim (coerce_string_to_schema_value lib.floats raw (schema_kind s)) [
        | value v ↦ rec s v location f
        | integer_overflow ↦ done (new location f (ascii "format") (out_of_int64 raw) ∷ [])
      ]
    ]

    -- The value that one branch reads, none where an integer overflows.
    unfoldable pub branch_value : Schema → Text → Bool → Option Value
    branch_value (described d k) raw explode = elim k [
      | array_type items _ _ _ ↦ some (coerce_array_param lib.floats spec items raw)
      | object_type _ _ _ ↦ some (coerce_object_param raw explode)
      | other ↦ elim (coerce_string_to_schema_value lib.floats raw other) [
        | value v ↦ some v
        | integer_overflow ↦ none
      ]
    ]

    unfoldable pub try_validate_composite_param :
        Branches → Text → Bool → ValidationLocation → Text → Checked Bool
    try_validate_composite_param no_branch raw explode location f = done false
    try_validate_composite_param (branch r bs) raw explode location f =
        elim (resolve_boxed_schema spec r) [
          | none ↦ try_validate_composite_param bs raw explode location f
          | some s ↦ elim (branch_value s raw explode) [
            | none ↦ try_validate_composite_param bs raw explode location f
            | some v ↦ do
              es ← rec s v location f
              elim (is_empty es) [
                | true ↦ done true
                | false ↦ try_validate_composite_param bs raw explode location f
              ]
          ]
        ]

    abbrev composite :
        ParameterSchemaOrContent
        → Branches
        → Text
        → Bool
        → ValidationLocation
        → Text
        → Checked Errors
    composite fmt bs raw explode location f = do
      matched ← try_validate_composite_param bs raw explode location f
      elim matched [ true ↦ done [] | false ↦ validate_string_against_schema fmt raw location f ]

    unfoldable pub validate_serialised_param_against_schema :
        ParameterSchemaOrContent → Text → Bool → ValidationLocation → Text → Checked Errors
    validate_serialised_param_against_schema fmt raw explode location f =
        elim (schema_of spec fmt) [
          | none ↦ done []
          | some (described d k) ↦ elim k [
            | array_type items lo hi u ↦
                rec (described d (array_type items lo hi u))
                  (coerce_array_param lib.floats spec items raw) location f
            | object_type ps rs ap ↦
                rec (described d (object_type ps rs ap)) (coerce_object_param raw explode) location
                  f
            | any_of bs ↦ composite fmt bs raw explode location f
            | one_of bs ↦ composite fmt bs raw explode location f
            | _ ↦ validate_string_against_schema fmt raw location f
          ]
        ]

    abbrev pub missing_when : Bool → ValidationLocation → Text → Text → Checked Errors
    missing_when true location name message =
        done (new location name (ascii "required") message ∷ [])
    missing_when false location name message = done []

    unfoldable pub validate_path_param : ParameterData → List (Text × Text) → Checked Errors
    validate_path_param d path_params = elim (get path_params d.name) [
      | none ↦ missing_when true path d.name (ascii "missing path parameter")
      | some raw ↦
          validate_serialised_param_against_schema d.format raw (unwrap_or d.explode false) path
            d.name
    ]

    -- A query parameter that is no deep object, by what the query has under its name.
    unfoldable pub validate_simple_query_param : ParameterData → Option Text → Checked Errors
    validate_simple_query_param d none =
        missing_when d.required query d.name (ascii "missing required query parameter")
    validate_simple_query_param d (some raw) =
        validate_serialised_param_against_schema d.format raw (unwrap_or d.explode true) query
          d.name

    unfoldable pub validate_deep_object_query_param :
        ParameterData → List (Text × Text) → Checked Errors
    validate_deep_object_query_param d q = elim (deep_entries d.name q end) [
      | end ↦ validate_simple_query_param d (get q d.name)
      | member k v m ↦ elim (schema_of spec d.format) [
        | none ↦ done []
        | some s ↦ rec s (coerce_deep_object_values lib spec s (member k v m)) query d.name
      ]
    ]

    abbrev is_deep : QueryStyle → Bool
    is_deep deep_object = true
    is_deep _ = false

    unfoldable pub validate_query_param :
        ParameterData → QueryStyle → List (Text × Text) → Checked Errors
    validate_query_param d style q =
        if is_deep style && is_object_typed_param spec d.format
        then validate_deep_object_query_param d q
        else validate_simple_query_param d (get q d.name)

    unfoldable pub validate_header_param : ParameterData → List (Text × Text) → Checked Errors
    validate_header_param d headers =
        if is_reserved_header_name d.name
        then done []
        else elim (find_first (λ e. eq_ignore_ascii_case e.0 d.name) headers) [
          | none ↦ missing_when d.required header d.name (ascii "missing required header")
          | some e ↦
              validate_serialised_param_against_schema d.format e.1 (unwrap_or d.explode false)
                header d.name
        ]
