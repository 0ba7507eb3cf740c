-- ===== src/Validation/Parameters/Ending.antt =====
-- The checks of a parameter end where those of its schema do.
use chasm.Validation.DeepObjects.Flat.{depth-deep_entries, depth-coerce_deep_object_values}
use native.Mathlib.Nat.{le_trans}
use chasm.Validation.Parameters.{
  is_deep, is_reserved_header_name, validate_deep_object_query_param, validate_query_param,
  composite, validate_simple_query_param, validate_path_param, missing_when, validate_header_param,
  validate_serialised_param_against_schema, branch_value, validate_string_against_schema,
  try_validate_composite_param,
}
use chasm.Prelude.{
  ◌&&◌, [], find_first, suc, ◌≡◌, List, Option-cases, Bool, true, false, ◌≤◌, Option, some, none,
  arith, inl, inr, Bool-cases, is_empty,
}
use chasm.Text.{ascii, eq_ignore_ascii_case, get, Text}
use chasm.OpenApi.{
  member, QueryStyle, end, Members, SchemaData, ParameterData, schema_kind, Spec, Schema, described,
  SchemaKind, Branches, no_branch, branch, one_of, any_of, object_type, array_type,
  ParameterSchemaOrContent, Value,
}
use chasm.Validation.Library.{Library}
use chasm.Validation.Errors.{ValidationLocation, path, query, header}
use chasm.Validation.Checked.{done, Ends, ◌>>=◌}
use chasm.Validation.Values.{Recurse, Errors}
use chasm.Validation.Values.Depth.{depth_members, depth}
use chasm.Validation.Values.Ending.{Each, AllBranches, EndsBelow, Ends->>=, Ends-Each}
use chasm.Validation.Coercion.{
  Coercion, value, integer_overflow, coerce_string_to_schema_value, resolve_boxed_schema,
}
use chasm.Validation.Coercion.Flat.{
  IsFlat, coerce_string-IsFlat, depth-coerce_array_param, depth-coerce_object_param,
}
use chasm.Validation.DeepObjects.{
  deep_entries, is_object_typed_param, coerce_deep_object_values, schema_of,
}

depth_end : (map : Members) → depth_members map ≤ depth_members end → suc (depth_members map) ≤ 1
unfolding depth_members
depth_end map h = omega (arith, h)

-- A schema of the set, and the branches that a composite parameter is tried with.
abbrev pub HasBranches : Spec → (Schema → Type 0) → SchemaKind → Type 0
HasBranches spec P (one_of bs) = AllBranches spec P bs
HasBranches spec P (any_of bs) = AllBranches spec P bs
HasBranches spec P _ = Unit {0}

module _ (lib : Library) (spec : Spec) (rec : Recurse) (P : Schema → Type 0)
    (branches : (s : Schema) → P s → HasBranches spec P (schema_kind s))
    (ends : EndsBelow rec P 1) where
  coerced-Ends :
      (c : Coercion) (location : ValidationLocation) (f : Text) (s : Schema) (es : Errors)
      → IsFlat c
      → P s
      → Ends (elim c [ value v ↦ rec s v location f | integer_overflow ↦ done es ])
  coerced-Ends (value v) location f s es h p = ends s p v (omega (arith, h)) location f
  coerced-Ends integer_overflow location f s es h p = tt

  validate_string-Ends :
      (fmt : ParameterSchemaOrContent) (raw : Text) (location : ValidationLocation) (f : Text)
      → Each P (schema_of spec fmt)
      → Ends (validate_string_against_schema lib spec rec fmt raw location f)
  unfolding validate_string_against_schema
  validate_string-Ends fmt raw location f h = Ends-Each P (schema_of spec fmt) _ _ h tt (λ s p.
      coerced-Ends (coerce_string_to_schema_value lib.floats raw (schema_kind s)) location f s _
        (coerce_string-IsFlat lib.floats raw (schema_kind s)) p)

  abbrev IsShallow : Option Value → Type 0
  IsShallow none = Unit {0}
  IsShallow (some v) = depth v ≤ 1

  read-IsShallow :
      (c : Coercion) → IsFlat c → IsShallow (elim c [ value v ↦ some v | integer_overflow ↦ none ])
  read-IsShallow (value v) h = omega (arith, h)
  read-IsShallow integer_overflow h = tt

  branch_value-IsShallow :
      (s : Schema) (raw : Text) (explode : Bool)
      → IsShallow (branch_value lib spec rec s raw explode)
  unfolding branch_value
  branch_value-IsShallow (described d (array_type items lo hi u)) raw explode =
      depth-coerce_array_param lib.floats spec items raw
  branch_value-IsShallow (described d (object_type ps rs ap)) raw explode =
      depth-coerce_object_param raw explode
  branch_value-IsShallow (described d k) raw explode =
      read-IsShallow (coerce_string_to_schema_value lib.floats raw k)
        (coerce_string-IsFlat lib.floats raw k)

  try_validate-Ends :
      (bs : Branches) (raw : Text) (explode : Bool) (location : ValidationLocation) (f : Text)
      → AllBranches spec P bs
      → Ends (try_validate_composite_param lib spec rec bs raw explode location f)
  unfolding try_validate_composite_param
  try_validate-Ends no_branch raw explode location f h = tt
  try_validate-Ends (branch r bs) raw explode location f h =
      let later = try_validate-Ends bs raw explode location f h.1 in
      Ends-Each P (resolve_boxed_schema spec r) _ _ h.0 later (λ s p.
        shallow (branch_value lib spec rec s raw explode) s (branch_value-IsShallow s raw explode) p
          later)
    where
      shallow :
          (o : Option Value) (s : Schema)
          → IsShallow o
          → P s
          → Ends (try_validate_composite_param lib spec rec bs raw explode location f)
          → Ends (elim o [
            | none ↦ try_validate_composite_param lib spec rec bs raw explode location f
            | some v ↦ rec s v location f >>= (λ es. elim (is_empty es) [
              | true ↦ done true
              | false ↦ try_validate_composite_param lib spec rec bs raw explode location f
            ])
          ])
      shallow none s d p later = later
      shallow (some v) s d p later =
          Ends->>= _ _ (ends s p v d location f)
            (λ es. elim (Bool-cases (is_empty es)) [ inl e ↦ rw e tt | inr e ↦ rw e later ])

  composite-Ends :
      (fmt : ParameterSchemaOrContent) (bs : Branches) (raw : Text) (explode : Bool)
      (location : ValidationLocation) (f : Text)
      → Each P (schema_of spec fmt)
      → AllBranches spec P bs
      → Ends (composite lib spec rec fmt bs raw explode location f)
  composite-Ends fmt bs raw explode location f h b =
      Ends->>= _ _ (try_validate-Ends bs raw explode location f b) (λ matched.
        elim (Bool-cases matched) [
          | inl e ↦ rw e tt
          | inr e ↦ rw e (validate_string-Ends fmt raw location f h)
        ])

  serialised_kind-Ends :
      (fmt : ParameterSchemaOrContent) (raw : Text) (explode : Bool) (location : ValidationLocation)
      (f : Text) (d : SchemaData) (k : SchemaKind)
      → schema_of spec fmt ≡ some (described d k)
      → Each P (schema_of spec fmt)
      → P (described d k)
      → HasBranches spec P k
      → Ends (validate_serialised_param_against_schema lib spec rec fmt raw explode location f)
  unfolding validate_serialised_param_against_schema
  serialised_kind-Ends fmt raw explode location f d (array_type items lo hi u) e h p b =
      rw (validate_serialised_param_against_schema, e)
        (ends _ p _ (depth-coerce_array_param lib.floats spec items raw) location f)
  serialised_kind-Ends fmt raw explode location f d (object_type ps rs ap) e h p b =
      rw (validate_serialised_param_against_schema, e)
        (ends _ p _ (depth-coerce_object_param raw explode) location f)
  serialised_kind-Ends fmt raw explode location f d (any_of bs) e h p b =
      rw (validate_serialised_param_against_schema, e)
        (composite-Ends fmt bs raw explode location f h b)
  serialised_kind-Ends fmt raw explode location f d (one_of bs) e h p b =
      rw (validate_serialised_param_against_schema, e)
        (composite-Ends fmt bs raw explode location f h b)
  serialised_kind-Ends fmt raw explode location f d _ e h p b =
      rw (validate_serialised_param_against_schema, e) (validate_string-Ends fmt raw location f h)

  validate_serialised-Ends :
      (fmt : ParameterSchemaOrContent) (raw : Text) (explode : Bool) (location : ValidationLocation)
      (f : Text)
      → Each P (schema_of spec fmt)
      → Ends (validate_serialised_param_against_schema lib spec rec fmt raw explode location f)
  validate_serialised-Ends fmt raw explode location f h = elim (Option-cases (schema_of spec fmt)) [
    | inl e ↦
        unfold validate_serialised_param_against_schema in
        (rw (validate_serialised_param_against_schema, e) tt)
    | inr (described d k, e) ↦
        let p : P (described d k) = rw e at h in
        serialised_kind-Ends fmt raw explode location f d k e h p (branches (described d k) p)
  ]

  missing_when-Ends :
      (b : Bool) (location : ValidationLocation) (name message : Text)
      → Ends (missing_when lib spec rec b location name message)
  missing_when-Ends true location name message = tt
  missing_when-Ends false location name message = tt

  pub validate_path_param-Ends :
      (d : ParameterData) (params : List (Text × Text))
      → Each P (schema_of spec d.format)
      → Ends (validate_path_param lib spec rec d params)
  unfolding validate_path_param
  validate_path_param-Ends d params h = elim (Option-cases (get params d.name)) [
    | inl e ↦ rw (validate_path_param, e) (tt)
    | inr (raw, e) ↦
        rw (validate_path_param, e) (validate_serialised-Ends d.format raw _ path d.name h)
  ]

  validate_simple-Ends :
      (d : ParameterData) (o : Option Text)
      → Each P (schema_of spec d.format)
      → Ends (validate_simple_query_param lib spec rec d o)
  unfolding validate_simple_query_param
  validate_simple-Ends d none h =
      missing_when-Ends d.required query d.name (ascii "missing required query parameter")
  validate_simple-Ends d (some raw) h = validate_serialised-Ends d.format raw _ query d.name h

  pub validate_query_param-Ends :
      (d : ParameterData) (style : QueryStyle) (q : List (Text × Text))
      → Each P (schema_of spec d.format)
      → Ends (validate_query_param lib spec rec d style q)
  unfolding validate_query_param validate_deep_object_query_param
  validate_query_param-Ends d style q h =
      elim (Bool-cases (is_deep lib spec rec style && is_object_typed_param spec d.format)) [
        | inr e ↦ rw e (validate_simple-Ends d (get q d.name) h)
        | inl e ↦ rw e (deep (deep_entries d.name q end) (depth-deep_entries d.name q end))
      ]
    where
      deep :
          (map : Members)
          → depth_members map ≤ depth_members end
          → Ends (elim map [
            | end ↦ validate_simple_query_param lib spec rec d (get q d.name)
            | member k v m ↦ elim (schema_of spec d.format) [
              | none ↦ done []
              | some s ↦ rec s (coerce_deep_object_values lib spec s (member k v m)) query d.name
            ]
          ])
      deep end l = validate_simple-Ends d (get q d.name) h
      deep (member k v m) l = Ends-Each P (schema_of spec d.format) _ _ h tt (λ s p.
          ends s p _
            (le_trans (depth-coerce_deep_object_values lib spec s (member k v m))
              (depth_end (member k v m) l))
            query d.name)

  pub validate_header_param-Ends :
      (d : ParameterData) (headers : List (Text × Text))
      → Each P (schema_of spec d.format)
      → Ends (validate_header_param lib spec rec d headers)
  unfolding validate_header_param
  validate_header_param-Ends d headers h = elim (Bool-cases (is_reserved_header_name d.name)) [
    | inl e ↦ rw e tt
    | inr e ↦
        elim (Option-cases
          (find_first (λ (e : Text × Text). eq_ignore_ascii_case e.0 d.name) headers)) [
            | inl f ↦
                rw (validate_header_param, e, f)
                  (missing_when-Ends d.required header d.name (ascii "missing required header"))
            | inr (kv, f) ↦
                rw (validate_header_param, e, f)
                  (validate_serialised-Ends d.format kv.1 _ header d.name h)
          ]
  ]
