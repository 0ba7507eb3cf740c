-- ===== src/Validation/Whole/Ending.antt =====
-- crates/chasm-engine/src/validation.rs: how deep `validate` goes.
use chasm.Validation.Errors.{body}
use mathlib.Core.Path.{subst}
use chasm.Validation.DeepObjects.{schema_of}
use chasm.Validation.Values.Depth.{depth}
use chasm.Validation.Whole.{
  item_parameters, effective_parameters, MockRequest, validate_parameter, validate_parameters,
  validate, validate_request_body,
}
use native.Mathlib.Nat.{le_trans, le_refl, mul-le-mul_right, suc-mul}
use chasm.Prelude.{
  [], is_some, not, ◌&&◌, is_empty, inr, inl, ◌∷◌, Bool-cases, Option-cases, All, List, ℕ, zero,
  suc, ◌≤◌, ◌<◌, ◌+◌, ◌*◌, Option, some, none, arith,
}
use chasm.Text.{ascii, Text}
use chasm.OpenApi.{
  cookie_parameter, header_parameter, query_parameter, path_parameter, RequestBody, Parameter,
  Operation, Spec, ReferenceOr, Schema, described, Branches, no_branch, branch, one_of, any_of,
  all_of, Value, object, schema_kind,
}
use chasm.Validation.Library.{Library}
use chasm.Validation.Checked.{Checked, Ends}
use chasm.Validation.Values.{Recurse, Errors}
use chasm.Validation.Values.Ending.{Each, AllBranches, EndsBelow, Ends->>=, Ends-Each}
use chasm.Validation.Dispatch.{validate_value}
use chasm.Validation.Dispatch.Ending.{Graded, validate_value-Ends}
use chasm.Validation.Coercion.{resolve_boxed_schema}
use chasm.Validation.Parameters.Ending.{
  validate_header_param-Ends, validate_query_param-Ends, validate_path_param-Ends, HasBranches,
}
use chasm.Validation.Body.{
  is_multipart, is_xml_content_type, resolve_request_body, media_schema, check_body_value,
  validate_body, validate_required_only, required_of_branches, content_type_of,
}

abbrev pub depth_of_body : Option Value → ℕ
depth_of_body none = 0
depth_of_body (some v) = depth v

module _ (P Q : Schema → Type 0) (imp : (s : Schema) → P s → Q s) where
  Each-map : (o : Option Schema) → Each P o → Each Q o
  Each-map none h = tt
  Each-map (some s) h = imp s h

  AllBranches-map : (spec : Spec) (bs : Branches) → AllBranches spec P bs → AllBranches spec Q bs
  AllBranches-map spec no_branch h = tt
  AllBranches-map spec (branch r bs) h =
      (Each-map (resolve_boxed_schema spec r) h.0, AllBranches-map spec bs h.1)

module _ (spec : Spec) (P : Schema → Type 0) (rec : Schema → Value → Text → Checked Errors)
    (ends : (s : Schema) → P s → (v : Value) (f : Text) → Ends (rec s v f)) where
  required_of_branches-Ends :
      (bs : Branches) (v : Value) (f : Text)
      → AllBranches spec P bs
      → Ends (required_of_branches spec rec bs v f)
  unfolding required_of_branches
  required_of_branches-Ends no_branch v f h = tt
  required_of_branches-Ends (branch r bs) v f h =
      let later = required_of_branches-Ends bs v f h.1 in
      Ends-Each P (resolve_boxed_schema spec r) _ _ h.0 later
        (λ s p. Ends->>= _ _ (ends s p v f) (λ here. Ends->>= _ _ later (λ es. tt)))

module _ (spec : Spec) (g : Graded spec) where
  validate_required_only-Ends :
      (fuel : ℕ) (s : Schema) (v : Value) (f : Text)
      → g.In s
      → g.rank s < fuel
      → Ends (validate_required_only spec fuel s v f)
  unfolding validate_required_only
  validate_required_only-Ends zero s v f h l = absurd (omega arith)
  validate_required_only-Ends (suc fuel) (described d (all_of bs)) (object map) f h l =
      required_of_branches-Ends spec (λ t. g.In t × g.rank t < g.rank (described d (all_of bs))) _
        (λ s p v f'. validate_required_only-Ends fuel s v f' p.0 (omega (arith, p.1))) bs
        (object map) f (g.composes (described d (all_of bs)) h)
  validate_required_only-Ends (suc fuel) (described d _) (object map) f h l = tt
  validate_required_only-Ends (suc fuel) (described d _) _ f h l = tt

  branches-In : (s : Schema) → g.In s → HasBranches spec g.In (schema_kind s)
  branches-In (described d (one_of bs)) h =
      AllBranches-map _ g.In (λ s p. p.0) spec bs (g.composes (described d (one_of bs)) h)
  branches-In (described d (any_of bs)) h =
      AllBranches-map _ g.In (λ s p. p.0) spec bs (g.composes (described d (any_of bs)) h)
  branches-In (described d _) h = tt

  -- With fuel for each of `n` levels of nesting and one more.
  validate_value-EndsBelow :
      (lib : Library) (n fuel : ℕ)
      → suc n * suc g.bound ≤ fuel
      → EndsBelow (validate_value lib fuel spec) g.In n
  validate_value-EndsBelow lib n fuel enough s h v shallow location f =
      let m = mul-le-mul_right (suc g.bound) shallow in
      let r = g.rank-bounded s h in
      let e : n * suc g.bound + suc g.bound ≤ fuel = rw (suc-mul n (suc g.bound)) at enough in
      validate_value-Ends lib spec g fuel s v location f h (omega arith)

  check_body_value-Ends :
      (lib : Library) (fuel : ℕ) (def : RequestBody) (ct : Option Text) (v : Value)
      → Each g.In (media_schema spec def ct)
      → g.bound < fuel
      → suc (depth v) * suc g.bound ≤ fuel
      → Ends (check_body_value spec fuel (validate_value lib fuel spec) def ct v)
  unfolding check_body_value
  check_body_value-Ends lib fuel def ct v h l enough = elim (Bool-cases (is_xml_content_type ct)) [
    | inl x ↦ rw x tt
    | inr x ↦ rw x (
        Ends-Each g.In (media_schema spec def ct) _ _ h tt (λ s p.
          elim (Bool-cases (is_multipart spec ct)) [
            | inl y ↦ rw y (
                let r = g.rank-bounded s p in
                validate_required_only-Ends fuel s v (ascii "body") p (omega arith))
            | inr y ↦ rw y (
                validate_value-EndsBelow lib (depth v) fuel enough s p v (le_refl (depth v)) body
                  (ascii "body"))
          ]))
  ]

  abbrev pub IsMediaIn : MockRequest → Option RequestBody → Type 0
  IsMediaIn req none = Unit {0}
  IsMediaIn req (some def) = Each g.In (media_schema spec def (content_type_of req))

  abbrev pub IsReferredIn : MockRequest → Option (ReferenceOr RequestBody) → Type 0
  IsReferredIn req none = Unit {0}
  IsReferredIn req (some r) = IsMediaIn req (resolve_request_body spec r)

  -- The schema of the body, if it has one, is of the set.
  abbrev pub IsBodyIn : Operation → MockRequest → Type 0
  IsBodyIn op req = IsReferredIn req op.request_body

  validate_body-Ends :
      (lib : Library) (fuel : ℕ) (def : RequestBody) (req : MockRequest)
      → Each g.In (media_schema spec def (content_type_of req))
      → g.bound < fuel
      → suc (depth_of_body req.body) * suc g.bound ≤ fuel
      → Ends (validate_body spec fuel (validate_value lib fuel spec) def req)
  unfolding validate_body
  validate_body-Ends lib fuel def req h l enough = elim (Option-cases req.body) [
    | inl e ↦
        rw (validate_body, e) (elim (Bool-cases def.required) [ inl y ↦ rw y tt | inr n ↦ rw n tt ])
    | inr (v, e) ↦
        let room : suc (depth v) * suc g.bound ≤ fuel = rw e at enough in
        rw (validate_body, e)
          (Ends->>= _ _ (check_body_value-Ends lib fuel def _ v h l room) (λ es. tt))
  ]

  validate_request_body-Ends :
      (lib : Library) (fuel : ℕ) (op : Operation) (req : MockRequest)
      → IsBodyIn op req
      → g.bound < fuel
      → suc (depth_of_body req.body) * suc g.bound ≤ fuel
      → Ends (validate_request_body lib spec fuel (validate_value lib fuel spec) op req)
  unfolding validate_request_body
  validate_request_body-Ends lib fuel op req h l enough = elim (Option-cases op.request_body) [
    | inl e ↦ rw (validate_request_body, e) tt
    | inr (r, e) ↦ elim (Option-cases (resolve_request_body spec r)) [
      | inl f ↦ rw (validate_request_body, e, f) tt
      | inr (def, f) ↦
          rw (validate_request_body, e, f)
            (validate_body-Ends lib fuel def req
              (subst (IsMediaIn req) f (subst (IsReferredIn req) e h)) l enough)
    ]
  ]

  -- The schema that a parameter is checked with, if it has one, is of the set.
  abbrev pub IsParameterIn : Parameter → Type 0
  IsParameterIn (path_parameter d style) = Each g.In (schema_of spec d.format)
  IsParameterIn (query_parameter d style) = Each g.In (schema_of spec d.format)
  IsParameterIn (header_parameter d) = Each g.In (schema_of spec d.format)
  IsParameterIn (cookie_parameter d) = Unit {0}

  validate_parameters-Ends :
      (lib : Library) (rec : Recurse) (params : List (Text × Text)) (req : MockRequest)
      (ps : List Parameter)
      → EndsBelow rec g.In 1
      → All IsParameterIn ps
      → Ends (validate_parameters lib spec rec params req ps)
  unfolding validate_parameters validate_parameter
  validate_parameters-Ends lib rec params req [] ends h = tt
  validate_parameters-Ends lib rec params req (p ∷ ps) ends (h, hs) =
      Ends->>= _ _ (one p h) (λ here.
        Ends->>= _ _ (validate_parameters-Ends lib rec params req ps ends hs) (λ later. tt))
    where
      one : (p : Parameter) → IsParameterIn p → Ends (validate_parameter lib spec rec params req p)
      one (path_parameter d style) h =
          validate_path_param-Ends lib spec rec g.In branches-In ends d params h
      one (query_parameter d style) h =
          validate_query_param-Ends lib spec rec g.In branches-In ends d style req.query h
      one (header_parameter d) h =
          validate_header_param-Ends lib spec rec g.In branches-In ends d req.headers h
      one (cookie_parameter d) h = tt

two-le : (n : ℕ) → 2 ≤ 2 + n
two-le n = omega arith

suc-le-two : (n : ℕ) → suc n ≤ 2 + n
suc-le-two n = omega arith

-- Where the schemas of a document have a bounded rank that falls with each `allOf`, `anyOf`,
-- `oneOf` and `not`, and the schemas of the effective parameters and of the body are among them,
-- validation of a whole request returns or panics within a depth of recursion of (2 + n) × (1 +
-- the bound), where n is the number of levels at which the body nests, 0 without a body.
pub validate-Ends :
    (lib : Library) (spec : Spec) (g : Graded spec) (fuel : ℕ) (template : Option Text)
    (op : Operation) (params : List (Text × Text)) (req : MockRequest)
    → All (IsParameterIn spec g) (effective_parameters spec template op)
    → IsBodyIn spec g op req
    → (2 + depth_of_body req.body) * suc g.bound ≤ fuel
    → Ends (validate lib spec fuel template op params req)
unfolding validate
validate-Ends lib spec g fuel template op params req hp hb enough =
    let two : 2 * suc g.bound ≤ fuel =
      le_trans (mul-le-mul_right (suc g.bound) (two-le (depth_of_body req.body))) enough in
    let room : suc (depth_of_body req.body) * suc g.bound ≤ fuel =
      le_trans (mul-le-mul_right (suc g.bound) (suc-le-two (depth_of_body req.body))) enough in
    elim (Bool-cases (
      is_empty (item_parameters spec template)
      && is_empty op.parameters
      && not (is_some op.request_body))) [
        | inl e ↦ rw e tt
        | inr e ↦ rw e (
            Ends->>= _ _
              (validate_parameters-Ends spec g lib (validate_value lib fuel spec) params req
                (effective_parameters spec template op)
                (validate_value-EndsBelow spec g lib 1 fuel two) hp)
              (λ es.
                Ends->>= _ _
                  (validate_request_body-Ends spec g lib fuel op req hb (omega arith) room)
                  (λ bs. tt)))
      ]
