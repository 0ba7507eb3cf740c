-- ===== src/Loader/Load/Exact.antt =====
-- crates/chasm-engine/src/loader.rs: the cases in which `load_spec` gives a specification.
use chasm.Prelude.{ℕ, ◌≡◌, ◌↔◌, Option, some, none, List, [], ◌∷◌, All, refl, or, false}
use mathlib.Core.Path.{ap, ◌∙◌, subst, sym}
use chasm.Prelude.Result.{Result, ok, err, ◌>>=◌}
use chasm.Text.{Text}
use chasm.OpenApi.{Spec}
use chasm.Loader.Yaml.{Yaml}
use chasm.Loader.Schemas.{Visit, visit_schemas, validate_schema_type}
use chasm.Loader.Semantics.{
  SpecError, is_dangling, walk_for_refs, first_dangling, check_dangling_refs,
  check_duplicate_operation_ids, check_invalid_schema_types, first_invalid_schema,
  validate_spec_semantics,
}
use chasm.Loader.Semantics.Distinct.{ids_of_paths, AreDistinct}
use chasm.Loader.Semantics.Passing.{ok-check_paths, AreNew-start}
use chasm.Loader.Normalize.{Loading}
use chasm.Loader.Places.{Refers, IsNotDangling, OfDocument, HasKnownTypes}
use chasm.Loader.Places.References.{Refers-iff}
use chasm.Loader.Places.Visits.{visit_schemas_iff}
use chasm.Loader.Places.Types.{validate_schema_type_iff}
use chasm.Loader.Places.Dangling.{is_dangling_iff}
use chasm.Loader.Places.Identifiers.{operation_identifiers, ids_of_paths-eq-operation_identifiers}
use chasm.Loader.Load.{load_spec, finish_load, accept_content, normalize_oas31_nullable}
use chasm.Loader.Load.Sound.{IsChecked, IsReadFrom, finish_load-IsReadFrom}

first_dangling-none :
    (root : Yaml) (refs : List Text)
    → All (λ r. is_dangling root r ≡ false) refs
    → first_dangling root refs ≡ none
first_dangling-none root [] h = refl
first_dangling-none root (r ∷ refs) (e, h) =
    rw (first_dangling, e) (first_dangling-none root refs h)

first_invalid_schema-none :
    (visits : List Visit)
    → All (λ v. validate_schema_type v.0 v.1 ≡ none) visits
    → first_invalid_schema visits ≡ none
first_invalid_schema-none [] h = refl
first_invalid_schema-none ((pointer, schema) ∷ visits) (e, h) =
    ap (λ o. or o (first_invalid_schema visits)) e ∙ first_invalid_schema-none visits h

ok-validate_spec_semantics :
    (spec : Spec) (raw : Yaml) → IsChecked spec raw → validate_spec_semantics spec raw ≡ ok tt
unfolding validate_spec_semantics check_dangling_refs check_duplicate_operation_ids
    check_invalid_schema_types
ok-validate_spec_semantics spec raw (distinct, refs, schemas) =
    let (seen, passes) =
      ok-check_paths spec.paths [] (AreNew-start (ids_of_paths spec.paths) distinct) in
    rw
      (
        first_dangling-none raw (walk_for_refs raw) refs,
        passes,
        first_invalid_schema-none (visit_schemas raw) schemas,
      )
      refl

All-convert {ℓ} :
    {A : Type ℓ} (P Q : A → Type 0) (xs : List A) → ((x : A) → P x → Q x) → All P xs → All Q xs
All-convert P Q [] f h = tt
All-convert P Q (x ∷ xs) f h = (f x h.0, All-convert P Q xs f h.1)

-- No operation identifier stands twice under the methods of the paths, no reference of the tree
-- dangles, and the schemas of the components and of the operations have known types.
abbrev pub IsSound : Spec → Yaml → Type 0
IsSound spec raw =
    AreDistinct (operation_identifiers spec.paths)
    × ((t : Text) → Refers t raw → IsNotDangling raw t)
    × OfDocument HasKnownTypes raw

IsChecked-iff : (spec : Spec) (raw : Yaml) → IsChecked spec raw ↔ IsSound spec raw
IsChecked-iff spec raw = (to, from)
  where
    same : ids_of_paths spec.paths ≡ operation_identifiers spec.paths
    same = ids_of_paths-eq-operation_identifiers spec.paths

    to : IsChecked spec raw → IsSound spec raw
    to (ids, refs, visits) = (
      subst AreDistinct same ids,
      λ t r.
          (is_dangling_iff raw t).0 ((Refers-iff (λ t. is_dangling raw t ≡ false) raw).0 refs t r),
      (visit_schemas_iff HasKnownTypes raw).0 (
          All-convert _ _ (visit_schemas raw) (λ v h. (validate_schema_type_iff v.0 v.1).0 h)
            visits),
    )

    from : IsSound spec raw → IsChecked spec raw
    from (ids, refs, schemas) = (
      subst AreDistinct (sym same) ids,
      (Refers-iff (λ t. is_dangling raw t ≡ false) raw).1
          (λ t r. (is_dangling_iff raw t).1 (refs t r)),
      All-convert _ _ (visit_schemas raw) (λ v h. (validate_schema_type_iff v.0 v.1).1 h)
          ((visit_schemas_iff HasKnownTypes raw).1 schemas),
    )

finished :
    (env : Loading Spec) (o : Option (Result SpecError Text)) (spec : Spec)
    → elim o [ none ↦ none | some normalised ↦ some (normalised >>= finish_load env) ]
      ≡ some (ok spec)
    → (normalised : Text) × (o ≡ some (ok normalised)) × (finish_load env normalised ≡ ok spec)
finished env none spec e = absurd (cc e)
finished env (some (err x)) spec e = absurd (cc e)
finished env (some (ok normalised)) spec e = (normalised, refl, cc)

accepted :
    (r : Result SpecError Text) (step : Text → Option (Result SpecError Spec)) (spec : Spec)
    → elim r [ err e ↦ some (err e) | ok content ↦ step content ] ≡ some (ok spec)
    → (content : Text) × (r ≡ ok content) × (step content ≡ some (ok spec))
accepted (err x) step spec e = absurd (cc e)
accepted (ok content) step spec e = (content, refl, e)

module _ (env : Loading Spec) (fuel : ℕ) (src : Text) (spec : Spec) where
  -- The content is accepted and normalised, and the specification is read from what it becomes.
  abbrev pub IsLoadable : Type 0
  IsLoadable =
      (content : Text) × (normalised : Text) × (raw : Yaml) × (accept_content env src ≡ ok content)
      × (normalize_oas31_nullable env fuel content ≡ some (ok normalised))
      × (env.parse_spec normalised ≡ some spec)
      × (env.parse_yaml normalised ≡ some raw)
      × IsSound spec raw

  ok-finish_load :
      (normalised : Text) (raw : Yaml)
      → IsReadFrom env normalised spec raw
      → finish_load env normalised ≡ ok spec
  unfolding finish_load
  ok-finish_load normalised raw (p, q, h) = rw (p, q, ok-validate_spec_semantics spec raw h) refl

  -- `load_spec` gives a specification exactly when the content is read and its version accepted,
  -- the passes end within the fuel and give a text, the specification and a tree are parsed from
  -- that text, no operation identifier stands twice under the eight methods of the path items,
  -- every text under a `$ref` anywhere in the tree that points to a component of a known kind
  -- names one that is there, and every schema has only known types that is among the components,
  -- or in the parameters, the request body, the responses or their headers of an operation, or
  -- stands within such a one and not below a `$ref`.
  pub load_spec_iff : (load_spec env fuel src ≡ some (ok spec)) ↔ IsLoadable
  unfolding load_spec
  load_spec_iff = (forth, back)
    where
      forth : load_spec env fuel src ≡ some (ok spec) → IsLoadable
      forth e =
          let (content, a, p) = accepted (accept_content env src) _ spec e in
          let (normalised, b, q) =
            finished env (normalize_oas31_nullable env fuel content) spec p in
          let (raw, (s, t, h)) = finish_load-IsReadFrom env normalised spec q in
          (content, normalised, raw, a, b, s, t, (IsChecked-iff spec raw).0 h)

      back : IsLoadable → load_spec env fuel src ≡ some (ok spec)
      back (content, normalised, raw, a, b, s, t, h) =
          rw (load_spec, a, b, ok-finish_load normalised raw (s, t, (IsChecked-iff spec raw).1 h))
            refl
