-- ===== src/Loader/Load/Sound.antt =====
-- crates/chasm-engine/src/loader.rs: what the checks of `load_spec` ask of a document.
use chasm.Prelude.{
  or, ◌≡◌, false, Option, some, none, List, [], ◌∷◌, All, Bool-cases, inl, inr, refl, ◌∙◌,
}
use mathlib.Core.Path.{subst, ap}
use chasm.Prelude.Result.{ok, >>=-eq-ok}
use chasm.Text.{Text}
use chasm.OpenApi.{Spec}
use chasm.Loader.Yaml.{Yaml}
use chasm.Loader.Schemas.{Visit, visit_schemas, validate_schema_type}
use chasm.Loader.Semantics.{
  SpecError, parse, is_dangling, walk_for_refs, first_dangling, check_paths, check_dangling_refs,
  check_duplicate_operation_ids, refuse_kept, check_invalid_schema_types, first_invalid_schema,
  validate_spec_semantics,
}
use chasm.Loader.Semantics.Distinct.{ids_of_paths, AreDistinct, AreNew-check_paths}
use chasm.Loader.Normalize.{Loading}
use chasm.Loader.Load.{or_error, finish_load}

All-first_dangling :
    (root : Yaml) (refs : List Text)
    → first_dangling root refs ≡ none
    → All (λ r. is_dangling root r ≡ false) refs
All-first_dangling root [] e = tt
All-first_dangling root (r ∷ refs) e = elim (Bool-cases (is_dangling root r)) [
  | inl y ↦ absurd (cc (rw y at e))
  | inr n ↦ (n, All-first_dangling root refs (rw n at e))
]

or-none : (o p : Option Text) → or o p ≡ none → (o ≡ none) × (p ≡ none)
or-none none p e = (refl, e)
or-none (some t) p e = absurd (cc e)

nothing_kept : (message : Text → Text) (o : Option Text) → refuse_kept message o ≡ ok tt → o ≡ none
nothing_kept message none e = refl
nothing_kept message (some t) e = absurd (cc e)

All-first_invalid_schema :
    (visits : List Visit)
    → first_invalid_schema visits ≡ none
    → All (λ v. validate_schema_type v.0 v.1 ≡ none) visits
All-first_invalid_schema [] e = tt
All-first_invalid_schema ((pointer, schema) ∷ visits) e =
    let (here, later) = or-none (validate_schema_type pointer schema) _ e in
    (here, All-first_invalid_schema visits later)

-- No operation identifier twice, no dangling reference to a component, no schema of unknown type.
abbrev pub IsChecked : Spec → Yaml → Type 0
IsChecked spec raw =
    AreDistinct (ids_of_paths spec.paths)
    × All (λ r. is_dangling raw r ≡ false) (walk_for_refs raw)
    × All (λ v. validate_schema_type v.0 v.1 ≡ none) (visit_schemas raw)

resolved_refs :
    (raw : Yaml)
    → check_dangling_refs raw ≡ ok tt
    → All (λ r. is_dangling raw r ≡ false) (walk_for_refs raw)
unfolding check_dangling_refs
resolved_refs raw e = All-first_dangling raw (walk_for_refs raw) (nothing_kept _ _ e)

valid_schemas :
    (raw : Yaml)
    → check_invalid_schema_types raw ≡ ok tt
    → All (λ v. validate_schema_type v.0 v.1 ≡ none) (visit_schemas raw)
unfolding check_invalid_schema_types
valid_schemas raw e = All-first_invalid_schema (visit_schemas raw) (nothing_kept _ _ e)

validate_spec_semantics-IsChecked :
    (spec : Spec) (raw : Yaml) → validate_spec_semantics spec raw ≡ ok tt → IsChecked spec raw
unfolding validate_spec_semantics check_duplicate_operation_ids
validate_spec_semantics-IsChecked spec raw e =
    let (refs, p, q) = >>=-eq-ok (check_dangling_refs raw) _ e in
    let (ids, r, s) = >>=-eq-ok (check_duplicate_operation_ids spec) _ q in
    let (seen, t, u) = >>=-eq-ok (check_paths spec.paths []) _ r in
    ((AreNew-check_paths spec.paths [] seen t).1, resolved_refs raw p, valid_schemas raw s)

or_error-ok : {A : Type 0} (e : SpecError) (o : Option A) (a : A) → or_error e o ≡ ok a → o ≡ some a
or_error-ok e none a h = absurd (cc h)
or_error-ok e (some b) a h = let same : b ≡ a = cc in ap some same

module _ (env : Loading Spec) where
  -- The text that was read gave both the specification and the tree that was checked.
  abbrev pub IsReadFrom : Text → Spec → Yaml → Type 0
  IsReadFrom normalised spec raw =
      (env.parse_spec normalised ≡ some spec)
      × (env.parse_yaml normalised ≡ some raw)
      × IsChecked spec raw

  pub finish_load-IsReadFrom :
      (normalised : Text) (spec : Spec)
      → finish_load env normalised ≡ ok spec
      → (raw : Yaml) × IsReadFrom normalised spec raw
  unfolding finish_load
  finish_load-IsReadFrom normalised spec e =
      let (spec', p, q) =
        >>=-eq-ok (or_error (parse (env.spec_error normalised)) (env.parse_spec normalised)) _ e in
      let (raw, r, s) =
        >>=-eq-ok (or_error (parse (env.yaml_error normalised)) (env.parse_yaml normalised)) _ q in
      let (checked, t, u) = >>=-eq-ok (validate_spec_semantics spec' raw) _ s in
      let same : spec' ≡ spec = cc in
      (
        raw,
        (
          (or_error-ok _ (env.parse_spec normalised) spec' p ∙ ap some same),
          or_error-ok _ (env.parse_yaml normalised) raw r,
          subst (λ s. IsChecked s raw) same (validate_spec_semantics-IsChecked spec' raw t),
        ),
      )
