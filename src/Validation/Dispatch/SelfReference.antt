-- ===== src/Validation/Dispatch/SelfReference.antt =====
-- crates/chasm-engine/src/validation.rs: a schema that is one of its own parts under `allOf`.
use chasm.Prelude.{ℕ, zero, suc, false, ◌&&◌, ◌≡◌, some, refl}
use chasm.Text.{Text}
use chasm.OpenApi.{Spec, described, SchemaData, SchemaRef, all_of, Branches, branch, Value}
use chasm.Validation.Library.{Library}
use chasm.Validation.Errors.{ValidationLocation}
use chasm.Validation.Checked.{exhausted}
use chasm.Validation.Coercion.{resolve_boxed_schema}
use chasm.Validation.Values.{check_all_of, validate_allof_branch}
use chasm.Validation.Dispatch.{is_null, validate_value, validate_kind}

-- A schema whose `allOf` begins with a reference to itself is never done with: for every value but
-- a null that the schema allows, no depth of recursion is enough.
pub validate_value-self_reference :
    (lib : Library) (spec : Spec) (fuel : ℕ) (d : SchemaData) (r : SchemaRef) (bs : Branches)
    (v : Value) (location : ValidationLocation) (f : Text)
    → resolve_boxed_schema spec r ≡ some (described d (all_of (branch r bs)))
    → (is_null v && d.nullable) ≡ false
    → validate_value lib fuel spec (described d (all_of (branch r bs))) v location f ≡ exhausted
unfolding validate_value validate_kind check_all_of validate_allof_branch
validate_value-self_reference lib spec zero d r bs v location f e n = refl
validate_value-self_reference lib spec (suc fuel) d r bs v location f e n =
    rw (n, check_all_of, e, validate_value-self_reference lib spec fuel d r bs v location f e n)
      refl
