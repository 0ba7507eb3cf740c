-- ===== src/Validation/Dispatch/Ending.antt =====
-- crates/chasm-engine/src/validation.rs: how deep `validate_value` goes.
use chasm.Prelude.Int.{pos, eq_ℤ, ℤ}
use native.Mathlib.Nat.{suc-mul, le_refl, mul-le-mul_right}
use chasm.Validation.Coercion.{resolve_boxed_schema, resolve_slot}
use chasm.Validation.Values.Ending.{
  check_items-Ends, check_additional-Ends, check_properties-Ends, check_not-Ends, check_all_of-Ends,
  any_branch-Ends, Ends->>=, check_one_of-Ends, EndsBelow, AllExtra, Each, AllBranches,
  AllProperties, Ends-Each,
}
use chasm.Validation.Library.{Library}
use chasm.Prelude.{
  ℕ, zero, suc, Bool, true, not, ◌&&◌, Option, some, none, List, ap, inl, inr, Bool-cases,
  Option-cases, arith, ◌≤◌, ◌<◌, ◌+◌, ◌*◌,
}
use chasm.OpenApi.{
  schema_kind, slot, AdditionalProperties, SchemaSlot, Properties, AnyData, IntegerType, Spec,
  Schema, described, SchemaData, SchemaKind, string_type, integer_type, number_type, boolean_type,
  object_type, array_type, one_of, any_of, all_of, not_schema, any_schema, Value, bool, number,
  string, array, object,
}
use chasm.Validation.Checked.{Ends}
use chasm.Validation.Values.{Recurse}
use chasm.Validation.Values.Depth.{depth, depth_items, depth_members}
use chasm.Text.{Text}
use chasm.Validation.Errors.{ValidationLocation}
use chasm.Validation.Scalars.{rem_overflows, is_allowed, fits_i32, check_multiple, validate_integer}
use chasm.Validation.Dispatch.{
  has_type, any_members, validate_array, validate_object, validate_any_schema, is_null,
  validate_value, validate_kind,
}
use chasm.Engine.Values.{as_i64}

-- The schemas that look at the value itself again, through `allOf`, `anyOf`, `oneOf` and `not`.
abbrev pub Composes : Spec → (Schema → Type 0) → SchemaKind → Type 0
Composes spec P (one_of bs) = AllBranches spec P bs
Composes spec P (any_of bs) = AllBranches spec P bs
Composes spec P (all_of bs) = AllBranches spec P bs
Composes spec P (not_schema r) = Each P (resolve_boxed_schema spec r)
Composes spec P (any_schema a ps n) = Each P (resolve_slot spec n)
Composes spec P _ = Unit {0}

-- The schemas that look at a part of the value.
abbrev pub Descends : Spec → (Schema → Type 0) → SchemaKind → Type 0
Descends spec P (object_type ps required ap) = AllProperties spec P ps × AllExtra spec P ap
Descends spec P (array_type items lo hi unique) = Each P (resolve_slot spec items)
Descends spec P (any_schema a ps n) = AllProperties spec P ps
Descends spec P _ = Unit {0}

-- A set of schemas that is closed under the schemas inside, with a rank that falls with each
-- composition: no schema of the set is composed of itself. It may describe its own parts.
pub record Graded (spec : Spec) : Type 1 where
  pub In : Schema → Type 0
  pub rank : Schema → ℕ
  pub bound : ℕ
  pub rank-bounded : (s : Schema) → In s → rank s ≤ bound
  pub composes : (s : Schema) → In s → Composes spec (λ t. In t × rank t < rank s) (schema_kind s)
  pub descends : (s : Schema) → In s → Descends spec In (schema_kind s)

check_multiple-Ends :
    (location : ValidationLocation) (f : Text) (m : Option ℤ) (n : ℤ)
    → Ends (check_multiple location f m n)
unfolding check_multiple
check_multiple-Ends location f none n = tt
check_multiple-Ends location f (some m) n = elim (Bool-cases (eq_ℤ m (pos 0))) [
  | inl e ↦ rw e tt
  | inr e ↦ rw e (elim (Bool-cases (rem_overflows n m)) [ inl q ↦ rw q tt | inr q ↦ rw q tt ])
]

validate_integer-Ends :
    (location : ValidationLocation) (f : Text) (it : IntegerType) (n : ℤ)
    → Ends (validate_integer location f it n)
unfolding validate_integer
validate_integer-Ends location f it n = elim (Bool-cases (it.is_int32 && not (fits_i32 n))) [
  | inl e ↦ rw e tt
  | inr e ↦ rw e (elim (Bool-cases (not (is_allowed (eq_ℤ n) it.enumeration))) [
    | inl q ↦ rw q tt
    | inr q ↦ rw q (Ends->>= _ _ (check_multiple-Ends location f it.multiple_of n) (λ es. tt))
  ])
]

module _ (lib : Library) (spec : Spec) (rec : Recurse) (location : ValidationLocation)
    (f : Text) where
  validate_object-Ends :
      (P : Schema → Type 0) (ps : Properties) (required : List Text) (ap : AdditionalProperties)
      (v : Value)
      → AllProperties spec P ps
      → AllExtra spec P ap
      → ((n : ℕ) → n < depth v → EndsBelow rec P n)
      → Ends (validate_object lib spec rec location f ps required ap v)
  unfolding validate_object depth
  validate_object-Ends P ps required ap (object map) hp ha part =
      let ends = part (depth_members map) (le_refl _) in
      Ends->>= _ _ (check_properties-Ends spec rec P _ ends location f map ps hp (le_refl _)) (λ es.
        Ends->>= _ _ (check_additional-Ends spec rec P _ ends location f ps ap map ha (le_refl _))
          (λ xs. tt))
  validate_object-Ends P ps required ap _ hp ha part = tt

  validate_array-Ends :
      (P : Schema → Type 0) (items : SchemaSlot) (lo hi : Option ℕ) (unique : Bool) (v : Value)
      → Each P (resolve_slot spec items)
      → ((n : ℕ) → n < depth v → EndsBelow rec P n)
      → Ends (validate_array lib spec rec location f items lo hi unique v)
  unfolding validate_array depth
  validate_array-Ends P items lo hi unique (array vs) h part =
      let ends = part (depth_items vs) (le_refl _) in
      Ends->>= _ _
        (Ends-Each P (resolve_slot spec items) _ _ h tt
          (λ s p. check_items-Ends spec rec P _ ends location f s 0 vs p (le_refl _)))
        (λ es. tt)
  validate_array-Ends P items lo hi unique _ h part = tt

  any_members-Ends :
      (P : Schema → Type 0) (a : AnyData) (ps : Properties) (v : Value)
      → AllProperties spec P ps
      → ((n : ℕ) → n < depth v → EndsBelow rec P n)
      → Ends (any_members lib spec rec location f a ps v)
  unfolding depth
  any_members-Ends P a ps (object map) h part =
      Ends->>= _ _
        (check_properties-Ends spec rec P _ (part (depth_members map) (le_refl _)) location f map ps
          h (le_refl _))
        (λ es. tt)
  any_members-Ends P a ps _ h part = tt

module _ (lib : Library) (spec : Spec) (rec : Recurse) (location : ValidationLocation) (f : Text)
    (Same Part : Schema → Type 0) where
  -- One call ends where the calls on the same value and the calls on its parts end.
  validate_kind-Ends :
      (d : SchemaData) (k : SchemaKind) (v : Value)
      → Composes spec Same k
      → Descends spec Part k
      → EndsBelow rec Same (depth v)
      → ((n : ℕ) → n < depth v → EndsBelow rec Part n)
      → Ends (validate_kind lib spec rec location f d k v)
  unfolding validate_kind validate_any_schema
  validate_kind-Ends d (string_type st) (string s) c p same part = tt
  validate_kind-Ends d (string_type st) _ c p same part = tt
  validate_kind-Ends d (number_type nt) (number n) c p same part = tt
  validate_kind-Ends d (number_type nt) _ c p same part = tt
  validate_kind-Ends d (boolean_type e) (bool n) c p same part = tt
  validate_kind-Ends d (boolean_type e) _ c p same part = tt
  validate_kind-Ends d (integer_type it) v c p same part = elim (Option-cases (as_i64 v)) [
    | inl e ↦ rw (e, validate_kind) tt
    | inr (n, e) ↦ rw (e, validate_kind) (validate_integer-Ends location f it n)
  ]
  validate_kind-Ends d (object_type ps required ap) v c p same part =
      validate_object-Ends lib spec rec location f Part ps required ap v p.0 p.1 part
  validate_kind-Ends d (array_type items lo hi unique) v c p same part =
      validate_array-Ends lib spec rec location f Part items lo hi unique v p part
  validate_kind-Ends d (one_of bs) v c p same part =
      check_one_of-Ends spec rec Same (depth v) same bs d.discriminator v location f c (le_refl _)
  validate_kind-Ends d (any_of bs) v c p same part =
      Ends->>= _ _ (any_branch-Ends spec rec Same (depth v) same bs v c (le_refl _)) (λ matched. tt)
  validate_kind-Ends d (all_of bs) v c p same part =
      check_all_of-Ends spec rec Same (depth v) same v location f _ bs c (le_refl _)
  validate_kind-Ends d (not_schema r) v c p same part =
      check_not-Ends spec rec Same (depth v) same v location f (slot r) c (le_refl _)
  validate_kind-Ends d (any_schema a ps n) v c p same part =
      elim (Bool-cases (elim a.typ [ none ↦ true | some typ ↦ has_type typ v ])) [
        | inl e ↦ rw e (
            Ends->>= _ _ (check_not-Ends spec rec Same (depth v) same v location f n c (le_refl _))
              (λ es.
                Ends->>= _ _ (any_members-Ends lib spec rec location f Part a ps v p part)
                  (λ ms. tt)))
        | inr e ↦ rw e tt
      ]

-- Where the schemas of a document have a rank, bounded, that falls with each `allOf`, `anyOf`,
-- `oneOf` and `not`, validation of a value returns or panics within a depth of recursion of one
-- more than the rank of the schema and, for each level at which the value nests, one more than the
-- bound; the schemas may refer to themselves through properties and items.
pub validate_value-Ends :
    (lib : Library) (spec : Spec) (g : Graded spec) (fuel : ℕ) (s : Schema) (v : Value)
    (location : ValidationLocation) (f : Text)
    → g.In s
    → depth v * suc g.bound + g.rank s < fuel
    → Ends (validate_value lib fuel spec s v location f)
unfolding validate_value
validate_value-Ends lib spec g zero s v location f h less = absurd (omega arith)
validate_value-Ends lib spec g (suc fuel) (described d k) v location f h less =
    elim (Bool-cases (is_null v && d.nullable)) [
      | inl e ↦ rw e tt
      | inr e ↦ rw e (
          validate_kind-Ends lib spec (validate_value lib fuel spec) location f
            (λ t. g.In t × g.rank t < g.rank (described d k)) g.In d k v
            (g.composes (described d k) h) (g.descends (described d k) h)
            (λ s p w dw l f'.
              validate_value-Ends lib spec g fuel s w l f' p.0
                (let m = mul-le-mul_right (suc g.bound) dw in omega arith))
            (λ n lt s p w dw l f'. validate_value-Ends lib spec g fuel s w l f' p (
              let deeper : suc (depth w) ≤ depth v = omega arith in
              let m : suc (depth w) * suc g.bound ≤ depth v * suc g.bound =
                mul-le-mul_right (suc g.bound) deeper in
              let m' : depth w * suc g.bound + suc g.bound ≤ depth v * suc g.bound =
                rw (suc-mul (depth w) (suc g.bound)) at m in
              let r = g.rank-bounded s p in omega arith)))
    ]
