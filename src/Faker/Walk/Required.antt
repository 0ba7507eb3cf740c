-- ===== src/Faker/Walk/Required.antt =====
-- crates/chasm-faker/src/lib.rs: the required properties of a static object.
use chasm.Text.Laws.{text_eq_iff}
use mathlib.Core.Path.{subst}
use chasm.Engine.Config.{GenerateOptions}
use chasm.Engine.Values.{field, insert_field, has_field, as_str}
use chasm.Prelude.{
  zero, ◌∙◌, if◌then◌else◌, sym, ℕ, suc, ◌+◌, ◌<◌, ◌≡◌, true, false, Option, some, none, List, [],
  ◌∷◌, Bool-cases, Option-cases, inl, inr, All, arith, length, refl, leb,
}
use chasm.Prelude.Maybe.{◌>>=◌, >>=-eq-some}
use chasm.Text.{Text, ascii, text_eq}
use chasm.OpenApi.{Value, Members, object, end}
use chasm.Faker.Static.{
  items_at, first_branch, fixed_value, required_names, declared_properties, type_name,
}
use chasm.Faker.Merge.Fields.{field-insert_field}
use chasm.Validation.Library.{Floats}
use chasm.Faker.Walk.Termination.{strings_in_reach, generate_static-IsDone}
use chasm.Faker.Walk.{
  walk_properties, walk_required, static_object, walk_type, walk_parts, walk_map, walk_static,
  generate_static,
}

has_field-insert_field :
    (m : Members) (k j : Text) (v : Value)
    → has_field m j ≡ true
    → has_field (insert_field m k v) j ≡ true
has_field-insert_field m k j v h =
    rw (field-insert_field m k j v)
      (elim (Bool-cases (text_eq k j)) [ inl y ↦ rw y refl | inr n ↦ rw n h ])

has_field-inserted : (m : Members) (k : Text) (v : Value) → has_field (insert_field m k v) k ≡ true
has_field-inserted m k v = rw (field-insert_field m k k v) (ground (arith, text_eq_iff k k))

-- An object that has every one of the keys.
abbrev pub HasRequired : List Text → Value → Type 0
HasRequired required (object m) = All (λ k. has_field m k ≡ true) required
HasRequired required _ = ⊥

some-injective : {A : Type 0} {a b : A} → some a ≡ some b → a ≡ b
some-injective e = cc

module _ (opts : GenerateOptions) (walk : Value → Option Value) where
  walk_required-has_field :
      (required : List Text) (out made : Members) (j : Text)
      → walk_required opts walk required out ≡ some made
      → has_field out j ≡ true
      → has_field made j ≡ true
  unfolding walk_required
  walk_required-has_field [] out made j e h = subst (λ m. has_field m j ≡ true) (some-injective e) h
  walk_required-has_field (k ∷ required) out made j e h = elim (Bool-cases (has_field out k)) [
    | inl y ↦ walk_required-has_field required out made j (rw y at e) h
    | inr n ↦
        let (v, p, q) = >>=-eq-some (walk (object end)) _ (rw n at e) in
        walk_required-has_field required (insert_field out k v) made j q
          (has_field-insert_field out k j v h)
  ]

  walk_required-required :
      (required : List Text) (out made : Members)
      → walk_required opts walk required out ≡ some made
      → All (λ k. has_field made k ≡ true) required
  unfolding walk_required
  walk_required-required [] out made e = tt
  walk_required-required (k ∷ required) out made e = elim (Bool-cases (has_field out k)) [
    | inl y ↦ (
      walk_required-has_field required out made k (rw y at e) y,
      walk_required-required required out made (rw y at e),
    )
    | inr n ↦
        let (v, p, q) = >>=-eq-some (walk (object end)) _ (rw n at e) in
        (
          walk_required-has_field required (insert_field out k v) made k q
              (has_field-inserted out k v),
          walk_required-required required (insert_field out k v) made q,
        )
  ]

  static_object-HasRequired :
      (map : Members) (v : Value)
      → static_object opts walk map ≡ some v
      → HasRequired (required_names map) v
  unfolding static_object
  static_object-HasRequired map v e =
      let (declared, p, q) =
        >>=-eq-some (walk_properties opts walk (required_names map) (declared_properties map) end) _
          e in
      let (made, r, s) = >>=-eq-some (walk_required opts walk (required_names map) declared) _ q in
      subst (HasRequired (required_names map)) (some-injective s)
        (walk_required-required (required_names map) declared made r)

-- An object schema that nothing else decides: no reference, no value said outright, no
-- composition, no default.
pub record IsPlainObject (opts : GenerateOptions) (map : Members) : Type 0 where
  pub reference : (field map (ascii "$ref") >>= as_str) ≡ none
  pub unfixed : fixed_value opts map ≡ none
  pub parts : items_at map (ascii "allOf") ≡ none
  pub branchless : first_branch map ≡ none
  pub defaultless : (if opts.use_default_value then field map (ascii "default") else none) ≡ none
  pub typed : type_name map ≡ ascii "object"

elim-none :
    {A B : Type 0} (o : Option A) (x : Option B) (k : A → Option B)
    → o ≡ none
    → elim o [ none ↦ x | some a ↦ k a ] ≡ x
elim-none none x k e = refl
elim-none (some a) x k e = absurd (ground arith)

walk_type-object :
    (floats : Floats) (opts : GenerateOptions) (root : Value) (walk : Value → Option Value)
    (map : Members)
    → type_name map ≡ ascii "object"
    → walk_type floats opts root walk map ≡ static_object opts walk map
unfolding walk_type text_eq
walk_type-object floats opts root walk map e = rw e refl

walk_map-object :
    (floats : Floats) (opts : GenerateOptions) (root : Value)
    (walk : Value → List Text → ℕ → Option Value) (map : Members) (visited : List Text) (depth : ℕ)
    → IsPlainObject opts map
    → walk_map floats opts root walk map visited depth
      ≡ static_object opts (λ s. walk s visited (suc depth)) map
unfolding walk_map walk_parts
walk_map-object floats opts root walk map visited depth h =
    let step : Value → Option Value = λ s. walk s visited (suc depth) in
    elim-none (field map (ascii "$ref") >>= as_str) _ _ h.reference
    ∙ (elim-none (fixed_value opts map) _ some h.unfixed
        ∙ (elim-none (items_at map (ascii "allOf")) _ _ h.parts
            ∙ (elim-none (first_branch map) _ step h.branchless
                ∙ (elim-none (if opts.use_default_value then field map (ascii "default") else none)
                      _ some h.defaultless
                    ∙ walk_type-object floats opts root step map h.typed))))

untransformed :
    (o : Option (Value → Value → Value)) (m : Option Value) (schema : Value)
    → o ≡ none
    → (m >>= λ r. some (elim o [ none ↦ r | some transform ↦ transform r schema ])) ≡ m
untransformed none none schema e = refl
untransformed none (some v) schema e = refl
untransformed (some f) m schema e = absurd (ground arith)

generate_static-object :
    (floats : Floats) (fuel : ℕ) (map : Members) (opts : GenerateOptions)
    → IsPlainObject opts map
    → opts.output_transform ≡ none
    → 0 < opts.max_depth
    → generate_static floats (suc fuel) (object map) opts
      ≡ static_object opts (λ s. walk_static floats opts (object map) fuel s [] 1) map
unfolding generate_static walk_static
generate_static-object floats fuel map opts h e l =
    let shallow : leb opts.max_depth 0 ≡ false = ground arith in
    untransformed opts.output_transform _ (object map) e
    ∙ rw shallow (
        walk_map-object floats opts (object map) (walk_static floats opts (object map) fuel) map []
          0 h)

-- For an object schema without reference, value said outright, composition or default, a limit of
-- depth above 0, no output transform, and a depth of recursion as in `generate_static-IsDone`, the
-- static generator gives an object that has every key that `required` names, declared or not.
pub generate_static-HasRequired :
    (floats : Floats) (fuel : ℕ) (map : Members) (opts : GenerateOptions)
    → IsPlainObject opts map
    → opts.output_transform ≡ none
    → 0 < opts.max_depth
    → length (strings_in_reach (object map) opts) + opts.max_depth < fuel
    → (v : Value) × (generate_static floats fuel (object map) opts ≡ some v)
      × HasRequired (required_names map) v
generate_static-HasRequired floats zero map opts h e l enough = absurd (omega arith)
generate_static-HasRequired floats (suc fuel) map opts h e l enough =
    let ends = generate_static-IsDone floats (suc fuel) (object map) opts enough in
    let plain = generate_static-object floats fuel map opts h e l in
    elim (Option-cases (generate_static floats (suc fuel) (object map) opts)) [
      | inl none_made ↦ absurd (rw none_made at ends)
      | inr (v, made) ↦ (v, made, static_object-HasRequired opts _ map v (sym plain ∙ made))
    ]
