-- ===== src/Faker/Walk/Termination.antt =====
-- crates/chasm-faker/src/lib.rs: how deep `walk_static` goes.
use chasm.Faker.Walk.Within.{
  Within-first_branch, Within-as_str, Within-resolve_static, Within-merge_all_of,
}
use chasm.Faker.Strings.{
  Includes-left, Includes-right, Within-strings, Includes, Given->>=, Within, WithinItems,
  WithinMembers, Within-field, strings,
}
use chasm.Engine.Config.{GenerateOptions}
use chasm.Engine.Values.{field, as_str}
use chasm.Prelude.{
  leb, if◌then◌else◌, sym, ℕ, zero, suc, ◌+◌, ◌-◌, ◌<◌, ◌≤◌, ◌≡◌, ◌++◌, ◌||◌, true, false, Option,
  some, none, List, [], ◌∷◌, Bool-cases, inl, inr, All, arith, length,
}
use chasm.Prelude.Maybe.{◌>>=◌}
use mathlib.Core.Path.{subst}
use chasm.Text.{Text, ascii, text_eq}
use chasm.Text.Laws.{text_eq_iff}
use chasm.OpenApi.{Value, Members, null, bool, number, string, array, object}
use chasm.Faker.Static.{type_name, zero_number, static_string, fixed_value, items_at, first_branch}
use chasm.Faker.RefResolver.{any_text}
use chasm.Validation.Library.{Floats}
use chasm.Faker.Walk.Ending.{
  IsDone-option, IsDone, IsDone->>=, Within-items_at, static_array-IsDone, static_object-IsDone,
}
use chasm.Faker.Walk.{
  walk_map, static_object, static_array, resolve_static, merge_all_of, walk_type, walk_parts,
  walk_static, generate_static,
}

-- How many of the names are no reference that is being walked.
abbrev pub fresh : List Text → List Text → ℕ
fresh [] visited = 0
fresh (n ∷ names) visited = (if any_text (text_eq n) visited then 0 else 1) + fresh names visited

fresh-cons_le :
    (names : List Text) (r : Text) (visited : List Text)
    → fresh names (r ∷ visited) ≤ fresh names visited
fresh-cons_le [] r visited = omega arith
fresh-cons_le (n ∷ names) r visited = ground (arith, fresh-cons_le names r visited)

fresh-cons_lt :
    (names : List Text) (r : Text) (visited : List Text)
    → any_text (text_eq r) names ≡ true
    → any_text (text_eq r) visited ≡ false
    → fresh names (r ∷ visited) < fresh names visited
fresh-cons_lt [] r visited h k = absurd (ground arith)
fresh-cons_lt (n ∷ names) r visited h k = elim (Bool-cases (text_eq r n)) [
  | inl y ↦
      let same : r ≡ n = (text_eq_iff r n).0 y in
      let new : any_text (text_eq n) visited ≡ false =
        subst (λ t. any_text (text_eq t) visited ≡ false) same k in
      let self : text_eq n r ≡ true = (text_eq_iff n r).1 (sym same) in
      let rest = fresh-cons_le names r visited in rw (new, self) (omega (arith, rest))
  | inr z ↦ let rest = fresh-cons_lt names r visited (rw z at h) k in ground (arith, rest)
]

fresh-nil : (names : List Text) → fresh names [] ≤ length names
fresh-nil [] = omega arith
fresh-nil (n ∷ names) = omega (arith, fresh-nil names)

module _ (names : List Text) (floats : Floats) (opts : GenerateOptions) (root : Value)
    (within : Within names root) (external : All (λ e. Within names e.1) opts.external_refs) where
  module _ (walk : Value → Option Value)
      (ends : (s : Value) → Within names s → IsDone (walk s)) where
    walk_type-IsDone :
        (map : Members) → WithinMembers names map → IsDone (walk_type floats opts root walk map)
    unfolding walk_type
    walk_type-IsDone map h =
        let a = static_array-IsDone names opts walk ends map h in
        let o = static_object-IsDone names opts walk ends map h in by_name (type_name map) a o
      where
        by_name :
            (t : Text)
            → IsDone (static_array opts walk map)
            → IsDone (static_object opts walk map)
            → IsDone (
                if text_eq t (ascii "string")
                then some (static_string map)
                else if text_eq t (ascii "number") || text_eq t (ascii "integer")
                then some zero_number
                else if text_eq t (ascii "boolean")
                then some (bool false)
                else if text_eq t (ascii "array")
                then static_array opts walk map
                else if text_eq t (ascii "object")
                then static_object opts walk map
                else some null)
        by_name t a o = ground arith

    walk_parts-IsDone :
        (map : Members) → WithinMembers names map → IsDone (walk_parts floats opts root walk map)
    unfolding walk_parts
    walk_parts-IsDone map h =
        IsDone-option (WithinItems names) (items_at map (ascii "allOf")) _ _
          (Within-items_at names map (ascii "allOf") h)
          (IsDone-option (Within names) (first_branch map) _ _ (Within-first_branch names map h)
            (defaulted (if opts.use_default_value then field map (ascii "default") else none)) ends)
          (λ subs k.
            ends (merge_all_of floats opts root map subs)
              (Within-merge_all_of names floats opts root within external map subs h k))
      where
        defaulted :
            (o : Option Value)
            → IsDone (elim o [ some v ↦ some v | none ↦ walk_type floats opts root walk map ])
        defaulted (some v) = tt
        defaulted none = walk_type-IsDone map h

  fixed :
      (o : Option Value) (x : Option Value)
      → IsDone x
      → IsDone (elim o [ some v ↦ some v | none ↦ x ])
  fixed none x d = d
  fixed (some v) x d = tt

  walk_map-IsDone :
      (walk : Value → List Text → ℕ → Option Value) (map : Members) (visited : List Text)
      (depth : ℕ)
      → WithinMembers names map
      → ((s : Value) → Within names s → IsDone (walk s visited (suc depth)))
      → ((r : Text)
          → any_text (text_eq r) names ≡ true
          → any_text (text_eq r) visited ≡ false
          → (s : Value) → Within names s
          → IsDone (walk s (r ∷ visited) depth))
      → IsDone (walk_map floats opts root walk map visited depth)
  unfolding walk_map
  walk_map-IsDone walk map visited depth h below behind =
      IsDone-option (λ r. any_text (text_eq r) names ≡ true) (field map (ascii "$ref") >>= as_str) _
        _
        (Given->>= (Within names) (λ r. any_text (text_eq r) names ≡ true)
          (field map (ascii "$ref")) as_str (Within-field names map (ascii "$ref") h)
          (Within-as_str names floats opts root within external))
        (fixed (fixed_value opts map) _
          (walk_parts-IsDone (λ s. walk s visited (suc depth)) below map h))
        (λ r named. elim (Bool-cases (any_text (text_eq r) visited)) [
          | inl y ↦ rw y tt
          | inr n ↦ rw n (
              IsDone-option (Within names) (resolve_static floats opts root r) _ _
                (Within-resolve_static names floats opts root within external r) tt
                (behind r named n))
        ])

  pub walk_static-IsDone :
      (fuel : ℕ) (schema : Value) (visited : List Text) (depth : ℕ)
      → Within names schema
      → fresh names visited + (opts.max_depth - depth) < fuel
      → IsDone (walk_static floats opts root fuel schema visited depth)
  unfolding walk_static Within
  walk_static-IsDone zero schema visited depth h l = absurd (omega arith)
  walk_static-IsDone (suc fuel) (object map) visited depth h l =
      elim (Bool-cases (leb opts.max_depth depth)) [
        | inl y ↦ rw y tt
        | inr n ↦
            let under : depth < opts.max_depth = ground arith in
            rw n (
              walk_map-IsDone (walk_static floats opts root fuel) map visited depth h
                (λ s p. walk_static-IsDone fuel s visited (suc depth) p (omega arith))
                (λ r named unvisited s p.
                  let fewer = fresh-cons_lt names r visited named unvisited in
                  walk_static-IsDone fuel s (r ∷ visited) depth p (omega (arith, fewer))))
      ]
  walk_static-IsDone (suc fuel) (null) visited depth h l = ground arith
  walk_static-IsDone (suc fuel) (bool b) visited depth h l = ground arith
  walk_static-IsDone (suc fuel) (number n) visited depth h l = ground arith
  walk_static-IsDone (suc fuel) (string s) visited depth h l = ground arith
  walk_static-IsDone (suc fuel) (array vs) visited depth h l = ground arith

abbrev pub strings_of_external : List (Text × Value) → List Text
strings_of_external [] = []
strings_of_external ((k, v) ∷ map) = strings v ++ strings_of_external map

Within-external :
    (names : List Text) (map : List (Text × Value))
    → Includes (strings_of_external map) names
    → All (λ e. Within names e.1) map
Within-external names [] h = tt
Within-external names ((k, v) ∷ map) h = (
  Within-strings names v (Includes-left (strings v) (strings_of_external map) names h),
  Within-external names map (Includes-right (strings v) (strings_of_external map) names h),
)

-- The strings of the schema and of the schemas that it may refer to.
abbrev pub strings_in_reach : Value → GenerateOptions → List Text
strings_in_reach schema opts = strings schema ++ strings_of_external opts.external_refs

-- The static generator gives a value for every schema, however its references point back at one
-- another: a depth of recursion of one more than the limit of depth and the number of strings in
-- the schema and in the external schemas is enough.
pub generate_static-IsDone :
    (floats : Floats) (fuel : ℕ) (schema : Value) (opts : GenerateOptions)
    → length (strings_in_reach schema opts) + opts.max_depth < fuel
    → IsDone (generate_static floats fuel schema opts)
unfolding generate_static
generate_static-IsDone floats fuel schema opts l =
    let names = strings_in_reach schema opts in
    let own =
      Within-strings names schema (
        Includes-left (strings schema) (strings_of_external opts.external_refs) names (λ t e. e)) in
    let others =
      Within-external names opts.external_refs (
        Includes-right (strings schema) (strings_of_external opts.external_refs) names
          (λ t e. e)) in
    let few = fresh-nil names in
    IsDone->>= _ _
      (walk_static-IsDone names floats opts schema own others fuel schema [] 0 own
        (omega (arith, few)))
      (λ v. tt)
