-- ===== src/Validation/Values/Ending.antt =====
-- The loops of `validate_value` end where their recursive calls end.
use native.Mathlib.Nat.{le_trans}
use chasm.Validation.Values.Depth.{depth-field, depth_members, depth_items, depth}
use chasm.Prelude.{
  ℕ, suc, true, false, Option, some, none, is_some, is_empty, List, inl, inr, Bool-cases,
  Option-cases, arith,
}
use chasm.Prelude.{ℕ, true, false, ◌≤◌, Option, some, none, List, arith}
use chasm.OpenApi.{
  Spec, Schema, inline, pointer, SchemaSlot, Branches, no_branch, branch, Properties, no_property,
  property, AdditionalProperties, unsaid, any, extra, Discriminator, Value, Values, Members, string,
  object, nil, cons, end, member,
}
use chasm.Validation.Checked.{Checked, done, panicked, exhausted, ◌>>=◌, Ends}
use chasm.Validation.Coercion.{property_at, resolve_boxed_schema, resolve_slot}
use chasm.Validation.Values.{
  dotted, ascii, get, is_discriminated, body, field, check_not, count_branches, check_one_of,
  check_extra, any_branch, discriminated_branch, check_properties, check_additional,
  resolve_discriminated_branch, indexed, Text, validate_allof_branch, check_all_of,
  ValidationLocation, check_items, Recurse,
}

pub Ends->>= :
    {A B : Type 0} (m : Checked A) (k : A → Checked B)
    → Ends m
    → ((a : A) → Ends (k a))
    → Ends (m >>= k)
Ends->>= (done a) k h ends = ends a
Ends->>= panicked k h ends = tt
Ends->>= exhausted k h ends = h

-- A predicate at the schema, if there is one.
abbrev pub Each : (Schema → Type 0) → Option Schema → Type 0
Each P none = Unit {0}
Each P (some s) = P s

module _ (spec : Spec) where
  abbrev pub AllBranches : (Schema → Type 0) → Branches → Type 0
  AllBranches P no_branch = Unit {0}
  AllBranches P (branch r bs) = Each P (resolve_boxed_schema spec r) × AllBranches P bs

  abbrev pub AllProperties : (Schema → Type 0) → Properties → Type 0
  AllProperties P no_property = Unit {0}
  AllProperties P (property k r ps) = Each P (resolve_boxed_schema spec r) × AllProperties P ps

  abbrev pub AllExtra : (Schema → Type 0) → AdditionalProperties → Type 0
  AllExtra P unsaid = Unit {0}
  AllExtra P (any b) = Unit {0}
  AllExtra P (extra r) = Each P (resolve_boxed_schema spec r)

pub Ends-Each :
    {A : Type 0} (P : Schema → Type 0) (o : Option Schema) (x : Checked A) (k : Schema → Checked A)
    → Each P o
    → Ends x
    → ((s : Schema) → P s → Ends (k s))
    → Ends (elim o [ none ↦ x | some s ↦ k s ])
Ends-Each P none x k e h ends = h
Ends-Each P (some s) x k e h ends = ends s e

-- The recursive call ends at the schemas of `P` and the values that are no deeper than `n`.
abbrev pub EndsBelow : Recurse → (Schema → Type 0) → ℕ → Type 0
EndsBelow rec P n =
    (s : Schema)
    → P s
    → (v : Value) → depth v ≤ n
    → (location : ValidationLocation) (f : Text) → Ends (rec s v location f)

module _ (spec : Spec) (rec : Recurse) (P : Schema → Type 0) (n : ℕ)
    (ends : EndsBelow rec P n) where
  pub check_items-Ends :
      (location : ValidationLocation) (f : Text) (s : Schema) (i : ℕ) (vs : Values)
      → P s
      → depth_items vs ≤ n
      → Ends (check_items spec rec location f s i vs)
  unfolding check_items depth_items
  check_items-Ends location f s i nil p h = tt
  check_items-Ends location f s i (cons v vs) p h =
      Ends->>= _ _ (ends s p v (omega arith) location (indexed f i)) (λ here.
        Ends->>= _ _ (check_items-Ends location f s (suc i) vs p (omega arith)) (λ later. tt))

  pub check_all_of-Ends :
      (v : Value) (location : ValidationLocation) (f : Text) (union : List Text) (bs : Branches)
      → AllBranches spec P bs
      → depth v ≤ n
      → Ends (check_all_of spec rec v location f union bs)
  unfolding check_all_of validate_allof_branch
  check_all_of-Ends v location f union no_branch h d = tt
  check_all_of-Ends v location f union (branch r bs) h d =
      Ends-Each P (resolve_boxed_schema spec r) _ _ h.0
        (check_all_of-Ends v location f union bs h.1 d)
        (λ s p.
          Ends->>= _ _ (Ends->>= _ _ (ends s p v d location f) (λ es. tt))
            (λ here. Ends->>= _ _ (check_all_of-Ends v location f union bs h.1 d) (λ later. tt)))

  pub check_properties-Ends :
      (location : ValidationLocation) (f : Text) (map : Members) (ps : Properties)
      → AllProperties spec P ps
      → depth_members map ≤ n
      → Ends (check_properties spec rec location f map ps)
  unfolding check_properties
  check_properties-Ends location f map no_property h d = tt
  check_properties-Ends location f map (property key r ps) h d =
      Ends->>= _ _
        (elim (Option-cases (field map key)) [
          | inl e ↦ rw (e) tt
          | inr (child, e) ↦ rw (e) (
              Ends-Each P (resolve_boxed_schema spec r) _ _ h.0 tt (λ s p.
                ends s p child (le_trans (depth-field map key child e) d) location (dotted f key)))
        ])
        (λ here. Ends->>= _ _ (check_properties-Ends location f map ps h.1 d) (λ later. tt))

  pub check_extra-Ends :
      (location : ValidationLocation) (f : Text) (ps : Properties) (s : Schema) (map : Members)
      → P s
      → depth_members map ≤ n
      → Ends (check_extra spec rec location f ps s map)
  unfolding check_extra depth_members
  check_extra-Ends location f ps s end p d = tt
  check_extra-Ends location f ps s (member key child map) p d =
      Ends->>= _ _
        (elim (Bool-cases (is_some (property_at ps key))) [
          | inl e ↦ rw (e) tt
          | inr e ↦ rw (e) (ends s p child (omega arith) location (dotted f key))
        ])
        (λ here. Ends->>= _ _ (check_extra-Ends location f ps s map p (omega arith)) (λ later. tt))

  pub check_additional-Ends :
      (location : ValidationLocation) (f : Text) (ps : Properties) (ap : AdditionalProperties)
      (map : Members)
      → AllExtra spec P ap
      → depth_members map ≤ n
      → Ends (check_additional spec rec location f ps ap map)
  unfolding check_additional
  check_additional-Ends location f ps unsaid map h d = tt
  check_additional-Ends location f ps (any true) map h d = tt
  check_additional-Ends location f ps (any false) map h d = tt
  check_additional-Ends location f ps (extra r) map h d =
      Ends-Each P (resolve_boxed_schema spec r) _ _ h tt
        (λ s p. check_extra-Ends location f ps s map p d)

  pub count_branches-Ends :
      (bs : Branches) (v : Value)
      → AllBranches spec P bs
      → depth v ≤ n
      → Ends (count_branches spec rec bs v)
  unfolding count_branches
  count_branches-Ends no_branch v h d = tt
  count_branches-Ends (branch r bs) v h d =
      Ends-Each P (resolve_boxed_schema spec r) _ _ h.0 (count_branches-Ends bs v h.1 d) (λ s p.
        Ends->>= _ _ (ends s p v d body (ascii "_"))
          (λ es. Ends->>= _ _ (count_branches-Ends bs v h.1 d) (λ counts. tt)))

  pub any_branch-Ends :
      (bs : Branches) (v : Value)
      → AllBranches spec P bs
      → depth v ≤ n
      → Ends (any_branch spec rec bs v)
  unfolding any_branch
  any_branch-Ends no_branch v h d = tt
  any_branch-Ends (branch r bs) v h d =
      Ends-Each P (resolve_boxed_schema spec r) _ _ h.0 (any_branch-Ends bs v h.1 d) (λ s p.
        Ends->>= _ _ (ends s p v d body (ascii "_")) (λ es. elim (Bool-cases (is_empty es)) [
          | inl e ↦ rw (e) tt
          | inr e ↦ rw (e) (any_branch-Ends bs v h.1 d)
        ]))

  pub check_not-Ends :
      (v : Value) (location : ValidationLocation) (f : Text) (m : SchemaSlot)
      → Each P (resolve_slot spec m)
      → depth v ≤ n
      → Ends (check_not spec rec v location f m)
  unfolding check_not
  check_not-Ends v location f m h d =
      Ends-Each P (resolve_slot spec m) _ _ h tt
        (λ s p. Ends->>= _ _ (ends s p v d body (ascii "_")) (λ es. tt))

  pub discriminated_branch-Each :
      (target : Option Text) (key : Text) (bs : Branches)
      → AllBranches spec P bs
      → Each P (discriminated_branch spec target key bs)
  unfolding discriminated_branch
  discriminated_branch-Each target key no_branch h = tt
  discriminated_branch-Each target key (branch (inline s) bs) h =
      discriminated_branch-Each target key bs h.1
  discriminated_branch-Each target key (branch (pointer r) bs) h =
      elim (Bool-cases (is_discriminated spec target key r)) [
        | inl e ↦ rw (e) h.0
        | inr e ↦ rw (e) (discriminated_branch-Each target key bs h.1)
      ]

  Each-string :
      (o : Option Value) (chosen : Text → Option Schema)
      → ((key : Text) → Each P (chosen key))
      → Each P (elim o [ some (string key) ↦ chosen key | _ ↦ none ])
  Each-string none chosen h = tt
  Each-string (some (string key)) chosen h = h key
  Each-string (some _) chosen h = tt

  pub resolve_discriminated_branch-Each :
      (bs : Branches) (disc : Option Discriminator) (v : Value)
      → AllBranches spec P bs
      → Each P (resolve_discriminated_branch spec bs disc v)
  unfolding resolve_discriminated_branch
  resolve_discriminated_branch-Each bs none v h = tt
  resolve_discriminated_branch-Each bs (some disc) (object map) h =
      Each-string (field map disc.property_name) _
        (λ key. discriminated_branch-Each (get disc.mapping key) key bs h)
  resolve_discriminated_branch-Each bs (some disc) _ h = tt

  pub check_one_of-Ends :
      (bs : Branches) (disc : Option Discriminator) (v : Value) (location : ValidationLocation)
      (f : Text)
      → AllBranches spec P bs
      → depth v ≤ n
      → Ends (check_one_of spec rec bs disc v location f)
  unfolding check_one_of
  check_one_of-Ends bs disc v location f h d =
      Ends-Each P (resolve_discriminated_branch spec bs disc v) _ _
        (resolve_discriminated_branch-Each bs disc v h)
        (Ends->>= _ _ (count_branches-Ends bs v h d) (λ counts. tt))
        (λ s p. ends s p v d location f)
