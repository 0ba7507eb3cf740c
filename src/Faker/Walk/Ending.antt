-- ===== src/Faker/Walk/Ending.antt =====
-- crates/chasm-faker/src/lib.rs: the loops of the static walk.
use chasm.Faker.Strings.{
  Given->>=, Given, Given-or, Given-unwrap_or, Within, WithinItems, WithinMembers, Within-field,
}
use chasm.Engine.Config.{GenerateOptions}
use chasm.Engine.Values.{count_items, has_field, field, insert_field, append_values}
use chasm.Prelude.{
  leb, ◌||◌, ◌&&◌, ℕ, zero, suc, Option, some, none, List, [], ◌∷◌, Bool-cases, inl, inr,
}
use chasm.Prelude.Maybe.{◌>>=◌}
use chasm.Text.{text_eq, Text, ascii}
use chasm.OpenApi.{
  Value, Values, Members, null, bool, number, string, array, object, nil, cons, end, member,
}
use chasm.Faker.Static.{only_members, only_items, items_at, required_names, declared_properties}
use chasm.Faker.Walk.{
  any_text, is_null, walk_prefix, pad, static_array, walk_properties, walk_required, static_object,
  only_object,
}

-- There is a result.
abbrev pub IsDone : {A : Type 0} → Option A → Type 0
IsDone none = ⊥
IsDone (some a) = Unit

pub IsDone->>= :
    {A B : Type 0} (m : Option A) (k : A → Option B)
    → IsDone m
    → ((a : A) → IsDone (k a))
    → IsDone (m >>= k)
IsDone->>= none k h ends = h
IsDone->>= (some a) k h ends = ends a

pub IsDone-option :
    {A B : Type 0} (P : A → Type 0) (o : Option A) (x : Option B) (k : A → Option B)
    → Given P o
    → IsDone x
    → ((a : A) → P a → IsDone (k a))
    → IsDone (elim o [ none ↦ x | some a ↦ k a ])
IsDone-option P none x k h d ends = d
IsDone-option P (some a) x k h d ends = ends a h

module _ (names : List Text) where
  Within-only_items : (v : Value) → Within names v → Given (WithinItems names) (only_items v)
  unfolding Within
  Within-only_items (array vs) p = p
  Within-only_items (null) p = tt
  Within-only_items (bool b) p = tt
  Within-only_items (number n) p = tt
  Within-only_items (string s) p = tt
  Within-only_items (object m) p = tt

  Within-only_members : (v : Value) → Within names v → Given (WithinMembers names) (only_members v)
  unfolding Within
  Within-only_members (object m) p = p
  Within-only_members (null) p = tt
  Within-only_members (bool b) p = tt
  Within-only_members (number n) p = tt
  Within-only_members (string s) p = tt
  Within-only_members (array vs) p = tt

  Within-only_object : (v : Value) → Within names v → Given (Within names) (only_object v)
  Within-only_object (object m) p = p
  Within-only_object (null) p = tt
  Within-only_object (bool b) p = tt
  Within-only_object (number n) p = tt
  Within-only_object (string s) p = tt
  Within-only_object (array vs) p = tt

  pub Within-items_at :
      (m : Members) (k : Text) → WithinMembers names m → Given (WithinItems names) (items_at m k)
  Within-items_at m k h =
      Given->>= (Within names) (WithinItems names) (field m k) only_items (Within-field names m k h)
        Within-only_items

  Within-object_at :
      (m : Members) (k : Text)
      → WithinMembers names m
      → Given (Within names) (field m k >>= only_object)
  Within-object_at m k h =
      Given->>= (Within names) (Within names) (field m k) only_object (Within-field names m k h)
        Within-only_object

  Within-declared_properties :
      (m : Members) → WithinMembers names m → WithinMembers names (declared_properties m)
  unfolding declared_properties WithinMembers
  Within-declared_properties m h =
      Given-unwrap_or (WithinMembers names) _ end
        (Given->>= (Within names) (WithinMembers names) (field m (ascii "properties")) only_members
          (Within-field names m (ascii "properties") h) Within-only_members)
        tt

  module _ (opts : GenerateOptions) (walk : Value → Option Value)
      (ends : (s : Value) → Within names s → IsDone (walk s)) where
    walk_prefix-IsDone : (vs : Values) → WithinItems names vs → IsDone (walk_prefix opts walk vs)
    unfolding walk_prefix WithinItems
    walk_prefix-IsDone nil h = tt
    walk_prefix-IsDone (cons v vs) (p, h) =
        IsDone->>= _ _ (ends v p) (λ w. IsDone->>= _ _ (walk_prefix-IsDone vs h) (λ ws. tt))

    pad-IsDone :
        (turns min_items : ℕ) (s : Value) (out : Values)
        → Within names s
        → IsDone (pad opts walk turns min_items s out)
    unfolding pad
    pad-IsDone zero min_items s out h = tt
    pad-IsDone (suc turns) min_items s out h = IsDone->>= _ _ (ends s h) (λ e.
        elim (Bool-cases (is_null e && leb min_items (count_items out))) [
          | inl y ↦ rw y tt
          | inr n ↦ rw n (pad-IsDone turns min_items s (append_values out (cons e nil)) h)
        ])

    pub static_array-IsDone :
        (map : Members) → WithinMembers names map → IsDone (static_array opts walk map)
    unfolding static_array Within WithinItems
    static_array-IsDone map h =
        IsDone->>= _ _
          (walk_prefix-IsDone _ (
            Given-unwrap_or (WithinItems names) _ nil
              (Given-or (WithinItems names) (items_at map (ascii "prefixItems")) _
                (Within-items_at map (ascii "prefixItems") h)
                (Within-items_at map (ascii "items") h))
              tt))
          (λ out.
            IsDone->>= _ _
              (pad-IsDone _ _ _ out (
                Given-unwrap_or (Within names) _ (object end)
                  (Within-object_at map (ascii "items") h) tt))
              (λ vs. tt))

    walk_properties-IsDone :
        (required : List Text) (ps out : Members)
        → WithinMembers names ps
        → IsDone (walk_properties opts walk required ps out)
    unfolding walk_properties WithinMembers
    walk_properties-IsDone required end out h = tt
    walk_properties-IsDone required (member k s ps) out (p, h) =
        elim (Bool-cases (any_text (text_eq k) required || opts.always_fake_optionals)) [
          | inl y ↦ rw y (
              IsDone->>= _ _ (ends s p)
                (λ v. walk_properties-IsDone required ps (insert_field out k v) h))
          | inr n ↦ rw n (walk_properties-IsDone required ps out h)
        ]

    walk_required-IsDone :
        (required : List Text) (out : Members) → IsDone (walk_required opts walk required out)
    unfolding walk_required Within WithinMembers
    walk_required-IsDone [] out = tt
    walk_required-IsDone (k ∷ required) out = elim (Bool-cases (has_field out k)) [
      | inl y ↦ rw y (walk_required-IsDone required out)
      | inr n ↦ rw n (
          IsDone->>= _ _ (ends (object end) tt)
            (λ v. walk_required-IsDone required (insert_field out k v)))
    ]

    pub static_object-IsDone :
        (map : Members) → WithinMembers names map → IsDone (static_object opts walk map)
    unfolding static_object
    static_object-IsDone map h =
        IsDone->>= _ _
          (walk_properties-IsDone (required_names map) (declared_properties map) end
            (Within-declared_properties map h))
          (λ declared.
            IsDone->>= _ _ (walk_required-IsDone (required_names map) declared) (λ out. tt))
