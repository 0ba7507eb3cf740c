-- ===== src/Faker/RefResolver/Within.antt =====
-- crates/chasm-faker/src/ref_resolver.rs: the strings of what a reference resolves to.
use mathlib.Core.Path.{subst}
use chasm.Prelude.{
  length, leb, [], ◌∷◌, ℕ, zero, suc, List, Bool-cases, Option-cases, inl, inr, Option, some, none,
  All,
}
use chasm.Prelude.Maybe.{◌>>=◌}
use chasm.Text.{split, strip_prefix, ascii, unescape, parse_uint, get, text_eq, Text}
use chasm.OpenApi.{Value, Values, null, bool, number, string, array, object, nil, cons}
use chasm.Faker.RefResolver.{
  any_text, resolve, usize_max, ◌∷◌, child_at, resolve_parts, resolve_pointer, target, RefResolver,
  nth_value, external_at, indexed_at,
}
use chasm.Faker.Strings.{Given-or, Given, Within, WithinItems, Within-field}

module _ (names : List Text) where
  Within-nth_value :
      (vs : Values) (i : ℕ) → WithinItems names vs → Given (Within names) (nth_value vs i)
  unfolding WithinItems
  Within-nth_value nil i h = tt
  Within-nth_value (cons v vs) zero h = h.0
  Within-nth_value (cons v vs) (suc i) h = Within-nth_value vs i h.1

  Within-child_at :
      (v : Value) (key : Text) → Within names v → Given (Within names) (child_at v key)
  unfolding child_at Within
  Within-child_at (object map) key h = Within-field names map key h
  Within-child_at (array vs) key h = elim (Option-cases (parse_uint usize_max key)) [
    | inl e ↦ rw e tt
    | inr (i, e) ↦ rw e (Within-nth_value vs i h)
  ]
  Within-child_at (null) key h = tt
  Within-child_at (bool b) key h = tt
  Within-child_at (number n) key h = tt
  Within-child_at (string s) key h = tt

  Within-resolve_parts :
      (parts : List Text) (v : Value)
      → Within names v
      → Given (Within names) (resolve_parts parts v)
  unfolding resolve_parts
  Within-resolve_parts [] v h = h
  Within-resolve_parts (part ∷ parts) v h = elim (Option-cases (child_at v (unescape part))) [
    | inl e ↦ rw e tt
    | inr (w, e) ↦
        let k : Within names w =
          subst (Given (Within names)) e (Within-child_at v (unescape part) h) in
        rw e (Within-resolve_parts parts w k)
  ]

  pub Within-get :
      (map : List (Text × Value)) (key : Text)
      → All (λ e. Within names e.1) map
      → Given (Within names) (get map key)
  unfolding get
  Within-get [] key h = tt
  Within-get ((j, v) ∷ map) key (p, h) = elim (Bool-cases (text_eq j key)) [
    | inl y ↦ rw y p
    | inr n ↦ rw n (Within-get map key h)
  ]

  Within-segments :
      (root : Value) (o : Option (List Text))
      → Within names root
      → Given (Within names) (o >>= λ segments. resolve_parts segments root)
  Within-segments root none h = tt
  Within-segments root (some segments) h = Within-resolve_parts segments root h

  abbrev pub WithinExternal : Option (List (Text × Value)) → Type 0
  WithinExternal none = Unit {0}
  WithinExternal (some map) = All (λ e. Within names e.1) map

  Within-external_at :
      (o : Option (List (Text × Value))) (key : Text)
      → WithinExternal o
      → Given (Within names) (o >>= λ map. get map key)
  Within-external_at none key h = tt
  Within-external_at (some map) key h = Within-get map key h

  Within-anchored :
      (root : Value) (o : Option (List Text))
      → Within names root
      → Given
          (Within names)
          (elim o [ some segments ↦ resolve_parts segments root | none ↦ some root ])
  Within-anchored root none h = h
  Within-anchored root (some segments) h = Within-resolve_parts segments root h

  pub Within-target :
      (r : RefResolver) (ref_str : Text)
      → Within names r.root
      → WithinExternal r.external
      → Given (Within names) (target r ref_str)
  unfolding target resolve_pointer
  Within-target r ref_str h k = elim (Bool-cases (text_eq ref_str (ascii "#"))) [
    | inl y ↦ rw y h
    | inr n ↦ rw n (elim (Option-cases (strip_prefix ref_str (ascii "#/"))) [
      | inr (rest, e) ↦ rw e (Within-resolve_parts (split b'/' rest) r.root h)
      | inl e ↦ rw e (elim (Option-cases (strip_prefix ref_str (ascii "#"))) [
        | inr (anchor, f) ↦ rw f (Within-anchored r.root _ h)
        | inl f ↦ rw f (
            Given-or (Within names) (external_at r ref_str) _
              (Within-external_at r.external ref_str k)
              (Within-segments r.root (indexed_at r ref_str) h))
      ])
    ])
  ]

  pub Within-resolve :
      (r : RefResolver) (ref_str : Text) (visited : List Text)
      → Within names r.root
      → WithinExternal r.external
      → Given (Within names) (resolve r ref_str visited).0
  unfolding resolve
  Within-resolve r ref_str visited h k = elim (Bool-cases (leb r.max_depth (length visited))) [
    | inl y ↦ rw y tt
    | inr n ↦ elim (Bool-cases (any_text (text_eq ref_str) visited)) [
      | inl y ↦ rw (n, y) tt
      | inr z ↦ rw (n, z) (Within-target r ref_str h k)
    ]
  ]
