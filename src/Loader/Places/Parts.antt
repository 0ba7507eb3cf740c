-- ===== src/Loader/Places/Parts.antt =====
-- The walk of a schema, as a walk under each of its keys.
use chasm.Prelude.{
  ◌≡◌, sym, Bool-cases, Option, Option-cases, some, none, List, [], ◌∷◌, ◌++◌, All, All-append, inl,
  inr, refl, if◌then◌else◌,
}
use mathlib.Core.Path.{subst}
use chasm.Text.{Text, ascii, text_eq}
use chasm.Loader.Yaml.{Yaml, Entries, string, mapping, end, entry, value_at}
use chasm.Loader.Schemas.{
  Visit, walk_schema, walk_properties_at, walk_mapping_at, walk_sequence_at, walk_any_at,
  walk_named, walk_numbered, is_mapping,
}
use chasm.Loader.Places.References.{All-split_append}

abbrev pub mapping_only : List Text → Yaml → List Visit
mapping_only path v = if is_mapping v then walk_schema path v else []

abbrev pub at_key : (List Text → Yaml → List Visit) → List Text → Option Yaml → List Visit
at_key f path none = []
at_key f path (some v) = f path v

-- Each walk looks its key up.
pub properties_at-lookup :
    (key : Text) (path : List Text) (es : Entries)
    → walk_properties_at key path es ≡ at_key walk_named (path ++ key ∷ []) (value_at es key)
unfolding walk_schema
properties_at-lookup key path end = refl
properties_at-lookup key path (entry (string j) v es) = elim (Bool-cases (text_eq j key)) [
  | inl y ↦ rw y refl
  | inr n ↦ rw n (properties_at-lookup key path es)
]
properties_at-lookup key path (entry j v es) = properties_at-lookup key path es

pub mapping_at-lookup :
    (key : Text) (path : List Text) (es : Entries)
    → walk_mapping_at key path es ≡ at_key mapping_only (path ++ key ∷ []) (value_at es key)
unfolding walk_schema
mapping_at-lookup key path end = refl
mapping_at-lookup key path (entry (string j) v es) = elim (Bool-cases (text_eq j key)) [
  | inl y ↦ rw y refl
  | inr n ↦ rw n (mapping_at-lookup key path es)
]
mapping_at-lookup key path (entry j v es) = mapping_at-lookup key path es

pub sequence_at-lookup :
    (key : Text) (path : List Text) (es : Entries)
    → walk_sequence_at key path es ≡ at_key walk_numbered (path ++ key ∷ []) (value_at es key)
unfolding walk_schema
sequence_at-lookup key path end = refl
sequence_at-lookup key path (entry (string j) v es) = elim (Bool-cases (text_eq j key)) [
  | inl y ↦ rw y refl
  | inr n ↦ rw n (sequence_at-lookup key path es)
]
sequence_at-lookup key path (entry j v es) = sequence_at-lookup key path es

pub any_at-lookup :
    (key : Text) (path : List Text) (es : Entries)
    → walk_any_at key path es ≡ at_key walk_schema (path ++ key ∷ []) (value_at es key)
unfolding walk_schema
any_at-lookup key path end = refl
any_at-lookup key path (entry (string j) v es) = elim (Bool-cases (text_eq j key)) [
  | inl y ↦ rw y refl
  | inr n ↦ rw n (any_at-lookup key path es)
]
any_at-lookup key path (entry j v es) = any_at-lookup key path es

module _ (P : Yaml → Type 0) where
  abbrev pub Holds : List Visit → Type 0
  Holds = All (λ v. P v.1)

  pub under :
      (f : List Text → Yaml → List Visit) (p : List Text) (o : Option Yaml)
      → ((v : Yaml) → o ≡ some v → Holds (f p v))
      → Holds (at_key f p o)
  under f p none h = tt
  under f p (some v) h = h v refl

  pub found :
      (f : List Text → Yaml → List Visit) (p : List Text) (o : Option Yaml) (v : Yaml)
      → o ≡ some v
      → Holds (at_key f p o)
      → Holds (f p v)
  found f p o v e h = let q : Holds (at_key f p (some v)) = rw e at h in q

  abbrev pub Looks : (List Text → Yaml → List Visit) → List Text → Entries → Text → Type 0
  Looks f p es key = Holds (at_key f (p ++ key ∷ []) (value_at es key))

  -- The walks of the keys of a schema.
  abbrev pub Parts : List Text → Entries → Type 0
  Parts p es =
      Looks walk_named p es (ascii "properties")
      × Looks mapping_only p es (ascii "additionalProperties")
      × Looks mapping_only p es (ascii "items")
      × Looks walk_numbered p es (ascii "allOf")
      × Looks walk_numbered p es (ascii "anyOf")
      × Looks walk_numbered p es (ascii "oneOf")
      × Looks walk_numbered p es (ascii "prefixItems")
      × Looks walk_schema p es (ascii "not")

  pub open-Parts :
      (p : List Text) (es : Entries)
      → Holds (walk_schema p (mapping es))
      → P (mapping es) × (value_at es (ascii "$ref") ≡ none → Parts p es)
  unfolding walk_schema
  open-Parts p es (h, hs) = (
    h,
    λ r.
        let k = rw r at hs in
        let a = All-split_append _ (walk_properties_at (ascii "properties") p es) _ k in
        let b = All-split_append _ (walk_mapping_at (ascii "additionalProperties") p es) _ a.1 in
        let c = All-split_append _ (walk_mapping_at (ascii "items") p es) _ b.1 in
        let d = All-split_append _ (walk_sequence_at (ascii "allOf") p es) _ c.1 in
        let e = All-split_append _ (walk_sequence_at (ascii "anyOf") p es) _ d.1 in
        let f = All-split_append _ (walk_sequence_at (ascii "oneOf") p es) _ e.1 in
        let g = All-split_append _ (walk_sequence_at (ascii "prefixItems") p es) _ f.1 in
        (
          subst Holds (properties_at-lookup (ascii "properties") p es) a.0,
          subst Holds (mapping_at-lookup (ascii "additionalProperties") p es) b.0,
          subst Holds (mapping_at-lookup (ascii "items") p es) c.0,
          subst Holds (sequence_at-lookup (ascii "allOf") p es) d.0,
          subst Holds (sequence_at-lookup (ascii "anyOf") p es) e.0,
          subst Holds (sequence_at-lookup (ascii "oneOf") p es) f.0,
          subst Holds (sequence_at-lookup (ascii "prefixItems") p es) g.0,
          subst Holds (any_at-lookup (ascii "not") p es) g.1,
        ),
  )

  pub close-Parts :
      (p : List Text) (es : Entries)
      → P (mapping es)
      → (value_at es (ascii "$ref") ≡ none → Parts p es)
      → Holds (walk_schema p (mapping es))
  unfolding walk_schema
  close-Parts p es h k = elim (Option-cases (value_at es (ascii "$ref"))) [
    | inr (v, e) ↦ (h, rw e tt)
    | inl e ↦
        let (a, b, c, d, f, g, i, j) = k e in
        (
          h,
          rw e (
              All-append _ _ _
                (subst Holds (sym (properties_at-lookup (ascii "properties") p es)) a)
                (All-append _ _ _
                  (subst Holds (sym (mapping_at-lookup (ascii "additionalProperties") p es)) b)
                  (All-append _ _ _ (subst Holds (sym (mapping_at-lookup (ascii "items") p es)) c) (
                    All-append _ _ _ (subst Holds (sym (sequence_at-lookup (ascii "allOf") p es)) d)
                      (All-append _ _ _
                        (subst Holds (sym (sequence_at-lookup (ascii "anyOf") p es)) f)
                        (All-append _ _ _
                          (subst Holds (sym (sequence_at-lookup (ascii "oneOf") p es)) g)
                          (All-append _ _ _
                            (subst Holds (sym (sequence_at-lookup (ascii "prefixItems") p es)) i)
                            (subst Holds (sym (any_at-lookup (ascii "not") p es)) j)))))))),
        )
  ]
