-- ===== src/Loader/Places.antt =====
-- crates/chasm-engine/src/loader.rs: where the schemas and the references of a document stand.
pub mod References
pub mod Parts
pub mod Found
pub mod Walks
pub mod Visits
pub mod Types
pub mod Dangling
pub mod Identifiers
use chasm.Prelude.{◌≡◌, ◌≢◌, ◌++◌, ◌⊎◌, Option, some, none, List, [], ◌∷◌, Any}
use chasm.Text.{Text, ascii, unescape}
use chasm.Loader.Yaml.{Yaml, Items, Entries, string, sequence, mapping, nil, cons, end, entry}
use chasm.Loader.Schemas.{child}

abbrev pub InEntries : Yaml → Entries → Type 0
InEntries w end = ⊥
InEntries w (entry k v es) = (v ≡ w) ⊎ InEntries w es

abbrev pub InItems : Yaml → Items → Type 0
InItems w nil = ⊥
InItems w (cons v vs) = (v ≡ w) ⊎ InItems w vs

-- A value of a mapping.
abbrev pub IsValueIn : Yaml → Yaml → Type 0
IsValueIn w (mapping es) = InEntries w es
IsValueIn w _ = ⊥

-- An item of a sequence.
abbrev pub IsItemIn : Yaml → Yaml → Type 0
IsItemIn w (sequence vs) = InItems w vs
IsItemIn w _ = ⊥

-- A text stands under `$ref` in a mapping somewhere in a tree.
pub data Refers (t : Text) : Yaml → Type 0 where
  own : {v : Yaml} → child (ascii "$ref") v ≡ some (string t) → Refers t v
  in_value : {v w : Yaml} → IsValueIn w v → Refers t w → Refers t v
  in_item : {v w : Yaml} → IsItemIn w v → Refers t w → Refers t v

abbrev pub component_kinds : List Text
component_kinds =
    ascii "schemas"
    ∷ ascii "parameters"
    ∷ ascii "responses"
    ∷ ascii "requestBodies"
    ∷ ascii "headers"
    ∷ ascii "securitySchemes"
    ∷ ascii "callbacks"
    ∷ ascii "pathItems"
    ∷ []

-- The document has the component, whose name is escaped in a reference.
abbrev pub HasComponent : Yaml → Text → Text → Type 0
HasComponent root kind name =
    (components : Yaml) × (entries : Yaml) × (target : Yaml) × (child (ascii "components") root
      ≡ some components)
    × (child kind components ≡ some entries)
    × (child (unescape name) entries ≡ some target)

-- A reference to a component of a known kind names one that is there.
abbrev pub IsNotDangling : Yaml → Text → Type 0
IsNotDangling root t =
    (kind name : Text)
    → Any (λ k. kind ≡ k) component_kinds
    → name ≢ []
    → t ≡ ascii "#/components/" ++ (kind ++ b'/' ∷ name)
    → HasComponent root kind name

abbrev pub HasMappingKey : Text → Type 0
HasMappingKey key = (key ≡ ascii "additionalProperties") ⊎ (key ≡ ascii "items")

abbrev pub HasSequenceKey : Text → Type 0
HasSequenceKey key =
    (key ≡ ascii "allOf")
    ⊎ ((key ≡ ascii "anyOf") ⊎ ((key ≡ ascii "oneOf") ⊎ (key ≡ ascii "prefixItems")))

-- A schema stands directly in another one.
abbrev pub IsChildOf : Yaml → Yaml → Type 0
IsChildOf t s =
    ((ps : Yaml) × (child (ascii "properties") s ≡ some ps) × IsValueIn t ps)
    ⊎ (((key : Text) × (es : Entries) × HasMappingKey key
          × (t ≡ mapping es)
          × (child key s ≡ some t))
        ⊎ (((key : Text) × (vs : Yaml) × HasSequenceKey key
              × (child key s ≡ some vs)
              × IsItemIn t vs)
            ⊎ (child (ascii "not") s ≡ some t)))

-- A schema is another one or stands in it, at no point below a `$ref`.
pub data Within : Yaml → Yaml → Type 0 where
  here : {s : Yaml} → Within s s
  below : {s t u : Yaml} → child (ascii "$ref") s ≡ none → IsChildOf t s → Within t u → Within s u

-- What is asked of the value under a key, of each value and of each item, where there are any.
abbrev pub At : Text → (Yaml → Type 0) → Yaml → Type 0
At key P v = (w : Yaml) → child key v ≡ some w → P w

abbrev pub Values : (Yaml → Type 0) → Yaml → Type 0
Values P v = (w : Yaml) → IsValueIn w v → P w

abbrev pub Sequence : (Yaml → Type 0) → Yaml → Type 0
Sequence P v = (w : Yaml) → IsItemIn w v → P w

-- What is asked of each schema of a part of a document.
module _ (P : Yaml → Type 0) where
  abbrev pub OfSchema : Yaml → Type 0
  OfSchema s = (u : Yaml) → Within s u → P u

  abbrev pub OfContent : Yaml → Type 0
  OfContent = At (ascii "content") (Values (At (ascii "schema") OfSchema))

  -- A parameter or a header.
  abbrev pub OfParameter : Yaml → Type 0
  OfParameter v = At (ascii "schema") OfSchema v × OfContent v

  abbrev pub OfResponse : Yaml → Type 0
  OfResponse v = OfContent v × At (ascii "headers") (Values OfParameter) v

  abbrev pub OfOperation : Yaml → Type 0
  OfOperation v =
      At (ascii "parameters") (Sequence OfParameter) v
      × (At (ascii "requestBody") OfContent v × At (ascii "responses") (Values OfResponse) v)

  abbrev pub OfPathItem : Yaml → Type 0
  OfPathItem v =
      At (ascii "get") OfOperation v
      × (At (ascii "put") OfOperation v
          × (At (ascii "post") OfOperation v
              × (At (ascii "delete") OfOperation v
                  × (At (ascii "options") OfOperation v
                      × (At (ascii "head") OfOperation v
                          × (At (ascii "patch") OfOperation v
                              × At (ascii "trace") OfOperation v))))))

  abbrev pub OfDocument : Yaml → Type 0
  OfDocument v =
      At (ascii "components") (At (ascii "schemas") (Values OfSchema)) v
      × At (ascii "paths") (Values OfPathItem) v

-- The types that a schema names, alone or in a sequence.
abbrev pub NamesType : Text → Yaml → Type 0
NamesType t s =
    (child (ascii "type") s ≡ some (string t))
    ⊎ ((vs : Yaml) × (child (ascii "type") s ≡ some vs) × IsItemIn (string t) vs)

abbrev pub known_types : List Text
known_types =
    ascii "null"
    ∷ ascii "boolean"
    ∷ ascii "integer"
    ∷ ascii "number"
    ∷ ascii "string"
    ∷ ascii "array"
    ∷ ascii "object"
    ∷ []

abbrev pub IsKnownType : Text → Type 0
IsKnownType t = Any (λ k. t ≡ k) known_types

abbrev pub HasKnownTypes : Yaml → Type 0
HasKnownTypes s = (t : Text) → NamesType t s → IsKnownType t
