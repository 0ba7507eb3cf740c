-- ===== src/Engine/Body/Missing.antt =====
-- The example that a request names.
use mathlib.Core.Path.{subst}
use chasm.Engine.Body.{
  pick_example_from_media_type, example_key_exists, null, build_body, generated_or_null,
  schema_ref_to_json, Schema, ReferenceOr, serialized, body_options, ok, example_not_found,
  MockConfig, generated, err, generate_from_media_type, Value, MockRequest, MockError,
}
use chasm.Prelude.Result.{Result}
use chasm.OpenApi.{MediaType, Spec}
use chasm.Engine.Faker.{Services}
use chasm.Text.{Text}
use chasm.Prelude.{
  refl, ◌&&◌, sym, not, Bool, ap, true, false, ◌↔◌, Option, some, none, if◌then◌else◌, ◌≡◌, inl,
  inr, Bool-cases,
}

module _ (env : Services) (spec : Spec) (m : Option MediaType) (req : MockRequest) where
  generated-IsMissing :
      (r : Result Text Value) (ct name : Text)
      → generated req r ≡ err (example_not_found ct name)
      → ⊥
  generated-IsMissing (ok v) ct name e = cc
  generated-IsMissing (err x) ct name e = cc

  generate-IsMissing :
      (cfg : MockConfig) (ct name : Text)
      → generate_from_media_type env spec m cfg req ≡ err (example_not_found ct name)
      → ⊥
  unfolding generate_from_media_type
  generate-IsMissing cfg ct name e = by_type m e
    where
      by_json :
          (j : Result MockError Value)
          → ((c n : Text) → j ≡ err (example_not_found c n) → ⊥)
          → (elim j as (λ _. Result MockError (Option Value)) [
            | err x ↦ err x
            | ok schema_json ↦
                let opts = body_options spec cfg in
                if cfg.dynamic
                then generated req (env.generate schema_json opts)
                else generated req (env.generate_static schema_json opts)
          ])
            ≡ err (example_not_found ct name)
          → ⊥
      by_json (err x) f e = f ct name cc
      by_json (ok v) f e = elim (Bool-cases cfg.dynamic) [
        | inl q ↦ generated-IsMissing _ ct name (rw q at e)
        | inr q ↦ generated-IsMissing _ ct name (rw q at e)
      ]

      serialized-IsMissing :
          (r : Result Text Value) (c n : Text) → serialized r ≡ err (example_not_found c n) → ⊥
      serialized-IsMissing (ok v) c n e = cc
      serialized-IsMissing (err x) c n e = cc

      by_schema :
          (o : Option (ReferenceOr Schema))
          → (elim o as (λ _. Result MockError (Option Value)) [
            | none ↦ ok none
            | some schema_ref ↦ elim (serialized (schema_ref_to_json env spec schema_ref)) [
              | err x ↦ err x
              | ok schema_json ↦
                  let opts = body_options spec cfg in
                  if cfg.dynamic
                  then generated req (env.generate schema_json opts)
                  else generated req (env.generate_static schema_json opts)
            ]
          ])
            ≡ err (example_not_found ct name)
          → ⊥
      by_schema none e = cc
      by_schema (some r) e =
          by_json (serialized (schema_ref_to_json env spec r)) (serialized-IsMissing _) e

      by_type :
          (o : Option MediaType)
          → generate_from_media_type env spec o cfg req ≡ err (example_not_found ct name)
          → ⊥
      by_type none e = cc
      by_type (some mt) e = by_schema mt.schema e

  generated_or_null-IsMissing :
      (cfg : MockConfig) (ct name : Text)
      → generated_or_null env spec m cfg req ≡ err (example_not_found ct name)
      → ⊥
  generated_or_null-IsMissing cfg ct name e =
      go (generate_from_media_type env spec m cfg req) (generate-IsMissing cfg) e
    where
      go :
          (r : Result MockError (Option Value))
          → ((c n : Text) → r ≡ err (example_not_found c n) → ⊥)
          → (elim r as (λ _. Result MockError Value) [
            | err x ↦ err x
            | ok none ↦ ok null
            | ok (some v) ↦ ok v
          ])
            ≡ err (example_not_found ct name)
          → ⊥
      go (err x) f e = f ct name cc
      go (ok none) f e = cc
      go (ok (some v)) f e = cc

  -- The choice of the code, with what it chooses between.
  body :
      Text
      → Bool
      → Bool
      → Option Text
      → Result MockError Value
      → Option Value
      → Result MockError Value
  body ct ignored dynamic key gen pick =
      if not ignored && not dynamic
      then (elim (elim key as (λ _. Option Text) [
        | none ↦ none
        | some name ↦ if example_key_exists spec m name then none else some name
      ]) [
        | some name ↦ err (example_not_found ct name)
        | none ↦ elim pick [ some v ↦ ok v | none ↦ gen ]
      ])
      else gen

  refused : Text → Text → Result MockError Value
  refused ct t = err (example_not_found ct t)

  refused-inj : (ct a b : Text) → refused ct a ≡ refused ct b → a ≡ b
  unfolding refused
  refused-inj ct a b e = cc

  picked-IsMissing :
      (ct name : Text) (gen : Result MockError Value) (pick : Option Value)
      → (gen ≡ refused ct name → ⊥)
      → (elim pick as (λ _. Result MockError Value) [ some v ↦ ok v | none ↦ gen ])
        ≡ refused ct name
      → ⊥
  unfolding refused
  picked-IsMissing ct name gen (some v) f e = cc
  picked-IsMissing ct name gen none f e = f e

  body-refused_iff :
      (ct name : Text) (ignored dynamic : Bool) (key : Option Text) (gen : Result MockError Value)
      (pick : Option Value)
      → (gen ≡ refused ct name → ⊥)
      → (body ct ignored dynamic key gen pick ≡ refused ct name)
        ↔ (ignored ≡ false)
          × (dynamic ≡ false)
          × (key ≡ some name)
          × (example_key_exists spec m name ≡ false)
  unfolding body refused
  body-refused_iff ct name true dynamic key gen pick f = (λ e. absurd (f e), λ k. cc)
  body-refused_iff ct name false true key gen pick f = (λ e. absurd (f e), λ k. cc)
  body-refused_iff ct name false false none gen pick f =
      (λ e. absurd (picked-IsMissing ct name gen pick f e), λ k. cc)
  body-refused_iff ct name false false (some x) gen pick f =
      elim (Bool-cases (example_key_exists spec m x)) [
        | inl h ↦ (
          λ e. absurd (picked-IsMissing ct name gen pick f (rw h at e)),
          λ k. absurd (other h k.2 k.3),
        )
        | inr h ↦ (λ e. missing h (refused-inj ct x name (rw h at e)), λ k. given k.2 k.3)
      ]
    where
      named : Text → Option Text
      named t = some t

      same : named x ≡ named name → x ≡ name
      same e = cc

      other :
          example_key_exists spec m x ≡ true
          → named x ≡ named name
          → example_key_exists spec m name ≡ false
          → ⊥
      other h e k = let i = same e in cc

      missing :
          example_key_exists spec m x ≡ false
          → x ≡ name
          → (false ≡ false)
            × (false ≡ false)
            × (named x ≡ named name)
            × (example_key_exists spec m name ≡ false)
      missing h i = (refl, refl, ap named i, subst (λ t. example_key_exists spec m t ≡ false) i h)

      given :
          named x ≡ named name
          → example_key_exists spec m name ≡ false
          → body ct false false (some x) gen pick ≡ refused ct name
      given e k =
          subst (λ t. body ct false false (some t) gen pick ≡ refused ct name) (sym (same e)) (rw k)

  -- The body is refused for an example exactly where examples are in use, neither ignored nor
  -- overridden by `dynamic`, the configuration names one, and the media type has none of that name.
  pub build_body-example_not_found_iff :
      (cfg : MockConfig) (ct name : Text)
      → (build_body env spec m ct cfg req ≡ err (example_not_found ct name))
        ↔ (cfg.ignore_examples ≡ false)
          × (cfg.dynamic ≡ false)
          × (cfg.example_key ≡ some name)
          × (example_key_exists spec m name ≡ false)
  unfolding build_body body refused
  build_body-example_not_found_iff cfg ct name =
      body-refused_iff ct name cfg.ignore_examples cfg.dynamic cfg.example_key
        (generated_or_null env spec m cfg req) (pick_example_from_media_type spec m cfg.example_key)
        (generated_or_null-IsMissing cfg ct name)
