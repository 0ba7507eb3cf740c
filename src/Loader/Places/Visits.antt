-- ===== src/Loader/Places/Visits.antt =====
-- The schemas of a document are those that the visits of its parts reach.
use chasm.Prelude.{
  ◌≡◌, ◌↔◌, ◌⊎◌, ℕ, suc, Option, some, none, List, [], ◌∷◌, ◌++◌, All-append, inl, inr, refl,
}
use mathlib.Core.Path.{subst}
use chasm.Prelude.Maybe.{◌>>=◌}
use chasm.Text.{Text, ascii, decimal}
use chasm.Loader.Yaml.{Yaml, Items, Entries, sequence, mapping, nil, cons, end, entry}
use chasm.Loader.Pointers.{key_as_str}
use chasm.Loader.Schemas.{
  Visit, child, entries_of, items_of_sequence, walk_at, for_entries, for_items, visit_media,
  visit_content_block, visit_param_or_header_schema, visit_response, visit_body, visit_operation,
  visit_path_item, visit_schemas, walk_schema,
}
use chasm.Loader.Places.{
  InEntries, InItems, At, Values, Sequence, OfSchema, OfContent, OfParameter, OfResponse,
  OfOperation, OfPathItem, OfDocument,
}
use chasm.Loader.Places.References.{All-split_append}
use chasm.Loader.Places.Parts.{Holds}
use chasm.Loader.Places.Walks.{walk_schema_iff}

module _ (P : Yaml → Type 0) where
  -- A walk visits what is asked of a node.
  abbrev Covers : (List Text → Yaml → List Visit) → (Yaml → Type 0) → Type 0
  Covers f R = (p : List Text) (v : Yaml) → Holds P (f p v) ↔ R v

  both :
      (xs ys : List Visit) (R S : Type 0)
      → Holds P xs ↔ R
      → Holds P ys ↔ S
      → Holds P (xs ++ ys) ↔ (R × S)
  both xs ys R S f g = (
    (λ h. let q = All-split_append _ xs ys h in (f.0 q.0, g.0 q.1)),
    (λ h. All-append _ xs ys (f.1 h.0) (g.1 h.1)),
  )

  first_or_later :
      (xs ys : List Visit) (R Later : Yaml → Type 0) (v : Yaml)
      → Holds P xs ↔ R v
      → Holds P ys ↔ ((w : Yaml) → Later w → R w)
      → Holds P (xs ++ ys) ↔ ((w : Yaml) → (v ≡ w) ⊎ Later w → R w)
  first_or_later xs ys R Later v f g = (to, from)
    where
      to : Holds P (xs ++ ys) → (w : Yaml) → (v ≡ w) ⊎ Later w → R w
      to h w (inl e) = subst R e (f.0 (All-split_append _ xs ys h).0)
      to h w (inr i) = g.0 (All-split_append _ xs ys h).1 w i

      from : ((w : Yaml) → (v ≡ w) ⊎ Later w → R w) → Holds P (xs ++ ys)
      from h = All-append _ xs ys (f.1 (h v (inl refl))) (g.1 (λ w i. h w (inr i)))

  module _ (f : List Text → Yaml → List Visit) (R : Yaml → Type 0) (c : Covers f R) where
    entries_iff :
        (p : List Text) (es : Entries)
        → Holds P (for_entries f p es) ↔ ((w : Yaml) → InEntries w es → R w)
    entries_iff p end = ((λ h w i. absurd i), (λ h. tt))
    entries_iff p (entry k v es) =
        first_or_later (f (p ++ key_as_str k ∷ []) v) (for_entries f p es) R (λ w. InEntries w es) v
          (c (p ++ key_as_str k ∷ []) v) (entries_iff p es)

    items_iff :
        (p : List Text) (n : ℕ) (vs : Items)
        → Holds P (for_items f p n vs) ↔ ((w : Yaml) → InItems w vs → R w)
    items_iff p n nil = ((λ h w i. absurd i), (λ h. tt))
    items_iff p n (cons v vs) =
        first_or_later (f (p ++ decimal n ∷ []) v) (for_items f p (suc n) vs) R (λ w. InItems w vs)
          v (c (p ++ decimal n ∷ []) v) (items_iff p (suc n) vs)

    values_iff :
        (p : List Text) (o : Option Yaml)
        → Holds P (for_entries f p (entries_of o)) ↔ ((w : Yaml) → o ≡ some w → Values R w)
    values_iff p none = ((λ h w e. absurd (cc e)), (λ h. tt))
    values_iff p (some (mapping es)) = (
      (λ h w e. let same : mapping es ≡ w = cc in subst (Values R) same ((entries_iff p es).0 h)),
      (λ h. (entries_iff p es).1 (h (mapping es) refl)),
    )
    values_iff p (some v) =
        ((λ h w e. let same : v ≡ w = cc in subst (Values R) same (λ x i. absurd i)), (λ h. tt))

    Sequence-iff :
        (p : List Text) (o : Option Yaml)
        → Holds P (for_items f p 0 (items_of_sequence o)) ↔ ((w : Yaml) → o ≡ some w → Sequence R w)
    Sequence-iff p none = ((λ h w e. absurd (cc e)), (λ h. tt))
    Sequence-iff p (some (sequence vs)) = (
      (λ h w e.
          let same : sequence vs ≡ w = cc in subst (Sequence R) same ((items_iff p 0 vs).0 h)),
      (λ h. (items_iff p 0 vs).1 (h (sequence vs) refl)),
    )
    Sequence-iff p (some v) =
        ((λ h w e. let same : v ≡ w = cc in subst (Sequence R) same (λ x i. absurd i)), (λ h. tt))

    option_iff :
        (p : List Text) (o : Option Yaml)
        → Holds P (elim o [ none ↦ [] | some w ↦ f p w ]) ↔ ((w : Yaml) → o ≡ some w → R w)
    option_iff p none = ((λ h w e. absurd (cc e)), (λ h. tt))
    option_iff p (some v) = (
      (λ h w e. let same : v ≡ w = cc in subst R same ((c p v).0 h)),
      (λ h. (c p v).1 (h v refl)),
    )

  walk_at_iff :
      (p : List Text) (o : Option Yaml)
      → Holds P (walk_at p o) ↔ ((w : Yaml) → o ≡ some w → OfSchema P w)
  walk_at_iff p none = option_iff walk_schema (OfSchema P) (walk_schema_iff P) p none
  walk_at_iff p (some v) = option_iff walk_schema (OfSchema P) (walk_schema_iff P) p (some v)

  media-Covers : Covers visit_media (At (ascii "schema") (OfSchema P))
  media-Covers p v = walk_at_iff (p ++ ascii "schema" ∷ []) (child (ascii "schema") v)

  content-Covers : Covers visit_content_block (OfContent P)
  unfolding visit_content_block
  content-Covers p v =
      values_iff visit_media (At (ascii "schema") (OfSchema P)) media-Covers
        (p ++ ascii "content" ∷ []) (child (ascii "content") v)

  parameter-Covers : Covers visit_param_or_header_schema (OfParameter P)
  unfolding visit_param_or_header_schema
  parameter-Covers p v = both _ _ _ _ (media-Covers p v) (content-Covers p v)

  response-Covers : Covers visit_response (OfResponse P)
  unfolding visit_response
  response-Covers p v = both _ _ _ _ (content-Covers p v) (
      values_iff visit_param_or_header_schema (OfParameter P) parameter-Covers
        (p ++ ascii "headers" ∷ []) (child (ascii "headers") v))

  body_iff :
      (p : List Text) (o : Option Yaml)
      → Holds P (visit_body p o) ↔ ((w : Yaml) → o ≡ some w → OfContent P w)
  body_iff p none = option_iff visit_content_block (OfContent P) content-Covers p none
  body_iff p (some v) = option_iff visit_content_block (OfContent P) content-Covers p (some v)

  operation-Covers : Covers visit_operation (OfOperation P)
  unfolding visit_operation
  operation-Covers p v =
      both _ _ _ _
        (Sequence-iff visit_param_or_header_schema (OfParameter P) parameter-Covers
          (p ++ ascii "parameters" ∷ []) (child (ascii "parameters") v))
        (both _ _ _ _ (body_iff (p ++ ascii "requestBody" ∷ []) (child (ascii "requestBody") v)) (
          values_iff visit_response (OfResponse P) response-Covers (p ++ ascii "responses" ∷ [])
            (child (ascii "responses") v)))

  method_iff :
      (method : Text) (p : List Text) (v : Yaml)
      → Holds P
          (elim (child method v) [ none ↦ [] | some op ↦ visit_operation (p ++ method ∷ []) op ])
        ↔ At method (OfOperation P) v
  method_iff method p v =
      option_iff visit_operation (OfOperation P) operation-Covers (p ++ method ∷ [])
        (child method v)

  alone : (xs : List Visit) (R : Type 0) → Holds P xs ↔ R → Holds P (xs ++ []) ↔ R
  alone xs R f = ((λ h. f.0 (All-split_append _ xs [] h).0), (λ h. All-append _ xs [] (f.1 h) tt))

  path_item-Covers : Covers visit_path_item (OfPathItem P)
  unfolding visit_path_item
  path_item-Covers p v = both _ _ _ _ (method_iff (ascii "get") p v) (
      both _ _ _ _ (method_iff (ascii "put") p v) (
        both _ _ _ _ (method_iff (ascii "post") p v) (
          both _ _ _ _ (method_iff (ascii "delete") p v) (
            both _ _ _ _ (method_iff (ascii "options") p v) (
              both _ _ _ _ (method_iff (ascii "head") p v) (
                both _ _ _ _ (method_iff (ascii "patch") p v)
                  (alone _ _ (method_iff (ascii "trace") p v))))))))

  schemas_iff :
      (p : List Text) (o : Option Yaml)
      → Holds P (for_entries walk_schema p (entries_of (o >>= child (ascii "schemas"))))
        ↔ ((w : Yaml) → o ≡ some w → At (ascii "schemas") (Values (OfSchema P)) w)
  schemas_iff p none = ((λ h w e. absurd (cc e)), (λ h. tt))
  schemas_iff p (some v) = (
    (λ h w e.
        let same : v ≡ w = cc in
        subst (At (ascii "schemas") (Values (OfSchema P))) same (inner.0 h)),
    (λ h. inner.1 (h v refl)),
  )
    where
      inner :
          Holds P (for_entries walk_schema p (entries_of (child (ascii "schemas") v)))
          ↔ At (ascii "schemas") (Values (OfSchema P)) v
      inner = values_iff walk_schema (OfSchema P) (walk_schema_iff P) p (child (ascii "schemas") v)

  pub visit_schemas_iff : (root : Yaml) → Holds P (visit_schemas root) ↔ OfDocument P root
  unfolding visit_schemas
  visit_schemas_iff root =
      both _ _ _ _
        (schemas_iff (ascii "components" ∷ ascii "schemas" ∷ []) (child (ascii "components") root))
        (values_iff visit_path_item (OfPathItem P) path_item-Covers (ascii "paths" ∷ [])
          (child (ascii "paths") root))
