-- ===== src/Loader/Places/Walks.antt =====
-- The schemas below a schema are those that the walk visits.
use chasm.Prelude.{
  ◌≡◌, ◌↔◌, ℕ, suc, Bool-cases, some, List, [], ◌∷◌, ◌++◌, All-append, inl, inr, refl,
}
use mathlib.Core.Path.{subst}
use chasm.Text.{Text, ascii, text_eq, decimal}
use chasm.Loader.Yaml.{
  Yaml, Items, Entries, string, sequence, mapping, nil, cons, end, entry, value_at,
}
use chasm.Loader.Pointers.{key_as_str}
use chasm.Loader.Schemas.{walk_schema, walk_named, walk_numbered, walk_each, walk_items}
use chasm.Loader.Places.{
  InEntries, InItems, IsValueIn, IsItemIn, IsChildOf, here, below, OfSchema, HasMappingKey,
  HasSequenceKey,
}
use chasm.Loader.Places.Parts.{mapping_only, Holds, under, Looks, Parts, close-Parts}
use chasm.Loader.Places.Found.{each_visited}

module _ (P : Yaml → Type 0) where
  -- Every walk of a schema visits only what stands in it.
  abbrev Claim : Yaml → Type 0
  Claim s = (p : List Text) → OfSchema P s → Holds P (walk_schema p s)

  -- The claim for a tree and for each tree in it.
  abbrev mutual
    Deep : Yaml → Type 0
    Deep (mapping es) = Claim (mapping es) × DeepEntries es
    Deep (sequence vs) = Claim (sequence vs) × DeepItems vs
    Deep v = Claim v × Unit {0}

    DeepEntries : Entries → Type 0
    DeepEntries end = Unit
    DeepEntries (entry k v es) = Deep v × DeepEntries es

    DeepItems : Items → Type 0
    DeepItems nil = Unit
    DeepItems (cons v vs) = Deep v × DeepItems vs

  claim : (v : Yaml) → Deep v → Claim v
  claim (mapping es) d = d.0
  claim (sequence vs) d = d.0
  claim v d = d.0

  Deep-value :
      (es : Entries) (key : Text) (v : Yaml) → value_at es key ≡ some v → DeepEntries es → Deep v
  unfolding value_at
  Deep-value end key v e d = absurd (cc e)
  Deep-value (entry (string j) w es) key v e d = elim (Bool-cases (text_eq j key)) [
    | inl y ↦ let q : some w ≡ some v = rw y at e in let same : w ≡ v = cc in subst Deep same d.0
    | inr n ↦ Deep-value es key v (rw n at e) d.1
  ]
  Deep-value (entry j w es) key v e d = Deep-value es key v e d.1

  all_entries :
      (p : List Text) (es : Entries)
      → DeepEntries es
      → ((t : Yaml) → InEntries t es → OfSchema P t)
      → Holds P (walk_each p es)
  unfolding walk_schema
  all_entries p end d h = tt
  all_entries p (entry k v es) d h =
      All-append _ (walk_schema (p ++ key_as_str k ∷ []) v) _ (claim v d.0 _ (h v (inl refl)))
        (all_entries p es d.1 (λ t i. h t (inr i)))

  all_items :
      (p : List Text) (n : ℕ) (vs : Items)
      → DeepItems vs
      → ((t : Yaml) → InItems t vs → OfSchema P t)
      → Holds P (walk_items p n vs)
  unfolding walk_schema
  all_items p n nil d h = tt
  all_items p n (cons v vs) d h =
      All-append _ (walk_schema (p ++ decimal n ∷ []) v) _ (claim v d.0 _ (h v (inl refl)))
        (all_items p (suc n) vs d.1 (λ t i. h t (inr i)))

  all_named :
      (p : List Text) (v : Yaml)
      → Deep v
      → ((t : Yaml) → IsValueIn t v → OfSchema P t)
      → Holds P (walk_named p v)
  unfolding walk_schema
  all_named p (mapping es) d h = all_entries p es d.1 h
  all_named p v d h = tt

  all_numbered :
      (p : List Text) (v : Yaml)
      → Deep v
      → ((t : Yaml) → IsItemIn t v → OfSchema P t)
      → Holds P (walk_numbered p v)
  unfolding walk_schema
  all_numbered p (sequence vs) d h = all_items p 0 vs d.1 h
  all_numbered p v d h = tt

  all_mapping :
      (p : List Text) (v : Yaml)
      → Deep v
      → ((ts : Entries) → v ≡ mapping ts → OfSchema P v)
      → Holds P (mapping_only p v)
  all_mapping p (mapping es) d h = claim (mapping es) d p (h es refl)
  all_mapping p v d h = tt

  all-Parts :
      (p : List Text) (es : Entries)
      → DeepEntries es
      → ((t : Yaml) → IsChildOf t (mapping es) → OfSchema P t)
      → Parts P p es
  all-Parts p es d h = (
    under P walk_named _ (value_at es (ascii "properties"))
        (λ v e. all_named _ v (Deep-value es _ v e d) (λ t i. h t (inl (v, e, i)))),
    mappings (ascii "additionalProperties") (inl refl),
    mappings (ascii "items") (inr refl),
    sequences (ascii "allOf") (inl refl),
    sequences (ascii "anyOf") (inr (inl refl)),
    sequences (ascii "oneOf") (inr (inr (inl refl))),
    sequences (ascii "prefixItems") (inr (inr (inr refl))),
    under P walk_schema _ (value_at es (ascii "not"))
        (λ v e. claim v (Deep-value es _ v e d) _ (h v (inr (inr (inr e))))),
  )
    where
      mappings : (key : Text) → HasMappingKey key → Looks P mapping_only p es key
      mappings key k = under P mapping_only _ (value_at es key) (λ v e.
          all_mapping _ v (Deep-value es _ v e d) (λ ts q. h v (inr (inl (key, ts, k, q, e)))))

      sequences : (key : Text) → HasSequenceKey key → Looks P walk_numbered p es key
      sequences key k = under P walk_numbered _ (value_at es key) (λ v e.
          all_numbered _ v (Deep-value es _ v e d) (λ t i. h t (inr (inr (inl (key, v, k, e, i))))))

  mutual
    unfolding walk_schema

    deep : (v : Yaml) → Deep v
    deep (mapping es) =
        let d = deep_entries es in
        (
          λ p h.
              close-Parts P p es (h (mapping es) here)
                (λ r. all-Parts p es d (λ t c u w. h u (below r c w))),
          d,
        )
    deep (sequence vs) = ((λ p h. (h (sequence vs) here, tt)), deep_items vs)
    deep v = ((λ p h. (h v here, tt)), tt)

    deep_entries : (es : Entries) → DeepEntries es
    deep_entries end = tt
    deep_entries (entry k v es) = (deep v, deep_entries es)

    deep_items : (vs : Items) → DeepItems vs
    deep_items nil = tt
    deep_items (cons v vs) = (deep v, deep_items vs)

  pub walk_schema_iff : (p : List Text) (s : Yaml) → Holds P (walk_schema p s) ↔ OfSchema P s
  walk_schema_iff p s = ((λ h u w. each_visited P s u w p h), claim s (deep s) p)
