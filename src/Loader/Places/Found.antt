-- ===== src/Loader/Places/Found.antt =====
-- What a walk of a schema visits, found by the schemas that stand in it.
use chasm.Prelude.{◌≡◌, sym, ℕ, suc, some, none, List, [], ◌∷◌, ◌++◌, inl, inr}
use mathlib.Core.Path.{subst}
use chasm.Text.{Text, ascii, decimal}
use chasm.Loader.Yaml.{Yaml, Items, Entries, sequence, mapping, nil, cons, end, entry, value_at}
use chasm.Loader.Pointers.{key_as_str}
use chasm.Loader.Schemas.{child, walk_schema, walk_named, walk_numbered, walk_each, walk_items}
use chasm.Loader.Places.References.{All-split_append}
use chasm.Loader.Places.{InEntries, InItems, IsValueIn, IsItemIn, IsChildOf, Within, here, below}
use chasm.Loader.Places.Parts.{mapping_only, Holds, found, Looks, Parts, open-Parts}

module _ (P : Yaml → Type 0) where
  -- A walk of a schema whose visits all hold.
  abbrev Walked : Yaml → Type 0
  Walked t = (p : List Text) × Holds P (walk_schema p t)

  each_entry :
      (p : List Text) (t : Yaml) (es : Entries)
      → InEntries t es
      → Holds P (walk_each p es)
      → Walked t
  unfolding walk_schema
  each_entry p t end i h = absurd i
  each_entry p t (entry k v es) (inl e) h = (
    p ++ key_as_str k ∷ [],
    subst (λ x. Holds P (walk_schema (p ++ key_as_str k ∷ []) x)) e
        (All-split_append _ (walk_schema (p ++ key_as_str k ∷ []) v) _ h).0,
  )
  each_entry p t (entry k v es) (inr i) h =
      each_entry p t es i (All-split_append _ (walk_schema (p ++ key_as_str k ∷ []) v) _ h).1

  each_item :
      (p : List Text) (n : ℕ) (t : Yaml) (vs : Items)
      → InItems t vs
      → Holds P (walk_items p n vs)
      → Walked t
  unfolding walk_schema
  each_item p n t nil i h = absurd i
  each_item p n t (cons v vs) (inl e) h = (
    p ++ decimal n ∷ [],
    subst (λ x. Holds P (walk_schema (p ++ decimal n ∷ []) x)) e
        (All-split_append _ (walk_schema (p ++ decimal n ∷ []) v) _ h).0,
  )
  each_item p n t (cons v vs) (inr i) h =
      each_item p (suc n) t vs i (All-split_append _ (walk_schema (p ++ decimal n ∷ []) v) _ h).1

  named : (p : List Text) (t v : Yaml) → IsValueIn t v → Holds P (walk_named p v) → Walked t
  unfolding walk_schema
  named p t (mapping es) i h = each_entry p t es i h
  named p t v i h = absurd i

  numbered : (p : List Text) (t v : Yaml) → IsItemIn t v → Holds P (walk_numbered p v) → Walked t
  unfolding walk_schema
  numbered p t (sequence vs) i h = each_item p 0 t vs i h
  numbered p t v i h = absurd i

  on_mapping :
      (p : List Text) (es ts : Entries) (key : Text) (t : Yaml)
      → t ≡ mapping ts
      → value_at es key ≡ some t
      → Looks P mapping_only p es key
      → Walked t
  on_mapping p es ts key t e l h =
      let q = found P mapping_only (p ++ key ∷ []) (value_at es key) t l h in
      let r : Holds P (walk_schema (p ++ key ∷ []) (mapping ts)) = rw e at q in
      (p ++ key ∷ [], subst (λ x. Holds P (walk_schema (p ++ key ∷ []) x)) (sym e) r)

  each_child :
      (t : Yaml) (p : List Text) (es : Entries) → IsChildOf t (mapping es) → Parts P p es → Walked t
  each_child t p es (inl (ps, l, i)) h =
      named _ t ps i (found P walk_named _ (value_at es (ascii "properties")) ps l h.0)
  each_child t p es (inr (inl (key, ts, k, e, l))) h = elim k [
    | inl q ↦ on_mapping p es ts (ascii "additionalProperties") t e (rw q at l) h.1
    | inr q ↦ on_mapping p es ts (ascii "items") t e (rw q at l) h.2
  ]
  each_child t p es (inr (inr (inl (key, vs, k, l, i)))) h = elim k [
    | inl q ↦
        numbered _ t vs i (found P walk_numbered _ (value_at es (ascii "allOf")) vs (rw q at l) h.3)
    | inr (inl q) ↦
        numbered _ t vs i (found P walk_numbered _ (value_at es (ascii "anyOf")) vs (rw q at l) h.4)
    | inr (inr (inl q)) ↦
        numbered _ t vs i (found P walk_numbered _ (value_at es (ascii "oneOf")) vs (rw q at l) h.5)
    | inr (inr (inr q)) ↦
        numbered _ t vs i
          (found P walk_numbered _ (value_at es (ascii "prefixItems")) vs (rw q at l) h.6)
  ]
  each_child t p es (inr (inr (inr l))) h =
      (p ++ ascii "not" ∷ [], found P walk_schema _ (value_at es (ascii "not")) t l h.7)

  root_holds : (p : List Text) (s : Yaml) → Holds P (walk_schema p s) → P s
  unfolding walk_schema
  root_holds p (mapping es) h = h.0
  root_holds p s h = h.0

  child_holds :
      (p : List Text) (s t : Yaml)
      → child (ascii "$ref") s ≡ none
      → IsChildOf t s
      → Holds P (walk_schema p s)
      → Walked t
  child_holds p (mapping es) t r c h = each_child t p es c ((open-Parts P p es h).1 r)
  child_holds p s t r (inl (ps, l, i)) h = absurd (cc l)
  child_holds p s t r (inr (inl (key, ts, k, e, l))) h = absurd (cc l)
  child_holds p s t r (inr (inr (inl (key, vs, k, l, i)))) h = absurd (cc l)
  child_holds p s t r (inr (inr (inr l))) h = absurd (cc l)

  pub each_visited : (s u : Yaml) → Within s u → (p : List Text) → Holds P (walk_schema p s) → P u
  each_visited s u here p h = root_holds p s h
  each_visited s u (below {t = t} r c w) p h =
      let (q, k) = child_holds p s t r c h in each_visited t u w q k
