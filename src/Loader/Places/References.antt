-- ===== src/Loader/Places/References.antt =====
-- The references of a document are those that the walk finds.
use chasm.Prelude.{
  ◌≡◌, ◌↔◌, Option, some, none, List, [], ◌∷◌, ◌++◌, All, All-append, inl, inr, refl,
}
use mathlib.Core.Path.{subst}
use chasm.Text.{Text, ascii}
use chasm.Loader.Yaml.{
  Yaml, Items, Entries, string, sequence, mapping, nil, cons, end, entry, value_at,
}
use chasm.Loader.Semantics.{own_ref, walk_for_refs, refs_of_entries, refs_of_items}
use chasm.Loader.Places.{Refers, own, in_value, in_item, InEntries, InItems}

pub All-split_append {ℓ} :
    {A : Type ℓ} (P : A → Type 0) (xs ys : List A) → All P (xs ++ ys) → All P xs × All P ys
All-split_append P [] ys h = (tt, h)
All-split_append P (x ∷ xs) ys (p, h) = let q = All-split_append P xs ys h in ((p, q.0), q.1)

module _ (P : Text → Type 0) where
  from_value :
      (w : Yaml) (es : Entries)
      → InEntries w es
      → All P (refs_of_entries es)
      → All P (walk_for_refs w)
  unfolding walk_for_refs
  from_value w end i h = absurd i
  from_value w (entry k v es) (inl e) h =
      subst (λ x. All P (walk_for_refs x)) e (All-split_append P (walk_for_refs v) _ h).0
  from_value w (entry k v es) (inr i) h =
      from_value w es i (All-split_append P (walk_for_refs v) _ h).1

  from_item :
      (w : Yaml) (vs : Items) → InItems w vs → All P (refs_of_items vs) → All P (walk_for_refs w)
  unfolding walk_for_refs
  from_item w nil i h = absurd i
  from_item w (cons v vs) (inl e) h =
      subst (λ x. All P (walk_for_refs x)) e (All-split_append P (walk_for_refs v) _ h).0
  from_item w (cons v vs) (inr i) h = from_item w vs i (All-split_append P (walk_for_refs v) _ h).1

  of_own : (t : Text) (o : Option Yaml) → o ≡ some (string t) → All P (own_ref o) → P t
  of_own t o e h = let q : All P (own_ref (some (string t))) = rw e at h in q.0

  each_found : (t : Text) (v : Yaml) → Refers t v → All P (walk_for_refs v) → P t
  unfolding walk_for_refs
  each_found t (mapping es) (own e) h =
      of_own t (value_at es (ascii "$ref")) e
        (All-split_append P (own_ref (value_at es (ascii "$ref"))) _ h).0
  each_found t (mapping es) (in_value {w = w} i r) h =
      each_found t w r
        (from_value w es i (All-split_append P (own_ref (value_at es (ascii "$ref"))) _ h).1)
  each_found t (sequence vs) (in_item {w = w} i r) h = each_found t w r (from_item w vs i h)
  each_found t v (own e) h = absurd (cc e)
  each_found t v (in_value i r) h = absurd i
  each_found t v (in_item i r) h = absurd i

  own_found : (o : Option Yaml) → ((t : Text) → o ≡ some (string t) → P t) → All P (own_ref o)
  own_found (some (string t)) h = (h t refl, tt)
  own_found none h = tt
  own_found (some v) h = tt

  mutual
    unfolding walk_for_refs

    walk_finds : (v : Yaml) → ((t : Text) → Refers t v → P t) → All P (walk_for_refs v)
    walk_finds (mapping es) h =
        All-append P (own_ref (value_at es (ascii "$ref"))) (refs_of_entries es)
          (own_found (value_at es (ascii "$ref")) (λ t e. h t (own e)))
          (entries_found es (λ w i t r. h t (in_value i r)))
    walk_finds (sequence vs) h = items_found vs (λ w i t r. h t (in_item i r))
    walk_finds v h = tt

    entries_found :
        (es : Entries)
        → ((w : Yaml) → InEntries w es → (t : Text) → Refers t w → P t)
        → All P (refs_of_entries es)
    entries_found end h = tt
    entries_found (entry k v es) h =
        All-append P (walk_for_refs v) (refs_of_entries es) (walk_finds v (h v (inl refl)))
          (entries_found es (λ w i. h w (inr i)))

    items_found :
        (vs : Items)
        → ((w : Yaml) → InItems w vs → (t : Text) → Refers t w → P t)
        → All P (refs_of_items vs)
    items_found nil h = tt
    items_found (cons v vs) h =
        All-append P (walk_for_refs v) (refs_of_items vs) (walk_finds v (h v (inl refl)))
          (items_found vs (λ w i. h w (inr i)))

  pub Refers-iff : (v : Yaml) → All P (walk_for_refs v) ↔ ((t : Text) → Refers t v → P t)
  Refers-iff v = ((λ h t r. each_found t v r h), walk_finds v)
