-- ===== src/Router/Listed.antt =====
-- The members of the list behind the `Allow` header: pushed by name, sorted, equal neighbours removed.
use chasm.Router.Bases.{Member}
use chasm.Text.Laws.{text_eq_iff}
use chasm.Router.Methods.{text_le, sort_texts, listed, insert_sorted, dedup}
use chasm.Text.{text_eq, Text}
use chasm.Prelude.{
  ◌⊎◌, ◌≡◌, ◌∷◌, ◌∙◌, true, sym, refl, inr, inl, false, [], List, Bool-cases, Bool, Any, ◌++◌,
}

-- The names that are pushed.
unfoldable pub pick : List (Text × Bool) → List Text
pick [] = []
pick ((name, b) ∷ []) = listed b name
pick ((name, b) ∷ e ∷ t) = listed b name ++ pick (e ∷ t)

abbrev pub Picked : Text → List (Text × Bool) → Type 0
Picked m = Any (λ e. (e.1 ≡ true) × (e.0 ≡ m))

pub pick_sound : (m : Text) (t : List (Text × Bool)) → Member m (pick t) → Picked m t
unfolding pick
pick_sound m [] h = h
pick_sound m ((name, true) ∷ []) (inl e) = inl (refl, e)
pick_sound m ((name, true) ∷ []) (inr h) = inr h
pick_sound m ((name, false) ∷ []) h = elim h [ ]
pick_sound m ((name, true) ∷ e ∷ t) (inl p) = inl (refl, p)
pick_sound m ((name, true) ∷ e ∷ t) (inr h) = inr (pick_sound m (e ∷ t) h)
pick_sound m ((name, false) ∷ e ∷ t) h = inr (pick_sound m (e ∷ t) h)

pub pick_complete : (m : Text) (t : List (Text × Bool)) → Picked m t → Member m (pick t)
unfolding pick
pick_complete m [] h = h
pick_complete m ((name, true) ∷ []) (inl (b, p)) = inl p
pick_complete m ((name, true) ∷ []) (inr h) = inr h
pick_complete m ((name, false) ∷ []) (inl (b, p)) = cc
pick_complete m ((name, false) ∷ []) (inr h) = h
pick_complete m ((name, true) ∷ e ∷ t) (inl (b, p)) = inl p
pick_complete m ((name, true) ∷ e ∷ t) (inr h) = inr (pick_complete m (e ∷ t) h)
pick_complete m ((name, false) ∷ e ∷ t) (inl (b, p)) = cc
pick_complete m ((name, false) ∷ e ∷ t) (inr h) = pick_complete m (e ∷ t) h

-- Sorting and the removal of equal neighbours keep the members.
insert_sorted_sound :
    (s m : Text) (ts : List Text) → Member m (insert_sorted s ts) → (s ≡ m) ⊎ Member m ts
unfolding insert_sorted
insert_sorted_sound s m [] (inl e) = inl e
insert_sorted_sound s m [] (inr x) = elim x [ ]
insert_sorted_sound s m (t ∷ ts) h = elim (Bool-cases (text_le s t)) [
  | inl q ↦ rw q at h
  | inr q ↦ go (insert_sorted_sound s m ts) (rw q at h)
]
  where
    go :
        (Member m (insert_sorted s ts) → (s ≡ m) ⊎ Member m ts)
        → Member m (t ∷ insert_sorted s ts)
        → (s ≡ m) ⊎ Member m (t ∷ ts)
    go f (inl e) = inr (inl e)
    go f (inr k) = elim (f k) [ inl e ↦ inl e | inr there ↦ inr (inr there) ]

insert_sorted_complete :
    (s m : Text) (ts : List Text) → (s ≡ m) ⊎ Member m ts → Member m (insert_sorted s ts)
unfolding insert_sorted
insert_sorted_complete s m [] (inl e) = inl e
insert_sorted_complete s m [] (inr k) = elim k [ ]
insert_sorted_complete s m (t ∷ ts) h = elim (Bool-cases (text_le s t)) [
  | inl q ↦ rw q h
  | inr q ↦ rw q (go (insert_sorted_complete s m ts) h)
]
  where
    go :
        ((s ≡ m) ⊎ Member m ts → Member m (insert_sorted s ts))
        → (s ≡ m) ⊎ Member m (t ∷ ts)
        → Member m (t ∷ insert_sorted s ts)
    go f (inl e) = inr (f (inl e))
    go f (inr (inl e)) = inl e
    go f (inr (inr k)) = inr (f (inr k))

pub sort_texts_sound : (m : Text) (ts : List Text) → Member m (sort_texts ts) → Member m ts
unfolding sort_texts
sort_texts_sound m [] h = h
sort_texts_sound m (t ∷ ts) h = elim (insert_sorted_sound t m (sort_texts ts) h) [
  | inl e ↦ inl e
  | inr k ↦ inr (sort_texts_sound m ts k)
]

pub sort_texts_complete : (m : Text) (ts : List Text) → Member m ts → Member m (sort_texts ts)
unfolding sort_texts
sort_texts_complete m [] h = h
sort_texts_complete m (t ∷ ts) (inl e) = insert_sorted_complete t m (sort_texts ts) (inl e)
sort_texts_complete m (t ∷ ts) (inr k) =
    insert_sorted_complete t m (sort_texts ts) (inr (sort_texts_complete m ts k))

pub dedup_sound : (m : Text) (ts : List Text) → Member m (dedup ts) → Member m ts
unfolding dedup
dedup_sound m [] h = h
dedup_sound m (s ∷ []) h = h
dedup_sound m (s ∷ t ∷ ts) h = elim (Bool-cases (text_eq s t)) [
  | inl q ↦ inr (dedup_sound m (t ∷ ts) (rw q at h))
  | inr q ↦ go (dedup_sound m (t ∷ ts)) (rw q at h)
]
  where
    go :
        (Member m (dedup (t ∷ ts)) → Member m (t ∷ ts))
        → Member m (s ∷ dedup (t ∷ ts))
        → Member m (s ∷ t ∷ ts)
    go f (inl e) = inl e
    go f (inr k) = inr (f k)

pub dedup_complete : (m : Text) (ts : List Text) → Member m ts → Member m (dedup ts)
unfolding dedup
dedup_complete m [] h = h
dedup_complete m (s ∷ []) h = h
dedup_complete m (s ∷ t ∷ ts) h = elim (Bool-cases (text_eq s t)) [
  | inl q ↦ rw q (dedup_complete m (t ∷ ts) (drop_head h ((text_eq_iff s t).0 q)))
  | inr q ↦ rw q (keep (dedup_complete m (t ∷ ts)) h)
]
  where
    drop_head : Member m (s ∷ t ∷ ts) → s ≡ t → Member m (t ∷ ts)
    drop_head (inl e) p = inl (sym p ∙ e)
    drop_head (inr k) p = k

    keep :
        (Member m (t ∷ ts) → Member m (dedup (t ∷ ts)))
        → Member m (s ∷ t ∷ ts)
        → Member m (s ∷ dedup (t ∷ ts))
    keep f (inl e) = inl e
    keep f (inr k) = inr (f k)
