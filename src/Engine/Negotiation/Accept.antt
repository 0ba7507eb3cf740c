-- ===== src/Engine/Negotiation/Accept.antt =====
-- Which media type is negotiated, and when none is.
use mathlib.Core.Path.{subst}
use chasm.Engine.Negotiation.{strip_media_params, strip_any_subtype, first, select_for_range}
use chasm.Text.{text_eq, starts_with, ascii, Text}
use chasm.Text.Laws.{text_eq_iff}
use chasm.Prelude.{
  ◌∙◌, find_first, Bool, true, false, Option, some, none, List, [], ◌∷◌, ◌++◌, ◌≡◌, refl, ◌⊎◌, inl,
  inr, All, Any, Bool-cases, Option-cases, arith,
}
use chasm.Prelude.{Any}

-- A range of the header covers a key: it is `*/*`, or the key's bare type, or `t/*` with a bare type
-- that begins with `t/`.
abbrev pub Covers : Text → Text → Type 0
Covers range key =
    (range ≡ ascii "*/*")
    ⊎ (strip_media_params key ≡ range)
    ⊎ ((t : Text) × (strip_any_subtype range ≡ some t)
        × (starts_with (strip_media_params key) (t ++ ascii "/") ≡ true))

find_first_sound :
    (p : Text → Bool) (P : Text → Type 0) (ks : List Text) (k : Text)
    → ((x : Text) → p x ≡ true → P x)
    → find_first p ks ≡ some k
    → P k × Any (λ x. x ≡ k) ks
find_first_sound p P [] k f e = cc
find_first_sound p P (x ∷ ks) k f e = elim (Bool-cases (p x)) [
  | inl q ↦ let i : x ≡ k = head (rw q at e) in (subst P i (f x q), inl i)
  | inr q ↦ let (h, m) = find_first_sound p P ks k f (rw q at e) in (h, inr m)
]
  where
    abbrev_some : Text → Option Text
    abbrev_some t = some t

    head : abbrev_some x ≡ abbrev_some k → x ≡ k
    head e = cc

find_first-eq-none :
    (p : Text → Bool) (ks : List Text) → find_first p ks ≡ none → All (λ k. p k ≡ false) ks
find_first-eq-none p [] e = tt
find_first-eq-none p (x ∷ ks) e = elim (Bool-cases (p x)) [
  | inl q ↦ absurd (ground (arith, q, e))
  | inr q ↦ (q, find_first-eq-none p ks (rw q at e))
]

-- A key that a range selects is one of the keys, and the range covers it.
pub select_for_range_sound :
    (keys : List Text) (range key : Text)
    → select_for_range keys range ≡ some key
    → Covers range key × Any (λ k. k ≡ key) keys
unfolding select_for_range
select_for_range_sound keys range key e = elim (Bool-cases (text_eq range (ascii "*/*"))) [
  | inl q ↦ (inl ((text_eq_iff _ _).0 q), first_sound keys (rw q at e))
  | inr q ↦ elim (Option-cases (find_first (λ k. text_eq (strip_media_params k) range) keys)) [
    | inr (k, p) ↦
        find_first_sound _ (Covers range) keys key (λ x h. inr (inl ((text_eq_iff _ _).0 h)))
          (p ∙ rw (q, p) at e)
    | inl p ↦ by_type (strip_any_subtype range) refl (rw (q, p) at e)
  ]
]
  where
    first_sound : (ks : List Text) → first ks ≡ some key → Any (λ k. k ≡ key) ks
    first_sound [] e = cc
    first_sound (k ∷ ks) e = inl cc

    by_type :
        (o : Option Text)
        → strip_any_subtype range ≡ o
        → (elim o as (λ _. Option Text) [
          | none ↦ none
          | some stripped ↦
              find_first (λ k. starts_with (strip_media_params k) (stripped ++ ascii "/")) keys
        ])
          ≡ some key
        → Covers range key × Any (λ k. k ≡ key) keys
    by_type none o e = cc
    by_type (some t) o e = find_first_sound _ (Covers range) keys key (λ x h. inr (inr (t, o, h))) e

-- No key is covered.
abbrev pub CoversNone : Text → List Text → Type 0
CoversNone range = All (λ key. ¬ Covers range key)

-- A range that selects nothing covers no key.
pub select_for_range-eq-none :
    (keys : List Text) (range : Text) → select_for_range keys range ≡ none → CoversNone range keys
unfolding select_for_range
select_for_range-eq-none keys range e = elim (Bool-cases (text_eq range (ascii "*/*"))) [
  | inl q ↦ no_keys keys (rw q at e)
  | inr q ↦ elim (Option-cases (find_first (λ k. text_eq (strip_media_params k) range) keys)) [
    | inr (k, p) ↦ absurd (ground (arith, q, p, e))
    | inl p ↦
        by_type q (strip_any_subtype range) refl (rw (q, p) at e) keys (find_first-eq-none _ keys p)
          (λ t o. find_first-eq-none _ keys (rw (q, p, o) at e))
  ]
]
  where
    no_keys : (ks : List Text) → first ks ≡ none → CoversNone range ks
    no_keys [] e = tt
    no_keys (k ∷ ks) e = cc

    by_type :
        text_eq range (ascii "*/*") ≡ false
        → (o : Option Text) → strip_any_subtype range ≡ o
        → (elim o as (λ _. Option Text) [
          | none ↦ none
          | some stripped ↦
              find_first (λ k. starts_with (strip_media_params k) (stripped ++ ascii "/")) keys
        ])
          ≡ none
        → (ks : List Text) → All (λ k. text_eq (strip_media_params k) range ≡ false) ks
        → ((t : Text)
            → strip_any_subtype range ≡ some t
            → All (λ k. starts_with (strip_media_params k) (t ++ ascii "/") ≡ false) ks)
        → CoversNone range ks
    by_type q o r e [] h f = tt
    by_type q o r e (k ∷ ks) (a, h) f =
        (not_covered k a (λ t s. (f t s).0), by_type q o r e ks h (λ t s. (f t s).1))
      where
        not_covered :
            (k : Text)
            → text_eq (strip_media_params k) range ≡ false
            → ((t : Text)
                → strip_any_subtype range ≡ some t
                → starts_with (strip_media_params k) (t ++ ascii "/") ≡ false)
            → ¬ Covers range k
        not_covered k a f (inl c) = let b = (text_eq_iff _ _).1 c in cc
        not_covered k a f (inr (inl c)) = let b = (text_eq_iff _ _).1 c in cc
        not_covered k a f (inr (inr (t, s, c))) = let b = f t s in cc
