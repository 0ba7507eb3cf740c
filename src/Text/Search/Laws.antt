-- ===== src/Text/Search/Laws.antt =====
-- Lemmas about splitting.
use chasm.Prelude.{
  ℕ, ◌≡◌, ◌≢◌, refl, ◌∙◌, List, [], ◌∷◌, ◌++◌, arith, All, Bool-cases, ◌==◌, inl, inr, some,
  Option-cases,
}
use chasm.Text.Ascii.{Text}
use chasm.Text.Search.{split, before, join, cons_head, strip_prefix, split_once}

-- The text holds no byte `c`.
abbrev pub Lacks : ℕ → Text → Type 0
Lacks c = All (λ d. d ≢ c)

pub split-Lacks : (c : ℕ) (s : Text) → Lacks c s → split c s ≡ s ∷ []
unfolding split
split-Lacks c [] h = refl
split-Lacks c (d ∷ s) (p, h) = ground (arith, split-Lacks c s h)

pub before-Lacks : (c : ℕ) (s : Text) → Lacks c s → before c s ≡ s
unfolding before
before-Lacks c [] h = refl
before-Lacks c (d ∷ s) (p, h) = ground (arith, before-Lacks c s h)

-- The first piece of a split, with the others.
pub split-before : (c : ℕ) (s : Text) → (rest : List Text) × (split c s ≡ before c s ∷ rest)
unfolding split before
split-before c [] = ([], refl)
split-before c (d ∷ s) =
    let (rest, e) = split-before c s in
    elim (Bool-cases (d == c)) [ inl p ↦ (split c s, rw p) | inr p ↦ (rest, rw (p, e)) ]

cons_head-append :
    (d : ℕ) (ws vs : List Text) → ws ≢ [] → cons_head d (ws ++ vs) ≡ cons_head d ws ++ vs
cons_head-append d [] vs h = absurd (h refl)
cons_head-append d (w ∷ ws) vs h = refl

pub split-ne-nil : (c : ℕ) (s : Text) → split c s ≢ []
split-ne-nil c s e = let (rest, q) = split-before c s in cc

-- A separator between two texts splits them.
pub split-append : (c : ℕ) (s t : Text) → split c (s ++ c ∷ t) ≡ split c s ++ split c t
unfolding split
split-append c [] t = ground arith
split-append c (d ∷ s) t = elim (Bool-cases (d == c)) [
  | inl p ↦ rw (p, split-append c s t)
  | inr p ↦
      rw (p, split-append c s t) (cons_head-append d (split c s) (split c t) (split-ne-nil c s))
]

-- Splitting what was joined by one byte.
pub split-join :
    (c : ℕ) (w : Text) (ws : List Text)
    → All (Lacks c) (w ∷ ws)
    → split c (join (c ∷ []) (w ∷ ws)) ≡ w ∷ ws
unfolding join
split-join c w [] (h, _) = split-Lacks c w h
split-join c w (v ∷ ws) (h, k) =
    split-append c w (join (c ∷ []) (v ∷ ws)) ∙ rw (split-Lacks c w h, split-join c v ws k)

pub strip_prefix-append : (p s : Text) → strip_prefix (p ++ s) p ≡ some s
unfolding strip_prefix
strip_prefix-append [] s = unfold strip_prefix in refl
strip_prefix-append (c ∷ p) s = ground (arith, strip_prefix-append p s)

-- A prefix that is stripped stood in front.
pub strip_prefix_sound : (s p r : Text) → strip_prefix s p ≡ some r → s ≡ p ++ r
unfolding strip_prefix
strip_prefix_sound s [] r e = ground arith
strip_prefix_sound [] (d ∷ p) r e = cc
strip_prefix_sound (c ∷ s) (d ∷ p) r e = ground (arith, strip_prefix_sound s p r)

pub split_once_sound :
    (c : ℕ) (s name rest : Text) → split_once c s ≡ some (name, rest) → s ≡ name ++ c ∷ rest
unfolding split_once
split_once_sound c [] name rest e = cc
split_once_sound c (d ∷ s) name rest e = elim (Bool-cases (d == c)) [
  | inl q ↦
      let p : some ([], s) ≡ some (name, rest) = rw q at e in let same : d ≡ c = ground arith in cc
  | inr q ↦ elim (Option-cases (split_once c s)) [
    | inl n ↦ ground arith
    | inr ((name', rest'), n) ↦ let ih = split_once_sound c s name' rest' n in ground (arith, ih)
  ]
]

All-cons_head :
    (P : ℕ → Type 0) (d : ℕ) (ws : List Text) → P d → All (All P) ws → All (All P) (cons_head d ws)
All-cons_head P d [] p h = ((p, tt), tt)
All-cons_head P d (w ∷ ws) p (q, h) = ((p, q), h)

-- What holds of the bytes of a text holds of the bytes of its pieces.
pub All-split : (P : ℕ → Type 0) (c : ℕ) (s : Text) → All P s → All (All P) (split c s)
unfolding split
All-split P c [] h = (tt, tt)
All-split P c (d ∷ s) (p, h) = elim (Bool-cases (d == c)) [
  | inl e ↦ rw e (tt, All-split P c s h)
  | inr e ↦ rw e (All-cons_head P d (split c s) p (All-split P c s h))
]
