-- ===== src/Text/Trim/Laws.antt =====
-- Lemmas about `trim`.
use mathlib.Core.List.{reverse-append, reverse, reverse-reverse}
use chasm.Prelude.{◌++◌, ℕ, zero, suc, ◌≤◌, ◌<◌, ◌≡◌, refl, [], ◌∷◌, arith, All, All-reverse}
use chasm.Text.Ascii.{Text}
use chasm.Text.Trim.{white_front, white_back, trim_by, trim}

-- A printable ASCII byte other than the space.
abbrev pub IsGraph : ℕ → Type 0
IsGraph c = (33 ≤ c) × (c < 127)

white_front-graph : (c : ℕ) (s : Text) → IsGraph c → white_front (c ∷ s) ≡ 0
unfolding white_front
white_front-graph c [] h = ground arith
white_front-graph c (d ∷ []) h = ground arith
white_front-graph c (d ∷ e ∷ s) h = ground arith

white_back-graph : (c : ℕ) (s : Text) → IsGraph c → white_back (c ∷ s) ≡ 0
unfolding white_back
white_back-graph c [] h = ground arith
white_back-graph c (d ∷ []) h = ground arith
white_back-graph c (d ∷ e ∷ s) h = ground arith

trim_by_front : (s : Text) → All IsGraph s → trim_by white_front 0 s ≡ s
unfolding trim_by
trim_by_front [] h = refl
trim_by_front (c ∷ s) (g, h) = ground (arith, white_front-graph c s g)

trim_by_back : (s : Text) → All IsGraph s → trim_by white_back 0 s ≡ s
unfolding trim_by
trim_by_back [] h = refl
trim_by_back (c ∷ s) (g, h) = ground (arith, white_back-graph c s g)

-- A text without blanks is its own trimming.
pub trim-graph : (s : Text) → All IsGraph s → trim s ≡ s
unfolding trim
trim-graph s h =
    rw (trim_by_front s h, trim_by_back (reverse s) (All-reverse IsGraph s h)) (reverse-reverse s)

module _ (P : ℕ → Type 0) where
  All-trim_by :
      (white : Text → ℕ) (pending : ℕ) (s : Text) → All P s → All P (trim_by white pending s)
  unfolding trim_by
  All-trim_by white pending [] h = tt
  All-trim_by white (suc pending) (c ∷ s) (p, h) = All-trim_by white pending s h
  All-trim_by white zero (c ∷ s) (p, h) = go (white (c ∷ s)) (λ k. All-trim_by white k s h)
    where
      go :
          (n : ℕ)
          → ((k : ℕ) → All P (trim_by white k s))
          → All P (elim n [ zero ↦ c ∷ s | suc k ↦ trim_by white k s ])
      go zero r = (p, h)
      go (suc k) r = r k

  -- Whatever holds of all bytes of a text holds of all bytes of its trimming.
  pub All-trim : (s : Text) → All P s → All P (trim s)
  unfolding trim
  All-trim s h =
      All-reverse P _ (All-trim_by white_back 0 _ (All-reverse P _ (All-trim_by white_front 0 s h)))

trim_by_front_edge : (c : ℕ) (s : Text) → IsGraph c → trim_by white_front 0 (c ∷ s) ≡ c ∷ s
unfolding trim_by
trim_by_front_edge c s g = ground (arith, white_front-graph c s g)

trim_by_back_edge : (c : ℕ) (s : Text) → IsGraph c → trim_by white_back 0 (c ∷ s) ≡ c ∷ s
unfolding trim_by
trim_by_back_edge c s g = ground (arith, white_back-graph c s g)

-- Blanks inside a text stay: only its first and last byte matter.
pub trim-edges :
    (a z : ℕ) (s : Text) → IsGraph a → IsGraph z → trim (a ∷ (s ++ z ∷ [])) ≡ a ∷ (s ++ z ∷ [])
unfolding trim
trim-edges a z s g h =
    rw
      (
        trim_by_front_edge a (s ++ z ∷ []) g,
        reverse-append (a ∷ s) (z ∷ []),
        trim_by_back_edge z (reverse (a ∷ s)) h,
        ← reverse-append (a ∷ s) (z ∷ []),
      )
      (reverse-reverse (a ∷ (s ++ z ∷ [])))
