-- ===== src/Validation/Regex/Laws.antt =====
-- The cache answers as the compiler does, and stays within its capacity.
use mathlib.Core.Path.{ap₂}
use chasm.Text.Laws.{text_eq_iff}
use chasm.Prelude.{
  leb, sym, ap, ltb, suc, ◌≤◌, ◌≡◌, Option, some, List, [], ◌∷◌, length, All, refl, arith, inl, inr,
  Bool-cases, Option-cases, map,
}
use chasm.Text.{Text, get, insert, text_eq}
use chasm.Validation.Regex.{max_pattern_bytes, cached_regex, usable_regex, regex_cache_capacity}

module _ {R : Type 0} (compile : Text → Option R) where
  -- Every entry is what the compiler gives, and there are at most as many as the capacity.
  abbrev pub IsCoherent : List (Text × Option R) → Type 0
  IsCoherent cache = All (λ e. e.1 ≡ compile e.0) cache × length cache ≤ regex_cache_capacity

  -- The answers to patterns that are asked for one after the other, with the cache they leave.
  abbrev pub ask_all : List (Text × Option R) → List Text → List (Option R) × List (Text × Option R)
  ask_all cache [] = ([], cache)
  ask_all cache (p ∷ ps) =
      let one = cached_regex compile cache p in
      let rest = ask_all one.1 ps in (one.0 ∷ rest.0, rest.1)

  get-All :
      (cache : List (Text × Option R)) (p : Text) (r : Option R)
      → All (λ e. e.1 ≡ compile e.0) cache
      → get cache p ≡ some r
      → r ≡ compile p
  unfolding get
  get-All [] p r h e = absurd (ground arith)
  get-All ((q, s) ∷ cache) p r (h, hs) e = elim (Bool-cases (text_eq q p)) [
    | inl y ↦
        (let same : q ≡ p = (text_eq_iff q p).0 y in
          let p' : some s ≡ some r = rw y at e in let one : s ≡ r = cc in rw (← one, ← same) h)
    | inr n ↦ get-All cache p r hs (rw n at e)
  ]

  insert-All :
      (cache : List (Text × Option R)) (p : Text)
      → All (λ e. e.1 ≡ compile e.0) cache
      → All (λ e. e.1 ≡ compile e.0) (insert cache p (compile p))
  unfolding insert
  insert-All [] p h = (refl, tt)
  insert-All ((q, s) ∷ cache) p (h, hs) = elim (Bool-cases (text_eq q p)) [
    | inl y ↦ rw y (ap compile (sym ((text_eq_iff q p).0 y)), hs)
    | inr n ↦ rw n (h, insert-All cache p hs)
  ]

  length-insert :
      (cache : List (Text × Option R)) (p : Text) (r : Option R)
      → length (insert cache p r) ≤ suc (length cache)
  unfolding insert
  length-insert [] p r = omega arith
  length-insert ((q, s) ∷ cache) p r = ground (arith, length-insert cache p r)

  cached_regex-IsCoherent :
      (cache : List (Text × Option R)) (p : Text)
      → IsCoherent cache
      → ((cached_regex compile cache p).0 ≡ usable_regex compile p)
        × IsCoherent (cached_regex compile cache p).1
  unfolding cached_regex usable_regex insert
  cached_regex-IsCoherent cache p (h, hl) = elim (Bool-cases (ltb max_pattern_bytes (length p))) [
    | inl y ↦ rw y (refl, (h, hl))
    | inr n ↦ elim (Option-cases (get cache p)) [
      | inr (r, e) ↦ rw (n, cached_regex, e) (get-All cache p r h e, (h, hl))
      | inl e ↦ elim (Bool-cases (leb regex_cache_capacity (length cache))) [
        | inl full ↦ rw (n, cached_regex, e, full) (refl, (insert-All [] p tt, omega arith))
        | inr room ↦
            rw (n, cached_regex, e, room)
              (refl, (insert-All cache p h, ground (arith, length-insert cache p (compile p))))
      ]
    ]
  ]

  -- Whatever patterns are asked for, one after the other, from a cache whose entries are what the
  -- compiler gives and which is within its capacity, each answer is what the compiler gives, or
  -- none for a pattern that is too long, and the cache that is left is such a cache again.
  pub ask_all-IsCoherent :
      (cache : List (Text × Option R)) (ps : List Text)
      → IsCoherent cache
      → ((ask_all cache ps).0 ≡ map (usable_regex compile) ps) × IsCoherent (ask_all cache ps).1
  ask_all-IsCoherent cache [] c = (refl, c)
  ask_all-IsCoherent cache (p ∷ ps) c =
      let one = cached_regex-IsCoherent cache p c in
      let rest = ask_all-IsCoherent (cached_regex compile cache p).1 ps one.1 in
      (ap₂ (λ r rs. r ∷ rs) one.0 rest.0, rest.1)
