-- ===== src/Engine/Negotiation/Best.antt =====
-- Sorting the ranges of a header by quality, and the loop over them.
use chasm.Engine.Negotiation.Accept.{
  select_for_range_sound, select_for_range-eq-none, Covers, CoversNone,
}
use chasm.Engine.Negotiation.{
  parse_ranges, parse_accept_entry, select_for_range, Text, sort_ranges, insert_range, try_ranges,
  Quality,
}
use chasm.Prelude.{
  ◌∙◌, true, false, some, none, List, [], ◌∷◌, ◌≡◌, ◌⊎◌, inl, inr, All, Any, Bool-cases,
  Option-cases, arith,
}
use chasm.Prelude.{Any}

-- The comparison of the qualities above zero is a strict weak order; of others, such as NaN, nothing
-- is asked.
pub record IsOrder (quality : Quality) : Type 0 where
  pub asym :
      (a b : quality.F64)
      → quality.is_positive a ≡ true
      → quality.is_positive b ≡ true
      → quality.gt a b ≡ true
      → quality.gt b a ≡ false
  pub trans :
      (a b c : quality.F64)
      → quality.is_positive a ≡ true
      → quality.is_positive b ≡ true
      → quality.is_positive c ≡ true
      → quality.gt a b ≡ false
      → quality.gt b c ≡ false
      → quality.gt a c ≡ false

module _ (quality : Quality) where
  abbrev pub Ranges : Type 0
  Ranges = List (Text × quality.F64)

  -- Every quality is above zero.
  abbrev pub ArePositive : Ranges → Type 0
  ArePositive = All (λ e. quality.is_positive e.1 ≡ true)

  pub parse_ranges-ArePositive : (entries : List Text) → ArePositive (parse_ranges quality entries)
  unfolding parse_ranges
  parse_ranges-ArePositive [] = tt
  parse_ranges-ArePositive (entry ∷ entries) =
      elim (Option-cases (parse_accept_entry quality entry)) [
        | inl q ↦ rw (parse_ranges, q) (parse_ranges-ArePositive entries)
        | inr (e, q) ↦ elim (Bool-cases (quality.is_positive e.1)) [
          | inl p ↦ rw (parse_ranges, q, p) (p, parse_ranges-ArePositive entries)
          | inr p ↦ rw (parse_ranges, q, p) (parse_ranges-ArePositive entries)
        ]
      ]

  insert_range-All :
      (P : Text × quality.F64 → Type 0) (e : Text × quality.F64) (es : Ranges)
      → P e × All P es
      → All P (insert_range quality e es)
  unfolding insert_range
  insert_range-All P e [] h = h
  insert_range-All P e (f ∷ fs) (h, (g, hs)) = elim (Bool-cases (quality.gt f.1 e.1)) [
    | inl q ↦ rw q (g, insert_range-All P e fs (h, hs))
    | inr q ↦ rw q (h, (g, hs))
  ]

  insert_range-All_inverse :
      (P : Text × quality.F64 → Type 0) (e : Text × quality.F64) (es : Ranges)
      → All P (insert_range quality e es)
      → P e × All P es
  unfolding insert_range
  insert_range-All_inverse P e [] h = h
  insert_range-All_inverse P e (f ∷ fs) h = elim (Bool-cases (quality.gt f.1 e.1)) [
    | inl q ↦ behind (rw q at h) (insert_range-All_inverse P e fs)
    | inr q ↦ rw q at h
  ]
    where
      behind :
          All P (f ∷ insert_range quality e fs)
          → (All P (insert_range quality e fs) → P e × All P fs)
          → P e × All P (f ∷ fs)
      behind (g, hs) k = let (a, b) = k hs in (a, (g, b))

  insert_range-Any :
      (P : Text × quality.F64 → Type 0) (e : Text × quality.F64) (es : Ranges)
      → Any P (insert_range quality e es)
      → P e ⊎ Any P es
  unfolding insert_range
  insert_range-Any P e [] h = h
  insert_range-Any P e (f ∷ fs) h = elim (Bool-cases (quality.gt f.1 e.1)) [
    | inl q ↦ behind (rw q at h) (insert_range-Any P e fs)
    | inr q ↦ rw q at h
  ]
    where
      behind :
          Any P (f ∷ insert_range quality e fs)
          → (Any P (insert_range quality e fs) → P e ⊎ Any P fs)
          → P e ⊎ Any P (f ∷ fs)
      behind (inl g) k = inr (inl g)
      behind (inr hs) k = elim (k hs) [ inl a ↦ inl a | inr b ↦ inr (inr b) ]

  pub sort_ranges-All :
      (P : Text × quality.F64 → Type 0) (es : Ranges) → All P (sort_ranges quality es) → All P es
  unfolding sort_ranges
  sort_ranges-All P [] h = h
  sort_ranges-All P (e ∷ es) h =
      let (a, b) = insert_range-All_inverse P e (sort_ranges quality es) h in
      (a, sort_ranges-All P es b)

  pub sort_ranges-All_onto :
      (P : Text × quality.F64 → Type 0) (es : Ranges) → All P es → All P (sort_ranges quality es)
  unfolding sort_ranges
  sort_ranges-All_onto P [] h = h
  sort_ranges-All_onto P (e ∷ es) (a, b) =
      insert_range-All P e (sort_ranges quality es) (a, sort_ranges-All_onto P es b)

  pub sort_ranges-Any :
      (P : Text × quality.F64 → Type 0) (es : Ranges) → Any P (sort_ranges quality es) → Any P es
  unfolding sort_ranges
  sort_ranges-Any P [] h = h
  sort_ranges-Any P (e ∷ es) h = elim (insert_range-Any P e (sort_ranges quality es) h) [
    | inl a ↦ inl a
    | inr b ↦ inr (sort_ranges-Any P es b)
  ]

  -- No range of the list is above this one.
  abbrev Tops : Text × quality.F64 → Ranges → Type 0
  Tops e = All (λ f. quality.gt f.1 e.1 ≡ false)

  abbrev pub IsSorted : Ranges → Type 0
  IsSorted [] = Unit
  IsSorted (e ∷ es) = Tops e es × IsSorted es

  Tops-trans :
      IsOrder quality
      → (e f : Text × quality.F64) (es : Ranges) → quality.is_positive e.1 ≡ true
      → quality.is_positive f.1 ≡ true
      → ArePositive es
      → quality.gt f.1 e.1 ≡ false
      → Tops f es
      → Tops e es
  Tops-trans order e f [] pe pf p h t = tt
  Tops-trans order e f (g ∷ gs) pe pf (pg, p) h (a, t) =
      (order.trans g.1 f.1 e.1 pg pf pe a h, Tops-trans order e f gs pe pf p h t)

  insert_range-IsSorted :
      IsOrder quality
      → (e : Text × quality.F64) (es : Ranges) → quality.is_positive e.1 ≡ true
      → ArePositive es
      → IsSorted es
      → IsSorted (insert_range quality e es)
  unfolding insert_range
  insert_range-IsSorted order e [] pe p h = (tt, tt)
  insert_range-IsSorted order e (f ∷ fs) pe (pf, p) (t, h) =
      elim (Bool-cases (quality.gt f.1 e.1)) [
        | inl q ↦ rw q (
          insert_range-All (λ g. quality.gt g.1 f.1 ≡ false) e fs (order.asym f.1 e.1 pf pe q, t),
          insert_range-IsSorted order e fs pe p h,
        )
        | inr q ↦ rw q ((q, Tops-trans order e f fs pe pf p q t), (t, h))
      ]

  pub sort_ranges-IsSorted :
      IsOrder quality → (es : Ranges) → ArePositive es → IsSorted (sort_ranges quality es)
  unfolding sort_ranges
  sort_ranges-IsSorted order [] p = tt
  sort_ranges-IsSorted order (e ∷ es) (pe, p) =
      insert_range-IsSorted order e (sort_ranges quality es) pe
        (sort_ranges-All_onto (λ f. quality.is_positive f.1 ≡ true) es p)
        (sort_ranges-IsSorted order es p)

  -- A range that covers the key, where no range of a higher quality covers any.
  abbrev pub BestFor : List Text → Text → Ranges → Text × quality.F64 → Type 0
  BestFor keys key es e =
      Covers e.0 key × All (λ f. quality.gt f.1 e.1 ≡ true → CoversNone f.0 keys) es

  pub Any-map :
      (P Q : Text × quality.F64 → Type 0) (es : Ranges)
      → ((e : Text × quality.F64) → P e → Q e)
      → Any P es
      → Any Q es
  Any-map P Q [] f h = h
  Any-map P Q (e ∷ es) f (inl h) = inl (f e h)
  Any-map P Q (e ∷ es) f (inr h) = inr (Any-map P Q es f h)

  Tops-BestFor :
      (keys : List Text) (e : Text × quality.F64) (es : Ranges)
      → Tops e es
      → All (λ f. quality.gt f.1 e.1 ≡ true → CoversNone f.0 keys) es
  Tops-BestFor keys e [] t = tt
  Tops-BestFor keys e (f ∷ fs) (a, t) = ((λ b. cc), Tops-BestFor keys e fs t)

  pub try_ranges_sound :
      IsOrder quality
      → (keys : List Text) (es : Ranges) (key : Text) → ArePositive es
      → IsSorted es
      → try_ranges quality keys es ≡ some key
      → Any (BestFor keys key es) es × Any (λ k. k ≡ key) keys
  unfolding try_ranges
  try_ranges_sound order keys [] key p s h = cc
  try_ranges_sound order keys (e ∷ es) key (pe, p) (t, s) h =
      elim (Option-cases (select_for_range keys e.0)) [
        | inr (k, q) ↦ here (select_for_range_sound keys e.0 key (q ∙ rw (try_ranges, q) at h))
        | inl q ↦ later q (try_ranges_sound order keys es key p s (rw (try_ranges, q) at h))
      ]
    where
      self : quality.gt e.1 e.1 ≡ true → CoversNone e.0 keys
      self b = let c = order.asym e.1 e.1 pe pe b in cc

      here :
          Covers e.0 key × Any (λ k. k ≡ key) keys
          → Any (BestFor keys key (e ∷ es)) (e ∷ es) × Any (λ k. k ≡ key) keys
      here (c, m) = (inl (c, (self, Tops-BestFor keys e es t)), m)

      later :
          select_for_range keys e.0 ≡ none
          → Any (BestFor keys key es) es × Any (λ k. k ≡ key) keys
          → Any (BestFor keys key (e ∷ es)) (e ∷ es) × Any (λ k. k ≡ key) keys
      later q (b, m) = (
        inr (
            Any-map (BestFor keys key es) (BestFor keys key (e ∷ es)) es
              (λ f p. (p.0, ((λ g. select_for_range-eq-none keys e.0 q), p.1))) b),
        m,
      )

  pub try_ranges-eq-none :
      (keys : List Text) (es : Ranges)
      → try_ranges quality keys es ≡ none
      → All (λ e. CoversNone e.0 keys) es
  unfolding try_ranges
  try_ranges-eq-none keys [] h = tt
  try_ranges-eq-none keys (e ∷ es) h = elim (Option-cases (select_for_range keys e.0)) [
    | inr (k, q) ↦ absurd (ground (arith, q, h))
    | inl q ↦
        (select_for_range-eq-none keys e.0 q, try_ranges-eq-none keys es (rw (try_ranges, q) at h))
  ]
