-- ===== src/Engine/Status/Lowest.antt =====
-- The lowest success code of an operation.
use chasm.Prelude.Maybe.{>>=-eq-some}
use mathlib.Core.Path.{subst}
use chasm.OpenApi.{Spec}
use chasm.Engine.Status.{
  ◌>>=◌, resolved, lowest_2xx_response, range, scan_2xx, code, is_lower, resolve_response_ref,
  Response, ReferenceOr, StatusCode, Operation,
}
use chasm.Prelude.{
  ◌==◌, ◌∙◌, ltb, ◌<◌, leb, ◌≤◌, ℕ, true, false, ◌&&◌, Option, some, none, List, [], ◌∷◌, ◌≡◌, refl,
  sym, ap, ◌⊎◌, inl, inr, All, Any, Bool-cases, Option-cases, arith,
}
use chasm.Prelude.{Any}

-- A success code.
abbrev pub IsSuccess : ℕ → Type 0
IsSuccess n = (200 ≤ n) × (n < 300)

abbrev pub Declares :
    StatusCode → ReferenceOr Response → List (StatusCode × ReferenceOr Response) → Type 0
Declares k r = Any (λ e. (e.0 ≡ k) × (e.1 ≡ r))

-- No success code among the definitions is below this one.
abbrev pub NoneBelow : ℕ → List (StatusCode × ReferenceOr Response) → Type 0
NoneBelow n = All (λ e. (m : ℕ) → e.0 ≡ code m → IsSuccess m → n ≤ m)

abbrev entry : ℕ → ReferenceOr Response → Option (ℕ × ReferenceOr Response)
entry n r = some (n, r)

-- What the loop's lowest code is, from any start.
abbrev Found :
    List (StatusCode × ReferenceOr Response)
    → Option (ℕ × ReferenceOr Response)
    → ℕ
    → ReferenceOr Response
    → Type 0
Found rs best n r =
    ((best ≡ entry n r) ⊎ (IsSuccess n × Declares (code n) r rs))
    × NoneBelow n rs
    × ((m : ℕ) (r' : ReferenceOr Response) → best ≡ entry m r' → n ≤ m)

code-inj : (m n : ℕ) → code m ≡ code n → m ≡ n
code-inj m n e = cc

taken :
    (k : ℕ) (q : ReferenceOr Response) (rs : List (StatusCode × ReferenceOr Response))
    (best : Option (ℕ × ReferenceOr Response)) (n : ℕ) (r : ReferenceOr Response)
    → (leb 200 k && ltb k 300 && is_lower best k) ≡ true
    → Found rs (entry k q) n r
    → Found ((code k, q) ∷ rs) best n r
unfolding is_lower
taken k q rs best n r h (m, below, le) = (origin m, (λ j e s. head j e, below), bound best h)
  where
    head : (j : ℕ) → code k ≡ code j → n ≤ j
    head j e = let p = le k q refl in let i = code-inj k j e in omega (arith, p, i)

    origin :
        (entry k q ≡ entry n r) ⊎ (IsSuccess n × Declares (code n) r rs)
        → (best ≡ entry n r) ⊎ (IsSuccess n × Declares (code n) r ((code k, q) ∷ rs))
    origin (inl e) =
        let i : k ≡ n = cc in
        let j : q ≡ r = cc in
        let s : IsSuccess k = ground (arith, h) in inr (subst IsSuccess i s, inl (ap code i, j))
    origin (inr (s, d)) = inr (s, inr d)

    bound :
        (b : Option (ℕ × ReferenceOr Response))
        → (leb 200 k && ltb k 300 && is_lower b k) ≡ true
        → (m : ℕ) (r' : ReferenceOr Response) → b ≡ entry m r'
        → n ≤ m
    bound none h m r' e = cc
    bound (some (j, r'')) h m r' e =
        let i : j ≡ m = cc in let p = le k q refl in ground (arith, h, i, p)

left :
    (k : ℕ) (q : ReferenceOr Response) (rs : List (StatusCode × ReferenceOr Response))
    (best : Option (ℕ × ReferenceOr Response)) (n : ℕ) (r : ReferenceOr Response)
    → (leb 200 k && ltb k 300 && is_lower best k) ≡ false
    → Found rs best n r
    → Found ((code k, q) ∷ rs) best n r
unfolding is_lower
left k q rs best n r h (m, below, le) = (origin m, (λ j e s. head best h le j e s, below), le)
  where
    origin :
        (best ≡ entry n r) ⊎ (IsSuccess n × Declares (code n) r rs)
        → (best ≡ entry n r) ⊎ (IsSuccess n × Declares (code n) r ((code k, q) ∷ rs))
    origin (inl e) = inl e
    origin (inr (s, d)) = inr (s, inr d)

    head :
        (b : Option (ℕ × ReferenceOr Response))
        → (leb 200 k && ltb k 300 && is_lower b k) ≡ false
        → ((m : ℕ) (r' : ReferenceOr Response) → b ≡ entry m r' → n ≤ m)
        → (j : ℕ) → code k ≡ code j
        → IsSuccess j
        → n ≤ j
    head none h f j e (lo, hi) = let i = code-inj k j e in absurd (ground (arith, h, i, lo, hi))
    head (some (m, r')) h f j e (lo, hi) =
        let i = code-inj k j e in let p = f m r' refl in ground (arith, h, i, lo, hi, p)

-- The lowest success code that the loop finds is declared, and no declared one is below it.
scan_2xx_sound :
    (rs : List (StatusCode × ReferenceOr Response)) (best : Option (ℕ × ReferenceOr Response))
    (rng : Option (ReferenceOr Response)) (n : ℕ) (r : ReferenceOr Response)
    → (scan_2xx rs best rng).0 ≡ some (n, r)
    → Found rs best n r
unfolding scan_2xx
scan_2xx_sound [] best rng n r e = (inl e, tt, λ m r' p. go m r' (sym e ∙ p))
  where
    go : (m : ℕ) (r' : ReferenceOr Response) → entry n r ≡ entry m r' → n ≤ m
    go m r' p = let i : n ≡ m = cc in omega (arith, i)
scan_2xx_sound ((code k, q) ∷ rs) best rng n r e =
    elim (Bool-cases (leb 200 k && ltb k 300 && is_lower best k)) [
      | inl h ↦
          taken k q rs best n r h (scan_2xx_sound rs (some (k, q)) rng n r (rw (scan_2xx, h) at e))
      | inr h ↦ left k q rs best n r h (scan_2xx_sound rs best rng n r (rw (scan_2xx, h) at e))
    ]
scan_2xx_sound ((range k, q) ∷ rs) best rng n r e = go (scan_2xx_sound rs best _ n r e)
  where
    go : Found rs best n r → Found ((range k, q) ∷ rs) best n r
    go (inl p, below, le) = (inl p, (λ m e s. cc, below), le)
    go (inr (s, d), below, le) = (inr (s, inr d), (λ m e s. cc, below), le)

-- A `2XX` range that the loop finds is declared.
scan_2xx-range :
    (rs : List (StatusCode × ReferenceOr Response)) (best : Option (ℕ × ReferenceOr Response))
    (rng : Option (ReferenceOr Response)) (r : ReferenceOr Response)
    → (scan_2xx rs best rng).1 ≡ some r
    → (rng ≡ some r) ⊎ Declares (range 2) r rs
unfolding scan_2xx
scan_2xx-range [] best rng r e = inl e
scan_2xx-range ((code k, q) ∷ rs) best rng r e = elim (scan_2xx-range rs _ rng r e) [
  | inl p ↦ inl p
  | inr d ↦ inr (inr d)
]
scan_2xx-range ((range k, q) ∷ rs) best rng r e = elim (Bool-cases (k == 2)) [
  | inl h ↦ go h (scan_2xx-range rs best (some q) r (rw (scan_2xx, h) at e))
  | inr h ↦ later (scan_2xx-range rs best rng r (rw (scan_2xx, h) at e))
]
  where
    later :
        (rng ≡ some r) ⊎ Declares (range 2) r rs
        → (rng ≡ some r) ⊎ Declares (range 2) r ((range k, q) ∷ rs)
    later (inl p) = inl p
    later (inr d) = inr (inr d)

    go :
        (k == 2) ≡ true
        → (some q ≡ some r) ⊎ Declares (range 2) r rs
        → (rng ≡ some r) ⊎ Declares (range 2) r ((range k, q) ∷ rs)
    go h (inl p) = let i : k ≡ 2 = ground (arith, h) in inr (inl (ap range i, cc))
    go h (inr d) = inr (inr d)

-- The response is defined under the status, the lowest of the success codes that are declared, or
-- under the range `2XX` with the status 200.
abbrev pub LowestSuccess : Spec → Operation → ℕ → Response → Type 0
LowestSuccess spec op n resp =
    (r : ReferenceOr Response) × (resolve_response_ref spec r ≡ some resp)
    × ((IsSuccess n
          × Declares (code n) r op.responses.responses
          × NoneBelow n op.responses.responses)
        ⊎ ((n ≡ 200) × Declares (range 2) r op.responses.responses))

resolved-eq-some :
    (spec : Spec) (n m : ℕ) (r : ReferenceOr Response) (resp : Response)
    → resolved spec n r ≡ some (m, resp)
    → (n ≡ m) × (resolve_response_ref spec r ≡ some resp)
resolved-eq-some spec n m r resp e =
    let (t, q, p) = >>=-eq-some (resolve_response_ref spec r) (λ t. some (n, t)) e in
    let i : t ≡ resp = cc in (cc, q ∙ ap some i)

-- A status found among the success codes is the lowest that is declared, or 200 for the range `2XX`.
pub lowest_2xx_response-LowestSuccess :
    (spec : Spec) (op : Operation) (n : ℕ) (resp : Response)
    → lowest_2xx_response spec op ≡ some (n, resp)
    → LowestSuccess spec op n resp
unfolding lowest_2xx_response
lowest_2xx_response-LowestSuccess spec op n resp e =
    go (scan_2xx op.responses.responses none none).0 (scan_2xx op.responses.responses none none).1
      refl refl e
  where
    by_range :
        (o : Option (ReferenceOr Response))
        → (scan_2xx op.responses.responses none none).1 ≡ o
        → (o >>= resolved spec 200) ≡ some (n, resp)
        → LowestSuccess spec op n resp
    by_range none q e = cc
    by_range (some r) q e = elim (scan_2xx-range op.responses.responses none none r q) [
      | inl p ↦ cc
      | inr d ↦ let (i, j) = resolved-eq-some spec 200 n r resp e in (r, j, inr (sym i, d))
    ]

    by_code :
        (m : ℕ) (r : ReferenceOr Response)
        → Found op.responses.responses none m r
        → (m ≡ n) × (resolve_response_ref spec r ≡ some resp)
        → LowestSuccess spec op n resp
    by_code m r (inl p, below, le) k = cc
    by_code m r (inr (s, d), below, le) (i, j) =
        subst (λ n. LowestSuccess spec op n resp) i (r, j, inl (s, d, below))

    go :
        (o : Option (ℕ × ReferenceOr Response)) (g : Option (ReferenceOr Response))
        → (scan_2xx op.responses.responses none none).0 ≡ o
        → (scan_2xx op.responses.responses none none).1 ≡ g
        → (elim (o >>= (λ b. resolved spec b.0 b.1)) as (λ _. Option (ℕ × Response)) [
          | some hit ↦ some hit
          | none ↦ g >>= resolved spec 200
        ])
          ≡ some (n, resp)
        → LowestSuccess spec op n resp
    go none g q p e = by_range g p e
    go (some (m, r)) g q p e = elim (Option-cases (resolved spec m r)) [
      | inl k ↦ by_range g p (rw k at e)
      | inr (hit, k) ↦
          by_code m r (scan_2xx_sound op.responses.responses none none m r q)
            (resolved-eq-some spec m n r resp (k ∙ (rw k at e)))
    ]
