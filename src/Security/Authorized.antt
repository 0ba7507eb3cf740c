-- ===== src/Security/Authorized.antt =====
-- When `evaluate` lets a request through.
use mathlib.Core.Bool.{false≢true}
use chasm.Text.{Text}
use chasm.Security.{
  note_scheme, scan_start, scan_requirements, scan_names, refuse, note_declared, lookup_scheme,
  is_scheme_satisfied, evaluate, authorized, SecurityResult, Scan,
}
use chasm.OpenApi.{Spec, SecurityScheme, SecurityRequirement, Operation}
use chasm.Request.{MockRequest}
use chasm.Prelude.{
  if◌then◌else◌, ◌≡◌, ◌∷◌, ◌↔◌, true, some, refl, or, none, inr, inl, false, [], Option-cases,
  Option, List, Bool-cases, Bool, Any, All,
}

module _ (decode : Text → Option Text) (spec : Spec) (req : MockRequest) where
  -- The scheme of this name resolves, and the request satisfies it.
  abbrev pub IsSatisfied : Text → Type 0
  IsSatisfied name =
      (scheme : SecurityScheme) × (lookup_scheme spec name ≡ some scheme)
      × (is_scheme_satisfied decode scheme req ≡ true)

  -- No requirement is declared, or every scheme of one of them is satisfied.
  abbrev pub IsAuthorized : Option (List SecurityRequirement) → Type 0
  IsAuthorized none = Unit
  IsAuthorized (some []) = Unit
  IsAuthorized (some (r ∷ rs)) = Any (All IsSatisfied) (r ∷ rs)

  pub scan_names-unknown :
      (name : Text) (names : List Text) (all : Bool) (st : Scan)
      → lookup_scheme spec name ≡ none
      → scan_names decode spec req (name ∷ names) all st
        ≡ scan_names decode spec req names false (note_declared name st)
  unfolding scan_names
  scan_names-unknown name names all st e = rw (e, scan_names)

  pub scan_names-known :
      (name : Text) (names : List Text) (all : Bool) (st : Scan) (s : SecurityScheme)
      → lookup_scheme spec name ≡ some s
      → scan_names decode spec req (name ∷ names) all st
        ≡ scan_names decode spec req names
            (if is_scheme_satisfied decode s req then all else false)
            (note_scheme s name (note_declared name st))
  unfolding scan_names
  scan_names-known name names all st s e = rw (e, scan_names)

  scan_names_sound :
      (names : List Text) (all : Bool) (st : Scan)
      → (scan_names decode spec req names all st).0 ≡ true
      → (all ≡ true) × All IsSatisfied names
  scan_names_sound [] all st h = (unfold scan_names in h, tt)
  scan_names_sound (name ∷ names) all st h = elim (Option-cases (lookup_scheme spec name)) [
    | inl e ↦
        let p = scan_names_sound names false _ (rw (scan_names-unknown name names all st e) at h) in
        absurd (false≢true p.0)
    | inr (s, e) ↦
        let p = scan_names_sound names _ _ (rw (scan_names-known name names all st s e) at h) in
        elim (Bool-cases (is_scheme_satisfied decode s req)) [
          | inl q ↦ (rw q at p.0, ((s, e, q), p.1))
          | inr q ↦ absurd (false≢true (rw q at p.0))
        ]
  ]

  scan_names_complete :
      (names : List Text) (st : Scan)
      → All IsSatisfied names
      → (scan_names decode spec req names true st).0 ≡ true
  scan_names_complete [] st h = unfold scan_names in refl
  scan_names_complete (name ∷ names) st ((s, e, q), h) =
      rw (scan_names-known name names true st s e, q) (scan_names_complete names _ h)

  scan_requirements_sound :
      (rs : List SecurityRequirement) (st : Scan)
      → scan_requirements decode spec req rs st ≡ authorized
      → Any (All IsSatisfied) rs
  unfolding scan_requirements
  scan_requirements_sound [] st h = unfold refuse in cc
  scan_requirements_sound ([] ∷ rs) st h = inl tt
  scan_requirements_sound ((n ∷ ns) ∷ rs) st h =
      let (all, st') = scan_names decode spec req (n ∷ ns) true st in
      elim (Bool-cases all) [
        | inl e ↦ inl (scan_names_sound (n ∷ ns) true st e).1
        | inr e ↦ inr (scan_requirements_sound rs st' (rw e at h))
      ]

  scan_requirements_complete :
      (rs : List SecurityRequirement) (st : Scan)
      → Any (All IsSatisfied) rs
      → scan_requirements decode spec req rs st ≡ authorized
  unfolding scan_requirements
  scan_requirements_complete [] st h = elim h [ ]
  scan_requirements_complete ([] ∷ rs) st h = refl
  scan_requirements_complete ((n ∷ ns) ∷ rs) st (inl h) = rw (scan_names_complete (n ∷ ns) st h)
  scan_requirements_complete ((n ∷ ns) ∷ rs) st (inr h) =
      let (all, st') = scan_names decode spec req (n ∷ ns) true st in
      elim (Bool-cases all) [ inl e ↦ rw e | inr e ↦ rw e (scan_requirements_complete rs st' h) ]

  -- A request is authorised exactly when the effective requirements (the operation's, or else the
  -- document's) are absent or empty, or every scheme of some requirement resolves and is satisfied.
  pub evaluate-eq-authorized_iff :
      (op : Operation)
      → (evaluate decode spec req op ≡ authorized) ↔ IsAuthorized (or op.security spec.security)
  unfolding evaluate
  evaluate-eq-authorized_iff op = go (or op.security spec.security)
    where
      go :
          (o : Option (List SecurityRequirement))
          → (elim o as (λ _. SecurityResult) [
            | none ↦ authorized
            | some [] ↦ authorized
            | some (r ∷ rs) ↦ scan_requirements decode spec req (r ∷ rs) scan_start
          ]
              ≡ authorized)
            ↔ IsAuthorized o
      go none = ((λ _. tt), (λ _. refl))
      go (some []) = ((λ _. tt), (λ _. refl))
      go (some (r ∷ rs)) = (
        scan_requirements_sound (r ∷ rs) scan_start,
        scan_requirements_complete (r ∷ rs) scan_start,
      )
