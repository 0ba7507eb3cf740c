-- ===== src/Security/Report.antt =====
-- What `evaluate` reports when it refuses a request.
use chasm.Security.Authorized.{scan_names-known, scan_names-unknown}
use mathlib.Core.List.{head?}
use chasm.Text.{ascii, Text}
use chasm.OpenApi.{Operation, SecurityRequirement, SecurityScheme, Spec}
use chasm.Security.{
  authorized, SecurityResult, evaluate, unauthorized, refuse, scan_requirements, scan_names,
  note_scheme, www_authenticate_for, scan_start, note_declared, lookup_scheme, Scan,
}
use chasm.Request.{MockRequest}
use chasm.Prelude.{
  inr, inl, Bool-cases, true, Option-cases, append_assoc, append-nil, unwrap_or, refl, arith,
  if◌then◌else◌, or, ◌∷◌, [], ◌++◌, ◌≡◌, some, none, is_some, find_first, Option, List, Bool,
}

-- The names of all requirements, in order.
abbrev pub all_names : List SecurityRequirement → List Text
all_names [] = []
all_names (r ∷ rs) = r ++ all_names rs

module _ (decode : Text → Option Text) (spec : Spec) (req : MockRequest) where
  -- The name resolves to a scheme.
  abbrev pub is_known : Text → Bool
  is_known name = is_some (lookup_scheme spec name)

  -- The challenge of the first name that resolves.
  abbrev pub challenge_of : Option Text → Option Text
  challenge_of none = none
  challenge_of (some name) = elim (lookup_scheme spec name) [
    | none ↦ none
    | some scheme ↦ www_authenticate_for scheme name
  ]

  -- What the scan has noted when it has seen these names.
  pub record HasSeen (names : List Text) (st : Scan) : Type 0 where
    pub declared : st.first_declared_scheme ≡ head? names
    pub known : st.first_scheme ≡ find_first is_known names
    pub www : st.first_www_authenticate ≡ challenge_of (find_first is_known names)

  HasSeen-start : HasSeen [] scan_start
  HasSeen-start = record { declared = refl; known = refl; www = refl }

  head?-concat :
      (names : List Text) (name : Text) → head? (names ++ name ∷ []) ≡ or (head? names) (some name)
  head?-concat [] name = refl
  head?-concat (n ∷ names) name = refl

  find_first-concat :
      (names : List Text) (name : Text)
      → find_first is_known (names ++ name ∷ [])
        ≡ or (find_first is_known names) (if is_known name then some name else none)
  find_first-concat [] name = refl
  find_first-concat (n ∷ names) name = ground (arith, find_first-concat names name)

  module _ {seen : List Text} {st : Scan} (name : Text) (h : HasSeen seen st) where
    HasSeen-unknown :
        lookup_scheme spec name ≡ none → HasSeen (seen ++ name ∷ []) (note_declared name st)
    unfolding note_declared
    HasSeen-unknown e = record {
      declared = ground (arith, h.declared, head?-concat seen name);
      known = ground (arith, h.known, e, find_first-concat seen name);
      www = ground (arith, h.www, e, find_first-concat seen name);
    }

    HasSeen-known :
        (s : SecurityScheme)
        → lookup_scheme spec name ≡ some s
        → HasSeen (seen ++ name ∷ []) (note_scheme s name (note_declared name st))
    unfolding note_declared note_scheme
    HasSeen-known s e = record {
      declared = ground (arith, h.declared, head?-concat seen name);
      known = ground (arith, h.known, e, find_first-concat seen name);
      www = ground (arith, h.known, h.www, e, find_first-concat seen name);
    }

  scan_names-HasSeen :
      (names seen : List Text) (all : Bool) (st : Scan)
      → HasSeen seen st
      → HasSeen (seen ++ names) (scan_names decode spec req names all st).1
  scan_names-HasSeen [] seen all st h = rw (append-nil seen) (unfold scan_names in h)
  scan_names-HasSeen (name ∷ names) seen all st h =
      rw (← append_assoc seen (name ∷ []) names) (elim (Option-cases (lookup_scheme spec name)) [
        | inl e ↦
            rw (scan_names-unknown decode spec req name names all st e)
              (scan_names-HasSeen names (seen ++ name ∷ []) _ _ (HasSeen-unknown name h e))
        | inr (s, e) ↦
            rw (scan_names-known decode spec req name names all st s e)
              (scan_names-HasSeen names (seen ++ name ∷ []) _ _ (HasSeen-known name h s e))
      ])

  abbrev Reports : List Text → Text → Option Text → Type 0
  Reports names scheme www =
      (scheme ≡ unwrap_or (or (find_first is_known names) (head? names)) (ascii "unknown"))
      × (www ≡ challenge_of (find_first is_known names))

  scan_requirements-Reports :
      (rs : List SecurityRequirement) (seen : List Text) (st : Scan) (scheme : Text)
      (www : Option Text)
      → HasSeen seen st
      → scan_requirements decode spec req rs st ≡ unauthorized scheme www
      → Reports (seen ++ all_names rs) scheme www
  unfolding scan_requirements refuse
  scan_requirements-Reports [] seen st scheme www h e =
      rw (append-nil seen, ← h.declared) (ground (arith, e), ground (arith, e, h.known, h.www))
  scan_requirements-Reports ([] ∷ rs) seen st scheme www h e = cc
  scan_requirements-Reports ((n ∷ ns) ∷ rs) seen st scheme www h e =
      let p = scan_names-HasSeen (n ∷ ns) seen true st h in
      let (all, st') = scan_names decode spec req (n ∷ ns) true st in
      elim (Bool-cases all) [
        | inl q ↦ cc
        | inr q ↦
            rw (← append_assoc seen (n ∷ ns) (all_names rs))
              (scan_requirements-Reports rs (seen ++ n ∷ ns) st' scheme www p (rw q at e))
      ]

  -- A refusal names the first scheme of the effective requirements that resolves, or else the first
  -- that they name, of which there is one; and it carries the challenge of the one that resolves.
  pub evaluate-eq-unauthorized :
      (op : Operation) (scheme : Text) (www : Option Text)
      → evaluate decode spec req op ≡ unauthorized scheme www
      → (rs : List SecurityRequirement) × (or op.security spec.security ≡ some rs)
        × (or (find_first is_known (all_names rs)) (head? (all_names rs)) ≡ some scheme)
        × (www ≡ challenge_of (find_first is_known (all_names rs)))
  unfolding evaluate
  evaluate-eq-unauthorized op scheme www e = go (or op.security spec.security) refl e
    where
      go :
          (o : Option (List SecurityRequirement))
          → or op.security spec.security ≡ o
          → (elim o as (λ _. SecurityResult) [
            | none ↦ authorized
            | some [] ↦ authorized
            | some (r ∷ rs) ↦ scan_requirements decode spec req (r ∷ rs) scan_start
          ]
              ≡ unauthorized scheme www)
          → (rs : List SecurityRequirement) × (or op.security spec.security ≡ some rs)
            × (or (find_first is_known (all_names rs)) (head? (all_names rs)) ≡ some scheme)
            × (www ≡ challenge_of (find_first is_known (all_names rs)))
      go none q h = cc
      go (some []) q h = cc
      go (some ([] ∷ rs)) q h = unfold scan_requirements in cc
      go (some ((n ∷ ns) ∷ rs)) q h =
          let p =
            scan_requirements-Reports ((n ∷ ns) ∷ rs) [] scan_start scheme www HasSeen-start h in
          ((n ∷ ns) ∷ rs, q, ground (arith, p.0), p.1)
