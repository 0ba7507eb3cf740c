-- ===== src/Engine/Status/Answers.antt =====
-- Which response a definition, a code and `default` stand for, and the lookups that find it.
use chasm.Prelude.{
  ◌↔◌, ◌⊎◌, ℕ, ◌+◌, ◌*◌, ◌/◌, ◌≤◌, ◌<◌, ◌≡◌, ◌≢◌, refl, true, Option, some, none, List, [], ◌∷◌,
  ◌++◌, arith, ==_iff,
}
use chasm.Prelude.Maybe.{◌>>=◌, >>=-eq-some}
use chasm.Prelude.Result.{Result, ok, err}
use chasm.Text.{Text, ascii, get, strip_prefix}
use chasm.Text.Search.Laws.{strip_prefix_sound, strip_prefix-append}
use chasm.OpenApi.{
  Spec, Components, Response, ReferenceOr, item, reference, StatusCode, code, range, Operation,
}
use chasm.Engine.Status.{
  ResolveError, no_response_for_code, resolve_response_ref, code_eq, response_at, default_response,
}

-- A definition stands for a response: it is it, or it names it among the components.
abbrev pub Denotes : Spec → ReferenceOr Response → Response → Type 0
Denotes spec (item r) resp = r ≡ resp
Denotes spec (reference s) resp =
    (name : Text) × (components : Components) × (s ≡ ascii "#/components/responses/" ++ name)
    × (spec.components ≡ some components)
    × (get components.responses name ≡ some (item resp))

-- The first definition under a key.
abbrev pub First :
    StatusCode → ReferenceOr Response → List (StatusCode × ReferenceOr Response) → Type 0
First k r [] = ⊥
First k r ((j, q) ∷ rs) = ((j ≡ k) × (q ≡ r)) ⊎ ((j ≢ k) × First k r rs)

abbrev pub Serves : Spec → Operation → StatusCode → Response → Type 0
Serves spec op k resp =
    (r : ReferenceOr Response) × First k r op.responses.responses × Denotes spec r resp

abbrev pub Default : Spec → Operation → Response → Type 0
Default spec op resp =
    (r : ReferenceOr Response) × (op.responses.default ≡ some r) × Denotes spec r resp

-- The family of a code: `4XX` for 400 to 499.
abbrev pub Family : Spec → Operation → ℕ → Response → Type 0
Family spec op n resp =
    (h : ℕ) × (h * 100 ≤ n) × (n < h * 100 + 100) × Serves spec op (range h) resp

-- The exact code comes before its family, and both before `default`.
abbrev pub Answers : Spec → Operation → ℕ → Response → Type 0
Answers spec op n resp =
    Serves spec op (code n) resp
    ⊎ (¬ ((r : Response) × Serves spec op (code n) r)
        × (Family spec op n resp
            ⊎ (¬ ((r : Response) × Family spec op n r) × Default spec op resp)))

-- What a request for a status comes to.
abbrev pub Outcome : Spec → Operation → ℕ → Result ResolveError (ℕ × Response) → Type 0
Outcome spec op n (ok (status, resp)) = (status ≡ n) × Answers spec op n resp
Outcome spec op n (err e) =
    (e ≡ no_response_for_code n) × ¬ ((resp : Response) × Answers spec op n resp)

resolve_iff :
    (spec : Spec) (r : ReferenceOr Response) (resp : Response)
    → (resolve_response_ref spec r ≡ some resp) ↔ Denotes spec r resp
unfolding resolve_response_ref
resolve_iff spec (item r) resp = ((λ e. cc), (λ e. cc))
resolve_iff spec (reference s) resp = (to, from)
  where
    target :
        (o : Option (ReferenceOr Response))
        → (o >>= λ t. elim t [ item r ↦ some r | reference _ ↦ none ]) ≡ some resp
        → o ≡ some (item resp)
    target none e = cc
    target (some (item r)) e = cc
    target (some (reference t)) e = cc

    to : resolve_response_ref spec (reference s) ≡ some resp → Denotes spec (reference s) resp
    to e =
        let (name, p, q) = >>=-eq-some (strip_prefix s (ascii "#/components/responses/")) _ e in
        let (components, c, t) = >>=-eq-some spec.components _ q in
        (
          name,
          components,
          strip_prefix_sound s _ name p,
          c,
          target (get components.responses name) t,
        )

    from : Denotes spec (reference s) resp → resolve_response_ref spec (reference s) ≡ some resp
    from (name, components, e, c, t) =
        rw (e, strip_prefix-append (ascii "#/components/responses/") name, c, t) refl

code_eq_iff : (j k : StatusCode) → (code_eq j k ≡ true) ↔ (j ≡ k)
code_eq_iff (code m) (code n) = ground (arith, ==_iff m n)
code_eq_iff (range m) (range n) = ground (arith, ==_iff m n)
code_eq_iff (code m) (range n) = ((λ e. cc), (λ e. cc))
code_eq_iff (range m) (code n) = ((λ e. cc), (λ e. cc))

response_at_iff :
    (rs : List (StatusCode × ReferenceOr Response)) (k : StatusCode) (r : ReferenceOr Response)
    → (response_at rs k ≡ some r) ↔ First k r rs
unfolding response_at
response_at_iff [] k r = ((λ e. cc), (λ h. absurd h))
response_at_iff ((j, q) ∷ rs) k r = ground (arith, code_eq_iff j k, response_at_iff rs k r)

pub Serves-iff :
    (spec : Spec) (op : Operation) (k : StatusCode) (resp : Response)
    → ((response_at op.responses.responses k >>= resolve_response_ref spec) ≡ some resp)
      ↔ Serves spec op k resp
Serves-iff spec op k resp = (to, from)
  where
    to :
        (response_at op.responses.responses k >>= resolve_response_ref spec) ≡ some resp
        → Serves spec op k resp
    to e =
        let (r, p, q) = >>=-eq-some (response_at op.responses.responses k) _ e in
        (r, (response_at_iff op.responses.responses k r).0 p, (resolve_iff spec r resp).0 q)

    from :
        Serves spec op k resp
        → (response_at op.responses.responses k >>= resolve_response_ref spec) ≡ some resp
    from (r, f, d) =
        rw ((response_at_iff op.responses.responses k r).1 f) ((resolve_iff spec r resp).1 d)

pub Default-iff :
    (spec : Spec) (op : Operation) (resp : Response)
    → (default_response spec op ≡ some resp) ↔ Default spec op resp
Default-iff spec op resp = (to, from)
  where
    to : default_response spec op ≡ some resp → Default spec op resp
    to e =
        let (r, p, q) = >>=-eq-some op.responses.default _ e in
        (r, p, (resolve_iff spec r resp).0 q)

    from : Default spec op resp → default_response spec op ≡ some resp
    from (r, p, d) = rw p ((resolve_iff spec r resp).1 d)

pub Family-iff :
    (spec : Spec) (op : Operation) (n : ℕ) (resp : Response)
    → ((response_at op.responses.responses (range (n / 100)) >>= resolve_response_ref spec)
        ≡ some resp)
      ↔ Family spec op n resp
Family-iff spec op n resp = (to, from)
  where
    to :
        (response_at op.responses.responses (range (n / 100)) >>= resolve_response_ref spec)
          ≡ some resp
        → Family spec op n resp
    to e = (n / 100, omega arith, omega arith, (Serves-iff spec op (range (n / 100)) resp).0 e)

    from :
        Family spec op n resp
        → (response_at op.responses.responses (range (n / 100)) >>= resolve_response_ref spec)
          ≡ some resp
    from (h, low, high, s) =
        let same : n / 100 ≡ h = omega (arith, low, high) in
        rw same ((Serves-iff spec op (range h) resp).1 s)

-- A description of what an option holds tells where it holds nothing.
pub none_iff {ℓ} :
    {A : Type ℓ} (o : Option A) (P : A → Type 0)
    → ((a : A) → (o ≡ some a) ↔ P a)
    → (o ≡ none) ↔ (¬ ((a : A) × P a))
none_iff none P h = ((λ e p. let q = (h p.0).1 p.1 in cc), (λ n. refl))
none_iff (some a) P h = ((λ e. cc), (λ n. absurd (n (a, (h a).0 refl))))
