-- ===== src/Engine/Status/Forced.antt =====
-- The response under a forced status.
use chasm.Prelude.{◌↔◌, ◌⊎◌, ℕ, ◌/◌, ◌≡◌, refl, Option, some, none, inl, inr}
use chasm.Prelude.Maybe.{◌>>=◌}
use chasm.Prelude.Result.{Result, ok, err}
use chasm.OpenApi.{Spec, Response, code, range, Operation}
use chasm.Engine.Config.{MockConfig}
use chasm.Engine.Status.{
  ResolveError, no_response_for_code, resolve_response_ref, response_at, find_response_for_code,
  default_response, resolve_status_and_response,
}
use chasm.Engine.Status.Answers.{
  Answers, Outcome, Serves, Family, Default, Serves-iff, Default-iff, Family-iff, none_iff,
}

-- The answer in terms of the three lookups.
choose_iff {ℓ} :
    {A : Type ℓ} (e f d : Option A) (P Q R : A → Type 0) (a : A)
    → ((x : A) → (e ≡ some x) ↔ P x)
    → ((x : A) → (f ≡ some x) ↔ Q x)
    → ((x : A) → (d ≡ some x) ↔ R x)
    → (elim e [ some x ↦ some x | none ↦ elim f [ some x ↦ some x | none ↦ d ] ] ≡ some a)
      ↔ (P a ⊎ (¬ ((x : A) × P x) × (Q a ⊎ (¬ ((x : A) × Q x) × R a))))
choose_iff (some b) f d P Q R a p q r = ((λ h. inl ((p a).0 h)), from)
  where
    from : (P a ⊎ (¬ ((x : _) × P x) × (Q a ⊎ (¬ ((x : _) × Q x) × R a)))) → some b ≡ some a
    from (inl h) = (p a).1 h
    from (inr (n, h)) = absurd (n (b, (p b).0 refl))
choose_iff none (some b) d P Q R a p q r =
    ((λ h. inr ((none_iff none P p).0 refl, inl ((q a).0 h))), from)
  where
    from : (P a ⊎ (¬ ((x : _) × P x) × (Q a ⊎ (¬ ((x : _) × Q x) × R a)))) → some b ≡ some a
    from (inl h) = let z = (p a).1 h in cc
    from (inr (n, inl h)) = (q a).1 h
    from (inr (n, inr (m, h))) = absurd (m (b, (q b).0 refl))
choose_iff none none d P Q R a p q r =
    ((λ h. inr ((none_iff none P p).0 refl, inr ((none_iff none Q q).0 refl, (r a).0 h))), from)
  where
    from : (P a ⊎ (¬ ((x : _) × P x) × (Q a ⊎ (¬ ((x : _) × Q x) × R a)))) → d ≡ some a
    from (inl h) = let z = (p a).1 h in cc
    from (inr (n, inl h)) = let z = (q a).1 h in cc
    from (inr (n, inr (m, h))) = (r a).1 h

-- What answers a forced code, if anything does.
abbrev chosen : Spec → Operation → ℕ → Option Response
chosen spec op n =
    elim (response_at op.responses.responses (code n) >>= resolve_response_ref spec) [
      | some x ↦ some x
      | none ↦
          elim (response_at op.responses.responses (range (n / 100))
            >>= resolve_response_ref spec) [ some x ↦ some x | none ↦ default_response spec op ]
    ]

chosen_iff :
    (spec : Spec) (op : Operation) (n : ℕ) (resp : Response)
    → (chosen spec op n ≡ some resp) ↔ Answers spec op n resp
chosen_iff spec op n resp =
    choose_iff (response_at op.responses.responses (code n) >>= resolve_response_ref spec)
      (response_at op.responses.responses (range (n / 100)) >>= resolve_response_ref spec)
      (default_response spec op) (Serves spec op (code n)) (Family spec op n) (Default spec op) resp
      (Serves-iff spec op (code n)) (Family-iff spec op n) (Default-iff spec op)

abbrev answered : ℕ → Option Response → Result ResolveError (ℕ × Response)
answered n none = err (no_response_for_code n)
answered n (some resp) = ok (n, resp)

resolve-eq-answered :
    (spec : Spec) (op : Operation) (cfg : MockConfig) (n : ℕ)
    → cfg.force_code ≡ some n
    → resolve_status_and_response spec op cfg ≡ answered n (chosen spec op n)
unfolding resolve_status_and_response find_response_for_code
resolve-eq-answered spec op cfg n h = rw h (
    go (response_at op.responses.responses (code n) >>= resolve_response_ref spec)
      (response_at op.responses.responses (range (n / 100)) >>= resolve_response_ref spec)
      (default_response spec op))
  where
    go :
        (e f d : Option Response)
        → (elim (elim e as (λ x. Option Response) [ some x ↦ some x | none ↦ f ])
            as (λ x. Result ResolveError (ℕ × Response)) [
              | some resp ↦ ok (n, resp)
              | none ↦ elim d [ some resp ↦ ok (n, resp) | none ↦ err (no_response_for_code n) ]
            ])
          ≡ answered n (elim e [ some x ↦ some x | none ↦ elim f [ some x ↦ some x | none ↦ d ] ])
    go (some x) f d = refl
    go none (some x) d = refl
    go none none (some x) = refl
    go none none none = refl

answered_iff :
    (spec : Spec) (op : Operation) (n : ℕ) (o : Option Response)
    (out : Result ResolveError (ℕ × Response))
    → ((resp : Response) → (o ≡ some resp) ↔ Answers spec op n resp)
    → (answered n o ≡ out) ↔ Outcome spec op n out
answered_iff spec op n (some r) (ok (status, resp)) h =
    ((λ e. (cc, (h resp).0 cc)), (λ p. let q = (h resp).1 p.1 in cc))
answered_iff spec op n none (ok (status, resp)) h = ((λ e. cc), (λ p. let q = (h resp).1 p.1 in cc))
answered_iff spec op n (some r) (err e) h = ((λ p. cc), (λ p. absurd (p.1 (r, (h r).0 refl))))
answered_iff spec op n none (err e) h =
    ((λ p. (cc, (none_iff none (Answers spec op n) h).0 refl)), (λ p. cc))

-- Where a status n is forced, the outcome is the status n with the response that the first
-- definition of the code n stands for; if there is none, that of the range h with
-- h * 100 ≤ n < h * 100 + 100; if there is none either, that of `default`; and the error that names n
-- exactly where none of the three stands for a response.
pub resolve_status_and_response-Outcome :
    (spec : Spec) (op : Operation) (cfg : MockConfig) (n : ℕ)
    (out : Result ResolveError (ℕ × Response))
    → cfg.force_code ≡ some n
    → (resolve_status_and_response spec op cfg ≡ out) ↔ Outcome spec op n out
resolve_status_and_response-Outcome spec op cfg n out h =
    rw (resolve-eq-answered spec op cfg n h)
      (answered_iff spec op n (chosen spec op n) out (chosen_iff spec op n))
