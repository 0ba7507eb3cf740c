-- ===== src/Engine/Status/Laws.antt =====
-- The status of a response: which definitions can serve, and in what order.
use chasm.Engine.Status.Lowest.{LowestSuccess, Declares, lowest_2xx_response-LowestSuccess}
use chasm.OpenApi.{Spec}
use chasm.Engine.Status.{
  no_responses, lowest_2xx_response, range, code, default_response, err, ResolveError,
  resolve_response_ref, Response, MockConfig, ReferenceOr, StatusCode, Operation, first_resolved,
  resolve_status_and_response,
}
use chasm.Prelude.{
  ◌↔◌, ℕ, some, none, List, [], ◌∷◌, ◌≡◌, ◌≢◌, refl, inl, inr, Any, Option-cases, arith,
}
use chasm.Prelude.{Any}

-- Some definition resolves.
abbrev pub Resolves : Spec → List (StatusCode × ReferenceOr Response) → Type 0
Resolves spec = Any (λ e. resolve_response_ref spec e.1 ≢ none)

first_resolved-eq-none :
    (spec : Spec) (rs : List (StatusCode × ReferenceOr Response))
    → first_resolved spec rs ≡ none
    → ¬ Resolves spec rs
unfolding first_resolved
first_resolved-eq-none spec [] e h = h
first_resolved-eq-none spec ((k, r) ∷ rs) e h = elim (Option-cases (resolve_response_ref spec r)) [
  | inr (resp, q) ↦ ground (arith, q, e)
  | inl q ↦ go (first_resolved-eq-none spec rs (rw (first_resolved, q) at e)) h q
]
  where
    go : ¬ Resolves spec rs → Resolves spec ((k, r) ∷ rs) → resolve_response_ref spec r ≡ none → ⊥
    go n (inl m) q = m q
    go n (inr m) q = n m

Resolves-none :
    (spec : Spec) (rs : List (StatusCode × ReferenceOr Response))
    → ¬ Resolves spec rs
    → first_resolved spec rs ≡ none
unfolding first_resolved
Resolves-none spec [] n = refl
Resolves-none spec ((k, r) ∷ rs) n = elim (Option-cases (resolve_response_ref spec r)) [
  | inr (resp, q) ↦ absurd (n (inl (λ p. cc)))
  | inl q ↦ rw (first_resolved, q) (Resolves-none spec rs (λ m. n (inr m)))
]

Declares-Resolves :
    (spec : Spec) (k : StatusCode) (r : ReferenceOr Response) (resp : Response)
    (rs : List (StatusCode × ReferenceOr Response))
    → resolve_response_ref spec r ≡ some resp
    → Declares k r rs
    → Resolves spec rs
Declares-Resolves spec k r resp [] h d = d
Declares-Resolves spec k r resp ((j, q) ∷ rs) h (inl (_, e)) = inl (λ p. cc)
Declares-Resolves spec k r resp ((j, q) ∷ rs) h (inr d) =
    inr (Declares-Resolves spec k r resp rs h d)

LowestSuccess-Resolves :
    (spec : Spec) (op : Operation) (n : ℕ) (resp : Response)
    → LowestSuccess spec op n resp
    → Resolves spec op.responses.responses
LowestSuccess-Resolves spec op n resp (r, h, inl (s, d, below)) =
    Declares-Resolves spec (code n) r resp op.responses.responses h d
LowestSuccess-Resolves spec op n resp (r, h, inr (e, d)) =
    Declares-Resolves spec (range 2) r resp op.responses.responses h d

-- Without a forced code a status is found whenever any definition can serve: the only error is that
-- none is there, exactly where neither `default` nor any other definition resolves.
pub resolve_status_and_response-error_iff :
    (spec : Spec) (op : Operation) (cfg : MockConfig) (e : ResolveError)
    → cfg.force_code ≡ none
    → (resolve_status_and_response spec op cfg ≡ err e)
      ↔ (e ≡ no_responses)
        × (default_response spec op ≡ none)
        × ¬ Resolves spec op.responses.responses
unfolding resolve_status_and_response
resolve_status_and_response-error_iff spec op cfg e h =
    elim (Option-cases (lowest_2xx_response spec op)) [
      | inr ((n, resp), q) ↦
          rw (resolve_status_and_response, h, q) ((λ k. cc), (λ k. absurd (lowest n resp q k.2)))
      | inl q ↦ elim (Option-cases (default_response spec op)) [
        | inr (r, p) ↦ rw (resolve_status_and_response, h, q, p) ((λ k. cc), (λ k. cc))
        | inl p ↦ elim (Option-cases (first_resolved spec op.responses.responses)) [
          | inr (hit, o) ↦
              rw (resolve_status_and_response, h, q, p, o)
                ((λ k. cc), (λ k. absurd (hits hit o k.2)))
          | inl o ↦
              rw (resolve_status_and_response, h, q, p, o)
                ((λ k. (cc, refl, first_resolved-eq-none spec op.responses.responses o)), (λ k. cc))
        ]
      ]
    ]
  where
    lowest :
        (n : ℕ) (resp : Response)
        → lowest_2xx_response spec op ≡ some (n, resp)
        → ¬ ¬ Resolves spec op.responses.responses
    lowest n resp q k =
        k (
          LowestSuccess-Resolves spec op n resp
            (lowest_2xx_response-LowestSuccess spec op n resp q))

    hits :
        (hit : ℕ × Response)
        → first_resolved spec op.responses.responses ≡ some hit
        → ¬ ¬ Resolves spec op.responses.responses
    hits hit o k = let p = Resolves-none spec op.responses.responses k in cc
