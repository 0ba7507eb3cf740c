-- ===== src/Engine/Mock/Laws.antt =====
-- The steps behind a response.
use chasm.Engine.Negotiation.{ContentNegotiation}
use mathlib.Core.Path.{subst}
use chasm.Engine.Mock.{
  ValidationError, negotiate_content_type, lookup_media_type, build_body, selected, not_acceptable,
  resolve_error, err, unauthorized, ResolveError, read_content_encoding,
  resolve_status_and_response, SecurityResult, MockError, read_delay_ms, check_credentials, Result,
  answer, check_request, Value, validation_errors, read_echo_flag, authorized, evaluate,
  collect_response_headers, ok, Text, Response, MockResponse, MatchedOperation, render,
}
use chasm.Engine.Config.{MockConfig}
use chasm.Request.{MockRequest}
use chasm.OpenApi.{Spec}
use chasm.Engine.Faker.{Services}
use chasm.Prelude.{
  ℕ, true, false, Option, some, none, is_empty, List, [], ◌∷◌, ◌≡◌, refl, inl, inr, Bool-cases,
}

module _ (env : Services) (spec : Spec) (req : MockRequest) where
  answered : MockResponse → Result MockError MockResponse
  answered s = ok s

  -- The fields that do not depend on the body.
  abbrev pub Rendered : MockConfig → ℕ → Response → MockResponse → Type 0
  Rendered effective status response s =
      (s.status ≡ status) × (s.headers ≡ collect_response_headers env spec effective response)

  answered-Rendered :
      (effective : MockConfig) (status : ℕ) (response : Response) (s r : MockResponse)
      → Rendered effective status response s
      → answered s ≡ answered r
      → Rendered effective status response r
  unfolding answered
  answered-Rendered effective status response s r h e =
      let i : s ≡ r = cc in subst (Rendered effective status response) i h

  render-Rendered :
      (matched : MatchedOperation) (effective : MockConfig) (status : ℕ) (response : Response)
      (r : MockResponse)
      → render env spec req matched effective status response ≡ ok r
      → Rendered effective status response r
  unfolding render answered
  render-Rendered matched effective status response r e =
      elim (Bool-cases (read_echo_flag matched.operation)) [
        | inl q ↦ answered-Rendered effective status response _ r (refl, refl) (rw (render, q) at e)
        | inr q ↦ elim (Bool-cases (is_empty response.content)) [
          | inl p ↦
              answered-Rendered effective status response _ r (refl, refl) (rw (render, q, p) at e)
          | inr p ↦
              negotiated (negotiate_content_type env.quality response.content req)
                (rw (render, q, p) at e)
        ]
      ]
    where
      written : Text → Value → MockResponse
      written content_type body = record {
        status = status;
        content_type = content_type;
        body = body;
        headers = collect_response_headers env spec effective response;
        delay_ms = read_delay_ms matched.operation response;
        content_encoding = read_content_encoding response;
        echo = false;
      }

      built :
          (content_type : Text) (b : Result MockError Value)
          → (elim b as (λ _. Result MockError MockResponse) [
            | err e ↦ err e
            | ok body ↦ ok (written content_type body)
          ])
            ≡ ok r
          → Rendered effective status response r
      built content_type (err x) e = cc
      built content_type (ok body) e =
          answered-Rendered effective status response _ r (refl, refl) e

      negotiated :
          (c : ContentNegotiation)
          → (elim c as (λ _. Result MockError MockResponse) [
            | not_acceptable acceptable ↦ err (MockError.not_acceptable acceptable)
            | selected content_type ↦
                elim (build_body env spec
                    (lookup_media_type response.content content_type)
                    content_type
                    effective
                    req)
                  as (λ _. Result MockError MockResponse) [
                    | err e ↦ err e
                    | ok body ↦ ok (written content_type body)
                  ]
          ])
            ≡ ok r
          → Rendered effective status response r
      negotiated (not_acceptable acceptable) e = cc
      negotiated (selected content_type) e = built content_type _ e

  pub answer-Rendered :
      (matched : MatchedOperation) (effective : MockConfig) (r : MockResponse)
      → answer env spec req matched effective ≡ ok r
      → (status : ℕ) × (response : Response) × (resolve_status_and_response spec matched.operation
            effective
          ≡ ok (status, response))
        × Rendered effective status response r
  unfolding answer
  answer-Rendered matched effective r e =
      go (resolve_status_and_response spec matched.operation effective) refl e
    where
      go :
          (x : Result ResolveError (ℕ × Response))
          → resolve_status_and_response spec matched.operation effective ≡ x
          → (elim x as (λ _. Result MockError MockResponse) [
            | err e ↦ err (resolve_error req e)
            | ok (status, response) ↦ render env spec req matched effective status response
          ])
            ≡ ok r
          → (status : ℕ) × (response : Response) × (resolve_status_and_response spec
                matched.operation effective
              ≡ ok (status, response))
            × Rendered effective status response r
      go (err x) q e = cc
      go (ok (status, response)) q e =
          (status, response, q, render-Rendered matched effective status response r e)

  pub check_credentials-eq-none :
      (cfg : MockConfig) (matched : MatchedOperation)
      → check_credentials env spec req cfg matched ≡ none
      → cfg.check_security ≡ true
      → evaluate env.decode spec req matched.operation ≡ authorized
  unfolding check_credentials
  check_credentials-eq-none cfg matched e t =
      go (evaluate env.decode spec req matched.operation) refl (rw t at e)
    where
      go :
          (x : SecurityResult)
          → evaluate env.decode spec req matched.operation ≡ x
          → (elim x as (λ _. Option MockError) [
            | authorized ↦ none
            | unauthorized scheme w ↦ some (MockError.unauthorized scheme w)
          ])
            ≡ none
          → evaluate env.decode spec req matched.operation ≡ authorized
      go authorized q e = q
      go (unauthorized scheme w) q e = cc

  pub check_request-eq-none :
      (cfg : MockConfig) (matched : MatchedOperation)
      → check_request env spec req cfg matched ≡ none
      → cfg.errors ≡ true
      → validation_errors env spec req matched ≡ []
  unfolding check_request
  check_request-eq-none cfg matched e t =
      go (validation_errors env spec req matched) refl (rw t at e)
    where
      go :
          (x : List ValidationError)
          → validation_errors env spec req matched ≡ x
          → (elim x as (λ _. Option MockError) [
            | [] ↦ none
            | e ∷ es ↦ some (MockError.validation_failed (e ∷ es))
          ])
            ≡ none
          → validation_errors env spec req matched ≡ []
      go [] q e = q
      go (x ∷ xs) q e = cc
