-- ===== src/Engine/Mock/Served.antt =====
-- What holds of every response that the engine gives.
use chasm.Prelude.Run.{panic}
use mathlib.Core.Path.{subst}
use chasm.Engine.Status.Forced.{resolve_status_and_response-Outcome}
use chasm.Engine.Mock.Laws.{check_request-eq-none, check_credentials-eq-none, answer-Rendered}
use chasm.Engine.Headers.Laws.{collect_response_headers-Sendable, Sendable}
use chasm.Router.{not_found}
use chasm.Engine.Faker.{Services}
use chasm.Engine.Mock.{
  Run, validation_errors, answer, err, merge_directives, check_request, authorized, preflight,
  from_request, MockError, Result, check_credentials, evaluate, RouteMatch, PreferDirectives,
  synthesised_options, operation, route_request_with_strict, done, ok, Text, MockResponse,
  MatchedOperation, serve, MockConfig, respond, MockRequest, Spec, mock,
}
use chasm.Prelude.{◌∙◌, ℕ, true, Option, some, none, or, [], ◌≡◌, refl, sym, ◌⊎◌, inl, inr}

module _ (env : Services) (spec : Spec) (req : MockRequest) where
  -- A response that an operation gives: the router chose it, the checks let the request pass, a
  -- forced code is the status, and no header line has a name that the server computes.
  abbrev pub Served : MockConfig → MockConfig → MockResponse → MatchedOperation → Type 0
  Served cfg effective r matched =
      (route_request_with_strict env.decode spec req.method req.path cfg.strict_method_matching
        ≡ operation matched)
      × (cfg.check_security ≡ true → evaluate env.decode spec req matched.operation ≡ authorized)
      × (cfg.errors ≡ true → validation_errors env spec req matched ≡ [])
      × ((n : ℕ) → effective.force_code ≡ some n → r.status ≡ n)
      × Sendable r.headers

  -- The answer to a preflight request, outside strict mode.
  abbrev pub Preflighted : MockConfig → MockResponse → Text → Type 0
  Preflighted cfg r allow =
      (route_request_with_strict env.decode spec req.method req.path cfg.strict_method_matching
        ≡ synthesised_options allow)
      × (r ≡ preflight allow)

  pass :
      (cfg effective : MockConfig) (matched : MatchedOperation) (r : MockResponse)
      → route_request_with_strict env.decode spec req.method req.path cfg.strict_method_matching
        ≡ operation matched
      → check_credentials env spec req cfg matched ≡ none
      → check_request env spec req cfg matched ≡ none
      → answer env spec req matched effective ≡ ok r
      → Served cfg effective r matched
  pass cfg effective matched r q c v e =
      let (status, response, a, (s, h)) = answer-Rendered env spec req matched effective r e in
      (
        q,
        check_credentials-eq-none env spec req cfg matched c,
        check_request-eq-none env spec req cfg matched v,
        λ n f.
            s
            ∙ ((resolve_status_and_response-Outcome spec matched.operation effective n
                  (ok (status, response)) f).0
                a).0,
        subst Sendable (sym h) (collect_response_headers-Sendable env spec effective response),
      )

  serve-Served :
      (cfg effective : MockConfig) (matched : MatchedOperation) (r : MockResponse)
      → route_request_with_strict env.decode spec req.method req.path cfg.strict_method_matching
        ≡ operation matched
      → serve env spec req cfg effective matched ≡ ok r
      → Served cfg effective r matched
  unfolding serve
  serve-Served cfg effective matched r q e =
      go (check_credentials env spec req cfg matched) (check_request env spec req cfg matched) refl
        refl e
    where
      go :
          (c v : Option MockError)
          → check_credentials env spec req cfg matched ≡ c
          → check_request env spec req cfg matched ≡ v
          → (elim (or c v) as (λ _. Result MockError MockResponse) [
            | some x ↦ err x
            | none ↦ answer env spec req matched effective
          ])
            ≡ ok r
          → Served cfg effective r matched
      go (some x) v c' v' e = cc
      go none (some x) c' v' e = cc
      go none none c' v' e = pass cfg effective matched r q c' v' e

  respond-Served :
      (cfg effective : MockConfig) (r : MockResponse)
      → respond env spec req cfg effective ≡ ok r
      → ((allow : Text) × Preflighted cfg r allow)
        ⊎ ((matched : MatchedOperation) × Served cfg effective r matched)
  unfolding respond
  respond-Served cfg effective r e =
      go (route_request_with_strict env.decode spec req.method req.path cfg.strict_method_matching)
        refl e
    where
      go :
          (x : RouteMatch)
          → route_request_with_strict env.decode spec req.method req.path cfg.strict_method_matching
            ≡ x
          → (elim x as (λ _. Result MockError MockResponse) [
            | operation matched ↦ serve env spec req cfg effective matched
            | synthesised_options allow ↦ ok (preflight allow)
            | RouteMatch.method_not_allowed allow ↦
                err (MockError.method_not_allowed req.method req.path allow)
            | not_found ↦ err (MockError.no_route req.method req.path)
          ])
            ≡ ok r
          → ((allow : Text) × Preflighted cfg r allow)
            ⊎ ((matched : MatchedOperation) × Served cfg effective r matched)
      go (operation matched) q e = inr (matched, serve-Served cfg effective matched r q e)
      go (synthesised_options allow) q e = inl (allow, (q, cc))
      go (RouteMatch.method_not_allowed allow) q e = cc
      go not_found q e = cc

-- A response is the answer to a preflight request, or an operation gives it: the router chose the
-- operation, the credentials satisfy its requirements where the check is on, no validation error is
-- there where errors are enforced, a forced code is the status, and no header line has a name that
-- the server computes itself.
pub mock-Served :
    (env : Services) (spec : Spec) (req : MockRequest) (cfg : MockConfig) (r : MockResponse)
    → mock env spec req cfg ≡ done (ok r)
    → (d : PreferDirectives) × (from_request req.headers req.query ≡ done d)
      × (((allow : Text) × Preflighted env spec req cfg r allow)
          ⊎ ((matched : MatchedOperation) × Served env spec req cfg
                (merge_directives cfg d)
                r
                matched))
unfolding mock
mock-Served env spec req cfg r e = go (from_request req.headers req.query) refl e
  where
    go :
        (x : Run PreferDirectives)
        → from_request req.headers req.query ≡ x
        → (elim x as (λ _. Run (Result MockError MockResponse)) [
          | panic ↦ panic
          | done directives ↦ done (respond env spec req cfg (merge_directives cfg directives))
        ])
          ≡ done (ok r)
        → (d : PreferDirectives) × (from_request req.headers req.query ≡ done d)
          × (((allow : Text) × Preflighted env spec req cfg r allow)
              ⊎ ((matched : MatchedOperation) × Served env spec req cfg
                    (merge_directives cfg d)
                    r
                    matched))
    go panic q e = cc
    go (done d) q e = (d, q, respond-Served env spec req cfg (merge_directives cfg d) r cc)
