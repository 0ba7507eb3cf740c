-- ===== src/Engine/Mock/Directives.antt =====
-- The directives `security=` and `validate=` in the pipeline.
use chasm.Engine.Status.{resolve_status_and_response}
use chasm.Router.{not_found}
use chasm.Engine.Negotiation.{not_acceptable}
use chasm.Engine.Negotiation.{ContentNegotiation}
use chasm.Engine.Mock.{
  resolve_error, ResolveError, route_request_with_strict, preflight, synthesised_options, operation,
  check_request, RouteMatch, PreferDirectives, check_credentials, answer, respond, serve,
  negotiate_content_type, read_echo_flag, ok, lookup_media_type, selected, err, Result,
  read_content_encoding, read_delay_ms, MockResponse, Value, Response, MatchedOperation, render,
}
use chasm.Request.{MockRequest}
use chasm.Text.{Text}
use chasm.Engine.Headers.{
  collect_response_headers, header_options, collect, pick_header_value,
  generate_header_value_from_schema,
}
use chasm.Engine.Body.{MockError, body_options, generate_from_media_type, build_body}
use chasm.OpenApi.{Schema, MediaType, ReferenceOr, Header, Spec}
use chasm.Engine.Config.{merge_directives, MockConfig}
use chasm.Engine.Faker.{Services}
use chasm.Prelude.{
  ◌∙◌, unwrap_or, ℕ, Bool, false, Option, some, none, or, is_empty, List, [], ◌∷◌, ◌≡◌, refl, ap,
  inl, inr, Bool-cases,
}

-- The merged configuration with any values in the two fields that the directives set.
abbrev with_checks : MockConfig → Bool → Bool → MockConfig
with_checks effective e s = record effective { errors = e; check_security = s }

module _ (env : Services) (spec : Spec) (effective : MockConfig) (e s : Bool) where
  generate_header_value-ignores :
      (r : ReferenceOr Schema)
      → generate_header_value_from_schema env spec (with_checks effective e s) r
        ≡ generate_header_value_from_schema env spec effective r
  unfolding generate_header_value_from_schema header_options
  generate_header_value-ignores r = refl

  pick_header_value-ignores :
      (h : Header)
      → pick_header_value env spec (with_checks effective e s) h
        ≡ pick_header_value env spec effective h
  unfolding pick_header_value generate_header_value_from_schema header_options
  pick_header_value-ignores h = refl

  collect-ignores :
      (headers : List (Text × ReferenceOr Header))
      → collect env spec (with_checks effective e s) headers ≡ collect env spec effective headers
  unfolding collect pick_header_value generate_header_value_from_schema header_options
  collect-ignores [] = refl
  collect-ignores ((name, r) ∷ headers) = rw (collect, collect-ignores headers)

  build_body-ignores :
      (m : Option MediaType) (ct : Text) (req : MockRequest)
      → build_body env spec m ct (with_checks effective e s) req
        ≡ build_body env spec m ct effective req
  unfolding build_body generate_from_media_type body_options
  build_body-ignores none ct req = refl
  build_body-ignores (some mt) ct req = refl

  render-ignores :
      (req : MockRequest) (matched : MatchedOperation) (status : ℕ) (response : Response)
      → render env spec req matched (with_checks effective e s) status response
        ≡ render env spec req matched effective status response
  unfolding render collect_response_headers
  render-ignores req matched status response =
      elim (Bool-cases (read_echo_flag matched.operation)) [
        | inl q ↦ rw (render, q, collect-ignores response.headers)
        | inr q ↦ elim (Bool-cases (is_empty response.content)) [
          | inl p ↦ rw (render, q, p, collect-ignores response.headers)
          | inr p ↦ rw (render, q, p) (go (negotiate_content_type env.quality response.content req))
        ]
      ]
    where
      lines : MockConfig → List (Text × Text)
      lines cfg = collect_response_headers env spec cfg response

      written : List (Text × Text) → Text → Value → MockResponse
      written headers content_type body = record {
        status = status;
        content_type = content_type;
        body = body;
        headers = headers;
        delay_ms = read_delay_ms matched.operation response;
        content_encoding = read_content_encoding response;
        echo = false;
      }

      packed : Text → List (Text × Text) → Result MockError Value → Result MockError MockResponse
      packed content_type headers b = elim b [
        | err e ↦ err e
        | ok body ↦ ok (written headers content_type body)
      ]

      built : MockConfig → ContentNegotiation → Result MockError MockResponse
      built cfg c = elim c [
        | not_acceptable acceptable ↦ err (MockError.not_acceptable acceptable)
        | selected content_type ↦ packed content_type (lines cfg) (
            build_body env spec (lookup_media_type response.content content_type) content_type cfg
              req)
      ]

      go : (c : ContentNegotiation) → built (with_checks effective e s) c ≡ built effective c
      go (not_acceptable acceptable) = refl
      go (selected content_type) =
          let m = lookup_media_type response.content content_type in
          ap
            (λ hs.
              packed content_type hs
                (build_body env spec m content_type (with_checks effective e s) req))
            (collect-ignores response.headers)
          ∙ ap (packed content_type (lines effective)) (build_body-ignores m content_type req)

  answer-ignores :
      (req : MockRequest) (matched : MatchedOperation)
      → answer env spec req matched (with_checks effective e s)
        ≡ answer env spec req matched effective
  unfolding answer resolve_status_and_response
  answer-ignores req matched = go (resolve_status_and_response spec matched.operation effective)
    where
      given : MockConfig → Result ResolveError (ℕ × Response) → Result MockError MockResponse
      given cfg x = elim x [
        | err e ↦ err (resolve_error req e)
        | ok (status, response) ↦ render env spec req matched cfg status response
      ]

      go :
          (x : Result ResolveError (ℕ × Response))
          → given (with_checks effective e s) x ≡ given effective x
      go (err e) = refl
      go (ok (status, response)) = render-ignores req matched status response

  serve-ignores :
      (req : MockRequest) (cfg : MockConfig) (matched : MatchedOperation)
      → serve env spec req cfg (with_checks effective e s) matched
        ≡ serve env spec req cfg effective matched
  unfolding serve
  serve-ignores req cfg matched =
      go (or (check_credentials env spec req cfg matched) (check_request env spec req cfg matched))
    where
      given : MockConfig → Option MockError → Result MockError MockResponse
      given m x = elim x [ some e ↦ err e | none ↦ answer env spec req matched m ]

      go : (x : Option MockError) → given (with_checks effective e s) x ≡ given effective x
      go (some e) = refl
      go none = answer-ignores req matched

  respond-ignores :
      (req : MockRequest) (cfg : MockConfig)
      → respond env spec req cfg (with_checks effective e s) ≡ respond env spec req cfg effective
  unfolding respond
  respond-ignores req cfg =
      go (route_request_with_strict env.decode spec req.method req.path cfg.strict_method_matching)
    where
      given : MockConfig → RouteMatch → Result MockError MockResponse
      given m x = elim x [
        | operation matched ↦ serve env spec req cfg m matched
        | synthesised_options allow ↦ ok (preflight allow)
        | RouteMatch.method_not_allowed allow ↦
            err (MockError.method_not_allowed req.method req.path allow)
        | not_found ↦ err (MockError.no_route req.method req.path)
      ]

      go : (x : RouteMatch) → given (with_checks effective e s) x ≡ given effective x
      go (operation matched) = serve-ignores req cfg matched
      go (synthesised_options allow) = refl
      go (RouteMatch.method_not_allowed allow) = refl
      go not_found = refl

-- Whatever a request's directives say of `validate` and `security`, the outcome is the same: only the
-- caller's configuration decides whether credentials are checked and validation errors are enforced.
pub respond-merge_directives :
    (env : Services) (spec : Spec) (req : MockRequest) (cfg : MockConfig) (d : PreferDirectives)
    (v s : Option Bool)
    → respond env spec req cfg (merge_directives cfg (record d { validate = v; security = s }))
      ≡ respond env spec req cfg (merge_directives cfg d)
unfolding merge_directives
respond-merge_directives env spec req cfg d v s =
    respond-ignores env spec (merge_directives cfg d) (unwrap_or v cfg.errors)
      (unwrap_or s cfg.check_security) req cfg
