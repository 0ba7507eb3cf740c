-- ===== src/Server/Responses/Bodyless.antt =====
-- Statuses that RFC 9110 allows no body.
use chasm.Server.Responses.{
  is_sent, find_header, is_same_tag, etag_of, build_echo_envelope, ok, body_bytes,
  is_bodyless_status, MockConfig, Value, MockRequest, not_modified, MockResponse, finalize_response,
  serve_response, full_response, respond_to, without_content,
}
use chasm.Prelude.{
  unwrap_or, if◌then◌else◌, some, true, inr, inl, Bool-cases, Option, ◌∙◌, false, ◌≡◌, none, List,
  [], ◌∷◌, ◌++◌, refl, arith,
}
use chasm.Text.{join, Text, ascii, text_eq, get}
use chasm.Server.Http.{set_if_value, Http, HttpResponse, remove_header, set_header}

-- No header of the name.
abbrev pub Lacks : List (Text × Text) → Text → Type 0
Lacks headers name = get headers name ≡ none

get-append : (xs ys : List (Text × Text)) (n : Text) → get xs n ≡ none → get (xs ++ ys) n ≡ get ys n
unfolding get
get-append [] ys n h = refl
get-append (e ∷ xs) ys n h = ground (arith, get-append xs ys n)

get-remove_header :
    (xs : List (Text × Text)) (m n : Text) → get xs n ≡ none → get (remove_header xs m) n ≡ none
unfolding get remove_header
get-remove_header [] m n h = refl
get-remove_header (e ∷ xs) m n h = ground (arith, get-remove_header xs m n)

remove_header-Lacks : (xs : List (Text × Text)) (n : Text) → Lacks (remove_header xs n) n
unfolding get remove_header
remove_header-Lacks [] n = refl
remove_header-Lacks (e ∷ xs) n = ground (arith, remove_header-Lacks xs n)

set_header-Lacks :
    (xs : List (Text × Text)) (m v n : Text)
    → text_eq m n ≡ false
    → Lacks xs n
    → Lacks (set_header xs m v) n
unfolding set_header get
set_header-Lacks xs m v n e h =
    get-append (remove_header xs m) ((m, v) ∷ []) n (get-remove_header xs m n h) ∙ (rw e refl)

abbrev pub IsBare : List (Text × Text) → Type 0
IsBare headers = Lacks headers (ascii "content-type") × Lacks headers (ascii "content-length")

-- A response without a body and without the headers that describe one.
abbrev pub IsEmpty : HttpResponse → Type 0
IsEmpty r = IsBare r.headers × (r.body ≡ [])

without_content-IsBare : (headers : List (Text × Text)) → IsBare (without_content headers)
without_content-IsBare headers = (
  get-remove_header (remove_header headers (ascii "content-type")) (ascii "content-length")
      (ascii "content-type") (remove_header-Lacks headers (ascii "content-type")),
  remove_header-Lacks (remove_header headers (ascii "content-type")) (ascii "content-length"),
)

module _ (http : Http) where
  -- Another header that is set leaves them bare.
  set_if_value-IsBare :
      (headers : List (Text × Text)) (name value : Text)
      → text_eq name (ascii "content-type") ≡ false
      → text_eq name (ascii "content-length") ≡ false
      → IsBare headers
      → IsBare (set_if_value http headers name value)
  set_if_value-IsBare headers name value t l h = elim (Bool-cases (http.is_value value)) [
    | inl y ↦
        rw y
          (set_header-Lacks headers name value _ t h.0, set_header-Lacks headers name value _ l h.1)
    | inr n ↦ rw n h
  ]

  module _ (method : Text) where
    full_response-IsEmpty :
        (mr : MockResponse) (etag : Option Text)
        → is_bodyless_status mr.status ≡ true
        → IsEmpty (full_response http method mr ([], none) etag)
    unfolding full_response text_eq
    full_response-IsEmpty mr none h = rw h (without_content-IsBare _, refl)
    full_response-IsEmpty mr (some tag) h =
        rw h (set_if_value-IsBare _ (ascii "etag") tag refl refl (without_content-IsBare _), refl)

    not_modified-IsEmpty :
        (mr : MockResponse) (tag : Text) → IsEmpty (not_modified http method mr tag)
    unfolding not_modified
    not_modified-IsEmpty mr tag = (without_content-IsBare _, refl)

    body_bytes-eq-nil :
        (mr : MockResponse) (v : Value)
        → is_bodyless_status mr.status ≡ true
        → body_bytes http method mr v ≡ ([], none)
    body_bytes-eq-nil mr v h = rw h refl

    serve_response-IsEmpty :
        (cfg : MockConfig) (req : MockRequest) (raw : Text) (mr : MockResponse)
        → is_bodyless_status mr.status ≡ true
        → IsEmpty (serve_response http method cfg req raw mr)
    unfolding serve_response
    serve_response-IsEmpty cfg req raw mr h =
        let body = if mr.echo then build_echo_envelope http req raw else mr.body in
        let etag = etag_of http method cfg mr body in
        elim (Bool-cases (is_same_tag http method etag (find_header req (ascii "if-none-match")))) [
          | inl y ↦ rw y (not_modified-IsEmpty mr (unwrap_or etag []))
          | inr n ↦ rw (n, body_bytes-eq-nil mr body h) (full_response-IsEmpty mr etag h)
        ]

    finalize_response-IsEmpty :
        (request_id : Text) (req : MockRequest) (r : HttpResponse)
        → IsEmpty r
        → IsEmpty (finalize_response http method request_id req r)
    unfolding finalize_response text_eq
    finalize_response-IsEmpty request_id req r (h, b) =
        let id = set_if_value-IsBare r.headers (ascii "x-request-id") request_id refl refl h in
        let varied = λ (parts : List Text).
          set_if_value-IsBare _ (ascii "vary") (join (ascii ", ") parts) refl refl id in
        elim (Bool-cases (is_sent http method req (ascii "prefer"))) [
          | inl p ↦ elim (Bool-cases (is_sent http method req (ascii "accept"))) [
            | inl a ↦ rw (p, a) (varied (ascii "Prefer" ∷ ascii "Accept" ∷ []), b)
            | inr a ↦ rw (p, a) (varied (ascii "Prefer" ∷ []), b)
          ]
          | inr p ↦ elim (Bool-cases (is_sent http method req (ascii "accept"))) [
            | inl a ↦ rw (p, a) (varied (ascii "Accept" ∷ []), b)
            | inr a ↦ rw (p, a) (id, b)
          ]
        ]

    -- Whatever the engine answers with a status that allows no body (1xx, 204, 205, 304), the
    -- response has no body, no `Content-Type` and no `Content-Length`, whichever headers the
    -- document declares and whether or not the request is conditional.
    pub respond_to-IsEmpty :
        (cfg : MockConfig) (req : MockRequest) (raw request_id : Text) (mr : MockResponse)
        → is_bodyless_status mr.status ≡ true
        → IsEmpty (respond_to http method cfg req raw request_id (ok mr))
    unfolding respond_to
    respond_to-IsEmpty cfg req raw request_id mr h =
        finalize_response-IsEmpty request_id req _ (serve_response-IsEmpty cfg req raw mr h)
