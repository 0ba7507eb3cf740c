-- ===== src/Engine/Status.antt =====
-- crates/chasm-engine/src/engine.rs: the status of a response and its definition.
pub mod Lowest
pub mod Laws
pub mod Answers
pub mod Forced
use chasm.Prelude.{
  false, ℕ, Bool, true, ◌&&◌, Option, some, none, List, [], ◌∷◌, ◌*◌, ◌/◌, ltb, leb, ◌==◌,
  if◌then◌else◌,
}
use chasm.Prelude.Maybe.{◌>>=◌}
use chasm.Prelude.Result.{Result, ok, err}
use chasm.Text.{ascii, get, strip_prefix}
use chasm.OpenApi.{Spec, Response, ReferenceOr, item, reference, StatusCode, code, range, Operation}
use chasm.Engine.Config.{MockConfig}

pub data ResolveError : Type 0 where
  no_responses : ResolveError
  no_response_for_code : ℕ → ResolveError

-- One hop of a reference is followed.
unfoldable pub resolve_response_ref : Spec → ReferenceOr Response → Option Response
resolve_response_ref spec (item r) = some r
resolve_response_ref spec (reference r) = do
  name ← strip_prefix r (ascii "#/components/responses/")
  components ← spec.components
  target ← get components.responses name
  elim target [ item t ↦ some t | reference _ ↦ none ]

abbrev pub code_eq : StatusCode → StatusCode → Bool
code_eq (code m) (code n) = m == n
code_eq (range m) (range n) = m == n
code_eq _ _ = false

-- The map's `get`.
unfoldable pub response_at :
    List (StatusCode × ReferenceOr Response) → StatusCode → Option (ReferenceOr Response)
response_at [] k = none
response_at ((j, r) ∷ rs) k = if code_eq j k then some r else response_at rs k

unfoldable pub find_response_for_code : Spec → Operation → ℕ → Option Response
find_response_for_code spec operation n =
    let family =
      response_at operation.responses.responses (range (n / 100)) >>= resolve_response_ref spec in
    elim (response_at operation.responses.responses (code n) >>= resolve_response_ref spec) [
      | some r ↦ some r
      | none ↦ family
    ]

-- Whether a code replaces the lowest so far.
unfoldable pub is_lower : Option (ℕ × ReferenceOr Response) → ℕ → Bool
is_lower none n = true
is_lower (some (m, _)) n = ltb n m

-- The loop of `lowest_2xx_response`, from any lowest code and range.
unfoldable pub scan_2xx :
    List (StatusCode × ReferenceOr Response)
    → Option (ℕ × ReferenceOr Response)
    → Option (ReferenceOr Response)
    → Option (ℕ × ReferenceOr Response) × Option (ReferenceOr Response)
scan_2xx [] best range_2xx = (best, range_2xx)
scan_2xx ((code n, r) ∷ rs) best range_2xx =
    scan_2xx rs (if leb 200 n && ltb n 300 && is_lower best n then some (n, r) else best) range_2xx
scan_2xx ((range n, r) ∷ rs) best range_2xx =
    scan_2xx rs best (if n == 2 then some r else range_2xx)

-- A response that resolves, under a status.
abbrev pub resolved : Spec → ℕ → ReferenceOr Response → Option (ℕ × Response)
resolved spec n r = do resp ← resolve_response_ref spec r; some (n, resp)

unfoldable pub lowest_2xx_response : Spec → Operation → Option (ℕ × Response)
lowest_2xx_response spec operation =
    let found = scan_2xx operation.responses.responses none none in
    elim (found.0 >>= (λ b. resolved spec b.0 b.1)) [
      | some hit ↦ some hit
      | none ↦ found.1 >>= resolved spec 200
    ]

-- `family * 100` in 16 bits; the crate's ranges are one digit.
abbrev pub numeric : StatusCode → ℕ
numeric (code n) = n
numeric (range family) = family * 100

unfoldable pub first_resolved :
    Spec → List (StatusCode × ReferenceOr Response) → Option (ℕ × Response)
first_resolved spec [] = none
first_resolved spec ((k, r) ∷ rs) = elim (resolved spec (numeric k) r) [
  | some hit ↦ some hit
  | none ↦ first_resolved spec rs
]

-- The response under `default`, if it resolves.
abbrev pub default_response : Spec → Operation → Option Response
default_response spec operation = operation.responses.default >>= resolve_response_ref spec

unfoldable pub resolve_status_and_response :
    Spec → Operation → MockConfig → Result ResolveError (ℕ × Response)
resolve_status_and_response spec operation cfg = elim cfg.force_code [
  | some n ↦ elim (find_response_for_code spec operation n) [
    | some resp ↦ ok (n, resp)
    | none ↦ elim (default_response spec operation) [
      | some resp ↦ ok (n, resp)
      | none ↦ err (no_response_for_code n)
    ]
  ]
  | none ↦ elim (lowest_2xx_response spec operation) [
    | some hit ↦ ok hit
    | none ↦ elim (default_response spec operation) [
      | some resp ↦ ok (200, resp)
      | none ↦ elim (first_resolved spec operation.responses.responses) [
        | some hit ↦ ok hit
        | none ↦ err no_responses
      ]
    ]
  ]
]
