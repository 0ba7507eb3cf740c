-- ===== src/Security.antt =====
-- crates/chasm-engine/src/security.rs: whether a request carries the credentials that an operation
-- asks for. The percent decoder is the `percent_encoding` crate's: `decode s` is
-- `percent_decode_str(s).decode_utf8()`, `none` where that is an error.
pub mod Authorized
pub mod Report
pub mod Credentials
mod Tests
use chasm.Prelude.{
  Bool, true, false, not, ◌&&◌, Option, some, none, List, [], ◌∷◌, ◌++◌, ◌-◌, length, take, drop,
  ltb, leb, or, unwrap_or, is_some, is_empty, if◌then◌else◌,
}
use chasm.Prelude.Maybe.{◌>>=◌}
use chasm.Text.{
  Text, ascii, text_eq, to_ascii_lowercase, starts_with, ends_with, strip_prefix, split, split_once,
  trim, get,
}
use chasm.OpenApi.{
  ReferenceOr, item, reference, ApiKeyLocation, header, query, cookie, SecurityScheme, api_key,
  http, oauth2, open_id_connect, SecurityRequirement, Operation, Components, Spec,
}
use chasm.Request.{MockRequest, find_header}

pub data SecurityResult : Type 0 where
  authorized : SecurityResult
  unauthorized : (scheme : Text) (www_authenticate : Option Text) → SecurityResult

-- One hop of a reference is followed.
unfoldable pub resolve_scheme_entry :
    Components → ReferenceOr SecurityScheme → Option SecurityScheme
resolve_scheme_entry components (item s) = some s
resolve_scheme_entry components (reference r) = do
  target ← strip_prefix r (ascii "#/components/securitySchemes/")
  next ← get components.security_schemes target
  elim next [ item s ↦ some s | reference _ ↦ none ]

unfoldable pub lookup_scheme : Spec → Text → Option SecurityScheme
lookup_scheme spec name = do
  components ← spec.components
  entry ← get components.security_schemes name
  resolve_scheme_entry components entry

-- `format!("{} realm=\"{}\"", kind, name)`.
abbrev pub challenge : Text → Text → Text
challenge kind name = kind ++ (ascii " realm=\"" ++ (name ++ ascii "\""))

unfoldable pub www_authenticate_for : SecurityScheme → Text → Option Text
www_authenticate_for (http kind) name =
    let lower = to_ascii_lowercase kind in
    if text_eq lower (ascii "bearer")
    then some (challenge (ascii "Bearer") name)
    else if text_eq lower (ascii "basic")
    then some (challenge (ascii "Basic") name)
    else some (challenge lower name)
www_authenticate_for oauth2 name = some (challenge (ascii "Bearer") name)
www_authenticate_for open_id_connect name = some (challenge (ascii "Bearer") name)
www_authenticate_for (api_key location key) name = none

abbrev prefixed : Text → Text → Bool
prefixed value needle =
    starts_with (to_ascii_lowercase (trim value)) needle
    && ltb (length needle) (length (trim value))

unfoldable pub has_authorization_prefix : MockRequest → Text → Bool
has_authorization_prefix req scheme = elim (find_header req (ascii "authorization")) [
  | none ↦ false
  | some value ↦ prefixed value (scheme ++ ascii " ")
]

-- The text between the quotes, where both are there.
unfoldable pub unquote : Text → Text
unquote value =
    if leb 2 (length value) && (starts_with value (ascii "\"") && ends_with value b'"')
    then take (length value - 2) (drop 1 value)
    else value

-- `map(|v| !v.is_empty()).unwrap_or(false)`.
abbrev pub is_filled : Option Text → Bool
is_filled none = false
is_filled (some v) = not (is_empty v)

module _ (decode : Text → Option Text) where
  unfoldable pub normalize_cookie_value : Text → Text
  normalize_cookie_value value = unwrap_or (decode (unquote value)) (unquote value)

  -- The loop over the pairs of the `Cookie` header.
  unfoldable pub find_cookie_in : List Text → Text → Option Text
  find_cookie_in [] name = none
  find_cookie_in (pair ∷ pairs) name =
      let later = find_cookie_in pairs name in
      elim (split_once b'=' (trim pair)) [
        | none ↦ later
        | some (k, v) ↦
            if text_eq (trim k) name then some (normalize_cookie_value (trim v)) else later
      ]

  unfoldable pub find_cookie : MockRequest → Text → Option Text
  find_cookie req name = do
    raw ← find_header req (ascii "cookie")
    find_cookie_in (split b';' raw) name

  unfoldable pub is_scheme_satisfied : SecurityScheme → MockRequest → Bool
  is_scheme_satisfied (http kind) req =
      let lower = to_ascii_lowercase kind in
      if text_eq lower (ascii "bearer")
      then has_authorization_prefix req (ascii "bearer")
      else if text_eq lower (ascii "basic")
      then has_authorization_prefix req (ascii "basic")
      else is_some (find_header req (ascii "authorization"))
  is_scheme_satisfied oauth2 req = has_authorization_prefix req (ascii "bearer")
  is_scheme_satisfied open_id_connect req = has_authorization_prefix req (ascii "bearer")
  is_scheme_satisfied (api_key header name) req = is_filled (find_header req name)
  is_scheme_satisfied (api_key query name) req = is_filled (get req.query name)
  is_scheme_satisfied (api_key cookie name) req = is_filled (find_cookie req name)

-- The loop's variables that are reported.
pub record Scan : Type 0 where
  pub first_scheme : Option Text
  pub first_www_authenticate : Option Text
  pub first_declared_scheme : Option Text

abbrev pub scan_start : Scan
scan_start = record {
  first_scheme = none;
  first_www_authenticate = none;
  first_declared_scheme = none;
}

unfoldable pub note_declared : Text → Scan → Scan
note_declared name st = record st {
  first_declared_scheme = or st.first_declared_scheme (some name);
}

unfoldable pub note_scheme : SecurityScheme → Text → Scan → Scan
note_scheme scheme name st = elim st.first_scheme [
  | none ↦ record st {
    first_scheme = some name;
    first_www_authenticate = www_authenticate_for scheme name;
  }
  | some _ ↦ st
]

module _ (decode : Text → Option Text) (spec : Spec) (req : MockRequest) where
  -- The loop over the schemes of one requirement.
  unfoldable pub scan_names : List Text → Bool → Scan → Bool × Scan
  scan_names [] all_satisfied st = (all_satisfied, st)
  scan_names (name ∷ names) all_satisfied st = elim (lookup_scheme spec name) [
    | none ↦ scan_names names false (note_declared name st)
    | some scheme ↦
        scan_names names (if is_scheme_satisfied decode scheme req then all_satisfied else false)
          (note_scheme scheme name (note_declared name st))
  ]

  unfoldable pub refuse : Scan → SecurityResult
  refuse st =
      unauthorized (unwrap_or (or st.first_scheme st.first_declared_scheme) (ascii "unknown"))
        st.first_www_authenticate

  -- The loop over the requirements.
  unfoldable pub scan_requirements : List SecurityRequirement → Scan → SecurityResult
  scan_requirements [] st = refuse st
  scan_requirements ([] ∷ requirements) st = authorized
  scan_requirements ((name ∷ names) ∷ requirements) st =
      let (all_satisfied, st') = scan_names (name ∷ names) true st in
      let rest = scan_requirements requirements st' in if all_satisfied then authorized else rest

  -- `evaluate`; the wrapper around `evaluate_inner` only logs.
  unfoldable pub evaluate : Operation → SecurityResult
  evaluate op = elim (or op.security spec.security) [
    | none ↦ authorized
    | some [] ↦ authorized
    | some (r ∷ rs) ↦ scan_requirements (r ∷ rs) scan_start
  ]
