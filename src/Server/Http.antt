-- ===== src/Server/Http.antt =====
-- crates/chasm-server/src/main.rs: responses and their headers, and what the server takes from the
-- crates it calls. A `HeaderMap` is its list of entries, the names in lower case.
use chasm.Prelude.{ℕ, Bool, Option, List, [], ◌∷◌, ◌++◌, if◌then◌else◌}
use chasm.Text.{Text, text_eq}
use chasm.OpenApi.{Value}

pub record HttpResponse : Type 0 where
  pub status : ℕ
  pub headers : List (Text × Text)
  pub body : Text

-- `HeaderName` and `HeaderValue::try_from`; `serde_json::to_string`; the codecs; the first 16
-- digits of `blake3::hash`; `from_utf8_lossy`; `form_urlencoded::parse`; the headers that axum gives
-- a response of bytes, and its response for a header that cannot be encoded.
pub record Http : Type 0 where
  pub header_name : Text → Option Text
  pub is_value : Text → Bool
  pub to_string : Value → Text
  pub from_slice : Text → Option Value
  pub compress : Text → Text → Option Text
  pub hash : Text → Text
  pub lossy : Text → Text
  pub form_pairs : Text → List (Text × Text)
  pub byte_headers : List (Text × Text)
  pub unencodable : HttpResponse

-- `HeaderMap::remove`.
unfoldable pub remove_header : List (Text × Text) → Text → List (Text × Text)
remove_header [] name = []
remove_header (e ∷ es) name =
    let rest = remove_header es name in if text_eq e.0 name then rest else e ∷ rest

-- `HeaderMap::insert`, which replaces every value of the name.
unfoldable pub set_header : List (Text × Text) → Text → Text → List (Text × Text)
set_header headers name value = remove_header headers name ++ (name, value) ∷ []

-- `if let Ok(v) = HeaderValue::try_from(value) { headers.insert(name, v) }`.
abbrev pub set_if_value : Http → List (Text × Text) → Text → Text → List (Text × Text)
set_if_value http headers name value =
    if http.is_value value then set_header headers name value else headers
