-- ===== src/Server/Requests.antt =====
-- crates/chasm-server/src/main.rs: what the engine is given of a request.
pub mod Merge
pub mod Headers
pub mod Query
use chasm.Prelude.{
  ℕ, Bool, true, false, not, ◌||◌, Option, some, none, or, List, [], ◌∷◌, ◌++◌, is_empty, unwrap_or,
  find_first, length, if◌then◌else◌,
}
use chasm.Text.{
  Text, ascii, text_eq, eq_ignore_ascii_case, to_ascii_lowercase, before, contains, split,
  split_once, starts_with, trim, get, insert,
}
use chasm.OpenApi.{Value, Members, string, number, object, pos_int, end}
use chasm.Engine.Values.{insert_field}
use chasm.Request.{MockRequest, find_header}
use chasm.Server.Http.{Http}
use chasm.Validation.Forms.{add_form_value}

unfoldable pub is_comma_unsafe_header : Text → Bool
is_comma_unsafe_header name =
    eq_ignore_ascii_case name (ascii "cookie")
    || eq_ignore_ascii_case name (ascii "set-cookie")
    || eq_ignore_ascii_case name (ascii "authorization")
    || eq_ignore_ascii_case name (ascii "www-authenticate")
    || eq_ignore_ascii_case name (ascii "proxy-authenticate")

-- One turn of the loop; a value that is no visible ASCII is passed over.
unfoldable pub add_header : List (Text × Text) → Text × Option Text → List (Text × Text)
add_header out (name, none) = out
add_header out (name, some value) = elim (get out name) [
  | none ↦ insert out name value
  | some existing ↦
      if is_comma_unsafe_header name
      then out
      else insert out name (existing ++ (ascii ", " ++ value))
]

unfoldable pub add_headers : List (Text × Text) → List (Text × Option Text) → List (Text × Text)
add_headers out [] = out
add_headers out (h ∷ hs) = add_headers (add_header out h) hs

unfoldable pub extract_headers : List (Text × Option Text) → List (Text × Text)
extract_headers headers = add_headers [] headers

module _ (decode : Text → Option Text) where
  -- The percent decoder gives none where the bytes are not UTF-8.
  unfoldable pub decode_part : Text → Text
  decode_part s = if not (contains s b'%') then s else unwrap_or (decode s) s

  unfoldable pub add_pair : List (Text × Text) → Text → List (Text × Text)
  add_pair out pair =
      let kv = unwrap_or (split_once b'=' pair) (pair, []) in
      let key = decode_part kv.0 in
      let val = decode_part kv.1 in
      if is_empty pair
      then out
      else insert out key
          (elim (get out key) [ none ↦ val | some existing ↦ existing ++ (b',' ∷ val) ])

  unfoldable pub add_pairs : List (Text × Text) → List Text → List (Text × Text)
  add_pairs out [] = out
  add_pairs out (p ∷ ps) = add_pairs (add_pair out p) ps

  unfoldable pub extract_query : Text → List (Text × Text)
  extract_query query = add_pairs [] (split b'&' query)

unfoldable pub add_form_values : List (Text × Text) → Members → Members
add_form_values [] map = map
add_form_values ((k, v) ∷ pairs) map = add_form_values pairs (add_form_value map k (string v))

unfoldable pub parse_form_urlencoded_to_json : Http → Text → Value
parse_form_urlencoded_to_json http bytes = object (add_form_values (http.form_pairs bytes) end)

abbrev pub binary : Text → Value
binary ct = string (ascii "<binary " ++ (ct ++ ascii ">"))

-- `multipart` is the engine's parser of bodies.
unfoldable pub read_optional_json_body :
    Http → (Text → Text → Option Value) → Option Text → Text → Option Value
read_optional_json_body http multipart none bytes = none
read_optional_json_body http multipart (some ct_full) bytes =
    let ct = to_ascii_lowercase (trim (before b';' ct_full)) in
    if is_empty bytes
    then none
    else if text_eq ct (ascii "application/json")
    then http.from_slice bytes
    else if text_eq ct (ascii "application/x-www-form-urlencoded")
    then some (parse_form_urlencoded_to_json http bytes)
    else if text_eq ct (ascii "multipart/form-data")
    then or (multipart ct_full bytes) (some (binary ct))
    else if text_eq ct (ascii "application/octet-stream")
    then some (binary ct)
    else if starts_with ct (ascii "text/")
    then some (binary ct)
    else none

abbrev pub header_members : List (Text × Text) → Members → Members
header_members [] map = map
header_members ((k, v) ∷ hs) map = header_members hs (insert_field map k (string v))

unfoldable pub cookie_members : List Text → Members → Members
cookie_members [] map = map
cookie_members (p ∷ ps) map = elim (split_once b'=' (trim p)) [
  | none ↦ cookie_members ps map
  | some kv ↦ cookie_members ps (insert_field map (trim kv.0) (string (trim kv.1)))
]

unfoldable pub build_echo_envelope : Http → MockRequest → Text → Value
build_echo_envelope http req raw =
    let cookies : Members = elim (find_header req (ascii "cookie")) [
      | none ↦ end
      | some header ↦ cookie_members (split b';' header) end
    ] in
    let with_method = insert_field end (ascii "method") (string req.method) in
    let with_path = insert_field with_method (ascii "path") (string req.path) in
    let with_headers =
      insert_field with_path (ascii "headers") (object (header_members req.headers end)) in
    let with_cookies = insert_field with_headers (ascii "cookies") (object cookies) in
    let with_body = insert_field with_cookies (ascii "body") (string (http.lossy raw)) in
    object (insert_field with_body (ascii "contentLength") (number (pos_int (length raw))))
