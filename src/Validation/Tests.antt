-- ===== src/Validation/Tests.antt =====
-- Runs of the validation, and the theorems at concrete inputs.
use chasm.Validation.Body.{body_media, resolve_request_body}
use mathlib.Core.List.{flatten}
use chasm.Router.Methods.{text_le}
use chasm.Engine.Values.{field, insert_field}
use chasm.Validation.Dispatch.SelfReference.{validate_value-self_reference}
use chasm.Validation.Forms.Roundtrip.{decode-encode, encode_bytes}
use chasm.Validation.Parameters.{
  parameter_dedupe_key, resolve_parameter, path_item_parameters_for_template, keep_first_seen,
  dedupe_parameters, resolve_all,
}
use chasm.Validation.Regex.{usable_regex}
use chasm.Validation.Multipart.Scan.{parse_multipart-Ends}
use mathlib.Core.Path.{subst}
use chasm.Validation.Whole.Ending.{validate-Ends}
use chasm.Request.{MockRequest}
use chasm.Validation.Whole.{validate, item_parameters, effective_parameters}
use chasm.Validation.Forms.{
  add_form_value, hex_digit, escaped_byte, add_form_pair, add_form_pairs,
  parse_form_urlencoded_to_json_value, decode_bytes, decode_form_urlencoded_bytes,
}
use chasm.Validation.Dispatch.{validate_value}
use chasm.Validation.Multipart.{
  name_in_lines, extract_form_data_name, add_part, find_subsequence, scan_parts, first_directive,
  extract_multipart_boundary, parse_multipart_field_names_to_json,
}
use chasm.Validation.Values.Depth.{depth}
use chasm.Validation.Whole.Parameters.{last_with-effective_parameters, count_with, last_with}
use chasm.Validation.Regex.Laws.{ask_all-IsCoherent, IsCoherent, ask_all}
use chasm.Validation.Coercion.{resolve_schema, resolve_boxed_schema}
use chasm.Prelude.{
  ◌<◌, map, ◌↔◌, ◌≤◌, ◌+◌, ◌%◌, ◌/◌, ◌*◌, ◌-◌, ◌==◌, leb, ltb, ℕ, true, false, some, none, or, List,
  [], ◌∷◌, ◌++◌, ◌≡◌, refl, sym, ◌⊎◌, inl, inr, arith,
}
use chasm.Prelude.Int.{pos, negsuc}
use chasm.Prelude.Result.{err}
use chasm.Text.{
  before, eq_ignore_ascii_case, to_ascii_lowercase, find, strip_last, trim, split_once, split,
  text_eq, get, strip_prefix, is_utf8, starts_with, Text, ascii,
}
use chasm.OpenApi.{
  nil, cons, array, branch, schema_kind, simple, Spec, Schema, described, SchemaData, SchemaKind,
  Branches, no_branch, property, no_property, unsaid, inline, pointer, all_of, object_type,
  IntegerType, Value, null, object, string, member, end, item, Operation, path_parameter,
  query_parameter, ParameterData, content, form,
}
use chasm.Validation.Dispatch.Ending.{Graded, Composes, Descends, validate_value-Ends}
use chasm.Validation.Scalars.Integers.{
  validate_integer_iff, Meets, validate_integer-eq-panicked_iff, i64_min, Overflows,
}
use chasm.Validation.Errors.{body}
use chasm.Validation.Checked.{Ends, done, exhausted, panicked}
use chasm.Validation.Scalars.{validate_integer}
use chasm.Validation.Library.{Floats, Library}

abbrev pub floats : Floats
floats = record {
  F64 = ℕ;
  of_number = (λ n. 0);
  parse = (λ s. none);
  to_number = (λ n. none);
  display = (λ n. []);
  lt = ltb;
  le = leb;
  eq = ◌==◌;
  sub = ◌-◌;
  mul = ◌*◌;
  div = ◌/◌;
  rem = ◌%◌;
  abs = (λ n. n);
  max = ◌+◌;
  zero = 0;
  one = 1;
  sixty_four = 64;
  epsilon = 0;
}

-- A pattern matches the texts that begin with it.
abbrev library : Library
library = record {
  floats = floats;
  compile = (λ p. some (λ s. starts_with s p));
  is_ipv4 = (λ s. false);
  is_ipv6 = (λ s. false);
  from_slice = (λ s. err (ascii "unread"));
}

abbrev plain_data : SchemaData
plain_data = record { example = none; json = null; nullable = false; discriminator = none }

-- A list: an `allOf` of an object whose `next` is a list.
abbrev link : Schema
link = described plain_data (
    object_type (property (ascii "next") (pointer (ascii "#/components/schemas/list")) no_property)
      [] unsaid)

abbrev list_schema : Schema
list_schema = described plain_data (all_of (branch (inline link) no_branch))

-- A schema that is a part of itself.
abbrev loop_branches : Branches
loop_branches = branch (pointer (ascii "#/components/schemas/loop")) no_branch

abbrev int_path : ParameterData
int_path = record { name = ascii "id"; required = true; format = content; explode = none }

abbrev lists : Spec
lists = record {
  servers = [];
  paths =
      (
        ascii "/a",
        item (record {
          get = none;
          put = none;
          post = none;
          delete = none;
          options = none;
          head = none;
          patch = none;
          trace = none;
          servers = [];
          parameters =
              item (path_parameter int_path simple) ∷ item (query_parameter int_path form) ∷ [];
        }),
      )
      ∷ [];
  components = some (record {
    security_schemes = [];
    responses = [];
    headers = [];
    examples = [];
    schemas =
        (ascii "list", item list_schema)
        ∷ (ascii "loop", item (described plain_data (all_of loop_branches)))
        ∷ [];
    parameters = [];
    request_bodies = [];
  });
  security = none;
  extensions = [];
}

abbrev rank_of : SchemaKind → ℕ
rank_of (all_of bs) = 1
rank_of _ = 0

abbrev IsPartOfList : Schema → Type 0
IsPartOfList s = (s ≡ list_schema) ⊎ (s ≡ link)

Composes-lists :
    (s : Schema)
    → IsPartOfList s
    → Composes lists
        (λ t. IsPartOfList t × rank_of (schema_kind t) < rank_of (schema_kind s))
        (schema_kind s)
unfolding resolve_boxed_schema resolve_schema
Composes-lists s h = elim h [
  | inl e ↦
      subst
        (λ s.
          Composes lists (λ t. IsPartOfList t × rank_of (schema_kind t) < rank_of (schema_kind s))
            (schema_kind s))
        (sym e) ((inr refl, omega arith), tt)
  | inr e ↦
      subst
        (λ s.
          Composes lists (λ t. IsPartOfList t × rank_of (schema_kind t) < rank_of (schema_kind s))
            (schema_kind s))
        (sym e) tt
]

Descends-lists : (s : Schema) → IsPartOfList s → Descends lists IsPartOfList (schema_kind s)
unfolding resolve_boxed_schema resolve_schema strip_prefix get text_eq
Descends-lists s h = elim h [
  | inl e ↦ subst (λ s. Descends lists IsPartOfList (schema_kind s)) (sym e) tt
  | inr e ↦ subst (λ s. Descends lists IsPartOfList (schema_kind s)) (sym e) ((inl refl, tt), tt)
]

rank_lists : (s : Schema) → IsPartOfList s → rank_of (schema_kind s) ≤ 1
rank_lists s h = elim h [
  | inl e ↦ subst (λ s. rank_of (schema_kind s) ≤ 1) (sym e) (omega arith)
  | inr e ↦ subst (λ s. rank_of (schema_kind s) ≤ 1) (sym e) (omega arith)
]

abbrev graded_lists : Graded lists
graded_lists = record {
  In = IsPartOfList;
  rank = (λ s. rank_of (schema_kind s));
  bound = 1;
  rank-bounded = rank_lists;
  composes = Composes-lists;
  descends = Descends-lists;
}

-- A list of two links.
abbrev two_links : Value
two_links = object (member (ascii "next") (object (member (ascii "next") (object end) end)) end)

validate_value-Ends_example :
    Ends (validate_value library 8 lists list_schema two_links body (ascii "body"))
unfolding depth
validate_value-Ends_example =
    validate_value-Ends library lists graded_lists 8 list_schema two_links body (ascii "body")
      (inl refl) (omega arith)

validate_value-self_reference_example :
    validate_value library 1000 lists
      (described plain_data (all_of loop_branches))
      two_links
      body
      (ascii "body")
    ≡ exhausted
unfolding resolve_boxed_schema resolve_schema strip_prefix get text_eq
validate_value-self_reference_example =
    validate_value-self_reference library lists 1000 plain_data
      (pointer (ascii "#/components/schemas/loop")) no_branch two_links body (ascii "body") refl
      refl

abbrev two_patterns : List Text
two_patterns = ascii "ab" ∷ ascii "cd" ∷ ascii "ab" ∷ []

ask_all-IsCoherent_example :
    ((ask_all library.compile [] two_patterns).0 ≡ map (usable_regex library.compile) two_patterns)
    × IsCoherent library.compile (ask_all library.compile [] two_patterns).1
ask_all-IsCoherent_example = ask_all-IsCoherent library.compile [] two_patterns (tt, omega arith)

-- The text `a %é`.
abbrev accented : Text
accented = 97 ∷ 32 ∷ 37 ∷ 195 ∷ 169 ∷ []

decode-encode_example : decode_form_urlencoded_bytes (encode_bytes accented) ≡ some accented
unfolding is_utf8
decode-encode_example =
    decode-encode accented
      (omega arith, (omega arith, (omega arith, (omega arith, (omega arith, tt))))) refl

parse_multipart-Ends_example : Ends (
    parse_multipart_field_names_to_json
      (ascii "multipart/form-data; boundary=b")
      (ascii "--b--b--"))
parse_multipart-Ends_example =
    parse_multipart-Ends (ascii "multipart/form-data; boundary=b") (ascii "--b--b--")

abbrev own_id : Operation
own_id = record {
  servers = [];
  security = none;
  parameters = item (path_parameter (record int_path { required = false }) simple) ∷ [];
  operation_id = none;
  request_body = none;
  responses = record { default = none; responses = [] };
  extensions = [];
}

abbrev id_key : Text × Text
id_key = (ascii "id", ascii "path")

last_with-effective_parameters_example :
    (last_with id_key (effective_parameters lists (some (ascii "/a")) own_id)
      ≡ or
          (last_with id_key (resolve_all lists own_id.parameters))
          (last_with id_key (resolve_all lists (item_parameters lists (some (ascii "/a"))))))
    × count_with id_key (effective_parameters lists (some (ascii "/a")) own_id) ≤ 1
last_with-effective_parameters_example =
    last_with-effective_parameters lists (some (ascii "/a")) own_id id_key

-- Even numbers from -4 to 9.
abbrev even_digit : IntegerType
even_digit = record {
  is_int32 = true;
  multiple_of = some (pos 2);
  exclusive_minimum = false;
  exclusive_maximum = true;
  minimum = some (negsuc 3);
  maximum = some (pos 10);
  enumeration = [];
}

validate_integer_iff_example :
    (validate_integer body (ascii "n") even_digit (negsuc 3) ≡ done [])
    ↔ Meets even_digit (negsuc 3)
validate_integer_iff_example = validate_integer_iff body (ascii "n") even_digit (negsuc 3) refl

abbrev opposite : IntegerType
opposite = record even_digit { is_int32 = false; multiple_of = some (negsuc 0) }

validate_integer-eq-panicked_iff_example :
    (validate_integer body (ascii "n") opposite i64_min ≡ panicked) ↔ Overflows opposite i64_min
validate_integer-eq-panicked_iff_example =
    validate_integer-eq-panicked_iff body (ascii "n") opposite i64_min

-- Two parts, one of them named.
abbrev two_parts : Text
two_parts =
    ascii "--b"
    ++ (13 ∷ 10 ∷ [])
    ++ ascii "Content-Disposition: form-data; name="
    ++ (34 ∷ b'a' ∷ 34 ∷ 13 ∷ 10 ∷ 13 ∷ 10 ∷ [])
    ++ ascii "1"
    ++ (13 ∷ 10 ∷ [])
    ++ ascii "--b--"

two_parts_run :
    parse_multipart_field_names_to_json (ascii "multipart/form-data; boundary=b") two_parts
    ≡ done (object (member (ascii "a") (string []) end))
unfolding parse_multipart_field_names_to_json extract_multipart_boundary first_directive scan_parts
    find_subsequence add_part extract_form_data_name name_in_lines is_utf8 split trim strip_prefix
    strip_last find starts_with to_ascii_lowercase insert_field text_eq field flatten
two_parts_run = refl

form_run :
    parse_form_urlencoded_to_json_value (ascii "a=1&b=%41&a=2")
    ≡ object (
        member
          (ascii "a")
          (array (cons (string (ascii "1")) (cons (string (ascii "2")) nil)))
          (member (ascii "b") (string (ascii "A")) end))
unfolding parse_form_urlencoded_to_json_value add_form_pairs add_form_pair
    decode_form_urlencoded_bytes decode_bytes escaped_byte hex_digit is_utf8 split split_once
    insert_field text_eq field add_form_value text_le
form_run = refl

-- A list is to be sent.
abbrev posting : Operation
posting = record own_id {
  request_body = some (
      item (record {
        required = true;
        content =
            (
              ascii "application/json",
              record { schema = some (item list_schema); example = none; examples = [] },
            )
            ∷ [];
      }));
}

abbrev post_links : MockRequest
post_links = record {
  method = ascii "POST";
  path = ascii "/a";
  headers = (ascii "Content-Type", ascii "application/json") ∷ [];
  query = [];
  body = some two_links;
}

validate-Ends_example : Ends (validate library lists 10 (some (ascii "/a")) posting [] post_links)
unfolding effective_parameters dedupe_parameters keep_first_seen resolve_all
    path_item_parameters_for_template resolve_parameter parameter_dedupe_key resolve_request_body
    body_media eq_ignore_ascii_case trim before resolve_schema get text_eq depth
validate-Ends_example =
    validate-Ends library lists graded_lists 10 (some (ascii "/a")) posting [] post_links
      (tt, (tt, tt)) (inl refl) (omega arith)
