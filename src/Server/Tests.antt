-- ===== src/Server/Tests.antt =====
-- Runs of the server's parts, and the theorems at concrete inputs.
use chasm.Engine.Config.{default}
use chasm.Server.Requests.Headers.{get-extract_headers, values_of}
use chasm.Server.Responses.Bodyless.{respond_to-IsEmpty, IsEmpty}
use chasm.Server.Requests.Query.{get-extract_query, values_under}
use chasm.Server.Requests.Merge.{merged}
use chasm.Server.Requests.{
  decode_part, add_header, is_comma_unsafe_header, add_pair, add_headers, add_pairs, extract_query,
  extract_headers,
}
use chasm.Server.Metrics.Histogram.{get-record_durations-nil, record_durations, summary_of}
use chasm.Server.Metrics.Counts.{count_of-record_all-nil, occurrences, record_all, count_of}
use chasm.Server.Responses.{respond_to, is_bodyless_status}
use chasm.Prelude.{
  ℕ, true, false, none, some, List, [], ◌∷◌, ◌≡◌, ◌+◌, ◌%◌, ◌^◌, leb, refl, Option, ◌*◌, ◌-◌, ◌/◌,
  ◌==◌, if◌then◌else◌,
}
use chasm.Text.{
  contains, split_once, eq_ignore_ascii_case, split, Text, ascii, get, to_ascii_lowercase,
  to_ascii_uppercase, insert, text_eq,
}
use chasm.OpenApi.{null, string}
use chasm.Prelude.Result.{ok}
use chasm.Request.{MockRequest}
use chasm.Engine.Mock.{MockResponse}
use chasm.Server.Http.{Http}
use chasm.Server.Metrics.{Durations, RequestKey}

abbrev http : Http
http = record {
  header_name = (λ s. some (to_ascii_lowercase s));
  is_value = (λ s. true);
  to_string = (λ v. ascii "null");
  from_slice = (λ s. some null);
  compress = (λ token s. some s);
  hash = (λ s. ascii "0123456789abcdef");
  lossy = (λ s. s);
  form_pairs = (λ s. []);
  byte_headers = (ascii "content-type", ascii "application/octet-stream") ∷ [];
  unencodable = record { status = 500; headers = []; body = [] };
}

abbrev conditional_get : MockRequest
conditional_get = record {
  method = ascii "GET";
  path = ascii "/";
  headers = (ascii "accept", ascii "*/*") ∷ [];
  query = [];
  body = none;
}

abbrev no_content : MockResponse
no_content = record {
  status = 204;
  content_type = ascii "application/json";
  body = string (ascii "unsent");
  headers = (ascii "Content-Type", ascii "text/plain") ∷ (ascii "X-A", ascii "1") ∷ [];
  delay_ms = none;
  content_encoding = some (ascii "gzip");
  echo = false;
}

respond_to-IsEmpty_example :
    IsEmpty (respond_to http (ascii "GET") default conditional_get [] (ascii "id") (ok no_content))
unfolding is_bodyless_status
respond_to-IsEmpty_example =
    respond_to-IsEmpty http (ascii "GET") default conditional_get [] (ascii "id") no_content refl

abbrev twice : List (Text × Option Text)
twice =
    (ascii "accept", some (ascii "a"))
    ∷ (ascii "cookie", some (ascii "b=1"))
    ∷ (ascii "accept", none)
    ∷ (ascii "accept", some (ascii "c"))
    ∷ (ascii "cookie", some (ascii "d=2"))
    ∷ []

get-extract_headers_example :
    get (extract_headers twice) (ascii "accept")
    ≡ merged
        (ascii ", ")
        (is_comma_unsafe_header (ascii "accept"))
        (values_of (ascii "accept") twice)
get-extract_headers_example = get-extract_headers twice (ascii "accept")

extract_headers_run :
    extract_headers twice ≡ (ascii "accept", ascii "a, c") ∷ (ascii "cookie", ascii "b=1") ∷ []
unfolding extract_headers add_headers add_header is_comma_unsafe_header get insert text_eq
    eq_ignore_ascii_case to_ascii_lowercase
extract_headers_run = refl

abbrev keep : Text → Option Text
keep s = some s

get-extract_query_example :
    get (extract_query keep (ascii "a=1&&b&a=2")) (ascii "a")
    ≡ merged (ascii ",") false (values_under keep (ascii "a") (split b'&' (ascii "a=1&&b&a=2")))
get-extract_query_example = get-extract_query keep (ascii "a=1&&b&a=2") (ascii "a")

extract_query_run :
    extract_query keep (ascii "a=1&&b&a=2") ≡ (ascii "a", ascii "1,2") ∷ (ascii "b", []) ∷ []
unfolding extract_query add_pairs add_pair decode_part get insert text_eq split split_once contains
extract_query_run = refl

abbrev served : List (Text × Text × ℕ)
served =
    (ascii "get", ascii "/a", 200)
    ∷ (ascii "GET", ascii "/a", 200)
    ∷ (ascii "GET", ascii "/b", 404)
    ∷ []

abbrev get_a : RequestKey
get_a = (ascii "GET", ascii "/a", 200)

count_of-record_all-nil_example :
    count_of (record_all [] served) get_a ≡ occurrences get_a served % 2 ^ 64
count_of-record_all-nil_example = count_of-record_all-nil served get_a

-- A literal of seconds, with at least one digit after the point, in milliseconds.
abbrev fraction : ℕ → ℕ → Text → ℕ
fraction n place [] = n * 1000
fraction n place (c ∷ s) = (c - 48) * place + fraction n (place / 10) s

abbrev decimals : ℕ → Text → ℕ
decimals n [] = n * 1000
decimals n (c ∷ s) = if c == 46 then fraction n 100 s else decimals (n * 10 + (c - 48)) s

-- Durations in milliseconds.
abbrev milliseconds : Durations
milliseconds = record { S = ℕ; add = ◌+◌; le = leb; zero = 0; literal = decimals 0 }

abbrev timed : List (Text × ℕ)
timed = (ascii "get", 70) ∷ (ascii "POST", 9) ∷ (ascii "GET", 60) ∷ (ascii "get", 6000) ∷ []

get-record_durations-nil_example :
    get (record_durations milliseconds [] timed) (ascii "GET")
    ≡ summary_of milliseconds (70 ∷ 60 ∷ 6000 ∷ [])
unfolding text_eq to_ascii_uppercase
get-record_durations-nil_example = get-record_durations-nil milliseconds timed (ascii "GET")

-- The bounds are 5, 10, 50, 100, 500, 1000 and 5000 milliseconds.
summary_run :
    summary_of milliseconds (70 ∷ 60 ∷ 6000 ∷ [])
    ≡ some record { buckets = 0 ∷ 0 ∷ 0 ∷ 2 ∷ 2 ∷ 2 ∷ 2 ∷ []; count = 3; sum = 6130 }
summary_run = refl
