-- ===== src/Lib.antt =====
-- Verification of chasm, an OpenAPI 3 mock server: the path of a request through
-- crates/chasm-engine and through the handler of crates/chasm-server around it.
--
-- Parts and interactions. `mock` (crates/chasm-engine/src/engine.rs) reads the directives of the
-- request (prefer.rs), merges them into the caller's configuration, lets the router choose an
-- operation (router.rs), evaluates the operation's security requirements (security.rs), validates
-- the request (validation.rs), resolves the status and its definition, negotiates the media type,
-- builds the body from examples or by the faker (crates/chasm-faker), and collects the headers.
-- The document comes from `load_spec` (crates/chasm-engine/src/loader.rs). The handler of
-- crates/chasm-server/src/main.rs makes the engine's request of the HTTP request, and an HTTP
-- response of the engine's answer or error.
--
-- Files and code:
--   Prelude, Prelude/*   Boolean tests, lists, `Option` and `Result` as monads, `Run` for panics
--   Text, Text/*         Rust's `str` as bytes of UTF-8, with the functions of its standard library
--   OpenApi              the data of the openapiv3 and serde_json crates that the engine reads
--   Request              `MockRequest` and the search of its headers
--   Prefer, Prefer/*     crates/chasm-engine/src/prefer.rs: `from_prefer_header`, `from_query`,
--                        `merge_query_over_header`, `from_request`
--   Security, Security/* crates/chasm-engine/src/security.rs: `evaluate` and what it calls
--   Router               crates/chasm-engine/src/router.rs: `route_request_with_strict`; the search
--                        over the paths is `try_paths`, the answer `conclude`
--   Router/Template      `match_template`, mixed segments, the count of literal segments
--   Router/Servers       base paths of servers and their placeholders
--   Router/Methods       the operations of a path item and the `Allow` header
--   Engine/Config        crates/chasm-engine/src/engine.rs: `MockConfig`, `merge_directives`, the
--                        faker's options and `apply_jsf_config`
--   Engine/Status        `resolve_status_and_response`, `lowest_2xx_response`
--   Engine/Negotiation   `negotiate_content_type`, `lookup_media_type`, `Accept`
--   Engine/Headers       `collect_response_headers` and the values of headers
--   Engine/Body          `build_body`, the choice of examples, `MockError`
--   Engine/Faker         the schemas that the faker is given, and `Services`, the record of the
--                        operations that the engine takes from elsewhere
--   Engine/Mock          `mock`: `respond` is what follows the merge, `serve` what follows the route,
--                        `answer` what follows the checks, `render` what follows the status
--   Validation/Whole     crates/chasm-engine/src/validation.rs: `validate`, the parameters that count
--   Validation/Parameters, Validation/DeepObjects, Validation/Coercion
--                        one parameter: its value from the request, the schema it is checked with
--   Validation/Body      `validate_body`, the parsing of bodies; Validation/Forms and
--                        Validation/Multipart the two encodings of forms
--   Validation/Dispatch  `validate_value`, by the kind of the schema; Validation/Values its loops,
--                        Validation/Scalars its checks of strings, numbers and Booleans
--   Validation/Formats   the formats of strings; Validation/Regex the cache of compiled patterns;
--                        Validation/Equality equality of JSON values
--   Validation/Library   what validation takes from other crates; Validation/Checked the results
--   Faker/Walk           crates/chasm-faker/src/lib.rs: `generate_static`; Faker/Static what it reads of
--                        a schema
--   Faker/Merge, Faker/RefResolver
--                        crates/chasm-faker/src/merge.rs and ref_resolver.rs
--   Loader/Load          crates/chasm-engine/src/loader.rs: `load_spec`; Loader/Normalize the passes over
--                        the tree, Loader/Semantics and Loader/Schemas the checks, Loader/Pointers JSON
--                        pointers, Loader/Yaml the tree, Loader/Places where the references, the
--                        schemas and the identifiers of a document stand, written without the walks
--   Server/Requests      crates/chasm-server/src/main.rs: headers, query, body and echo of a request
--   Server/Responses     `handle_request_inner` from the engine's answer on, `finalize_response`
--   Server/Problems      `problem_for_error` and the problem documents
--   Server/Routes        `match_route_template`, the label of the metrics
--   Server/Metrics       the counters and the histogram
--   Server/Http          responses and header maps
-- The modules below these hold the lemmas, each named for what it proves, and Tests the runs.
--
-- State. The engine keeps none but the cache of compiled patterns, which `cached_regex` takes and
-- gives back; elsewhere every function is a function of the document, the request and the
-- configuration. A loop with variables passes them as a record (`Search`, `Scan`). The metrics of
-- the server are maps that each recording takes and gives back: one atomic step is one update, so
-- an interleaving of requests is a sequence of recordings.
--
-- Bounds and fuel. Numbers are unbounded naturals, signed ones a sign with a natural; the parsers
-- of `u16`, `u32`, `u64` and `i128` refuse what does not fit, and the counters of the metrics
-- wrap. A loop over a text or a list is structural recursion. `validate_value` and
-- `validate_required_only` recurse through references of the document, so they take fuel, the
-- depth of recursion that is left, and `exhausted` is what runs out of it; the cursor of a
-- multipart body has fuel for each byte and one more. `walk_static` recurses on fuel too, for the
-- limit of depth and the references that are being walked; so do the passes of the loader, for the
-- depth of the document, which `inline_callback_refs_yaml` may deepen without end. `panicked` is a
-- panic of Rust, as is `panic` of `Run`, the value of a byte slice that Rust refuses, in the
-- parser of `Prefer`.
--
-- Maps. An `IndexMap` is its list of entries in order and a `HashMap` its list in the order of
-- iteration, keys unique. Text is its bytes, so lengths and offsets are Rust's.
--
-- Not modelled. Parameters of the model are the percent decoder, the rendering and parsing of
-- JSON, arithmetic on `f64` and the quality values, the regex crate, the parsers of IP addresses,
-- the serialised `components.schemas` (its thread-local cache is left out), the seeded generator
-- of crates/chasm-faker, for the loader the YAML crate and the file system, and for the server the
-- codecs, the hash, the validity of headers and what axum gives a response by default. `mock`
-- takes the validator and the static generator as parameters, since those of the development give
-- their results on fuel. Logging has no counterpart, nor have the warnings on parameter styles,
-- which are only logged. The fetching of remote references, the seeded generator, the command
-- line, the watcher, TLS, CORS and the other glue of crates/chasm-server over axum and tokio, and
-- the WebAssembly bindings are not modelled.
pub mod Engine
pub mod Faker
pub mod Loader
pub mod OpenApi
pub mod Prefer
pub mod Prelude
pub mod Request
pub mod Router
pub mod Security
pub mod Server
pub mod Text
pub mod Validation
