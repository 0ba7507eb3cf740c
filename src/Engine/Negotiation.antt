-- ===== src/Engine/Negotiation.antt =====
-- crates/chasm-engine/src/engine.rs: the choice of a media type.
pub mod Accept
pub mod Best
pub mod Laws
use chasm.Prelude.{
  Bool, false, not, ◌&&◌, Option, some, none, List, [], ◌∷◌, ◌++◌, or, is_empty, find_first,
  if◌then◌else◌,
}
use chasm.Text.{
  Text, ascii, text_eq, before, split, split_once, starts_with, strip_prefix, trim, get,
}
use chasm.OpenApi.{MediaType}
use chasm.Request.{MockRequest, find_header}

-- The floating-point numbers of `q=`: `f64` with `str::parse`, `1.0`, `> 0.0` and `a > b`. The code
-- keeps only numbers above zero, which `partial_cmp` orders totally.
pub record Quality : Type 1 where
  pub F64 : Type 0
  pub parse : Text → Option F64
  pub one : F64
  pub is_positive : F64 → Bool
  pub gt : F64 → F64 → Bool

pub data ContentNegotiation : Type 0 where
  selected : Text → ContentNegotiation
  not_acceptable : List Text → ContentNegotiation

unfoldable pub strip_media_params : Text → Text
strip_media_params media = trim (before b';' media)

unfoldable pub is_plausible_media_key : Text → Bool
is_plausible_media_key key = elim (split_once b'/' (strip_media_params key)) [
  | none ↦ false
  | some (ty, subtype) ↦ not (is_empty (trim ty)) && not (is_empty (trim subtype))
]

-- `content.keys().filter(is_plausible_media_key)`.
unfoldable pub valid_keys : List (Text × MediaType) → List Text
valid_keys [] = []
valid_keys ((k, _) ∷ content) =
    let rest = valid_keys content in if is_plausible_media_key k then k ∷ rest else rest

abbrev pub first : List Text → Option Text
first [] = none
first (k ∷ ks) = some k

-- `strip_suffix("/*")`.
unfoldable pub strip_any_subtype : Text → Option Text
strip_any_subtype [] = none
strip_any_subtype (c ∷ s) =
    let rest = strip_any_subtype s in
    if text_eq (c ∷ s) (ascii "/*")
    then some []
    else elim rest [ none ↦ none | some t ↦ some (c ∷ t) ]

-- What one range of the header selects among the keys.
unfoldable pub select_for_range : List Text → Text → Option Text
select_for_range keys range =
    if text_eq range (ascii "*/*")
    then first keys
    else or (find_first (λ k. text_eq (strip_media_params k) range) keys)
        (elim (strip_any_subtype range) [
          | none ↦ none
          | some stripped ↦
              find_first (λ k. starts_with (strip_media_params k) (stripped ++ ascii "/")) keys
        ])

module _ (quality : Quality) where
  -- The last `q=` that is a number counts.
  unfoldable pub parse_params : List Text → quality.F64 → quality.F64
  parse_params [] q = q
  parse_params (p ∷ params) q = elim (strip_prefix (trim p) (ascii "q=")) [
    | none ↦ parse_params params q
    | some rest ↦ elim (quality.parse rest) [
      | none ↦ parse_params params q
      | some v ↦ parse_params params v
    ]
  ]

  unfoldable pub parse_accept_entry : Text → Option (Text × quality.F64)
  parse_accept_entry entry =
      if is_empty (trim entry) then none else elim (split b';' (trim entry)) [
        | [] ↦ none
        | media ∷ params ↦ some (trim media, parse_params params quality.one)
      ]

  -- The ranges of a header whose quality is above zero, in order.
  unfoldable pub parse_ranges : List Text → List (Text × quality.F64)
  parse_ranges [] = []
  parse_ranges (entry ∷ entries) =
      let rest = parse_ranges entries in
      elim (parse_accept_entry entry) [
        | none ↦ rest
        | some e ↦ if quality.is_positive e.1 then e ∷ rest else rest
      ]

  -- `sort_by` on descending quality is stable: a range stays before those of its own quality.
  unfoldable pub insert_range :
      Text × quality.F64 → List (Text × quality.F64) → List (Text × quality.F64)
  insert_range e [] = e ∷ []
  insert_range e (f ∷ fs) = if quality.gt f.1 e.1 then f ∷ insert_range e fs else e ∷ f ∷ fs

  unfoldable pub sort_ranges : List (Text × quality.F64) → List (Text × quality.F64)
  sort_ranges [] = []
  sort_ranges (e ∷ es) = insert_range e (sort_ranges es)

  -- The loop over the sorted ranges.
  unfoldable pub try_ranges : List Text → List (Text × quality.F64) → Option Text
  try_ranges keys [] = none
  try_ranges keys (e ∷ es) = or (select_for_range keys e.0) (try_ranges keys es)

  unfoldable pub negotiate_content_type : List (Text × MediaType) → MockRequest → ContentNegotiation
  negotiate_content_type content req =
      let keys = valid_keys content in
      elim (find_header req (ascii "accept")) [
        | none ↦ elim keys [ [] ↦ selected (ascii "application/json") | k ∷ _ ↦ selected k ]
        | some accept ↦ elim (try_ranges keys (sort_ranges (parse_ranges (split b',' accept)))) [
          | some ct ↦ selected ct
          | none ↦
              if is_empty keys then selected (ascii "application/json") else not_acceptable keys
        ]
      ]

-- The media types of a bare type, malformed keys skipped.
unfoldable pub lookup_bare : List (Text × MediaType) → Text → Option MediaType
lookup_bare [] content_type = none
lookup_bare ((k, v) ∷ content) content_type =
    if is_plausible_media_key k && text_eq (strip_media_params k) content_type
    then some v
    else lookup_bare content content_type

unfoldable pub lookup_media_type : List (Text × MediaType) → Text → Option MediaType
lookup_media_type content content_type =
    or (if is_plausible_media_key content_type then get content content_type else none)
      (lookup_bare content content_type)
