-- ===== src/Validation/Formats.antt =====
-- crates/chasm-engine/src/validation.rs: the formats of strings.
use chasm.Prelude.{
  ◌^◌, ℕ, Bool, true, false, not, ◌&&◌, ◌||◌, some, none, List, [], ◌∷◌, ◌++◌, ◌-◌, ◌%◌, ltb, leb,
  ◌==◌, length, take, drop, is_empty, if◌then◌else◌,
}
use chasm.Text.{Text, ascii, text_eq, split, parse_uint, is_char_boundary}
use chasm.Validation.Errors.{ValidationError, ValidationLocation, new}
use chasm.Validation.Library.{Library}
use chasm.Validation.Regex.{usable_regex}

abbrev pub max_u32 : ℕ
max_u32 = 2 ^ 32 - 1

-- `s.get(a..b).and_then(|p| p.parse().ok()).unwrap_or(0)` for a `u32`.
unfoldable pub number_at : Text → ℕ → ℕ → ℕ
number_at s a b =
    if leb b (length s) && (is_char_boundary s a && is_char_boundary s b)
    then elim (parse_uint max_u32 (take (b - a) (drop a s))) [ some n ↦ n | none ↦ 0 ]
    else 0

-- The days of a month, none for a month that is not there.
unfoldable pub last_day : ℕ → ℕ → ℕ
last_day year month =
    if month == 2
    then (if (year % 4 == 0 && not (year % 100 == 0)) || year % 400 == 0 then 29 else 28)
    else if month == 4 || month == 6 || month == 9 || month == 11
    then 30
    else 31

unfoldable pub is_valid_ymd : ℕ → ℕ → ℕ → Bool
unfolding last_day
is_valid_ymd year month day =
    if not (leb 1 month && leb month 12) || day == 0 then false else leb day (last_day year month)

-- Whether a byte of base64 content.
abbrev pub is_base64_byte : ℕ → Bool
is_base64_byte b =
    (leb b'0' b && leb b b'9')
    || (leb b'A' b && leb b b'Z')
    || (leb b'a' b && leb b b'z')
    || b == b'+'
    || b == b'/'

abbrev pub all : (ℕ → Bool) → Text → Bool
all p [] = true
all p (b ∷ s) = p b && all p s

-- The byte at an offset, if it is `=`.
abbrev pub pad_at : Text → ℕ → Bool
pad_at s i = text_eq (take 1 (drop i s)) (b'=' ∷ [])

-- Where the content ends, before at most two signs of padding.
unfoldable pub content_end : Text → ℕ
content_end s =
    let n = length s in
    let m = if pad_at s (n - 1) then n - 1 else n in
    if ltb 0 m && pad_at s (m - 1) then m - 1 else m

unfoldable pub is_valid_base64 : Text → Bool
unfolding content_end
is_valid_base64 s =
    if is_empty s
    then true
    else if not (length s % 4 == 0)
    then false
    else all is_base64_byte (take (content_end s) s)
      && all (λ b. b == b'=') (drop (content_end s) s)

abbrev pub date_pattern : Text
date_pattern = ascii "^\\d{4}-\\d{2}-\\d{2}$"

abbrev pub time_pattern : Text
time_pattern = ascii "^\\d{2}:\\d{2}:\\d{2}$"

abbrev pub date_time_pattern : Text
date_time_pattern =
    ascii "^\\d{4}-\\d{2}-\\d{2}[Tt]\\d{2}:\\d{2}:\\d{2}(\\.\\d+)?([Zz]|[+\\-]\\d{2}:\\d{2})$"

abbrev pub hostname_pattern : Text
hostname_pattern = ascii "^[a-zA-Z0-9-]+(\\.[a-zA-Z0-9-]+)*$"

abbrev pub email_pattern : Text
email_pattern = ascii "^[A-Za-z0-9._%+-]+@[A-Za-z0-9.-]+\\.[A-Za-z]{2,}$"

abbrev pub uri_pattern : Text
uri_pattern = ascii "^[A-Za-z][A-Za-z0-9+.\\-]*:"

abbrev pub uuid_pattern : Text
uuid_pattern = ascii "^[0-9a-fA-F]{8}-[0-9a-fA-F]{4}-[0-9a-fA-F]{4}-[0-9a-fA-F]{4}-[0-9a-fA-F]{12}$"

module _ (lib : Library) where
  -- `cached_regex(p).map(|r| r.is_match(s)).unwrap_or(d)`.
  unfoldable pub is_match_or : Bool → Text → Text → Bool
  is_match_or d pattern s = elim (usable_regex lib.compile pattern) [ none ↦ d | some r ↦ r s ]

  unfoldable pub is_valid_rfc3339_date_time : Text → Bool
  is_valid_rfc3339_date_time s = elim (usable_regex lib.compile date_time_pattern) [
    | none ↦ true
    | some r ↦
        r s
        && (is_valid_ymd (number_at s 0 4) (number_at s 5 7) (number_at s 8 10)
            && (ltb (number_at s 11 13) 24
                && (ltb (number_at s 14 16) 60 && leb (number_at s 17 19) 60)))
  ]

  unfoldable pub is_valid_iso_date : Text → Bool
  is_valid_iso_date s =
      if not (is_match_or false date_pattern s)
      then false
      else is_valid_ymd (number_at s 0 4) (number_at s 5 7) (number_at s 8 10)

  unfoldable pub is_valid_iso_time : Text → Bool
  is_valid_iso_time s =
      if not (is_match_or false time_pattern s)
      then false
      else ltb (number_at s 0 2) 24 && (ltb (number_at s 3 5) 60 && leb (number_at s 6 8) 60)

  abbrev all_labels : List Text → Bool
  all_labels [] = true
  all_labels (l ∷ ls) = not (is_empty l) && leb (length l) 63 && all_labels ls

  unfoldable pub is_valid_hostname : Text → Bool
  is_valid_hostname s =
      if not (is_match_or false hostname_pattern s) then false else all_labels (split b'.' s)

  unfoldable pub matches_format : Text → Text → Bool
  matches_format value format =
      if text_eq format (ascii "email")
      then is_match_or true email_pattern value
      else if text_eq format (ascii "uri") || text_eq format (ascii "uri-reference")
      then is_match_or true uri_pattern value
      else if text_eq format (ascii "uuid")
      then is_match_or true uuid_pattern value
      else if text_eq format (ascii "date-time")
      then is_valid_rfc3339_date_time value
      else if text_eq format (ascii "date")
      then is_valid_iso_date value
      else if text_eq format (ascii "time")
      then is_valid_iso_time value
      else if text_eq format (ascii "ipv4")
      then lib.is_ipv4 value
      else if text_eq format (ascii "ipv6")
      then lib.is_ipv6 value
      else if text_eq format (ascii "hostname")
      then is_valid_hostname value
      else if text_eq format (ascii "byte")
      then is_valid_base64 value
      else true

  unfoldable pub validate_format : Text → Text → ValidationLocation → Text → List ValidationError
  validate_format value format location field =
      if matches_format value format
      then []
      else new location field (ascii "format")
          (ascii "value '" ++ (value ++ (ascii "' is not a valid " ++ format)))
        ∷ []

  unfoldable pub check_pattern : Text → Text → ValidationLocation → Text → List ValidationError
  check_pattern s pattern location field =
      if is_match_or true pattern s
      then []
      else new location field (ascii "pattern") (ascii "value did not match pattern " ++ pattern)
        ∷ []
