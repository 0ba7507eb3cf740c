-- ===== src/Validation/Multipart/Scan.antt =====
-- The loop over the parts of a multipart body.
use chasm.Prelude.{unwrap_or, ℕ, zero, suc, [], ◌∷◌, ◌++◌, inl, inr, Option-cases, arith}
use chasm.Prelude.{
  ℕ, zero, suc, ◌≤◌, ◌<◌, ◌+◌, ◌-◌, ◌++◌, [], ◌∷◌, length, drop, take, arith, inl, inr,
  Option-cases,
}
use chasm.Text.{Text, ascii}
use chasm.OpenApi.{Members, end}
use chasm.Validation.Checked.{Ends}
use chasm.Validation.Values.Ending.{Ends->>=}
use chasm.Validation.Multipart.{
  find_subsequence, add_part, scan_parts, extract_multipart_boundary,
  parse_multipart_field_names_to_json,
}

length-drop : (n : ℕ) (s : Text) → length (drop n s) ≤ length s - n
length-drop zero s = omega arith
length-drop (suc n) [] = omega arith
length-drop (suc n) (c ∷ s) = omega (arith, length-drop n s)

-- Each turn leaves fewer bytes.
scan_parts-Ends :
    (fuel : ℕ) (delimiter rest : Text) (map : Members)
    → 0 < length delimiter
    → length rest < fuel
    → Ends (scan_parts fuel delimiter rest map)
unfolding scan_parts
scan_parts-Ends zero delimiter rest map p h = absurd (omega arith)
scan_parts-Ends (suc fuel) delimiter [] map p h = tt
scan_parts-Ends (suc fuel) delimiter (c ∷ s) map p h =
    elim (Option-cases (find_subsequence (c ∷ s) delimiter)) [
      | inl e ↦ rw (e, scan_parts) tt
      | inr (start, e) ↦
          let after = drop (start + length delimiter) (c ∷ s) in
          let part_end = unwrap_or (find_subsequence after delimiter) (length after) in
          rw (e, scan_parts)
            (scan_parts-Ends fuel delimiter (drop part_end after)
              (add_part (take part_end after) map) p
              (omega (
                arith,
                length-drop part_end after,
                length-drop (start + length delimiter) (c ∷ s),
              )))
    ]

-- The scan of a multipart body for its field names ends for every content type and every body,
-- within one turn for each byte and one more.
pub parse_multipart-Ends :
    (content_type raw : Text) → Ends (parse_multipart_field_names_to_json content_type raw)
unfolding parse_multipart_field_names_to_json
parse_multipart-Ends content_type raw =
    elim (Option-cases (extract_multipart_boundary content_type)) [
      | inl e ↦ rw (e, parse_multipart_field_names_to_json) tt
      | inr (boundary, e) ↦
          rw (e, parse_multipart_field_names_to_json)
            (Ends->>= _ _
              (scan_parts-Ends (suc (length raw)) (ascii "--" ++ boundary) raw end (omega arith)
                (omega arith))
              (λ map. tt))
    ]
