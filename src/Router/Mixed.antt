-- ===== src/Router/Mixed.antt =====
-- Segments that mix literals and parameters: what the template's parts are, and what a match means.
use chasm.Text.Search.Laws.{strip_prefix_sound, split_once_sound}
use chasm.Text.{starts_with, insert, strip_prefix, IsAscii, find, split_once, Text}
use chasm.Router.Template.{
  match_mixed_segment, byte_as_char, match_parts, split_template_parts, brace_name,
  template_parts_from, param, literal, flush, TemplatePart,
}
use chasm.Prelude.{
  is_empty, if◌then◌else◌, Option, none, ◌+◌, ◌≤◌, zero, append-nil, append_assoc, sym, ◌∙◌, ap,
  ◌≢◌, suc, take, ◌≡◌, ◌∷◌, ℕ, some, refl, length, inr, inl, drop, arith, [], Option-cases, List,
  Bool-cases, ◌==◌, ◌++◌,
}

-- The parts, written as a template again.
abbrev pub unparse : List TemplatePart → Text
unparse [] = []
unparse (literal l ∷ parts) = l ++ unparse parts
unparse (param name ∷ parts) = b'{' ∷ (name ++ (b'}' ∷ unparse parts))

unparse-flush :
    (buf : Text) (parts : List TemplatePart) → unparse (flush buf parts) ≡ buf ++ unparse parts
unparse-flush [] parts = refl
unparse-flush (c ∷ buf) parts = refl

drop-append : (xs ys : Text) → drop (length xs) (xs ++ ys) ≡ ys
drop-append [] ys = refl
drop-append (x ∷ xs) ys = drop-append xs ys

drop-append_suc : (c : ℕ) (xs ys : Text) → drop (suc (length xs)) (xs ++ c ∷ ys) ≡ ys
drop-append_suc c [] ys = refl
drop-append_suc c (x ∷ xs) ys = drop-append_suc c xs ys

brace_name_sound :
    (s name : Text) (n : ℕ) → brace_name s ≡ some (name, n) → name ++ (b'}' ∷ drop n s) ≡ s
unfolding brace_name
brace_name_sound s name n e = elim (Option-cases (split_once b'}' s)) [
  | inl q ↦ absurd (ground (arith, q, e))
  | inr ((name', rest), q) ↦
      let whole = split_once_sound b'}' s name' rest q in
      let same : name' ≡ name = ground (arith, q, e) in
      let skip : suc (length name') ≡ n = ground (arith, q, e) in
      rw (← skip, ← same, whole) (ap (λ t. name' ++ (b'}' ∷ t)) (drop-append_suc b'}' name' rest))
]

unparse-template_parts_from :
    (skip : ℕ) (buf s : Text)
    → IsAscii s
    → unparse (template_parts_from skip buf s) ≡ buf ++ drop skip s
unfolding template_parts_from
unparse-template_parts_from zero buf [] h = unparse-flush buf []
unparse-template_parts_from (suc skip) buf [] h = unparse-flush buf []
unparse-template_parts_from (suc skip) buf (c ∷ s) (a, h) = unparse-template_parts_from skip buf s h
unparse-template_parts_from zero buf (c ∷ s) (a, h) = elim (Bool-cases (c == b'{')) [
  | inl q ↦
      let brace : c ≡ b'{' = ground arith in
      elim (Option-cases (brace_name s)) [
        | inl n ↦
            rw (q, n)
              (unparse-flush buf _
                ∙ ap (λ t. buf ++ t) (unparse-template_parts_from zero (c ∷ []) s h))
        | inr ((name, k), n) ↦
            rw (q, n)
              (unparse-flush buf _
                ∙ ap (λ t. buf ++ t)
                    (ap (λ t. b'{' ∷ (name ++ (b'}' ∷ t))) (unparse-template_parts_from k [] s h)
                      ∙ rw brace (ap (λ t. b'{' ∷ t) (brace_name_sound s name k n))))
      ]
  | inr q ↦ rw q (
      unparse-template_parts_from zero (buf ++ byte_as_char c) s h
      ∙ unfold byte_as_char in ground (arith, append_assoc buf (c ∷ []) s))
]

-- The parts of an ASCII segment, written out, are the segment.
pub unparse-split_template_parts :
    (template : Text) → IsAscii template → unparse (split_template_parts template) ≡ template
unfolding split_template_parts
unparse-split_template_parts template h = unparse-template_parts_from 0 [] template h

-- How a text is cut along the parts of a template: literals stand as they are, and each parameter
-- is bound to a text that is not empty.
pub data Fits : List TemplatePart → Text → List (Text × Text) → List (Text × Text) → Type 0 where
  done : {ps : List (Text × Text)} → Fits [] [] ps ps
  stands :
      {l actual : Text} {parts : List TemplatePart} {ps ps' : List (Text × Text)} (rest : Text)
      → actual ≡ l ++ rest
      → Fits parts rest ps ps'
      → Fits (literal l ∷ parts) actual ps ps'
  captures :
      {name actual : Text} {parts : List TemplatePart} {ps ps' : List (Text × Text)} (v rest : Text)
      → actual ≡ v ++ rest
      → v ≢ []
      → Fits parts rest (insert ps name v) ps'
      → Fits (param name ∷ parts) actual ps ps'

take-append-drop : (n : ℕ) (s : Text) → s ≡ take n s ++ drop n s
take-append-drop zero s = refl
take-append-drop (suc n) [] = refl
take-append-drop (suc n) (c ∷ s) = ap (λ t. c ∷ t) (take-append-drop n s)

find-nil : (lit : Text) (n : ℕ) → find [] lit ≢ some (suc n)
unfolding find
find-nil lit n = ground arith

take-ne-nil : (n : ℕ) (s lit : Text) → find s lit ≡ some (suc n) → take (suc n) s ≢ []
take-ne-nil n [] lit e = absurd (find-nil lit n e)
take-ne-nil n (c ∷ s) lit e = λ q. cc

match_parts_sound :
    (parts : List TemplatePart) (actual : Text) (ps ps' : List (Text × Text))
    → match_parts parts actual ps ≡ some ps'
    → Fits parts actual ps ps'
unfolding match_parts
match_parts_sound [] [] ps ps' e = let p : ps ≡ ps' = cc in rw p done
match_parts_sound [] (c ∷ s) ps ps' e = cc
match_parts_sound (literal lit ∷ parts) actual ps ps' e =
    elim (Option-cases (strip_prefix actual lit)) [
      | inl n ↦ absurd (ground (arith, n, e))
      | inr (rest, n) ↦
          stands rest (strip_prefix_sound actual lit rest n)
            (match_parts_sound parts rest ps ps' (rw (n, match_parts) at e))
    ]
match_parts_sound (param name ∷ []) [] ps ps' e = cc
match_parts_sound (param name ∷ []) (c ∷ s) ps ps' e =
    let p : insert ps name (c ∷ s) ≡ ps' = cc in
    captures (c ∷ s) [] (sym (append-nil (c ∷ s))) (λ q. cc) (rw p done)
match_parts_sound (param name ∷ param next ∷ parts) actual ps ps' e = cc
match_parts_sound (param name ∷ literal lit ∷ parts) actual ps ps' e =
    elim (Option-cases (find actual lit)) [
      | inl n ↦ absurd (ground (arith, n, e))
      | inr (zero, n) ↦ absurd (ground (arith, n, e))
      | inr (suc off, n) ↦
          captures (take (suc off) actual) (drop (suc off) actual)
            (take-append-drop (suc off) actual) (take-ne-nil off actual lit n)
            (match_parts_sound (literal lit ∷ parts) (drop (suc off) actual) _ ps'
              (rw (n, match_parts) at e))
    ]

-- When a mixed segment of an ASCII template matches, the template is its parts written out, and the
-- segment is cut along them: literals as they are, each parameter bound to a text that is not empty.
pub match_mixed_segment_sound :
    (template actual : Text) (ps ps' : List (Text × Text))
    → IsAscii template
    → match_mixed_segment template actual ps ≡ some ps'
    → (unparse (split_template_parts template) ≡ template)
      × Fits (split_template_parts template) actual ps ps'
unfolding match_mixed_segment
match_mixed_segment_sound template actual ps ps' h e = (
  unparse-split_template_parts template h,
  match_parts_sound (split_template_parts template) actual ps ps' e,
)

find-le : (s lit : Text) (n : ℕ) → find s lit ≡ some n → n ≤ length s
unfolding find
find-le [] lit n e = ground arith
find-le (c ∷ s) lit n e = elim (Bool-cases (starts_with (c ∷ s) lit)) [
  | inl q ↦ ground (arith, q, e)
  | inr q ↦ elim (Option-cases (find s lit)) [
    | inl m ↦ ground (arith, q, m, e)
    | inr (k, m) ↦ let ih = find-le s lit k m in ground (arith, q, m, e, ih)
  ]
]

length-drop : (n : ℕ) (s : Text) → n ≤ length s → length (drop n s) + n ≡ length s
length-drop zero s h = omega arith
length-drop (suc n) [] h = absurd (omega arith)
length-drop (suc n) (c ∷ s) h = omega (arith, length-drop n s (omega arith))

-- A parameter before a literal ends at the literal's first occurrence: where the text goes on behind
-- that occurrence, a segment that ends with the literal is not matched, even though the text up to
-- a later occurrence would do.
pub match_parts-first_occurrence :
    (name lit actual : Text) (off : ℕ) (ps : List (Text × Text))
    → find actual lit ≡ some off
    → off + length lit ≢ length actual
    → match_parts (param name ∷ literal lit ∷ []) actual ps ≡ none
unfolding match_parts
match_parts-first_occurrence name lit actual zero ps e n = rw (e, match_parts)
match_parts-first_occurrence name lit actual (suc off) ps e n =
    rw (e, match_parts) (go (strip_prefix (drop (suc off) actual) lit) refl)
  where
    go :
        (o : Option Text)
        → strip_prefix (drop (suc off) actual) lit ≡ o
        → (elim o as (λ _. Option (List (Text × Text))) [
          | none ↦ none
          | some rest ↦
              if is_empty rest then some (insert ps name (take (suc off) actual)) else none
        ])
          ≡ none
    go none q = refl
    go (some []) q =
        let whole = strip_prefix_sound (drop (suc off) actual) lit [] q in
        let same = ap length (whole ∙ append-nil lit) in
        absurd
          (n (omega (arith, same, length-drop (suc off) actual (find-le actual lit (suc off) e))))
    go (some (c ∷ rest)) q = refl
