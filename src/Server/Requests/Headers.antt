-- ===== src/Server/Requests/Headers.antt =====
-- What the engine sees of the headers.
use mathlib.Core.Path.{subst}
use chasm.Prelude.{
  ◌∙◌, false, ◌≡◌, Option, some, none, List, [], ◌∷◌, ◌++◌, refl, if◌then◌else◌, Bool-cases,
  Option-cases, inl, inr,
}
use chasm.Text.{Text, ascii, get, text_eq}
use chasm.Text.Laws.{text_eq_refl, text_eq_iff}
use chasm.Text.Dict.Laws.{get-insert}
use chasm.Server.Requests.{is_comma_unsafe_header, add_header, add_headers, extract_headers}
use chasm.Server.Requests.Merge.{beside, extend, merged, extend-none}

-- The readable values of a name, in order.
abbrev pub values_of : Text → List (Text × Option Text) → List Text
values_of n [] = []
values_of n ((m, none) ∷ hs) = values_of n hs
values_of n ((m, some v) ∷ hs) = if text_eq m n then v ∷ values_of n hs else values_of n hs

add_header-same :
    (out : List (Text × Text)) (m v : Text)
    → get (add_header out (m, some v)) m
      ≡ some (beside (ascii ", ") (is_comma_unsafe_header m) (get out m) v)
unfolding add_header
add_header-same out m v = elim (Option-cases (get out m)) [
  | inl e ↦ rw (e, add_header, get-insert out m m v, text_eq_refl m) refl
  | inr (w, e) ↦ elim (Bool-cases (is_comma_unsafe_header m)) [
    | inl u ↦ rw (e, add_header, u, e) refl
    | inr u ↦
        rw (e, add_header, u, get-insert out m m (w ++ (ascii ", " ++ v)), text_eq_refl m) refl
  ]
]

add_header-other :
    (out : List (Text × Text)) (m v n : Text)
    → text_eq m n ≡ false
    → get (add_header out (m, some v)) n ≡ get out n
unfolding add_header
add_header-other out m v n k = elim (Option-cases (get out m)) [
  | inl e ↦ rw (e, add_header, get-insert out m n v, k) refl
  | inr (w, e) ↦ elim (Bool-cases (is_comma_unsafe_header m)) [
    | inl u ↦ rw (e, add_header, u) refl
    | inr u ↦ rw (e, add_header, u, get-insert out m n (w ++ (ascii ", " ++ v)), k) refl
  ]
]

add_header-unread : (out : List (Text × Text)) (m : Text) → add_header out (m, none) ≡ out
unfolding add_header
add_header-unread out m = refl

get-add_headers :
    (out : List (Text × Text)) (hs : List (Text × Option Text)) (n : Text)
    → get (add_headers out hs) n
      ≡ extend (ascii ", ") (is_comma_unsafe_header n) (get out n) (values_of n hs)
unfolding add_headers
get-add_headers out [] n = refl
get-add_headers out ((m, none) ∷ hs) n = rw (add_header-unread out m) (get-add_headers out hs n)
get-add_headers out ((m, some v) ∷ hs) n =
    let ih = get-add_headers (add_header out (m, some v)) hs n in
    elim (Bool-cases (text_eq m n)) [
      | inl y ↦
          let same : m ≡ n = (text_eq_iff m n).0 y in
          let here : get (add_header out (m, some v)) n
              ≡ some (beside (ascii ", ") (is_comma_unsafe_header n) (get out n) v) =
            subst
              (λ x.
                get (add_header out (m, some v)) x
                ≡ some (beside (ascii ", ") (is_comma_unsafe_header x) (get out x) v))
              same (add_header-same out m v) in
          rw (ih, here, y) refl
      | inr k ↦ rw (ih, add_header-other out m v n k, k) refl
    ]

-- The engine sees under a header's name the readable values that the request has under it, joined
-- by a comma and a space in their order, only the first of them where the name is one whose values
-- may have commas, and nothing where there are none.
pub get-extract_headers :
    (hs : List (Text × Option Text)) (n : Text)
    → get (extract_headers hs) n ≡ merged (ascii ", ") (is_comma_unsafe_header n) (values_of n hs)
unfolding extract_headers get
get-extract_headers hs n =
    get-add_headers [] hs n ∙ extend-none (ascii ", ") (is_comma_unsafe_header n) (values_of n hs)
