-- ===== src/Security/Credentials.antt =====
-- Which requests satisfy a scheme. The `http`, `oauth2` and `openIdConnect` checks look at one header
-- alone; an `apiKey` is looked for where the scheme says.
use chasm.Text.Laws.{text_eq_iff}
use chasm.OpenApi.{cookie, query, header, open_id_connect, oauth2}
use mathlib.Core.Bool.{false≢true, and-eq-true_iff}
use chasm.Security.{
  find_cookie, api_key, http, is_filled, is_scheme_satisfied, SecurityScheme,
  has_authorization_prefix,
}
use chasm.Text.{text_eq, get, trim, to_ascii_lowercase, starts_with, ascii, Text}
use chasm.Request.{find_header, MockRequest}
use chasm.Prelude.{
  ◌∙◌, is_some, sym, inr, inl, Bool-cases, ◌⊎◌, length-append, ◌+◌, ◌↔◌, ltb, ◌&&◌, suc, Bool,
  length, ap, Option, ◌≢◌, ◌≡◌, ◌∷◌, true, some, refl, none, false, arith, [], ◌++◌,
}

-- `kind` is this lower-case word, but for the case of its letters.
abbrev pub IsWord : Text → Text → Type 0
IsWord kind word = to_ascii_lowercase kind ≡ word

length-to_ascii_lowercase : (s : Text) → length (to_ascii_lowercase s) ≡ length s
unfolding to_ascii_lowercase
length-to_ascii_lowercase [] = refl
length-to_ascii_lowercase (c ∷ s) = ap suc (length-to_ascii_lowercase s)

-- A text that begins with a lower-case word and a space, as the code tests it.
starts_with_word :
    (p t : Text)
    → starts_with (to_ascii_lowercase t) (p ++ 32 ∷ []) ≡ true
    → (w : Text) × (r : Text) × (t ≡ w ++ 32 ∷ r) × (to_ascii_lowercase w ≡ p)
unfolding starts_with to_ascii_lowercase
starts_with_word [] [] h = cc
starts_with_word [] (c ∷ t) h = ([], t, ground arith, refl)
starts_with_word (d ∷ p) [] h = cc
starts_with_word (d ∷ p) (c ∷ t) h =
    let (w, r, e, l) = starts_with_word p t (ground arith) in
    (c ∷ w, r, ap (λ s. c ∷ s) e, ground arith)

starts_with_word-append :
    (w r : Text)
    → starts_with (to_ascii_lowercase (w ++ 32 ∷ r)) (to_ascii_lowercase w ++ 32 ∷ []) ≡ true
unfolding starts_with to_ascii_lowercase
starts_with_word-append [] [] = refl
starts_with_word-append [] (c ∷ r) = refl
starts_with_word-append (c ∷ w) r = ground (arith, starts_with_word-append w r)

-- The lengths that the code compares.
module _ (t w r word : Text) (e : t ≡ w ++ 32 ∷ r) (l : to_ascii_lowercase w ≡ word) where
  length-needle : length (word ++ 32 ∷ []) ≡ length w + 1
  length-needle =
      rw (← l, length-append (to_ascii_lowercase w) (32 ∷ []), length-to_ascii_lowercase w)

  length-value : length t ≡ length w + 1 + length r
  length-value = rw (e, length-append w (32 ∷ r)) (omega arith)

  rest-ne-nil : ltb (length (word ++ 32 ∷ [])) (length t) ≡ true → r ≢ []
  rest-ne-nil h n =
      let empty : length r ≡ 0 = ap length n in
      absurd (ground (arith, h, length-needle, length-value))

  needle_shorter : r ≢ [] → ltb (length (word ++ 32 ∷ [])) (length t) ≡ true
  needle_shorter n = go r n length-value
    where
      go :
          (x : Text)
          → x ≢ []
          → length t ≡ length w + 1 + length x
          → ltb (length (word ++ 32 ∷ [])) (length t) ≡ true
      go [] k q = absurd (k refl)
      go (c ∷ x) k q = ground (arith, length-needle)

-- A value that is, without surrounding blanks, the word in any case, a space and something more.
abbrev pub HasToken : Text → Text → Type 0
HasToken word value =
    (w : Text) × (r : Text) × (trim value ≡ w ++ 32 ∷ r) × (to_ascii_lowercase w ≡ word) × (r ≢ [])

bearer_not_basic : ascii "bearer" ≢ ascii "basic"
bearer_not_basic = cc

text_ne : (s t : Text) → text_eq s t ≡ false → s ≢ t
text_ne s t e p = false≢true (sym e ∙ (text_eq_iff s t).1 p)

is_some_iff : (o : Option Text) → (is_some o ≡ true) ↔ (o ≢ none)
is_some_iff none = ((λ h. cc), (λ n. absurd (n refl)))
is_some_iff (some v) = ((λ h. cc), (λ _. refl))

module _ (req : MockRequest) where
  -- The first `Authorization` header has a token of this word.
  abbrev pub Authorizes : Text → Type 0
  Authorizes word =
      (value : Text) × (find_header req (ascii "authorization") ≡ some value) × HasToken word value

  prefix_iff : (word : Text) → (has_authorization_prefix req word ≡ true) ↔ Authorizes word
  unfolding has_authorization_prefix
  prefix_iff word = (λ h. sound (find_header req (ascii "authorization")) refl h, complete)
    where
      sound :
          (o : Option Text)
          → find_header req (ascii "authorization") ≡ o
          → (elim o as (λ _. Bool) [
            | none ↦ false
            | some value ↦
                starts_with (to_ascii_lowercase (trim value)) (word ++ 32 ∷ [])
                && ltb (length (word ++ 32 ∷ [])) (length (trim value))
          ]
              ≡ true)
          → Authorizes word
      sound none e q = cc
      sound (some value) e q =
          let (front, longer) = (and-eq-true_iff _ _).0 q in
          let (w, r, t, l) = starts_with_word word (trim value) front in
          (value, e, (w, r, t, l, rest-ne-nil (trim value) w r word t l longer))

      complete : Authorizes word → has_authorization_prefix req word ≡ true
      complete (value, e, (w, r, t, l, n)) =
          rw (e, has_authorization_prefix)
            ((and-eq-true_iff _ _).1 (
              rw (t, ← l) (starts_with_word-append w r),
              needle_shorter (trim value) w r word t l n,
            ))

  module _ (decode : Text → Option Text) where
    -- What a request carries that satisfies a scheme.
    abbrev pub Presents : SecurityScheme → Type 0
    Presents (http kind) =
        (IsWord kind (ascii "bearer") × Authorizes (ascii "bearer"))
        ⊎ ((IsWord kind (ascii "basic") × Authorizes (ascii "basic"))
            ⊎ ((¬ IsWord kind (ascii "bearer"))
                × (¬ IsWord kind (ascii "basic"))
                × (find_header req (ascii "authorization") ≢ none)))
    Presents oauth2 = Authorizes (ascii "bearer")
    Presents open_id_connect = Authorizes (ascii "bearer")
    Presents (api_key header name) = (v : Text) × (find_header req name ≡ some v) × (v ≢ [])
    Presents (api_key query name) = (v : Text) × (get req.query name ≡ some v) × (v ≢ [])
    Presents (api_key cookie name) = (v : Text) × (find_cookie decode req name ≡ some v) × (v ≢ [])

    is_filled_iff :
        (o : Option Text) → (is_filled o ≡ true) ↔ ((v : Text) × (o ≡ some v) × (v ≢ []))
    is_filled_iff none = ((λ h. cc), (λ (v, e, n). cc))
    is_filled_iff (some []) = ((λ h. cc), (λ (v, e, n). absurd (n (ground arith))))
    is_filled_iff (some (c ∷ v)) = ((λ h. (c ∷ v, refl, (λ n. cc))), (λ _. refl))

    -- A scheme is satisfied exactly when the request presents what it asks for: for `bearer`, `basic`,
    -- `oauth2` and `openIdConnect` an `Authorization` value of the right word with a token; for any
    -- other `http` scheme an `Authorization` header, whatever its value; for an API key a value that
    -- is not empty, in the place that the scheme names.
    pub is_scheme_satisfied_iff :
        (scheme : SecurityScheme) → (is_scheme_satisfied decode scheme req ≡ true) ↔ Presents scheme
    unfolding is_scheme_satisfied
    is_scheme_satisfied_iff oauth2 = prefix_iff (ascii "bearer")
    is_scheme_satisfied_iff open_id_connect = prefix_iff (ascii "bearer")
    is_scheme_satisfied_iff (api_key header name) = is_filled_iff (find_header req name)
    is_scheme_satisfied_iff (api_key query name) = is_filled_iff (get req.query name)
    is_scheme_satisfied_iff (api_key cookie name) = is_filled_iff (find_cookie decode req name)
    is_scheme_satisfied_iff (http kind) =
        elim (Bool-cases (text_eq (to_ascii_lowercase kind) (ascii "bearer"))) [
          | inl e ↦
              let same = (text_eq_iff (to_ascii_lowercase kind) (ascii "bearer")).0 e in
              let (to, from) = prefix_iff (ascii "bearer") in
              rw e (
                λ h. inl (same, to h),
                λ p. elim p [
                  | inl (_, a) ↦ from a
                  | inr (inl (other, _)) ↦ absurd (bearer_not_basic (sym same ∙ other))
                  | inr (inr (other, _, _)) ↦ absurd (other same)
                ],
              )
          | inr e ↦
              let differs = text_ne (to_ascii_lowercase kind) (ascii "bearer") e in
              elim (Bool-cases (text_eq (to_ascii_lowercase kind) (ascii "basic"))) [
                | inl f ↦
                    let same = (text_eq_iff (to_ascii_lowercase kind) (ascii "basic")).0 f in
                    let (to, from) = prefix_iff (ascii "basic") in
                    rw (e, f)
                      (
                        λ h. inr (inl (same, to h)),
                        λ p. elim p [
                          | inl (other, _) ↦ absurd (differs other)
                          | inr (inl (_, a)) ↦ from a
                          | inr (inr (_, other, _)) ↦ absurd (other same)
                        ],
                      )
                | inr f ↦
                    let differs' = text_ne (to_ascii_lowercase kind) (ascii "basic") f in
                    let (to, from) = is_some_iff (find_header req (ascii "authorization")) in
                    rw (e, f)
                      (
                        λ h. inr (inr (differs, differs', to h)),
                        λ p. elim p [
                          | inl (other, _) ↦ absurd (differs other)
                          | inr (inl (other, _)) ↦ absurd (differs' other)
                          | inr (inr (_, _, there)) ↦ from there
                        ],
                      )
              ]
        ]
