-- ===== src/Loader/Pointers/Roundtrip.antt =====
-- crates/chasm-engine/src/loader.rs: JSON pointers built from paths.
use chasm.Prelude.{
  ℕ, ◌≡◌, ◌≢◌, ◌==◌, ==_iff, Option, some, none, List, [], ◌∷◌, ◌++◌, is_empty, Bool-cases, inl,
  inr, refl, append-nil, ap, ◌∙◌, arith, false, map,
}
use chasm.Prelude.Maybe.{◌>>=◌}
use chasm.Text.{Text, split, replace_char, replace_pair, unescape, strip_prefix}
use chasm.Text.Search.Laws.{Lacks, split-Lacks, split-append}
use chasm.Loader.Yaml.{Yaml}
use chasm.Loader.Pointers.{
  escape_pointer_segment, slashed, build_pointer_from_path, step_into, follow_tokens,
  resolve_json_pointer,
}

replace_pair-skip :
    (c d r a : ℕ) (s : Text)
    → (a == c) ≡ false
    → replace_pair c d r (a ∷ s) ≡ a ∷ replace_pair c d r s
unfolding replace_pair
replace_pair-skip c d r a [] e = refl
replace_pair-skip c d r a (b ∷ s) e = rw e refl

abbrev escaped_tildes : Text → Text
escaped_tildes s = replace_char b'~' (b'~' ∷ b'0' ∷ []) s

-- The slashes come back, and the tildes stay escaped.
unescape_slashes :
    (s : Text) → replace_pair b'~' b'1' b'/' (escape_pointer_segment s) ≡ escaped_tildes s
unfolding escape_pointer_segment replace_char replace_pair
unescape_slashes [] = refl
unescape_slashes (c ∷ s) = elim (Bool-cases (c == b'~')) [
  | inl y ↦ rw y (
      ap (λ t. b'~' ∷ t)
        (replace_pair-skip b'~' b'1' b'/' b'0' _ refl ∙ ap (λ t. b'0' ∷ t) (unescape_slashes s)))
  | inr n ↦ elim (Bool-cases (c == b'/')) [
    | inl y ↦
        let slash : c ≡ b'/' = (==_iff c b'/').0 y in
        rw (n, y) (rw slash (ap (λ t. b'/' ∷ t) (unescape_slashes s)))
    | inr z ↦
        rw (n, z) (replace_pair-skip b'~' b'1' b'/' c _ n ∙ ap (λ t. c ∷ t) (unescape_slashes s))
  ]
]

unescape_tildes : (s : Text) → replace_pair b'~' b'0' b'~' (escaped_tildes s) ≡ s
unfolding replace_char replace_pair
unescape_tildes [] = refl
unescape_tildes (c ∷ s) = elim (Bool-cases (c == b'~')) [
  | inl y ↦
      let tilde : c ≡ b'~' = (==_iff c b'~').0 y in
      rw y (rw tilde (ap (λ t. b'~' ∷ t) (unescape_tildes s)))
  | inr n ↦ rw n (replace_pair-skip b'~' b'0' b'~' c _ n ∙ ap (λ t. c ∷ t) (unescape_tildes s))
]

unescape-escape_pointer_segment : (s : Text) → unescape (escape_pointer_segment s) ≡ s
unfolding unescape
unescape-escape_pointer_segment s = rw unescape_slashes (unescape_tildes s)

Lacks-escaped : (s : Text) → Lacks b'/' (escape_pointer_segment s)
unfolding escape_pointer_segment replace_char
Lacks-escaped [] = tt
Lacks-escaped (c ∷ s) = elim (Bool-cases (c == b'~')) [
  | inl y ↦ rw y (omega arith, (omega arith, Lacks-escaped s))
  | inr n ↦ elim (Bool-cases (c == b'/')) [
    | inl y ↦ rw (n, y) (omega arith, (omega arith, Lacks-escaped s))
    | inr z ↦ let other : c ≢ b'/' = ground arith in rw (n, z) (other, Lacks-escaped s)
  ]
]

-- Without its first byte, a pointer is split into the escaped segments.
split-slashed :
    (seg : Text) (path : List Text)
    → split b'/' (escape_pointer_segment seg ++ slashed path)
      ≡ map escape_pointer_segment (seg ∷ path)
unfolding slashed
split-slashed seg [] =
    rw append-nil (split-Lacks b'/' (escape_pointer_segment seg) (Lacks-escaped seg))
split-slashed seg (next ∷ path) =
    split-append b'/' (escape_pointer_segment seg) (escape_pointer_segment next ++ slashed path)
    ∙ (ap (λ t. t ++ split b'/' (escape_pointer_segment next ++ slashed path))
          (split-Lacks b'/' (escape_pointer_segment seg) (Lacks-escaped seg))
        ∙ ap (λ t. escape_pointer_segment seg ∷ t) (split-slashed next path))

-- The value at a path of keys and indices.
abbrev pub at_path : Yaml → List Text → Option Yaml
at_path root [] = some root
at_path root (seg ∷ path) = step_into root seg >>= λ next. at_path next path

bind-cong :
    {A B : Type 0} (o : Option A) (f g : A → Option B)
    → ((a : A) → f a ≡ g a)
    → (o >>= f) ≡ (o >>= g)
bind-cong none f g h = refl
bind-cong (some a) f g h = h a

follow_tokens-escaped :
    (root : Yaml) (path : List Text)
    → follow_tokens root (map escape_pointer_segment path) ≡ at_path root path
unfolding follow_tokens
follow_tokens-escaped root [] = refl
follow_tokens-escaped root (seg ∷ path) = rw unescape-escape_pointer_segment (
    bind-cong (step_into root seg) (λ next. follow_tokens next (map escape_pointer_segment path))
      (λ next. at_path next path) (λ next. follow_tokens-escaped next path))

is_empty-escaped :
    (seg : Text) (path : List Text)
    → (seg ∷ path) ≢ ([] ∷ [])
    → is_empty (escape_pointer_segment seg ++ slashed path) ≡ false
unfolding escape_pointer_segment slashed replace_char
is_empty-escaped [] [] h = absurd (h refl)
is_empty-escaped [] (next ∷ path) h = refl
is_empty-escaped (c ∷ seg) path h = ground arith

-- A JSON pointer that is built from a path of at least one segment, other than the path of one
-- empty segment, resolves to the value that the path of keys and indices leads to, with slashes
-- and tildes in the segments escaped and unescaped.
pub resolve-build_pointer :
    (root : Yaml) (seg : Text) (path : List Text)
    → (seg ∷ path) ≢ ([] ∷ [])
    → resolve_json_pointer root (build_pointer_from_path (seg ∷ path)) ≡ at_path root (seg ∷ path)
unfolding resolve_json_pointer build_pointer_from_path strip_prefix slashed
resolve-build_pointer root seg path h =
    rw (is_empty-escaped seg path h) (rw split-slashed (follow_tokens-escaped root (seg ∷ path)))
