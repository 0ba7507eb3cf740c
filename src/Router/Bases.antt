-- ===== src/Router/Bases.antt =====
-- Base paths of servers, and the placeholders of their addresses.
use chasm.OpenApi.{Server}
use chasm.Text.Laws.{text_eq_iff}
use chasm.Text.Search.Laws.{strip_prefix-append}
use chasm.Router.Servers.{
  extract_path_from_url, candidate_paths_for_servers_list, candidates_from, push_unique, rebase,
}
use chasm.Text.{text_eq, strip_prefix, ascii, Text}
use chasm.Prelude.{
  is_empty, ◌↔◌, ◌∙◌, Any, ◌⊎◌, List, if◌then◌else◌, ◌≢◌, ◌≡◌, ◌∷◌, ℕ, some, refl, none, inr, inl,
  arith, append-nil, [], Bool-cases, ◌==◌, ◌++◌,
}

strip_prefix_self : (s : Text) → strip_prefix s s ≡ some []
strip_prefix_self s = rw (append-nil s) at (strip_prefix-append s [])

-- A base path that is neither empty nor the root.
abbrev pub IsProper : Text → Type 0
IsProper base = (base ≢ []) × (base ≢ ascii "/")

rebase-strip :
    (base path : Text)
    → IsProper base
    → rebase base path ≡ (elim (strip_prefix path base) [
      | none ↦ path
      | some [] ↦ ascii "/"
      | some (c ∷ rest) ↦ if c == b'/' then c ∷ rest else b'/' ∷ c ∷ rest
    ])
unfolding rebase
rebase-strip [] path (n, m) = absurd (n refl)
rebase-strip (d ∷ base) path (n, m) = elim (Bool-cases (text_eq (d ∷ base) (ascii "/"))) [
  | inl q ↦ absurd (m ((text_eq_iff _ _).0 q))
  | inr q ↦ rw q
]

-- A base path is taken off wherever the request's path begins with it: of the base itself the root
-- is left, of `base/rest` `/rest`, and of a path where the base ends inside a segment the rest of
-- that segment behind a new slash. Any other path is left as it is.
pub rebase_lem :
    (base path : Text)
    → IsProper base
    → (rebase base base ≡ ascii "/")
      × ((rest : Text) → rebase base (base ++ b'/' ∷ rest) ≡ b'/' ∷ rest)
      × ((c : ℕ) (rest : Text) → c ≢ b'/' → rebase base (base ++ c ∷ rest) ≡ b'/' ∷ c ∷ rest)
      × (strip_prefix path base ≡ none → rebase base path ≡ path)
rebase_lem base path h = (
  rw (rebase-strip base base h, strip_prefix_self base),
  λ rest. rw (rebase-strip base (base ++ b'/' ∷ rest) h, strip_prefix-append base (b'/' ∷ rest)),
  λ c rest n.
      rw (rebase-strip base (base ++ c ∷ rest) h, strip_prefix-append base (c ∷ rest))
        (ground arith),
  λ e. rw (rebase-strip base path h, e),
)

abbrev pub Member : Text → List Text → Type 0
Member c = Any (λ x. x ≡ c)

push_unique_sound :
    (out : List Text) (s c : Text) → Member c (push_unique out s) → Member c out ⊎ (s ≡ c)
unfolding push_unique
push_unique_sound [] s c (inl e) = inr e
push_unique_sound [] s c (inr x) = elim x [ ]
push_unique_sound (x ∷ out) s c m = elim (Bool-cases (text_eq x s)) [
  | inl q ↦ inl (rw q at m)
  | inr q ↦ go (push_unique_sound out s c) (rw q at m)
]
  where
    go :
        (Member c (push_unique out s) → Member c out ⊎ (s ≡ c))
        → Member c (x ∷ push_unique out s)
        → Member c (x ∷ out) ⊎ (s ≡ c)
    go f (inl e) = inl (inl e)
    go f (inr k) = elim (f k) [ inl there ↦ inl (inr there) | inr e ↦ inr e ]

push_unique_complete :
    (out : List Text) (s c : Text) → Member c out ⊎ (s ≡ c) → Member c (push_unique out s)
unfolding push_unique
push_unique_complete [] s c (inl m) = elim m [ ]
push_unique_complete [] s c (inr e) = inl e
push_unique_complete (x ∷ out) s c m = elim (Bool-cases (text_eq x s)) [
  | inl q ↦ rw q (here m ((text_eq_iff x s).0 q))
  | inr q ↦ rw q (later m (push_unique_complete out s c))
]
  where
    here : Member c (x ∷ out) ⊎ (s ≡ c) → x ≡ s → Member c (x ∷ out)
    here (inl k) e = k
    here (inr k) e = inl (e ∙ k)

    later :
        Member c (x ∷ out) ⊎ (s ≡ c)
        → (Member c out ⊎ (s ≡ c) → Member c (push_unique out s))
        → Member c (x ∷ push_unique out s)
    later (inl (inl e)) f = inl e
    later (inl (inr k)) f = inr (f (inl k))
    later (inr e) f = inr (f (inr e))

-- Some server's base path, taken off the path, leaves this candidate.
abbrev pub Rebased : Text → Text → List Server → Type 0
Rebased path c = Any (λ s. rebase (extract_path_from_url s.url s.variables) path ≡ c)

candidates_from_sound :
    (servers : List Server) (path : Text) (out : List Text) (c : Text)
    → Member c (candidates_from servers path out)
    → Member c out ⊎ Rebased path c servers
unfolding candidates_from
candidates_from_sound [] path out c m = inl m
candidates_from_sound (s ∷ servers) path out c m = elim (candidates_from_sound servers path _ c m) [
  | inl k ↦ elim (push_unique_sound out _ c k) [ inl there ↦ inl there | inr e ↦ inr (inl e) ]
  | inr k ↦ inr (inr k)
]

candidates_from_complete :
    (servers : List Server) (path : Text) (out : List Text) (c : Text)
    → Member c out ⊎ Rebased path c servers
    → Member c (candidates_from servers path out)
unfolding candidates_from
candidates_from_complete [] path out c (inl m) = m
candidates_from_complete [] path out c (inr m) = elim m [ ]
candidates_from_complete (s ∷ servers) path out c m =
    candidates_from_complete servers path _ c (go m)
  where
    base : Text
    base = rebase (extract_path_from_url s.url s.variables) path

    go :
        Member c out ⊎ Rebased path c (s ∷ servers)
        → Member c (push_unique out base) ⊎ Rebased path c servers
    go (inl k) = inl (push_unique_complete out base c (inl k))
    go (inr (inl e)) = inl (push_unique_complete out base c (inr e))
    go (inr (inr k)) = inr k

-- Where servers are listed, the candidate paths are exactly what their base paths leave of the
-- request's path: the path itself is one of them only if some server's base leaves it as it is.
pub candidate_paths_for_servers_list_iff :
    (server : Server) (servers : List Server) (path c : Text)
    → Member c (candidate_paths_for_servers_list (server ∷ servers) path)
      ↔ Rebased path c (server ∷ servers)
unfolding candidate_paths_for_servers_list
candidate_paths_for_servers_list_iff server servers path c =
    go (candidates_from (server ∷ servers) path []) refl
  where
    base : Text
    base = rebase (extract_path_from_url server.url server.variables) path

    go :
        (out : List Text)
        → candidates_from (server ∷ servers) path [] ≡ out
        → Member c (if is_empty out then path ∷ [] else out) ↔ Rebased path c (server ∷ servers)
    go [] e =
        let m = candidates_from_complete (server ∷ servers) path [] base (inr (inl refl)) in
        elim (rw e at m) [ ]
    go (x ∷ out) e = (
      λ m. elim (candidates_from_sound (server ∷ servers) path [] c (rw e m)) [
        | inl k ↦ elim k [ ]
        | inr k ↦ k
      ],
      λ m. rw e at (candidates_from_complete (server ∷ servers) path [] c (inr m)),
    )
