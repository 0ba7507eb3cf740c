-- ===== src/Router/Servers.antt =====
-- crates/chasm-engine/src/router.rs: the paths under which a request may match, after the base path
-- of a server is taken off.
use chasm.Router.Template.{byte_as_char, brace_name}
use chasm.Text.{
  trim_end_matches, text_eq, strip_prefix, starts_with, get, find, contains, ascii, Text,
}
use chasm.OpenApi.{ServerVariable, Server}
use chasm.Prelude.{
  if◌then◌else◌, ◌∷◌, ℕ, ◌||◌, zero, suc, some, not, none, is_empty, drop, [], Option, List, ◌==◌,
  ◌++◌, ◌+◌,
}

-- `variables.as_ref().and_then(|v| v.get(name))`.
abbrev lookup_variable : Option (List (Text × ServerVariable)) → Text → Option ServerVariable
lookup_variable none name = none
lookup_variable (some vs) name = get vs name

-- An undeclared variable is left as it is written.
abbrev pub replacement : Option ServerVariable → Text → Text
replacement none name = b'{' ∷ (name ++ b'}' ∷ [])
replacement (some v) name = v.default

-- The loop of `expand_server_variables`: `skip` bytes of a placeholder are behind `i`.
unfoldable pub expand_from : Option (List (Text × ServerVariable)) → ℕ → Text → Text
expand_from variables skip [] = []
expand_from variables (suc skip) (c ∷ s) = expand_from variables skip s
expand_from variables zero (c ∷ s) =
    let literally = byte_as_char c ++ expand_from variables zero s in
    if c == b'{'
    then elim (brace_name s) [
      | none ↦ literally
      | some (name, n) ↦
          replacement (lookup_variable variables name) name ++ expand_from variables n s
    ]
    else literally

unfoldable pub expand_server_variables : Text → Option (List (Text × ServerVariable)) → Text
expand_server_variables input variables =
    if not (contains input b'{') then input else expand_from variables 0 input

-- The path behind the authority: what follows the first slash.
abbrev path_after : Text → Text
path_after after = elim (find after (ascii "/")) [
  | none ↦ []
  | some p ↦ trim_end_matches b'/' (drop p after)
]

unfoldable pub extract_path_from_url : Text → Option (List (Text × ServerVariable)) → Text
extract_path_from_url url variables =
    let expanded = expand_server_variables url variables in
    elim (find expanded (ascii "://")) [
      | none ↦ if starts_with expanded (ascii "/") then trim_end_matches b'/' expanded else []
      | some idx ↦ path_after (drop (idx + 3) expanded)
    ]

-- What is left of a path when a base is stripped.
unfoldable pub rebase : Text → Text → Text
rebase base path =
    if is_empty base || text_eq base (ascii "/") then path else elim (strip_prefix path base) [
      | none ↦ path
      | some [] ↦ ascii "/"
      | some (c ∷ rest) ↦ if c == b'/' then c ∷ rest else b'/' ∷ c ∷ rest
    ]

unfoldable pub push_unique : List Text → Text → List Text
push_unique [] s = s ∷ []
push_unique (x ∷ out) s = if text_eq x s then x ∷ out else x ∷ push_unique out s

-- The loop over the servers.
unfoldable pub candidates_from : List Server → Text → List Text → List Text
candidates_from [] path out = out
candidates_from (server ∷ servers) path out =
    candidates_from servers path
      (push_unique out (rebase (extract_path_from_url server.url server.variables) path))

unfoldable pub candidate_paths_for_servers_list : List Server → Text → List Text
candidate_paths_for_servers_list servers path =
    let out = candidates_from servers path [] in if is_empty out then path ∷ [] else out
