-- ===== src/Router/Methods.antt =====
-- crates/chasm-engine/src/router.rs: the operations of a path and the `Allow` header.
use chasm.Text.{to_ascii_uppercase, text_eq, join, ascii, Text}
use chasm.OpenApi.{PathItem, Operation}
use chasm.Prelude.{
  if◌then◌else◌, ◌∷◌, ◌||◌, true, not, none, ltb, is_some, false, [], Option, List, Bool, ◌==◌,
  ◌++◌, ◌&&◌,
}

-- The slot of a method name in upper case.
unfoldable pub slot : PathItem → Text → Option Operation
slot path_item m =
    if text_eq m (ascii "GET")
    then path_item.get
    else if text_eq m (ascii "PUT")
    then path_item.put
    else if text_eq m (ascii "POST")
    then path_item.post
    else if text_eq m (ascii "DELETE")
    then path_item.delete
    else if text_eq m (ascii "OPTIONS")
    then path_item.options
    else if text_eq m (ascii "HEAD")
    then path_item.head
    else if text_eq m (ascii "PATCH")
    then path_item.patch
    else if text_eq m (ascii "TRACE")
    then path_item.trace
    else none

unfoldable pub get_operation : PathItem → Text → Option Operation
get_operation path_item method = slot path_item (to_ascii_uppercase method)

-- The order of `str`: by bytes, a prefix first.
unfoldable pub text_le : Text → Text → Bool
text_le [] t = true
text_le (a ∷ s) [] = false
text_le (a ∷ s) (b ∷ t) = if a == b then text_le s t else ltb a b

-- `sort_unstable`: the one sorted list of the same texts.
unfoldable pub insert_sorted : Text → List Text → List Text
insert_sorted s [] = s ∷ []
insert_sorted s (t ∷ ts) = if text_le s t then s ∷ t ∷ ts else t ∷ insert_sorted s ts

unfoldable pub sort_texts : List Text → List Text
sort_texts [] = []
sort_texts (s ∷ ts) = insert_sorted s (sort_texts ts)

-- `dedup`: of equal neighbours the first stays.
unfoldable pub dedup : List Text → List Text
dedup [] = []
dedup (s ∷ []) = s ∷ []
dedup (s ∷ t ∷ ts) = let rest = dedup (t ∷ ts) in if text_eq s t then rest else s ∷ rest

abbrev pub listed : Bool → Text → List Text
listed true name = name ∷ []
listed false name = []

-- What is pushed, in the order of the code.
unfoldable pub declared_methods : PathItem → Bool → List Text
declared_methods path_item strict =
    listed (is_some path_item.get) (ascii "GET")
    ++ (listed (is_some path_item.put) (ascii "PUT")
        ++ (listed (is_some path_item.post) (ascii "POST")
            ++ (listed (is_some path_item.delete) (ascii "DELETE")
                ++ (listed (is_some path_item.options) (ascii "OPTIONS")
                    ++ (listed (is_some path_item.head || (not strict && is_some path_item.get))
                          (ascii "HEAD")
                        ++ (listed (is_some path_item.patch) (ascii "PATCH")
                            ++ listed (is_some path_item.trace) (ascii "TRACE")))))))

unfoldable pub allow_methods : PathItem → Bool → List Text
allow_methods path_item strict = dedup (sort_texts (declared_methods path_item strict))

unfoldable pub allow_header_for_path_item_with_strict : PathItem → Bool → Text
allow_header_for_path_item_with_strict path_item strict =
    join (ascii ", ") (allow_methods path_item strict)

unfoldable pub allow_header_for_path_item : PathItem → Text
allow_header_for_path_item path_item = allow_header_for_path_item_with_strict path_item false
