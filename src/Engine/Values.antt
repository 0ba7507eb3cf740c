-- ===== src/Engine/Values.antt =====
-- Reading a `serde_json::Value`.
use chasm.Prelude.Int.{ℤ, pos, negsuc}
use chasm.Prelude.{◌^◌, ltb, is_some, suc, ℕ, Bool, Option, some, none, if◌then◌else◌}
use chasm.Router.Methods.{text_le}
use chasm.Text.{Text, text_eq}
use chasm.OpenApi.{
  neg_int, nil, cons, Values, Value, Members, bool, number, string, pos_int, end, member, Number,
}

abbrev pub as_u64 : Value → Option ℕ
as_u64 (number (pos_int n)) = some n
as_u64 _ = none

abbrev pub as_bool : Value → Option Bool
as_bool (bool b) = some b
as_bool _ = none

abbrev pub as_str : Value → Option Text
as_str (string s) = some s
as_str _ = none

-- `as_f64`, which every number of a document without arbitrary precision has; the number is kept.
abbrev pub as_f64 : Value → Option Number
as_f64 (number n) = some n
as_f64 _ = none

-- `Map::get` and `Map::contains_key`.
unfoldable pub field : Members → Text → Option Value
field end k = none
field (member j v m) k = if text_eq j k then some v else field m k

-- `Map::insert` of a key that is not there; a map is sorted by its keys.
unfoldable pub push_field : Members → Text → Value → Members
push_field end k v = member k v end
push_field (member j w m) k v =
    let rest = push_field m k v in
    if text_le k j then member k v (member j w m) else member j w rest

-- `Map::insert`.
unfoldable pub insert_field : Members → Text → Value → Members
insert_field end k v = member k v end
insert_field (member j w m) k v =
    let rest = insert_field m k v in
    if text_eq j k
    then member k v m
    else if text_le k j
    then member k v (member j w m)
    else member j w rest

abbrev pub has_field : Members → Text → Bool
has_field m k = is_some (field m k)

-- `as_i64`, by the range of the type.
unfoldable pub as_i64 : Value → Option ℤ
as_i64 (number (pos_int n)) = if ltb n (2 ^ 63) then some (pos n) else none
as_i64 (number (neg_int n)) = some (negsuc n)
as_i64 _ = none

-- `Number::from` an `i64`.
abbrev pub of_ℤ : ℤ → Value
of_ℤ (pos n) = number (pos_int n)
of_ℤ (negsuc n) = number (neg_int n)

abbrev pub count_items : Values → ℕ
count_items nil = 0
count_items (cons v vs) = suc (count_items vs)

unfoldable pub append_values : Values → Values → Values
append_values nil ws = ws
append_values (cons v vs) ws = cons v (append_values vs ws)
