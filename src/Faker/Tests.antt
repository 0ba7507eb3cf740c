-- ===== src/Faker/Tests.antt =====
-- Runs of the static walk.
use chasm.Validation.Tests.{floats}
use chasm.Engine.Config.{default_options}
use chasm.Engine.Values.{field}
use chasm.Prelude.{some, ◌≡◌, refl, arith}
use chasm.Text.{ascii, text_eq}
use chasm.OpenApi.{Value, Members, object, end, member, string, array, cons, nil}
use chasm.Faker.Strings.{strings, strings_of_members, strings_of_items}
use chasm.Faker.Merge.{merge_members}
use chasm.Faker.Merge.Fields.{field-merge_members, merged_at}
use chasm.Faker.Static.{required_names, fixed_value, first_branch, type_name}
use chasm.Faker.Walk.{generate_static}
use chasm.Faker.Walk.Ending.{IsDone}
use chasm.Faker.Walk.Termination.{generate_static-IsDone}
use chasm.Faker.Walk.Required.{generate_static-HasRequired, IsPlainObject, HasRequired}

abbrev next_names : Value
next_names = array (cons (string (ascii "next")) nil)

-- An object whose required property is an object of the same kind.
abbrev chain : Members
chain =
    member (ascii "properties")
      (object (member (ascii "next") (object (member (ascii "$ref") (string (ascii "#")) end)) end))
      (member (ascii "required") next_names (member (ascii "type") (string (ascii "object")) end))

abbrev made_chain : Value
made_chain = object (member (ascii "next") (object (member (ascii "next") (object end) end)) end)

abbrev numbered : Members
numbered =
    member (ascii "required") (array (cons (string (ascii "id")) nil))
      (member (ascii "type") (string (ascii "number")) end)

generate_static-IsDone_example : IsDone (generate_static floats 9 (object chain) default_options)
unfolding strings strings_of_members strings_of_items
generate_static-IsDone_example =
    generate_static-IsDone floats 9 (object chain) default_options (omega arith)

plain_chain : IsPlainObject default_options chain
unfolding field text_eq fixed_value first_branch type_name
plain_chain = record {
  reference = refl;
  unfixed = refl;
  parts = refl;
  branchless = refl;
  defaultless = refl;
  typed = refl;
}

generate_static-HasRequired_example :
    (v : Value) × (generate_static floats 9 (object chain) default_options ≡ some v)
    × HasRequired (required_names chain) v
unfolding strings strings_of_members strings_of_items
generate_static-HasRequired_example =
    generate_static-HasRequired floats 9 chain default_options plain_chain refl (omega arith)
      (omega arith)

field-merge_members_example :
    field (merge_members floats chain numbered) (ascii "required")
    ≡ merged_at floats
        (ascii "required")
        (field chain (ascii "required"))
        (field numbered (ascii "required"))
unfolding field text_eq
field-merge_members_example =
    field-merge_members floats chain numbered (ascii "required") (refl, (refl, tt))
