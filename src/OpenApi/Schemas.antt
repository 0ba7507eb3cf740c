-- ===== src/OpenApi/Schemas.antt =====
-- `openapiv3::Schema` and what it is made of. A bound of a number is kept as it is written.
use chasm.Prelude.{ℕ, Bool, Option, List}
use chasm.Prelude.Int.{ℤ}
use chasm.Text.{Text}
use chasm.OpenApi.Json.{Value, Number}

pub data ReferenceOr (A : Type 0) : Type 0 where
  item : A → ReferenceOr A
  reference : Text → ReferenceOr A

pub record Discriminator : Type 0 where
  pub property_name : Text
  pub mapping : List (Text × Text)

-- `schema_data`, and the schema serialised, as the faker is given it.
pub record SchemaData : Type 0 where
  pub example : Option Value
  pub json : Value
  pub nullable : Bool
  pub discriminator : Option Discriminator

-- The names of string formats; the crate's variants stand for `date`, `date-time`, `password`,
-- `byte` and `binary`.
pub record StringType : Type 0 where
  pub format : Option Text
  pub pattern : Option Text
  pub enumeration : List (Option Text)
  pub min_length : Option ℕ
  pub max_length : Option ℕ

-- Of the formats only `int32` is told apart.
pub record IntegerType : Type 0 where
  pub is_int32 : Bool
  pub multiple_of : Option ℤ
  pub exclusive_minimum : Bool
  pub exclusive_maximum : Bool
  pub minimum : Option ℤ
  pub maximum : Option ℤ
  pub enumeration : List (Option ℤ)

pub record NumberType : Type 0 where
  pub multiple_of : Option Number
  pub exclusive_minimum : Bool
  pub exclusive_maximum : Bool
  pub minimum : Option Number
  pub maximum : Option Number
  pub enumeration : List (Option Number)

-- What an `AnySchema` says apart from its subschemas.
pub record AnyData : Type 0 where
  pub typ : Option Text
  pub enumeration : List Value
  pub pattern : Option Text
  pub format : Option Text
  pub required : List Text

mutual
  pub data Schema : Type 0 where
    described : SchemaData → SchemaKind → Schema

  pub data SchemaKind : Type 0 where
    string_type : StringType → SchemaKind
    integer_type : IntegerType → SchemaKind
    number_type : NumberType → SchemaKind
    boolean_type : List (Option Bool) → SchemaKind
    object_type : Properties → List Text → AdditionalProperties → SchemaKind
    array_type : (items : SchemaSlot) (min_items max_items : Option ℕ) (unique : Bool) → SchemaKind
    one_of : Branches → SchemaKind
    any_of : Branches → SchemaKind
    all_of : Branches → SchemaKind
    not_schema : SchemaRef → SchemaKind
    any_schema : AnyData → Properties → SchemaSlot → SchemaKind

  -- `ReferenceOr<Schema>` inside a schema, `Option` of it, and lists of it.
  pub data SchemaRef : Type 0 where
    inline : Schema → SchemaRef
    pointer : Text → SchemaRef

  pub data SchemaSlot : Type 0 where
    absent : SchemaSlot
    slot : SchemaRef → SchemaSlot

  pub data Branches : Type 0 where
    no_branch : Branches
    branch : SchemaRef → Branches → Branches

  pub data Properties : Type 0 where
    no_property : Properties
    property : Text → SchemaRef → Properties → Properties

  pub data AdditionalProperties : Type 0 where
    unsaid : AdditionalProperties
    any : Bool → AdditionalProperties
    extra : SchemaRef → AdditionalProperties

abbrev pub schema_data : Schema → SchemaData
schema_data (described d k) = d

abbrev pub schema_kind : Schema → SchemaKind
schema_kind (described d k) = k

abbrev pub to_reference_or : SchemaRef → ReferenceOr Schema
to_reference_or (inline s) = item s
to_reference_or (pointer r) = reference r
