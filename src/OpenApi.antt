-- ===== src/OpenApi.antt =====
-- What the engine reads of a document of the `openapiv3` crate and of a `serde_json` value: the
-- types and fields that crates/chasm-engine/src names. An `IndexMap` is the list of its entries in
-- order, keys unique; a `HashMap` is the list of its entries in the order of iteration.
mod Json
mod Schemas
pub use Json.*
pub use Schemas.*
use chasm.Prelude.{ℕ, Bool, Option, List}
use chasm.Text.{Text}

pub record ServerVariable : Type 0 where
  pub default : Text

pub record Server : Type 0 where
  pub url : Text
  pub variables : Option (List (Text × ServerVariable))

pub data ApiKeyLocation : Type 0 where
  header query cookie : ApiKeyLocation

pub data SecurityScheme : Type 0 where
  api_key : ApiKeyLocation → Text → SecurityScheme
  http : Text → SecurityScheme
  oauth2 open_id_connect : SecurityScheme

-- The keys of a requirement, in order; the engine never reads their scopes.
abbrev pub SecurityRequirement : Type 0
SecurityRequirement = List Text

pub record Example : Type 0 where
  pub value : Option Value

pub record MediaType : Type 0 where
  pub schema : Option (ReferenceOr Schema)
  pub example : Option Value
  pub examples : List (Text × ReferenceOr Example)

-- The second form carries media types, never read.
pub data ParameterSchemaOrContent : Type 0 where
  schema : ReferenceOr Schema → ParameterSchemaOrContent
  content : ParameterSchemaOrContent

pub record Header : Type 0 where
  pub example : Option Value
  pub format : ParameterSchemaOrContent

pub record Response : Type 0 where
  pub headers : List (Text × ReferenceOr Header)
  pub content : List (Text × MediaType)
  pub extensions : List (Text × Value)

pub data StatusCode : Type 0 where
  code : ℕ → StatusCode
  range : ℕ → StatusCode

pub record Responses : Type 0 where
  pub default : Option (ReferenceOr Response)
  pub responses : List (StatusCode × ReferenceOr Response)

pub data PathStyle : Type 0 where
  simple matrix label : PathStyle

pub data QueryStyle : Type 0 where
  form deep_object pipe_delimited space_delimited : QueryStyle

pub record ParameterData : Type 0 where
  pub name : Text
  pub required : Bool
  pub format : ParameterSchemaOrContent
  pub explode : Option Bool

pub data Parameter : Type 0 where
  path_parameter : ParameterData → PathStyle → Parameter
  query_parameter : ParameterData → QueryStyle → Parameter
  header_parameter cookie_parameter : ParameterData → Parameter

pub record RequestBody : Type 0 where
  pub required : Bool
  pub content : List (Text × MediaType)

pub record Operation : Type 0 where
  pub operation_id : Option Text
  pub servers : List Server
  pub security : Option (List SecurityRequirement)
  pub parameters : List (ReferenceOr Parameter)
  pub request_body : Option (ReferenceOr RequestBody)
  pub responses : Responses
  pub extensions : List (Text × Value)

pub record PathItem : Type 0 where
  pub get : Option Operation
  pub put : Option Operation
  pub post : Option Operation
  pub delete : Option Operation
  pub options : Option Operation
  pub head : Option Operation
  pub patch : Option Operation
  pub trace : Option Operation
  pub servers : List Server
  pub parameters : List (ReferenceOr Parameter)

pub record Components : Type 0 where
  pub security_schemes : List (Text × ReferenceOr SecurityScheme)
  pub responses : List (Text × ReferenceOr Response)
  pub headers : List (Text × ReferenceOr Header)
  pub examples : List (Text × ReferenceOr Example)
  pub schemas : List (Text × ReferenceOr Schema)
  pub parameters : List (Text × ReferenceOr Parameter)
  pub request_bodies : List (Text × ReferenceOr RequestBody)

pub record Spec : Type 0 where
  pub servers : List Server
  pub paths : List (Text × ReferenceOr PathItem)
  pub components : Option Components
  pub security : Option (List SecurityRequirement)
  pub extensions : List (Text × Value)
