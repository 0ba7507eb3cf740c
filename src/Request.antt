-- ===== src/Request.antt =====
-- crates/chasm-engine/src/engine.rs: the request that the engine is given, and the search of its
-- headers, which every component makes in the same way.
use chasm.Prelude.{Option, List, find_first}
use mathlib.Core.Option
use chasm.Text.{Text, eq_ignore_ascii_case}
use chasm.OpenApi.{Value}

pub record MockRequest : Type 0 where
  pub method : Text
  pub path : Text
  pub headers : List (Text × Text)
  pub query : List (Text × Text)
  pub body : Option Value

-- The first header of a name, whatever the case.
unfoldable pub find_header : MockRequest → Text → Option Text
find_header req name =
    Option.map (λ e. e.1) (find_first (λ e. eq_ignore_ascii_case e.0 name) req.headers)
