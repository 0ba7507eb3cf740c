-- ===== src/OpenApi/Json.antt =====
-- `serde_json::Value`; a map is its members in the order of the keys, keys unique.
use chasm.Prelude.{ℕ, Bool}
use chasm.Text.{Text}

-- `serde_json::Number`: `neg_int n` is -(n + 1), and a floating-point number is kept as its decimal
-- rendering.
pub data Number : Type 0 where
  pos_int : ℕ → Number
  neg_int : ℕ → Number
  float : Text → Number

-- `serde_json::Value`.
mutual
  pub data Value : Type 0 where
    null : Value
    bool : Bool → Value
    number : Number → Value
    string : Text → Value
    array : Values → Value
    object : Members → Value

  pub data Values : Type 0 where
    nil : Values
    cons : Value → Values → Values

  pub data Members : Type 0 where
    end : Members
    member : Text → Value → Members → Members
