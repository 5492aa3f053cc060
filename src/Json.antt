-- ===== src/Json.antt =====
-- `serde_json::Value` as the program reads it: an object is a list of keys and values in the
-- map's order, without a repeated key, and a float is its 64 bits.
use stackhouse.Prelude.{ℕ, Bool}
use stackhouse.Prelude.Text.{Text}

pub data Number : Type 0 where
  pos_int : ℕ → Number
  -- `neg_int n` is -(n + 1)
  neg_int : ℕ → Number
  float : ℕ → Number

mutual
  pub data Value : Type 0 where
    null : Value
    bool : Bool → Value
    number : Number → Value
    string : Text → Value
    array : Values → Value
    object : Fields → Value

  pub data Values : Type 0 where
    nil : Values
    cons : Value → Values → Values

  pub data Fields : Type 0 where
    end : Fields
    field : Text → Value → Fields → Fields
