-- ===== src/Proto/Json.antt =====
-- What the parse core uses of the JSON library (ArduinoJson): the documented accessors, on an
-- abstract value. A missing member, or a member of something that is no object, is the null value.
use sticks3_buddy.Prelude.{ℕ, Bool, Option, List, Bytes, ℤ}

pub record Json (V : Type 0) : Type 0 where
  -- deserializeJson: `none` is an error.
  pub parse : Bytes → Option V
  pub member : V → Bytes → V
  pub element : V → ℕ → V
  -- The elements of an array; none of anything else.
  pub items : V → List V
  -- `!as<JsonArray>().isNull()` and `!as<JsonObject>().isNull()`
  pub is_array : V → Bool
  pub is_object : V → Bool
  -- as<const char*>: `none` is the null pointer.
  pub str : V → Option Bytes
  -- v | d: the value where it has the type of d and fits it, d otherwise.
  pub bool_or : V → Bool → Bool
  pub u8_or : V → ℕ → ℕ
  pub u32_or : V → ℕ → ℕ
  pub int_or : V → ℤ → ℤ
  -- is<uint32_t>, as<uint32_t> and as<int32_t>
  pub is_u32 : V → Bool
  pub as_u32 : V → ℕ
  pub as_i32 : V → ℤ
