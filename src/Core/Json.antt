-- ===== src/Core/Json.antt =====
-- The values of a JSON document, as Python reads them.
pub mod Values
use Prim.Native.String.{String}
use mathlib.Core.Bool.{Bool}
use enterprise_llm_assistant.Prelude.Int.{ℤ}

mutual
  pub data Json : Type 0 where
    null : Json
    boolean : Bool → Json
    number : ℤ → Json
    -- A number with a fraction or an exponent, by its `repr`.
    float : String → Json
    text : String → Json
    array : Items → Json
    object : Fields → Json

  pub data Items : Type 0 where
    no_items : Items
    item : Json → Items → Items

  pub data Fields : Type 0 where
    no_fields : Fields
    field : String → Json → Fields → Fields
