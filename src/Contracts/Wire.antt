-- ===== src/Contracts/Wire.antt =====
-- packages/contracts/src/twinvoice_contracts/sparkplug/codec.py: the datatypes, and the form of a value
-- in a protobuf message. A `ValueError` is `none`. Floating-point numbers are a type with Python's
-- `float` of an integer and the rounding that the 32-bit field of protobuf makes.
pub mod RoundTrip
use mathlib.Core.Option
use digital_twin.Prelude.{
  ℕ, suc, List, [], ◌∷◌, ◌==◌, ◌-◌, ◌%◌, ◌^◌, ◌≤◌, String, Bool, true, false, Option, none, some,
  ltb, leb, if◌then◌else◌,
}
use digital_twin.Prelude.Int.{ℤ, pos, negsuc}

pub data DataType : Type 0 where
  int8 int16 int32 int64 uint8 uint16 uint32 uint64 float double boolean string datetime text uuid :
      DataType

-- the fields of the protobuf message that hold a value
pub data Field : Type 0 where
  int_value long_value float_value double_value boolean_value string_value : Field

pub record TypeSpec : Type 0 where
  pub code : ℕ
  pub field : Field
  -- integer width; none for non-integers
  pub bits : Option ℕ
  pub signed : Bool

abbrev pub spec_of : DataType → TypeSpec
spec_of int8 = record { code = 1; field = int_value; bits = some 8; signed = true }
spec_of int16 = record { code = 2; field = int_value; bits = some 16; signed = true }
spec_of int32 = record { code = 3; field = int_value; bits = some 32; signed = true }
spec_of int64 = record { code = 4; field = long_value; bits = some 64; signed = true }
spec_of uint8 = record { code = 5; field = int_value; bits = some 8; signed = false }
spec_of uint16 = record { code = 6; field = int_value; bits = some 16; signed = false }
spec_of uint32 = record { code = 7; field = int_value; bits = some 32; signed = false }
spec_of uint64 = record { code = 8; field = long_value; bits = some 64; signed = false }
spec_of float = record { code = 9; field = float_value; bits = none; signed = false }
spec_of double = record { code = 10; field = double_value; bits = none; signed = false }
spec_of boolean = record { code = 11; field = boolean_value; bits = none; signed = false }
spec_of string = record { code = 12; field = string_value; bits = none; signed = false }
spec_of datetime = record { code = 13; field = long_value; bits = some 64; signed = false }
spec_of text = record { code = 14; field = string_value; bits = none; signed = false }
spec_of uuid = record { code = 15; field = string_value; bits = none; signed = false }

abbrev pub all_types : List DataType
all_types =
    int8 ∷ int16 ∷ int32 ∷ int64 ∷ uint8 ∷ uint16 ∷ uint32 ∷ uint64 ∷ float ∷ double ∷ boolean
    ∷ string ∷ datetime ∷ text ∷ uuid ∷ []

unfoldable pub with_code : ℕ → List DataType → Option DataType
with_code code [] = none
with_code code (dt ∷ dts) = if (spec_of dt).code == code then some dt else with_code code dts

-- `_BY_CODE.get(code)`
unfoldable pub by_code : ℕ → Option DataType
unfolding with_code
by_code code = with_code code all_types

-- bool | int | float | str
pub data Scalar (F : Type 0) : Type 0 where
  bool : Bool → Scalar F
  int : ℤ → Scalar F
  real : F → Scalar F
  str : String → Scalar F

-- what a field of the protobuf message holds
pub data Raw (F : Type 0) : Type 0 where
  number : ℕ → Raw F
  floating : F → Raw F
  flag : Bool → Raw F
  characters : String → Raw F

-- `lo <= value < hi`, from 0 or from minus half the range
unfoldable pub in_range : Bool → ℕ → ℤ → Bool
in_range true bits (pos n) = ltb n (2 ^ (bits - 1))
in_range true bits (negsuc n) = ltb n (2 ^ (bits - 1))
in_range false bits (pos n) = ltb n (2 ^ bits)
in_range false bits (negsuc n) = false

-- `value + 2**bits if value < 0 else value`
unfoldable pub unsigned : ℕ → ℤ → ℕ
unsigned bits (pos n) = n
unsigned bits (negsuc n) = 2 ^ bits - suc n

-- `int(raw) & (2**bits - 1)`, and back below the sign bit
pub from_unsigned : ℕ → ℕ → ℤ
from_unsigned bits raw =
    let v = raw % 2 ^ bits in if leb (2 ^ (bits - 1)) v then negsuc (2 ^ bits - v - 1) else pos v

-- Python's `float` of an integer, and the rounding of a 32-bit float
pub record Rounding (F : Type 0) : Type 0 where
  pub float_of : ℤ → F
  pub single : F → F

module _ {F : Type 0} (r : Rounding F) where
  unfoldable pub int_to_wire : Bool → ℕ → Scalar F → Option (Raw F)
  unfolding in_range unsigned
  int_to_wire signed bits (int v) =
      if in_range signed bits v then some (number (unsigned bits v)) else none
  int_to_wire signed bits _ = none

  unfoldable pub float_of_scalar : Scalar F → Option F
  float_of_scalar (int v) = some (r.float_of v)
  float_of_scalar (real x) = some x
  float_of_scalar _ = none

  -- the branches of `_to_wire` that are not for integers; a 32-bit field rounds what is put into it
  unfoldable pub field_to_wire : Field → Scalar F → Option (Raw F)
  unfolding float_of_scalar
  field_to_wire float_value v = Option.map (λ x. floating (r.single x)) (float_of_scalar v)
  field_to_wire double_value v = Option.map floating (float_of_scalar v)
  field_to_wire boolean_value (bool b) = some (flag b)
  field_to_wire string_value (str s) = some (characters s)
  field_to_wire _ _ = none

  unfoldable pub spec_to_wire : Option ℕ → Bool → Field → Scalar F → Option (Raw F)
  unfolding int_to_wire field_to_wire
  spec_to_wire (some bits) signed field v = int_to_wire signed bits v
  spec_to_wire none signed field v = field_to_wire field v

  -- `_to_wire`, and the assignment of its result to the field
  unfoldable pub to_wire : DataType → Scalar F → Option (Raw F)
  unfolding spec_to_wire
  to_wire dt v = let spec = spec_of dt in spec_to_wire spec.bits spec.signed spec.field v

  raw_scalar : Raw F → Scalar F
  raw_scalar (number n) = int (pos n)
  raw_scalar (floating x) = real x
  raw_scalar (flag b) = bool b
  raw_scalar (characters s) = str s

  spec_from_wire : Option ℕ → Bool → Raw F → Scalar F
  unfolding raw_scalar from_unsigned
  spec_from_wire (some bits) true (number raw) = int (from_unsigned bits raw)
  spec_from_wire bits signed raw = raw_scalar raw

  -- `_from_wire`
  pub from_wire : DataType → Raw F → Scalar F
  unfolding spec_from_wire
  from_wire dt raw = let spec = spec_of dt in spec_from_wire spec.bits spec.signed raw
