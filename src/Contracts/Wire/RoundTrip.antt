-- ===== src/Contracts/Wire/RoundTrip.antt =====
-- What the codec sends and what it reads back.
use digital_twin.Prelude.{ℕ, ◌+◌, ◌*◌, ◌^◌, ◌<◌, true, some, ◌≡◌, refl, arith}
use digital_twin.Prelude.Int.{ℤ, pos, negsuc}
use digital_twin.Contracts.Wire.{
  DataType, int8, int16, int32, int64, uint8, float, double, spec_of, Field, int_value, with_code,
  by_code, Scalar, int, real, Raw, number, in_range, unsigned, from_unsigned, Rounding, to_wire,
  from_wire,
}

pub by_code-spec_of : (dt : DataType) → by_code (spec_of dt).code ≡ some dt
unfolding by_code with_code
by_code-spec_of int8 = refl
by_code-spec_of dt = refl

signed8 :
    (v : ℤ) (k : ℕ) → in_range true 8 v ≡ true → from_unsigned 8 (unsigned 8 v + k * 2 ^ 8) ≡ v
unfolding from_unsigned unsigned in_range
signed8 (pos n) k h = ground arith
signed8 (negsuc n) k h = ground arith

signed16 :
    (v : ℤ) (k : ℕ) → in_range true 16 v ≡ true → from_unsigned 16 (unsigned 16 v + k * 2 ^ 16) ≡ v
unfolding from_unsigned unsigned in_range
signed16 (pos n) k h = ground arith
signed16 (negsuc n) k h = ground arith

signed32 :
    (v : ℤ) (k : ℕ) → in_range true 32 v ≡ true → from_unsigned 32 (unsigned 32 v + k * 2 ^ 32) ≡ v
unfolding from_unsigned unsigned in_range
signed32 (pos n) k h = ground arith
signed32 (negsuc n) k h = ground arith

signed64 :
    (v : ℤ) (k : ℕ) → in_range true 64 v ≡ true → from_unsigned 64 (unsigned 64 v + k * 2 ^ 64) ≡ v
unfolding from_unsigned unsigned in_range
signed64 (pos n) k h = ground arith
signed64 (negsuc n) k h = ground arith

-- the width of a field for integers
pub field_bits : Field → ℕ
field_bits int_value = 32
field_bits field = 64

module _ {F : Type 0} (r : Rounding F) where
  -- the value that is read back: a number in a field of floats is rounded to that field
  pub read_as : DataType → Scalar F → Scalar F
  read_as float (int v) = real (r.single (r.float_of v))
  read_as float (real x) = real (r.single x)
  read_as double (int v) = real (r.float_of v)
  read_as dt v = v

  -- A value that the codec accepts is read back as it was, but that a field of floats holds a float,
  -- rounded to 32 bits if the field has them.
  pub from_wire-to_wire :
      (dt : DataType) (v : Scalar F) (raw : Raw F)
      → to_wire r dt v ≡ some raw
      → from_wire r dt raw ≡ read_as dt v
  unfolding to_wire from_wire read_as
  from_wire-to_wire int8 (int v) raw h = ground (arith, signed8 v 0)
  from_wire-to_wire int16 (int v) raw h = ground (arith, signed16 v 0)
  from_wire-to_wire int32 (int v) raw h = ground (arith, signed32 v 0)
  from_wire-to_wire int64 (int v) raw h = ground (arith, signed64 v 0)
  from_wire-to_wire uint8 (int (pos n)) raw h = ground arith
  from_wire-to_wire dt v raw h = ground arith

  -- An integer that the codec accepts is put into its field as a number that fits it; and where the
  -- type is signed, an encoder that extends the sign, or adds any multiple of the type's range, is
  -- read as the same integer.
  pub integers_fit :
      (dt : DataType) (bits : ℕ) (v : ℤ) (n k : ℕ)
      → (spec_of dt).bits ≡ some bits
      → to_wire r dt (int v) ≡ some (number n)
      → (n < 2 ^ field_bits (spec_of dt).field)
        × ((spec_of dt).signed ≡ true → from_wire r dt (number (n + k * 2 ^ bits)) ≡ int v)
  unfolding to_wire from_wire field_bits in_range unsigned
  integers_fit int8 bits v n k e h = (ground arith, λ s. ground (arith, signed8 v k))
  integers_fit int16 bits v n k e h = (ground arith, λ s. ground (arith, signed16 v k))
  integers_fit int32 bits v n k e h = (ground arith, λ s. ground (arith, signed32 v k))
  integers_fit int64 bits v n k e h = (ground arith, λ s. ground (arith, signed64 v k))
  integers_fit dt bits v n k e h = (ground arith, λ s. cc)
