-- ===== src/Binary/Examples.antt =====
-- The theorems on src/ThingSetBinaryDecoder.cpp with states that are the integers themselves.
use thingsetplusplus.Prelude.{ℕ, ◌-◌, ◌≡◌, refl, Option, none, some, arith}
use thingsetplusplus.Binary.{
  Integer, positive, negative, Zcbor, decode_int8, decode_int16, decode_signed-below,
}

abbrev unsigned : Integer → Option ℕ
unsigned (positive n) = some n
unsigned (negative n) = none

abbrev integers : Zcbor Integer
integers = record { uint32_decode = λ z. (unsigned z, z); int32_decode = λ z. (some z, z) }

decode_signed-below_example :
    ((decode_int8 integers (negative 199)).0 ≡ some (positive (255 - 199)))
    × ((decode_int16 integers (negative 32768)).0 ≡ some (positive (65535 - 32768)))
decode_signed-below_example =
    decode_signed-below integers (negative 199) (negative 32768) 199 32768 refl (omega arith)
      (omega arith) refl (omega arith) (omega arith)
