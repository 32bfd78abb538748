-- ===== src/Binary.antt =====
-- The integers of src/ThingSetBinaryDecoder.cpp. The zcbor library is a parameter, of which the model uses
-- the integer that a call decodes.
mod Examples
use thingsetplusplus.Prelude.{
  ℕ, suc, ◌+◌, ◌-◌, ◌*◌, ◌%◌, ◌<◌, ◌≤◌, ◌≡◌, ◌≢◌, ◌↔◌, refl, inl, inr, Bool, true, false, not, ◌&&◌,
  Option, none, some, ◌==◌, ltb, leb, if◌then◌else◌, arith, Bool-cases,
}

-- A signed integer as CBOR writes it: `negative n` is -1 - n.
pub data Integer : Type 0 where
  positive negative : ℕ → Integer

pub record Zcbor (Z : Type 0) : Type 0 where
  pub uint32_decode : Z → Option ℕ × Z
  pub int32_decode : Z → Option Integer × Z

-- `i < UINT8_MAX` and the like, for the largest value of the type.
unfoldable pub narrow_unsigned : ℕ → Option ℕ → Option ℕ
narrow_unsigned max none = none
narrow_unsigned max (some i) = if ltb i max then some i else none

-- Conversion to a signed type with the values from -half to half - 1.
unfoldable pub wrap_signed : ℕ → Integer → Integer
wrap_signed half (positive n) =
    let k = n % (half * 2) in if ltb k half then positive k else negative (half * 2 - 1 - k)
wrap_signed half (negative n) =
    let k = n % (half * 2) in if ltb k half then negative k else positive (half * 2 - 1 - k)

unfoldable pub less : Integer → ℕ → Bool
less (positive n) max = ltb n max
less (negative n) max = true

unfoldable pub narrow_signed : ℕ → Option Integer → Option Integer
unfolding wrap_signed less
narrow_signed half none = none
narrow_signed half (some i) = if less i (half - 1) then some (wrap_signed half i) else none

module _ {Z : Type 0} (zcbor : Zcbor Z) where
  unfoldable pub decode_uint8 : Z → Option ℕ × Z
  unfolding narrow_unsigned
  decode_uint8 z = let (i, z') = zcbor.uint32_decode z in (narrow_unsigned 255 i, z')

  unfoldable pub decode_uint16 : Z → Option ℕ × Z
  unfolding narrow_unsigned
  decode_uint16 z = let (i, z') = zcbor.uint32_decode z in (narrow_unsigned 65535 i, z')

  unfoldable pub decode_int8 : Z → Option Integer × Z
  unfolding narrow_signed
  decode_int8 z = let (i, z') = zcbor.int32_decode z in (narrow_signed 128 i, z')

  unfoldable pub decode_int16 : Z → Option Integer × Z
  unfolding narrow_signed
  decode_int16 z = let (i, z') = zcbor.int32_decode z in (narrow_signed 32768 i, z')

  -- An unsigned integer is decoded as itself if it is below the largest value of its type; that value and
  -- all above are refused.
  pub decode_unsigned_lem :
      (z : Z) (i : ℕ)
      → (zcbor.uint32_decode z).0 ≡ some i
      → ((decode_uint8 z).0 ≡ (if leb i 254 then some i else none))
        × ((decode_uint16 z).0 ≡ (if leb i 65534 then some i else none))
  unfolding decode_uint8 decode_uint16 narrow_unsigned
  decode_unsigned_lem z i e = rw (e) (ground arith, ground arith)

  -- A negative integer that is below the range of its type, but by no more than half the number of the type's values
  -- (-129 to -256 for eight bits, -32769 to -65536 for sixteen), is accepted, and decoded as a number that
  -- is not negative: the integer and 256 or 65536 together.
  pub decode_signed-below :
      (z y : Z) (n m : ℕ)
      → (zcbor.int32_decode z).0 ≡ some (negative n)
      → 128 ≤ n
      → n < 256
      → (zcbor.int32_decode y).0 ≡ some (negative m)
      → 32768 ≤ m
      → m < 65536
      → ((decode_int8 z).0 ≡ some (positive (255 - n)))
        × ((decode_int16 y).0 ≡ some (positive (65535 - m)))
  unfolding decode_int8 decode_int16 narrow_signed less wrap_signed
  decode_signed-below z y n m e low high e' low' high' =
      let k : n % 256 ≡ n = omega arith in
      let k' : m % 65536 ≡ m = omega arith in
      let out : ltb n 128 ≡ false = ground arith in
      let out' : ltb m 32768 ≡ false = ground arith in
      rw (e, e', k, k', out, out') (ground arith, ground arith)
