-- ===== src/Isotp/Pci.antt =====
-- The first byte of a frame (src/can/zephyr/isotp/isotp_internal.h): its masks read as arithmetic.
use thingsetplusplus.Prelude.{ℕ, ◌+◌, ◌*◌, ◌/◌, ◌%◌, ◌<◌, ◌≡◌, bit_and, bit_or, arith}
use thingsetplusplus.Prelude.Bits.{get_field, bit_or_fields, bit_or-zero, zero-bit_or}

pub high_half : (b : ℕ) → bit_and b 0xF0 ≡ b / 16 % 16 * 16
high_half b = get_field 4 4 b

pub low_half : (b : ℕ) → bit_and b 0x0F ≡ b % 16
low_half b = omega (arith, get_field 0 4 b)

pub join_halves : (k n : ℕ) → n < 16 → bit_or (k * 16) n ≡ k * 16 + n
join_halves k n h = ground (arith, bit_or_fields 4 k 0 0 n, bit_or-zero k, zero-bit_or n)
