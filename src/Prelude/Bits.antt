-- ===== src/Prelude/Bits.antt =====
-- Bitwise `&` and `|` of unsigned words, read as arithmetic on the fields of a word.
use Prim.Native.Nat.{
  ℕ, zero, suc, ◌+◌, ◌-◌, ◌*◌, ◌/◌, ◌%◌, ◌^◌, ◌≤◌, ◌<◌, min, max, bit_and, bit_or, digits, bitwise,
  bit_and-bitwise, bit_or-bitwise,
}
use mathlib.Core.Path.{◌≡◌, refl, ap}
use native.Mathlib.Omega.{arith}
use native.Mathlib.Nat.{pow-suc, div-add-mod, div-add-mod', mod-lt, one-le-pow}

-- `rest` is what an exhausted first operand leaves of the second, `join` the table of one digit.
module _ (rest : ℕ → ℕ) (join : ℕ → ℕ → ℕ) where
  -- Any fuel that covers the first operand gives the same digits.
  digits_enough : (k l x y : ℕ) → x ≤ k → x ≤ l → digits rest join k x y ≡ digits rest join l x y
  digits_enough zero zero x y h g = refl
  digits_enough zero (suc l) zero y h g = refl
  digits_enough (suc k) zero zero y h g = refl
  digits_enough (suc k) (suc l) zero y h g = refl
  digits_enough zero l (suc x) y h g = absurd (omega arith)
  digits_enough (suc k) zero (suc x) y h g = absurd (omega arith)
  digits_enough (suc k) (suc l) (suc x) y h g =
      rw (digits_enough k l (suc x / 2) (y / 2) (omega arith) (omega arith))

  bitwise_lem :
      (x y : ℕ)
      → bitwise rest join (suc x) y
        ≡ bitwise rest join (suc x / 2) (y / 2) * 2 + join (suc x % 2) (y % 2)
  bitwise_lem x y =
      omega (arith, digits_enough x (suc x / 2) (suc x / 2) (y / 2) (omega arith) (omega arith))

bit_and_digit : (x y : ℕ) → bit_and x y ≡ bit_and (x / 2) (y / 2) * 2 + min (x % 2) (y % 2)
bit_and_digit zero y = omega (arith, bit_and-bitwise 0 y, bit_and-bitwise 0 (y / 2))
bit_and_digit (suc x) y = simp bit_and-bitwise (bitwise_lem (λ y. 0) min x y)

bit_or_digit : (x y : ℕ) → bit_or x y ≡ bit_or (x / 2) (y / 2) * 2 + max (x % 2) (y % 2)
bit_or_digit zero y = simp bit_or-bitwise (omega arith)
bit_or_digit (suc x) y = simp bit_or-bitwise (bitwise_lem (λ y. y) max x y)

two_pow : (a k : ℕ) → a * 2 ^ suc k ≡ 2 * (a * 2 ^ k)
two_pow a k = omega (arith, ap (λ (t : ℕ). a * t) (pow-suc 2 k))

-- `&` works on the high and the low fields separately.
pub bit_and_fields :
    (k a b c d : ℕ)
    → c < 2 ^ k
    → d < 2 ^ k
    → bit_and (a * 2 ^ k + c) (b * 2 ^ k + d) ≡ bit_and a b * 2 ^ k + bit_and c d
bit_and_fields zero a b zero zero h g = ground (arith, bit_and-bitwise 0 0)
bit_and_fields zero a b (suc c) d h g = absurd (omega arith)
bit_and_fields zero a b zero (suc d) h g = absurd (omega arith)
bit_and_fields (suc k) a b c d h g = ground (
  arith,
  bit_and_digit (a * 2 ^ suc k + c) (b * 2 ^ suc k + d),
  bit_and_digit c d,
  two_pow a k,
  two_pow b k,
  two_pow (bit_and a b) k,
  pow-suc 2 k,
  bit_and_fields k a b (c / 2) (d / 2) (omega arith) (omega arith),
)

-- `|` does too.
pub bit_or_fields :
    (k a b c d : ℕ)
    → c < 2 ^ k
    → d < 2 ^ k
    → bit_or (a * 2 ^ k + c) (b * 2 ^ k + d) ≡ bit_or a b * 2 ^ k + bit_or c d
bit_or_fields zero a b zero zero h g = ground (arith, bit_or-bitwise 0 0)
bit_or_fields zero a b (suc c) d h g = absurd (omega arith)
bit_or_fields zero a b zero (suc d) h g = absurd (omega arith)
bit_or_fields (suc k) a b c d h g = ground (
  arith,
  bit_or_digit (a * 2 ^ suc k + c) (b * 2 ^ suc k + d),
  bit_or_digit c d,
  two_pow a k,
  two_pow b k,
  two_pow (bit_or a b) k,
  pow-suc 2 k,
  bit_or_fields k a b (c / 2) (d / 2) (omega arith) (omega arith),
)

-- A field of zeros, and a field of ones; the fuel `n` bounds the value.
zero_field : (n x : ℕ) → x ≤ n → (bit_and x 0 ≡ 0) × (bit_or x 0 ≡ x)
zero_field n zero h = (refl, refl)
zero_field zero (suc x) h = absurd (omega arith)
zero_field (suc n) (suc x) h =
    omega (
      arith,
      bit_and_digit (suc x) 0,
      bit_or_digit (suc x) 0,
      zero_field n (suc x / 2) (omega arith),
    )

pub bit_and-zero : (x : ℕ) → bit_and x 0 ≡ 0
bit_and-zero x = (zero_field x x (omega arith)).0

pub bit_or-zero : (x : ℕ) → bit_or x 0 ≡ x
bit_or-zero x = (zero_field x x (omega arith)).1

pub zero-bit_or : (x : ℕ) → bit_or 0 x ≡ x
zero-bit_or x = bit_or-bitwise 0 x

-- A field of ones keeps what it covers.
pub bit_and_ones : (k x : ℕ) → x < 2 ^ k → bit_and x (2 ^ k - 1) ≡ x
bit_and_ones zero x h = rw (bit_and-zero x) (omega arith)
bit_and_ones (suc k) x h = omega (
  arith,
  bit_and_digit x (2 ^ suc k - 1),
  pow-suc 2 k,
  ap (λ (t : ℕ). bit_and (x / 2) t) (half_ones k),
  bit_and_ones k (x / 2) (omega (arith, pow-suc 2 k)),
)
  where
    half_ones : (k : ℕ) → (2 ^ suc k - 1) / 2 ≡ 2 ^ k - 1
    half_ones k = omega (arith, pow-suc 2 k)

-- A word is the fields above, in and below `w` bits at position `p`.
split_word : (p w x : ℕ) → x ≡ (x / 2 ^ p / 2 ^ w * 2 ^ w + x / 2 ^ p % 2 ^ w) * 2 ^ p + x % 2 ^ p
split_word p w x = grind (arith, div-add-mod)

-- What a mask with ones at the field, and its complement, keep of a word given by its fields.
module _ (n p w hi mid lo : ℕ) (mid_fits : mid < 2 ^ w) (lo_fits : lo < 2 ^ p) where
  and_mask : bit_and ((hi * 2 ^ w + mid) * 2 ^ p + lo) ((2 ^ w - 1) * 2 ^ p) ≡ mid * 2 ^ p
  and_mask = ground (
    arith,
    one-le-pow w 2,
    one-le-pow p 2,
    bit_and_fields p (hi * 2 ^ w + mid) (2 ^ w - 1) lo 0,
    bit_and_fields w hi 0 mid (2 ^ w - 1),
    bit_and-zero lo,
    bit_and-zero hi,
    bit_and_ones w mid,
  )

  and_complement :
      hi < 2 ^ n
      → bit_and ((hi * 2 ^ w + mid) * 2 ^ p + lo) ((2 ^ n - 1) * 2 ^ w * 2 ^ p + (2 ^ p - 1))
        ≡ hi * 2 ^ w * 2 ^ p + lo
  and_complement hi_fits = ground (
    arith,
    one-le-pow w 2,
    one-le-pow p 2,
    bit_and_fields p (hi * 2 ^ w + mid) ((2 ^ n - 1) * 2 ^ w) lo (2 ^ p - 1),
    bit_and_fields w hi (2 ^ n - 1) mid 0,
    bit_and-zero mid,
    bit_and_ones n hi,
    bit_and_ones p lo,
  )

  or_field :
      (v : ℕ)
      → v < 2 ^ w
      → bit_or (hi * 2 ^ w * 2 ^ p + lo) (v * 2 ^ p) ≡ (hi * 2 ^ w + v) * 2 ^ p + lo
  or_field v v_fits = ground (
    arith,
    one-le-pow w 2,
    one-le-pow p 2,
    bit_or_fields p (hi * 2 ^ w) v lo 0,
    bit_or_fields w hi 0 0 v,
    bit_or-zero lo,
    bit_or-zero hi,
    zero-bit_or v,
  )

-- Reading a field: mask, then shift down.
pub get_field : (p w x : ℕ) → bit_and x ((2 ^ w - 1) * 2 ^ p) ≡ x / 2 ^ p % 2 ^ w * 2 ^ p
get_field p w x = rw (ap (λ (t : ℕ). bit_and t ((2 ^ w - 1) * 2 ^ p)) (split_word p w x)) (
    and_mask 0 p w (x / 2 ^ p / 2 ^ w) (x / 2 ^ p % 2 ^ w) (x % 2 ^ p)
      (mod-lt _ (one-le-pow w 2 (omega arith))) (mod-lt _ (one-le-pow p 2 (omega arith))))

-- Writing a field: clear it by the complement of its mask, then `|` the shifted value, cut to the
-- field. The fields above and below stay.
pub set_field :
    (n p w x v : ℕ)
    → x / 2 ^ p / 2 ^ w < 2 ^ n
    → bit_or
        (bit_and x ((2 ^ n - 1) * 2 ^ w * 2 ^ p + (2 ^ p - 1)))
        (bit_and (v * 2 ^ p) ((2 ^ w - 1) * 2 ^ p))
      ≡ (x / 2 ^ p / 2 ^ w * 2 ^ w + v % 2 ^ w) * 2 ^ p + x % 2 ^ p
set_field n p w x v h =
    let w_pos = one-le-pow w 2 (omega arith) in
    let mid_fits = mod-lt (x / 2 ^ p) w_pos in
    let lo_fits = mod-lt x (one-le-pow p 2 (omega arith)) in
    let v_fits = mod-lt v w_pos in
    ground (
      arith,
      split_word p w x,
      div-add-mod' v (2 ^ w),
      one-le-pow p 2,
      and_mask p p w (v / 2 ^ w) (v % 2 ^ w) 0 v_fits,
      and_complement n p w (x / 2 ^ p / 2 ^ w) (x / 2 ^ p % 2 ^ w) (x % 2 ^ p) mid_fits lo_fits h,
      or_field n p w (x / 2 ^ p / 2 ^ w) (x / 2 ^ p % 2 ^ w) (x % 2 ^ p) mid_fits lo_fits
          (v % 2 ^ w),
    )
