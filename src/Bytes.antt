-- ===== src/Bytes.antt =====
-- Text as lists of bytes: what the code uses of `std::string`, `atoi` and `memchr`.
use thingsetplusplus.Prelude.{
  ℕ, ◌+◌, ◌-◌, ◌*◌, ◌≡◌, ◌↔◌, refl, Bool, true, false, ◌&&◌, not, List, [], ◌∷◌, ◌++◌, Option, none,
  some, arith, ◌==◌, leb, if◌then◌else◌,
}

abbrev pub Bytes : Type 0
Bytes = List ℕ

-- `operator==` of strings.
unfoldable pub equal : Bytes → Bytes → Bool
equal [] [] = true
equal [] (y ∷ ys) = false
equal (x ∷ xs) [] = false
equal (x ∷ xs) (y ∷ ys) = (x == y) && equal xs ys

-- The part before the first `c`, and the part behind it where there is a `c`.
unfoldable pub split_at : ℕ → Bytes → Bytes × Option Bytes
split_at c [] = ([], none)
split_at c (x ∷ xs) =
    let (token, rest) = split_at c xs in if x == c then ([], some xs) else (x ∷ token, rest)

unfoldable pub is_digit : ℕ → Bool
is_digit c = leb b'0' c && leb c b'9'

-- `atoi` on a text that begins with digits, as far as the value fits an `int`.
unfoldable pub atoi_loop : ℕ → Bytes → ℕ
unfolding is_digit
atoi_loop acc [] = acc
atoi_loop acc (c ∷ cs) = if is_digit c then atoi_loop (acc * 10 + (c - b'0')) cs else acc

unfoldable pub atoi : Bytes → ℕ
unfolding atoi_loop
atoi s = atoi_loop 0 s

pub equal_iff : (xs ys : Bytes) → (equal xs ys ≡ true) ↔ (xs ≡ ys)
unfolding equal
equal_iff [] [] = ground arith
equal_iff [] (y ∷ ys) = ground arith
equal_iff (x ∷ xs) [] = ground arith
equal_iff (x ∷ xs) (y ∷ ys) = ground (arith, equal_iff xs ys)

abbrev pub lacks : ℕ → Bytes → Bool
lacks c [] = true
lacks c (x ∷ xs) = not (x == c) && lacks c xs

-- Without a `c` there is nothing to split off; at the first `c` the text is cut.
pub split_at-lacks : (c : ℕ) (xs : Bytes) → lacks c xs ≡ true → split_at c xs ≡ (xs, none)
unfolding split_at
split_at-lacks c [] h = refl
split_at-lacks c (x ∷ xs) h = ground (arith, split_at-lacks c xs)

pub split_at-append :
    (c : ℕ) (xs ys : Bytes) → lacks c xs ≡ true → split_at c (xs ++ c ∷ ys) ≡ (xs, some ys)
unfolding split_at
split_at-append c [] ys h = ground arith
split_at-append c (x ∷ xs) ys h = ground (arith, split_at-append c xs ys)
