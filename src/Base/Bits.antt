-- ===== src/Base/Bits.antt =====
-- The binary operations on native numbers, by their lowest digit and at every width.
use Prim.Native.Nat.{
  min, max, differ, digits, bitwise, bit_and, bit_or, bit_xor, bit_and-bitwise, bit_or-bitwise,
  bit_xor-bitwise,
}
use Prim.Native.Nat.{ℕ, zero, suc, ◌+◌, ◌*◌, ◌/◌, ◌%◌, ◌^◌, ◌≤◌, ◌<◌}
use mathlib.Core.Path.{◌≡◌, refl, ap}
use native.Mathlib.Nat.{pow-suc}
use native.Mathlib.Omega.{arith}

-- A count of digits to go that is large enough may be any such count.
module _ (z : ℕ → ℕ) (f : ℕ → ℕ → ℕ) where
  digits_count : (n m a b : ℕ) → a ≤ n → a ≤ m → digits z f n a b ≡ digits z f m a b
  digits_count zero zero a b p q = refl
  digits_count zero (suc m) zero b p q = refl
  digits_count zero (suc m) (suc a) b p q = absurd (omega arith)
  digits_count (suc n) zero zero b p q = refl
  digits_count (suc n) zero (suc a) b p q = absurd (omega arith)
  digits_count (suc n) (suc m) zero b p q = refl
  digits_count (suc n) (suc m) (suc a) b p q =
      rw (digits_count n m (suc a / 2) (b / 2) (omega arith) (omega arith))

  bitwise_lowest :
      (a b : ℕ)
      → bitwise z f (suc a) b ≡ bitwise z f (suc a / 2) (b / 2) * 2 + f (suc a % 2) (b % 2)
  bitwise_lowest a b =
      omega (arith, digits_count a (suc a / 2) (suc a / 2) (b / 2) (omega arith) (omega arith))

differ_sum : (x y : ℕ) → x < 2 → y < 2 → differ x y ≡ (x + y) % 2
differ_sum zero y p q = omega arith
differ_sum (suc zero) zero p q = refl
differ_sum (suc zero) (suc zero) p q = refl
differ_sum (suc zero) (suc (suc y)) p q = absurd (omega arith)
differ_sum (suc (suc x)) y p q = absurd (omega arith)

pub zero-bit_xor : (b : ℕ) → bit_xor 0 b ≡ b
zero-bit_xor b = bit_xor-bitwise 0 b

pub bit_xor_lowest : (a b : ℕ) → bit_xor a b ≡ bit_xor (a / 2) (b / 2) * 2 + (a % 2 + b % 2) % 2
bit_xor_lowest zero b = omega (arith, zero-bit_xor b, zero-bit_xor (b / 2))
bit_xor_lowest (suc a) b = omega (
  arith,
  bit_xor-bitwise (suc a) b,
  bit_xor-bitwise (suc a / 2) (b / 2),
  bitwise_lowest (λ x. x) differ a b,
  differ_sum (suc a % 2) (b % 2) (omega arith) (omega arith),
)

pub bit_xor-half : (a b : ℕ) → bit_xor a b / 2 ≡ bit_xor (a / 2) (b / 2)
bit_xor-half a b = omega (arith, bit_xor_lowest a b)

pub bit_xor-parity : (a b : ℕ) → bit_xor a b % 2 ≡ (a % 2 + b % 2) % 2
bit_xor-parity a b = omega (arith, bit_xor_lowest a b)

bit_xor_comm_below : (n a b : ℕ) → a ≤ n → b ≤ n → bit_xor a b ≡ bit_xor b a
bit_xor_comm_below zero a b p q =
    let none : a ≡ 0 = omega arith in let none' : b ≡ 0 = omega arith in rw (none, none')
bit_xor_comm_below (suc n) a b p q = omega (
  arith,
  bit_xor_lowest a b,
  bit_xor_lowest b a,
  bit_xor_comm_below n (a / 2) (b / 2) (omega arith) (omega arith),
)

pub bit_xor_comm : (a b : ℕ) → bit_xor a b ≡ bit_xor b a
bit_xor_comm a b = bit_xor_comm_below (a + b) a b (omega arith) (omega arith)

bit_xor_assoc_below : (n a b c : ℕ) → a ≤ n → bit_xor (bit_xor a b) c ≡ bit_xor a (bit_xor b c)
bit_xor_assoc_below zero a b c p =
    let none : a ≡ 0 = omega arith in rw (none, zero-bit_xor b, zero-bit_xor (bit_xor b c))
bit_xor_assoc_below (suc n) a b c p = omega (
  arith,
  bit_xor_lowest (bit_xor a b) c,
  bit_xor_lowest a (bit_xor b c),
  bit_xor-parity a b,
  bit_xor-parity b c,
  ap (λ x. bit_xor x (c / 2)) (bit_xor-half a b),
  ap (λ x. bit_xor (a / 2) x) (bit_xor-half b c),
  bit_xor_assoc_below n (a / 2) (b / 2) (c / 2) (omega arith),
)

pub bit_xor_assoc : (a b c : ℕ) → bit_xor (bit_xor a b) c ≡ bit_xor a (bit_xor b c)
bit_xor_assoc a b c = bit_xor_assoc_below a a b c (omega arith)

mul-pow-suc : (q k : ℕ) → q * 2 ^ suc k ≡ 2 * (q * 2 ^ k)
mul-pow-suc q k = omega (arith, ap (λ (t : ℕ). q * t) (pow-suc 2 k))

halves : (x y : ℕ) → x ≡ 2 * y → (x / 2 ≡ y) × (x % 2 ≡ 0)
halves x y h = omega arith

-- Fields that do not overlap add up.
pub bit_xor_fields : (k q r : ℕ) → r < 2 ^ k → bit_xor (q * 2 ^ k) r ≡ q * 2 ^ k + r
bit_xor_fields zero q r h =
    let none : r ≡ 0 = omega arith in
    rw none (omega (arith, bit_xor_comm (q * 1) 0, zero-bit_xor (q * 1)))
bit_xor_fields (suc k) q r h =
    let shifted = halves (q * 2 ^ suc k) (q * 2 ^ k) (mul-pow-suc q k) in
    omega (
      arith,
      bit_xor_lowest (q * 2 ^ suc k) r,
      shifted,
      ap (λ x. bit_xor x (r / 2)) shifted.0,
      mul-pow-suc q k,
      pow-suc 2 k,
      bit_xor_fields k q (r / 2) (omega (arith, pow-suc 2 k)),
    )

pub bit_xor-lt : (k a b : ℕ) → a < 2 ^ k → b < 2 ^ k → bit_xor a b < 2 ^ k
bit_xor-lt zero a b p q =
    let none : a ≡ 0 = omega arith in
    let none' : b ≡ 0 = omega arith in rw (none, none') (omega (arith, zero-bit_xor 0))
bit_xor-lt (suc k) a b p q = omega (
  arith,
  bit_xor_lowest a b,
  pow-suc 2 k,
  bit_xor-lt k (a / 2) (b / 2) (omega (arith, pow-suc 2 k)) (omega (arith, pow-suc 2 k)),
)

zero-bit_or : (b : ℕ) → bit_or 0 b ≡ b
zero-bit_or b = bit_or-bitwise 0 b

bit_or_lowest : (a b : ℕ) → bit_or a b ≡ bit_or (a / 2) (b / 2) * 2 + max (a % 2) (b % 2)
bit_or_lowest zero b = simp bit_or-bitwise (omega arith)
bit_or_lowest (suc a) b = simp bit_or-bitwise (bitwise_lowest (λ x. x) max a b)

bit_or-zero_below : (n a : ℕ) → a ≤ n → bit_or a 0 ≡ a
bit_or-zero_below zero a p = let none : a ≡ 0 = omega arith in rw none (zero-bit_or 0)
bit_or-zero_below (suc n) a p =
    omega (arith, bit_or_lowest a 0, bit_or-zero_below n (a / 2) (omega arith))

pub bit_or_fields : (k q r : ℕ) → r < 2 ^ k → bit_or (q * 2 ^ k) r ≡ q * 2 ^ k + r
bit_or_fields zero q r h =
    let none : r ≡ 0 = omega arith in
    rw none (omega (arith, bit_or-zero_below (q * 1) (q * 1) (omega arith)))
bit_or_fields (suc k) q r h =
    let shifted = halves (q * 2 ^ suc k) (q * 2 ^ k) (mul-pow-suc q k) in
    omega (
      arith,
      bit_or_lowest (q * 2 ^ suc k) r,
      shifted,
      ap (λ x. bit_or x (r / 2)) shifted.0,
      mul-pow-suc q k,
      pow-suc 2 k,
      bit_or_fields k q (r / 2) (omega (arith, pow-suc 2 k)),
    )

bit_and_lowest : (a b : ℕ) → bit_and a b ≡ bit_and (a / 2) (b / 2) * 2 + min (a % 2) (b % 2)
bit_and_lowest zero b = simp bit_and-bitwise (omega arith)
bit_and_lowest (suc a) b = simp bit_and-bitwise (bitwise_lowest (λ x. 0) min a b)

bit_and-zero_below : (n a : ℕ) → a ≤ n → bit_and a 0 ≡ 0
bit_and-zero_below zero a p = let none : a ≡ 0 = omega arith in rw none (bit_and-bitwise 0 0)
bit_and-zero_below (suc n) a p =
    omega (arith, bit_and_lowest a 0, bit_and-zero_below n (a / 2) (omega arith))

bit_and-one : (a : ℕ) → bit_and a 1 ≡ a % 2
bit_and-one a = omega (arith, bit_and_lowest a 1, bit_and-zero_below (a / 2) (a / 2) (omega arith))

bit_and_seven : (a : ℕ) → bit_and a 7 ≡ a % 8
bit_and_seven a =
    omega (arith, bit_and_lowest a 7, bit_and_lowest (a / 2) 3, bit_and-one (a / 2 / 2))

bit_and_mask_63 : (a : ℕ) → bit_and a 63 ≡ a % 64
bit_and_mask_63 a = omega (
  arith,
  bit_and_lowest a 63,
  bit_and_lowest (a / 2) 31,
  bit_and_lowest (a / 2 / 2) 15,
  bit_and_seven (a / 2 / 2 / 2),
)

pub bit_and_byte : (a : ℕ) → bit_and a 0xff ≡ a % 256
bit_and_byte a =
    omega (arith, bit_and_lowest a 255, bit_and_lowest (a / 2) 127, bit_and_mask_63 (a / 2 / 2))
