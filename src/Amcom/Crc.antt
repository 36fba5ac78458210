-- ===== src/Amcom/Crc.antt =====
-- `AMCOM_UpdateCRC` of src/amcom.c against the definition of the sum, digit by digit: CRC-16 with the
-- polynomial x^16 + x^12 + x^5 + 1, the lowest digit first.
use Prim.Native.Nat.{bit_and, bit_or, bit_xor}
use native.Mathlib.Nat.{pow-suc}
use mniam_headless.Base.{
  ℕ, zero, suc, ◌*◌, ◌/◌, ◌%◌, ◌^◌, ◌<◌, ◌≡◌, refl, ap, sym, ◌∙◌, Bool, true, ◌&&◌, Bool-cases, inl,
  inr, ◌==◌, if◌then◌else◌, arith, ltb,
}
use mniam_headless.Base.Bits.{
  bit_xor-half, bit_xor-parity, bit_xor_comm, bit_xor_assoc, bit_xor_fields, bit_xor-lt,
  bit_or_fields, bit_and_byte,
}
use mniam_headless.Amcom.Library.{update_crc}

-- One digit: the polynomial is subtracted, which is an exclusive or, if the digit that leaves is 1.
pub crc_digit : ℕ → ℕ
crc_digit x = if x % 2 == 1 then bit_xor (x / 2) 0x8408 else x / 2

pub crc_digits : ℕ → ℕ → ℕ
crc_digits zero x = x
crc_digits (suc n) x = crc_digits n (crc_digit x)

-- A byte into a sum.
pub crc_byte : ℕ → ℕ → ℕ
crc_byte byte crc = crc_digits 8 (bit_xor crc byte)

crc_digit-bit_xor : (m x : ℕ) → m % 2 ≡ 0 → crc_digit (bit_xor m x) ≡ bit_xor (m / 2) (crc_digit x)
unfolding crc_digit
crc_digit-bit_xor m x even =
    let same : bit_xor m x % 2 ≡ x % 2 = omega (arith, bit_xor-parity m x) in
    elim (Bool-cases (x % 2 == 1)) [
      | inl odd ↦ rw (same, odd, bit_xor-half m x) (bit_xor_assoc (m / 2) (x / 2) 0x8408)
      | inr none ↦ rw (same, none) (bit_xor-half m x)
    ]

crc_digits-bit_xor : (n h y : ℕ) → crc_digits n (bit_xor (h * 2 ^ n) y) ≡ bit_xor h (crc_digits n y)
unfolding crc_digits
crc_digits-bit_xor zero h y = ap (λ t. bit_xor t y) (omega arith)
crc_digits-bit_xor (suc n) h y =
    let even : h * 2 ^ suc n % 2 ≡ 0 = omega (arith, ap (λ (t : ℕ). h * t) (pow-suc 2 n)) in
    let half : h * 2 ^ suc n / 2 ≡ h * 2 ^ n = omega (arith, ap (λ (t : ℕ). h * t) (pow-suc 2 n)) in
    rw (crc_digit-bit_xor (h * 2 ^ suc n) y even, half) (crc_digits-bit_xor n h (crc_digit y))

-- The part of the sum that the code takes from the byte alone.
mixed : ℕ → ℕ
mixed e = bit_xor e (e * 2 ^ 4 % 2 ^ 8)

same_table : ℕ → Bool
same_table e =
    (bit_xor (bit_xor (mixed e * 2 ^ 8) (mixed e / 2 ^ 4 % 2 ^ 8)) (mixed e * 2 ^ 3)
      == crc_digits 8 e)
    && ltb (mixed e) 256
    && ltb (crc_digits 8 e) 65536

all_below : ℕ → (ℕ → Bool) → Bool
all_below zero p = true
all_below (suc n) p = p n && all_below n p

all_below-holds : (n : ℕ) (p : ℕ → Bool) (x : ℕ) → all_below n p ≡ true → x < n → p x ≡ true
unfolding all_below
all_below-holds zero p x h lt = absurd (omega arith)
all_below-holds (suc n) p x h lt = ground (arith, all_below-holds n p x)

same_table-holds : all_below 256 same_table ≡ true
unfolding all_below same_table mixed crc_digits crc_digit
same_table-holds = refl

same_table_lem :
    (e : ℕ)
    → same_table e ≡ true
    → (bit_xor (bit_xor (mixed e * 2 ^ 8) (mixed e / 2 ^ 4 % 2 ^ 8)) (mixed e * 2 ^ 3)
        ≡ crc_digits 8 e)
      × (mixed e < 256)
      × (crc_digits 8 e < 65536)
unfolding same_table
same_table_lem e h = ground arith

mixed_lem :
    (e : ℕ)
    → e < 256
    → (bit_xor (bit_xor (mixed e * 2 ^ 8) (mixed e / 2 ^ 4 % 2 ^ 8)) (mixed e * 2 ^ 3)
        ≡ crc_digits 8 e)
      × (mixed e < 256)
      × (crc_digits 8 e < 65536)
mixed_lem e small = same_table_lem e (all_below-holds 256 same_table e same_table-holds small)

-- The two halves of the new sum's first part do not overlap.
parted :
    (b h x y : ℕ)
    → h < 256
    → bit_xor (bit_xor (bit_or (b * 2 ^ 8) h) x) y ≡ bit_xor h (bit_xor (bit_xor (b * 2 ^ 8) x) y)
parted b h x y small =
    let front : bit_or (b * 2 ^ 8) h ≡ bit_xor h (b * 2 ^ 8) =
      omega (
        arith,
        bit_or_fields 8 b h small,
        bit_xor_fields 8 b h small,
        bit_xor_comm h (b * 2 ^ 8),
      ) in
    ap (λ t. bit_xor (bit_xor t x) y) front
    ∙ ap (λ t. bit_xor t y) (bit_xor_assoc h (b * 2 ^ 8) x)
    ∙ bit_xor_assoc h (bit_xor (b * 2 ^ 8) x) y

-- A byte put into a sum goes into its lower half only.
crc_byte-split :
    (byte crc : ℕ)
    → crc < 2 ^ 16
    → crc_byte byte crc ≡ bit_xor (crc / 2 ^ 8) (crc_digits 8 (bit_xor byte (crc % 256)))
unfolding crc_byte
crc_byte-split byte crc q =
    let h = crc / 2 ^ 8 in
    let r = crc % 256 in
    let fields : bit_xor (h * 2 ^ 8) r ≡ crc = omega (arith, bit_xor_fields 8 h r (omega arith)) in
    ap (λ t. crc_digits 8 (bit_xor t byte)) (sym fields)
    ∙ ap (crc_digits 8) (bit_xor_assoc (h * 2 ^ 8) r byte)
    ∙ ap (λ t. crc_digits 8 (bit_xor (h * 2 ^ 8) t)) (bit_xor_comm r byte)
    ∙ crc_digits-bit_xor 8 h (bit_xor byte r)

-- For every byte and every 16-bit sum, `AMCOM_UpdateCRC` gives the sum that the definition gives.
pub update_crc-crc_byte :
    (byte crc : ℕ) → byte < 2 ^ 8 → crc < 2 ^ 16 → update_crc byte crc ≡ crc_byte byte crc
unfolding update_crc mixed
update_crc-crc_byte byte crc p q =
    let e = bit_xor byte (crc % 256) in
    let h = crc / 2 ^ 8 in
    let facts = mixed_lem e (bit_xor-lt 8 byte (crc % 256) p (omega arith)) in
    let low : bit_and crc 0xff % 2 ^ 8 ≡ crc % 256 = omega (arith, bit_and_byte crc) in
    let high : h % 2 ^ 8 ≡ h = omega arith in
    let whole = bit_xor-lt 16 h (crc_digits 8 e) (omega arith) facts.2 in
    rw
      (
        low,
        high,
        parted (mixed e) h (mixed e / 2 ^ 4 % 2 ^ 8) (mixed e * 2 ^ 3) (omega arith),
        facts.0,
        crc_byte-split byte crc q,
      )
      (omega (arith, whole))
