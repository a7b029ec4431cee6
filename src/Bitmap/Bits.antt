-- ===== src/Bitmap/Bits.antt =====
-- The bit operations of a machine word, digit by digit: `w & (1 << k)`, `w |= 1 << k` and
-- `w &= ~(1 << k)`, for a k below the width.
use Prim.Native.Nat.{bit_and, bit_or}
use native.Mathlib.Nat.{pow-suc}
use nthu_operating_system_er.Base.{
  ℕ, zero, suc, ◌+◌, ◌-◌, ◌*◌, ◌/◌, ◌%◌, ◌^◌, ◌<◌, ◌≡◌, refl, ap, Bool, true, false, arith, ◌==◌,
  if◌then◌else◌,
}

unfoldable pub test_bit : ℕ → ℕ → Bool
test_bit w zero = w % 2 == 1
test_bit w (suc k) = test_bit (w / 2) k

unfoldable pub set_bit : ℕ → ℕ → ℕ
set_bit w zero = w / 2 * 2 + 1
set_bit w (suc k) = set_bit (w / 2) k * 2 + w % 2

unfoldable pub clear_bit : ℕ → ℕ → ℕ
clear_bit w zero = w / 2 * 2
clear_bit w (suc k) = clear_bit (w / 2) k * 2 + w % 2

half_of_digits : (h d : ℕ) → d < 2 → ((h * 2 + d) / 2 ≡ h) × ((h * 2 + d) % 2 ≡ d)
half_of_digits h d p = omega arith

pub test_bit-set_bit :
    (w k j : ℕ) → test_bit (set_bit w k) j ≡ (if k == j then true else test_bit w j)
unfolding test_bit set_bit
test_bit-set_bit w zero zero = ground arith
test_bit-set_bit w zero (suc j) =
    ground (arith, ap (λ h. test_bit h j) (half_of_digits (w / 2) 1 (omega arith)).0)
test_bit-set_bit w (suc k) zero = ground arith
test_bit-set_bit w (suc k) (suc j) = ground (
  arith,
  ap (λ h. test_bit h j) (half_of_digits (set_bit (w / 2) k) (w % 2) (omega arith)).0,
  test_bit-set_bit (w / 2) k j,
)

pub test_bit-clear_bit :
    (w k j : ℕ) → test_bit (clear_bit w k) j ≡ (if k == j then false else test_bit w j)
unfolding test_bit clear_bit
test_bit-clear_bit w zero zero = ground arith
test_bit-clear_bit w zero (suc j) = ground (arith, ap (λ h. test_bit h j) (double_half (w / 2)))
  where
    double_half : (h : ℕ) → h * 2 / 2 ≡ h
    double_half h = omega arith
test_bit-clear_bit w (suc k) zero = ground arith
test_bit-clear_bit w (suc k) (suc j) = ground (
  arith,
  ap (λ h. test_bit h j) (half_of_digits (clear_bit (w / 2) k) (w % 2) (omega arith)).0,
  test_bit-clear_bit (w / 2) k j,
)

-- The operations stay within the width.
pub set_bit-lt : (n w k : ℕ) → w < 2 ^ n → k < n → set_bit w k < 2 ^ n
unfolding set_bit
set_bit-lt zero w k h p = elim p [ ]
set_bit-lt (suc n) w zero h p = omega (arith, pow-suc 2 n)
set_bit-lt (suc n) w (suc k) h p =
    omega (arith, pow-suc 2 n, set_bit-lt n (w / 2) k (omega (arith, pow-suc 2 n)) (omega arith))

pub clear_bit-lt : (n w k : ℕ) → w < 2 ^ n → clear_bit w k < 2 ^ n
unfolding clear_bit
clear_bit-lt n w zero h = omega arith
clear_bit-lt zero w (suc k) h = omega (arith, clear_bit-lt zero (w / 2) k (omega arith))
clear_bit-lt (suc n) w (suc k) h =
    omega (arith, pow-suc 2 n, clear_bit-lt n (w / 2) k (omega (arith, pow-suc 2 n)))

-- The digit recursion is the machine's: `|`, `&` and `~` at a word.
set_bit_or : set_bit 0x1234_5678 13 ≡ bit_or 0x1234_5678 (2 ^ 13)
unfolding set_bit
set_bit_or = refl

clear_bit_and : clear_bit 0x1234_5678 12 ≡ bit_and 0x1234_5678 (2 ^ 32 - 1 - 2 ^ 12)
unfolding clear_bit
clear_bit_and = refl

pub test_bit-zero : (k : ℕ) → test_bit 0 k ≡ false
unfolding test_bit
test_bit-zero zero = refl
test_bit-zero (suc k) = test_bit-zero k
