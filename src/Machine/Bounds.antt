-- ===== src/Machine/Bounds.antt =====
-- The results of the operations on words are words.
use native.Mathlib.Nat.{pow-suc, div-le_self, mod-lt}
use nthu_operating_system_er.Base.{
  ℕ, zero, suc, ◌/◌, ◌%◌, ◌^◌, ◌≤◌, ◌<◌, ◌≢◌, Bool, arith, if◌then◌else◌, ◌&&◌, ◌||◌,
}
use nthu_operating_system_er.Mult.{word_size, differ}
use nthu_operating_system_er.Machine.Word.{
  is_neg, arithmetic_shift, and_word, or_word, xor_word, bitwise, int_magnitude, negate, div_int,
  mod_int,
}

bitwise-lt : (f : Bool → Bool → Bool) (n a b : ℕ) → bitwise f n a b < 2 ^ n
unfolding bitwise
bitwise-lt f zero a b = omega arith
bitwise-lt f (suc n) a b = ground (arith, pow-suc 2 n, bitwise-lt f n (a / 2) (b / 2))

pub and_word-lt : (a b : ℕ) → and_word a b < word_size
and_word-lt a b = bitwise-lt (λ a b. a && b) 32 a b

pub or_word-lt : (a b : ℕ) → or_word a b < word_size
or_word-lt a b = bitwise-lt (λ a b. a || b) 32 a b

pub xor_word-lt : (a b : ℕ) → xor_word a b < word_size
xor_word-lt a b = bitwise-lt differ 32 a b

pub arithmetic_shift-lt : (a k : ℕ) → a < word_size → arithmetic_shift a k < word_size
arithmetic_shift-lt a k h = ground (arith, div-le_self a (2 ^ k))

pub negate-lt : (a : ℕ) → negate a < word_size
negate-lt a = omega arith

pub div_int-lt : (a b : ℕ) → a < word_size → div_int a b < word_size
div_int-lt a b h =
    let small = div-le_self (int_magnitude a) (int_magnitude b) in
    let below : int_magnitude a < word_size = ground arith in
    quotient-lt (int_magnitude a / int_magnitude b) (differ (is_neg a) (is_neg b)) (omega arith)
  where
    quotient-lt : (q : ℕ) (b : Bool) → q < word_size → (if b then negate q else q) < word_size
    quotient-lt q b h = ground arith

pub mod_int-lt : (a b : ℕ) → a < word_size → b < word_size → b ≢ 0 → mod_int a b < word_size
mod_int-lt a b h k n =
    let positive : 0 < int_magnitude b = ground arith in
    let below : int_magnitude b ≤ word_size = ground arith in
    remainder-lt (int_magnitude a % int_magnitude b) (is_neg a)
      (omega (arith, mod-lt (int_magnitude a) positive))
  where
    remainder-lt : (q : ℕ) (b : Bool) → q < word_size → (if b then negate q else q) < word_size
    remainder-lt q b h = ground arith
