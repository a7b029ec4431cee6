-- ===== src/Mult/Integers.antt =====
-- Mult against the product of the integers.
use nthu_operating_system_er.Base.{
  ℕ, ◌+◌, ◌-◌, ◌*◌, ◌%◌, ◌<◌, ◌≡◌, ◌∙◌, Bool, true, false, ◌&&◌, arith, leb, if◌then◌else◌, ℤ, pos,
  negsuc, pos_part, neg_part, sub_ℕ,
}
use nthu_operating_system_er.Mult.{word_size, is_negative, magnitude, differ, mult}
use nthu_operating_system_er.Mult.Loop.{double}
use nthu_operating_system_er.Mult.Product.{magnitude-lt, product-lt, mult-double_product}

infixl 65 ◌*ℤ◌
abbrev pub ◌*ℤ◌ : ℤ → ℤ → ℤ
x *ℤ y =
    sub_ℕ (pos_part x * pos_part y + neg_part x * neg_part y)
      (pos_part x * neg_part y + neg_part x * pos_part y)

-- The integer of a word: of an int in two's complement, or of an unsigned number.
abbrev pub integer_of : Bool → ℕ → ℤ
integer_of signed a = if signed && leb 0x8000_0000 a then negsuc (0xffff_ffff - a) else pos a

-- The two's complement in 64 bits
abbrev pub double_of : ℤ → ℕ
double_of (pos n) = n
double_of (negsuc n) = 0xffff_ffff_ffff_ffff - n

double_of-negative :
    (p n m : ℕ)
    → p ≡ 0
    → n ≡ m
    → m < word_size * word_size
    → (word_size * word_size - m) % (word_size * word_size) ≡ double_of (sub_ℕ p n)
double_of-negative p n m e f h = ground arith

double_of-positive : (p n m : ℕ) → p ≡ m → n ≡ 0 → m ≡ double_of (sub_ℕ p n)
double_of-positive p n m e f = ground arith

-- The two parts of an integer by its sign and magnitude.
record HasSign (x : ℤ) (negative : Bool) (m : ℕ) : Type 0 where
  positive_part : pos_part x ≡ (if negative then 0 else m)
  negative_part : neg_part x ≡ (if negative then m else 0)

by_signs :
    (x y : ℤ) (s t : Bool) (m n : ℕ)
    → HasSign x s m
    → HasSign y t n
    → m * n < word_size * word_size
    → (if differ s t then (word_size * word_size - m * n) % (word_size * word_size) else m * n)
      ≡ double_of (x *ℤ y)
by_signs x y true true m n h k l =
    rw (h.positive_part, h.negative_part, k.positive_part, k.negative_part)
      (double_of-positive (0 * 0 + m * n) (0 * n + m * 0) (m * n) (omega arith) (omega arith))
by_signs x y true false m n h k l =
    rw (h.positive_part, h.negative_part, k.positive_part, k.negative_part)
      (double_of-negative (0 * n + m * 0) (0 * 0 + m * n) (m * n) (omega arith) (omega arith) l)
by_signs x y false true m n h k l =
    rw (h.positive_part, h.negative_part, k.positive_part, k.negative_part)
      (double_of-negative (m * 0 + 0 * n) (m * n + 0 * 0) (m * n) (omega arith) (omega arith) l)
by_signs x y false false m n h k l =
    rw (h.positive_part, h.negative_part, k.positive_part, k.negative_part)
      (double_of-positive (m * n + 0 * 0) (m * 0 + 0 * n) (m * n) (omega arith) (omega arith))

integer_of-HasSign :
    (signed : Bool) (a : ℕ)
    → a < word_size
    → HasSign (integer_of signed a) (is_negative signed a) (magnitude signed a)
integer_of-HasSign signed a h = record {
  positive_part = ground arith;
  negative_part = ground arith;
}

-- On two words of 32 bits, as ints or as unsigned numbers, Mult ends with two words that are
-- the two's complement in 64 bits of the product of the two integers.
pub mult-product :
    (a b : ℕ) (signed_arith : Bool)
    → a < word_size
    → b < word_size
    → (hi : ℕ) × (lo : ℕ) × (mult a b signed_arith ≡ (hi, lo))
      × (double hi lo ≡ double_of (integer_of signed_arith a *ℤ integer_of signed_arith b))
      × (hi < word_size)
      × (lo < word_size)
mult-product a b signed_arith h k =
    let (hi, lo, run, product, high, low) = mult-double_product a b signed_arith h k in
    let same =
      by_signs (integer_of signed_arith a) (integer_of signed_arith b) (is_negative signed_arith a)
        (is_negative signed_arith b) (magnitude signed_arith a) (magnitude signed_arith b)
        (integer_of-HasSign signed_arith a h) (integer_of-HasSign signed_arith b k)
        (product-lt (magnitude signed_arith a) (magnitude signed_arith b)
          (magnitude-lt signed_arith a h) (magnitude-lt signed_arith b k)) in
    (hi, lo, run, product ∙ same, high, low)
