-- ===== src/Mult.antt =====
-- MP4 code/machine/mipssim.cc: Mult, the multiplication of the simulated machine. A register is a word of
-- 32 bits, and a negative int is the word of its two's complement.
pub mod Loop
pub mod Product
pub mod Integers
pub mod Examples
use nthu_operating_system_er.Base.{
  ℕ, zero, suc, ◌+◌, ◌-◌, ◌*◌, ◌/◌, ◌%◌, Bool, true, false, ◌&&◌, ◌||◌, not, ltb, leb, ◌==◌,
  if◌then◌else◌,
}

-- 2 ^ 32
abbrev pub word_size : ℕ
word_size = 0x1_0000_0000

-- 0x80000000
abbrev pub sign_bit : ℕ
sign_bit = 0x8000_0000

-- a >>= 1 on an int
abbrev pub shift_right : ℕ → ℕ
shift_right a = a / 2 + (if leb sign_bit a then sign_bit else 0)

abbrev pub is_odd : ℕ → Bool
is_odd a = a % 2 == 1

-- lo += bLo, under the test of a's last bit
abbrev pub next_lo : ℕ → ℕ → ℕ → ℕ
next_lo a b_lo lo = if is_odd a then (lo + b_lo) % word_size else lo

-- The carry, and hi += bHi
abbrev pub next_hi : ℕ → ℕ → ℕ → ℕ → ℕ → ℕ
next_hi a b_lo b_hi lo hi =
    if is_odd a
    then ((if ltb (next_lo a b_lo lo) b_lo then (hi + 1) % word_size else hi) + b_hi) % word_size
    else hi

abbrev pub next_b_hi : ℕ → ℕ → ℕ
next_b_hi b_lo b_hi = b_hi * 2 % word_size + (if leb sign_bit b_lo then 1 else 0)

-- The loop, over so many bits of a; the result is hi and lo.
unfoldable pub mult_loop : ℕ → ℕ → ℕ → ℕ → ℕ → ℕ → ℕ × ℕ
mult_loop zero a b_lo b_hi lo hi = (hi, lo)
mult_loop (suc rounds) a b_lo b_hi lo hi =
    let rest =
      mult_loop rounds (shift_right a) (b_lo * 2 % word_size) (next_b_hi b_lo b_hi)
        (next_lo a b_lo lo) (next_hi a b_lo b_hi lo hi) in
    if is_odd a && a / 2 == 0 then (next_hi a b_lo b_hi lo hi, next_lo a b_lo lo) else rest

abbrev pub is_negative : Bool → ℕ → Bool
is_negative signed_arith a = signed_arith && leb sign_bit a

-- a = -a for a negative a
abbrev pub magnitude : Bool → ℕ → ℕ
magnitude signed_arith a = if is_negative signed_arith a then (word_size - a) % word_size else a

abbrev pub differ : Bool → Bool → Bool
differ true b = not b
differ false b = b

-- The two's complement of the double word.
abbrev pub complement : ℕ × ℕ → ℕ × ℕ
complement r =
    let lo : ℕ = (word_size - 1 - r.1 + 1) % word_size in
    ((word_size - 1 - r.0 + (if lo == 0 then 1 else 0)) % word_size, lo)

-- Mult: hi and lo
unfoldable pub mult : ℕ → ℕ → Bool → ℕ × ℕ
unfolding mult_loop
mult a b signed_arith =
    if a == 0 || b == 0
    then (0, 0)
    else let product : ℕ × ℕ =
        mult_loop 32 (magnitude signed_arith a) (magnitude signed_arith b) 0 0 0 in
      if differ (is_negative signed_arith a) (is_negative signed_arith b)
      then complement product
      else product
