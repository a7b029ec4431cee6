-- ===== src/Machine/Word.antt =====
-- The words of the simulated machine: an int of 32 bits is the number of its two's complement.
use nthu_operating_system_er.Base.{
  ℕ, zero, suc, ◌+◌, ◌-◌, ◌*◌, ◌/◌, ◌%◌, ◌^◌, Bool, true, false, ◌&&◌, ◌||◌, ltb, leb, ◌==◌,
  if◌then◌else◌,
}
use nthu_operating_system_er.Mult.{word_size, sign_bit, differ}

-- The test of a word with SIGN_BIT
abbrev pub is_neg : ℕ → Bool
is_neg a = leb sign_bit a

abbrev pub add_word : ℕ → ℕ → ℕ
add_word a b = (a + b) % word_size

abbrev pub sub_word : ℕ → ℕ → ℕ
sub_word a b = (a + (word_size - b)) % word_size

-- a << k
abbrev pub shift_left : ℕ → ℕ → ℕ
shift_left a k = a * 2 ^ k % word_size

-- a >> k on an int, which rounds down: -1 - n goes to -1 - n / 2 ^ k.
abbrev pub arithmetic_shift : ℕ → ℕ → ℕ
arithmetic_shift a k = if is_neg a then word_size - 1 - (word_size - 1 - a) / 2 ^ k else a / 2 ^ k

-- a < b on ints
abbrev pub lt_int : ℕ → ℕ → Bool
lt_int a b =
    if is_neg a then (if is_neg b then ltb a b else true) else (if is_neg b then false else ltb a b)

-- One operator on all bits of two numbers of so many bits.
unfoldable pub bitwise : (Bool → Bool → Bool) → ℕ → ℕ → ℕ → ℕ
bitwise f zero a b = 0
bitwise f (suc n) a b =
    (if f (a % 2 == 1) (b % 2 == 1) then 1 else 0) + 2 * bitwise f n (a / 2) (b / 2)

abbrev pub and_word : ℕ → ℕ → ℕ
and_word = bitwise (λ a b. a && b) 32

abbrev pub or_word : ℕ → ℕ → ℕ
or_word = bitwise (λ a b. a || b) 32

abbrev pub xor_word : ℕ → ℕ → ℕ
xor_word = bitwise differ 32

-- ~a
abbrev pub not_word : ℕ → ℕ
not_word a = word_size - 1 - a

-- -a
abbrev pub negate : ℕ → ℕ
negate a = (word_size - a) % word_size

-- a / b and a % b on ints, for a divisor other than 0: the quotient goes to 0 and the remainder has
-- the sign of the dividend.
abbrev pub int_magnitude : ℕ → ℕ
int_magnitude a = if is_neg a then word_size - a else a

abbrev pub div_int : ℕ → ℕ → ℕ
div_int a b =
    let quotient = int_magnitude a / int_magnitude b in
    if differ (is_neg a) (is_neg b) then negate quotient else quotient

abbrev pub mod_int : ℕ → ℕ → ℕ
mod_int a b =
    let remainder = int_magnitude a % int_magnitude b in
    if is_neg a then negate remainder else remainder

-- A char as an int
abbrev pub sign_extend_byte : ℕ → ℕ
sign_extend_byte b = if leb 0x80 b then 0xffff_ff00 + b else b

-- The 16 bits of an immediate as an int
abbrev pub sign_extend_half : ℕ → ℕ
sign_extend_half h = if leb 0x8000 h then 0xffff_0000 + h else h
