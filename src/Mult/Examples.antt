-- ===== src/Mult/Examples.antt =====
-- Products at the ends of the range of an int.
use nthu_operating_system_er.Base.{ℕ, ◌<◌, ◌≡◌, refl, true, arith}
use nthu_operating_system_er.Mult.{word_size, mult_loop, mult}
use nthu_operating_system_er.Mult.Loop.{double}
use nthu_operating_system_er.Mult.Integers.{double_of, integer_of, ◌*ℤ◌, mult-product}

-- -3 * 5
mult_negative : mult 0xffff_fffd 5 true ≡ (0xffff_ffff, 0xffff_fff1)
unfolding mult mult_loop
mult_negative = refl

-- The least int times -1
mult-product_example :
    (hi : ℕ) × (lo : ℕ) × (mult 0x8000_0000 0xffff_ffff true ≡ (hi, lo))
    × (double hi lo ≡ double_of (integer_of true 0x8000_0000 *ℤ integer_of true 0xffff_ffff))
    × (hi < word_size)
    × (lo < word_size)
mult-product_example = mult-product 0x8000_0000 0xffff_ffff true (omega arith) (omega arith)
