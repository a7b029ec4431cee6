-- ===== src/Bitmap/Examples.antt =====
-- A bitmap of 34 bits, in two words.
use nthu_operating_system_er.Base.{
  ℕ, zero, suc, ◌<◌, ◌≡◌, refl, true, false, [], ◌∷◌, none, some, arith, pos, get_or, ◌^◌, ◌⊎◌,
}
use nthu_operating_system_er.Bitmap.Bits.{test_bit, set_bit}
use nthu_operating_system_er.Bitmap.{
  Bitmap, bit_of, mark_word, find_and_set, count_clear, num_clear, new_from,
}
use nthu_operating_system_er.Bitmap.Marks.{IsBitmap}
use nthu_operating_system_er.Bitmap.Search.{AllSet, Took, find_and_set-Took, find_and_set-loses_bit}
use nthu_operating_system_er.Bitmap.Fresh.{new_from-num_clear}

-- All bits but 3 and 33 are set; the search starts at bit 4.
abbrev full_but_two : Bitmap
full_but_two = record {
  num_bits = 34;
  num_words = 2;
  cur = 4;
  size = pos 2;
  words = 0xffff_fff7 ∷ 1 ∷ [];
}

abbrev blank : Bitmap
blank = record { num_bits = 34; num_words = 2; cur = 0; size = pos 34; words = 0 ∷ 0 ∷ [] }

small_words : (x y : ℕ) → x < 2 ^ 32 → y < 2 ^ 32 → (i : ℕ) → get_or (x ∷ y ∷ []) i 0 < 2 ^ 32
small_words x y h₁ h₂ zero = h₁
small_words x y h₁ h₂ (suc zero) = h₂
small_words x y h₁ h₂ (suc (suc i)) = omega arith

full_but_two-IsBitmap : IsBitmap full_but_two
full_but_two-IsBitmap = record {
  sized = refl;
  room = omega arith;
  cursor = omega arith;
  small = small_words 0xffff_fff7 1 (omega arith) (omega arith);
}

blank-IsBitmap : IsBitmap blank
blank-IsBitmap = record {
  sized = refl;
  room = omega arith;
  cursor = omega arith;
  small = small_words 0 0 (omega arith) (omega arith);
}

-- The search passes the end of the first word.
find_and_set_run :
    find_and_set full_but_two
    ≡ some (some 33, record full_but_two { cur = 33; size = pos 0; words = 0xffff_fff7 ∷ 3 ∷ [] })
unfolding find_and_set bit_of test_bit set_bit mark_word
find_and_set_run = refl

find_and_set-Took_example :
    ((find_and_set full_but_two ≡ some (none, full_but_two))
      × ((false ≡ true) ⊎ AllSet full_but_two.words 0 34))
    ⊎ ((k : ℕ) × (b' : Bitmap) × (find_and_set full_but_two ≡ some (some k, b'))
        × Took full_but_two k b')
find_and_set-Took_example = find_and_set-Took full_but_two full_but_two-IsBitmap

two_clear : count_clear 34 0 full_but_two.words ≡ 2
unfolding count_clear bit_of test_bit
two_clear = refl

find_and_set-loses_bit_example :
    (k : ℕ) × (b' : Bitmap) × (find_and_set full_but_two ≡ some (some k, b'))
    × (count_clear b'.num_bits 0 b'.words ≡ 1)
    × (find_and_set b' ≡ some (none, b'))
find_and_set-loses_bit_example =
    find_and_set-loses_bit full_but_two full_but_two-IsBitmap refl two_clear

new_from-num_clear_example :
    (b : Bitmap) × (new_from (0xffff_ffff ∷ 3 ∷ []) 34 ≡ some b) × (num_clear b ≡ pos 34)
new_from-num_clear_example = new_from-num_clear (0xffff_ffff ∷ 3 ∷ []) 34 (omega arith)
