-- ===== src/Bitmap.antt =====
-- MP4 code/lib/bitmap.cc: a bitmap over an array of 32-bit words. `size` is meant to be the number
-- of clear bits, and `cur` is where the last search stopped. `none` is a failed ASSERT; a bit number
-- is not negative, and the result -1 of FindAndSet is the inner `none`.
pub mod Bits
pub mod Marks
pub mod Search
pub mod Fresh
pub mod Examples
use nthu_operating_system_er.Base.{
  ℕ, zero, suc, ◌+◌, ◌-◌, ◌/◌, ◌%◌, Bool, true, false, not, List, [], ◌∷◌, Option, none, some, ℤ,
  pos, negsuc, ltb, leb, if◌then◌else◌, ◌>>=◌, ◌>>◌, assert, get_or, set, replicate, length, take,
  drop, ◌++◌, ◌==◌,
}
use Bits.{test_bit, set_bit, clear_bit}

abbrev pub bits_in_word : ℕ
bits_in_word = 32

pub record Bitmap : Type 0 where
  pub num_bits : ℕ
  pub num_words : ℕ
  pub cur : ℕ
  pub size : ℤ
  pub words : List ℕ

-- --size and ++size of an int
abbrev pub pred_ℤ : ℤ → ℤ
pred_ℤ (pos zero) = negsuc 0
pred_ℤ (pos (suc n)) = pos n
pred_ℤ (negsuc n) = negsuc (suc n)

abbrev pub suc_ℤ : ℤ → ℤ
suc_ℤ (pos n) = pos (suc n)
suc_ℤ (negsuc zero) = pos 0
suc_ℤ (negsuc (suc n)) = negsuc n

abbrev pub is_zero_ℤ : ℤ → Bool
is_zero_ℤ (pos zero) = true
is_zero_ℤ _ = false

-- map[which / BitsInWord] & (1 << (which % BitsInWord))
unfoldable pub bit_of : List ℕ → ℕ → Bool
bit_of words which = test_bit (get_or words (which / bits_in_word) 0) (which % bits_in_word)

unfoldable pub mark_word : List ℕ → ℕ → List ℕ
mark_word words which =
    set words (which / bits_in_word)
      (set_bit (get_or words (which / bits_in_word) 0) (which % bits_in_word))

unfoldable pub clear_word : List ℕ → ℕ → List ℕ
clear_word words which =
    set words (which / bits_in_word)
      (clear_bit (get_or words (which / bits_in_word) 0) (which % bits_in_word))

unfoldable pub test : Bitmap → ℕ → Option Bool
test b which = do assert (ltb which b.num_bits); some (bit_of b.words which)

unfoldable pub mark : Bitmap → ℕ → Option Bitmap
mark b which = do
  assert (ltb which b.num_bits)
  let size : ℤ = if bit_of b.words which then b.size else pred_ℤ b.size
  let words : List ℕ = mark_word b.words which
  assert (bit_of words which)
  some (record b { size = size; words = words })

unfoldable pub clear : Bitmap → ℕ → Option Bitmap
clear b which = do
  assert (ltb which b.num_bits)
  let size : ℤ = if bit_of b.words which then suc_ℤ b.size else b.size
  let words : List ℕ = clear_word b.words which
  assert (not (bit_of words which))
  some (record b { size = size; words = words })

-- for (i = 0; i < numBits; i++) Clear(i), from i on for `rounds` bits
unfoldable pub clear_all : ℕ → ℕ → Bitmap → Option Bitmap
unfolding clear
clear_all zero i b = some b
clear_all (suc rounds) i b = clear b i >>= clear_all rounds (suc i)

-- numWords = divRoundUp(numBits, BitsInWord)
unfoldable pub words_for : ℕ → ℕ
words_for num_bits = num_bits / bits_in_word + (if ltb 0 (num_bits % bits_in_word) then 1 else 0)

unfoldable pub new : ℕ → Option Bitmap
unfolding clear_all words_for
new num_items = do
  assert (ltb 0 num_items)
  clear_all num_items 0 (record {
    num_bits = num_items;
    num_words = words_for num_items;
    cur = 0;
    size = pos num_items;
    words = replicate (words_for num_items) 0;
  })

-- The first clear bit from i on, among `rounds` bits.
unfoldable pub find_clear : ℕ → ℕ → List ℕ → Option ℕ
find_clear zero i words = none
find_clear (suc rounds) i words = elim (bit_of words i) [
  | true ↦ find_clear rounds (suc i) words
  | false ↦ some i
]

-- The body of the two loops: Mark(i), which counts the bit, and then size--.
unfoldable pub claim : Bitmap → ℕ → Option (Option ℕ × Bitmap)
unfolding mark
claim b i = do
  marked ← mark b i
  some (some i, record marked { cur = i; size = pred_ℤ marked.size })

unfoldable pub find_and_set : Bitmap → Option (Option ℕ × Bitmap)
unfolding find_clear claim
find_and_set b =
    if is_zero_ℤ b.size
    then some (none, b)
    else elim (find_clear (b.num_bits - b.cur) b.cur b.words) [
      | some i ↦ claim b i
      | none ↦ elim (find_clear b.cur 0 b.words) [ some i ↦ claim b i | none ↦ some (none, b) ]
    ]

unfoldable pub num_clear : Bitmap → ℤ
num_clear b = b.size

-- for (int i = 0; i < numBits; ++i) size += !Test(i), from i on
unfoldable pub count_clear : ℕ → ℕ → List ℕ → ℕ
count_clear zero i words = 0
count_clear (suc rounds) i words =
    (if bit_of words i then 0 else 1) + count_clear rounds (suc i) words

-- The words of the map, for a buffer that has room for them.
unfoldable pub export : Bitmap → List ℕ
export b = take b.num_words b.words

-- The buffer's first words become the map's.
unfoldable pub import : Bitmap → List ℕ → Bitmap
unfolding count_clear
import b buf =
    let words = take b.num_words buf ++ drop b.num_words b.words in
    record b { words = words; cur = 0; size = pos (count_clear b.num_bits 0 words) }

-- code/filesys/pbitmap.cc: FetchFrom reads the words of a file over the map and nothing else; the
-- constructor over a file does so after the empty constructor.
unfoldable pub fetch_from : Bitmap → List ℕ → Bitmap
fetch_from b contents = record b {
  words = take b.num_words contents ++ drop (length (take b.num_words contents)) b.words;
}

unfoldable pub new_from : List ℕ → ℕ → Option Bitmap
unfolding new fetch_from
new_from contents num_items = new num_items >>= λ b. some (fetch_from b contents)

-- The words that WriteBack writes.
unfoldable pub write_back : Bitmap → List ℕ
write_back b = take b.num_words b.words
