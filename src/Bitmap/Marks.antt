-- ===== src/Bitmap/Marks.antt =====
-- Mark, Clear and Test are the operations of a set of bits, and keep the bitmap well formed.
use nthu_operating_system_er.Base.{
  ℕ, ◌*◌, ◌/◌, ◌%◌, ◌^◌, ◌≤◌, ◌<◌, ◌≡◌, ◌≢◌, refl, sym, ◌∙◌, ap, Bool, true, false, ℕ_discrete,
  dec_lt, set-outside, List, some, arith, lt→ltb, if◌then◌else◌, get_or, set, length, length-set,
  get_or-set_self, get_or-set_ne, ◌==◌,
}
use nthu_operating_system_er.Bitmap.Bits.{
  test_bit, set_bit, clear_bit, test_bit-set_bit, test_bit-clear_bit, set_bit-lt, clear_bit-lt,
}
use nthu_operating_system_er.Bitmap.{
  Bitmap, bits_in_word, pred_ℤ, suc_ℤ, bit_of, mark_word, clear_word, mark, clear,
}

-- The map has room for the bits, in words of 32 bits, and the cursor is within it.
pub record IsBitmap (b : Bitmap) : Type 0 where
  pub sized : length b.words ≡ b.num_words
  pub room : b.num_bits ≤ b.num_words * bits_in_word
  pub cursor : b.cur ≤ b.num_bits
  pub small : (i : ℕ) → get_or b.words i 0 < 2 ^ 32

split_index :
    (i j : ℕ) → i / bits_in_word ≡ j / bits_in_word → i % bits_in_word ≡ j % bits_in_word → i ≡ j
split_index i j p q = omega arith

-- A write of one word, in terms of bits.
module _ (words : List ℕ) (which j w : ℕ) (h : which / bits_in_word < length words) where
  bit_of-set_self :
      which / bits_in_word ≡ j / bits_in_word
      → bit_of (set words (which / bits_in_word) w) j ≡ test_bit w (j % bits_in_word)
  unfolding bit_of
  bit_of-set_self e =
      ap (λ v. test_bit v (j % bits_in_word))
        (ap (λ k. get_or (set words (which / bits_in_word) w) k 0) (sym e)
          ∙ get_or-set_self words (which / bits_in_word) w 0 h)

  bit_of-set_ne :
      which / bits_in_word ≢ j / bits_in_word
      → bit_of (set words (which / bits_in_word) w) j ≡ bit_of words j
  unfolding bit_of
  bit_of-set_ne e =
      ap (λ v. test_bit v (j % bits_in_word))
        (get_or-set_ne words (which / bits_in_word) (j / bits_in_word) w 0 e)

module _ (words : List ℕ) (which j : ℕ) (h : which / bits_in_word < length words) where
  pub bit_of-mark_word :
      bit_of (mark_word words which) j ≡ (if which == j then true else bit_of words j)
  unfolding mark_word
  bit_of-mark_word = elim (ℕ_discrete (which / bits_in_word) (j / bits_in_word)) [
    | no apart ↦
        bit_of-set_ne words which j _ h apart
        ∙ ground (arith, λ (e : which ≡ j). apart (ap (λ (i : ℕ). i / bits_in_word) e))
    | yes same ↦
        bit_of-set_self words which j _ h same
        ∙ unfold bit_of in
          ground (
            arith,
            same,
            split_index which j same,
            test_bit-set_bit (get_or words (which / bits_in_word) 0) (which % bits_in_word)
                (j % bits_in_word),
            ap (λ k. test_bit (get_or words k 0) (j % bits_in_word)) same,
          )
  ]

  pub bit_of-clear_word :
      bit_of (clear_word words which) j ≡ (if which == j then false else bit_of words j)
  unfolding clear_word
  bit_of-clear_word = elim (ℕ_discrete (which / bits_in_word) (j / bits_in_word)) [
    | no apart ↦
        bit_of-set_ne words which j _ h apart
        ∙ ground (arith, λ (e : which ≡ j). apart (ap (λ (i : ℕ). i / bits_in_word) e))
    | yes same ↦
        bit_of-set_self words which j _ h same
        ∙ unfold bit_of in
          ground (
            arith,
            same,
            split_index which j same,
            test_bit-clear_bit (get_or words (which / bits_in_word) 0) (which % bits_in_word)
                (j % bits_in_word),
            ap (λ k. test_bit (get_or words k 0) (j % bits_in_word)) same,
          )
  ]

small-set :
    (words : List ℕ) (k v : ℕ)
    → ((i : ℕ) → get_or words i 0 < 2 ^ 32)
    → v < 2 ^ 32
    → (i : ℕ) → get_or (set words k v) i 0 < 2 ^ 32
small-set words k v small hv i = elim (ℕ_discrete k i) [
  | no apart ↦ omega (arith, get_or-set_ne words k i v 0 apart, small i)
  | yes same ↦ elim (dec_lt k (length words)) [
    | yes inside ↦
        omega (
          arith,
          ap (λ (m : ℕ). get_or (set words k v) m 0) same,
          get_or-set_self words k v 0 inside,
        )
    | no outside ↦
        omega (arith, small i, ap (λ ws. get_or ws i 0) (set-outside words k v (omega arith)))
  ]
]

word_inside :
    (b : Bitmap) (which : ℕ)
    → IsBitmap b
    → which < b.num_bits
    → which / bits_in_word < length b.words
word_inside b which v h = omega (arith, v.sized, v.room)

-- What an operation on one bit of a bitmap leaves: the other bits, the shape, and the counter moved
-- if the bit has changed.
pub record Sets (b : Bitmap) (which : ℕ) (value : Bool) (b' : Bitmap) : Type 0 where
  pub bits : (j : ℕ) → bit_of b'.words j ≡ (if which == j then value else bit_of b.words j)
  pub valid : IsBitmap b'
  pub same_bits : b'.num_bits ≡ b.num_bits
  pub same_words : b'.num_words ≡ b.num_words
  pub same_cur : b'.cur ≡ b.cur

-- On a well-formed bitmap `Mark` and `Clear` of a bit in range do not abort, and set or clear that
-- bit and no other; `size` falls by one if `Mark` sets a clear bit, grows by one if `Clear` clears a
-- set bit, and stays otherwise; the bitmap stays well formed.
pub mark-clear-Sets :
    (b : Bitmap) (which : ℕ)
    → IsBitmap b
    → which < b.num_bits
    → ((b' : Bitmap) × (mark b which ≡ some b')
        × Sets b which true b'
        × (b'.size ≡ (if bit_of b.words which then b.size else pred_ℤ b.size)))
      × ((b' : Bitmap) × (clear b which ≡ some b')
          × Sets b which false b'
          × (b'.size ≡ (if bit_of b.words which then suc_ℤ b.size else b.size)))
unfolding mark clear mark_word clear_word
mark-clear-Sets b which v h =
    let inside = word_inside b which v h in
    let k = which / bits_in_word in
    let r = which % bits_in_word in
    let w = get_or b.words k 0 in
    (
      (
        record b {
          size = if bit_of b.words which then b.size else pred_ℤ b.size;
          words = mark_word b.words which;
        },
        ground (arith, lt→ltb which b.num_bits h, bit_of-mark_word b.words which which inside),
        record {
          bits = λ j. bit_of-mark_word b.words which j inside;
          valid = record {
            sized = length-set b.words k (set_bit w r) ∙ v.sized;
            room = v.room;
            cursor = v.cursor;
            small =
                small-set b.words k (set_bit w r) v.small
                  (set_bit-lt 32 w r (v.small k) (omega arith));
          };
          same_bits = refl;
          same_words = refl;
          same_cur = refl;
        },
        refl,
      ),
      (
        record b {
          size = if bit_of b.words which then suc_ℤ b.size else b.size;
          words = clear_word b.words which;
        },
        ground (arith, lt→ltb which b.num_bits h, bit_of-clear_word b.words which which inside),
        record {
          bits = λ j. bit_of-clear_word b.words which j inside;
          valid = record {
            sized = length-set b.words k (clear_bit w r) ∙ v.sized;
            room = v.room;
            cursor = v.cursor;
            small = small-set b.words k (clear_bit w r) v.small (clear_bit-lt 32 w r (v.small k));
          };
          same_bits = refl;
          same_words = refl;
          same_cur = refl;
        },
        refl,
      ),
    )
