-- ===== src/Bitmap/Fresh.antt =====
-- The constructors: an empty bitmap, and one read from a file, whose counter nobody sets.
use nthu_operating_system_er.Base.{
  ℕ, zero, suc, ◌+◌, ◌/◌, ◌%◌, ◌≤◌, ◌<◌, ◌≡◌, refl, ◌∙◌, ap, false, List, some, arith, pos, lt→ltb,
  ◌>>=◌, sym, length, get_or, ◌^◌, take, drop, take-all, drop-all, append-nil, [], ◌++◌, replicate,
  length-replicate, get_or-replicate,
}
use nthu_operating_system_er.Bitmap.Bits.{test_bit, test_bit-zero}
use nthu_operating_system_er.Bitmap.{
  Bitmap, bits_in_word, bit_of, clear, clear_all, words_for, new, fetch_from, new_from, num_clear,
}
use nthu_operating_system_er.Bitmap.Marks.{IsBitmap, mark-clear-Sets}

-- A bitmap with no bit set and the counter at n.
pub record IsEmpty (n : ℕ) (b : Bitmap) : Type 0 where
  pub valid : IsBitmap b
  pub all_clear : (j : ℕ) → bit_of b.words j ≡ false
  pub counter : b.size ≡ pos n
  pub bits : b.num_bits ≡ n
  pub words_count : b.num_words ≡ words_for n

clear-IsEmpty :
    (n i : ℕ) (b : Bitmap)
    → i < n
    → IsEmpty n b
    → (b' : Bitmap) × (clear b i ≡ some b') × IsEmpty n b'
clear-IsEmpty n i b h v =
    let (b', run, s, size) = (mark-clear-Sets b i v.valid (omega (arith, v.bits))).1 in
    (
      b',
      run,
      record {
        valid = s.valid;
        all_clear = λ j. ground (arith, s.bits j, v.all_clear j);
        counter = ground (arith, size, v.all_clear i, v.counter);
        bits = s.same_bits ∙ v.bits;
        words_count = s.same_words ∙ v.words_count;
      },
    )

clear_all-IsEmpty :
    (n rounds i : ℕ) (b : Bitmap)
    → i + rounds ≤ n
    → IsEmpty n b
    → (b' : Bitmap) × (clear_all rounds i b ≡ some b') × IsEmpty n b'
unfolding clear_all
clear_all-IsEmpty n zero i b h v = (b, refl, v)
clear_all-IsEmpty n (suc rounds) i b h v =
    let (b₁, run₁, v₁) = clear-IsEmpty n i b (omega arith) v in
    let (b₂, run₂, v₂) = clear_all-IsEmpty n rounds (suc i) b₁ (omega arith) v₁ in
    (b₂, rw (run₁, ◌>>=◌) run₂, v₂)

-- The constructor does not abort for a positive number of bits; all of them are clear, the counter
-- is their number, and the bitmap is well formed.
pub new-IsEmpty : (n : ℕ) → 0 < n → (b : Bitmap) × (new n ≡ some b) × IsEmpty n b
unfolding new words_for
new-IsEmpty n h =
    let blank : Bitmap = record {
      num_bits = n;
      num_words = words_for n;
      cur = 0;
      size = pos n;
      words = replicate (words_for n) 0;
    } in
    let empty : IsEmpty n blank = record {
      valid = record {
        sized = length-replicate {A = ℕ} (words_for n) 0;
        room = ground arith;
        cursor = omega arith;
        small = λ i. omega (arith, get_or-replicate {A = ℕ} (words_for n) i 0);
      };
      all_clear = λ j.
          unfold bit_of in
          (ap (λ w. test_bit w (j % bits_in_word))
              (get_or-replicate {A = ℕ} (words_for n) (j / bits_in_word) 0)
            ∙ test_bit-zero (j % bits_in_word));
      counter = refl;
      bits = refl;
      words_count = refl;
    } in
    let (b, run, v) = clear_all-IsEmpty n n 0 blank (omega arith) empty in
    (b, rw (lt→ltb 0 n h) run, v)

-- A bitmap that is read from a file has its counter at the number of all bits, whatever the file
-- holds, and searches from bit 0.
pub new_from-num_clear :
    (contents : List ℕ) (n : ℕ)
    → 0 < n
    → (b : Bitmap) × (new_from contents n ≡ some b) × (num_clear b ≡ pos n)
unfolding new_from fetch_from num_clear
new_from-num_clear contents n h =
    let (b, run, v) = new-IsEmpty n h in (fetch_from b contents, rw (run, ◌>>=◌), v.counter)

-- A bitmap that is read from a file with as many words as the map has them.
pub record Holds (contents : List ℕ) (n : ℕ) (b : Bitmap) : Type 0 where
  pub valid : IsBitmap b
  pub same_words : b.words ≡ contents
  pub counter : b.size ≡ pos n
  pub bits : b.num_bits ≡ n

pub new_from-Holds :
    (contents : List ℕ) (n : ℕ)
    → 0 < n
    → length contents ≡ words_for n
    → ((i : ℕ) → get_or contents i 0 < 2 ^ 32)
    → (b : Bitmap) × (new_from contents n ≡ some b) × Holds contents n b
unfolding new_from fetch_from
new_from-Holds contents n h sized small =
    let (b, run, v) = new-IsEmpty n h in
    let whole : take b.num_words contents ≡ contents =
      take-all b.num_words contents (omega (arith, v.words_count)) in
    let nothing : drop (length (take b.num_words contents)) b.words ≡ [] =
      drop-all (length (take b.num_words contents)) b.words
        (omega (arith, ap length whole, v.valid.sized, v.words_count)) in
    let same : take b.num_words contents ++ drop (length (take b.num_words contents)) b.words
        ≡ contents =
      ap (λ ws. take b.num_words contents ++ ws) nothing
      ∙ append-nil (take b.num_words contents)
      ∙ whole in
    (
      fetch_from b contents,
      rw (run, ◌>>=◌),
      record {
        valid = record {
          sized = ap length same ∙ sized ∙ sym v.words_count;
          room = v.valid.room;
          cursor = v.valid.cursor;
          small = λ i. omega (arith, small i, ap (λ ws. get_or ws i 0) same);
        };
        same_words = same;
        counter = v.counter;
        bits = v.bits;
      },
    )
