-- ===== src/Machine/Unaligned.antt =====
-- LWR and LWL, and SWR and SWL, together access a word at any address.
use nthu_operating_system_er.Base.{
  ℕ, ◌+◌, ◌-◌, ◌*◌, ◌/◌, ◌%◌, ◌<◌, ◌≡◌, refl, sym, ◌∙◌, ap, arith, ◌⊎◌, inl, inr,
}
use nthu_operating_system_er.Mult.{word_size}
use nthu_operating_system_er.Machine.Word.{and_word, or_word, shift_left, arithmetic_shift}
use nthu_operating_system_er.Machine.Translate.{load_word}
use nthu_operating_system_er.Machine.Execute.{merge_left, merge_right}
use nthu_operating_system_er.Machine.Confined.{Bytes}
use nthu_operating_system_er.Machine.Masks.{or_word_comm, or_8, or_16, or_24, and_8, and_16, and_24}

-- value << k, and (value >> k) & mask, of a word
shift_8 : (v : ℕ) → shift_left v 8 ≡ v % 0x100_0000 * 0x100
shift_8 v = omega arith

shift_16 : (v : ℕ) → shift_left v 16 ≡ v % 0x1_0000 * 0x1_0000
shift_16 v = omega arith

shift_24 : (v : ℕ) → shift_left v 24 ≡ v % 0x100 * 0x100_0000
shift_24 v = omega arith

module _ (v : ℕ) (h : v < word_size) where
  top_8 : arithmetic_shift v 24 % 0x100 ≡ v / 0x100_0000
  top_8 = ground arith

  top_16 : arithmetic_shift v 16 % 0x1_0000 ≡ v / 0x1_0000
  top_16 = ground arith

  top_24 : arithmetic_shift v 8 % 0x100_0000 ≡ v / 0x100
  top_24 = ground arith

-- The words that the merges put together
module _ (x y : ℕ) where
  low_8 : or_word (x % 0x100) (shift_left y 8) ≡ x % 0x100 + y % 0x100_0000 * 0x100
  low_8 = rw (shift_8 y) (or_8 (x % 0x100) (y % 0x100_0000) (omega arith) (omega arith))

  low_16 : or_word (x % 0x1_0000) (shift_left y 16) ≡ x % 0x1_0000 + y % 0x1_0000 * 0x1_0000
  low_16 = rw (shift_16 y) (or_16 (x % 0x1_0000) (y % 0x1_0000) (omega arith) (omega arith))

  low_24 : or_word (x % 0x100_0000) (shift_left y 24) ≡ x % 0x100_0000 + y % 0x100 * 0x100_0000
  low_24 = rw (shift_24 y) (or_24 (x % 0x100_0000) (y % 0x100) (omega arith) (omega arith))

module _ (x y : ℕ) (h : x < word_size) (k : y < word_size) where
  high_8 :
      or_word (and_word x 0xffff_ff00) (arithmetic_shift y 24 % 0x100)
      ≡ y / 0x100_0000 + x / 0x100 * 0x100
  high_8 =
      or_word_comm (and_word x 0xffff_ff00) (arithmetic_shift y 24 % 0x100)
      ∙ rw (and_8 x h, top_8 y k) (or_8 (y / 0x100_0000) (x / 0x100) (omega arith) (omega arith))

  high_16 :
      or_word (and_word x 0xffff_0000) (arithmetic_shift y 16 % 0x1_0000)
      ≡ y / 0x1_0000 + x / 0x1_0000 * 0x1_0000
  high_16 =
      or_word_comm (and_word x 0xffff_0000) (arithmetic_shift y 16 % 0x1_0000)
      ∙ rw (and_16 x h, top_16 y k)
          (or_16 (y / 0x1_0000) (x / 0x1_0000) (omega arith) (omega arith))

  high_24 :
      or_word (and_word x 0xff00_0000) (arithmetic_shift y 8 % 0x100_0000)
      ≡ y / 0x100 + x / 0x100_0000 * 0x100_0000
  high_24 =
      or_word_comm (and_word x 0xff00_0000) (arithmetic_shift y 8 % 0x100_0000)
      ∙ rw (and_24 x h, top_24 y k) (or_24 (y / 0x100) (x / 0x100_0000) (omega arith) (omega arith))

-- Four bytes as a word
abbrev pub word4 : ℕ → ℕ → ℕ → ℕ → ℕ
word4 b₀ b₁ b₂ b₃ = b₀ + 0x100 * b₁ + 0x1_0000 * (b₂ + 0x100 * b₃)

word4-congr :
    {a b c d a' b' c' d' : ℕ}
    → a ≡ a'
    → b ≡ b'
    → c ≡ c'
    → d ≡ d'
    → word4 a b c d ≡ word4 a' b' c' d'
word4-congr p q r s = omega (arith, p, q, r, s)

load_word-word4 :
    (memory : ℕ → ℕ) (c k i : ℕ)
    → i ≡ c + k
    → load_word memory i
      ≡ word4 (memory (c + k)) (memory (c + (k + 1))) (memory (c + (k + 2))) (memory (c + (k + 3)))
load_word-word4 memory c k i e =
    word4-congr (ap memory e) (ap memory (omega (arith, e))) (ap memory (omega (arith, e)))
      (ap memory (omega (arith, e)))

-- The words of the memory at two neighbouring places, and the bytes of a load at the place r of the
-- first.
module _ (b₀ b₁ b₂ b₃ b₄ b₅ b₆ b₇ old : ℕ) (h : old < word_size) (h₀ : b₀ < 0x100) (h₁ : b₁ < 0x100)
    (h₂ : b₂ < 0x100) (h₃ : b₃ < 0x100) (h₄ : b₄ < 0x100) (h₅ : b₅ < 0x100) (h₆ : b₆ < 0x100)
    (h₇ : b₇ < 0x100) where
  abbrev first : ℕ
  first = word4 b₀ b₁ b₂ b₃

  abbrev second : ℕ
  second = word4 b₄ b₅ b₆ b₇

  load_1 : merge_left 0 (merge_right 1 old first) second ≡ word4 b₁ b₂ b₃ b₄
  unfolding merge_left merge_right
  load_1 =
      low_24 (or_word (and_word old 0xff00_0000) (arithmetic_shift first 8 % 0x100_0000)) second
      ∙ rw (high_24 old first h (omega arith)) (omega arith)

  load_2 : merge_left 1 (merge_right 2 old first) second ≡ word4 b₂ b₃ b₄ b₅
  unfolding merge_left merge_right
  load_2 =
      low_16 (or_word (and_word old 0xffff_0000) (arithmetic_shift first 16 % 0x1_0000)) second
      ∙ rw (high_16 old first h (omega arith)) (omega arith)

  load_3 : merge_left 2 (merge_right 3 old first) second ≡ word4 b₃ b₄ b₅ b₆
  unfolding merge_left merge_right
  load_3 =
      low_8 (or_word (and_word old 0xffff_ff00) (arithmetic_shift first 24 % 0x100)) second
      ∙ rw (high_8 old first h (omega arith)) (omega arith)

  load_0 : merge_left 3 (merge_right 0 old first) first ≡ first
  unfolding merge_left
  load_0 = refl

four : (a : ℕ) → (a % 4 ≡ 0) ⊎ ((a % 4 ≡ 1) ⊎ ((a % 4 ≡ 2) ⊎ (a % 4 ≡ 3)))
four a = ground arith

-- What LWR at an address and LWL at the address of the last byte load.
abbrev pub unaligned_load : (ℕ → ℕ) → ℕ → ℕ → ℕ
unaligned_load memory a old =
    merge_left ((a + 3) % 4) (merge_right (a % 4) old (load_word memory (a - a % 4)))
      (load_word memory (a + 3 - (a + 3) % 4))

merges-congr :
    (old : ℕ) {l l' r r' x x' y y' : ℕ}
    → l ≡ l'
    → r ≡ r'
    → x ≡ x'
    → y ≡ y'
    → merge_left l (merge_right r old x) y ≡ merge_left l' (merge_right r' old x') y'
merges-congr old p q s t = λ i. merge_left (p i) (merge_right (q i) old (s i)) (t i)

module _ (memory : ℕ → ℕ) (a old : ℕ) where
  -- The loads from a place r of the word at c, the second from the word at c + k
  at_place :
      (c r l k : ℕ)
      → a % 4 ≡ r
      → (a + 3) % 4 ≡ l
      → a - a % 4 ≡ c + 0
      → a + 3 - (a + 3) % 4 ≡ c + k
      → unaligned_load memory a old
        ≡ merge_left l
            (merge_right r old
              (word4 (memory (c + 0)) (memory (c + 1)) (memory (c + 2)) (memory (c + 3))))
            (word4
              (memory (c + k))
              (memory (c + (k + 1)))
              (memory (c + (k + 2)))
              (memory (c + (k + 3))))
  at_place c r l k p q s t =
      merges-congr old q p (load_word-word4 memory c 0 (a - a % 4) s)
        (load_word-word4 memory c k (a + 3 - (a + 3) % 4) t)

  -- On a memory of bytes, the words that LWR at an address and then LWL three bytes further on put
  -- together are the four bytes at the address, whatever the register held and wherever the
  -- address is in its word.
  pub unaligned_load-load_word :
      Bytes memory → old < word_size → unaligned_load memory a old ≡ load_word memory a
  unaligned_load-load_word bytes h =
      let c : ℕ = a - a % 4 in
      let b : (k : ℕ) → memory (c + k) < 0x100 = λ k. bytes (c + k) in
      let m : ℕ → ℕ = λ k. memory (c + k) in
      elim (four a) [
        | inl e ↦
            at_place c 0 3 0 e (omega (arith, e)) (omega arith) (omega (arith, e))
            ∙ load_0 (m 0) (m 1) (m 2) (m 3) (m 4) (m 5) (m 6) (m 7) old h (b 0) (b 1) (b 2) (b 3)
                (b 4) (b 5) (b 6) (b 7)
            ∙ sym (load_word-word4 memory c 0 a (omega (arith, e)))
        | inr (inl e) ↦
            at_place c 1 0 4 e (omega (arith, e)) (omega arith) (omega (arith, e))
            ∙ load_1 (m 0) (m 1) (m 2) (m 3) (m 4) (m 5) (m 6) (m 7) old h (b 0) (b 1) (b 2) (b 3)
                (b 4) (b 5) (b 6) (b 7)
            ∙ sym (load_word-word4 memory c 1 a (omega (arith, e)))
        | inr (inr (inl e)) ↦
            at_place c 2 1 4 e (omega (arith, e)) (omega arith) (omega (arith, e))
            ∙ load_2 (m 0) (m 1) (m 2) (m 3) (m 4) (m 5) (m 6) (m 7) old h (b 0) (b 1) (b 2) (b 3)
                (b 4) (b 5) (b 6) (b 7)
            ∙ sym (load_word-word4 memory c 2 a (omega (arith, e)))
        | inr (inr (inr e)) ↦
            at_place c 3 2 4 e (omega (arith, e)) (omega arith) (omega (arith, e))
            ∙ load_3 (m 0) (m 1) (m 2) (m 3) (m 4) (m 5) (m 6) (m 7) old h (b 0) (b 1) (b 2) (b 3)
                (b 4) (b 5) (b 6) (b 7)
            ∙ sym (load_word-word4 memory c 3 a (omega (arith, e)))
      ]
