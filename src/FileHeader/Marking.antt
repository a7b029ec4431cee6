-- ===== src/FileHeader/Marking.antt =====
-- Sectors that an allocation takes from the map of free sectors.
use nthu_operating_system_er.Base.{
  ℕ, suc, ◌+◌, ◌*◌, ◌≤◌, ◌<◌, ◌≡◌, refl, ◌∙◌, ap, true, false, List, [], ◌∷◌, ◌++◌, some, arith,
  ltb, if◌then◌else◌, length, length-append, count, count-append, ℤ, pos, Distinct, inl, inr, ◌==◌,
  dec_lt,
}
use nthu_operating_system_er.Bitmap.{Bitmap, pred_ℤ, bit_of, find_and_set, count_clear}
use nthu_operating_system_er.Bitmap.Marks.{IsBitmap}
use nthu_operating_system_er.Bitmap.Search.{
  Took, find_and_set-Took, Took-count_clear, count_clear-AllSet,
}

-- The sectors `used` were free and distinct; they are marked now, no other bit has changed, and the
-- counter has fallen by two for each of them.
pub record Marked (used : List ℕ) (b b' : Bitmap) : Type 0 where
  pub valid : IsBitmap b'
  pub same_bits : b'.num_bits ≡ b.num_bits
  pub distinct : Distinct used
  pub free : (j : ℕ) → 0 < count j used → bit_of b.words j ≡ false
  pub in_range : (j : ℕ) → 0 < count j used → j < b.num_bits
  pub bits : (j : ℕ) → bit_of b'.words j ≡ (if ltb 0 (count j used) then true else bit_of b.words j)
  pub counter : (s : ℕ) → b.size ≡ pos (2 * length used + s) → b'.size ≡ pos s
  pub clears : count_clear b.num_bits 0 b.words ≡ length used + count_clear b'.num_bits 0 b'.words

pub Marked-none : (b : Bitmap) → IsBitmap b → Marked [] b b
unfolding count
Marked-none b v = record {
  valid = v;
  same_bits = refl;
  distinct = λ a. omega arith;
  free = λ j h. absurd (omega arith);
  in_range = λ j h. absurd (omega arith);
  bits = λ j. refl;
  counter = λ s e. e ∙ ap pos (omega arith);
  clears = omega arith;
}

count_one : (j k : ℕ) → count j (k ∷ []) ≡ (if k == j then 1 else 0)
unfolding count
count_one j k = ground arith

single : (k j : ℕ) → 0 < count j (k ∷ []) → j ≡ k
unfolding count
single k j h = ground arith

two_off : (z : ℤ) (s : ℕ) → z ≡ pos (2 * 1 + s) → pred_ℤ (pred_ℤ z) ≡ pos s
two_off z s e =
    let shape : z ≡ pos (suc (suc s)) = e ∙ ap pos (omega arith) in
    ap (λ y. pred_ℤ (pred_ℤ y)) shape

Took-Marked : (b : Bitmap) (k : ℕ) (b' : Bitmap) → Took b k b' → Marked (k ∷ []) b b'
Took-Marked b k b' t = record {
  valid = t.valid;
  same_bits = t.same_bits;
  distinct = λ a. ground (arith, count_one a k);
  free = λ j h. ap (bit_of b.words) (single k j h) ∙ t.was_clear;
  in_range = λ j h. omega (arith, single k j h, t.in_range);
  bits = λ j. t.bits j ∙ ground (arith, count_one j k);
  counter = λ s e. t.counter ∙ two_off b.size s e;
  clears = omega (arith, Took-count_clear b k b' t);
}

-- With a positive counter and a clear bit, FindAndSet takes one sector.
pub find_and_set-Marked :
    (b : Bitmap) (s : ℕ)
    → IsBitmap b
    → b.size ≡ pos (suc s)
    → 0 < count_clear b.num_bits 0 b.words
    → (k : ℕ) × (b' : Bitmap) × (find_and_set b ≡ some (some k, b')) × Marked (k ∷ []) b b'
find_and_set-Marked b s v counter clears = elim (find_and_set-Took b v) [
  | inl (e, inl z) ↦ absurd (ground arith)
  | inl (e, inr all) ↦ absurd (
      omega (
        arith,
        clears,
        count_clear-AllSet b.num_bits 0 b.words (λ j h₁ h₂. all j h₁ (omega arith)),
      ))
  | inr (k, b', run, t) ↦ (k, b', run, Took-Marked b k b' t)
]

module _ {b b₁ b₂ : Bitmap} (xs ys : List ℕ) (m : Marked xs b b₁) (n : Marked ys b₁ b₂) where
  -- A sector of the second allocation was not one of the first.
  second_fresh : (j : ℕ) → 0 < count j ys → count j xs ≡ 0
  second_fresh j h = elim (dec_lt 0 (count j xs)) [
    | no never ↦ omega arith
    | yes twice ↦ absurd (ground (arith, m.bits j, n.free j h))
  ]

  distinct_together : (j : ℕ) → count j (xs ++ ys) ≤ 1
  distinct_together j = elim (dec_lt 0 (count j ys)) [
    | yes second ↦ omega (arith, count-append j xs ys, second_fresh j second, n.distinct j)
    | no first ↦ omega (arith, count-append j xs ys, m.distinct j)
  ]

  free_together : (j : ℕ) → 0 < count j (xs ++ ys) → (bit_of b.words j ≡ false) × (j < b.num_bits)
  free_together j h = elim (dec_lt 0 (count j xs)) [
    | yes first ↦ (m.free j first, m.in_range j first)
    | no second ↦
        let later : 0 < count j ys = omega (arith, count-append j xs ys) in
        (ground (arith, m.bits j, n.free j later), omega (arith, n.in_range j later, m.same_bits))
  ]

  pub Marked-append : Marked (xs ++ ys) b b₂
  Marked-append = record {
    valid = n.valid;
    same_bits = n.same_bits ∙ m.same_bits;
    distinct = distinct_together;
    free = λ j h. (free_together j h).0;
    in_range = λ j h. (free_together j h).1;
    bits = λ j. ground (arith, m.bits j, n.bits j, count-append j xs ys);
    counter = λ s e.
        n.counter s
          (m.counter (2 * length ys + s) (e ∙ ap pos (omega (arith, length-append xs ys))));
    clears = omega (arith, m.clears, n.clears, length-append xs ys);
  }
