-- ===== src/Bitmap/Search.antt =====
-- FindAndSet: which bit it takes, when it gives up, and what becomes of the counter.
use mathlib.Core.List.{append-nil}
use nthu_operating_system_er.Base.{
  ℕ, zero, suc, ◌+◌, ◌-◌, ◌≤◌, ◌<◌, ◌≡◌, refl, ◌∙◌, ap, true, false, List, ◌++◌, none, some, arith,
  pos, ltb, leb, if◌then◌else◌, ◌>>=◌, take, drop, take-all, drop-all, Bool-cases, inl, inr, ◌==◌,
  ◌&&◌, ◌⊎◌,
}
use nthu_operating_system_er.Bitmap.{
  Bitmap, pred_ℤ, is_zero_ℤ, bit_of, find_clear, claim, find_and_set, count_clear, export, import,
}
use nthu_operating_system_er.Bitmap.Marks.{IsBitmap, mark-clear-Sets}

-- k is the first clear bit among those from i on, below the limit.
pub record IsFirstClear (words : List ℕ) (i limit k : ℕ) : Type 0 where
  pub from : i ≤ k
  pub below : k < limit
  pub is_clear : bit_of words k ≡ false
  pub first : (j : ℕ) → i ≤ j → j < k → bit_of words j ≡ true

abbrev pub AllSet : List ℕ → ℕ → ℕ → Type 0
AllSet words i limit = (j : ℕ) → i ≤ j → j < limit → bit_of words j ≡ true

find_clear_lem :
    (n i : ℕ) (words : List ℕ)
    → ((find_clear n i words ≡ none) × AllSet words i (i + n))
      ⊎ ((k : ℕ) × (find_clear n i words ≡ some k) × IsFirstClear words i (i + n) k)
unfolding find_clear
find_clear_lem zero i words = inl (refl, λ j h₁ h₂. absurd (omega arith))
find_clear_lem (suc n) i words = elim (Bool-cases (bit_of words i)) [
  | inr c ↦ inr (
    i,
    rw (c, find_clear),
    record {
      from = omega arith;
      below = omega arith;
      is_clear = c;
      first = λ j h₁ h₂. absurd (omega arith);
    },
  )
  | inl s ↦ elim (find_clear_lem n (suc i) words) [
    | inl (e, all) ↦ inl (
      rw (s, find_clear) e,
      λ j h₁ h₂. elim (Bool-cases (i == j)) [
        | inl same ↦ ground (arith, s, ap (bit_of words) (eq_of_test i j same))
        | inr apart ↦ all j (ground arith) (omega arith)
      ],
    )
    | inr (k, e, f) ↦ inr (
      k,
      rw (s, find_clear) e,
      record {
        from = omega (arith, f.from);
        below = omega (arith, f.below);
        is_clear = f.is_clear;
        first = λ j h₁ h₂. elim (Bool-cases (i == j)) [
          | inl same ↦ ground (arith, s, ap (bit_of words) (eq_of_test i j same))
          | inr apart ↦ f.first j (ground arith) h₂
        ];
      },
    )
  ]
]
  where
    eq_of_test : (i j : ℕ) → (i == j) ≡ true → i ≡ j
    eq_of_test i j h = ground arith

-- The bit that a search took: it was clear, and is the first one from the cursor on, or else, with
-- none there, the first one of all.
pub record Took (b : Bitmap) (k : ℕ) (b' : Bitmap) : Type 0 where
  pub in_range : k < b.num_bits
  pub was_clear : bit_of b.words k ≡ false
  pub circular :
      IsFirstClear b.words b.cur b.num_bits k
      ⊎ (AllSet b.words b.cur b.num_bits × IsFirstClear b.words 0 b.cur k)
  pub bits : (j : ℕ) → bit_of b'.words j ≡ (if k == j then true else bit_of b.words j)
  pub valid : IsBitmap b'
  pub cursor : b'.cur ≡ k
  pub counter : b'.size ≡ pred_ℤ (pred_ℤ b.size)
  pub same_bits : b'.num_bits ≡ b.num_bits

claim-Took :
    (b : Bitmap) (k : ℕ)
    → IsBitmap b
    → k < b.num_bits
    → bit_of b.words k ≡ false
    → (IsFirstClear b.words b.cur b.num_bits k
        ⊎ (AllSet b.words b.cur b.num_bits × IsFirstClear b.words 0 b.cur k))
    → (b' : Bitmap) × (claim b k ≡ some (some k, b')) × Took b k b'
unfolding claim
claim-Took b k v h c where_from =
    let (m, run, s, size) = (mark-clear-Sets b k v h).0 in
    (
      record m { cur = k; size = pred_ℤ m.size },
      rw (run, ◌>>=◌),
      record {
        in_range = h;
        was_clear = c;
        circular = where_from;
        bits = s.bits;
        valid = record {
          sized = s.valid.sized;
          room = s.valid.room;
          cursor = omega (arith, s.same_bits);
          small = s.valid.small;
        };
        cursor = refl;
        counter = ap pred_ℤ (ground arith);
        same_bits = s.same_bits;
      },
    )

-- On a well-formed bitmap `FindAndSet` does not abort. It returns -1 and changes nothing if the
-- counter is zero or all bits are set; otherwise it returns the first clear bit in circular order
-- from the cursor, sets that bit and no other, and takes two off the counter.
pub find_and_set-Took :
    (b : Bitmap)
    → IsBitmap b
    → ((find_and_set b ≡ some (none, b))
        × ((is_zero_ℤ b.size ≡ true) ⊎ AllSet b.words 0 b.num_bits))
      ⊎ ((k : ℕ) × (b' : Bitmap) × (find_and_set b ≡ some (some k, b')) × Took b k b')
unfolding find_and_set
find_and_set-Took b v = elim (Bool-cases (is_zero_ℤ b.size)) [
  | inl z ↦ inl (rw z, inl z)
  | inr nz ↦ elim (find_clear_lem (b.num_bits - b.cur) b.cur b.words) [
    | inr (k, e, f) ↦
        let first : IsFirstClear b.words b.cur b.num_bits k = record {
          from = f.from;
          below = omega (arith, f.below, v.cursor);
          is_clear = f.is_clear;
          first = f.first;
        } in
        let (b', run, took) = claim-Took b k v first.below f.is_clear (inl first) in
        inr (k, b', rw (nz, find_and_set, e) run, took)
    | inl (e, all) ↦
        let above : AllSet b.words b.cur b.num_bits =
          (λ j h₁ h₂. all j h₁ (omega (arith, v.cursor))) in
        elim (find_clear_lem b.cur 0 b.words) [
          | inr (k, e', f) ↦
              let first : IsFirstClear b.words 0 b.cur k = record {
                from = f.from;
                below = omega (arith, f.below);
                is_clear = f.is_clear;
                first = f.first;
              } in
              let (b', run, took) =
                claim-Took b k v (omega (arith, f.below, v.cursor)) f.is_clear
                  (inr (above, first)) in
              inr (k, b', rw (nz, find_and_set, e, e') run, took)
          | inl (e', all') ↦ inl (
            rw (nz, find_and_set, e, e'),
            inr (λ j h₁ h₂. elim (Bool-cases (ltb j b.cur)) [
              | inl low ↦ all' j h₁ (ground arith)
              | inr high ↦ above j (ground arith) h₂
            ]),
          )
        ]
  ]
]

-- Flipping one bit from clear to set takes one off the number of clear bits.
count_clear-flip :
    (n i k : ℕ) (words words' : List ℕ)
    → bit_of words k ≡ false
    → ((j : ℕ) → bit_of words' j ≡ (if k == j then true else bit_of words j))
    → count_clear n i words ≡ count_clear n i words' + (if leb i k && ltb k (i + n) then 1 else 0)
unfolding count_clear
count_clear-flip zero i k words words' c h = ground arith
count_clear-flip (suc n) i k words words' c h =
    ground (arith, h i, count_clear-flip n (suc i) k words words' c h, flipped i k)
  where
    flipped : (i k : ℕ) → (k == i) ≡ true → bit_of words k ≡ bit_of words i
    flipped i k e = ap (bit_of words) (eq_of_test k i e)
      where
        eq_of_test : (i j : ℕ) → (i == j) ≡ true → i ≡ j
        eq_of_test i j h = ground arith

-- A bit that is taken is one clear bit fewer, while the counter falls by two.
pub Took-count_clear :
    (b : Bitmap) (k : ℕ) (b' : Bitmap)
    → Took b k b'
    → count_clear b.num_bits 0 b.words ≡ suc (count_clear b'.num_bits 0 b'.words)
Took-count_clear b k b' t = ground (
  arith,
  t.in_range,
  ap (λ n. count_clear n 0 b'.words) t.same_bits,
  count_clear-flip b.num_bits 0 k b.words b'.words t.was_clear t.bits,
)

pub count_clear-AllSet :
    (n i : ℕ) (words : List ℕ) → AllSet words i (i + n) → count_clear n i words ≡ 0
unfolding count_clear
count_clear-AllSet zero i words all = refl
count_clear-AllSet (suc n) i words all = ground (
  arith,
  all i (omega arith) (omega arith),
  count_clear-AllSet n (suc i) words (λ j h₁ h₂. all j (omega arith) (omega arith)),
)

-- On a well-formed bitmap with two clear bits and the counter right, one `FindAndSet` takes a bit,
-- and the next one returns -1 although a bit is still clear.
pub find_and_set-loses_bit :
    (b : Bitmap)
    → IsBitmap b
    → b.size ≡ pos 2
    → count_clear b.num_bits 0 b.words ≡ 2
    → (k : ℕ) × (b' : Bitmap) × (find_and_set b ≡ some (some k, b'))
      × (count_clear b'.num_bits 0 b'.words ≡ 1)
      × (find_and_set b' ≡ some (none, b'))
unfolding find_and_set
find_and_set-loses_bit b v two clears = elim (find_and_set-Took b v) [
  | inl (e, inl zero_size) ↦ absurd (ground arith)
  | inl (e, inr all) ↦ absurd (
      omega (
        arith,
        clears,
        count_clear-AllSet b.num_bits 0 b.words (λ j h₁ h₂. all j h₁ (omega arith)),
      ))
  | inr (k, b', e, t) ↦ (
    k,
    b',
    e,
    omega (arith, Took-count_clear b k b' t, clears),
    counter_spent b' (t.counter ∙ ap (λ z. pred_ℤ (pred_ℤ z)) two),
  )
]
  where
    counter_spent : (b' : Bitmap) → b'.size ≡ pos 0 → find_and_set b' ≡ some (none, b')
    counter_spent b' e = ground arith

-- A buffer with room for the words, exported and imported into a bitmap of the same shape, gives
-- the same bits, with the cursor at the start and the counter at the number of clear bits.
pub import-export :
    (b fresh : Bitmap)
    → IsBitmap b
    → IsBitmap fresh
    → fresh.num_bits ≡ b.num_bits
    → fresh.num_words ≡ b.num_words
    → ((import fresh (export b)).words ≡ b.words)
      × ((import fresh (export b)).cur ≡ 0)
      × ((import fresh (export b)).size ≡ pos (count_clear b.num_bits 0 b.words))
unfolding import export
import-export b fresh v f bits nwords =
    let whole : take fresh.num_words (take b.num_words b.words) ++ drop fresh.num_words fresh.words
        ≡ b.words =
      rw
        (
          take-all b.num_words b.words (omega (arith, v.sized)),
          take-all fresh.num_words b.words (omega (arith, v.sized, nwords)),
          drop-all fresh.num_words fresh.words (omega (arith, f.sized)),
        )
        (append-nil b.words) in
    (whole, refl, rw (whole, bits))
