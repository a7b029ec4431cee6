-- ===== src/Machine/Masks.antt =====
-- Words taken apart by masks and put together by |, as sums.
use native.Mathlib.Nat.{pow-suc}
use nthu_operating_system_er.Base.{
  ℕ, zero, suc, ◌+◌, ◌-◌, ◌*◌, ◌/◌, ◌%◌, ◌^◌, ◌≤◌, ◌<◌, ◌≡◌, refl, ◌∙◌, ◌&&◌, ◌||◌, arith, ◌==◌,
  if◌then◌else◌,
}
use nthu_operating_system_er.Mult.{word_size}
use nthu_operating_system_er.Machine.Word.{bitwise, and_word, or_word}

-- A mask of the high bits and a number below them
bitwise-or_zero : (n a : ℕ) → a < 2 ^ n → bitwise (λ a b. a || b) n 0 a ≡ a
unfolding bitwise
bitwise-or_zero zero a h = omega arith
bitwise-or_zero (suc n) a h =
    ground (arith, pow-suc 2 n, bitwise-or_zero n (a / 2) (omega (arith, pow-suc 2 n)))

bitwise-or_comm : (n a b : ℕ) → bitwise (λ a b. a || b) n a b ≡ bitwise (λ a b. a || b) n b a
unfolding bitwise
bitwise-or_comm zero a b = refl
bitwise-or_comm (suc n) a b = ground (arith, bitwise-or_comm n (a / 2) (b / 2))

pub or_word_comm : (a b : ℕ) → or_word a b ≡ or_word b a
or_word_comm = bitwise-or_comm 32

-- y * 2 ^ k
unfoldable raised : ℕ → ℕ → ℕ
raised zero y = y
raised (suc k) y = 2 * raised k y

-- A number of k bits and one above it share no bit.
or_raised :
    (k n x y : ℕ)
    → k ≤ n
    → x < 2 ^ k
    → raised k y < 2 ^ n
    → bitwise (λ a b. a || b) n x (raised k y) ≡ x + raised k y
unfolding raised bitwise
or_raised zero n x y h below fits =
    let e : x ≡ 0 = omega arith in rw e (bitwise-or_zero n y fits ∙ omega arith)
or_raised (suc k) zero x y h below fits = absurd (omega arith)
or_raised (suc k) (suc n) x y h below fits =
    let rest =
      or_raised k n (x / 2) y (omega arith) (omega (arith, pow-suc 2 k))
        (omega (arith, pow-suc 2 n)) in
    step x (raised k y) rest
  where
    step :
        (x z : ℕ)
        → bitwise (λ a b. a || b) n (x / 2) z ≡ x / 2 + z
        → (if x % 2 == 1 || 2 * z % 2 == 1 then 1 else 0)
            + 2 * bitwise (λ a b. a || b) n (x / 2) (2 * z / 2)
          ≡ x + 2 * z
    step x z e = let half : 2 * z / 2 ≡ z = omega arith in rw (half, e) (ground arith)

module _ (x y : ℕ) where
  pub or_8 : x < 0x100 → y < 0x100_0000 → or_word x (y * 0x100) ≡ x + y * 0x100
  unfolding raised
  or_8 h k =
      let e : y * 0x100 ≡ raised 8 y = omega arith in
      rw e (or_raised 8 32 x y (omega arith) h (omega arith))

  pub or_16 : x < 0x1_0000 → y < 0x1_0000 → or_word x (y * 0x1_0000) ≡ x + y * 0x1_0000
  unfolding raised
  or_16 h k =
      let e : y * 0x1_0000 ≡ raised 16 y = omega arith in
      rw e (or_raised 16 32 x y (omega arith) h (omega arith))

  pub or_24 : x < 0x100_0000 → y < 0x100 → or_word x (y * 0x100_0000) ≡ x + y * 0x100_0000
  unfolding raised
  or_24 h k =
      let e : y * 0x100_0000 ≡ raised 24 y = omega arith in
      rw e (or_raised 24 32 x y (omega arith) h (omega arith))

bitwise-and_ones : (n a : ℕ) → a < 2 ^ n → bitwise (λ a b. a && b) n a (2 ^ n - 1) ≡ a
unfolding bitwise
bitwise-and_ones zero a h = omega arith
bitwise-and_ones (suc n) a h =
    let positive = pow-positive n in
    let half : (2 ^ suc n - 1) / 2 ≡ 2 ^ n - 1 = omega (arith, pow-suc 2 n) in
    let odd : (2 ^ suc n - 1) % 2 ≡ 1 = omega (arith, pow-suc 2 n) in
    let rest = bitwise-and_ones n (a / 2) (omega (arith, pow-suc 2 n)) in
    rw (half, odd, rest) (ground arith)
  where
    pow-positive : (n : ℕ) → 0 < 2 ^ n
    pow-positive zero = omega arith
    pow-positive (suc n) = omega (arith, pow-suc 2 n, pow-positive n)

-- a / 2 ^ k
unfoldable lowered : ℕ → ℕ → ℕ
lowered zero a = a
lowered (suc k) a = lowered k (a / 2)

-- The mask of the bits from k on.
and_raised :
    (k n j a : ℕ)
    → n ≡ k + j
    → a < 2 ^ n
    → bitwise (λ a b. a && b) n a (raised k (2 ^ j - 1)) ≡ raised k (lowered k a)
unfolding raised lowered bitwise
and_raised zero n j a e h = let same : j ≡ n = omega arith in rw same (bitwise-and_ones n a h)
and_raised (suc k) zero j a e h = absurd (omega arith)
and_raised (suc k) (suc n) j a e h =
    let rest = and_raised k n j (a / 2) (omega arith) (omega (arith, pow-suc 2 n)) in
    step (raised k (2 ^ j - 1)) (raised k (lowered k (a / 2))) rest
  where
    step :
        (z w : ℕ)
        → bitwise (λ a b. a && b) n (a / 2) z ≡ w
        → (if a % 2 == 1 && 2 * z % 2 == 1 then 1 else 0)
            + 2 * bitwise (λ a b. a && b) n (a / 2) (2 * z / 2)
          ≡ 2 * w
    step z w e = let half : 2 * z / 2 ≡ z = omega arith in rw (half, e) (ground arith)

module _ (a : ℕ) (h : a < word_size) where
  pub and_8 : and_word a 0xffff_ff00 ≡ a / 0x100 * 0x100
  unfolding raised lowered
  and_8 = and_raised 8 32 24 a refl h ∙ omega arith

  pub and_16 : and_word a 0xffff_0000 ≡ a / 0x1_0000 * 0x1_0000
  unfolding raised lowered
  and_16 = and_raised 16 32 16 a refl h ∙ omega arith

  pub and_24 : and_word a 0xff00_0000 ≡ a / 0x100_0000 * 0x100_0000
  unfolding raised lowered
  and_24 = and_raised 24 32 8 a refl h ∙ omega arith
