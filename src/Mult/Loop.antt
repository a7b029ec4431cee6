-- ===== src/Mult/Loop.antt =====
-- The loop of Mult computes the product.
use native.Mathlib.Nat.{pow-suc}
use nthu_operating_system_er.Base.{
  subst, Bool-cases, inl, inr, ℕ, zero, suc, ◌+◌, ◌*◌, ◌/◌, ◌%◌, ◌^◌, ◌≤◌, ◌<◌, ◌≡◌, refl, sym, ◌∙◌,
  ap, Bool, true, false, ◌&&◌, arith, leb, ◌==◌, if◌then◌else◌,
}
use nthu_operating_system_er.Mult.{
  word_size, sign_bit, shift_right, is_odd, next_lo, next_hi, next_b_hi, mult_loop,
}

-- hi and lo as a number
abbrev pub double : ℕ → ℕ → ℕ
double hi lo = hi * word_size + lo

-- The sum that the loop adds up for n bits of a.
unfoldable pub partial : ℕ → ℕ → ℕ → ℕ
partial zero a b = 0
partial (suc n) a b = (if is_odd a then b else 0) + partial n (a / 2) (2 * b)

-- b * 2 ^ n
unfoldable pub scaled : ℕ → ℕ → ℕ
scaled zero b = b
scaled (suc n) b = scaled n (2 * b)

scaled-le : (n b : ℕ) → b ≤ scaled n b
unfolding scaled
scaled-le zero b = omega arith
scaled-le (suc n) b = omega (arith, scaled-le n (2 * b))

next_sum :
    (a b_lo b_hi lo hi : ℕ)
    → b_lo < word_size
    → lo < word_size
    → double hi lo + double b_hi b_lo < word_size * word_size
    → (double (next_hi a b_lo b_hi lo hi) (next_lo a b_lo lo)
        ≡ double hi lo + (if is_odd a then double b_hi b_lo else 0))
      × next_lo a b_lo lo < word_size
next_sum a b_lo b_hi lo hi h₁ h₂ h₃ = (ground arith, ground arith)

next_b :
    (b_lo b_hi : ℕ)
    → b_lo < word_size
    → 2 * double b_hi b_lo < word_size * word_size
    → (double (next_b_hi b_lo b_hi) (b_lo * 2 % word_size) ≡ 2 * double b_hi b_lo)
next_b b_lo b_hi h₁ h₂ = ground arith

-- Two words agree on the last n bits.
unfoldable SameLow : ℕ → ℕ → ℕ → Type 0
SameLow zero a a' = Unit {0}
SameLow (suc n) a a' = (a % 2 ≡ a' % 2) × SameLow n (a / 2) (a' / 2)

SameLow-refl : (n a : ℕ) → SameLow n a a
unfolding SameLow
SameLow-refl zero a = record {}
SameLow-refl (suc n) a = (refl, SameLow-refl n (a / 2))

add_power : (x k : ℕ) → ((x + 2 ^ suc k) % 2 ≡ x % 2) × ((x + 2 ^ suc k) / 2 ≡ x / 2 + 2 ^ k)
add_power x k = (omega (arith, pow-suc 2 k), omega (arith, pow-suc 2 k))

power-SameLow : (n k x : ℕ) → n ≤ k → SameLow n (x + 2 ^ k) x
unfolding SameLow
power-SameLow zero k x h = record {}
power-SameLow (suc n) zero x h = absurd (omega arith)
power-SameLow (suc n) (suc k) x h = (
  (add_power x k).0,
  subst (λ (y : ℕ). SameLow n y (x / 2)) (sym (add_power x k).1)
      (power-SameLow n k (x / 2) (omega arith)),
)

-- The sign that the shift brings in is above the bits that are left.
shift_right-SameLow : (n a : ℕ) → n ≤ 31 → SameLow n (shift_right a) (a / 2)
shift_right-SameLow n a h = elim (Bool-cases (leb sign_bit a)) [
  | inl e ↦
      subst (λ (y : ℕ). SameLow n y (a / 2))
        (ap (λ (t : Bool). a / 2 + (if t then sign_bit else 0)) (sym e))
        (power-SameLow n 31 (a / 2) h)
  | inr e ↦ subst (λ (y : ℕ). SameLow n y (a / 2)) (plain a e) (SameLow-refl n (a / 2))
]
  where
    plain : (a : ℕ) → leb sign_bit a ≡ false → a / 2 ≡ shift_right a
    plain a e = ground arith

partial-SameLow : (n a a' b : ℕ) → SameLow n a a' → partial n a b ≡ partial n a' b
unfolding partial SameLow
partial-SameLow zero a a' b s = refl
partial-SameLow (suc n) a a' b s = rw (s.0) (
    ap (λ (x : ℕ). (if a' % 2 == 1 then b else 0) + x)
      (partial-SameLow n (a / 2) (a' / 2) (2 * b) s.1))

partial-none : (n a b : ℕ) → a ≡ 0 → partial n a b ≡ 0
unfolding partial
partial-none zero a b e = refl
partial-none (suc n) a b e = ground (arith, partial-none n (a / 2) (2 * b) (omega arith))

split_product : (h b : ℕ) → (2 * h + 1) * b ≡ b + h * (2 * b)
split_product h b = grind arith

split_even : (h b : ℕ) → (2 * h) * b ≡ 0 + h * (2 * b)
split_even h b = grind arith

-- All bits of a together give the product.
pub partial_lem : (n a b : ℕ) → a < 2 ^ n → partial n a b ≡ a * b
unfolding partial
partial_lem zero a b h = let e : a ≡ 0 = omega arith in rw e (omega arith)
partial_lem (suc n) a b h =
    let rest = partial_lem n (a / 2) (2 * b) (omega (arith, pow-suc 2 n)) in
    elim (Bool-cases (is_odd a)) [
      | inl odd ↦
          let e : a ≡ 2 * (a / 2) + 1 = ground (arith, odd) in
          rw (odd, rest) (sym (ap (λ (x : ℕ). x * b) e ∙ split_product (a / 2) b))
      | inr even ↦
          let e : a ≡ 2 * (a / 2) = ground (arith, even) in
          rw (even, rest) (sym (ap (λ (x : ℕ). x * b) e ∙ split_even (a / 2) b))
    ]

-- The sum of a round fits into the double word.
abbrev pub Fits : ℕ → ℕ → ℕ → Type 0
Fits n sum b = sum + scaled n b < word_size * word_size + b

abbrev pub LoopSum : (n a b_lo b_hi lo hi : ℕ) → Type 0
LoopSum n a b_lo b_hi lo hi =
    (hi' : ℕ) × (lo' : ℕ) × (mult_loop n a b_lo b_hi lo hi ≡ (hi', lo'))
    × (double hi' lo' ≡ double hi lo + partial n a (double b_hi b_lo))
    × lo' < word_size

module _ (n a b_lo b_hi lo hi : ℕ) where
  stop_early :
      b_lo < word_size
      → lo < word_size
      → double hi lo + double b_hi b_lo < word_size * word_size
      → (is_odd a && a / 2 == 0) ≡ true
      → LoopSum (suc n) a b_lo b_hi lo hi
  unfolding mult_loop partial
  stop_early h₁ h₂ h₃ e =
      let (sum, small) = next_sum a b_lo b_hi lo hi h₁ h₂ h₃ in
      (
        next_hi a b_lo b_hi lo hi,
        next_lo a b_lo lo,
        rw e,
        sum
            ∙ ap (λ (x : ℕ). double hi lo + x)
                (only (partial n (a / 2) (2 * double b_hi b_lo))
                  (partial-none n (a / 2) (2 * double b_hi b_lo) (ground (arith, e)))),
        small,
      )
    where
      only :
          (later : ℕ)
          → later ≡ 0
          → (if is_odd a then double b_hi b_lo else 0)
            ≡ (if is_odd a then double b_hi b_lo else 0) + later
      only later z = omega (arith, z)

  go_on :
      b_lo < word_size
      → lo < word_size
      → double hi lo + double b_hi b_lo < word_size * word_size
      → (is_odd a && a / 2 == 0) ≡ false
      → n ≤ 31
      → (b : ℕ) → (partial n (shift_right a) b ≡ partial n (shift_right a) (2 * double b_hi b_lo))
      → (hi' : ℕ) (lo' : ℕ)
      → mult_loop n
          (shift_right a)
          (b_lo * 2 % word_size)
          (next_b_hi b_lo b_hi)
          (next_lo a b_lo lo)
          (next_hi a b_lo b_hi lo hi)
        ≡ (hi', lo')
      → double hi' lo'
        ≡ double (next_hi a b_lo b_hi lo hi) (next_lo a b_lo lo) + partial n (shift_right a) b
      → lo' < word_size
      → LoopSum (suc n) a b_lo b_hi lo hi
  unfolding mult_loop partial
  go_on h₁ h₂ h₃ e short b same_b hi' lo' run sum' small' =
      let (sum, small) = next_sum a b_lo b_hi lo hi h₁ h₂ h₃ in
      let same_a =
        partial-SameLow n (shift_right a) (a / 2) (2 * double b_hi b_lo)
          (shift_right-SameLow n a short) in
      (
        hi',
        lo',
        rw (e, run),
        together (double hi' lo') (double (next_hi a b_lo b_hi lo hi) (next_lo a b_lo lo))
            (double hi lo) (partial n (shift_right a) b) (if is_odd a then double b_hi b_lo else 0)
            (partial n (a / 2) (2 * double b_hi b_lo)) sum' sum (same_b ∙ same_a),
        small',
      )
    where
      together : (x y z p q r : ℕ) → x ≡ y + p → y ≡ z + q → p ≡ r → x ≡ z + (q + r)
      together x y z p q r e₁ e₂ e₃ = omega arith

scaled_twice : (n b : ℕ) → scaled (suc (suc n)) b ≡ scaled n (4 * b)
unfolding scaled
scaled_twice n b = ap (scaled n) (omega arith)

Fits-next :
    (n b b' sum sum' : ℕ) (odd : Bool)
    → b' ≡ 2 * b
    → sum' ≡ sum + (if odd then b else 0)
    → Fits (suc (suc n)) sum b
    → Fits (suc n) sum' b'
unfolding scaled
Fits-next n b b' sum sum' true e f h = omega (arith, f, ap (λ (x : ℕ). scaled n (2 * x)) e)
Fits-next n b b' sum sum' false e f h = omega (arith, f, ap (λ (x : ℕ). scaled n (2 * x)) e)

pub mult_loop-partial :
    (n a b_lo b_hi lo hi : ℕ)
    → n ≤ 32
    → b_lo < word_size
    → lo < word_size
    → Fits n (double hi lo) (double b_hi b_lo)
    → LoopSum n a b_lo b_hi lo hi
mult_loop-partial zero a b_lo b_hi lo hi short h₁ h₂ fits =
    (hi, lo, unfold mult_loop in refl, unfold partial in omega arith, h₂)
mult_loop-partial (suc zero) a b_lo b_hi lo hi short h₁ h₂ fits =
    let room : double hi lo + double b_hi b_lo < word_size * word_size =
      unfold scaled in omega arith in
    elim (Bool-cases (is_odd a && a / 2 == 0)) [
      | inl stop ↦ stop_early 0 a b_lo b_hi lo hi h₁ h₂ room stop
      | inr more ↦
          go_on 0 a b_lo b_hi lo hi h₁ h₂ room more (omega arith) 0 (unfold partial in refl)
            (next_hi a b_lo b_hi lo hi) (next_lo a b_lo lo) (unfold mult_loop in refl)
            (unfold partial in omega arith) (next_sum a b_lo b_hi lo hi h₁ h₂ room).1
    ]
mult_loop-partial (suc (suc n)) a b_lo b_hi lo hi short h₁ h₂ fits =
    let grows = scaled-le n (4 * double b_hi b_lo) in
    let total : scaled (suc (suc n)) (double b_hi b_lo) ≡ scaled n (4 * double b_hi b_lo) =
      scaled_twice n (double b_hi b_lo) in
    let room : double hi lo + double b_hi b_lo < word_size * word_size =
      omega (arith, grows, total) in
    let twice : 2 * double b_hi b_lo < word_size * word_size = omega (arith, grows, total) in
    let next = next_b b_lo b_hi h₁ twice in
    let (sum, small) = next_sum a b_lo b_hi lo hi h₁ h₂ room in
    elim (Bool-cases (is_odd a && a / 2 == 0)) [
      | inl stop ↦ stop_early (suc n) a b_lo b_hi lo hi h₁ h₂ room stop
      | inr more ↦
          let (hi', lo', run, sum', small') =
            mult_loop-partial (suc n) (shift_right a) (b_lo * 2 % word_size) (next_b_hi b_lo b_hi)
              (next_lo a b_lo lo) (next_hi a b_lo b_hi lo hi) (omega arith) (omega arith) small
              (Fits-next n (double b_hi b_lo) (double (next_b_hi b_lo b_hi) (b_lo * 2 % word_size))
                (double hi lo) (double (next_hi a b_lo b_hi lo hi) (next_lo a b_lo lo)) (is_odd a)
                next sum fits) in
          go_on (suc n) a b_lo b_hi lo hi h₁ h₂ room more (omega arith)
            (double (next_b_hi b_lo b_hi) (b_lo * 2 % word_size))
            (ap (λ (b : ℕ). partial (suc n) (shift_right a) b) next) hi' lo' run sum' small'
    ]
