-- ===== src/Mult/Product.antt =====
-- Mult by magnitudes and signs.
use nthu_operating_system_er.Base.{
  ℕ, ◌-◌, ◌*◌, ◌%◌, ◌<◌, ◌≡◌, ◌∙◌, ap, Bool, true, false, ◌||◌, Bool-cases, inl, inr, ◌⊎◌, arith,
  ◌==◌, if◌then◌else◌,
}
use nthu_operating_system_er.Mult.{
  word_size, is_negative, magnitude, differ, complement, mult_loop, mult,
}
use nthu_operating_system_er.Mult.Loop.{
  double, partial, scaled, Fits, mult_loop-partial, partial_lem,
}

pub magnitude-lt :
    (signed_arith : Bool) (a : ℕ) → a < word_size → magnitude signed_arith a < word_size
magnitude-lt signed_arith a h = ground arith

Fits-first : (b : ℕ) → b < word_size → Fits 32 (double 0 0) (double 0 b)
unfolding scaled
Fits-first b h = omega arith

mult_loop_lem :
    (a b : ℕ)
    → a < word_size
    → b < word_size
    → (hi : ℕ) × (lo : ℕ) × (mult_loop 32 a b 0 0 0 ≡ (hi, lo))
      × (double hi lo ≡ a * b)
      × lo < word_size
mult_loop_lem a b h k =
    let (hi, lo, run, sum, small) =
      mult_loop-partial 32 a b 0 0 0 (omega arith) k (omega arith) (Fits-first b k) in
    (hi, lo, run, sum ∙ (omega (arith, whole a b h)), small)
  where
    whole : (a b : ℕ) → a < word_size → partial 32 a (double 0 b) ≡ a * b
    whole a b h = ap (partial 32 a) (omega arith) ∙ partial_lem 32 a b h

pub product-lt : (a b : ℕ) → a < word_size → b < word_size → a * b < word_size * word_size
product-lt a b h k = grind arith

complement-double :
    (hi lo : ℕ)
    → hi < word_size
    → lo < word_size
    → double (complement (hi, lo)).0 (complement (hi, lo)).1
      ≡ (word_size * word_size - double hi lo) % (word_size * word_size)
complement-double hi lo h k = ground arith

mult_zero :
    (a b : ℕ) (signed_arith : Bool) → (a == 0 || b == 0) ≡ true → mult a b signed_arith ≡ (0, 0)
unfolding mult
mult_zero a b signed_arith e = rw e

mult_run :
    (a b : ℕ) (signed_arith : Bool) (hi lo : ℕ)
    → (a == 0 || b == 0) ≡ false
    → mult_loop 32 (magnitude signed_arith a) (magnitude signed_arith b) 0 0 0 ≡ (hi, lo)
    → mult a b signed_arith ≡ (
        if differ (is_negative signed_arith a) (is_negative signed_arith b)
        then complement (hi, lo)
        else (hi, lo))
unfolding mult
mult_run a b signed_arith hi lo e run = rw (e, run)

-- The product of the magnitudes, complemented if the signs differ.
abbrev pub double_product : ℕ → ℕ → Bool → ℕ
double_product a b signed_arith =
    if differ (is_negative signed_arith a) (is_negative signed_arith b)
    then (word_size * word_size - magnitude signed_arith a * magnitude signed_arith b)
      % (word_size * word_size)
    else magnitude signed_arith a * magnitude signed_arith b

zero_product :
    (a b : ℕ) (signed_arith : Bool)
    → (a == 0 || b == 0) ≡ true
    → double 0 0 ≡ double_product a b signed_arith
zero_product a b signed_arith e = elim (either e) [
  | inl z ↦
      let m : magnitude signed_arith a * magnitude signed_arith b ≡ 0 =
        ap (λ (x : ℕ). magnitude signed_arith x * magnitude signed_arith b) z
        ∙ left signed_arith b in
      none_left (magnitude signed_arith a * magnitude signed_arith b)
        (differ (is_negative signed_arith a) (is_negative signed_arith b)) m
  | inr z ↦
      let m : magnitude signed_arith a * magnitude signed_arith b ≡ 0 =
        ap (λ (x : ℕ). magnitude signed_arith a * magnitude signed_arith x) z
        ∙ right signed_arith a in
      none_left (magnitude signed_arith a * magnitude signed_arith b)
        (differ (is_negative signed_arith a) (is_negative signed_arith b)) m
]
  where
    either : {x y : ℕ} → (x == 0 || y == 0) ≡ true → (x ≡ 0) ⊎ (y ≡ 0)
    either {x} {y} e = ground (arith, e)

    left : (s : Bool) (y : ℕ) → magnitude s 0 * magnitude s y ≡ 0
    left true y = omega arith
    left false y = omega arith

    right : (s : Bool) (x : ℕ) → magnitude s x * magnitude s 0 ≡ 0
    right true x = omega arith
    right false x = omega arith

    none_left :
        (m : ℕ) (negative : Bool)
        → m ≡ 0
        → double 0 0
          ≡ (if negative then (word_size * word_size - m) % (word_size * word_size) else m)
    none_left m true e = omega (arith, e)
    none_left m false e = omega (arith, e)

-- On two words, Mult ends with two words that are the product of the magnitudes, complemented if the
-- signs differ.
pub mult-double_product :
    (a b : ℕ) (signed_arith : Bool)
    → a < word_size
    → b < word_size
    → (hi : ℕ) × (lo : ℕ) × (mult a b signed_arith ≡ (hi, lo))
      × (double hi lo ≡ double_product a b signed_arith)
      × (hi < word_size)
      × (lo < word_size)
mult-double_product a b signed_arith h k = elim (Bool-cases (a == 0 || b == 0)) [
  | inl e ↦ (
    0,
    0,
    mult_zero a b signed_arith e,
    zero_product a b signed_arith e,
    omega arith,
    omega arith,
  )
  | inr e ↦
      let small_a = magnitude-lt signed_arith a h in
      let small_b = magnitude-lt signed_arith b k in
      let (hi, lo, run, product, small) =
        mult_loop_lem (magnitude signed_arith a) (magnitude signed_arith b) small_a small_b in
      let high : hi < word_size = omega (
        arith,
        product,
        product-lt (magnitude signed_arith a) (magnitude signed_arith b) small_a small_b,
      ) in
      finish (differ (is_negative signed_arith a) (is_negative signed_arith b)) hi lo
        (magnitude signed_arith a * magnitude signed_arith b) (mult a b signed_arith)
        (mult_run a b signed_arith hi lo e run) product high small
]
  where
    finish :
        (negative : Bool) (hi lo m : ℕ) (r : ℕ × ℕ)
        → r ≡ (if negative then complement (hi, lo) else (hi, lo))
        → double hi lo ≡ m
        → hi < word_size
        → lo < word_size
        → (hi' : ℕ) × (lo' : ℕ) × (r ≡ (hi', lo'))
          × (double hi' lo'
              ≡ (if negative then (word_size * word_size - m) % (word_size * word_size) else m))
          × (hi' < word_size)
          × (lo' < word_size)
    finish false hi lo m r run product high small = (hi, lo, run, product, high, small)
    finish true hi lo m r run product high small = (
      (complement (hi, lo)).0,
      (complement (hi, lo)).1,
      run,
      complement-double hi lo high small
          ∙ ap (λ (x : ℕ). (word_size * word_size - x) % (word_size * word_size)) product,
      omega arith,
      omega arith,
    )
