-- ===== src/Machine/Post.antt =====
-- What holds of the outcome of an operation of the machine: P of a value, E of a trap, N of an abort.
use nthu_operating_system_er.Base.{refl, Bool, true, false, ◌≡◌, if◌then◌else◌}
use nthu_operating_system_er.Machine.{
  Machine, ExceptionType, Outcome, done, trapped, aborted, ◌>>=◌,
}

pub data Post {ℓ} {A : Type ℓ} (P : A → Type 0) (E : ExceptionType → Machine → Type 0) (N : Type 0)
    : Outcome A → Type ℓ where
  returns : {a : A} → P a → Post P E N (done a)
  traps : {which : ExceptionType} {m : Machine} → E which m → Post P E N (trapped which m)
  aborts : N → Post P E N aborted

module _ {ℓ} {A : Type ℓ} {P : A → Type 0} {E : ExceptionType → Machine → Type 0} {N : Type 0} where
  pub Post-done : {a : A} → Post P E N (done a) → P a
  Post-done (returns h) = h

  pub Post-trapped :
      {which : ExceptionType} {m : Machine} → Post P E N (trapped which m) → E which m
  Post-trapped (traps h) = h

  pub Post-aborted : Post P E N aborted → N
  Post-aborted (aborts h) = h

  pub Post-if :
      (b : Bool) {x y : Outcome A}
      → (b ≡ true → Post P E N x)
      → (b ≡ false → Post P E N y)
      → Post P E N (if b then x else y)
  Post-if true f g = f refl
  Post-if false f g = g refl

  pub Post-bind {κ} :
      {B : Type κ} {Q : B → Type 0} {r : Outcome A} {f : A → Outcome B}
      → Post P E N r
      → ((a : A) → P a → Post Q E N (f a))
      → Post Q E N (r >>= f)
  Post-bind (returns h) k = k _ h
  Post-bind (traps h) k = traps h
  Post-bind (aborts h) k = aborts h

pub Post-map {ℓ} :
    {A : Type ℓ} {P P' : A → Type 0} {E E' : ExceptionType → Machine → Type 0} {N N' : Type 0}
    {r : Outcome A}
    → ((a : A) → P a → P' a)
    → ((which : ExceptionType) (m : Machine) → E which m → E' which m)
    → (N → N')
    → Post P E N r
    → Post P' E' N' r
Post-map p e n (returns h) = returns (p _ h)
Post-map p e n (traps h) = traps (e _ _ h)
Post-map p e n (aborts h) = aborts (n h)
