-- ===== src/Base/Count.antt =====
-- Lists of numbers as multisets: how often a number occurs.
use Prim.Native.Nat.{ℕ, suc, ◌+◌, ◌≤◌, ◌<◌}
use mathlib.Core.Path.{◌≡◌, refl}
use mathlib.Core.Logic.{◌≢◌}
use mathlib.Core.Bool.{Bool, true, false, ◌||◌}
use mathlib.Core.List.{List, [], ◌∷◌, ◌++◌}
use native.Mathlib.Omega.{arith}
use nthu_operating_system_er.Base.Tests.{◌==◌, if◌then◌else◌}

unfoldable pub count : ℕ → List ℕ → ℕ
count a [] = 0
count a (x ∷ xs) = (if a == x then 1 else 0) + count a xs

-- Membership by comparison, as a search through the list finds it.
unfoldable pub contains : List ℕ → ℕ → Bool
contains [] a = false
contains (x ∷ xs) a = a == x || contains xs a

abbrev pub Distinct : List ℕ → Type 0
Distinct xs = (a : ℕ) → count a xs ≤ 1

pub count-append : (a : ℕ) (xs ys : List ℕ) → count a (xs ++ ys) ≡ count a xs + count a ys
unfolding count
count-append a [] ys = omega arith
count-append a (x ∷ xs) ys = omega (arith, count-append a xs ys)

pub count-contains : (a : ℕ) (xs : List ℕ) → contains xs a ≡ true → 0 < count a xs
unfolding count contains
count-contains a [] h = cc
count-contains a (x ∷ xs) h = ground (arith, count-contains a xs)

pub contains-count : (a : ℕ) (xs : List ℕ) → contains xs a ≡ false → count a xs ≡ 0
unfolding count contains
contains-count a [] h = refl
contains-count a (x ∷ xs) h = ground (arith, contains-count a xs)

pub contains-absent : (a : ℕ) (xs : List ℕ) → count a xs ≡ 0 → contains xs a ≡ false
unfolding count contains
contains-absent a [] h = refl
contains-absent a (x ∷ xs) h = ground (arith, contains-absent a xs)

pub contains-present : (a : ℕ) (xs : List ℕ) → 0 < count a xs → contains xs a ≡ true
unfolding count contains
contains-present a [] h = absurd (omega arith)
contains-present a (x ∷ xs) h = ground (arith, contains-present a xs)

pub count-cons : (a x : ℕ) (xs : List ℕ) → count a (x ∷ xs) ≡ count a (x ∷ []) + count a xs
unfolding count
count-cons a x xs = omega arith

pub count-cons_self : (a : ℕ) (xs : List ℕ) → count a (a ∷ xs) ≡ suc (count a xs)
unfolding count
count-cons_self a xs = ground arith

pub count-nil : (a : ℕ) → count a [] ≡ 0
unfolding count
count-nil a = refl

pub count-cons_ne : (a x : ℕ) (xs : List ℕ) → a ≢ x → count a (x ∷ xs) ≡ count a xs
unfolding count
count-cons_ne a x xs h = ground arith
