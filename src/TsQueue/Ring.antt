-- ===== src/TsQueue/Ring.antt =====
-- The slots of the ring: walking on from a slot, and the items that stand from a slot on.
use native.Mathlib.Nat.{mod-eq_of_lt, mod_self}
use nthu_operating_system_er.Base.{
  ℕ, zero, suc, ◌+◌, ◌-◌, ◌%◌, ◌≤◌, ◌<◌, ◌≡◌, refl, sym, ◌∙◌, ap, List, [], ◌∷◌, ◌++◌, arith, ◌==◌,
  if◌then◌else◌, ltb, get_or, set, length, get_or-set_self, get_or-set_ne, ℕ_discrete,
}

-- (i + 1) % n
unfoldable pub next_slot : ℕ → ℕ → ℕ
next_slot n i = (i + 1) % n

pub next_slot_lem : (n i : ℕ) → i < n → next_slot n i ≡ (if i + 1 == n then 0 else i + 1)
unfolding next_slot
next_slot_lem n i h = elim (ℕ_discrete (i + 1) n) [
  | yes wrap ↦ ap (λ (k : ℕ). k % n) wrap ∙ mod_self n ∙ ground arith
  | no inside ↦ mod-eq_of_lt (omega arith) ∙ ground arith
]

unfoldable pub walk : ℕ → ℕ → ℕ → ℕ
walk n zero i = i
walk n (suc k) i = walk n k (next_slot n i)

pub walk_lem :
    (n k i : ℕ) → i < n → k ≤ n → walk n k i ≡ (if ltb (i + k) n then i + k else i + k - n)
unfolding walk
walk_lem n zero i h l = ground arith
walk_lem n (suc k) i h l = ground (arith, next_slot_lem n i h, walk_lem n k (next_slot n i))

pub next_slot-lt : (n i : ℕ) → i < n → next_slot n i < n
next_slot-lt n i h = ground (arith, next_slot_lem n i h)

pub walk-suc : (n k i : ℕ) → next_slot n (walk n k i) ≡ walk n (suc k) i
unfolding walk
walk-suc n zero i = refl
walk-suc n (suc k) i = walk-suc n k (next_slot n i)

-- The items in `count` slots from slot i on.
unfoldable pub items_from : ℕ → List ℕ → ℕ → ℕ → List ℕ
items_from n buffer zero i = []
items_from n buffer (suc count) i = get_or buffer i 0 ∷ items_from n buffer count (next_slot n i)

-- A write behind the last item adds the item at the end and changes no other.
pub items_from-set :
    (n : ℕ) (buffer : List ℕ) (count i slot item : ℕ)
    → length buffer ≡ n
    → i < n
    → count < n
    → slot ≡ walk n count i
    → items_from n (set buffer slot item) (suc count) i ≡ items_from n buffer count i ++ item ∷ []
unfolding items_from walk
items_from-set n buffer zero i slot item l h c e =
    ap (λ (x : ℕ). x ∷ [])
      (ap (λ (k : ℕ). get_or (set buffer slot item) k 0) (sym e)
        ∙ get_or-set_self buffer slot item 0 (omega arith))
items_from-set n buffer (suc count) i slot item l h c e =
    ap (λ (x : ℕ). x ∷ items_from n (set buffer slot item) (suc count) (next_slot n i))
      (get_or-set_ne buffer slot i item 0
        (λ (same : slot ≡ i). ground (arith, walk_lem n (suc count) i h (omega arith))))
    ∙ ap (λ xs. get_or buffer i 0 ∷ xs)
        (items_from-set n buffer count (next_slot n i) slot item l (next_slot-lt n i h)
          (omega arith) e)
