-- ===== src/Scheduler/Queues/Levels.antt =====
-- Which thread the scheduler takes, and when it lets the running one go on.
use nthu_operating_system_er.Base.{
  ℕ, ◌+◌, ◌≤◌, ◌<◌, ◌≡◌, refl, ap, false, length, List, [], ◌∷◌, some, arith, count, count-cons,
  count-cons_self, count-nil, ◌⊎◌, inl, inr, dec_lt,
}
use nthu_operating_system_er.LinkedList
use nthu_operating_system_er.LinkedList.{LinkedList}
use nthu_operating_system_er.Scheduler.Thread.{Double}
use nthu_operating_system_er.Scheduler.Queues.{
  Kernel, Level, lv1, lv2, lv3, get_level, is_empty, remove_front, should_preempt,
}

-- A smaller rank runs first.
abbrev pub rank : Level → ℕ
rank lv1 = 1
rank lv2 = 2
rank lv3 = 3

-- How often a thread stands in the three queues.
abbrev pub count_queued : {D : Type 0} → Kernel D → ℕ → ℕ
count_queued k p = count p k.l1.items + count p k.l2.items + count p k.l3.items

pub count-no_items : (q : ℕ) (xs : List ℕ) → length xs ≡ 0 → count q xs ≡ 0
count-no_items q [] e = count-nil q
count-no_items q (x ∷ xs) e = absurd (omega arith)

-- `numInList` of each queue is right.
pub record IsCounted {D : Type 0} (k : Kernel D) : Type 0 where
  pub l1 : k.l1.num_in_list ≡ length k.l1.items
  pub l2 : k.l2.num_in_list ≡ length k.l2.items
  pub l3 : k.l3.num_in_list ≡ length k.l3.items

module _ (f : Double) where
  -- Each queued thread stands in the queue of its level.
  pub record InLevels (k : Kernel f.D) : Type 0 where
    pub in_l1 : (p : ℕ) → 0 < count p k.l1.items → get_level f k p ≡ lv1
    pub in_l2 : (p : ℕ) → 0 < count p k.l2.items → get_level f k p ≡ lv2
    pub in_l3 : (p : ℕ) → 0 < count p k.l3.items → get_level f k p ≡ lv3

  -- If the counts of the queues are right and each queued thread is in the queue of its level, the
  -- thread that `RemoveFront` takes is of a level that no queued thread exceeds, and it is out of the
  -- queues once, with all other threads left in them.
  pub remove_front-highest :
      (k k' : Kernel f.D) (p q : ℕ)
      → IsCounted k
      → InLevels k
      → remove_front f k ≡ some (p, k')
      → (count_queued k q ≡ count q (p ∷ []) + count_queued k' q)
        × ((count_queued k q ≡ 0) ⊎ rank (get_level f k p) ≤ rank (get_level f k q))
  unfolding remove_front is_empty LinkedList.remove_front LinkedList.is_empty
  remove_front-highest k k' p q n v e = pick k.l1.items k.l2.items k.l3.items refl refl refl
    where
      split :
          (0 < count_queued k q → rank (get_level f k p) ≤ rank (get_level f k q))
          → (count_queued k q ≡ 0) ⊎ rank (get_level f k p) ≤ rank (get_level f k q)
      split h = elim (dec_lt 0 (count_queued k q)) [
        | yes there ↦ inr (h there)
        | no nowhere ↦ inl (omega arith)
      ]

      pick :
          (xs ys zs : List ℕ)
          → k.l1.items ≡ xs
          → k.l2.items ≡ ys
          → k.l3.items ≡ zs
          → (count_queued k q ≡ count q (p ∷ []) + count_queued k' q)
            × ((count_queued k q ≡ 0) ⊎ rank (get_level f k p) ≤ rank (get_level f k q))
      pick (x ∷ xs) ys zs h₁ h₂ h₃ = (
        ground (arith, n.l1, n.l2, n.l3, ap (count q) h₁, count-cons q x xs),
        split (λ h.
            ground (arith, n.l1, n.l2, n.l3, v.in_l1 x, ap (count x) h₁, count-cons_self x xs)),
      )
      pick [] (y ∷ ys) zs h₁ h₂ h₃ = (
        ground (arith, n.l1, n.l2, n.l3, ap (count q) h₂, count-cons q y ys),
        split (λ h. ground (
          arith,
          n.l1,
          n.l2,
          n.l3,
          v.in_l2 y,
          ap (count y) h₂,
          count-cons_self y ys,
          ap (count q) h₁,
          count-nil q,
          v.in_l2 q,
          v.in_l3 q,
        )),
      )
      pick [] [] (z ∷ zs) h₁ h₂ h₃ = (
        ground (arith, n.l1, n.l2, n.l3, ap (count q) h₃, count-cons q z zs),
        split (λ h. ground (
          arith,
          n.l1,
          n.l2,
          n.l3,
          v.in_l3 z,
          ap (count z) h₃,
          count-cons_self z zs,
          ap (count q) h₁,
          ap (count q) h₂,
          count-nil q,
          v.in_l3 q,
        )),
      )
      pick [] [] [] h₁ h₂ h₃ = absurd (ground (arith, n.l1, n.l2, n.l3))

  -- If the counts of the queues are right, each queued thread is in the queue of its level, and
  -- `ShouldPreempt` says no, then no queued thread is of a higher level than the running one.
  pub should_preempt-highest :
      (k : Kernel f.D) (q : ℕ)
      → IsCounted k
      → InLevels k
      → should_preempt f k ≡ some false
      → 0 < count_queued k q
      → rank (get_level f k k.current_thread) ≤ rank (get_level f k q)
  unfolding should_preempt LinkedList.is_empty
  should_preempt-highest k q n v e h =
      ground (arith, n.l1, v.in_l1 q, v.in_l2 q, v.in_l3 q, count-no_items q k.l1.items)
