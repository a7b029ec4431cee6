-- ===== src/Scheduler/Queues.antt =====
-- Scheduler and Scheduler::SystemQueue, with the parts of the kernel that they use. A thread pointer
-- is a number, and `threads` is what the pointers point to. `none` is a failed ASSERT.
pub mod Levels
pub mod Ready
pub mod Wake
pub mod Next
use nthu_operating_system_er.Base.{
  ℕ, ◌+◌, ◌≡◌, Bool, true, false, ◌&&◌, ◌||◌, not, List, [], ◌∷◌, Option, none, some, ℤ, pos, ltb,
  leb, ltb_ℤ, if◌then◌else◌, ◌==◌, ◌>>=◌, ◌>>◌, assert,
}
use nthu_operating_system_er.LinkedList
use nthu_operating_system_er.LinkedList.{LinkedList}
use nthu_operating_system_er.Scheduler.Thread.{
  Double, Thread, ThreadStatus, ready, running, cmp_remain_time, cmp_priority, aging, set_status,
}

pub data Level : Type 0 where
  lv1 lv2 lv3 : Level

pub record Kernel (D : Type 0) : Type 0 where
  pub total_ticks : ℕ
  pub interrupts_off : Bool
  pub threads : ℕ → Thread D
  pub current_thread : ℕ
  pub l1 : LinkedList
  pub l2 : LinkedList
  pub l3 : LinkedList
  pub to_be_destroyed : Option ℕ

-- A write through a thread pointer.
unfoldable pub update : {A : Type 0} → (ℕ → A) → ℕ → A → ℕ → A
update threads p t q = if p == q then t else threads q

abbrev pub level_of : ℕ → Level
level_of p = if ltb p 50 then lv3 else if ltb p 100 then lv2 else lv1

-- List::Front; `none` is a null pointer.
abbrev pub front : List ℕ → Option ℕ
front [] = none
front (p ∷ ps) = some p

module _ (f : Double) where
  -- SystemQueue::getLevel
  abbrev pub get_level : Kernel f.D → ℕ → Level
  get_level k p = level_of (k.threads p).priority

  abbrev pub compare_remain_time : Kernel f.D → LinkedList.Compare
  compare_remain_time k p q = cmp_remain_time f k.total_ticks (k.threads p) (k.threads q)

  abbrev pub compare_priority : Kernel f.D → LinkedList.Compare
  compare_priority k p q = cmp_priority f (k.threads p) (k.threads q)

  -- SystemQueue::Append, once the level is known
  unfoldable pub append_at : Level → Kernel f.D → ℕ → Option (Kernel f.D)
  append_at lv1 k p =
      LinkedList.insert (compare_remain_time k) k.l1 p >>= λ l. some (record k { l1 = l })
  append_at lv2 k p =
      LinkedList.insert (compare_priority k) k.l2 p >>= λ l. some (record k { l2 = l })
  append_at lv3 k p = LinkedList.append k.l3 p >>= λ l. some (record k { l3 = l })

  unfoldable pub append : Kernel f.D → ℕ → Option (Kernel f.D)
  unfolding append_at
  append k p = append_at (get_level k p) k p

  unfoldable pub is_empty : Kernel f.D → Bool
  is_empty k = LinkedList.is_empty k.l1 && LinkedList.is_empty k.l2 && LinkedList.is_empty k.l3

  -- SystemQueue::RemoveFront
  unfoldable pub remove_front : Kernel f.D → Option (ℕ × Kernel f.D)
  unfolding is_empty
  remove_front k = do
    assert (not (is_empty k))
    if not (LinkedList.is_empty k.l1)
        then (LinkedList.remove_front k.l1 >>= λ r. some (r.0, record k { l1 = r.1 }))
        else if not (LinkedList.is_empty k.l2)
        then (LinkedList.remove_front k.l2 >>= λ r. some (r.0, record k { l2 = r.1 }))
        else (LinkedList.remove_front k.l3 >>= λ r. some (r.0, record k { l3 = r.1 }))

  -- Thread::Aging through a pointer
  unfoldable pub age_thread : Kernel f.D → ℕ → Option (Kernel f.D)
  age_thread k p = do
    t ← aging k.total_ticks (k.threads p)
    some (record k { threads = update k.threads p t })

  -- SystemQueue::Apply(Thread::Aging)
  unfoldable pub age_all : Kernel f.D → Option (Kernel f.D)
  unfolding age_thread
  age_all k = do
    k₁ ← LinkedList.apply age_thread k k.l1.items
    k₂ ← LinkedList.apply age_thread k₁ k.l2.items
    LinkedList.apply age_thread k₂ k.l3.items

  abbrev pub is_lv3 : Level → Bool
  is_lv3 lv3 = true
  is_lv3 _ = false

  abbrev pub is_lv2 : Level → Bool
  is_lv2 lv2 = true
  is_lv2 _ = false

  -- The loop over L3. The iterator is past an element before the element is removed, and what is
  -- appended goes to another list, so the loop meets the elements that were there at its start.
  unfoldable pub promote_l3 : Kernel f.D → ℕ → Option (Kernel f.D)
  unfolding append
  promote_l3 k p =
      if is_lv3 (get_level k p)
      then some k
      else (do l ← LinkedList.remove k.l3 p; append (record k { l3 = l }) p)

  unfoldable pub promote_l2 : Kernel f.D → ℕ → Option (Kernel f.D)
  unfolding append
  promote_l2 k p =
      if is_lv2 (get_level k p)
      then some k
      else (do l ← LinkedList.remove k.l2 p; append (record k { l2 = l }) p)

  -- SystemQueue::Aging
  unfoldable pub aging_queues : Kernel f.D → Option (Kernel f.D)
  unfolding age_all promote_l3 promote_l2
  aging_queues k = do
    aged ← age_all k
    k₁ ← LinkedList.apply promote_l3 aged aged.l3.items
    LinkedList.apply promote_l2 k₁ k₁.l2.items

  -- SystemQueue::ShouldPreempt
  unfoldable pub should_preempt : Kernel f.D → Option Bool
  should_preempt k =
      if is_lv3 (get_level k k.current_thread)
      then some true
      else if LinkedList.is_empty k.l1
      then some false
      else if is_lv2 (get_level k k.current_thread)
      then some true
      else (do
        head ← front k.l1.items
        c ← compare_remain_time k k.current_thread head
        some (ltb_ℤ (pos 0) c))

  -- thread->setStatus(st) through a pointer
  unfoldable pub set_status_of : Kernel f.D → ℕ → ThreadStatus → Option (Kernel f.D)
  set_status_of k p st = do
    t ← set_status f k.total_ticks (k.threads p) st
    some (record k { threads = update k.threads p t })

  -- Scheduler::ReadyToRun
  unfoldable pub ready_to_run : Kernel f.D → ℕ → Option (Kernel f.D)
  unfolding set_status_of append
  ready_to_run k p = do assert k.interrupts_off; k' ← set_status_of k p ready; append k' p

  -- Scheduler::FindNextToRun; the inner `none` is NULL.
  unfoldable pub find_next_to_run : Kernel f.D → Option (Option ℕ × Kernel f.D)
  unfolding remove_front is_empty
  find_next_to_run k = do
    assert k.interrupts_off
    if is_empty k then some (none, k) else (remove_front k >>= λ r. some (some r.0, r.1))

  abbrev pub is_null : Option ℕ → Bool
  is_null none = true
  is_null (some p) = false

  -- Scheduler::Run up to SWITCH; the registers and the stacks are the machine's.
  unfoldable pub run : Kernel f.D → ℕ → Bool → Option (Kernel f.D)
  unfolding set_status_of
  run k next finishing = do
    assert k.interrupts_off
    assert (not finishing || is_null k.to_be_destroyed)
    let destroyed : Option ℕ = if finishing then some k.current_thread else k.to_be_destroyed
    set_status_of (record k { current_thread = next; to_be_destroyed = destroyed }) next running

  -- Thread::Yield of the current thread, with interrupts off and back as they were.
  unfoldable pub yield : Kernel f.D → Option (Kernel f.D)
  unfolding find_next_to_run ready_to_run run
  yield k = do
    (next, k₁) ← find_next_to_run (record k { interrupts_off = true })
    k₂ ← elim next [
      | none ↦ some k₁
      | some p ↦ ready_to_run k₁ k₁.current_thread >>= λ k'. run k' p false
    ]
    some (record k₂ { interrupts_off = k.interrupts_off })
