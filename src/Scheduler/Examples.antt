-- ===== src/Scheduler/Examples.antt =====
-- Three threads: one queued in L1, one queued in L2, and a third that is running, or blocked. Burst
-- times are whole numbers here.
use nthu_operating_system_er.Base.{
  ℕ, ◌+◌, ◌/◌, ◌≤◌, ◌<◌, ◌≡◌, refl, Bool, true, false, [], ◌∷◌, none, some, arith, ℤ, pos, pos_part,
  neg_part, sub_ℕ, ltb, ◌==◌, if◌then◌else◌, count, ◌⊎◌, inr, count-nil,
}
use nthu_operating_system_er.LinkedList
use nthu_operating_system_er.LinkedList.{LinkedList}
use nthu_operating_system_er.Scheduler.Thread.{
  Double, Thread, ThreadStatus, ready, running, blocked,
}
use nthu_operating_system_er.Scheduler.Queues.{
  Kernel, lv3, update, remove_front, should_preempt, ready_to_run, is_empty,
}
use nthu_operating_system_er.Scheduler.Queues.Levels.{count_queued, InLevels, remove_front-highest}
use nthu_operating_system_er.Scheduler.Queues.Ready.{IsWellQueued, Placed}
use nthu_operating_system_er.Scheduler.Queues.{find_next_to_run}
use nthu_operating_system_er.Scheduler.Queues.Next.{Removed, find_next_to_run-Removed}
use nthu_operating_system_er.Scheduler.Queues.Wake.{Woken, ready_to_run-Placed}

abbrev add_ℤ : ℤ → ℤ → ℤ
add_ℤ a b = sub_ℕ (pos_part a + pos_part b) (neg_part a + neg_part b)

abbrev subtract_ℤ : ℤ → ℤ → ℤ
subtract_ℤ a b = sub_ℕ (pos_part a + neg_part b) (neg_part a + pos_part b)

abbrev half_ℤ : ℤ → ℤ
half_ℤ a = sub_ℕ (pos_part a / 2) (neg_part a / 2)

abbrev is_nonzero_ℤ : ℤ → Bool
is_nonzero_ℤ a = ltb 0 (pos_part a + neg_part a)

abbrev whole_numbers : Double
whole_numbers = record {
  D = ℤ;
  zero_double = pos 0;
  of_int = pos;
  add = add_ℤ;
  subtract = subtract_ℤ;
  half = half_ℤ;
  is_nonzero = is_nonzero_ℤ;
  to_int = λ a. a;
}

abbrev thread : ThreadStatus → ℕ → Thread ℤ
thread status priority = record {
  status = status;
  priority = priority;
  init_priority = priority;
  tick_cache = 100;
  remain_burst_time = pos 40;
  current_burst_time = pos 0;
  last_burst_time = pos 0;
}

-- The threads 1 and 2 are ready, with the priorities 120 and 60; thread 3 is the given one.
abbrev threads_with : Thread ℤ → ℕ → Thread ℤ
threads_with t p = if p == 1 then thread ready 120 else if p == 2 then thread ready 60 else t

abbrev queued : LinkedList → Thread ℤ → Kernel ℤ
queued l1 t = record {
  total_ticks = 1700;
  interrupts_off = true;
  threads = threads_with t;
  current_thread = 3;
  l1 = l1;
  l2 = record { items = 2 ∷ []; num_in_list = 1 };
  l3 = LinkedList.empty;
  to_be_destroyed = none;
}

abbrev only_1 : LinkedList
only_1 = record { items = 1 ∷ []; num_in_list = 1 }

single : (p q : ℕ) → 0 < count q (p ∷ []) → q ≡ p
unfolding count
single p q h = ground arith

queued-InLevels : (t : Thread ℤ) → InLevels whole_numbers (queued only_1 t)
queued-InLevels t = record {
  in_l1 = λ p h. ground (arith, single 1 p h);
  in_l2 = λ p h. ground (arith, single 2 p h);
  in_l3 = λ p h. absurd (omega (arith, h, count-nil p));
}

level_2-InLevels : (t : Thread ℤ) → InLevels whole_numbers (queued LinkedList.empty t)
level_2-InLevels t = record {
  in_l1 = λ p h. absurd (omega (arith, h, count-nil p));
  in_l2 = λ p h. ground (arith, single 2 p h);
  in_l3 = λ p h. absurd (omega (arith, h, count-nil p));
}

queued-IsWellQueued : (t : Thread ℤ) → IsWellQueued whole_numbers (queued only_1 t)
unfolding count
queued-IsWellQueued t = record {
  once = λ p. ground arith;
  counted = record { l1 = refl; l2 = refl; l3 = refl };
  all_ready = λ p h. ground arith;
  valid = λ p h. ground arith;
}

remove_front_run :
    remove_front whole_numbers (queued only_1 (thread running 110))
    ≡ some (1, queued (record { items = []; num_in_list = 0 }) (thread running 110))
unfolding remove_front is_empty LinkedList.is_empty LinkedList.remove_front
remove_front_run = refl

remove_front-highest_example :
    (count_queued (queued only_1 (thread running 110)) 2
      ≡ count 2 (1 ∷ []) + count_queued (queued LinkedList.empty (thread running 110)) 2)
    × ((count_queued (queued only_1 (thread running 110)) 2 ≡ 0) ⊎ 1 ≤ 2)
remove_front-highest_example =
    remove_front-highest whole_numbers (queued only_1 (thread running 110))
      (queued LinkedList.empty (thread running 110)) 1 2
      (record { l1 = refl; l2 = refl; l3 = refl }) (queued-InLevels (thread running 110))
      remove_front_run

should_preempt_run :
    should_preempt whole_numbers (queued LinkedList.empty (thread running 60)) ≡ some false
unfolding should_preempt LinkedList.is_empty
should_preempt_run = refl

queued_2 : 0 < count_queued (queued LinkedList.empty (thread running 60)) 2
unfolding count
queued_2 = omega arith

absent_3 : count_queued (queued only_1 (thread blocked 30)) 3 ≡ 0
unfolding count
absent_3 = refl

ready_to_run-Placed_example :
    (t : Thread ℤ) × (k : Kernel ℤ) × (ready_to_run whole_numbers
        (queued only_1 (thread blocked 30))
        3
      ≡ some k)
    × Woken whole_numbers 1700 (thread blocked 30) t
    × Placed whole_numbers lv3
        (record (queued only_1 (thread blocked 30)) {
          threads = update (threads_with (thread blocked 30)) 3 t;
        })
        3
        k
    × IsWellQueued whole_numbers k
    × InLevels whole_numbers k
ready_to_run-Placed_example =
    ready_to_run-Placed whole_numbers (queued only_1 (thread blocked 30)) 3 refl (inr (inr refl))
      (omega arith) absent_3 (queued-IsWellQueued (thread blocked 30))
      (queued-InLevels (thread blocked 30))

find_next_to_run-Removed_example :
    ((find_next_to_run whole_numbers (queued only_1 (thread running 110))
        ≡ some (none, queued only_1 (thread running 110)))
      × ((q : ℕ) → count_queued (queued only_1 (thread running 110)) q ≡ 0))
    ⊎ ((p : ℕ) × (k' : Kernel ℤ) × (find_next_to_run whole_numbers
            (queued only_1 (thread running 110))
          ≡ some (some p, k'))
        × Removed whole_numbers (queued only_1 (thread running 110)) p k'
        × IsWellQueued whole_numbers k'
        × InLevels whole_numbers k')
find_next_to_run-Removed_example =
    find_next_to_run-Removed whole_numbers (queued only_1 (thread running 110)) refl
      (queued-IsWellQueued (thread running 110)) (queued-InLevels (thread running 110))
