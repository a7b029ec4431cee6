-- ===== src/Synch/Examples.antt =====
-- Thread 1 holds a lock, and thread 2 sleeps.
use nthu_operating_system_er.Base.{◌+◌, ◌≡◌, refl, [], ◌∷◌, some, ◌⊎◌, arith, true, false, count}
use nthu_operating_system_er.LinkedList
use nthu_operating_system_er.Synch.{Semaphore, Lock, p_round, own, new_lock, new_semaphore}
use nthu_operating_system_er.Synch.Locking.{
  System, Reach, start, next, arrives, sleeps, passes, owns,
}
use nthu_operating_system_er.Synch.Exclusion.{inside, Reach-inside}
use nthu_operating_system_er.Synch.Wakeups.{CanPass, CanWake, Reach-progress}

abbrev taken : Semaphore
taken = record { value = 0; queue = record { items = []; num_in_list = 0 } }

abbrev slept : Semaphore
slept = record { value = 0; queue = record { items = 2 ∷ []; num_in_list = 1 } }

passes_1 : p_round 1 new_lock.semaphore ≡ some (true, taken)
unfolding p_round new_lock new_semaphore
passes_1 = refl

sleeps_2 : p_round 2 taken ≡ some (false, slept)
unfolding p_round LinkedList.append LinkedList.is_empty LinkedList.is_in_list
sleeps_2 = refl

abbrev holder : Lock
holder = record { semaphore = taken; lock_holder = some 1 }

owned : own 1 (record new_lock { semaphore = taken }) ≡ holder
unfolding own
owned = refl

abbrev asleep : System
asleep = record {
  lock = record { semaphore = slept; lock_holder = some 1 };
  trying = [];
  passed = [];
  releasing = [];
}

asleep-Reach : Reach asleep
unfolding own new_lock new_semaphore
asleep-Reach =
    next
      (next
        (next
          (next (next start (arrives 1 (unfold count in refl)))
            (passes 1 [] [] taken refl passes_1))
          (owns 1 [] [] refl))
        (arrives 2 (unfold count in refl)))
      (sleeps 2 [] [] slept refl sleeps_2)

Reach-inside_example : 0 + inside asleep ≡ 1
Reach-inside_example = Reach-inside asleep-Reach

Reach-progress_example :
    ((inside asleep ≡ 1) × CanWake asleep) ⊎ ((inside asleep ≡ 0) × CanPass asleep)
Reach-progress_example = Reach-progress asleep-Reach (omega arith)
