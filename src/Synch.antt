-- ===== src/Synch.antt =====
-- MP3 code/threads/synch.cc and synch.h: Semaphore and Lock. A thread is a number; a step under disabled
-- interrupts is one definition, and `none` is a failed ASSERT.
pub mod Locking
pub mod Rounds
pub mod Exclusion
pub mod Wakeups
pub mod Examples
use nthu_operating_system_er.Base.{
  ℕ, ◌+◌, ◌-◌, Bool, true, false, not, Option, none, some, ◌==◌, if◌then◌else◌, ◌>>=◌, ◌>>◌, assert,
}
use nthu_operating_system_er.LinkedList
use nthu_operating_system_er.LinkedList.{LinkedList}

pub record Semaphore : Type 0 where
  pub value : ℕ
  pub queue : LinkedList

unfoldable pub new_semaphore : ℕ → Semaphore
new_semaphore initial_value = record { value = initial_value; queue = LinkedList.empty }

-- One test of the loop of P by a thread: it goes to sleep in the queue (false), or takes one off the
-- value and returns (true).
unfoldable pub p_round : ℕ → Semaphore → Option (Bool × Semaphore)
p_round thread s =
    if s.value == 0
    then (LinkedList.append s.queue thread >>= λ q. some (false, record s { queue = q }))
    else some (true, record s { value = s.value - 1 })

-- V; the thread is the one that goes to ReadyToRun.
unfoldable pub v : Semaphore → Option (Option ℕ × Semaphore)
v s =
    if not (LinkedList.is_empty s.queue)
    then (LinkedList.remove_front s.queue >>= λ r.
        some (some r.0, record { value = s.value + 1; queue = r.1 }))
    else some (none, record s { value = s.value + 1 })

-- A NULL lockHolder is `none`.
pub record Lock : Type 0 where
  pub semaphore : Semaphore
  pub lock_holder : Option ℕ

unfoldable pub new_lock : Lock
unfolding new_semaphore
new_lock = record { semaphore = new_semaphore 1; lock_holder = none }

abbrev pub holds : Option ℕ → ℕ → Bool
holds none thread = false
holds (some holder) thread = holder == thread

-- Lock::IsHeldByCurrentThread
abbrev pub is_held_by : ℕ → Lock → Bool
is_held_by thread l = holds l.lock_holder thread

-- The end of Acquire, after P
unfoldable pub own : ℕ → Lock → Lock
own thread l = record l { lock_holder = some thread }

-- Release up to V
unfoldable pub let_go : ℕ → Lock → Option Lock
let_go thread l = assert (is_held_by thread l) >> some (record l { lock_holder = none })
