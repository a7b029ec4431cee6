-- ===== src/Synch/Locking.antt =====
-- Threads that acquire and release one lock, step by step.
use nthu_operating_system_er.Base.{
  ℕ, ◌+◌, ◌≡◌, true, false, List, [], ◌∷◌, ◌++◌, Option, none, some, count, ◌==◌, if◌then◌else◌,
}
use nthu_operating_system_er.Synch.{Semaphore, Lock, p_round, v, own, let_go, new_lock}

-- The threads that are about to test the value in P, that have passed P, and that are about to call V.
-- The threads that sleep are in the semaphore's queue, and the owner is the lock's holder.
pub record System : Type 0 where
  pub lock : Lock
  pub trying : List ℕ
  pub passed : List ℕ
  pub releasing : List ℕ

abbrev pub with_semaphore : Semaphore → Lock → Lock
with_semaphore s l = record l { semaphore = s }

-- The thread that V makes ready tests the value again.
abbrev pub woken : Option ℕ → List ℕ → List ℕ
woken none ts = ts
woken (some t) ts = t ∷ ts

abbrev pub is_holder : ℕ → Option ℕ → ℕ
is_holder a none = 0
is_holder a (some h) = if a == h then 1 else 0

-- How often a thread occurs in the system.
abbrev pub places : ℕ → System → ℕ
places a s =
    count a s.trying
    + count a s.lock.semaphore.queue.items
    + count a s.passed
    + count a s.releasing
    + is_holder a s.lock.lock_holder

pub data Step (s : System) : System → Type 0 where
  arrives : (t : ℕ) → places t s ≡ 0 → Step s (record s { trying = t ∷ s.trying })
  sleeps :
      (t : ℕ) (before after : List ℕ) (sem : Semaphore)
      → s.trying ≡ before ++ t ∷ after
      → p_round t s.lock.semaphore ≡ some (false, sem)
      → Step s (record s { lock = with_semaphore sem s.lock; trying = before ++ after })
  passes :
      (t : ℕ) (before after : List ℕ) (sem : Semaphore)
      → s.trying ≡ before ++ t ∷ after
      → p_round t s.lock.semaphore ≡ some (true, sem)
      → Step s (record s {
        lock = with_semaphore sem s.lock;
        trying = before ++ after;
        passed = t ∷ s.passed;
      })
  owns :
      (t : ℕ) (before after : List ℕ)
      → s.passed ≡ before ++ t ∷ after
      → Step s (record s { lock = own t s.lock; passed = before ++ after })
  lets_go :
      (t : ℕ) (lock' : Lock)
      → let_go t s.lock ≡ some lock'
      → Step s (record s { lock = lock'; releasing = t ∷ s.releasing })
  posts :
      (t : ℕ) (before after : List ℕ) (ready : Option ℕ) (sem : Semaphore)
      → s.releasing ≡ before ++ t ∷ after
      → v s.lock.semaphore ≡ some (ready, sem)
      → Step s (record s {
        lock = with_semaphore sem s.lock;
        trying = woken ready s.trying;
        releasing = before ++ after;
      })

pub data Reach : System → Type 0 where
  start : Reach (record { lock = new_lock; trying = []; passed = []; releasing = [] })
  next : {s s' : System} → Reach s → Step s s' → Reach s'
