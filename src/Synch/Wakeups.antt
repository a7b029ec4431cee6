-- ===== src/Synch/Wakeups.antt =====
-- No wakeup of the lock is lost.
use nthu_operating_system_er.Base.{
  ℕ, ◌-◌, ◌<◌, ◌≡◌, refl, ◌∙◌, ap, true, false, List, [], ◌∷◌, Option, some, arith, length, count,
  ◌==◌, Bool-cases, inl, inr, ◌⊎◌, count-cons_self,
}
use nthu_operating_system_er.Synch.{Semaphore, p_round, v}
use nthu_operating_system_er.Synch.Rounds.{p_round-cases, v_lem}
use nthu_operating_system_er.Synch.Locking.{System, woken, Reach}
use nthu_operating_system_er.Synch.Exclusion.{IsLocking, inside, alone, Reach-IsLocking}

-- A thread can pass.
abbrev pub CanPass : System → Type 0
CanPass s =
    (t : ℕ) × (rest : List ℕ) × (sem : Semaphore) × (s.trying ≡ t ∷ rest)
    × (p_round t s.lock.semaphore ≡ some (true, sem))

-- V makes a thread ready that sleeps.
abbrev pub CanWake : System → Type 0
CanWake s =
    (t : ℕ) × (sem : Semaphore) × (v s.lock.semaphore ≡ some (some t, sem))
    × (0 < count t s.lock.semaphore.queue.items)

front_of : (ts : List ℕ) → 0 < length ts → (t : ℕ) × (rest : List ℕ) × (ts ≡ t ∷ rest)
front_of [] h = absurd (omega arith)
front_of (t ∷ ts) h = (t, ts, refl)

front-passes :
    (s : System) → IsLocking s → s.lock.semaphore.value ≡ 1 → 0 < length s.trying → CanPass s
front-passes s h one waits =
    let (t, rest, here) = front_of s.trying waits in
    (
      t,
      rest,
      record s.lock.semaphore { value = s.lock.semaphore.value - 1 },
      here,
      p_round-cases t s.lock.semaphore h.counted (alone s t [] rest h here)
          ∙ (let nz : (s.lock.semaphore.value == 0) ≡ false = ground (arith, one) in rw nz),
    )

sleeper-wakes : (s : System) → IsLocking s → 0 < length s.lock.semaphore.queue.items → CanWake s
sleeper-wakes s h waits =
    let (ready, sem, run, posted) = v_lem s.lock.semaphore h.counted in
    let (t, e) = posted.wakes waits in
    (
      t,
      sem,
      run ∙ ap (λ (r : Option ℕ). some (r, sem)) e,
      omega (
        arith,
        ap (count t) posted.items,
        ap (λ (r : Option ℕ). count t (woken r sem.queue.items)) e,
        count-cons_self t sem.queue.items,
      ),
    )

-- In every run of threads that acquire and release a lock, if a thread sleeps in the queue, then either
-- one thread is inside, and its V makes a thread ready that sleeps, or none is, a thread is about to test
-- the value, and its P passes.
pub Reach-progress :
    {s : System}
    → Reach s
    → 0 < length s.lock.semaphore.queue.items
    → ((inside s ≡ 1) × CanWake s) ⊎ ((inside s ≡ 0) × CanPass s)
Reach-progress {s} r waits =
    let h = Reach-IsLocking r in
    elim (Bool-cases (inside s == 0)) [
      | inl free ↦
          let z : inside s ≡ 0 = ground (arith, free) in
          let one : s.lock.semaphore.value ≡ 1 = omega (arith, h.one, z) in
          inr (z, front-passes s h one (omega (arith, one, h.awake waits)))
      | inr taken ↦
          let nz : inside s ≡ 1 = ground (arith, taken, h.one) in inl (nz, sleeper-wakes s h waits)
    ]
