-- ===== src/Scheduler/Thread/Aging.antt =====
-- Aging of one thread.
use native.Mathlib.Nat.{le_refl}
use nthu_operating_system_er.Base.{
  ℕ, ◌+◌, ◌-◌, ◌*◌, ◌/◌, ◌%◌, ◌≤◌, ◌<◌, ◌≡◌, refl, some, arith, ltb, if◌then◌else◌, ◌==◌,
  Bool-cases, inl, inr, ◌⊎◌,
}
use nthu_operating_system_er.Scheduler.Thread.{Thread, ready, aging_tick, aging, set_priority}

-- What `aging` makes of a ready thread: for each full 1500 ticks that it has waited its priority
-- grows by 10, up to 149; the rest of the wait is kept, and all else is as it was.
pub record Aged {D : Type 0} (ticks : ℕ) (t t' : Thread D) : Type 0 where
  pub grows : t.priority ≤ t'.priority
  pub bounded : t'.priority ≤ 149
  pub amount :
      (t.priority + 10 * ((ticks - t.tick_cache) / aging_tick) ≤ 149
        × (t'.priority ≡ t.priority + 10 * ((ticks - t.tick_cache) / aging_tick)))
      ⊎ (149 < t.priority + 10 * ((ticks - t.tick_cache) / aging_tick) × (t'.priority ≡ 149))
  pub waited : ticks - t'.tick_cache ≡ (ticks - t.tick_cache) % aging_tick
  pub same_status : t'.status ≡ t.status
  pub same_init : t'.init_priority ≡ t.init_priority
  pub same_remain : t'.remain_burst_time ≡ t.remain_burst_time
  pub same_current : t'.current_burst_time ≡ t.current_burst_time

module _ {D : Type 0} (ticks : ℕ) (t : Thread D) where
  -- Aging of a ready thread with a priority of at most 149 does not abort: for each full 1500 ticks of
  -- its wait the priority grows by 10, up to 149; the rest of the wait is kept, and the status, the
  -- first priority and the remaining and current burst times are as they were.
  pub aging-Aged :
      t.status ≡ ready
      → t.priority ≤ 149
      → (t' : Thread D) × (aging ticks t ≡ some t') × Aged ticks t t'
  unfolding aging set_priority
  aging-Aged h p = elim (Bool-cases ((ticks - t.tick_cache) / aging_tick == 0)) [
    | inl young ↦ (
      t,
      ground arith,
      record {
        grows = le_refl t.priority;
        bounded = p;
        amount = inl (ground arith, ground arith);
        waited = ground arith;
        same_status = refl;
        same_init = refl;
        same_remain = refl;
        same_current = refl;
      },
    )
    | inr old ↦
        let age = (ticks - t.tick_cache) / aging_tick in
        let t' : Thread D = record t {
          tick_cache = t.tick_cache + aging_tick * age;
          priority = if ltb (t.priority + 10 * age) 149 then t.priority + 10 * age else 149;
        } in
        (
          t',
          ground arith,
          record {
            grows = ground arith;
            bounded = ground arith;
            amount = elim (Bool-cases (ltb 149 (t.priority + 10 * age))) [
              | inl much ↦ inr (ground arith, ground arith)
              | inr little ↦ inl (ground arith, ground arith)
            ];
            waited = omega arith;
            same_status = refl;
            same_init = refl;
            same_remain = refl;
            same_current = refl;
          },
        )
  ]
