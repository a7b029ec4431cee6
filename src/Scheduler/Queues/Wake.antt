-- ===== src/Scheduler/Queues/Wake.antt =====
-- Scheduler::ReadyToRun on a thread that is new, running or blocked.
use nthu_operating_system_er.Base.{
  ℕ, ◌+◌, ◌≤◌, ◌<◌, ◌≡◌, ◌≢◌, refl, ◌∙◌, ap, true, some, arith, ◌⊎◌, inl, inr, count, dec_lt, ◌-◌,
  subst, [], ◌∷◌,
}
use nthu_operating_system_er.Scheduler.Thread.{
  Double, Thread, just_created, running, ready, blocked, set_status, transfer,
}
use nthu_operating_system_er.Scheduler.Queues.{
  Kernel, Level, lv1, lv2, lv3, get_level, level_of, append, update, set_status_of, ready_to_run,
}
use nthu_operating_system_er.Scheduler.Queues.Levels.{count_queued, InLevels}
use nthu_operating_system_er.Scheduler.Queues.Ready.{
  IsWellQueued, in_level, Placed, append-Placed, Placed-IsWellQueued, count-single,
}

pub update_self : {A : Type 0} (threads : ℕ → A) (p : ℕ) (t : A) → update threads p t p ≡ t
unfolding update
update_self threads p t = ground arith

pub update_ne :
    {A : Type 0} (threads : ℕ → A) (p q : ℕ) (t : A) → p ≢ q → update threads p t q ≡ threads q
unfolding update
update_ne threads p q t h = ground arith

module _ (f : Double) where
  in_level-same :
      (level target : Level) (n : ℕ) → 0 < in_level f level target n → (level ≡ target) × (0 < n)
  in_level-same lv1 lv1 n h = (refl, h)
  in_level-same lv2 lv2 n h = (refl, h)
  in_level-same lv3 lv3 n h = (refl, h)
  in_level-same lv1 lv2 n h = elim h [ ]
  in_level-same lv1 lv3 n h = elim h [ ]
  in_level-same lv2 lv1 n h = elim h [ ]
  in_level-same lv2 lv3 n h = elim h [ ]
  in_level-same lv3 lv1 n h = elim h [ ]
  in_level-same lv3 lv2 n h = elim h [ ]

  -- A thread in a queue was in it before, or is the one that has been put there.
  placed_level :
      (k : Kernel f.D) (target : Level) (p q c c' : ℕ)
      → c' ≡ in_level f (get_level f k p) target (count q (p ∷ [])) + c
      → (0 < c → get_level f k q ≡ target)
      → 0 < c'
      → get_level f k q ≡ target
  placed_level k target p q c c' e before h = elim (dec_lt 0 c) [
    | yes old ↦ before old
    | no new ↦
        let (level, here) =
          in_level-same (get_level f k p) target (count q (p ∷ [])) (omega arith) in
        ap (get_level f k) (count-single f p q here) ∙ level
  ]

  pub Placed-InLevels :
      (k k' : Kernel f.D) (p : ℕ) → Placed f (get_level f k p) k p k' → InLevels f k → InLevels f k'
  Placed-InLevels k k' p r v = record {
    in_l1 = λ q h.
        ap (λ ts. level_of (ts q).priority) r.same_threads
        ∙ placed_level k lv1 p q _ _ (r.l1_count q) (v.in_l1 q) h;
    in_l2 = λ q h.
        ap (λ ts. level_of (ts q).priority) r.same_threads
        ∙ placed_level k lv2 p q _ _ (r.l2_count q) (v.in_l2 q) h;
    in_l3 = λ q h.
        ap (λ ts. level_of (ts q).priority) r.same_threads
        ∙ placed_level k lv3 p q _ _ (r.l3_count q) (v.in_l3 q) h;
  }

  abbrev pub Wakeable : Thread f.D → Type 0
  Wakeable t = (t.status ≡ just_created) ⊎ (t.status ≡ running) ⊎ (t.status ≡ blocked)

  -- A thread that gets ready has its first priority again and starts to wait now.
  pub record Woken (ticks : ℕ) (t t' : Thread f.D) : Type 0 where
    pub is_ready_now : t'.status ≡ ready
    pub reset : t'.priority ≡ t.init_priority
    pub waits_from : t'.tick_cache ≡ ticks
    pub same_remain : t'.remain_burst_time ≡ t.remain_burst_time

  set_status-Woken :
      (ticks : ℕ) (t : Thread f.D)
      → Wakeable t
      → (t' : Thread f.D) × (set_status f ticks t ready ≡ some t') × Woken ticks t t'
  unfolding set_status
  set_status-Woken ticks t (inl e) = (
    record t { status = ready; tick_cache = ticks; priority = t.init_priority },
    rw (e, transfer),
    record { is_ready_now = refl; reset = refl; waits_from = refl; same_remain = refl },
  )
  set_status-Woken ticks t (inr (inl e)) = (
    record t {
      status = ready;
      tick_cache = ticks;
      priority = t.init_priority;
      current_burst_time = f.add t.current_burst_time (f.of_int (ticks - t.tick_cache));
      last_burst_time = f.add t.current_burst_time (f.of_int (ticks - t.tick_cache));
    },
    rw (e, transfer),
    record { is_ready_now = refl; reset = refl; waits_from = refl; same_remain = refl },
  )
  set_status-Woken ticks t (inr (inr e)) = (
    record t { status = ready; tick_cache = ticks; priority = t.init_priority },
    rw (e, transfer),
    record { is_ready_now = refl; reset = refl; waits_from = refl; same_remain = refl },
  )

  ready_to_run-parts :
      (k k' : Kernel f.D) (p : ℕ) (t : Thread f.D)
      → k.interrupts_off ≡ true
      → set_status f k.total_ticks (k.threads p) ready ≡ some t
      → append f (record k { threads = update k.threads p t }) p ≡ some k'
      → ready_to_run f k p ≡ some k'
  unfolding ready_to_run set_status_of
  ready_to_run-parts k k' p t off run put = ground arith

  -- A thread that is new, running or blocked, and stands in no queue, can be readied when interrupts
  -- are off: `ReadyToRun` does not abort, gives the thread its first priority and puts it into the
  -- queue of that priority's level, leaves the other threads and the other places as they are, and
  -- keeps the queues well formed and every thread in the queue of its level.
  pub ready_to_run-Placed :
      (k : Kernel f.D) (p : ℕ)
      → k.interrupts_off ≡ true
      → Wakeable (k.threads p)
      → (k.threads p).init_priority ≤ 149
      → count_queued k p ≡ 0
      → IsWellQueued f k
      → InLevels f k
      → (t : Thread f.D) × (k' : Kernel f.D) × (ready_to_run f k p ≡ some k')
        × Woken k.total_ticks (k.threads p) t
        × Placed f
            (level_of (k.threads p).init_priority)
            (record k { threads = update k.threads p t })
            p
            k'
        × IsWellQueued f k'
        × InLevels f k'
  ready_to_run-Placed k p off wake bound absent w v =
      let (t, run, woken) = set_status-Woken k.total_ticks (k.threads p) wake in
      let k₁ : Kernel f.D = record k { threads = update k.threads p t } in
      let self : k₁.threads p ≡ t = update_self k.threads p t in
      let other = λ (q : ℕ) (h : 0 < count_queued k q).
        update_ne k.threads p q t
          (λ (e : p ≡ q). omega (arith, h, absent, ap (count_queued k) e)) in
      let p_ready : (k₁.threads p).status ≡ ready =
        ap (λ (x : Thread f.D). x.status) self ∙ woken.is_ready_now in
      let p_first : (k₁.threads p).priority ≡ (k.threads p).init_priority =
        ap (λ (x : Thread f.D). x.priority) self ∙ woken.reset in
      let w₁ : IsWellQueued f k₁ = record {
        once = w.once;
        counted = record { l1 = w.counted.l1; l2 = w.counted.l2; l3 = w.counted.l3 };
        all_ready = λ q h. ap (λ (x : Thread f.D). x.status) (other q h) ∙ w.all_ready q h;
        valid = λ q h. omega (arith, ap (λ (x : Thread f.D). x.priority) (other q h), w.valid q h);
      } in
      let v₁ : InLevels f k₁ = record {
        in_l1 = λ q h.
            ap (λ (x : Thread f.D). level_of x.priority) (other q (omega arith)) ∙ v.in_l1 q h;
        in_l2 = λ q h.
            ap (λ (x : Thread f.D). level_of x.priority) (other q (omega arith)) ∙ v.in_l2 q h;
        in_l3 = λ q h.
            ap (λ (x : Thread f.D). level_of x.priority) (other q (omega arith)) ∙ v.in_l3 q h;
      } in
      let (k', put, placed) = append-Placed f k₁ p absent p_ready w₁.counted w₁.all_ready in
      (
        t,
        k',
        ready_to_run-parts k k' p t off run put,
        woken,
        subst (λ (n : ℕ). Placed f (level_of n) k₁ p k') p_first placed,
        Placed-IsWellQueued f p placed absent p_ready (omega (arith, p_first, bound)) w₁,
        Placed-InLevels k₁ k' p placed v₁,
      )
