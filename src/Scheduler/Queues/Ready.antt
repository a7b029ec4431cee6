-- ===== src/Scheduler/Queues/Ready.antt =====
-- SystemQueue::Append and Scheduler::ReadyToRun: a thread gets into the queue of its level.
use nthu_operating_system_er.Base.{
  ℕ, ◌+◌, ◌≤◌, ◌<◌, ◌≡◌, refl, sym, ◌∙◌, [], ◌∷◌, ◌++◌, some, arith, ℤ, ◌>>=◌, length, count,
  count-contains, contains-absent, count-cons_ne, count-nil, ℕ_discrete, sub_ℕ, subst,
}
use nthu_operating_system_er.LinkedList
use nthu_operating_system_er.LinkedList.{LinkedList}
use nthu_operating_system_er.LinkedList.Contents.{append_lem, append-Grows, insert-Grows}
use nthu_operating_system_er.LinkedList.Order.{insert-total}
use nthu_operating_system_er.Scheduler.Thread.{
  Double, Thread, ready, comparable, cmp_remain_time, cmp_priority, get_remain_time,
}
use nthu_operating_system_er.Scheduler.Queues.{
  Kernel, Level, lv1, lv2, lv3, get_level, compare_remain_time, compare_priority, append_at, append,
}
use nthu_operating_system_er.Scheduler.Queues.Levels.{count_queued, IsCounted}

module _ (f : Double) where
  -- No thread is queued twice, the counts of the lists are right, and each queued thread is ready
  -- with a valid priority.
  pub record IsWellQueued (k : Kernel f.D) : Type 0 where
    pub once : (p : ℕ) → count_queued k p ≤ 1
    pub counted : IsCounted k
    pub all_ready : (p : ℕ) → 0 < count_queued k p → (k.threads p).status ≡ ready
    pub valid : (p : ℕ) → 0 < count_queued k p → (k.threads p).priority ≤ 149

  abbrev pub in_level : Level → Level → ℕ → ℕ
  in_level lv1 lv1 n = n
  in_level lv2 lv2 n = n
  in_level lv3 lv3 n = n
  in_level _ _ n = 0

  -- A thread has been put into the queue of a level, and nothing else has changed.
  pub record Placed (level : Level) (k : Kernel f.D) (p : ℕ) (k' : Kernel f.D) : Type 0 where
    pub l1_count :
        (q : ℕ) → count q k'.l1.items ≡ in_level level lv1 (count q (p ∷ [])) + count q k.l1.items
    pub l2_count :
        (q : ℕ) → count q k'.l2.items ≡ in_level level lv2 (count q (p ∷ [])) + count q k.l2.items
    pub l3_count :
        (q : ℕ) → count q k'.l3.items ≡ in_level level lv3 (count q (p ∷ [])) + count q k.l3.items
    pub same_threads : k'.threads ≡ k.threads
    pub same_ticks : k'.total_ticks ≡ k.total_ticks
    pub same_current : k'.current_thread ≡ k.current_thread
    pub counted_l1 : length k'.l1.items + k.l1.num_in_list ≡ length k.l1.items + k'.l1.num_in_list
    pub counted_l2 : length k'.l2.items + k.l2.num_in_list ≡ length k.l2.items + k'.l2.num_in_list
    pub counted_l3 : length k'.l3.items + k.l3.num_in_list ≡ length k.l3.items + k'.l3.num_in_list

  cmp_remain_time-total :
      (ticks : ℕ) (a b : Thread f.D)
      → a.status ≡ ready
      → b.status ≡ ready
      → (c : ℤ) × (cmp_remain_time f ticks a b ≡ some c)
  unfolding cmp_remain_time
  cmp_remain_time-total ticks a b ha hb = (
    f.to_int (f.subtract (get_remain_time f ticks a) (get_remain_time f ticks b)),
    rw (ha, hb, comparable),
  )

  cmp_priority-total :
      (a b : Thread f.D)
      → a.status ≡ ready
      → b.status ≡ ready
      → (c : ℤ) × (cmp_priority f a b ≡ some c)
  unfolding cmp_priority
  cmp_priority-total a b ha hb = (sub_ℕ b.priority a.priority, rw (ha, hb, comparable))

  module _ (k : Kernel f.D) (p : ℕ) (absent : count_queued k p ≡ 0)
      (p_ready : (k.threads p).status ≡ ready) (n : IsCounted k)
      (others : (q : ℕ) → 0 < count_queued k q → (k.threads q).status ≡ ready) where
    append_at-Placed :
        (level : Level)
        → (k' : Kernel f.D) × (append_at f level k p ≡ some k') × Placed level k p k'
    unfolding append_at
    append_at-Placed lv1 =
        let (l, run) =
          insert-total (compare_remain_time f k) k.l1 p n.l1
            (contains-absent p k.l1.items (omega arith))
            (λ x m.
              cmp_remain_time-total k.total_ticks (k.threads p) (k.threads x) p_ready
                (others x (omega (arith, count-contains x k.l1.items m)))) in
        let g = insert-Grows (compare_remain_time f k) k.l1 p n.l1 run in
        (
          record k { l1 = l },
          rw (run, ◌>>=◌),
          record {
            l1_count = g.more;
            l2_count = λ q. omega arith;
            l3_count = λ q. omega arith;
            same_threads = refl;
            same_ticks = refl;
            same_current = refl;
            counted_l1 = omega (arith, g.counts, g.longer);
            counted_l2 = refl;
            counted_l3 = refl;
          },
        )
    append_at-Placed lv2 =
        let (l, run) =
          insert-total (compare_priority f k) k.l2 p n.l2
            (contains-absent p k.l2.items (omega arith))
            (λ x m.
              cmp_priority-total (k.threads p) (k.threads x) p_ready
                (others x (omega (arith, count-contains x k.l2.items m)))) in
        let g = insert-Grows (compare_priority f k) k.l2 p n.l2 run in
        (
          record k { l2 = l },
          rw (run, ◌>>=◌),
          record {
            l1_count = λ q. omega arith;
            l2_count = g.more;
            l3_count = λ q. omega arith;
            same_threads = refl;
            same_ticks = refl;
            same_current = refl;
            counted_l1 = refl;
            counted_l2 = omega (arith, g.counts, g.longer);
            counted_l3 = refl;
          },
        )
    append_at-Placed lv3 =
        let l : LinkedList = record {
          items = k.l3.items ++ p ∷ [];
          num_in_list = k.l3.num_in_list + 1;
        } in
        let run : LinkedList.append k.l3 p ≡ some l =
          append_lem k.l3 p n.l3 ∙ rw (contains-absent p k.l3.items (omega arith)) in
        let g = append-Grows k.l3 p n.l3 run in
        (
          record k { l3 = l },
          rw (run, ◌>>=◌),
          record {
            l1_count = λ q. omega arith;
            l2_count = λ q. omega arith;
            l3_count = g.more;
            same_threads = refl;
            same_ticks = refl;
            same_current = refl;
            counted_l1 = refl;
            counted_l2 = refl;
            counted_l3 = omega (arith, g.counts, g.longer);
          },
        )

    pub append-Placed :
        (k' : Kernel f.D) × (append f k p ≡ some k') × Placed (get_level f k p) k p k'
    unfolding append
    append-Placed = append_at-Placed (get_level f k p)

  in_level-total :
      (level : Level) (n : ℕ)
      → in_level level lv1 n + in_level level lv2 n + in_level level lv3 n ≡ n
  in_level-total lv1 n = omega arith
  in_level-total lv2 n = omega arith
  in_level-total lv3 n = omega arith

  pub Placed-count_queued :
      {level : Level} {k k' : Kernel f.D} {p : ℕ}
      → Placed level k p k'
      → (q : ℕ) → count_queued k' q ≡ count q (p ∷ []) + count_queued k q
  Placed-count_queued {level} {p = p} r q =
      omega
        (arith, r.l1_count q, r.l2_count q, r.l3_count q, in_level-total level (count q (p ∷ [])))

  pub count-single : (p q : ℕ) → 0 < count q (p ∷ []) → q ≡ p
  unfolding count
  count-single p q h = ground arith

  count-single_le : (p q : ℕ) → count q (p ∷ []) ≤ 1
  unfolding count
  count-single_le p q = ground arith

  pub Placed-IsWellQueued :
      {level : Level} {k k' : Kernel f.D} (p : ℕ)
      → Placed level k p k'
      → count_queued k p ≡ 0
      → (k.threads p).status ≡ ready
      → (k.threads p).priority ≤ 149
      → IsWellQueued k
      → IsWellQueued k'
  Placed-IsWellQueued {level} {k} {k'} p r absent p_ready p_valid w = record {
    once = λ q. elim (ℕ_discrete q p) [
      | yes same ↦
          subst (λ (x : ℕ). count_queued k' x ≤ 1) (sym same)
            (omega (arith, Placed-count_queued r p, count-single_le p p))
      | no apart ↦
          omega (arith, Placed-count_queued r q, count-cons_ne q p [] apart, count-nil q, w.once q)
    ];
    counted = record {
      l1 = omega (arith, r.counted_l1, w.counted.l1);
      l2 = omega (arith, r.counted_l2, w.counted.l2);
      l3 = omega (arith, r.counted_l3, w.counted.l3);
    };
    all_ready = λ q h. rw r.same_threads (elim (ℕ_discrete q p) [
      | yes same ↦ subst (λ (x : ℕ). (k.threads x).status ≡ ready) (sym same) p_ready
      | no apart ↦
          w.all_ready q
            (omega (arith, Placed-count_queued r q, count-cons_ne q p [] apart, count-nil q, h))
    ]);
    valid = λ q h. rw r.same_threads (elim (ℕ_discrete q p) [
      | yes same ↦ subst (λ (x : ℕ). (k.threads x).priority ≤ 149) (sym same) p_valid
      | no apart ↦
          w.valid q
            (omega (arith, Placed-count_queued r q, count-cons_ne q p [] apart, count-nil q, h))
    ]);
  }
