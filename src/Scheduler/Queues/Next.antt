-- ===== src/Scheduler/Queues/Next.antt =====
-- Scheduler::FindNextToRun: the next thread leaves the queues, which stay well formed.
use nthu_operating_system_er.Base.{
  ℕ, ◌+◌, ◌≤◌, ◌<◌, ◌≡◌, refl, ◌∙◌, ap, true, length, [], ◌∷◌, none, some, arith, count, count-cons,
  ◌⊎◌, inl, inr, dec_lt,
}
use nthu_operating_system_er.LinkedList
use nthu_operating_system_er.LinkedList.{LinkedList}
use nthu_operating_system_er.LinkedList.Contents.{remove_front_lem}
use nthu_operating_system_er.Scheduler.Thread.{Double}
use nthu_operating_system_er.Scheduler.Queues.{
  Kernel, level_of, is_empty, remove_front, find_next_to_run,
}
use nthu_operating_system_er.Scheduler.Queues.Levels.{
  count_queued, InLevels, IsCounted, count-no_items,
}
use nthu_operating_system_er.Scheduler.Queues.Ready.{IsWellQueued}

module _ (f : Double) where
  -- A thread has left the queues, and nothing else has changed.
  pub record Removed (k : Kernel f.D) (p : ℕ) (k' : Kernel f.D) : Type 0 where
    pub same_threads : k'.threads ≡ k.threads
    pub fewer : (q : ℕ) → count_queued k q ≡ count q (p ∷ []) + count_queued k' q
    pub l1_fewer : (q : ℕ) → count q k'.l1.items ≤ count q k.l1.items
    pub l2_fewer : (q : ℕ) → count q k'.l2.items ≤ count q k.l2.items
    pub l3_fewer : (q : ℕ) → count q k'.l3.items ≤ count q k.l3.items
    pub counted : IsCounted k'

  Removed-IsWellQueued :
      {k k' : Kernel f.D} (p : ℕ) → Removed k p k' → IsWellQueued f k → IsWellQueued f k'
  Removed-IsWellQueued {k} {k'} p r w = record {
    once = λ q. omega (arith, r.fewer q, w.once q);
    counted = r.counted;
    all_ready = λ q h. rw r.same_threads (w.all_ready q (omega (arith, r.fewer q, h)));
    valid = λ q h. rw r.same_threads (w.valid q (omega (arith, r.fewer q, h)));
  }

  Removed-InLevels : {k k' : Kernel f.D} (p : ℕ) → Removed k p k' → InLevels f k → InLevels f k'
  Removed-InLevels {k} {k'} p r v = record {
    in_l1 = λ q h.
        ap (λ ts. level_of (ts q).priority) r.same_threads
        ∙ v.in_l1 q (omega (arith, r.l1_fewer q, h));
    in_l2 = λ q h.
        ap (λ ts. level_of (ts q).priority) r.same_threads
        ∙ v.in_l2 q (omega (arith, r.l2_fewer q, h));
    in_l3 = λ q h.
        ap (λ ts. level_of (ts q).priority) r.same_threads
        ∙ v.in_l3 q (omega (arith, r.l3_fewer q, h));
  }

  module _ (k : Kernel f.D) (p : ℕ) (l : LinkedList) where
    from_l1 :
        0 < k.l1.num_in_list
        → LinkedList.remove_front k.l1 ≡ some (p, l)
        → remove_front f k ≡ some (p, record k { l1 = l })
    unfolding remove_front is_empty LinkedList.is_empty
    from_l1 h e = ground arith

    from_l2 :
        k.l1.num_in_list ≡ 0
        → 0 < k.l2.num_in_list
        → LinkedList.remove_front k.l2 ≡ some (p, l)
        → remove_front f k ≡ some (p, record k { l2 = l })
    unfolding remove_front is_empty LinkedList.is_empty
    from_l2 z h e = ground arith

    from_l3 :
        k.l1.num_in_list ≡ 0
        → k.l2.num_in_list ≡ 0
        → 0 < k.l3.num_in_list
        → LinkedList.remove_front k.l3 ≡ some (p, l)
        → remove_front f k ≡ some (p, record k { l3 = l })
    unfolding remove_front is_empty LinkedList.is_empty
    from_l3 z₁ z₂ h e = ground arith

  empty_queues :
      (k : Kernel f.D)
      → k.l1.num_in_list ≡ 0
      → k.l2.num_in_list ≡ 0
      → k.l3.num_in_list ≡ 0
      → is_empty f k ≡ true
  unfolding is_empty LinkedList.is_empty
  empty_queues k a b c = ground arith

  pub remove_front-Removed :
      (k : Kernel f.D)
      → IsCounted k
      → ((is_empty f k ≡ true) × ((q : ℕ) → count_queued k q ≡ 0))
        ⊎ ((p : ℕ) × (k' : Kernel f.D) × (remove_front f k ≡ some (p, k')) × Removed k p k')
  remove_front-Removed k n = elim (dec_lt 0 (length k.l1.items)) [
    | yes h ↦
        let (p, l, run, items, counted) = remove_front_lem k.l1 h n.l1 in
        inr (
          p,
          record k { l1 = l },
          from_l1 k p l (omega (arith, n.l1)) run,
          record {
            same_threads = refl;
            fewer = λ q. omega (arith, ap (count q) items, count-cons q p l.items);
            l1_fewer = λ q. omega (arith, ap (count q) items, count-cons q p l.items);
            l2_fewer = λ q. omega arith;
            l3_fewer = λ q. omega arith;
            counted = record { l1 = counted; l2 = n.l2; l3 = n.l3 };
          },
        )
    | no z₁ ↦ elim (dec_lt 0 (length k.l2.items)) [
      | yes h ↦
          let (p, l, run, items, counted) = remove_front_lem k.l2 h n.l2 in
          inr (
            p,
            record k { l2 = l },
            from_l2 k p l (omega (arith, n.l1)) (omega (arith, n.l2)) run,
            record {
              same_threads = refl;
              fewer = λ q. omega (arith, ap (count q) items, count-cons q p l.items);
              l1_fewer = λ q. omega arith;
              l2_fewer = λ q. omega (arith, ap (count q) items, count-cons q p l.items);
              l3_fewer = λ q. omega arith;
              counted = record { l1 = n.l1; l2 = counted; l3 = n.l3 };
            },
          )
      | no z₂ ↦ elim (dec_lt 0 (length k.l3.items)) [
        | yes h ↦
            let (p, l, run, items, counted) = remove_front_lem k.l3 h n.l3 in
            inr (
              p,
              record k { l3 = l },
              from_l3 k p l (omega (arith, n.l1)) (omega (arith, n.l2)) (omega (arith, n.l3)) run,
              record {
                same_threads = refl;
                fewer = λ q. omega (arith, ap (count q) items, count-cons q p l.items);
                l1_fewer = λ q. omega arith;
                l2_fewer = λ q. omega arith;
                l3_fewer = λ q. omega (arith, ap (count q) items, count-cons q p l.items);
                counted = record { l1 = n.l1; l2 = n.l2; l3 = counted };
              },
            )
        | no z₃ ↦ inl (
          empty_queues k (omega (arith, n.l1)) (omega (arith, n.l2)) (omega (arith, n.l3)),
          λ q. omega (
            arith,
            count-no_items q k.l1.items (omega arith),
            count-no_items q k.l2.items (omega arith),
            count-no_items q k.l3.items (omega arith),
          ),
        )
      ]
    ]
  ]

  taken_next :
      (k : Kernel f.D) (p : ℕ) (k' : Kernel f.D)
      → k.interrupts_off ≡ true
      → remove_front f k ≡ some (p, k')
      → find_next_to_run f k ≡ some (some p, k')
  unfolding find_next_to_run remove_front
  taken_next k p k' off e = ground arith

  no_next :
      (k : Kernel f.D)
      → k.interrupts_off ≡ true
      → is_empty f k ≡ true
      → find_next_to_run f k ≡ some (none, k)
  unfolding find_next_to_run
  no_next k off e = ground arith

  -- With interrupts off and well-formed queues `FindNextToRun` does not abort: it returns NULL and
  -- changes nothing exactly if no thread is queued, and otherwise takes one queued thread out of the
  -- queues, with all other threads left in them, and the queues stay well formed, each thread in the
  -- queue of its level.
  pub find_next_to_run-Removed :
      (k : Kernel f.D)
      → k.interrupts_off ≡ true
      → IsWellQueued f k
      → InLevels f k
      → ((find_next_to_run f k ≡ some (none, k)) × ((q : ℕ) → count_queued k q ≡ 0))
        ⊎ ((p : ℕ) × (k' : Kernel f.D) × (find_next_to_run f k ≡ some (some p, k'))
            × Removed k p k'
            × IsWellQueued f k'
            × InLevels f k')
  find_next_to_run-Removed k off w v = elim (remove_front-Removed k w.counted) [
    | inl (empty, none_queued) ↦ inl (no_next k off empty, none_queued)
    | inr (p, k', run, r) ↦
        inr
          (p, k', taken_next k p k' off run, r, Removed-IsWellQueued p r w, Removed-InLevels p r v)
  ]
