-- ===== src/Synch/Exclusion.antt =====
-- At most one thread is between the P and the V of a lock.
use nthu_operating_system_er.Base.{
  ℕ, ◌+◌, ◌≤◌, ◌<◌, ◌≡◌, refl, sym, ◌∙◌, ap, subst, true, false, List, [], ◌∷◌, ◌++◌, Option, none,
  some, arith, length, count, ◌==◌, count-append, count-cons, length-append, Bool-cases, inl, inr,
  count-nil, count-cons_self, count-cons_ne,
}
use nthu_operating_system_er.LinkedList.{LinkedList}
use nthu_operating_system_er.Synch.{
  Semaphore, Lock, p_round, v, own, let_go, new_lock, new_semaphore,
}
use nthu_operating_system_er.Synch.Rounds.{count-split, length-split, v-Posted, sleep_lem, pass_lem}
use nthu_operating_system_er.Synch.Locking.{
  System, with_semaphore, woken, is_holder, places, Step, arrives, sleeps, passes, owns, lets_go,
  posts, Reach, start, next,
}

abbrev pub is_owned : Option ℕ → ℕ
is_owned none = 0
is_owned (some h) = 1

-- The threads between the P and the V of the lock.
abbrev pub inside : System → ℕ
inside s = length s.passed + is_owned s.lock.lock_holder + length s.releasing

pub record IsLocking (s : System) : Type 0 where
  pub counted : s.lock.semaphore.queue.num_in_list ≡ length s.lock.semaphore.queue.items
  pub one : s.lock.semaphore.value + inside s ≡ 1
  pub awake : 0 < length s.lock.semaphore.queue.items → s.lock.semaphore.value ≤ length s.trying
  pub once : (a : ℕ) → places a s ≤ 1

-- Release is for the holder.
let_go_lem :
    (t : ℕ) (l l' : Lock)
    → let_go t l ≡ some l'
    → (l.lock_holder ≡ some t) × (l' ≡ record l { lock_holder = none })
unfolding let_go
let_go_lem t l l' e = (ground (arith, e), ground (arith, e))

-- A thread that tests the value is in no other place.
pub alone :
    (s : System) (t : ℕ) (before after : List ℕ)
    → IsLocking s
    → s.trying ≡ before ++ t ∷ after
    → count t s.lock.semaphore.queue.items ≡ 0
alone s t before after h e =
    omega (arith, h.once t, count-split t t s.trying before after e, count-cons_self t [])

module _ (s : System) (h : IsLocking s) where
  arrives-IsLocking : (t : ℕ) → places t s ≡ 0 → IsLocking (record s { trying = t ∷ s.trying })
  arrives-IsLocking t absent = record {
    counted = h.counted;
    one = h.one;
    awake = λ waits. omega (arith, h.awake waits);
    once = λ a. elim (Bool-cases (a == t)) [
      | inl same ↦
          let e : a ≡ t = ground (arith, same) in
          omega
            (arith, count-cons a t s.trying, one_at_most a t, ap (λ (x : ℕ). places x s) e, absent)
      | inr other ↦ omega (
        arith,
        count-cons a t s.trying,
        count-cons_ne a t [] (λ e. apart a t other e),
        count-nil a,
        h.once a,
      )
    ];
  }
    where
      apart : (a t : ℕ) → (a == t) ≡ false → a ≡ t → ⊥
      apart a t e f = ground arith

      one_at_most : (a t : ℕ) → count a (t ∷ []) ≤ 1
      one_at_most a t = unfold count in ground arith

  sleeps-IsLocking :
      (t : ℕ) (before after : List ℕ) (sem : Semaphore)
      → s.trying ≡ before ++ t ∷ after
      → p_round t s.lock.semaphore ≡ some (false, sem)
      → IsLocking (record s { lock = with_semaphore sem s.lock; trying = before ++ after })
  sleeps-IsLocking t before after sem here run =
      let (zero_value, same, items, counted) =
        sleep_lem t s.lock.semaphore sem h.counted (alone s t before after h here) run in
      let longer : length sem.queue.items ≡ length s.lock.semaphore.queue.items + 1 =
        ap length items ∙ length-append s.lock.semaphore.queue.items (t ∷ []) in
      record {
        counted = omega (arith, counted, longer, h.counted);
        one = omega (arith, same, h.one);
        awake = λ _. omega (arith, zero_value, same);
        once = λ a. omega (
          arith,
          h.once a,
          count-split a t s.trying before after here,
          ap (count a) items,
          count-append a s.lock.semaphore.queue.items (t ∷ []),
        );
      }

  passes-IsLocking :
      (t : ℕ) (before after : List ℕ) (sem : Semaphore)
      → s.trying ≡ before ++ t ∷ after
      → p_round t s.lock.semaphore ≡ some (true, sem)
      → IsLocking (record s {
        lock = with_semaphore sem s.lock;
        trying = before ++ after;
        passed = t ∷ s.passed;
      })
  passes-IsLocking t before after sem here run =
      let (value, queue) =
        pass_lem t s.lock.semaphore sem h.counted (alone s t before after h here) run in
      let same : sem.queue.items ≡ s.lock.semaphore.queue.items =
        ap (λ (q : LinkedList). q.items) queue in
      record {
        counted = ap (λ (q : LinkedList). q.num_in_list) queue ∙ h.counted ∙ ap length (sym same);
        one = omega (arith, value, h.one);
        awake = λ waits. omega (
          arith,
          h.awake (omega (arith, ap length same, waits)),
          value,
          length-split t s.trying before after here,
        );
        once = λ a. omega (
          arith,
          h.once a,
          count-split a t s.trying before after here,
          ap (count a) same,
          count-cons a t s.passed,
        );
      }

  owns-IsLocking :
      (t : ℕ) (before after : List ℕ)
      → s.passed ≡ before ++ t ∷ after
      → IsLocking (record s { lock = own t s.lock; passed = before ++ after })
  unfolding own
  owns-IsLocking t before after here =
      let free : is_owned s.lock.lock_holder ≡ 0 =
        omega (arith, h.one, length-split t s.passed before after here) in
      record {
        counted = h.counted;
        one = omega (arith, h.one, free, length-split t s.passed before after here);
        awake = h.awake;
        once = λ a. omega (arith, h.once a, count-split a t s.passed before after here, holder a t);
      }
    where
      holder : (a t : ℕ) → is_holder a (some t) ≡ count a (t ∷ [])
      holder a t = unfold count in omega arith

  lets_go-IsLocking :
      (t : ℕ) (lock' : Lock)
      → let_go t s.lock ≡ some lock'
      → IsLocking (record s { lock = lock'; releasing = t ∷ s.releasing })
  lets_go-IsLocking t lock' run =
      let (held, e) = let_go_lem t s.lock lock' run in
      subst (λ (l : Lock). IsLocking (record s { lock = l; releasing = t ∷ s.releasing })) (sym e)
        (record {
          counted = h.counted;
          one = omega (arith, h.one, ap is_owned held);
          awake = h.awake;
          once = λ a.
              omega
                (arith, h.once a, ap (is_holder a) held, count-cons a t s.releasing, holder a t);
        })
    where
      holder : (a t : ℕ) → is_holder a (some t) ≡ count a (t ∷ [])
      holder a t = unfold count in omega arith

  posts-IsLocking :
      (t : ℕ) (before after : List ℕ) (ready : Option ℕ) (sem : Semaphore)
      → s.releasing ≡ before ++ t ∷ after
      → v s.lock.semaphore ≡ some (ready, sem)
      → IsLocking (record s {
        lock = with_semaphore sem s.lock;
        trying = woken ready s.trying;
        releasing = before ++ after;
      })
  posts-IsLocking t before after none sem here run =
      let posted = v-Posted s.lock.semaphore sem none h.counted run in
      record {
        counted = posted.counted;
        one = omega (arith, h.one, posted.value, length-split t s.releasing before after here);
        awake =
            λ waits. absurd (nobody (posted.wakes (omega (arith, waits, ap length posted.items))));
        once = λ a. omega (
          arith,
          h.once a,
          ap (count a) posted.items,
          count-split a t s.releasing before after here,
        );
      }
    where
      nobody : (t : ℕ) × (◌≡◌ {A = Option ℕ} none (some t)) → ⊥
      nobody (t, e) = cc e
  posts-IsLocking t before after (some w) sem here run =
      let posted = v-Posted s.lock.semaphore sem (some w) h.counted run in
      record {
        counted = posted.counted;
        one = omega (arith, h.one, posted.value, length-split t s.releasing before after here);
        awake =
            λ waits. omega (arith, h.awake (omega (arith, ap length posted.items)), posted.value);
        once = λ a. omega (
          arith,
          h.once a,
          ap (count a) posted.items,
          count-split a t s.releasing before after here,
          count-cons a w s.trying,
          count-cons a w sem.queue.items,
        );
      }

Step-IsLocking : {s s' : System} → Step s s' → IsLocking s → IsLocking s'
Step-IsLocking {s} (arrives t e) h = arrives-IsLocking s h t e
Step-IsLocking {s} (sleeps t before after sem e run) h =
    sleeps-IsLocking s h t before after sem e run
Step-IsLocking {s} (passes t before after sem e run) h =
    passes-IsLocking s h t before after sem e run
Step-IsLocking {s} (owns t before after e) h = owns-IsLocking s h t before after e
Step-IsLocking {s} (lets_go t lock' run) h = lets_go-IsLocking s h t lock' run
Step-IsLocking {s} (posts t before after ready sem e run) h =
    posts-IsLocking s h t before after ready sem e run

start-IsLocking : IsLocking (record { lock = new_lock; trying = []; passed = []; releasing = [] })
unfolding new_lock new_semaphore
start-IsLocking = record {
  counted = refl;
  one = refl;
  awake = λ waits. omega arith;
  once = λ a. omega (arith, count-nil a);
}

pub Reach-IsLocking : {s : System} → Reach s → IsLocking s
Reach-IsLocking start = start-IsLocking
Reach-IsLocking (next r step) = Step-IsLocking step (Reach-IsLocking r)

-- In every run of threads that acquire and release a lock, the value of its semaphore and the number
-- of threads between their P and their V are together 1, so that one thread at most is inside.
pub Reach-inside : {s : System} → Reach s → (s.lock.semaphore.value + inside s ≡ 1)
Reach-inside r = (Reach-IsLocking r).one
