-- ===== src/Synch/Rounds.antt =====
-- The rounds of P, and V.
use nthu_operating_system_er.Base.{
  ℕ, suc, ◌+◌, ◌-◌, ◌<◌, ◌≡◌, refl, sym, ◌∙◌, ap, subst, true, false, List, [], ◌∷◌, ◌++◌, Option,
  none, some, some_eq, arith, length, count, ◌==◌, if◌then◌else◌, count-append, count-cons,
  length-append, contains-absent, Bool-cases, inl, inr,
}
use nthu_operating_system_er.LinkedList
use nthu_operating_system_er.LinkedList.{LinkedList}
use nthu_operating_system_er.LinkedList.Contents.{append_lem, remove_front_lem}
use nthu_operating_system_er.Synch.{Semaphore, p_round, v}
use nthu_operating_system_er.Synch.Locking.{woken}

-- What P does to a thread that is not in the queue.
pub p_round-cases :
    (t : ℕ) (s : Semaphore)
    → s.queue.num_in_list ≡ length s.queue.items
    → count t s.queue.items ≡ 0
    → p_round t s ≡ (
        if s.value == 0
        then some (
          false,
          record s {
            queue = record {
              items = s.queue.items ++ t ∷ [];
              num_in_list = s.queue.num_in_list + 1;
            };
          },
        )
        else some (true, record s { value = s.value - 1 }))
unfolding p_round
p_round-cases t s c absent = elim (Bool-cases (s.value == 0)) [
  | inl z ↦ rw (z, append_lem s.queue t c, contains-absent t s.queue.items absent)
  | inr nz ↦ rw nz
]

-- A V that has made a thread ready, if one slept.
pub record Posted (s : Semaphore) (ready : Option ℕ) (s' : Semaphore) : Type 0 where
  pub value : s'.value ≡ s.value + 1
  pub counted : s'.queue.num_in_list ≡ length s'.queue.items
  pub items : s.queue.items ≡ woken ready s'.queue.items
  pub wakes : 0 < length s.queue.items → (t : ℕ) × (ready ≡ some t)

pub count-split :
    (a t : ℕ) (xs before after : List ℕ)
    → xs ≡ before ++ t ∷ after
    → count a xs ≡ count a (t ∷ []) + count a (before ++ after)
count-split a t xs before after e = omega (
  arith,
  ap (count a) e,
  count-append a before (t ∷ after),
  count-append a before after,
  count-cons a t after,
)

pub length-split :
    (t : ℕ) (xs before after : List ℕ)
    → xs ≡ before ++ t ∷ after
    → length xs ≡ suc (length (before ++ after))
length-split t xs before after e =
    omega (arith, ap length e, length-append before (t ∷ after), length-append before after)

-- What V does.
pub v_lem :
    (s : Semaphore)
    → s.queue.num_in_list ≡ length s.queue.items
    → (ready : Option ℕ) × (s' : Semaphore) × (v s ≡ some (ready, s')) × Posted s ready s'
unfolding v LinkedList.is_empty
v_lem s c = elim (Bool-cases (s.queue.num_in_list == 0)) [
  | inl z ↦ (
    none,
    record s { value = s.value + 1 },
    rw z,
    record { value = refl; counted = c; items = refl; wakes = λ h. absurd (ground arith) },
  )
  | inr nz ↦
      let (f, rest, e, split, counted) = remove_front_lem s.queue (ground arith) c in
      (
        some f,
        record { value = s.value + 1; queue = rest },
        rw (nz, e),
        record { value = refl; counted = counted; items = split; wakes = λ h. (f, refl) },
      )
]

pair_eq :
    {A B : Type 0} {a a' : A} {b b' : B}
    → ◌≡◌ {A = Option (A × B)} (some (a, b)) (some (a', b'))
    → (a ≡ a') × (b ≡ b')
pair_eq {A} {B} {a} {a'} {b} {b'} e =
    let p : ◌≡◌ {A = A × B} (a, b) (a', b') = some_eq e in
    (ap (λ (x : A × B). x.0) p, ap (λ (x : A × B). x.1) p)

pub v-Posted :
    (s s' : Semaphore) (ready : Option ℕ)
    → s.queue.num_in_list ≡ length s.queue.items
    → v s ≡ some (ready, s')
    → Posted s ready s'
v-Posted s s' ready c e =
    let (r, t, run, posted) = v_lem s c in
    let (same_r, same_t) = pair_eq (sym run ∙ e) in
    subst (λ (x : Option ℕ). Posted s x s') same_r
      (subst (λ (x : Semaphore). Posted s r x) same_t posted)

-- What P does when the thread sleeps, and when it passes.
pub sleep_lem :
    (t : ℕ) (s s' : Semaphore)
    → s.queue.num_in_list ≡ length s.queue.items
    → count t s.queue.items ≡ 0
    → p_round t s ≡ some (false, s')
    → (s.value ≡ 0)
      × (s'.value ≡ s.value)
      × (s'.queue.items ≡ s.queue.items ++ t ∷ [])
      × (s'.queue.num_in_list ≡ s.queue.num_in_list + 1)
sleep_lem t s s' c absent e =
    let h = sym (p_round-cases t s c absent) ∙ e in
    (ground (arith, h), ground (arith, h), ground (arith, h), ground (arith, h))

pub pass_lem :
    (t : ℕ) (s s' : Semaphore)
    → s.queue.num_in_list ≡ length s.queue.items
    → count t s.queue.items ≡ 0
    → p_round t s ≡ some (true, s')
    → (s.value ≡ suc s'.value) × (s'.queue ≡ s.queue)
pass_lem t s s' c absent e =
    let h = sym (p_round-cases t s c absent) ∙ e in (ground (arith, h), ground (arith, h))
