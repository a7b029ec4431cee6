-- ===== src/Machine/Runs.antt =====
-- Runs of the machine: the invariant, the confinement of user programs, and restarts after traps.
use nthu_operating_system_er.Base.{
  ℕ, zero, suc, ◌/◌, ◌<◌, ◌≡◌, refl, ◌∙◌, ap, subst, true, ◌⊎◌, inl, inr, arith, none, some,
}
use nthu_operating_system_er.AddrSpace.{page_size}
use nthu_operating_system_er.Machine.{Machine, ExceptionType, Outcome, done, trapped, aborted}
use nthu_operating_system_er.Machine.Step.{one_instruction, run, run_user}
use nthu_operating_system_er.Machine.Post.{
  Post, returns, Post-bind, Post-map, Post-done, Post-trapped, Post-aborted,
}
use nthu_operating_system_er.Machine.Mapping.{
  SameMapping, SameMapping-trans, SameEntry-refl, entries_of,
}
use nthu_operating_system_er.Machine.Access.{Permits, Permits-SameMapping}
use nthu_operating_system_er.Machine.Confined.{Confined}
use nthu_operating_system_er.Machine.Progress.{IsMachine}
use nthu_operating_system_er.Machine.Invariant.{
  Stepped, Restarted, FetchesUndefined, one_instruction-Post,
}

-- What a run comes to: a machine in order, or one on the way that fetches the undefined division.
abbrev pub Runs : (ExceptionType → Machine → Machine) → ℕ → Machine → Type 0
Runs handler n m =
    ((m' : Machine) × (run handler n m ≡ some m') × IsMachine m')
    ⊎ ((k : ℕ) × (m' : Machine) × (k < n)
        × (run handler k m ≡ some m')
        × (run handler n m ≡ none)
        × FetchesUndefined m')

module _ (handler : ExceptionType → Machine → Machine)
    (keeps : (which : ExceptionType) (m : Machine)
      → IsMachine m
      → IsMachine (handler which m)) where
  run-done :
      (n : ℕ) (m m' : Machine)
      → one_instruction m ≡ done m'
      → run handler (suc n) m ≡ run handler n m'
  unfolding run
  run-done n m m' e = rw (e, run)

  run-trapped :
      (n : ℕ) (m m' : Machine) (which : ExceptionType)
      → one_instruction m ≡ trapped which m'
      → run handler (suc n) m ≡ run handler n (handler which m')
  unfolding run
  run-trapped n m m' which e = rw (e, run)

  run-aborted : (n : ℕ) (m : Machine) → one_instruction m ≡ aborted → run handler (suc n) m ≡ none
  unfolding run
  run-aborted n m e = rw (e, run)

  Runs-next :
      (n : ℕ) (m m' : Machine)
      → ((k : ℕ) → run handler (suc k) m ≡ run handler k m')
      → Runs handler n m'
      → Runs handler (suc n) m
  Runs-next n m m' e (inl (t, r, ok)) = inl (t, e n ∙ r, ok)
  Runs-next n m m' e (inr (k, t, below, r, stop, u)) =
      inr (suc k, t, omega arith, e k ∙ r, e n ∙ stop, u)

  Runs-aborted :
      (n : ℕ) (m : Machine)
      → one_instruction m ≡ aborted
      → FetchesUndefined m
      → Runs handler (suc n) m
  Runs-aborted n m e u = inr (0, m, omega arith, unfold run in refl, run-aborted n m e, u)

  Runs-outcome :
      (n : ℕ) (m : Machine) (o : Outcome Machine)
      → one_instruction m ≡ o
      → Post (Stepped m) (Restarted m) (FetchesUndefined m) o
      → ((m' : Machine) → IsMachine m' → Runs handler n m')
      → Runs handler (suc n) m
  Runs-outcome n m (done m') e p next =
      Runs-next n m m' (λ k. run-done k m m' e) (next m' (Post-done p).ok)
  Runs-outcome n m (trapped which m') e p next =
      Runs-next n m (handler which m') (λ k. run-trapped k m m' which e)
        (next (handler which m') (keeps which m' (Post-trapped p).ok))
  Runs-outcome n m aborted e p next = Runs-aborted n m e (Post-aborted p)

  -- With a handler that keeps machines in order, a machine in order (words in all registers, 0 in
  -- R0, a general register as target of the delayed load, bytes in memory, one table) that runs
  -- any number of rounds ends in order, or it comes, after fewer rounds, to a machine in order
  -- that fetches the division of the least int by -1.
  pub run-Runs : (n : ℕ) (m : Machine) → IsMachine m → Runs handler n m
  run-Runs zero m ok = inl (m, unfold run in refl, ok)
  run-Runs (suc n) m ok =
      Runs-outcome n m (one_instruction m) refl (one_instruction-Post m ok) (run-Runs n)

-- If an instruction of a machine in order traps, the machine that goes to the handler is in order,
-- its memory is as before, its table too but for use and dirty bits, the delayed load under way is
-- done and none is left, and every other register up to the previous program counter is as before,
-- the program counters among them; the exception is not NoException.
pub one_instruction-Restarted :
    (m m' : Machine) (which : ExceptionType)
    → IsMachine m
    → one_instruction m ≡ trapped which m'
    → Restarted m which m'
one_instruction-Restarted m m' which ok e =
    Post-trapped
      (subst (Post (Stepped m) (Restarted m) (FetchesUndefined m)) e (one_instruction-Post m ok))

-- The frames that a program cannot write to keep their bytes.
pub record Kept (m m' : Machine) : Type 0 where
  pub mapping : SameMapping (entries_of m) (entries_of m')
  pub confined : Confined m m'

Kept-trans : {m m' m'' : Machine} → Kept m m' → Kept m' m'' → Kept m m''
Kept-trans s t = record {
  mapping = SameMapping-trans _ _ _ s.mapping t.mapping;
  confined = λ a. elim (t.confined a) [
    | inl same ↦ elim (s.confined a) [
      | inl before ↦ inl (same ∙ before)
      | inr permits ↦ inr permits
    ]
    | inr permits ↦ inr (Permits-SameMapping s.mapping permits)
  ];
}

one_instruction-Kept :
    (m : Machine)
    → IsMachine m
    → Post (λ m'. IsMachine m' × Kept m m') (λ _ m'. Kept m m') (Unit {0}) (one_instruction m)
one_instruction-Kept m ok =
    Post-map (λ m' s. (s.ok, record { mapping = s.mapping; confined = s.confined }))
      (λ _ m' s. record { mapping = s.mapping; confined = λ a. inl (ap (λ f. f a) s.memory) })
      (λ _. tt) (one_instruction-Post m ok)

run_user-Kept :
    (n : ℕ) (m : Machine)
    → IsMachine m
    → Post (λ m'. IsMachine m' × Kept m m') (λ _ m'. Kept m m') (Unit {0}) (run_user n m)
unfolding run_user
run_user-Kept zero m ok =
    returns (ok, record { mapping = λ j e g. (e, g, SameEntry-refl e); confined = λ a. inl refl })
run_user-Kept (suc n) m ok = Post-bind (one_instruction-Kept m ok) (λ m' first.
    Post-map (λ m'' p. (p.0, Kept-trans first.1 p.1)) (λ _ m'' k. Kept-trans first.1 k) (λ u. u)
      (run_user-Kept n m' first.0))

-- When a machine in order has run any number of instructions without a trap, or up to the first,
-- each byte of the memory that is in no frame of a valid entry of its first table that may be
-- written is as before.
pub run_user-confined :
    (n : ℕ) (m m' : Machine)
    → IsMachine m
    → (run_user n m ≡ done m') ⊎ ((which : ExceptionType) × (run_user n m ≡ trapped which m'))
    → (a : ℕ) → ¬ Permits m (a / page_size) true
    → m'.main_memory a ≡ m.main_memory a
run_user-confined n m m' ok e a forbidden = elim (kept e a) [
  | inl same ↦ same
  | inr permits ↦ absurd (forbidden permits)
]
  where
    whole :
        (o : Outcome Machine)
        → run_user n m ≡ o
        → Post (λ m'. IsMachine m' × Kept m m') (λ _ m'. Kept m m') (Unit {0}) o
    whole o e =
        subst (Post (λ m'. IsMachine m' × Kept m m') (λ _ m'. Kept m m') (Unit {0})) e
          (run_user-Kept n m ok)

    kept :
        (run_user n m ≡ done m') ⊎ ((which : ExceptionType) × (run_user n m ≡ trapped which m'))
        → Confined m m'
    kept (inl e) = (Post-done (whole (done m') e)).1.confined
    kept (inr (which, e)) = (Post-trapped (whole (trapped which m') e)).confined
