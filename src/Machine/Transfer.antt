-- ===== src/Machine/Transfer.antt =====
-- Traps, and the outcome of a translation in ReadMem and WriteMem.
use nthu_operating_system_er.Base.{ℕ, ◌<◌, ◌≡◌, ◌≢◌, refl, sym, subst, Bool, some, inl, inr}
use nthu_operating_system_er.Mult.{word_size}
use nthu_operating_system_er.Machine.{
  Machine, ExceptionType, no_exception, page_fault_exception, address_error_exception,
  syscall_exception, read_only_exception, bus_error_exception, overflow_exception,
  illegal_instr_exception, raise_exception, delayed_load, assign, bad_vaddr_reg,
}
use nthu_operating_system_er.Machine.Translate.{translate, translated}
use nthu_operating_system_er.Machine.Post.{Post, returns, traps}
use nthu_operating_system_er.Machine.Mapping.{OneTable}
use nthu_operating_system_er.Machine.Access.{Touched, Touched-refl, Granted, IsSize, Answer}
use nthu_operating_system_er.Machine.Answers.{translate-Answers}

-- The machine that ExceptionHandler takes over.
abbrev pub interrupted : ℕ → Machine → Machine
interrupted bad_vaddr m = record m {
  registers = delayed_load 0 0 (assign bad_vaddr_reg bad_vaddr m.registers);
}

-- A trap of an operation that has marked entries at most.
pub record TrapFrom (m : Machine) (which : ExceptionType) (m' : Machine) : Type 0 where
  pub bad_vaddr : ℕ
  pub small : bad_vaddr < word_size
  pub at_trap : Machine
  pub same : Touched m at_trap
  pub handed : m' ≡ interrupted bad_vaddr at_trap
  pub real : which ≢ no_exception

pub raise_exception-TrapFrom {ℓ} :
    {A : Type ℓ} {P : A → Type 0} {N : Type 0} (m m' : Machine) (which : ExceptionType) (bad : ℕ)
    → bad < word_size
    → Touched m m'
    → which ≢ no_exception
    → Post P (TrapFrom m) N (raise_exception which bad m')
unfolding raise_exception
raise_exception-TrapFrom m m' which bad small same real = traps (record {
  bad_vaddr = bad;
  small = small;
  at_trap = m';
  same = same;
  handed = refl;
  real = real;
})

pub translated-Granted :
    (m : Machine) (addr size : ℕ) (w : Bool)
    → OneTable m.tlb m.page_table
    → IsSize size
    → addr < word_size
    → Post
        (λ t. Granted m size w t.0 t.1)
        (TrapFrom m)
        ⊥
        (translated addr (translate addr size w m))
unfolding translated
translated-Granted m addr size w h s small =
    let ((which, phys_addr, m'), e, answer) = translate-Answers m addr size w h s in
    subst (λ o. Post (λ t. Granted m size w t.0 t.1) (TrapFrom m) ⊥ (translated addr o)) (sym e)
      (from_answer which phys_addr m' answer)
  where
    unchanged : {m' : Machine} → m' ≡ m → Touched m m'
    unchanged e = subst (Touched m) (sym e) (Touched-refl m h)

    from_answer :
        (which : ExceptionType) (phys_addr : ℕ) (m' : Machine)
        → Answer m size w (which, phys_addr, m')
        → Post
            (λ t. Granted m size w t.0 t.1)
            (TrapFrom m)
            ⊥
            (translated addr (some (which, phys_addr, m')))
    from_answer no_exception phys_addr m' (inl (e, g)) = returns g
    from_answer no_exception phys_addr m' (inr (n, e)) = absurd (n refl)
    from_answer syscall_exception phys_addr m' (inl (e, g)) = absurd (cc e)
    from_answer syscall_exception phys_addr m' (inr (n, e)) =
        raise_exception-TrapFrom m m' syscall_exception addr small (unchanged e) n
    from_answer page_fault_exception phys_addr m' (inl (e, g)) = absurd (cc e)
    from_answer page_fault_exception phys_addr m' (inr (n, e)) =
        raise_exception-TrapFrom m m' page_fault_exception addr small (unchanged e) n
    from_answer read_only_exception phys_addr m' (inl (e, g)) = absurd (cc e)
    from_answer read_only_exception phys_addr m' (inr (n, e)) =
        raise_exception-TrapFrom m m' read_only_exception addr small (unchanged e) n
    from_answer bus_error_exception phys_addr m' (inl (e, g)) = absurd (cc e)
    from_answer bus_error_exception phys_addr m' (inr (n, e)) =
        raise_exception-TrapFrom m m' bus_error_exception addr small (unchanged e) n
    from_answer address_error_exception phys_addr m' (inl (e, g)) = absurd (cc e)
    from_answer address_error_exception phys_addr m' (inr (n, e)) =
        raise_exception-TrapFrom m m' address_error_exception addr small (unchanged e) n
    from_answer overflow_exception phys_addr m' (inl (e, g)) = absurd (cc e)
    from_answer overflow_exception phys_addr m' (inr (n, e)) =
        raise_exception-TrapFrom m m' overflow_exception addr small (unchanged e) n
    from_answer illegal_instr_exception phys_addr m' (inl (e, g)) = absurd (cc e)
    from_answer illegal_instr_exception phys_addr m' (inr (n, e)) =
        raise_exception-TrapFrom m m' illegal_instr_exception addr small (unchanged e) n
