-- ===== src/Machine/Invariant.antt =====
-- OneInstruction: what it keeps, where a trap restarts the instruction, and when it aborts.
use nthu_operating_system_er.Base.{
  ℕ, ◌<◌, ◌≡◌, ◌≢◌, refl, sym, ◌∙◌, ap, subst, arith, ◌==◌, if◌then◌else◌, inr,
}
use nthu_operating_system_er.Mult.{word_size}
use nthu_operating_system_er.Machine.{
  Machine, ExceptionType, no_exception, Outcome, done, trapped, aborted, ◌>>=◌, delayed_load,
  pc_reg, next_pc_reg, prev_pc_reg, load_reg, load_value_reg, num_gp_regs,
}
use nthu_operating_system_er.Machine.Word.{add_word}
use nthu_operating_system_er.Machine.Decode.{
  Format, ifmt, jfmt, rfmt, decode, decode_extra, op_info,
}
use nthu_operating_system_er.Machine.Translate.{read_mem}
use nthu_operating_system_er.Machine.Execute.{Executed}
use nthu_operating_system_er.Machine.Step.{execute_op, advance, one_instruction}
use nthu_operating_system_er.Machine.Post.{
  Post, returns, traps, Post-bind, Post-map, Post-done, Post-trapped, Post-aborted,
}
use nthu_operating_system_er.Machine.Mapping.{SameMapping, entries_of}
use nthu_operating_system_er.Machine.Access.{Touched}
use nthu_operating_system_er.Machine.Transfer.{TrapFrom, interrupted}
use nthu_operating_system_er.Machine.Confined.{Confined, read_mem-Touched}
use nthu_operating_system_er.Machine.Progress.{IsMachine, IsInstruction, Progress}
use nthu_operating_system_er.Machine.Accesses.{
  IsMachine-Touched, Progress-Touched, TrapFrom-Touched,
}
use nthu_operating_system_er.Machine.Switch.{Aborts, execute_op-Progress}

decode_extra-lt : (f : Format) (v : ℕ) → decode_extra f v < word_size
unfolding decode_extra
decode_extra-lt ifmt v = ground arith
decode_extra-lt jfmt v = omega arith
decode_extra-lt rfmt v = omega arith

pub decode-IsInstruction : (v : ℕ) → IsInstruction (decode v)
unfolding decode
decode-IsInstruction v = record {
  rs = omega arith;
  rt = omega arith;
  rd = omega arith;
  extra = decode_extra-lt (op_info v).format v;
}

-- The machine after an instruction that neither trapped nor aborted.
pub record Stepped (m m' : Machine) : Type 0 where
  pub ok : IsMachine m'
  pub mapping : SameMapping (entries_of m) (entries_of m')
  pub confined : Confined m m'
  pub pc : m'.registers pc_reg ≡ m.registers next_pc_reg
  pub prev_pc : m'.registers prev_pc_reg ≡ m.registers pc_reg

advance-Stepped : (m : Machine) (x : Executed) → IsMachine m → Progress m x → Stepped m (advance x)
unfolding advance delayed_load
advance-Stepped m x ok p =
    let target : (x.machine).registers load_reg < num_gp_regs =
      omega (arith, p.special load_reg (omega arith), ok.load) in
    record {
      ok = record {
        words = λ j. ground (
          arith,
          p.pc,
          p.value,
          p.load,
          p.words 37,
          p.words 38,
          p.words 34,
          p.words 35,
          p.words j,
        );
        zero_reg = refl;
        load = p.load;
        bytes = p.bytes;
        one_table = p.one_table;
      };
      mapping = p.mapping;
      confined = p.confined;
      pc = ground (arith, target, p.special next_pc_reg (omega arith));
      prev_pc = ground (arith, target, p.special pc_reg (omega arith));
    }

-- The machine that a trap hands to ExceptionHandler: the delayed load under way is done, and no other
-- register but BadVAddrReg has changed, nor has the memory.
pub record Restarted (m : Machine) (which : ExceptionType) (m' : Machine) : Type 0 where
  pub ok : IsMachine m'
  pub real : which ≢ no_exception
  pub memory : m'.main_memory ≡ m.main_memory
  pub mapping : SameMapping (entries_of m) (entries_of m')
  pub registers :
      (j : ℕ)
      → 0 < j
      → j < load_reg
      → m'.registers j
        ≡ (if j == m.registers load_reg then m.registers load_value_reg else m.registers j)
  pub no_load : m'.registers load_reg ≡ 0

interrupted-Restarted :
    (m m' : Machine) (which : ExceptionType) (bad : ℕ)
    → IsMachine m
    → bad < word_size
    → Touched m m'
    → which ≢ no_exception
    → Restarted m which (interrupted bad m')
unfolding delayed_load
interrupted-Restarted m m' which bad ok small s real =
    let same : (j : ℕ) → m'.registers j ≡ m.registers j = λ j. ap (λ r. r j) s.registers in
    let ok' : IsMachine m' = IsMachine-Touched s ok in
    record {
      ok = record {
        words = λ j. ground (arith, small, ok'.words 37, ok'.words 38, ok'.words j);
        zero_reg = refl;
        load = omega arith;
        bytes = ok'.bytes;
        one_table = ok'.one_table;
      };
      real = real;
      memory = s.memory;
      mapping = s.mapping;
      registers =
          λ j positive below. ground (arith, positive, below, same 37, same 38, same j, ok.load);
      no_load = refl;
    }

TrapFrom-Restarted :
    (m : Machine) (which : ExceptionType) (m' : Machine)
    → IsMachine m
    → TrapFrom m which m'
    → Restarted m which m'
TrapFrom-Restarted m which m' ok t =
    subst (Restarted m which) (sym t.handed)
      (interrupted-Restarted m t.at_trap which t.bad_vaddr ok t.small t.same t.real)

-- The instruction that the machine fetches is DIV of the least int by -1.
abbrev pub FetchesUndefined : Machine → Type 0
FetchesUndefined m =
    (raw : ℕ) × (m' : Machine) × (read_mem (m.registers pc_reg) 4 m ≡ done (raw, m'))
    × Aborts (decode raw).op_code (decode raw) m

fetched :
    (m m' : Machine) (raw : ℕ)
    → IsMachine m
    → Touched m m'
    → read_mem (m.registers pc_reg) 4 m ≡ done (raw, m')
    → Post (Stepped m) (Restarted m) (FetchesUndefined m) (
        execute_op (decode raw).op_code (decode raw) (add_word (m'.registers next_pc_reg) 4) m'
        >>= λ x. done (advance x))
fetched m m' raw ok s e =
    Post-bind
      (Post-map (Progress-Touched s)
        (λ which t trap. TrapFrom-Restarted m which t ok (TrapFrom-Touched s which t trap))
        (λ n. (
          raw,
          m',
          e,
          (
            n.0,
            (
              ap (λ r. r (decode raw).rs) (sym s.registers) ∙ n.1.0,
              ap (λ r. r (decode raw).rt) (sym s.registers) ∙ n.1.1,
            ),
          ),
        ))
        (execute_op-Progress m' (IsMachine-Touched s ok) (decode raw) (decode-IsInstruction raw)
          (add_word (m'.registers next_pc_reg) 4) (omega arith) (decode raw).op_code))
      (λ x p. returns (advance-Stepped m x ok p))

read_mem-cases :
    (m : Machine)
    → IsMachine m
    → (o : Outcome (ℕ × Machine)) → read_mem (m.registers pc_reg) 4 m ≡ o
    → Post (λ t. t.0 < word_size × Touched m t.1) (TrapFrom m) ⊥ o
    → Post (Stepped m) (Restarted m) (FetchesUndefined m) (
        o >>= λ t.
        execute_op (decode t.0).op_code (decode t.0) (add_word (t.1.registers next_pc_reg) 4) t.1
        >>= λ x. done (advance x))
read_mem-cases m ok (done (raw, m')) e p = fetched m m' raw ok (Post-done p).1 e
read_mem-cases m ok (trapped which m') e p =
    traps (TrapFrom-Restarted m which m' ok (Post-trapped p))
read_mem-cases m ok aborted e p = absurd (Post-aborted p)

-- Every outcome of OneInstruction.
pub one_instruction-Post :
    (m : Machine)
    → IsMachine m
    → Post (Stepped m) (Restarted m) (FetchesUndefined m) (one_instruction m)
unfolding one_instruction
one_instruction-Post m ok = read_mem-cases m ok (read_mem (m.registers pc_reg) 4 m) refl (
    read_mem-Touched m (m.registers pc_reg) 4 ok.one_table ok.bytes (inr (inr refl))
      (ok.words pc_reg))
