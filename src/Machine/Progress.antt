-- ===== src/Machine/Progress.antt =====
-- What a case of the switch leaves: words in the registers, the special registers as they were, a
-- delayed load of a general register, and the memory confined to the writable pages.
use native.Mathlib.Nat.{div-le_self, mod-le}
use nthu_operating_system_er.Base.{
  ℕ, ◌-◌, ◌/◌, ◌%◌, ◌≤◌, ◌<◌, ◌≡◌, refl, sym, subst, Bool, true, false, ◌&&◌, arith, ◌==◌, inl,
}
use nthu_operating_system_er.Mult.{word_size, sign_bit, mult}
use nthu_operating_system_er.Mult.Product.{mult-double_product}
use nthu_operating_system_er.Machine.{
  Machine, assign, overflow_exception, hi_reg, lo_reg, load_reg, num_gp_regs,
}
use nthu_operating_system_er.Machine.Word.{add_word, sub_word, div_int, mod_int}
use nthu_operating_system_er.Machine.Bounds.{div_int-lt, mod_int-lt}
use nthu_operating_system_er.Machine.Decode.{Instruction}
use nthu_operating_system_er.Machine.Execute.{
  Executed, finish, write_to, write_lo_hi, add_checked, sub_checked, branch, divide,
  divide_unsigned, multiply,
}
use nthu_operating_system_er.Machine.Post.{Post, returns, aborts, Post-if}
use nthu_operating_system_er.Machine.Mapping.{OneTable, entries_of, SameMapping}
use nthu_operating_system_er.Machine.Access.{Touched-refl}
use nthu_operating_system_er.Machine.Transfer.{TrapFrom, raise_exception-TrapFrom}
use nthu_operating_system_er.Machine.Confined.{Bytes, Confined}

pub record IsMachine (m : Machine) : Type 0 where
  pub words : (i : ℕ) → m.registers i < word_size
  pub zero_reg : m.registers 0 ≡ 0
  pub load : m.registers load_reg < num_gp_regs
  pub bytes : Bytes m.main_memory
  pub one_table : OneTable m.tlb m.page_table

pub record IsInstruction (i : Instruction) : Type 0 where
  pub rs : i.rs < num_gp_regs
  pub rt : i.rt < num_gp_regs
  pub rd : i.rd < num_gp_regs
  pub extra : i.extra < word_size

-- The registers behind Lo, which only the end of OneInstruction writes.
abbrev pub SameSpecial : Machine → Machine → Type 0
SameSpecial m m' = (i : ℕ) → lo_reg < i → m'.registers i ≡ m.registers i

pub record Progress (m : Machine) (x : Executed) : Type 0 where
  pub words : (i : ℕ) → (x.machine).registers i < word_size
  pub special : SameSpecial m x.machine
  pub load : x.next_load_reg < num_gp_regs
  pub value : x.next_load_value < word_size
  pub pc : x.pc_after < word_size
  pub bytes : Bytes (x.machine).main_memory
  pub one_table : OneTable (x.machine).tlb (x.machine).page_table
  pub mapping : SameMapping (entries_of m) (entries_of x.machine)
  pub confined : Confined m x.machine

module _ (m : Machine) (ok : IsMachine m) {N : Type 0} where
  pub finish-Progress : (pc : ℕ) → pc < word_size → Post (Progress m) (TrapFrom m) N (finish pc m)
  unfolding finish
  finish-Progress pc small = returns (record {
    words = ok.words;
    special = λ j h. refl;
    load = omega arith;
    value = omega arith;
    pc = small;
    bytes = ok.bytes;
    one_table = ok.one_table;
    mapping = (Touched-refl m ok.one_table).mapping;
    confined = λ a. inl refl;
  })

  -- Two writes of registers up to Lo
  pub writes-Progress :
      (r₁ v₁ r₂ v₂ pc : ℕ)
      → r₁ ≤ lo_reg
      → v₁ < word_size
      → r₂ ≤ lo_reg
      → v₂ < word_size
      → pc < word_size
      → Post
          (Progress m)
          (TrapFrom m)
          N
          (finish pc (record m { registers = assign r₁ v₁ (assign r₂ v₂ m.registers) }))
  unfolding finish
  writes-Progress r₁ v₁ r₂ v₂ pc h₁ s₁ h₂ s₂ small = returns (record {
    words = λ j. ground (arith, ok.words j);
    special = λ j after. ground arith;
    load = omega arith;
    value = omega arith;
    pc = small;
    bytes = ok.bytes;
    one_table = ok.one_table;
    mapping = (Touched-refl m ok.one_table).mapping;
    confined = λ a. inl refl;
  })

  pub write-Progress :
      (reg v pc : ℕ)
      → reg ≤ lo_reg
      → v < word_size
      → pc < word_size
      → Post
          (Progress m)
          (TrapFrom m)
          N
          (finish pc (record m { registers = assign reg v m.registers }))
  unfolding finish
  write-Progress reg v pc h s small = returns (record {
    words = λ j. ground (arith, ok.words j);
    special = λ j after. ground arith;
    load = omega arith;
    value = omega arith;
    pc = small;
    bytes = ok.bytes;
    one_table = ok.one_table;
    mapping = (Touched-refl m ok.one_table).mapping;
    confined = λ a. inl refl;
  })

  pub add_checked-Progress :
      (reg a b tested pc : ℕ)
      → reg ≤ lo_reg
      → pc < word_size
      → Post (Progress m) (TrapFrom m) N (add_checked reg a b tested pc m)
  unfolding add_checked write_to
  add_checked-Progress reg a b tested pc h small =
      Post-if _
        (λ _.
          raise_exception-TrapFrom m m overflow_exception 0 (omega arith)
            (Touched-refl m ok.one_table) (λ e. cc e))
        (λ _. write-Progress reg (add_word a b) pc h (omega arith) small)

  pub sub_checked-Progress :
      (reg a b pc : ℕ)
      → reg ≤ lo_reg
      → pc < word_size
      → Post (Progress m) (TrapFrom m) N (sub_checked reg a b pc m)
  unfolding sub_checked write_to
  sub_checked-Progress reg a b pc h small =
      Post-if _
        (λ _.
          raise_exception-TrapFrom m m overflow_exception 0 (omega arith)
            (Touched-refl m ok.one_table) (λ e. cc e))
        (λ _. write-Progress reg (sub_word a b) pc h (omega arith) small)

  pub branch-Progress :
      (taken : Bool) (i : Instruction) (pc : ℕ)
      → pc < word_size
      → Post (Progress m) (TrapFrom m) N (branch taken i pc m)
  unfolding branch
  branch-Progress taken i pc small = finish-Progress _ (ground arith)

  pub divide_unsigned-Progress :
      (a b pc : ℕ)
      → a < word_size
      → pc < word_size
      → Post (Progress m) (TrapFrom m) N (divide_unsigned a b pc m)
  unfolding divide_unsigned write_lo_hi
  divide_unsigned-Progress a b pc h small =
      Post-if _
        (λ _.
          writes-Progress hi_reg 0 lo_reg 0 pc (omega arith) (omega arith) (omega arith)
            (omega arith) small)
        (λ _.
          writes-Progress hi_reg (a % b) lo_reg (a / b) pc (omega arith) (omega (arith, mod-le a b))
            (omega arith) (omega (arith, div-le_self a b)) small)

  pub multiply-Progress :
      (signed_arith : Bool) (a b pc : ℕ)
      → a < word_size
      → b < word_size
      → pc < word_size
      → Post (Progress m) (TrapFrom m) N (multiply signed_arith a b pc m)
  unfolding multiply write_lo_hi
  multiply-Progress signed_arith a b pc h k small =
      let (hi, lo, e, product, high, low) = mult-double_product a b signed_arith h k in
      writes-Progress hi_reg (mult a b signed_arith).0 lo_reg (mult a b signed_arith).1 pc
        (omega arith) (subst (λ r. r.0 < word_size) (sym e) high) (omega arith)
        (subst (λ r. r.1 < word_size) (sym e) low) small

-- The one division that aborts.
abbrev pub Undefined : ℕ → ℕ → Type 0
Undefined a b = (a ≡ sign_bit) × (b ≡ word_size - 1)

pub divide-Progress :
    (m : Machine) (ok : IsMachine m) (a b pc : ℕ)
    → a < word_size
    → b < word_size
    → pc < word_size
    → Post (Progress m) (TrapFrom m) (Undefined a b) (divide a b pc m)
unfolding divide write_lo_hi
divide-Progress m ok a b pc h k small =
    Post-if (b == 0)
      (λ _.
        writes-Progress m ok hi_reg 0 lo_reg 0 pc (omega arith) (omega arith) (omega arith)
          (omega arith) small)
      (λ (ne : (b == 0) ≡ false).
        Post-if (a == sign_bit && b == word_size - 1)
          (λ (e : (a == sign_bit && b == word_size - 1) ≡ true). aborts (ground (arith, e)))
          (λ _.
            writes-Progress m ok hi_reg (mod_int a b) lo_reg (div_int a b) pc (omega arith)
              (mod_int-lt a b h k (ground (arith, ne))) (omega arith) (div_int-lt a b h) small))
