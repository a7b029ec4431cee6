-- ===== src/Machine/Switch.antt =====
-- Every case of the switch keeps the machine in order, and only one division aborts.
use nthu_operating_system_er.Base.{
  ℕ, ◌%◌, ◌≤◌, ◌<◌, ◌≡◌, refl, Bool, true, false, arith, if◌then◌else◌, inl, inr,
}
use nthu_operating_system_er.Mult.{word_size}
use nthu_operating_system_er.Machine.{
  Machine, syscall_exception, illegal_instr_exception, ret_addr_reg, hi_reg, lo_reg, num_gp_regs,
}
use nthu_operating_system_er.Machine.Word.{and_word, not_word, shift_left, arithmetic_shift}
use nthu_operating_system_er.Machine.Bounds.{
  and_word-lt, or_word-lt, xor_word-lt, arithmetic_shift-lt,
}
use nthu_operating_system_er.Machine.Decode.{
  Instruction, Op, op_add, op_addi, op_addiu, op_addu, op_and, op_andi, op_beq, op_bgez, op_bgezal,
  op_bgtz, op_blez, op_bltz, op_bltzal, op_bne, op_div, op_divu, op_j, op_jal, op_jalr, op_jr,
  op_lb, op_lbu, op_lh, op_lhu, op_lui, op_lw, op_lwl, op_lwr, op_mfhi, op_mflo, op_mthi, op_mtlo,
  op_mult, op_multu, op_nor, op_or, op_ori, op_sb, op_sh, op_sll, op_sllv, op_slt, op_slti,
  op_sltiu, op_sltu, op_sra, op_srav, op_srl, op_srlv, op_sub, op_subu, op_sw, op_swl, op_swr,
  op_xor, op_xori, op_syscall, op_unimp, op_res,
}
use nthu_operating_system_er.Machine.Execute.{
  finish, link, branch, write_to, merge_left, merge_right, store_left, store_right,
}
use nthu_operating_system_er.Machine.Step.{execute_op}
use nthu_operating_system_er.Machine.Post.{Post, Post-map}
use nthu_operating_system_er.Machine.Access.{Touched-refl}
use nthu_operating_system_er.Machine.Transfer.{TrapFrom, raise_exception-TrapFrom}
use nthu_operating_system_er.Machine.Progress.{
  IsMachine, IsInstruction, Progress, Undefined, finish-Progress, write-Progress,
  add_checked-Progress, sub_checked-Progress, branch-Progress, divide_unsigned-Progress,
  multiply-Progress, divide-Progress,
}
use nthu_operating_system_er.Machine.Accesses.{
  load_byte-Progress, load_half_word-Progress, load_full_word-Progress, load_merged-Progress,
  store_size-Progress, store_merged-Progress,
}

merge_left-lt :
    (byte old v : ℕ) → old < word_size → v < word_size → merge_left byte old v < word_size
unfolding merge_left
merge_left-lt byte old v h k = ground (
  arith,
  or_word-lt (old % 0x100) (shift_left v 8),
  or_word-lt (old % 0x1_0000) (shift_left v 16),
  or_word-lt (old % 0x100_0000) (shift_left v 24),
)

merge_right-lt :
    (byte old v : ℕ) → old < word_size → v < word_size → merge_right byte old v < word_size
unfolding merge_right
merge_right-lt byte old v h k = ground (
  arith,
  or_word-lt (and_word old 0xffff_ff00) (arithmetic_shift v 24 % 0x100),
  or_word-lt (and_word old 0xffff_0000) (arithmetic_shift v 16 % 0x1_0000),
  or_word-lt (and_word old 0xff00_0000) (arithmetic_shift v 8 % 0x100_0000),
)

not_word-lt : (a : ℕ) → not_word a < word_size
not_word-lt a = omega arith

flag-lt : (b : Bool) → (if b then 1 else 0) < word_size
flag-lt b = ground arith

reg : {r : ℕ} → r < num_gp_regs → r ≤ lo_reg
reg h = omega arith

-- Only DIV of the least int by -1 aborts.
abbrev pub Aborts : Op → Instruction → Machine → Type 0
Aborts op i m = (op ≡ op_div) × Undefined (m.registers i.rs) (m.registers i.rt)

module _ (m : Machine) (ok : IsMachine m) (i : Instruction) (wf : IsInstruction i) (pc : ℕ)
    (small : pc < word_size) where
  link-jump :
      {N : Type 0} (r target : ℕ)
      → r ≤ lo_reg
      → target < word_size
      → Post (Progress m) (TrapFrom m) N (finish target (link r m))
  link-jump r target h k = write-Progress m ok r _ target h (omega arith) k

  linked : (r s : ℕ) → (link r m).registers s < word_size
  linked r s = ground (arith, ok.words s)

  link-branch :
      {N : Type 0} (taken : Bool)
      → Post (Progress m) (TrapFrom m) N (branch taken i pc (link ret_addr_reg m))
  unfolding branch
  link-branch taken = link-jump ret_addr_reg _ (omega arith) (ground arith)

  pub execute_op-Progress :
      (op : Op) → Post (Progress m) (TrapFrom m) (Aborts op i m) (execute_op op i pc m)
  unfolding execute_op write_to
  execute_op-Progress op_add =
      add_checked-Progress m ok i.rd (m.registers i.rs) (m.registers i.rt) (m.registers i.rs) pc
        (reg wf.rd) small
  execute_op-Progress op_addi =
      add_checked-Progress m ok i.rt (m.registers i.rs) i.extra i.extra pc (reg wf.rt) small
  execute_op-Progress op_addiu = write-Progress m ok i.rt _ pc (reg wf.rt) (omega arith) small
  execute_op-Progress op_addu = write-Progress m ok i.rd _ pc (reg wf.rd) (omega arith) small
  execute_op-Progress op_and = write-Progress m ok i.rd _ pc (reg wf.rd) (and_word-lt _ _) small
  execute_op-Progress op_andi = write-Progress m ok i.rt _ pc (reg wf.rt) (and_word-lt _ _) small
  execute_op-Progress op_beq = branch-Progress m ok _ i pc small
  execute_op-Progress op_bgez = branch-Progress m ok _ i pc small
  execute_op-Progress op_bgtz = branch-Progress m ok _ i pc small
  execute_op-Progress op_blez = branch-Progress m ok _ i pc small
  execute_op-Progress op_bltz = branch-Progress m ok _ i pc small
  execute_op-Progress op_bne = branch-Progress m ok _ i pc small
  execute_op-Progress op_bgezal = link-branch _
  execute_op-Progress op_bltzal = link-branch _
  execute_op-Progress op_div =
      Post-map (λ _ p. p) (λ _ _ e. e) (λ n. (refl, n))
        (divide-Progress m ok _ _ pc (ok.words i.rs) (ok.words i.rt) small)
  execute_op-Progress op_divu = divide_unsigned-Progress m ok _ _ pc (ok.words i.rs) small
  execute_op-Progress op_j = finish-Progress m ok _ (or_word-lt _ _)
  execute_op-Progress op_jal = link-jump ret_addr_reg _ (omega arith) (or_word-lt _ _)
  execute_op-Progress op_jalr = link-jump i.rd _ (reg wf.rd) (linked i.rd i.rs)
  execute_op-Progress op_jr = finish-Progress m ok _ (ok.words i.rs)
  execute_op-Progress op_lb = load_byte-Progress m ok i wf.rt pc small true
  execute_op-Progress op_lbu = load_byte-Progress m ok i wf.rt pc small false
  execute_op-Progress op_lh = load_half_word-Progress m ok i wf.rt pc small true
  execute_op-Progress op_lhu = load_half_word-Progress m ok i wf.rt pc small false
  execute_op-Progress op_lui = write-Progress m ok i.rt _ pc (reg wf.rt) (omega arith) small
  execute_op-Progress op_lw = load_full_word-Progress m ok i wf.rt pc small
  execute_op-Progress op_lwl = load_merged-Progress m ok i wf.rt pc small merge_left merge_left-lt
  execute_op-Progress op_lwr = load_merged-Progress m ok i wf.rt pc small merge_right merge_right-lt
  execute_op-Progress op_mfhi = write-Progress m ok i.rd _ pc (reg wf.rd) (ok.words hi_reg) small
  execute_op-Progress op_mflo = write-Progress m ok i.rd _ pc (reg wf.rd) (ok.words lo_reg) small
  execute_op-Progress op_mthi = write-Progress m ok hi_reg _ pc (omega arith) (ok.words i.rs) small
  execute_op-Progress op_mtlo = write-Progress m ok lo_reg _ pc (omega arith) (ok.words i.rs) small
  execute_op-Progress op_mult =
      multiply-Progress m ok true _ _ pc (ok.words i.rs) (ok.words i.rt) small
  execute_op-Progress op_multu =
      multiply-Progress m ok false _ _ pc (ok.words i.rs) (ok.words i.rt) small
  execute_op-Progress op_nor = write-Progress m ok i.rd _ pc (reg wf.rd) (not_word-lt _) small
  execute_op-Progress op_or = write-Progress m ok i.rd _ pc (reg wf.rd) (or_word-lt _ _) small
  execute_op-Progress op_ori = write-Progress m ok i.rt _ pc (reg wf.rt) (or_word-lt _ _) small
  execute_op-Progress op_sb = store_size-Progress m ok i wf.rt pc small 1 (inl refl)
  execute_op-Progress op_sh = store_size-Progress m ok i wf.rt pc small 2 (inr (inl refl))
  execute_op-Progress op_sll = write-Progress m ok i.rd _ pc (reg wf.rd) (omega arith) small
  execute_op-Progress op_sllv = write-Progress m ok i.rd _ pc (reg wf.rd) (omega arith) small
  execute_op-Progress op_slt = write-Progress m ok i.rd _ pc (reg wf.rd) (flag-lt _) small
  execute_op-Progress op_slti = write-Progress m ok i.rt _ pc (reg wf.rt) (flag-lt _) small
  execute_op-Progress op_sltiu = write-Progress m ok i.rt _ pc (reg wf.rt) (flag-lt _) small
  execute_op-Progress op_sltu = write-Progress m ok i.rd _ pc (reg wf.rd) (flag-lt _) small
  execute_op-Progress op_sra =
      write-Progress m ok i.rd _ pc (reg wf.rd) (arithmetic_shift-lt _ _ (ok.words i.rt)) small
  execute_op-Progress op_srav =
      write-Progress m ok i.rd _ pc (reg wf.rd) (arithmetic_shift-lt _ _ (ok.words i.rt)) small
  execute_op-Progress op_srl =
      write-Progress m ok i.rd _ pc (reg wf.rd) (arithmetic_shift-lt _ _ (ok.words i.rt)) small
  execute_op-Progress op_srlv =
      write-Progress m ok i.rd _ pc (reg wf.rd) (arithmetic_shift-lt _ _ (ok.words i.rt)) small
  execute_op-Progress op_sub =
      sub_checked-Progress m ok i.rd (m.registers i.rs) (m.registers i.rt) pc (reg wf.rd) small
  execute_op-Progress op_subu = write-Progress m ok i.rd _ pc (reg wf.rd) (omega arith) small
  execute_op-Progress op_sw = store_size-Progress m ok i wf.rt pc small 4 (inr (inr refl))
  execute_op-Progress op_swl = store_merged-Progress m ok i pc small store_left
  execute_op-Progress op_swr = store_merged-Progress m ok i pc small store_right
  execute_op-Progress op_syscall =
      raise_exception-TrapFrom m m syscall_exception 0 (omega arith) (Touched-refl m ok.one_table)
        (λ e. cc e)
  execute_op-Progress op_xor = write-Progress m ok i.rd _ pc (reg wf.rd) (xor_word-lt _ _) small
  execute_op-Progress op_xori = write-Progress m ok i.rt _ pc (reg wf.rt) (xor_word-lt _ _) small
  execute_op-Progress op_unimp =
      raise_exception-TrapFrom m m illegal_instr_exception 0 (omega arith)
        (Touched-refl m ok.one_table) (λ e. cc e)
  execute_op-Progress op_res =
      raise_exception-TrapFrom m m illegal_instr_exception 0 (omega arith)
        (Touched-refl m ok.one_table) (λ e. cc e)
