-- ===== src/Machine/Step.antt =====
-- MP4 code/machine/mipssim.cc: the switch of OneInstruction with a clause for each opcode, and
-- OneInstruction.
use nthu_operating_system_er.Base.{
  ℕ, zero, suc, Option, none, some, ◌%◌, true, false, not, ltb, ◌==◌, if◌then◌else◌,
}
use nthu_operating_system_er.Machine.{
  Machine, ExceptionType, Registers, assign, delayed_load, Outcome, done, trapped, aborted, ◌>>=◌,
  raise_exception, syscall_exception, illegal_instr_exception, ret_addr_reg, hi_reg, lo_reg, pc_reg,
  next_pc_reg, prev_pc_reg,
}
use nthu_operating_system_er.Machine.Word.{
  is_neg, add_word, sub_word, shift_left, arithmetic_shift, lt_int, and_word, or_word, xor_word,
  not_word,
}
use nthu_operating_system_er.Machine.Decode.{
  Instruction, Op, decode, op_add, op_addi, op_addiu, op_addu, op_and, op_andi, op_beq, op_bgez,
  op_bgezal, op_bgtz, op_blez, op_bltz, op_bltzal, op_bne, op_div, op_divu, op_j, op_jal, op_jalr,
  op_jr, op_lb, op_lbu, op_lh, op_lhu, op_lui, op_lw, op_lwl, op_lwr, op_mfhi, op_mflo, op_mthi,
  op_mtlo, op_mult, op_multu, op_nor, op_or, op_ori, op_sb, op_sh, op_sll, op_sllv, op_slt, op_slti,
  op_sltiu, op_sltu, op_sra, op_srav, op_srl, op_srlv, op_sub, op_subu, op_sw, op_swl, op_swr,
  op_xor, op_xori, op_syscall, op_unimp, op_res,
}
use nthu_operating_system_er.Machine.Translate.{read_mem}
use nthu_operating_system_er.Machine.Execute.{
  Executed, finish, write_to, add_checked, sub_checked, branch, link, jump_target, divide,
  divide_unsigned, multiply, load_byte, load_half_word, load_full_word, merge_left, merge_right,
  load_merged, store_size, store_left, store_right, store_merged,
}

-- The switch: the instruction, pcAfter, and the machine.
unfoldable pub execute_op : Op → Instruction → ℕ → Machine → Outcome Executed
unfolding finish write_to add_checked sub_checked branch divide divide_unsigned multiply load_byte
    load_half_word load_full_word load_merged merge_left merge_right store_size store_merged
    store_left store_right raise_exception
execute_op op_add i pc m =
    add_checked i.rd (m.registers i.rs) (m.registers i.rt) (m.registers i.rs) pc m
execute_op op_addi i pc m = add_checked i.rt (m.registers i.rs) i.extra i.extra pc m
execute_op op_addiu i pc m = write_to i.rt (add_word (m.registers i.rs) i.extra) pc m
execute_op op_addu i pc m = write_to i.rd (add_word (m.registers i.rs) (m.registers i.rt)) pc m
execute_op op_and i pc m = write_to i.rd (and_word (m.registers i.rs) (m.registers i.rt)) pc m
execute_op op_andi i pc m = write_to i.rt (and_word (m.registers i.rs) (i.extra % 0x1_0000)) pc m
execute_op op_beq i pc m = branch (m.registers i.rs == m.registers i.rt) i pc m
execute_op op_bgez i pc m = branch (not (is_neg (m.registers i.rs))) i pc m
execute_op op_bgezal i pc m =
    let m' : Machine = link ret_addr_reg m in branch (not (is_neg (m'.registers i.rs))) i pc m'
execute_op op_bgtz i pc m = branch (lt_int 0 (m.registers i.rs)) i pc m
execute_op op_blez i pc m = branch (not (lt_int 0 (m.registers i.rs))) i pc m
execute_op op_bltz i pc m = branch (is_neg (m.registers i.rs)) i pc m
execute_op op_bltzal i pc m =
    let m' : Machine = link ret_addr_reg m in branch (is_neg (m'.registers i.rs)) i pc m'
execute_op op_bne i pc m = branch (not (m.registers i.rs == m.registers i.rt)) i pc m
execute_op op_div i pc m = divide (m.registers i.rs) (m.registers i.rt) pc m
execute_op op_divu i pc m = divide_unsigned (m.registers i.rs) (m.registers i.rt) pc m
execute_op op_j i pc m = finish (jump_target i pc) m
execute_op op_jal i pc m = finish (jump_target i pc) (link ret_addr_reg m)
execute_op op_jalr i pc m = let m' : Machine = link i.rd m in finish (m'.registers i.rs) m'
execute_op op_jr i pc m = finish (m.registers i.rs) m
execute_op op_lb i pc m = load_byte true i pc m
execute_op op_lbu i pc m = load_byte false i pc m
execute_op op_lh i pc m = load_half_word true i pc m
execute_op op_lhu i pc m = load_half_word false i pc m
execute_op op_lui i pc m = write_to i.rt (shift_left i.extra 16) pc m
execute_op op_lw i pc m = load_full_word i pc m
execute_op op_lwl i pc m = load_merged merge_left i pc m
execute_op op_lwr i pc m = load_merged merge_right i pc m
execute_op op_mfhi i pc m = write_to i.rd (m.registers hi_reg) pc m
execute_op op_mflo i pc m = write_to i.rd (m.registers lo_reg) pc m
execute_op op_mthi i pc m = write_to hi_reg (m.registers i.rs) pc m
execute_op op_mtlo i pc m = write_to lo_reg (m.registers i.rs) pc m
execute_op op_mult i pc m = multiply true (m.registers i.rs) (m.registers i.rt) pc m
execute_op op_multu i pc m = multiply false (m.registers i.rs) (m.registers i.rt) pc m
execute_op op_nor i pc m =
    write_to i.rd (not_word (or_word (m.registers i.rs) (m.registers i.rt))) pc m
execute_op op_or i pc m = write_to i.rd (or_word (m.registers i.rs) (m.registers i.rt)) pc m
execute_op op_ori i pc m = write_to i.rt (or_word (m.registers i.rs) (i.extra % 0x1_0000)) pc m
execute_op op_sb i pc m = store_size 1 i pc m
execute_op op_sh i pc m = store_size 2 i pc m
execute_op op_sll i pc m = write_to i.rd (shift_left (m.registers i.rt) i.extra) pc m
execute_op op_sllv i pc m =
    write_to i.rd (shift_left (m.registers i.rt) (m.registers i.rs % 32)) pc m
execute_op op_slt i pc m =
    write_to i.rd (if lt_int (m.registers i.rs) (m.registers i.rt) then 1 else 0) pc m
execute_op op_slti i pc m = write_to i.rt (if lt_int (m.registers i.rs) i.extra then 1 else 0) pc m
execute_op op_sltiu i pc m = write_to i.rt (if ltb (m.registers i.rs) i.extra then 1 else 0) pc m
execute_op op_sltu i pc m =
    write_to i.rd (if ltb (m.registers i.rs) (m.registers i.rt) then 1 else 0) pc m
execute_op op_sra i pc m = write_to i.rd (arithmetic_shift (m.registers i.rt) i.extra) pc m
execute_op op_srav i pc m =
    write_to i.rd (arithmetic_shift (m.registers i.rt) (m.registers i.rs % 32)) pc m
execute_op op_srl i pc m = write_to i.rd (arithmetic_shift (m.registers i.rt) i.extra) pc m
execute_op op_srlv i pc m =
    write_to i.rd (arithmetic_shift (m.registers i.rt) (m.registers i.rs % 32)) pc m
execute_op op_sub i pc m = sub_checked i.rd (m.registers i.rs) (m.registers i.rt) pc m
execute_op op_subu i pc m = write_to i.rd (sub_word (m.registers i.rs) (m.registers i.rt)) pc m
execute_op op_sw i pc m = store_size 4 i pc m
execute_op op_swl i pc m = store_merged store_left i pc m
execute_op op_swr i pc m = store_merged store_right i pc m
execute_op op_syscall i pc m = raise_exception syscall_exception 0 m
execute_op op_xor i pc m = write_to i.rd (xor_word (m.registers i.rs) (m.registers i.rt)) pc m
execute_op op_xori i pc m = write_to i.rt (xor_word (m.registers i.rs) (i.extra % 0x1_0000)) pc m
execute_op op_unimp i pc m = raise_exception illegal_instr_exception 0 m
execute_op op_res i pc m = raise_exception illegal_instr_exception 0 m

-- The end of OneInstruction: the delayed load, then the program counters.
unfoldable pub advance : Executed → Machine
unfolding delayed_load
advance x =
    let r : Registers = delayed_load x.next_load_reg x.next_load_value (x.machine).registers in
    let r₁ : Registers = assign prev_pc_reg (r pc_reg) r in
    let r₂ : Registers = assign pc_reg (r₁ next_pc_reg) r₁ in
    record (x.machine) { registers = assign next_pc_reg x.pc_after r₂ }

-- Machine::OneInstruction
unfoldable pub one_instruction : Machine → Outcome Machine
unfolding read_mem decode execute_op advance
one_instruction m = do
  (raw, m') ← read_mem (m.registers pc_reg) 4 m
  let i : Instruction = decode raw
  x ← execute_op i.op_code i (add_word (m'.registers next_pc_reg) 4) m'
  done (advance x)

-- The loop of Run, for so many instructions; the handler is what ExceptionHandler does to the machine.
unfoldable pub run : (ExceptionType → Machine → Machine) → ℕ → Machine → Option Machine
unfolding one_instruction
run handler zero m = some m
run handler (suc n) m = elim (one_instruction m) [
  | done m' ↦ run handler n m'
  | trapped which m' ↦ run handler n (handler which m')
  | aborted ↦ none
]

-- The rounds of the loop up to a trap.
unfoldable pub run_user : ℕ → Machine → Outcome Machine
unfolding one_instruction
run_user zero m = done m
run_user (suc n) m = one_instruction m >>= run_user n
