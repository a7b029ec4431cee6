-- ===== src/Machine/Examples.antt =====
-- A program of two pages: the first in frame 3 and read-only, the second in frame 5.
use nthu_operating_system_er.Base.{
  ℕ, zero, suc, ◌+◌, ◌/◌, ◌%◌, ◌<◌, ◌≡◌, refl, true, false, List, [], ◌∷◌, some, none, arith, inl,
  inr, ◌^◌, ◌≤◌, ltb_ℤ, pos, get_elem?, if◌then◌else◌,
}
use nthu_operating_system_er.Mult.{sign_bit, word_size}
use nthu_operating_system_er.AddrSpace.{TranslationEntry}
use nthu_operating_system_er.Machine.{
  Machine, ExceptionType, done, trapped, aborted, assign, syscall_exception, pc_reg, next_pc_reg,
}
use nthu_operating_system_er.Machine.Decode.{
  op_info, op_table, special_table, decode_op, decode_extra, Instruction, decode, op_addi, op_sw,
  op_syscall, op_lw, op_srl, op_srlv, op_add, op_sub, op_slt, op_slti, op_bgtz, op_blez,
}
use nthu_operating_system_er.Machine.Encode.{assemble, layout, HasFields}
use nthu_operating_system_er.Machine.Decoded.{decode-assemble}
use nthu_operating_system_er.Machine.Translate.{store_word, read_mem, write_mem, load_word}
use nthu_operating_system_er.Machine.Step.{one_instruction, run_user, execute_op}
use nthu_operating_system_er.Machine.Access.{Permits}
use nthu_operating_system_er.Machine.Progress.{IsMachine}
use nthu_operating_system_er.Machine.Invariant.{Restarted}
use nthu_operating_system_er.Machine.Runs.{
  Runs, run-Runs, one_instruction-Restarted, run_user-confined,
}
use nthu_operating_system_er.Machine.Isolation.{run_user-isolation}
use nthu_operating_system_er.AddrSpace.Examples.{
  first_table, second_table, two_processes-Reach, translate_second,
}
use nthu_operating_system_er.Machine.Signed.{
  checked, int_of, ◌+ℤ◌, ◌-ℤ◌, goes_on, with_register, relative, execute_op-checked,
  execute_op-compare,
}
use nthu_operating_system_er.Machine.RoundTrip.{clip, read_mem-write_mem}
use nthu_operating_system_er.Machine.Unaligned.{unaligned_load, unaligned_load-load_word}
use nthu_operating_system_er.Machine.Shift.{srl-negative}

abbrev program_table : List TranslationEntry
program_table =
    record {
      virtual_page = 0;
      physical_page = 3;
      valid = true;
      in_use = false;
      dirty = false;
      read_only = true;
    }
    ∷ record {
      virtual_page = 1;
      physical_page = 5;
      valid = true;
      in_use = false;
      dirty = false;
      read_only = false;
    }
    ∷ []

-- addi r2, r0, 5; sw r2, 128(r0); syscall
abbrev program_memory : ℕ → ℕ
program_memory =
    store_word 392 0xc (store_word 388 0xac02_0080 (store_word 384 0x2002_0005 (λ _. 0)))

-- The machine at the start of the program, or at its system call.
abbrev at_pc : ℕ → Machine
at_pc pc = record {
  registers = assign next_pc_reg (pc + 4) (assign pc_reg pc (λ _. 0));
  main_memory = program_memory;
  tlb = none;
  page_table = some program_table;
}

at_pc-IsMachine : (pc : ℕ) → pc < 0x1000 → IsMachine (at_pc pc)
at_pc-IsMachine pc h = record {
  words = λ j. ground arith;
  zero_reg = refl;
  load = omega arith;
  bytes = λ a. ground arith;
  one_table = tt;
}

-- The words of the program
program_words :
    (assemble (layout op_addi) 0 2 0 5 ≡ 0x2002_0005)
    × (assemble (layout op_sw) 0 2 0 128 ≡ 0xac02_0080)
    × (assemble (layout op_syscall) 0 0 0 0 ≡ 0xc)
unfolding assemble layout
program_words = (refl, refl, refl)

-- A handler that leaves a result in r2.
abbrev answer : ExceptionType → Machine → Machine
answer which m = record m { registers = assign 2 1 m.registers }

answer-IsMachine : (which : ExceptionType) (m : Machine) → IsMachine m → IsMachine (answer which m)
answer-IsMachine which m ok = record {
  words = λ j. ground (arith, ok.words j);
  zero_reg = ok.zero_reg;
  load = ok.load;
  bytes = ok.bytes;
  one_table = ok.one_table;
}

run-Runs_example : Runs answer 4 (at_pc 0)
run-Runs_example = run-Runs answer answer-IsMachine 4 (at_pc 0) (at_pc-IsMachine 0 (omega arith))

abbrev stored : Machine
unfolding run_user
stored = elim (run_user 2 (at_pc 0)) [ done m ↦ m | trapped which m ↦ m | aborted ↦ at_pc 0 ]

stored_run : run_user 2 (at_pc 0) ≡ done stored
unfolding run_user one_instruction
stored_run = refl

-- The program stores 5.
stored_word : load_word stored.main_memory 640 ≡ 5
unfolding run_user one_instruction
stored_word = refl

frame_0 : ¬ Permits (at_pc 0) 0 true
frame_0 p = by_place p.place p.stored p.at_frame
  where
    by_place :
        (k : ℕ) {e : TranslationEntry}
        → get_elem? program_table k ≡ some e
        → e.physical_page ≡ 0
        → ⊥
    by_place zero g f = ground arith
    by_place (suc zero) g f = ground arith
    by_place (suc (suc k)) g f = cc

run_user-confined_example : stored.main_memory 7 ≡ program_memory 7
run_user-confined_example =
    run_user-confined 2 (at_pc 0) stored (at_pc-IsMachine 0 (omega arith)) (inl stored_run) 7
      frame_0

abbrev at_syscall : Machine
at_syscall = elim (one_instruction (at_pc 8)) [
  | done m ↦ m
  | trapped which m ↦ m
  | aborted ↦ at_pc 8
]

syscall_trap : one_instruction (at_pc 8) ≡ trapped syscall_exception at_syscall
unfolding one_instruction
syscall_trap = refl

one_instruction-Restarted_example : Restarted (at_pc 8) syscall_exception at_syscall
one_instruction-Restarted_example =
    one_instruction-Restarted (at_pc 8) at_syscall syscall_exception
      (at_pc-IsMachine 8 (omega arith)) syscall_trap

decode-assemble_example :
    ((decode (assemble (layout op_lw) 29 4 0 0x8010)).op_code ≡ op_lw)
    × HasFields (layout op_lw) 29 4 0 0x8010 (decode (assemble (layout op_lw) 29 4 0 0x8010))
decode-assemble_example =
    decode-assemble op_lw 29 4 0 0x8010 (omega arith) (omega arith) (omega arith)
      (unfold layout in omega arith)

abbrev halves : Machine
halves = elim (write_mem 130 2 0x1_2345 (at_pc 0)) [
  | done m ↦ m
  | trapped which m ↦ m
  | aborted ↦ at_pc 0
]

halves_run : write_mem 130 2 0x1_2345 (at_pc 0) ≡ done halves
unfolding write_mem
halves_run = refl

read_mem-write_mem_example :
    (m'' : Machine) × (read_mem 130 2 halves ≡ done (clip 2 0x1_2345, m''))
    × (m''.main_memory ≡ halves.main_memory)
read_mem-write_mem_example =
    read_mem-write_mem 130 2 0x1_2345 (at_pc 0) halves (inr (inl refl)) (omega arith) halves_run

unaligned_load-load_word_example :
    unaligned_load (λ a. a % 0x100) 6 0xdead_beef ≡ load_word (λ a. a % 0x100) 6
unaligned_load-load_word_example =
    unaligned_load-load_word (λ a. a % 0x100) 6 0xdead_beef (λ a. omega arith) (omega arith)

-- Registers with the ends of the range of an int
abbrev ends : Machine
ends = record (at_pc 0) { registers = assign 3 0x7fff_ffff (assign 4 0x8000_0001 (λ _. 0)) }

abbrev of_registers : Instruction
of_registers = record { op_code = op_addi; rs = 3; rt = 4; rd = 5; extra = 1 }

execute_op-checked_example :
    (execute_op op_add of_registers 4 ends
      ≡ checked 5 (int_of 0x7fff_ffff +ℤ int_of 0x8000_0001) 4 ends)
    × (execute_op op_addi of_registers 4 ends ≡ checked 4 (int_of 0x7fff_ffff +ℤ int_of 1) 4 ends)
    × (execute_op op_sub of_registers 4 ends
        ≡ checked 5 (int_of 0x7fff_ffff -ℤ int_of 0x8000_0001) 4 ends)
execute_op-checked_example =
    execute_op-checked of_registers 4 ends (omega arith) (omega arith) (omega arith)

execute_op-compare_example :
    (execute_op op_slt of_registers 4 ends
      ≡ goes_on 4
          (with_register 5 (if ltb_ℤ (int_of 0x7fff_ffff) (int_of 0x8000_0001) then 1 else 0) ends))
    × (execute_op op_slti of_registers 4 ends
        ≡ goes_on 4 (with_register 4 (if ltb_ℤ (int_of 0x7fff_ffff) (int_of 1) then 1 else 0) ends))
    × (execute_op op_bgtz of_registers 4 ends
        ≡ goes_on (if ltb_ℤ (pos 0) (int_of 0x7fff_ffff) then relative ends 1 else 4) ends)
    × (execute_op op_blez of_registers 4 ends
        ≡ goes_on (if ltb_ℤ (pos 0) (int_of 0x7fff_ffff) then 4 else relative ends 1) ends)
execute_op-compare_example =
    execute_op-compare of_registers 4 ends (omega arith) (omega arith) (omega arith)

-- srl r5, r4, 1 and srlv r5, r4, r3
abbrev shift_field : Instruction
shift_field = record { op_code = op_srl; rs = 0; rt = 4; rd = 5; extra = 1 }

abbrev shift_register : Instruction
shift_register = record { op_code = op_srlv; rs = 3; rt = 4; rd = 5; extra = 0 }

decode_shifts : (decode 0x0004_2842 ≡ shift_field) × (decode 0x0064_2806 ≡ shift_register)
unfolding decode op_info op_table special_table decode_op decode_extra
decode_shifts = (refl, refl)

srl-negative_example :
    (v : ℕ) × (execute_op op_srl shift_field 4 ends ≡ goes_on 4 (with_register 5 v ends))
    × (sign_bit ≤ v)
    × (v < word_size)
    × 0x8000_0001 / 2 ^ 1 < sign_bit
srl-negative_example =
    srl-negative op_srl shift_field 4 ends 1 (inl (refl, refl)) (omega arith) (omega arith)
      (omega arith)

-- The same program in the first of two processes, whose pages are the frames 0 and 1.
abbrev first_process : Machine
first_process = record (at_pc 0) {
  main_memory = store_word 4 0xac02_0080 (store_word 0 0x2002_0005 (λ _. 0));
  page_table = some first_table;
}

first_process-IsMachine : IsMachine first_process
first_process-IsMachine = record {
  words = λ j. ground arith;
  zero_reg = refl;
  load = omega arith;
  bytes = λ a. ground arith;
  one_table = tt;
}

abbrev first_stored : Machine
first_stored = elim (run_user 2 first_process) [
  | done m ↦ m
  | trapped which m ↦ m
  | aborted ↦ first_process
]

first_run : run_user 2 first_process ≡ done first_stored
unfolding run_user one_instruction
first_run = refl

run_user-isolation_example : first_stored.main_memory 261 ≡ first_process.main_memory 261
run_user-isolation_example =
    run_user-isolation 2 first_process first_stored first_table second_table _ 5 261 false
      two_processes-Reach (inr (record { before = []; middle = []; after = []; here = refl }))
      first_process-IsMachine refl refl (inl first_run) translate_second
