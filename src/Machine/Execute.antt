-- ===== src/Machine/Execute.antt =====
-- MP4 code/machine/mipssim.cc: the switch of OneInstruction, OneInstruction itself and the loop of Run.
-- SIM_FIX is defined, as the Makefiles do.
use nthu_operating_system_er.Base.{ℕ, ◌-◌, ◌/◌, ◌%◌, Bool, ◌&&◌, not, ◌==◌, if◌then◌else◌}
use nthu_operating_system_er.Mult.{word_size, sign_bit, differ, mult}
use nthu_operating_system_er.Machine.{
  Machine, assign, Outcome, done, aborted, ◌>>=◌, raise_exception, address_error_exception,
  overflow_exception, hi_reg, lo_reg, next_pc_reg, load_reg, load_value_reg,
}
use nthu_operating_system_er.Machine.Word.{
  is_neg, add_word, sub_word, shift_left, arithmetic_shift, and_word, or_word, div_int, mod_int,
}
use nthu_operating_system_er.Machine.Decode.{Instruction}
use nthu_operating_system_er.Machine.Translate.{read_mem, write_mem}

-- What the switch leaves for the end of OneInstruction.
pub record Executed : Type 0 where
  pub machine : Machine
  pub next_load_reg : ℕ
  pub next_load_value : ℕ
  pub pc_after : ℕ

-- The end of a case that starts no delayed load.
unfoldable pub finish : ℕ → Machine → Outcome Executed
finish pc_after m =
    done (record { machine = m; next_load_reg = 0; next_load_value = 0; pc_after = pc_after })

-- A case that only writes a register.
unfoldable pub write_to : ℕ → ℕ → ℕ → Machine → Outcome Executed
unfolding finish
write_to reg value pc_after m =
    finish pc_after (record m { registers = assign reg value m.registers })

-- The two writes of a case that writes Lo and Hi.
unfoldable pub write_lo_hi : ℕ → ℕ → ℕ → Machine → Outcome Executed
unfolding finish
write_lo_hi lo hi pc_after m =
    finish pc_after (record m { registers = assign hi_reg hi (assign lo_reg lo m.registers) })

-- ADD and ADDI: the sum of two words overflows if their signs agree and the sum's differs from one's.
unfoldable pub add_checked : ℕ → ℕ → ℕ → ℕ → ℕ → Machine → Outcome Executed
unfolding raise_exception write_to
add_checked reg a b tested pc_after m =
    let sum = add_word a b in
    if not (differ (is_neg a) (is_neg b)) && differ (is_neg tested) (is_neg sum)
    then raise_exception overflow_exception 0 m
    else write_to reg sum pc_after m

unfoldable pub sub_checked : ℕ → ℕ → ℕ → ℕ → Machine → Outcome Executed
unfolding raise_exception write_to
sub_checked reg a b pc_after m =
    let diff = sub_word a b in
    if differ (is_neg a) (is_neg b) && differ (is_neg a) (is_neg diff)
    then raise_exception overflow_exception 0 m
    else write_to reg diff pc_after m

-- registers[NextPCReg] + IndexToAddr(extra)
abbrev pub branch_target : Instruction → Machine → ℕ
branch_target i m = add_word (m.registers next_pc_reg) (shift_left i.extra 2)

unfoldable pub branch : Bool → Instruction → ℕ → Machine → Outcome Executed
unfolding finish
branch taken i pc_after m = finish (if taken then branch_target i m else pc_after) m

-- registers[reg] = registers[NextPCReg] + 4
abbrev pub link : ℕ → Machine → Machine
link reg m = record m { registers = assign reg (add_word (m.registers next_pc_reg) 4) m.registers }

-- (pcAfter & 0xf0000000) | IndexToAddr(extra)
abbrev pub jump_target : Instruction → ℕ → ℕ
jump_target i pc_after = or_word (and_word pc_after 0xf000_0000) (shift_left i.extra 2)

-- A division of the signed integers that C++ does not define aborts.
unfoldable pub divide : ℕ → ℕ → ℕ → Machine → Outcome Executed
unfolding write_lo_hi
divide a b pc_after m =
    if b == 0
    then write_lo_hi 0 0 pc_after m
    else if a == sign_bit && b == word_size - 1
    then aborted
    else write_lo_hi (div_int a b) (mod_int a b) pc_after m

unfoldable pub divide_unsigned : ℕ → ℕ → ℕ → Machine → Outcome Executed
unfolding write_lo_hi
divide_unsigned a b pc_after m =
    if b == 0 then write_lo_hi 0 0 pc_after m else write_lo_hi (a / b) (a % b) pc_after m

-- Mult(a, b, signed_arith, &registers[HiReg], &registers[LoReg])
unfoldable pub multiply : Bool → ℕ → ℕ → ℕ → Machine → Outcome Executed
unfolding write_lo_hi mult
multiply signed_arith a b pc_after m =
    write_lo_hi (mult a b signed_arith).1 (mult a b signed_arith).0 pc_after m

-- tmp = registers[rs] + extra
abbrev pub address : Instruction → Machine → ℕ
address i m = add_word (m.registers i.rs) i.extra

-- The end of a load.
unfoldable pub load_later : ℕ → ℕ → ℕ → Machine → Outcome Executed
load_later reg value pc_after m =
    done (record { machine = m; next_load_reg = reg; next_load_value = value; pc_after = pc_after })

abbrev pub extend_byte : Bool → ℕ → ℕ
extend_byte signed value =
    if value / 0x80 % 2 == 1 && signed then or_word value 0xffff_ff00 else value % 0x100

abbrev pub extend_half : Bool → ℕ → ℕ
extend_half signed value =
    if value / 0x8000 % 2 == 1 && signed then or_word value 0xffff_0000 else value % 0x1_0000

-- LB and LBU
unfoldable pub load_byte : Bool → Instruction → ℕ → Machine → Outcome Executed
unfolding read_mem load_later
load_byte signed i pc_after m = do
  (value, m') ← read_mem (address i m) 1 m
  load_later i.rt (extend_byte signed value) pc_after m'

-- LH and LHU
unfoldable pub load_half_word : Bool → Instruction → ℕ → Machine → Outcome Executed
unfolding read_mem load_later raise_exception
load_half_word signed i pc_after m =
    if address i m % 2 == 1 then raise_exception address_error_exception (address i m) m else (do
      (value, m') ← read_mem (address i m) 2 m
      load_later i.rt (extend_half signed value) pc_after m')

-- LW
unfoldable pub load_full_word : Instruction → ℕ → Machine → Outcome Executed
unfolding read_mem load_later raise_exception
load_full_word i pc_after m =
    if not (address i m % 4 == 0)
    then raise_exception address_error_exception (address i m) m
    else (do (value, m') ← read_mem (address i m) 4 m; load_later i.rt value pc_after m')

-- The register that LWL and LWR change, with a delayed load of it under way.
abbrev pub pending : ℕ → Machine → ℕ
pending reg m = if m.registers load_reg == reg then m.registers load_value_reg else m.registers reg

-- The switches of LWL and LWR on 3 - byte
unfoldable pub merge_left : ℕ → ℕ → ℕ → ℕ
merge_left byte old value =
    if 3 - byte == 0
    then value
    else if 3 - byte == 1
    then or_word (old % 0x100) (shift_left value 8)
    else if 3 - byte == 2
    then or_word (old % 0x1_0000) (shift_left value 16)
    else or_word (old % 0x100_0000) (shift_left value 24)

unfoldable pub merge_right : ℕ → ℕ → ℕ → ℕ
merge_right byte old value =
    if 3 - byte == 0
    then or_word (and_word old 0xffff_ff00) (arithmetic_shift value 24 % 0x100)
    else if 3 - byte == 1
    then or_word (and_word old 0xffff_0000) (arithmetic_shift value 16 % 0x1_0000)
    else if 3 - byte == 2
    then or_word (and_word old 0xff00_0000) (arithmetic_shift value 8 % 0x100_0000)
    else value

-- LWL and LWR, by their switch
unfoldable pub load_merged : (ℕ → ℕ → ℕ → ℕ) → Instruction → ℕ → Machine → Outcome Executed
unfolding read_mem load_later
load_merged merge i pc_after m = do
  let byte : ℕ = address i m % 4
  (value, m') ← read_mem (address i m - byte) 4 m
  load_later i.rt (merge byte (pending i.rt m') value) pc_after m'

-- SB, SH and SW
unfoldable pub store_size : ℕ → Instruction → ℕ → Machine → Outcome Executed
unfolding write_mem finish
store_size size i pc_after m = do
  m' ← write_mem (address i m) size (m.registers i.rt) m
  finish pc_after m'

-- The switches of SWL and SWR on 3 - byte
unfoldable pub store_left : ℕ → ℕ → ℕ → ℕ
store_left byte reg value =
    if 3 - byte == 0
    then reg
    else if 3 - byte == 1
    then or_word (and_word value 0xff00_0000) (arithmetic_shift reg 8 % 0x100_0000)
    else if 3 - byte == 2
    then or_word (and_word value 0xffff_0000) (arithmetic_shift reg 16 % 0x1_0000)
    else or_word (and_word value 0xffff_ff00) (arithmetic_shift reg 24 % 0x100)

unfoldable pub store_right : ℕ → ℕ → ℕ → ℕ
store_right byte reg value =
    if 3 - byte == 0
    then or_word (value % 0x100_0000) (shift_left reg 24)
    else if 3 - byte == 1
    then or_word (value % 0x1_0000) (shift_left reg 16)
    else if 3 - byte == 2
    then or_word (value % 0x100) (shift_left reg 8)
    else reg

-- SWL and SWR, by their switch
unfoldable pub store_merged : (ℕ → ℕ → ℕ → ℕ) → Instruction → ℕ → Machine → Outcome Executed
unfolding read_mem write_mem finish
store_merged merge i pc_after m = do
  let byte : ℕ = address i m % 4
  (value, m') ← read_mem (address i m - byte) 4 m
  m'' ← write_mem (address i m - byte) 4 (merge byte (m'.registers i.rt) value) m'
  finish pc_after m''
