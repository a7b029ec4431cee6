-- ===== src/Machine.antt =====
-- MP4 code/machine/machine.h, machine.cc: the registers of the simulated machine, its exceptions and
-- the delayed load. A register is a word of 32 bits; the memory is a function from addresses to bytes.
pub mod Word
pub mod Decode
pub mod Encode
pub mod Decoded
pub mod Translate
pub mod Execute
pub mod Step
pub mod Post
pub mod Bounds
pub mod Mapping
pub mod Access
pub mod Answers
pub mod Transfer
pub mod Confined
pub mod Progress
pub mod Accesses
pub mod Switch
pub mod Invariant
pub mod Runs
pub mod Signed
pub mod Masks
pub mod Unaligned
pub mod Again
pub mod RoundTrip
pub mod Shift
pub mod Isolation
pub mod Examples
use nthu_operating_system_er.Base.{
  ℕ, ◌<◌, Bool, false, List, [], ◌∷◌, Option, none, some, ltb, ◌==◌, if◌then◌else◌, ◌>>◌, assert,
}
use nthu_operating_system_er.AddrSpace.{TranslationEntry, Memory}

pub data ExceptionType : Type 0 where
  no_exception syscall_exception page_fault_exception read_only_exception : ExceptionType
  bus_error_exception address_error_exception overflow_exception illegal_instr_exception :
      ExceptionType

abbrev pub num_gp_regs : ℕ
num_gp_regs = 32

abbrev pub ret_addr_reg : ℕ
ret_addr_reg = 31

abbrev pub hi_reg : ℕ
hi_reg = 32

abbrev pub lo_reg : ℕ
lo_reg = 33

abbrev pub pc_reg : ℕ
pc_reg = 34

abbrev pub next_pc_reg : ℕ
next_pc_reg = 35

abbrev pub prev_pc_reg : ℕ
prev_pc_reg = 36

abbrev pub load_reg : ℕ
load_reg = 37

abbrev pub load_value_reg : ℕ
load_value_reg = 38

abbrev pub bad_vaddr_reg : ℕ
bad_vaddr_reg = 39

abbrev pub num_total_regs : ℕ
num_total_regs = 40

abbrev pub Registers : Type 0
Registers = ℕ → ℕ

-- registers[i] = v
abbrev pub assign : ℕ → ℕ → Registers → Registers
assign i v registers j = if j == i then v else registers j

-- A NULL tlb or pageTable is `none`; the size of a table is its length.
pub record Machine : Type 0 where
  pub registers : Registers
  pub main_memory : Memory
  pub tlb : Option (List TranslationEntry)
  pub page_table : Option (List TranslationEntry)

-- Machine::Machine, without USE_TLB
abbrev pub new_machine : Machine
new_machine = record { registers = λ _. 0; main_memory = λ _. 0; tlb = none; page_table = none }

-- Machine::ReadRegister
unfoldable pub read_register : ℕ → Machine → Option ℕ
read_register num m = assert (ltb num num_total_regs) >> some (m.registers num)

-- Machine::WriteRegister
unfoldable pub write_register : ℕ → ℕ → Machine → Option Machine
write_register num value m =
    assert (ltb num num_total_regs) >> some (record m { registers = assign num value m.registers })

-- Machine::DelayedLoad on the registers
unfoldable pub delayed_load : ℕ → ℕ → Registers → Registers
delayed_load next_reg next_value r =
    let loaded : Registers = assign (r load_reg) (r load_value_reg) r in
    assign 0 0 (assign load_value_reg next_value (assign load_reg next_reg loaded))

-- What an operation comes to: a value, a trap into ExceptionHandler, or a failed ASSERT.
pub data Outcome {ℓ} (A : Type ℓ) : Type ℓ where
  done : A → Outcome A
  trapped : ExceptionType → Machine → Outcome A
  aborted : Outcome A

infixl 5 ◌>>=◌
abbrev pub ◌>>=◌ {ℓ κ} : {A : Type ℓ} {B : Type κ} → Outcome A → (A → Outcome B) → Outcome B
done a >>= f = f a
trapped which m >>= f = trapped which m
aborted >>= f = aborted

-- Machine::RaiseException up to the call of ExceptionHandler, which takes this machine.
unfoldable pub raise_exception {ℓ} : {A : Type ℓ} → ExceptionType → ℕ → Machine → Outcome A
unfolding delayed_load
raise_exception which bad_vaddr m =
    trapped which
      (record m { registers = delayed_load 0 0 (assign bad_vaddr_reg bad_vaddr m.registers) })
