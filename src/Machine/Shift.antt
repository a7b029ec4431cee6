-- ===== src/Machine/Shift.antt =====
-- The right shifts: SRL and SRLV shift an int, as SRA and SRAV do.
use native.Mathlib.Nat.{pow-succ', div-le_self, div-div-eq-div-mul}
use nthu_operating_system_er.Base.{
  ℕ, zero, suc, ◌-◌, ◌/◌, ◌%◌, ◌^◌, ◌≤◌, ◌<◌, ◌≡◌, sym, ◌∙◌, ap, arith, ◌⊎◌, inl, inr,
}
use nthu_operating_system_er.Mult.{word_size, sign_bit}
use nthu_operating_system_er.Machine.{Machine}
use nthu_operating_system_er.Machine.Word.{arithmetic_shift}
use nthu_operating_system_er.Machine.Decode.{Op, Instruction, op_srl, op_srlv}
use nthu_operating_system_er.Machine.Execute.{write_to, finish}
use nthu_operating_system_er.Machine.Step.{execute_op}
use nthu_operating_system_er.Machine.Signed.{goes_on, with_register}

-- The logical shift of a word by one place or more is not negative.
logical-lt : (a k : ℕ) → a < word_size → 0 < k → a / 2 ^ k < sign_bit
logical-lt a zero h p = absurd (omega arith)
logical-lt a (suc k) h p =
    let e : a / 2 ^ suc k ≡ a / 2 / 2 ^ k =
      ap (λ (d : ℕ). a / d) (pow-succ' 2 k) ∙ sym (div-div-eq-div-mul a 2 (2 ^ k)) in
    omega (arith, e, div-le_self (a / 2) (2 ^ k))

arithmetic-le : (a k : ℕ) → sign_bit ≤ a → a < word_size → sign_bit ≤ arithmetic_shift a k
arithmetic-le a k h l = ground (arith, div-le_self (word_size - 1 - a) (2 ^ k))

arithmetic-lt : (a k : ℕ) → sign_bit ≤ a → arithmetic_shift a k < word_size
arithmetic-lt a k h = ground arith

-- The shift amount: the field of SRL, and the last five bits of rs for SRLV.
abbrev pub ShiftsBy : Op → Instruction → Machine → ℕ → Type 0
ShiftsBy op i m k = ((op ≡ op_srl) × (k ≡ i.extra)) ⊎ ((op ≡ op_srlv) × (k ≡ m.registers i.rs % 32))

srl_run :
    (op : Op) (i : Instruction) (pc : ℕ) (m : Machine) (k : ℕ)
    → ShiftsBy op i m k
    → execute_op op i pc m
      ≡ goes_on pc (with_register i.rd (arithmetic_shift (m.registers i.rt) k) m)
unfolding execute_op write_to finish
srl_run op i pc m k (inl (o, e)) = rw (o, e)
srl_run op i pc m k (inr (o, e)) = rw (o, e)

-- On a negative word, with a shift amount of one or more, SRL, and SRLV, each write a negative word,
-- while the logical shift by that amount is not negative.
pub srl-negative :
    (op : Op) (i : Instruction) (pc : ℕ) (m : Machine) (k : ℕ)
    → ShiftsBy op i m k
    → 0 < k
    → sign_bit ≤ m.registers i.rt
    → m.registers i.rt < word_size
    → (v : ℕ) × (execute_op op i pc m ≡ goes_on pc (with_register i.rd v m))
      × (sign_bit ≤ v)
      × (v < word_size)
      × m.registers i.rt / 2 ^ k < sign_bit
srl-negative op i pc m k by p h l = (
  arithmetic_shift (m.registers i.rt) k,
  srl_run op i pc m k by,
  arithmetic-le (m.registers i.rt) k h l,
  arithmetic-lt (m.registers i.rt) k h,
  logical-lt (m.registers i.rt) k l p,
)
