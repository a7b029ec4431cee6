-- ===== src/Machine/Signed.antt =====
-- ADD, ADDI, SUB and the comparisons with ints against the arithmetic of the integers.
use nthu_operating_system_er.Base.{
  ◌⊎◌, inl, inr, ℕ, ◌+◌, ◌-◌, ◌*◌, ◌%◌, ◌<◌, ◌∙◌, ◌==◌, ◌≡◌, refl, ap, Bool, true, false, ◌&&◌, not,
  arith, ltb, leb, if◌then◌else◌, ℤ, pos, negsuc, pos_part, neg_part, sub_ℕ, ltb_ℤ,
}
use nthu_operating_system_er.Mult.{word_size, sign_bit, differ}
use nthu_operating_system_er.Machine.{
  Machine, Outcome, done, raise_exception, overflow_exception, next_pc_reg,
}
use nthu_operating_system_er.Machine.Word.{is_neg, lt_int, add_word, sub_word}
use nthu_operating_system_er.Machine.Decode.{
  Instruction, op_add, op_addi, op_sub, op_slt, op_slti, op_bgtz, op_blez,
}
use nthu_operating_system_er.Machine.Step.{execute_op}
use nthu_operating_system_er.Machine.Execute.{
  Executed, write_to, finish, branch, add_checked, sub_checked,
}

-- The int of a word, and the word of an int.
abbrev pub int_of : ℕ → ℤ
int_of a = if is_neg a then negsuc (word_size - 1 - a) else pos a

abbrev pub word_of : ℤ → ℕ
word_of (pos n) = n
word_of (negsuc n) = word_size - 1 - n

infixl 60 ◌+ℤ◌ ◌-ℤ◌
abbrev pub ◌+ℤ◌ : ℤ → ℤ → ℤ
x +ℤ y = sub_ℕ (pos_part x + pos_part y) (neg_part x + neg_part y)

abbrev pub ◌-ℤ◌ : ℤ → ℤ → ℤ
x -ℤ y = sub_ℕ (pos_part x + neg_part y) (neg_part x + pos_part y)

-- The range of an int
abbrev pub in_range : ℤ → Bool
in_range z = ltb (pos_part z) sign_bit && leb (neg_part z) sign_bit

-- The test of ADD and ADDI, with either operand
sum_overflows :
    (a b tested : ℕ)
    → a < word_size
    → b < word_size
    → (tested ≡ a) ⊎ (tested ≡ b)
    → (not (differ (is_neg a) (is_neg b)) && differ (is_neg tested) (is_neg (add_word a b)))
      ≡ not (in_range (int_of a +ℤ int_of b))
sum_overflows a b tested h k (inl e) = rw e (ground arith)
sum_overflows a b tested h k (inr e) = rw e (ground arith)

sum_value :
    (a b : ℕ)
    → a < word_size
    → b < word_size
    → in_range (int_of a +ℤ int_of b) ≡ true
    → add_word a b ≡ word_of (int_of a +ℤ int_of b)
sum_value a b h k e = ground arith

diff_overflows :
    (a b : ℕ)
    → a < word_size
    → b < word_size
    → (differ (is_neg a) (is_neg b) && differ (is_neg a) (is_neg (sub_word a b)))
      ≡ not (in_range (int_of a -ℤ int_of b))
diff_overflows a b h k = ground arith

diff_value :
    (a b : ℕ)
    → a < word_size
    → b < word_size
    → in_range (int_of a -ℤ int_of b) ≡ true
    → sub_word a b ≡ word_of (int_of a -ℤ int_of b)
diff_value a b h k e = ground arith

-- The instruction ends with no load under way, in this machine and with this pc.
abbrev pub goes_on : ℕ → Machine → Outcome Executed
goes_on pc m = done (record { machine = m; next_load_reg = 0; next_load_value = 0; pc_after = pc })

-- The machine with one register replaced.
abbrev pub with_register : ℕ → ℕ → Machine → Machine
with_register reg v m = record m { registers = λ (j : ℕ). if j == reg then v else m.registers j }

-- What an instruction with an overflow check does for an exact result.
abbrev pub checked : ℕ → ℤ → ℕ → Machine → Outcome Executed
checked reg z pc m =
    if in_range z
    then goes_on pc (with_register reg (word_of z) m)
    else raise_exception overflow_exception 0 m

choose :
    {A : Type 0} (overflow fits : Bool) (x y y' : A)
    → overflow ≡ not fits
    → (fits ≡ true → y ≡ y')
    → (if overflow then x else y) ≡ (if fits then y' else x)
choose overflow true x y y' e same = rw e (same refl)
choose overflow false x y y' e same = rw e

add_checked-checked :
    (reg a b tested pc : ℕ) (m : Machine)
    → a < word_size
    → b < word_size
    → (tested ≡ a) ⊎ (tested ≡ b)
    → add_checked reg a b tested pc m ≡ checked reg (int_of a +ℤ int_of b) pc m
unfolding add_checked write_to finish
add_checked-checked reg a b tested pc m h k t =
    choose _ (in_range (int_of a +ℤ int_of b)) (raise_exception overflow_exception 0 m)
      (goes_on pc (with_register reg (add_word a b) m))
      (goes_on pc (with_register reg (word_of (int_of a +ℤ int_of b)) m))
      (sum_overflows a b tested h k t)
      (λ e. ap (λ v. goes_on pc (with_register reg v m)) (sum_value a b h k e))

sub_checked-checked :
    (reg a b pc : ℕ) (m : Machine)
    → a < word_size
    → b < word_size
    → sub_checked reg a b pc m ≡ checked reg (int_of a -ℤ int_of b) pc m
unfolding sub_checked write_to finish
sub_checked-checked reg a b pc m h k =
    choose _ (in_range (int_of a -ℤ int_of b)) (raise_exception overflow_exception 0 m)
      (goes_on pc (with_register reg (sub_word a b) m))
      (goes_on pc (with_register reg (word_of (int_of a -ℤ int_of b)) m)) (diff_overflows a b h k)
      (λ e. ap (λ v. goes_on pc (with_register reg v m)) (diff_value a b h k e))

-- On words ADD, ADDI and SUB write the sum or the difference of the ints if it is in the range of
-- an int, and otherwise raise the overflow exception and write nothing.
pub execute_op-checked :
    (i : Instruction) (pc : ℕ) (m : Machine)
    → m.registers i.rs < word_size
    → m.registers i.rt < word_size
    → i.extra < word_size
    → (execute_op op_add i pc m
        ≡ checked i.rd (int_of (m.registers i.rs) +ℤ int_of (m.registers i.rt)) pc m)
      × (execute_op op_addi i pc m
          ≡ checked i.rt (int_of (m.registers i.rs) +ℤ int_of i.extra) pc m)
      × (execute_op op_sub i pc m
          ≡ checked i.rd (int_of (m.registers i.rs) -ℤ int_of (m.registers i.rt)) pc m)
unfolding execute_op
execute_op-checked i pc m h k l = (
  add_checked-checked i.rd (m.registers i.rs) (m.registers i.rt) (m.registers i.rs) pc m h k
      (inl refl),
  add_checked-checked i.rt (m.registers i.rs) i.extra i.extra pc m h l (inr refl),
  sub_checked-checked i.rd (m.registers i.rs) (m.registers i.rt) pc m h k,
)

lt_int-ltb : (a b : ℕ) → a < word_size → b < word_size → lt_int a b ≡ ltb_ℤ (int_of a) (int_of b)
lt_int-ltb a b h k = ground arith

-- The address so many instructions behind the next one.
abbrev pub relative : Machine → ℕ → ℕ
relative m distance = (m.registers next_pc_reg + 4 * distance) % word_size

branch-goes_on :
    (taken : Bool) (i : Instruction) (pc : ℕ) (m : Machine)
    → branch taken i pc m ≡ goes_on (if taken then relative m i.extra else pc) m
unfolding branch finish
branch-goes_on true i pc m = ap (λ (t : ℕ). goes_on t m) (omega arith)
branch-goes_on false i pc m = refl

-- On words SLT and SLTI write 1 or 0 as the first int is below the second or not, and go on. BGTZ
-- goes on at the address of the next instruction and 4 times the immediate, modulo 2 ^ 32, if the int
-- is above 0, and otherwise at the given address; BLEZ does so the other way round. They change nothing
-- else, and no load is under way.
pub execute_op-compare :
    (i : Instruction) (pc : ℕ) (m : Machine)
    → m.registers i.rs < word_size
    → m.registers i.rt < word_size
    → i.extra < word_size
    → (execute_op op_slt i pc m
        ≡ goes_on pc (
            with_register i.rd
              (if ltb_ℤ (int_of (m.registers i.rs)) (int_of (m.registers i.rt)) then 1 else 0)
              m))
      × (execute_op op_slti i pc m
          ≡ goes_on pc (
              with_register i.rt
                (if ltb_ℤ (int_of (m.registers i.rs)) (int_of i.extra) then 1 else 0)
                m))
      × (execute_op op_bgtz i pc m
          ≡ goes_on
              (if ltb_ℤ (pos 0) (int_of (m.registers i.rs)) then relative m i.extra else pc)
              m)
      × (execute_op op_blez i pc m
          ≡ goes_on
              (if ltb_ℤ (pos 0) (int_of (m.registers i.rs)) then pc else relative m i.extra)
              m)
unfolding execute_op write_to finish
execute_op-compare i pc m h k l = (
  ap (λ (b : Bool). goes_on pc (with_register i.rd (if b then 1 else 0) m))
      (lt_int-ltb (m.registers i.rs) (m.registers i.rt) h k),
  ap (λ (b : Bool). goes_on pc (with_register i.rt (if b then 1 else 0) m))
      (lt_int-ltb (m.registers i.rs) i.extra h l),
  branch-goes_on (lt_int 0 (m.registers i.rs)) i pc m
      ∙ ap (λ (b : Bool). goes_on (if b then relative m i.extra else pc) m) above,
  branch-goes_on (not (lt_int 0 (m.registers i.rs))) i pc m
      ∙ ap (λ (b : Bool). goes_on (if not b then relative m i.extra else pc) m) above
      ∙ other_way (ltb_ℤ (pos 0) (int_of (m.registers i.rs))) (relative m i.extra) pc,
)
  where
    above : lt_int 0 (m.registers i.rs) ≡ ltb_ℤ (pos 0) (int_of (m.registers i.rs))
    above = lt_int-ltb 0 (m.registers i.rs) (omega arith) h

    other_way :
        (b : Bool) (x y : ℕ) → goes_on (if not b then x else y) m ≡ goes_on (if b then y else x) m
    other_way true x y = refl
    other_way false x y = refl
