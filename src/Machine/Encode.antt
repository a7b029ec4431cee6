-- ===== src/Machine/Encode.antt =====
-- The words of instructions by the formats of the MIPS architecture.
use nthu_operating_system_er.Base.{ℕ, ◌+◌, ◌-◌, ◌*◌, ◌<◌, ◌≡◌, ltb, if◌then◌else◌}
use nthu_operating_system_er.Mult.{word_size}
use nthu_operating_system_er.Machine.Decode.{
  Instruction, Op, op_add, op_addi, op_addiu, op_addu, op_and, op_andi, op_beq, op_bgez, op_bgezal,
  op_bgtz, op_blez, op_bltz, op_bltzal, op_bne, op_div, op_divu, op_j, op_jal, op_jalr, op_jr,
  op_lb, op_lbu, op_lh, op_lhu, op_lui, op_lw, op_lwl, op_lwr, op_mfhi, op_mflo, op_mthi, op_mtlo,
  op_mult, op_multu, op_nor, op_or, op_ori, op_sb, op_sh, op_sll, op_sllv, op_slt, op_slti,
  op_sltiu, op_sltu, op_sra, op_srav, op_srl, op_srlv, op_sub, op_subu, op_sw, op_swl, op_swr,
  op_xor, op_xori, op_syscall, op_unimp, op_res,
}

-- A format with its operation code: the function code, the opcode, or the code in the field of rt.
pub data Layout : Type 0 where
  r_layout i_layout j_layout b_layout : ℕ → Layout

-- The codes of the MIPS I instructions; op_unimp and op_res stand for one word of their kind each.
unfoldable pub layout : Op → Layout
layout op_add = r_layout 32
layout op_addi = i_layout 8
layout op_addiu = i_layout 9
layout op_addu = r_layout 33
layout op_and = r_layout 36
layout op_andi = i_layout 12
layout op_beq = i_layout 4
layout op_bgez = b_layout 1
layout op_bgezal = b_layout 17
layout op_bgtz = i_layout 7
layout op_blez = i_layout 6
layout op_bltz = b_layout 0
layout op_bltzal = b_layout 16
layout op_bne = i_layout 5
layout op_div = r_layout 26
layout op_divu = r_layout 27
layout op_j = j_layout 2
layout op_jal = j_layout 3
layout op_jalr = r_layout 9
layout op_jr = r_layout 8
layout op_lb = i_layout 32
layout op_lbu = i_layout 36
layout op_lh = i_layout 33
layout op_lhu = i_layout 37
layout op_lui = i_layout 15
layout op_lw = i_layout 35
layout op_lwl = i_layout 34
layout op_lwr = i_layout 38
layout op_mfhi = r_layout 16
layout op_mflo = r_layout 18
layout op_mthi = r_layout 17
layout op_mtlo = r_layout 19
layout op_mult = r_layout 24
layout op_multu = r_layout 25
layout op_nor = r_layout 39
layout op_or = r_layout 37
layout op_ori = i_layout 13
layout op_sb = i_layout 40
layout op_sh = i_layout 41
layout op_sll = r_layout 0
layout op_sllv = r_layout 4
layout op_slt = r_layout 42
layout op_slti = i_layout 10
layout op_sltiu = i_layout 11
layout op_sltu = r_layout 43
layout op_sra = r_layout 3
layout op_srav = r_layout 7
layout op_srl = r_layout 2
layout op_srlv = r_layout 6
layout op_sub = r_layout 34
layout op_subu = r_layout 35
layout op_sw = i_layout 43
layout op_swl = i_layout 42
layout op_swr = i_layout 46
layout op_xor = r_layout 38
layout op_xori = i_layout 14
layout op_syscall = r_layout 12
layout op_unimp = i_layout 16
layout op_res = i_layout 20

-- The word of an instruction; the last number is the shift amount, the immediate or the target.
unfoldable pub assemble : Layout → ℕ → ℕ → ℕ → ℕ → ℕ
assemble (r_layout f) rs rt rd x = rs * 0x20_0000 + rt * 0x1_0000 + rd * 0x800 + x * 64 + f
assemble (i_layout o) rs rt rd x = o * 0x400_0000 + rs * 0x20_0000 + rt * 0x1_0000 + x
assemble (j_layout o) rs rt rd x = o * 0x400_0000 + x
assemble (b_layout c) rs rt rd x = 0x400_0000 + rs * 0x20_0000 + c * 0x1_0000 + x

abbrev pub FitsField : Layout → ℕ → Type 0
FitsField (r_layout f) x = x < 32
FitsField (i_layout o) x = x < 0x1_0000
FitsField (j_layout o) x = x < 0x400_0000
FitsField (b_layout c) x = x < 0x1_0000

-- The word of the int that 16 bits stand for: x, or x - 2 ^ 16 from 2 ^ 15 on.
abbrev pub signed_half : ℕ → ℕ
signed_half x = if ltb x 0x8000 then x else word_size - (0x1_0000 - x)

-- The fields of the format are in the instruction, an immediate with its sign.
abbrev pub HasFields : Layout → ℕ → ℕ → ℕ → ℕ → Instruction → Type 0
HasFields (r_layout f) rs rt rd x i = (i.rs ≡ rs) × (i.rt ≡ rt) × (i.rd ≡ rd) × (i.extra ≡ x)
HasFields (i_layout o) rs rt rd x i = (i.rs ≡ rs) × (i.rt ≡ rt) × (i.extra ≡ signed_half x)
HasFields (j_layout o) rs rt rd x i = i.extra ≡ x
HasFields (b_layout c) rs rt rd x i = (i.rs ≡ rs) × (i.extra ≡ signed_half x)
