-- ===== src/Machine/Decode.antt =====
-- MP4 code/machine/mipssim.h and mipssim.cc: the opcodes, their tables and Instruction::Decode.
use nthu_operating_system_er.Base.{
  ℕ, ◌*◌, ◌/◌, ◌%◌, List, [], ◌∷◌, ◌++◌, ◌==◌, if◌then◌else◌, get_or, replicate,
}
use nthu_operating_system_er.Machine.Word.{sign_extend_half}

pub data Op : Type 0 where
  op_add op_addi op_addiu op_addu op_and op_andi : Op
  op_beq op_bgez op_bgezal op_bgtz op_blez op_bltz op_bltzal op_bne : Op
  op_div op_divu op_j op_jal op_jalr op_jr : Op
  op_lb op_lbu op_lh op_lhu op_lui op_lw op_lwl op_lwr : Op
  op_mfhi op_mflo op_mthi op_mtlo op_mult op_multu : Op
  op_nor op_or op_ori op_sb op_sh op_sll op_sllv op_slt op_slti op_sltiu op_sltu : Op
  op_sra op_srav op_srl op_srlv op_sub op_subu op_sw op_swl op_swr op_xor op_xori : Op
  op_syscall op_unimp op_res : Op

-- What opTable holds: an opcode, or a value for further decoding.
pub data TableCode : Type 0 where
  special bcond : TableCode
  code : Op → TableCode

pub data Format : Type 0 where
  ifmt jfmt rfmt : Format

pub record OpInfo : Type 0 where
  pub op_code : TableCode
  pub format : Format

abbrev immediate : Op → OpInfo
immediate op = record { op_code = code op; format = ifmt }

abbrev jump : Op → OpInfo
jump op = record { op_code = code op; format = jfmt }

abbrev unimp : ℕ → List OpInfo
unimp n = replicate n (immediate op_unimp)

abbrev res : ℕ → List OpInfo
res n = replicate n (immediate op_res)

unfoldable pub op_table : List OpInfo
op_table =
    record { op_code = special; format = rfmt }
    ∷ record { op_code = bcond; format = ifmt }
    ∷ jump op_j
    ∷ jump op_jal
    ∷ immediate op_beq
    ∷ immediate op_bne
    ∷ immediate op_blez
    ∷ immediate op_bgtz
    ∷ immediate op_addi
    ∷ immediate op_addiu
    ∷ immediate op_slti
    ∷ immediate op_sltiu
    ∷ immediate op_andi
    ∷ immediate op_ori
    ∷ immediate op_xori
    ∷ immediate op_lui
    ∷ (unimp 4
        ++ res 12
        ++ (immediate op_lb
            ∷ immediate op_lh
            ∷ immediate op_lwl
            ∷ immediate op_lw
            ∷ immediate op_lbu
            ∷ immediate op_lhu
            ∷ immediate op_lwr
            ∷ immediate op_res
            ∷ immediate op_sb
            ∷ immediate op_sh
            ∷ immediate op_swl
            ∷ immediate op_sw
            ∷ immediate op_res
            ∷ immediate op_res
            ∷ immediate op_swr
            ∷ immediate op_res
            ∷ [])
        ++ unimp 4
        ++ res 4
        ++ unimp 4
        ++ res 4)

unfoldable pub special_table : List Op
special_table =
    (op_sll ∷ op_res ∷ op_srl ∷ op_sra ∷ op_sllv ∷ op_res ∷ op_srlv ∷ op_srav ∷ [])
    ++ (op_jr ∷ op_jalr ∷ op_res ∷ op_res ∷ op_syscall ∷ op_unimp ∷ op_res ∷ op_res ∷ [])
    ++ (op_mfhi ∷ op_mthi ∷ op_mflo ∷ op_mtlo ∷ op_res ∷ op_res ∷ op_res ∷ op_res ∷ [])
    ++ (op_mult ∷ op_multu ∷ op_div ∷ op_divu ∷ op_res ∷ op_res ∷ op_res ∷ op_res ∷ [])
    ++ (op_add ∷ op_addu ∷ op_sub ∷ op_subu ∷ op_and ∷ op_or ∷ op_xor ∷ op_nor ∷ [])
    ++ (op_res ∷ op_res ∷ op_slt ∷ op_sltu ∷ op_res ∷ op_res ∷ op_res ∷ op_res ∷ [])
    ++ replicate 16 op_res

pub record Instruction : Type 0 where
  pub op_code : Op
  pub rs : ℕ
  pub rt : ℕ
  pub rd : ℕ
  pub extra : ℕ

-- The entry of opTable at the word's first six bits.
unfoldable pub op_info : ℕ → OpInfo
unfolding op_table
op_info value = get_or op_table (value / 0x400_0000 % 64) (immediate op_res)

unfoldable pub decode_extra : Format → ℕ → ℕ
decode_extra ifmt value = sign_extend_half (value % 0x1_0000)
decode_extra rfmt value = value / 64 % 32
decode_extra jfmt value = value % 0x400_0000

-- value & 0x1f0000, which is the five bits of rt
unfoldable pub decode_bcond : ℕ → Op
decode_bcond value =
    let i = value / 0x1_0000 % 32 * 0x1_0000 in
    if i == 0
    then op_bltz
    else if i == 0x1_0000
    then op_bgez
    else if i == 0x10_0000
    then op_bltzal
    else if i == 0x11_0000
    then op_bgezal
    else op_unimp

unfoldable pub decode_op : TableCode → ℕ → Op
unfolding special_table decode_bcond
decode_op special value = get_or special_table (value % 64) op_res
decode_op bcond value = decode_bcond value
decode_op (code op) value = op

-- Instruction::Decode
unfoldable pub decode : ℕ → Instruction
unfolding op_info decode_extra decode_op
decode value = record {
  op_code = decode_op (op_info value).op_code value;
  rs = value / 0x20_0000 % 32;
  rt = value / 0x1_0000 % 32;
  rd = value / 0x800 % 32;
  extra = decode_extra (op_info value).format value;
}
