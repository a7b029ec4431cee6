-- ===== src/Machine/Decoded.antt =====
-- What Decode makes of the words of instructions.
use nthu_operating_system_er.Base.{ℕ, ◌+◌, ◌*◌, ◌/◌, ◌%◌, ◌<◌, ◌≡◌, refl, ◌∙◌, ap, arith, get_or}
use nthu_operating_system_er.Machine.Word.{sign_extend_half}
use nthu_operating_system_er.Machine.Decode.{
  OpInfo, TableCode, Format, special, bcond, code, ifmt, jfmt, rfmt, op_table, special_table,
  op_info, decode, decode_op, decode_bcond, decode_extra, Op, op_add, op_addi, op_addiu, op_addu,
  op_and, op_andi, op_beq, op_bgez, op_bgezal, op_bgtz, op_blez, op_bltz, op_bltzal, op_bne, op_div,
  op_divu, op_j, op_jal, op_jalr, op_jr, op_lb, op_lbu, op_lh, op_lhu, op_lui, op_lw, op_lwl,
  op_lwr, op_mfhi, op_mflo, op_mthi, op_mtlo, op_mult, op_multu, op_nor, op_or, op_ori, op_sb,
  op_sh, op_sll, op_sllv, op_slt, op_slti, op_sltiu, op_sltu, op_sra, op_srav, op_srl, op_srlv,
  op_sub, op_subu, op_sw, op_swl, op_swr, op_xor, op_xori, op_syscall, op_unimp, op_res,
}
use nthu_operating_system_er.Machine.Encode.{
  Layout, r_layout, i_layout, j_layout, b_layout, layout, assemble, FitsField, signed_half,
  HasFields,
}

abbrev info : TableCode → Format → OpInfo
info c f = record { op_code = c; format = f }

abbrev bcond_op : ℕ → Op
bcond_op c = decode_bcond (c * 0x1_0000)

-- What the tables hold at the codes.
abbrev Agrees : Layout → Op → Type 0
Agrees (r_layout f) op = (f < 64) × (get_or special_table f op_res ≡ op)
Agrees (i_layout o) op =
    (o < 64) × (get_or op_table o (info (code op_res) ifmt) ≡ info (code op) ifmt)
Agrees (j_layout o) op =
    (o < 64) × (get_or op_table o (info (code op_res) ifmt) ≡ info (code op) jfmt)
Agrees (b_layout c) op = (c < 32) × (bcond_op c ≡ op)

layout-Agrees : (op : Op) → Agrees (layout op) op
unfolding layout op_table special_table decode_bcond
layout-Agrees op_add = (omega arith, refl)
layout-Agrees op_addi = (omega arith, refl)
layout-Agrees op_addiu = (omega arith, refl)
layout-Agrees op_addu = (omega arith, refl)
layout-Agrees op_and = (omega arith, refl)
layout-Agrees op_andi = (omega arith, refl)
layout-Agrees op_beq = (omega arith, refl)
layout-Agrees op_bgez = (omega arith, refl)
layout-Agrees op_bgezal = (omega arith, refl)
layout-Agrees op_bgtz = (omega arith, refl)
layout-Agrees op_blez = (omega arith, refl)
layout-Agrees op_bltz = (omega arith, refl)
layout-Agrees op_bltzal = (omega arith, refl)
layout-Agrees op_bne = (omega arith, refl)
layout-Agrees op_div = (omega arith, refl)
layout-Agrees op_divu = (omega arith, refl)
layout-Agrees op_j = (omega arith, refl)
layout-Agrees op_jal = (omega arith, refl)
layout-Agrees op_jalr = (omega arith, refl)
layout-Agrees op_jr = (omega arith, refl)
layout-Agrees op_lb = (omega arith, refl)
layout-Agrees op_lbu = (omega arith, refl)
layout-Agrees op_lh = (omega arith, refl)
layout-Agrees op_lhu = (omega arith, refl)
layout-Agrees op_lui = (omega arith, refl)
layout-Agrees op_lw = (omega arith, refl)
layout-Agrees op_lwl = (omega arith, refl)
layout-Agrees op_lwr = (omega arith, refl)
layout-Agrees op_mfhi = (omega arith, refl)
layout-Agrees op_mflo = (omega arith, refl)
layout-Agrees op_mthi = (omega arith, refl)
layout-Agrees op_mtlo = (omega arith, refl)
layout-Agrees op_mult = (omega arith, refl)
layout-Agrees op_multu = (omega arith, refl)
layout-Agrees op_nor = (omega arith, refl)
layout-Agrees op_or = (omega arith, refl)
layout-Agrees op_ori = (omega arith, refl)
layout-Agrees op_sb = (omega arith, refl)
layout-Agrees op_sh = (omega arith, refl)
layout-Agrees op_sll = (omega arith, refl)
layout-Agrees op_sllv = (omega arith, refl)
layout-Agrees op_slt = (omega arith, refl)
layout-Agrees op_slti = (omega arith, refl)
layout-Agrees op_sltiu = (omega arith, refl)
layout-Agrees op_sltu = (omega arith, refl)
layout-Agrees op_sra = (omega arith, refl)
layout-Agrees op_srav = (omega arith, refl)
layout-Agrees op_srl = (omega arith, refl)
layout-Agrees op_srlv = (omega arith, refl)
layout-Agrees op_sub = (omega arith, refl)
layout-Agrees op_subu = (omega arith, refl)
layout-Agrees op_sw = (omega arith, refl)
layout-Agrees op_swl = (omega arith, refl)
layout-Agrees op_swr = (omega arith, refl)
layout-Agrees op_xor = (omega arith, refl)
layout-Agrees op_xori = (omega arith, refl)
layout-Agrees op_syscall = (omega arith, refl)
layout-Agrees op_unimp = (omega arith, refl)
layout-Agrees op_res = (omega arith, refl)

-- Decode of a word with a known first field.
decode_run :
    (v o : ℕ) (i : OpInfo)
    → v / 0x400_0000 % 64 ≡ o
    → get_or op_table o (info (code op_res) ifmt) ≡ i
    → ((decode v).op_code ≡ decode_op i.op_code v) × ((decode v).extra ≡ decode_extra i.format v)
unfolding decode op_info
decode_run v o i e t =
    let found : op_info v ≡ i = ap (λ (k : ℕ). get_or op_table k (info (code op_res) ifmt)) e ∙ t in
    (
      ap (λ (j : OpInfo). decode_op j.op_code v) found,
      ap (λ (j : OpInfo). decode_extra j.format v) found,
    )

abbrev Decodes : Layout → Op → ℕ → ℕ → ℕ → ℕ → Type 0
Decodes l op rs rt rd x =
    ((decode (assemble l rs rt rd x)).op_code ≡ op)
    × HasFields l rs rt rd x (decode (assemble l rs rt rd x))

special_op :
    (v f : ℕ) (op : Op) → v % 64 ≡ f → get_or special_table f op_res ≡ op → decode_op special v ≡ op
unfolding decode_op
special_op v f op e t = ap (λ (k : ℕ). get_or special_table k op_res) e ∙ t

sign_extend_half-signed_half : (x : ℕ) → x < 0x1_0000 → sign_extend_half x ≡ signed_half x
sign_extend_half-signed_half x h = ground arith

immediate_extra : (v x : ℕ) → v % 0x1_0000 ≡ x → x < 0x1_0000 → decode_extra ifmt v ≡ signed_half x
unfolding decode_extra
immediate_extra v x e h = ap sign_extend_half e ∙ sign_extend_half-signed_half x h

bcond_by :
    (v c : ℕ) (op : Op) → v / 0x1_0000 % 32 ≡ c → c < 32 → bcond_op c ≡ op → decode_op bcond v ≡ op
unfolding decode_op decode_bcond
bcond_by v c op e small t =
    let same : v / 0x1_0000 % 32 ≡ c * 0x1_0000 / 0x1_0000 % 32 = omega (arith, e) in rw same t

by_layout :
    (l : Layout) (op : Op) (rs rt rd x : ℕ)
    → Agrees l op
    → rs < 32
    → rt < 32
    → rd < 32
    → FitsField l x
    → Decodes l op rs rt rd x
unfolding assemble decode
by_layout (r_layout f) op rs rt rd x (small, t) h k d n =
    let v : ℕ = rs * 0x20_0000 + rt * 0x1_0000 + rd * 0x800 + x * 64 + f in
    let (o, e) = decode_run v 0 (info special rfmt) (omega arith) (unfold op_table in refl) in
    (
      o ∙ special_op v f op (omega arith) t,
      (omega arith, omega arith, omega arith, e ∙ unfold decode_extra in omega arith),
    )
by_layout (i_layout o) op rs rt rd x (small, t) h k d n =
    let v : ℕ = o * 0x400_0000 + rs * 0x20_0000 + rt * 0x1_0000 + x in
    let (p, e) = decode_run v o (info (code op) ifmt) (omega arith) t in
    (
      p ∙ unfold decode_op in refl,
      (omega arith, omega arith, e ∙ immediate_extra v x (omega arith) n),
    )
by_layout (j_layout o) op rs rt rd x (small, t) h k d n =
    let v : ℕ = o * 0x400_0000 + x in
    let (p, e) = decode_run v o (info (code op) jfmt) (omega arith) t in
    (p ∙ unfold decode_op in refl, e ∙ unfold decode_extra in omega arith)
by_layout (b_layout c) op rs rt rd x (small, t) h k d n =
    let v : ℕ = 0x400_0000 + rs * 0x20_0000 + c * 0x1_0000 + x in
    let (p, e) = decode_run v 1 (info bcond ifmt) (omega arith) (unfold op_table in refl) in
    (
      p ∙ bcond_by v c op (omega arith) small t,
      (omega arith, e ∙ immediate_extra v x (omega arith) n),
    )

-- Decode of the word that the MIPS formats give for an operation and for fields that fit has this
-- operation and the fields of its format, an immediate with its sign.
pub decode-assemble :
    (op : Op) (rs rt rd x : ℕ)
    → rs < 32
    → rt < 32
    → rd < 32
    → FitsField (layout op) x
    → Decodes (layout op) op rs rt rd x
decode-assemble op rs rt rd x h k d n =
    by_layout (layout op) op rs rt rd x (layout-Agrees op) h k d n
