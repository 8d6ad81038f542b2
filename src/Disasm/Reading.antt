-- ===== src/Disasm/Reading.antt =====
-- rv32i/include/disasm.hpp: reading the text of an OP instruction.
use xor_os.Base.{
  ℕ, zero, suc, ◌+◌, ◌<◌, ◌≡◌, refl, arith, Bool, true, false, ◌&&◌, ◌==◌, if◌then◌else◌, List, [],
  ◌∷◌, ◌++◌, Option, none, some,
}
use xor_os.Base.Word.{Xlen}
use xor_os.Base.Text.{Text, absent, split, split-append}
use xor_os.Isa
use xor_os.Alu
use xor_os.Decoder.{DecodedInstr}
use xor_os.Disasm.{reg_names, reg_name, rtype, disassemble_known, disassemble}
use xor_os.Disasm.RoundTrip.{op_text, executed, op_names}

text_eq : Text → Text → Bool
text_eq [] [] = true
text_eq [] (c ∷ t) = false
text_eq (c ∷ s) [] = false
text_eq (c ∷ s) (d ∷ t) = c == d && text_eq s t

-- The index in a list of names.
position : Text → List Text → ℕ → ℕ
position t [] i = i
position t (n ∷ names) i = let rest = position t names (i + 1) in if text_eq n t then i else rest

read_reg : Text → ℕ
unfolding position text_eq
read_reg t = position t reg_names 0

abbrev ops : List Alu.Op
ops =
    Alu.Op.add ∷ Alu.Op.sub ∷ Alu.Op.and ∷ Alu.Op.or ∷ Alu.Op.xor ∷ Alu.Op.sll ∷ Alu.Op.srl
    ∷ Alu.Op.sra ∷ Alu.Op.slt ∷ Alu.Op.sltu ∷ Alu.Op.mul ∷ Alu.Op.mulh ∷ Alu.Op.mulhsu
    ∷ Alu.Op.mulhu ∷ Alu.Op.div ∷ Alu.Op.divu ∷ Alu.Op.rem ∷ Alu.Op.remu ∷ []

find_op : Text → List Alu.Op → Option Alu.Op
find_op t [] = none
find_op t (op ∷ rest) = let r = find_op t rest in if text_eq (op_text op) t then some op else r

read_mnemonic : Text → Option Alu.Op
unfolding find_op text_eq op_text
read_mnemonic t = find_op t ops

-- A space stands before the second and the third register.
after_space : Text → Text
after_space [] = []
after_space (c ∷ t) = t

-- The operation and the registers rd, rs1 and rs2 that a text of three operands names.
pub read_op : Text → Option Alu.Op × ℕ × ℕ × ℕ
read_op t =
    let m = split b' ' t in
    let d = split b',' m.1 in
    let s = split b',' (after_space d.1) in
    (read_mnemonic m.0, read_reg d.0, read_reg s.0, read_reg (after_space s.1))

read_mnemonic-op_text :
    (op : Alu.Op) → (read_mnemonic (op_text op) ≡ some op) × (absent b' ' (op_text op) ≡ true)
unfolding read_mnemonic op_text absent
read_mnemonic-op_text Alu.Op.add = (refl, refl)
read_mnemonic-op_text op = (refl, refl)

-- Whether the text of every register, of `n` from `r` on, passes a check.
registers_pass : (ℕ → Text → Bool) → ℕ → ℕ → Bool
registers_pass check r zero = true
registers_pass check r (suc n) =
    if check r (reg_name r) then registers_pass check (r + 1) n else false

check_register :
    (check : ℕ → Text → Bool) (r n i : ℕ)
    → registers_pass check r n ≡ true
    → i < n
    → check (r + i) (reg_name (r + i)) ≡ true
unfolding registers_pass
check_register check r zero i passes lt = absurd (omega arith)
check_register check r (suc n) zero passes lt =
    let first : check r (reg_name r) ≡ true = ground arith in
    let at : r + 0 ≡ r = omega arith in rw at first
check_register check r (suc n) (suc i) passes lt =
    let at : r + suc i ≡ r + 1 + i = omega arith in
    rw at (check_register check (r + 1) n i (ground arith) (omega arith))

abbrev name_ok : ℕ → Text → Bool
name_ok r t = read_reg t == r && absent b',' t

names_pass : registers_pass name_ok 0 32 ≡ true
unfolding registers_pass absent read_reg reg_name reg_names
names_pass = refl

reg_name-ok : (r : ℕ) → r < 32 → (read_reg (reg_name r) ≡ r) × (absent b',' (reg_name r) ≡ true)
reg_name-ok r h =
    let start : 0 + r ≡ r = omega arith in
    let both : name_ok r (reg_name r) ≡ true =
      rw⁻¹ start (check_register name_ok 0 32 r names_pass h) in
    (ground arith, ground arith)

read_op-rtype :
    (op : Alu.Op) (d : DecodedInstr)
    → d.rd < 32
    → d.rs1 < 32
    → d.rs2 < 32
    → read_op (rtype (op_text op) d) ≡ (some op, d.rd, d.rs1, d.rs2)
unfolding read_op rtype after_space
read_op-rtype op d hd h1 h2 =
    let m = read_mnemonic-op_text op in
    let tail2 = b' ' ∷ reg_name d.rs2 in
    let tail1 = b' ' ∷ (reg_name d.rs1 ++ (b',' ∷ tail2)) in
    let s0 = split-append b' ' (op_text op) (reg_name d.rd ++ (b',' ∷ tail1)) m.1 in
    let s1 = split-append b',' (reg_name d.rd) tail1 (reg_name-ok d.rd hd).1 in
    let s2 = split-append b',' (reg_name d.rs1) tail2 (reg_name-ok d.rs1 h1).1 in
    rw
      (
        s0,
        s1,
        after_space,
        s2,
        m.0,
        (reg_name-ok d.rd hd).0,
        (reg_name-ok d.rs1 h1).0,
        (reg_name-ok d.rs2 h2).0,
      )
      refl

-- Any OP instruction is printed; and its text reads back as the operation that the CPU executes for
-- it and as its three registers.
pub read_op-disassemble :
    (x : Xlen) (d : DecodedInstr)
    → d.opcode ≡ Isa.op_op
    → d.funct3 < 8
    → d.rd < 32
    → d.rs1 < 32
    → d.rs2 < 32
    → (op : Alu.Op) × (executed d.funct3 d.funct7 ≡ some op)
      × (read_op (disassemble x d) ≡ (some op, d.rd, d.rs1, d.rs2))
unfolding disassemble disassemble_known
read_op-disassemble x d e h hd h1 h2 =
    let n = op_names d.funct3 d.funct7 h in (n.0, n.1, simp (e, n.2) (read_op-rtype n.0 d hd h1 h2))
