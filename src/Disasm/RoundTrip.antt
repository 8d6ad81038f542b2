-- ===== src/Disasm/RoundTrip.antt =====
-- rv32i/include/disasm.hpp: the text of an OP instruction says what the CPU executes.
use mathlib.Core.Option
use xor_os.Base.{
  Bool-cases, inl, inr, ℕ, zero, suc, ◌<◌, ◌≡◌, refl, arith, Bool, true, false, ◌==◌, if◌then◌else◌,
  Option, some,
}
use xor_os.Base.Text.{Text, codes}
use xor_os.Isa
use xor_os.Alu
use xor_os.RvModel.Execute.{m_ext_op, base_op}
use xor_os.Disasm.{switch_on, m_ext_name, base_name, op_name}

-- The mnemonics of the ISA.
unfoldable pub op_text : Alu.Op → Text
op_text Alu.Op.add = codes "add"
op_text Alu.Op.sub = codes "sub"
op_text Alu.Op.and = codes "and"
op_text Alu.Op.or = codes "or"
op_text Alu.Op.xor = codes "xor"
op_text Alu.Op.sll = codes "sll"
op_text Alu.Op.srl = codes "srl"
op_text Alu.Op.sra = codes "sra"
op_text Alu.Op.slt = codes "slt"
op_text Alu.Op.sltu = codes "sltu"
op_text Alu.Op.mul = codes "mul"
op_text Alu.Op.mulh = codes "mulh"
op_text Alu.Op.mulhsu = codes "mulhsu"
op_text Alu.Op.mulhu = codes "mulhu"
op_text Alu.Op.div = codes "div"
op_text Alu.Op.divu = codes "divu"
op_text Alu.Op.rem = codes "rem"
op_text Alu.Op.remu = codes "remu"

-- The operation that `executeOp` runs.
abbrev pub executed : ℕ → ℕ → Option Alu.Op
executed funct3 funct7 = if funct7 == Isa.f7_mext then m_ext_op funct3 else base_op funct3 funct7

m_ext_names :
    (f3 : ℕ)
    → f3 < 8
    → (op : Alu.Op) × (m_ext_op f3 ≡ some op) × (m_ext_name f3 ≡ some (op_text op))
unfolding m_ext_op m_ext_name switch_on op_text
m_ext_names zero h = (Alu.Op.mul, refl, refl)
m_ext_names (suc zero) h = (Alu.Op.mulh, refl, refl)
m_ext_names (suc (suc zero)) h = (Alu.Op.mulhsu, refl, refl)
m_ext_names (suc (suc (suc zero))) h = (Alu.Op.mulhu, refl, refl)
m_ext_names (suc (suc (suc (suc zero)))) h = (Alu.Op.div, refl, refl)
m_ext_names (suc (suc (suc (suc (suc zero))))) h = (Alu.Op.divu, refl, refl)
m_ext_names (suc (suc (suc (suc (suc (suc zero)))))) h = (Alu.Op.rem, refl, refl)
m_ext_names (suc (suc (suc (suc (suc (suc (suc zero))))))) h = (Alu.Op.remu, refl, refl)
m_ext_names (suc (suc (suc (suc (suc (suc (suc (suc n)))))))) h = absurd (omega arith)

-- By whether the field funct7 is that of SUB and SRA.
base_names_at :
    (alt : Bool) (f3 f7 : ℕ)
    → (f7 == Isa.f7_alt) ≡ alt
    → f3 < 8
    → (op : Alu.Op) × (base_op f3 f7 ≡ some op) × (base_name f3 f7 ≡ some (op_text op))
unfolding base_op base_name switch_on op_text
base_names_at true zero f7 e h = (Alu.Op.sub, rw e refl, rw e refl)
base_names_at false zero f7 e h = (Alu.Op.add, rw e refl, rw e refl)
base_names_at alt (suc zero) f7 e h = (Alu.Op.sll, refl, refl)
base_names_at alt (suc (suc zero)) f7 e h = (Alu.Op.slt, refl, refl)
base_names_at alt (suc (suc (suc zero))) f7 e h = (Alu.Op.sltu, refl, refl)
base_names_at alt (suc (suc (suc (suc zero)))) f7 e h = (Alu.Op.xor, refl, refl)
base_names_at true (suc (suc (suc (suc (suc zero))))) f7 e h = (Alu.Op.sra, rw e refl, rw e refl)
base_names_at false (suc (suc (suc (suc (suc zero))))) f7 e h = (Alu.Op.srl, rw e refl, rw e refl)
base_names_at alt (suc (suc (suc (suc (suc (suc zero)))))) f7 e h = (Alu.Op.or, refl, refl)
base_names_at alt (suc (suc (suc (suc (suc (suc (suc zero))))))) f7 e h = (Alu.Op.and, refl, refl)
base_names_at alt (suc (suc (suc (suc (suc (suc (suc (suc n)))))))) f7 e h = absurd (omega arith)

pub op_names :
    (f3 f7 : ℕ)
    → f3 < 8
    → (op : Alu.Op) × (executed f3 f7 ≡ some op) × (op_name f3 f7 ≡ some (op_text op))
unfolding op_name Option.or_else
op_names f3 f7 h = elim (Bool-cases (f7 == Isa.f7_mext)) [
  | inl mext ↦ let n = m_ext_names f3 h in (n.0, rw mext n.1, rw (mext, n.2) refl)
  | inr base ↦
      let n = base_names_at (f7 == Isa.f7_alt) f3 f7 refl h in (n.0, rw base n.1, rw base n.2)
]
