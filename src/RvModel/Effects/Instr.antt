-- ===== src/RvModel/Effects/Instr.antt =====
-- The instructions of RV32IMA with their encodings and `meaning`, what the ISA says of a step with
-- each. It is written over the register file, the CSR file and the memory of the model, with the
-- operations, the traps and MRET of Semantics, and with the choices of this machine where it
-- differs. A write to a read-only CSR is ignored, the trap on a CSR above the mode has its address
-- as the value, an LR whose address is not aligned traps as a store, and MRET asks for no
-- privilege.
use xor_os.Base.{ℕ, ◌+◌, ◌*◌, ◌/◌, ◌%◌, ◌^◌, ◌<◌, Bool, true, not, ltb, ◌==◌, if◌then◌else◌}
use xor_os.Base.Int.{ℤ, pos, ltb_ℤ}
use xor_os.Base.Word.{rv32, to_signed, of_signed}
use xor_os.Outcome.{Outcome, ok}
use xor_os.Alu
use xor_os.Csr
use xor_os.Builder.Formats.{
  Format, r_format, i_format, s_format, b_format, u_format, j_format, InRange,
}
use xor_os.Registers
use xor_os.Registers.{RegisterFile}
use xor_os.Memory.{MemoryModel}
use xor_os.RvModel.State.{Cpu}
use xor_os.RvModel.Monad.{RvModel}
use xor_os.RvModel.Effects.Semantics.{result, take_trap, return_from_trap, call_cause}
use xor_os.RvModel.Step.{count}
use xor_os.RvModel.Effects.Csrs.{CsrOp, csr_funct3, csr_imm, csr_file, operand}
use xor_os.RvModel.Effects.Atomics.{AmoOp, amo_funct5, amo_step}
use xor_os.RvModel.Effects.Loads.{LoadOp, load_funct3, load_step}
use xor_os.RvModel.Effects.Stores.{StoreOp, store_funct3, store_step}
use xor_os.RvModel.Effects.Shifts.{ShiftOp, shift_funct3, shift_imm_bits, shift_alu}

pub data ImmOp : Type 0 where
  addi slti sltiu xori ori andi : ImmOp

pub data Cond : Type 0 where
  beq bne blt bge bltu bgeu : Cond

pub data SysOp : Type 0 where
  ecall ebreak mret : SysOp

-- With the registers in the order rd, rs1, rs2; an atomic one has its two ordering bits first.
pub data Instr : Type 0 where
  arith_reg : Alu.Op → ℕ → ℕ → ℕ → Instr
  arith_imm : ImmOp → ℕ → ℕ → ℤ → Instr
  shift_imm : ShiftOp → ℕ → ℕ → ℕ → Instr
  lui auipc : ℕ → ℤ → Instr
  branch : Cond → ℕ → ℕ → ℤ → Instr
  jal : ℕ → ℤ → Instr
  jalr : ℕ → ℕ → ℤ → Instr
  load_reg : LoadOp → ℕ → ℕ → ℤ → Instr
  store_reg : StoreOp → ℕ → ℕ → ℤ → Instr
  fence : Instr
  system : SysOp → Instr
  access_csr : CsrOp → ℕ → ℕ → ℕ → Instr
  atomic : AmoOp → ℕ → ℕ → ℕ → ℕ → Instr

unfoldable pub funct3_of : Alu.Op → ℕ
funct3_of Alu.Op.add = 0
funct3_of Alu.Op.sub = 0
funct3_of Alu.Op.sll = 1
funct3_of Alu.Op.slt = 2
funct3_of Alu.Op.sltu = 3
funct3_of Alu.Op.xor = 4
funct3_of Alu.Op.srl = 5
funct3_of Alu.Op.sra = 5
funct3_of Alu.Op.or = 6
funct3_of Alu.Op.and = 7
funct3_of Alu.Op.mul = 0
funct3_of Alu.Op.mulh = 1
funct3_of Alu.Op.mulhsu = 2
funct3_of Alu.Op.mulhu = 3
funct3_of Alu.Op.div = 4
funct3_of Alu.Op.divu = 5
funct3_of Alu.Op.rem = 6
funct3_of Alu.Op.remu = 7

unfoldable pub funct7_of : Alu.Op → ℕ
funct7_of Alu.Op.add = 0
funct7_of Alu.Op.sub = 32
funct7_of Alu.Op.sll = 0
funct7_of Alu.Op.slt = 0
funct7_of Alu.Op.sltu = 0
funct7_of Alu.Op.xor = 0
funct7_of Alu.Op.srl = 0
funct7_of Alu.Op.sra = 32
funct7_of Alu.Op.or = 0
funct7_of Alu.Op.and = 0
funct7_of op = 1

unfoldable pub imm_funct3 : ImmOp → ℕ
imm_funct3 addi = 0
imm_funct3 slti = 2
imm_funct3 sltiu = 3
imm_funct3 xori = 4
imm_funct3 ori = 6
imm_funct3 andi = 7

unfoldable pub imm_alu : ImmOp → Alu.Op
imm_alu addi = Alu.Op.add
imm_alu slti = Alu.Op.slt
imm_alu sltiu = Alu.Op.sltu
imm_alu xori = Alu.Op.xor
imm_alu ori = Alu.Op.or
imm_alu andi = Alu.Op.and

unfoldable pub cond_funct3 : Cond → ℕ
cond_funct3 beq = 0
cond_funct3 bne = 1
cond_funct3 blt = 4
cond_funct3 bge = 5
cond_funct3 bltu = 6
cond_funct3 bgeu = 7

unfoldable pub holds : Cond → ℕ → ℕ → Bool
holds beq a b = a == b
holds bne a b = not (a == b)
holds blt a b = ltb_ℤ (to_signed rv32 a) (to_signed rv32 b)
holds bge a b = not (ltb_ℤ (to_signed rv32 a) (to_signed rv32 b))
holds bltu a b = ltb a b
holds bgeu a b = not (ltb a b)

unfoldable pub system_imm : SysOp → ℕ
system_imm ecall = 0
system_imm ebreak = 1
system_imm mret = 0x302

-- How the ISA encodes it.
unfoldable pub to_format : Instr → Format
to_format (arith_reg op rd rs1 rs2) = r_format (funct7_of op) rs2 rs1 (funct3_of op) rd 0x33
to_format (arith_imm op rd rs1 imm) = i_format imm rs1 (imm_funct3 op) rd 0x13
to_format (lui rd imm) = u_format imm rd 0x37
to_format (auipc rd imm) = u_format imm rd 0x17
to_format (branch c rs1 rs2 offset) = b_format offset rs2 rs1 (cond_funct3 c)
to_format (jal rd offset) = j_format offset rd
to_format (jalr rd rs1 imm) = i_format imm rs1 0 rd 0x67
to_format (shift_imm op rd rs1 k) =
    i_format (pos (shift_imm_bits op k)) rs1 (shift_funct3 op) rd 0x13
to_format (load_reg op rd rs1 imm) = i_format imm rs1 (load_funct3 op) rd 0x03
to_format (store_reg op rs1 rs2 imm) = s_format imm rs2 rs1 (store_funct3 op)
to_format fence = i_format (pos 0) 0 0 0 0x0F
to_format (system op) = i_format (pos (system_imm op)) 0 0 0 0x73
to_format (access_csr op rd rs1 addr) = i_format (csr_imm addr) rs1 (csr_funct3 op) rd 0x73
to_format (atomic op order rd rs1 rs2) = r_format (amo_funct5 op * 4 + order) rs2 rs1 2 rd 0x2F

-- The operands fit their fields.
unfoldable pub IsEncodable : Instr → Type 0
IsEncodable (shift_imm op rd rs1 k) = InRange (to_format (shift_imm op rd rs1 k)) × (k < 32)
IsEncodable (access_csr op rd rs1 addr) =
    InRange (to_format (access_csr op rd rs1 addr)) × (addr < 2 ^ 12)
IsEncodable (atomic op order rd rs1 rs2) =
    InRange (to_format (atomic op order rd rs1 rs2)) × (order < 4)
IsEncodable i = InRange (to_format i)

-- At the next instruction, with a register written.
abbrev then_next : Cpu → ℕ → ℕ → Cpu
then_next c rd v = record c { regs = Registers.set c.regs rd v; pc = (c.pc + 4) % 2 ^ 32 }

-- A jump, or the trap of one to an address that is not aligned.
abbrev pub then_jump : Cpu → ℕ → RegisterFile → Cpu
then_jump c target regs =
    if target % 4 == 0 then record c { regs = regs; pc = target } else take_trap 0 target c

unfoldable pub system_meaning : SysOp → Cpu → Cpu
system_meaning ecall c = take_trap (call_cause c.priv_mode) 0 c
system_meaning ebreak c = record c { halted = true; pc = (c.pc + 4) % 2 ^ 32 }
system_meaning mret c = return_from_trap c

module _ {D : Type 0} where
  -- The end of a step that leaves the memory as it is.
  abbrev retire : RvModel (MemoryModel D) → Cpu → Outcome (Unit {0}) × RvModel (MemoryModel D)
  retire s c = (ok tt, record s { cpu = count c })

  -- What it does in a step: to the registers, the pc and the memory, or the trap it takes.
  unfoldable pub meaning :
      Instr → RvModel (MemoryModel D) → Outcome (Unit {0}) × RvModel (MemoryModel D)
  meaning (arith_reg op rd rs1 rs2) s =
      let v = result op (Registers.get s.cpu.regs rs1) (Registers.get s.cpu.regs rs2) in
      retire s (then_next s.cpu rd v)
  meaning (arith_imm op rd rs1 imm) s =
      let v = result (imm_alu op) (Registers.get s.cpu.regs rs1) (of_signed rv32 imm) in
      retire s (then_next s.cpu rd v)
  meaning (shift_imm op rd rs1 k) s =
      let v = result (shift_alu op) (Registers.get s.cpu.regs rs1) k in
      retire s (then_next s.cpu rd v)
  meaning (lui rd imm) s = retire s (then_next s.cpu rd (of_signed rv32 imm / 2 ^ 12 * 2 ^ 12))
  meaning (auipc rd imm) s =
      let v = (s.cpu.pc + of_signed rv32 imm / 2 ^ 12 * 2 ^ 12) % 2 ^ 32 in
      retire s (then_next s.cpu rd v)
  meaning (branch c rs1 rs2 offset) s = retire s (
      if holds c (Registers.get s.cpu.regs rs1) (Registers.get s.cpu.regs rs2)
      then then_jump s.cpu ((s.cpu.pc + of_signed rv32 offset) % 2 ^ 32) s.cpu.regs
      else record s.cpu { pc = (s.cpu.pc + 4) % 2 ^ 32 })
  meaning (jal rd offset) s =
      let link = Registers.set s.cpu.regs rd ((s.cpu.pc + 4) % 2 ^ 32) in
      retire s (then_jump s.cpu ((s.cpu.pc + of_signed rv32 offset) % 2 ^ 32) link)
  meaning (jalr rd rs1 imm) s =
      let sum = (Registers.get s.cpu.regs rs1 + of_signed rv32 imm) % 2 ^ 32 in
      let link = Registers.set s.cpu.regs rd ((s.cpu.pc + 4) % 2 ^ 32) in
      retire s (then_jump s.cpu (sum / 2 * 2) link)
  meaning (load_reg op rd rs1 imm) s =
      load_step s op rd ((Registers.get s.cpu.regs rs1 + of_signed rv32 imm) % 2 ^ 32)
  meaning (store_reg op rs1 rs2 imm) s =
      store_step s op ((Registers.get s.cpu.regs rs1 + of_signed rv32 imm) % 2 ^ 32)
        (Registers.get s.cpu.regs rs2)
  meaning fence s = retire s (record s.cpu { pc = (s.cpu.pc + 4) % 2 ^ 32 })
  meaning (system op) s = retire s (system_meaning op s.cpu)
  meaning (access_csr op rd rs1 addr) s =
      if ltb s.cpu.priv_mode (addr / 2 ^ 8 % 2 ^ 2)
      then retire s (take_trap 2 addr s.cpu)
      else retire s (record s.cpu {
        csr = csr_file op s.cpu.csr addr (operand op (Registers.get s.cpu.regs rs1) rs1) rs1;
        regs = Registers.set s.cpu.regs rd (Csr.read s.cpu.csr addr);
        pc = (s.cpu.pc + 4) % 2 ^ 32;
      })
  meaning (atomic op order rd rs1 rs2) s =
      amo_step s op rd (Registers.get s.cpu.regs rs1) (Registers.get s.cpu.regs rs2)
