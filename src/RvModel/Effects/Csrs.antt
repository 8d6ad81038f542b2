-- ===== src/RvModel/Effects/Csrs.antt =====
-- rv32i/include/rv_model.hpp: `executeCSR`, and the meaning of a CSR instruction.
use xor_os.Base.{
  Bool-cases, inl, inr, ℕ, ◌-◌, ◌/◌, ◌%◌, ◌^◌, ◌<◌, ◌≡◌, refl, ◌∙◌, arith, bit_and, bit_or, Bool,
  true, false, not, ltb, ◌==◌, if◌then◌else◌, some,
}
use xor_os.Base.Bits.{bit_and_mask}
use xor_os.Base.Int.{ℤ, pos, negsuc}
use xor_os.Base.Word.{rv32, complement, of_signed, shr}
use xor_os.Outcome.{Outcome, ok}
use xor_os.Isa
use xor_os.Csr
use xor_os.Csr.{CsrFile}
use xor_os.Csr.Codes
use xor_os.Decoder.{DecodedInstr}
use xor_os.Registers
use xor_os.Memory.{MemoryModel}
use xor_os.RvModel.Monad.{RvModel, pure, gets, modify, and_then, ◌>>=◌}
use xor_os.RvModel.Trap.{trap}
use xor_os.RvModel.Plain.{memory_ops}
use xor_os.RvModel.Effects.Semantics.{take_trap, fire_trap-take_trap}
use xor_os.RvModel.Execute.{execute_instr, execute_system, execute_csr, csr_access, finish_csr}

pub data CsrOp : Type 0 where
  csrrw csrrs csrrc csrrwi csrrsi csrrci : CsrOp

unfoldable pub csr_funct3 : CsrOp → ℕ
csr_funct3 csrrw = 1
csr_funct3 csrrs = 2
csr_funct3 csrrc = 3
csr_funct3 csrrwi = 5
csr_funct3 csrrsi = 6
csr_funct3 csrrci = 7

-- The twelve bits of an address, as the integer of the immediate.
unfoldable pub csr_imm : ℕ → ℤ
csr_imm addr = if ltb addr 2048 then pos addr else negsuc (4095 - addr)

-- The operand: the register, or the field of its number.
unfoldable pub operand : CsrOp → ℕ → ℕ → ℕ
operand csrrw v field = v
operand csrrs v field = v
operand csrrc v field = v
operand op v field = field

-- What it writes; a set or a clear writes nothing where its field is 0.
unfoldable pub csr_file : CsrOp → CsrFile → ℕ → ℕ → ℕ → CsrFile
csr_file csrrw f addr v field = Csr.write f addr v
csr_file csrrs f addr v field =
    if not (field == 0) then Csr.write f addr (bit_or (Csr.read f addr) v) else f
csr_file csrrc f addr v field =
    if not (field == 0) then Csr.write f addr (bit_and (Csr.read f addr) (complement rv32 v)) else f
csr_file csrrwi f addr v field = Csr.write f addr v
csr_file csrrsi f addr v field =
    if not (field == 0) then Csr.write f addr (bit_or (Csr.read f addr) v) else f
csr_file csrrci f addr v field =
    if not (field == 0) then Csr.write f addr (bit_and (Csr.read f addr) (complement rv32 v)) else f

pub csr_imm-address :
    (addr : ℕ) → addr < 2 ^ 12 → bit_and (of_signed rv32 (csr_imm addr)) 0xFFF ≡ addr
unfolding csr_imm of_signed
csr_imm-address addr h = elim (Bool-cases (ltb addr 2048)) [
  | inl low ↦ rw low (ground (arith, bit_and_mask 12 (addr % 2 ^ 32)))
  | inr high ↦ rw high (ground (arith, bit_and_mask 12 (2 ^ 32 - 1 - (4095 - addr) % 2 ^ 32)))
]

chosen_csr :
    (op : CsrOp) (f : CsrFile) (addr v rs1 : ℕ)
    → rs1 < 32
    → csr_access (csr_funct3 op) f addr v rs1
      ≡ some (csr_file op f addr (operand op v rs1) rs1, Csr.read f addr)
unfolding csr_access csr_funct3 csr_file operand Csr.csrrw Csr.csrrs Csr.csrrc Csr.csrrwi Csr.csrrsi
    Csr.csrrci
chosen_csr csrrw f addr v rs1 h = refl
chosen_csr csrrs f addr v rs1 h = refl
chosen_csr csrrc f addr v rs1 h = refl
chosen_csr op f addr v rs1 h = let e : rs1 % 2 ^ 8 ≡ rs1 = omega arith in rw e refl

module _ {D : Type 0} (s : RvModel (MemoryModel D)) (d : DecodedInstr) where
  select_csr :
      (op : CsrOp)
      → d.opcode ≡ Isa.op_system
      → d.funct3 ≡ csr_funct3 op
      → execute_instr memory_ops d s ≡ execute_csr d s
  unfolding execute_instr execute_system csr_funct3
  select_csr csrrw e f = simp (e, f) refl
  select_csr op e f = simp (e, f) refl

  -- With the old value in rd, or the trap of a register above the privilege of the mode.
  abbrev pub csr_done : CsrOp → ℕ → ℕ → ℕ → Outcome Bool × RvModel (MemoryModel D)
  csr_done op rd rs1 addr =
      if ltb s.cpu.priv_mode (addr / 2 ^ 8 % 2 ^ 2)
      then (ok true, record s { cpu = take_trap 2 addr s.cpu })
      else (
        ok false,
        record s {
          cpu = record s.cpu {
            csr = csr_file op s.cpu.csr addr (operand op (Registers.get s.cpu.regs rs1) rs1) rs1;
            regs = Registers.set s.cpu.regs rd (Csr.read s.cpu.csr addr);
          };
        },
      )

  execute_csr-effect :
      (op : CsrOp) (addr : ℕ)
      → d.funct3 ≡ csr_funct3 op
      → bit_and d.imm 0xFFF ≡ addr
      → d.rs1 < 32
      → execute_csr d s ≡ csr_done op d.rd d.rs1 addr
  unfolding execute_csr finish_csr ◌>>=◌ and_then gets modify pure trap
  execute_csr-effect op addr kind at small =
      let level = bit_and_mask 2 (shr addr 8) in
      elim (Bool-cases (ltb s.cpu.priv_mode (addr / 2 ^ 8 % 2 ^ 2))) [
        | inl low ↦ rw (at, level, low, fire_trap-take_trap Codes.exc_illegal_insn addr s.cpu) refl
        | inr enough ↦
            rw
              (
                at,
                level,
                enough,
                kind,
                chosen_csr op s.cpu.csr addr (Registers.get s.cpu.regs d.rs1) d.rs1 small,
              )
              refl
      ]

  pub csr-effect :
      (op : CsrOp) (addr : ℕ)
      → d.opcode ≡ Isa.op_system
      → d.funct3 ≡ csr_funct3 op
      → bit_and d.imm 0xFFF ≡ addr
      → d.rs1 < 32
      → execute_instr memory_ops d s ≡ csr_done op d.rd d.rs1 addr
  csr-effect op addr e kind at small =
      select_csr op e kind ∙ execute_csr-effect op addr kind at small
