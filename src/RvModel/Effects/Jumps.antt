-- ===== src/RvModel/Effects/Jumps.antt =====
-- rv32i/include/rv_model.hpp: the `JALR` and the `SYSTEM` of `executeInstr`, and what they
-- do.
use xor_os.Base.{
  Bool-cases, inl, inr, ℕ, ◌+◌, ◌*◌, ◌/◌, ◌%◌, ◌^◌, ◌<◌, ◌≡◌, refl, arith, bit_and, true, false,
  not, ◌==◌,
}
use xor_os.Base.Bits.{bit_and_mask, bit_and_shift, bit_and_clear}
use xor_os.Base.Word.{rv32, uword, complement}
use xor_os.Outcome.{ok}
use xor_os.Isa
use xor_os.Csr.Codes
use xor_os.Decoder.{DecodedInstr}
use xor_os.Registers
use xor_os.Memory.{MemoryModel}
use xor_os.RvModel.State.{halt}
use xor_os.RvModel.Monad.{RvModel, pure, gets, modify, and_then, ◌>>=◌}
use xor_os.RvModel.Trap.{trap, execute_mret}
use xor_os.RvModel.Plain.{memory_ops}
use xor_os.RvModel.Execute.{execute_instr, execute_jalr, execute_system, ecall_cause, jump_and_link}
use xor_os.RvModel.Effects.Semantics.{
  take_trap, call_cause, return_from_trap, fire_trap-take_trap, ecall-call, mret-return,
}
use xor_os.RvModel.Effects.{goto, with_reg}

-- `& ~0b01`
even_part : (t : ℕ) → t < 2 ^ 32 → bit_and t (complement rv32 0b01) ≡ t / 2 * 2
unfolding complement
even_part t h = omega (arith, bit_and_clear 32 t 1 h (omega arith), bit_and_mask 1 t)

aligned-even : (k : ℕ) → not (bit_and (k * 2) 0b10 == 0) ≡ not (k * 2 % 4 == 0)
aligned-even k = ground (arith, bit_and_shift 1 (k * 2) 1, bit_and_mask 1 (k * 2 / 2))

module _ {D : Type 0} (s : RvModel (MemoryModel D)) (d : DecodedInstr) where
  jump_target : ℕ
  jump_target = uword rv32 (Registers.get s.cpu.regs d.rs1 + d.imm) / 2 * 2

  execute_jalr-effect : execute_jalr d s ≡ (
    ok true,
    record s { cpu = goto s jump_target (with_reg s d.rd (uword rv32 (s.cpu.pc + 4))) },
  )
  unfolding jump_target execute_jalr jump_and_link ◌>>=◌ and_then gets modify pure trap
  execute_jalr-effect =
      let sum = uword rv32 (Registers.get s.cpu.regs d.rs1 + d.imm) in
      let even = even_part sum (omega arith) in
      elim (Bool-cases (sum / 2 * 2 % 4 == 0)) [
        | inl fits ↦ rw (even, aligned-even (sum / 2), fits) refl
        | inr odd ↦
            rw
              (
                even,
                aligned-even (sum / 2),
                odd,
                fire_trap-take_trap Codes.exc_insn_misalign (sum / 2 * 2) s.cpu,
              )
              refl
      ]

  pub jalr-effect :
      d.opcode ≡ Isa.op_jalr
      → execute_instr memory_ops d s ≡ (
        ok true,
        record s {
          cpu =
              goto s
                (uword rv32 (Registers.get s.cpu.regs d.rs1 + d.imm) / 2 * 2)
                (with_reg s d.rd (uword rv32 (s.cpu.pc + 4)));
        },
      )
  unfolding execute_instr jump_target
  jalr-effect e = simp e execute_jalr-effect

  pub ecall-effect :
      d.opcode ≡ Isa.op_system
      → d.funct3 ≡ 0
      → d.imm ≡ 0
      → execute_instr memory_ops d s
        ≡ (ok true, record s { cpu = take_trap (call_cause s.cpu.priv_mode) 0 s.cpu })
  unfolding execute_instr execute_system ◌>>=◌ and_then gets modify pure trap
  ecall-effect e f i =
      rw (← ecall-call s.cpu.priv_mode, ← fire_trap-take_trap (ecall_cause s.cpu.priv_mode) 0 s.cpu)
        (simp (e, f, i) refl)

  pub ebreak-effect :
      d.opcode ≡ Isa.op_system
      → d.funct3 ≡ 0
      → d.imm ≡ 1
      → execute_instr memory_ops d s ≡ (ok false, record s { cpu = halt s.cpu })
  unfolding execute_instr execute_system ◌>>=◌ and_then modify pure
  ebreak-effect e f i = simp (e, f, i) refl

  pub mret-effect :
      d.opcode ≡ Isa.op_system
      → d.funct3 ≡ 0
      → d.imm ≡ 0x302
      → execute_instr memory_ops d s ≡ (ok true, record s { cpu = return_from_trap s.cpu })
  unfolding execute_instr execute_system execute_mret ◌>>=◌ and_then modify pure
  mret-effect e f i = rw (← mret-return s.cpu) (simp (e, f, i) refl)

  pub fence-effect : d.opcode ≡ Isa.op_misc_mem → execute_instr memory_ops d s ≡ (ok false, s)
  unfolding execute_instr pure
  fence-effect e = simp e refl
