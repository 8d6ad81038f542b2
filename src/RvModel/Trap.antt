-- ===== src/RvModel/Trap.antt =====
-- rv32i/include/rv_model.hpp: `fireTrap`, `executeMRET` and `triggerInterrupt`.
pub mod Laws
use xor_os.Base.{
  ℕ, ◌-◌, ◌*◌, ◌/◌, ◌%◌, ◌^◌, bit_and, bit_or, Bool, true, false, not, ◌==◌, if◌then◌else◌,
}
use xor_os.Base.Word.{rv32, complement, shl, shr}
use xor_os.Csr
use xor_os.Csr.Codes
use xor_os.RvModel.State.{Cpu, mode_m}
use xor_os.RvModel.Monad.{Exec, modify, gets, pure, ◌>>=◌}

-- `MSTATUS_MIE | MSTATUS_MPIE | MSTATUS_MPP`
abbrev pub trap_bits : ℕ
trap_bits = bit_or (bit_or Codes.mstatus_mie Codes.mstatus_mpie) Codes.mstatus_mpp

-- The new mstatus: MPIE = MIE, MIE = 0, MPP = the mode.
unfoldable pub trap_status : ℕ → ℕ → ℕ
trap_status mstatus mode =
    let mie = not (bit_and mstatus Codes.mstatus_mie == 0) in
    let cleared = bit_and mstatus (complement rv32 trap_bits) in
    let saved = if mie then bit_or cleared Codes.mstatus_mpie else cleared in
    bit_or saved (shl rv32 mode 11)

unfoldable pub fire_trap : ℕ → ℕ → Cpu → Cpu
fire_trap cause tval c =
    let mtvec = Csr.get_mtvec c.csr in
    let csr3 = Csr.set_mtval (Csr.set_mcause (Csr.set_mepc c.csr c.pc) cause) tval in
    if mtvec == 0 then record c { halted = true } else record c {
      csr = Csr.write csr3 Codes.mstatus (trap_status (Csr.read csr3 Codes.mstatus) c.priv_mode);
      priv_mode = mode_m;
      pc = bit_and mtvec (complement rv32 3);
    }

-- The new mstatus of MRET: MIE = MPIE, MPIE = 1, MPP = U.
unfoldable pub mret_status : ℕ → ℕ
mret_status mstatus =
    let mpie = not (bit_and mstatus Codes.mstatus_mpie == 0) in
    let cleared = bit_and mstatus (complement rv32 trap_bits) in
    let restored = if mpie then bit_or cleared Codes.mstatus_mie else cleared in
    bit_or restored Codes.mstatus_mpie

unfoldable pub mret : Cpu → Cpu
mret c =
    let mstatus = Csr.read c.csr Codes.mstatus in
    let csr' = Csr.write c.csr Codes.mstatus (mret_status mstatus) in
    record c { priv_mode = bit_and (shr mstatus 11) 3; csr = csr'; pc = Csr.get_mepc csr' }

-- Whether the interrupt was taken, and the CPU. `1 << code` is defined for the codes below 32.
unfoldable pub trigger_interrupt : Cpu → ℕ → Bool × Cpu
trigger_interrupt c cause =
    let mstatus = Csr.read c.csr Codes.mstatus in
    let code = bit_and cause (complement rv32 Codes.mcause_interrupt) in
    if c.halted
    then (false, c)
    else if bit_and mstatus Codes.mstatus_mie == 0
    then (false, c)
    else if bit_and (Csr.read c.csr Codes.mie) (shl rv32 1 code) == 0
    then (false, c)
    else (true, fire_trap cause 0 c)

module _ {M : Type 0} where
  -- `fireTrap(...); return true;`, the way most traps end an instruction.
  unfoldable pub trap : ℕ → ℕ → Exec M Bool
  trap cause tval = modify (fire_trap cause tval) >>= λ _. pure true

  unfoldable pub execute_mret : Exec M Bool
  execute_mret = modify mret >>= λ _. pure true
