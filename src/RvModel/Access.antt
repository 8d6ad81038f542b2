-- ===== src/RvModel/Access.antt =====
-- rv32i/include/rv_model.hpp: `executeLoad`, `executeStore` and `executeAMO`. Each returns whether
-- it changed the pc. The address of a load or a store is a sum of two `int32_t`; where it
-- overflows, which C++ leaves undefined, it wraps. `static_cast<WordT>` is the remainder by `2 ^
-- 32`.
use xor_os.Base.{
  ℕ, ◌%◌, ◌^◌, ◌+◌, bit_and, bit_or, bit_xor, Bool, true, false, not, ◌&&◌, ◌||◌, ltb, ◌==◌,
  if◌then◌else◌, Option, none, some,
}
use xor_os.Base.Int.{ltb_ℤ}
use xor_os.Base.Word.{rv32, uword, to_signed, shr}
use xor_os.Outcome.{ok}
use xor_os.Isa
use xor_os.Isa.{sign_extend}
use xor_os.Decoder.{DecodedInstr}
use xor_os.Csr.Codes
use xor_os.RvModel.State.{has_extension, ext_a, load, store}
use xor_os.RvModel.Monad.{
  MemT, Exec, modify, gets, pure, on_memory, catch_range, get_reg, set_reg, ◌>>=◌, ◌>>◌,
}
use xor_os.RvModel.Trap.{fire_trap, trap}
use xor_os.RvModel.Translate.{translate_addr}

-- The checks that come before the translation.
unfoldable pub load_misaligned : ℕ → ℕ → Bool
load_misaligned funct3 addr =
    if (funct3 == Isa.f3_lw) && not (bit_and addr 0b11 == 0)
    then true
    else (funct3 == Isa.f3_lh || funct3 == Isa.f3_lhu) && not (bit_and addr 0b01 == 0)

unfoldable pub store_misaligned : ℕ → ℕ → Bool
store_misaligned funct3 addr =
    if (funct3 == Isa.f3_sw) && not (bit_and addr 0b11 == 0)
    then true
    else (funct3 == Isa.f3_sh) && not (bit_and addr 0b01 == 0)

-- The `switch` of `executeAMO`; none is its default.
unfoldable pub amo_result : ℕ → ℕ → ℕ → Option ℕ
amo_result funct5 loaded rs2v =
    if funct5 == Isa.f5_amoswap
    then some rs2v
    else if funct5 == Isa.f5_amoadd
    then some (uword rv32 (loaded + rs2v))
    else if funct5 == Isa.f5_amoxor
    then some (bit_xor loaded rs2v)
    else if funct5 == Isa.f5_amoand
    then some (bit_and loaded rs2v)
    else if funct5 == Isa.f5_amoor
    then some (bit_or loaded rs2v)
    else if funct5 == Isa.f5_amomin
    then some (if ltb_ℤ (to_signed rv32 loaded) (to_signed rv32 rs2v) then loaded else rs2v)
    else if funct5 == Isa.f5_amomax
    then some (if ltb_ℤ (to_signed rv32 rs2v) (to_signed rv32 loaded) then loaded else rs2v)
    else if funct5 == Isa.f5_amominu
    then some (if ltb loaded rs2v then loaded else rs2v)
    else if funct5 == Isa.f5_amomaxu
    then some (if ltb rs2v loaded then loaded else rs2v)
    else none

module _ {M : Type 0} (ops : MemT M) where
  -- The body of the `try`: the value loaded, or none after the trap on an unknown width.
  unfoldable pub load_value : DecodedInstr → ℕ → Exec M (Option ℕ)
  load_value d p =
      if d.funct3 == Isa.f3_lb
      then (on_memory (λ m. ops.read_byte m p) >>= λ v. pure (some (sign_extend rv32 v 8)))
      else if d.funct3 == Isa.f3_lh
      then (on_memory (λ m. ops.read_half m p) >>= λ v. pure (some (sign_extend rv32 v 16)))
      else if d.funct3 == Isa.f3_lw
      then (on_memory (λ m. ops.read_word m p) >>= λ v. pure (some v))
      else if d.funct3 == Isa.f3_lbu
      then (on_memory (λ m. ops.read_byte m p) >>= λ v. pure (some v))
      else if d.funct3 == Isa.f3_lhu
      then (on_memory (λ m. ops.read_half m p) >>= λ v. pure (some v))
      else (modify (fire_trap Codes.exc_illegal_insn d.opcode) >> pure none)

  unfoldable pub finish_load : DecodedInstr → Option ℕ → Exec M Bool
  finish_load d none = pure true
  finish_load d (some result) = set_reg d.rd result >> pure false

  unfoldable pub load_from : DecodedInstr → ℕ → Option ℕ → Exec M Bool
  load_from d addr none = pure true
  load_from d addr (some p) =
      catch_range (load_value d p) (modify (fire_trap Codes.exc_load_fault addr) >> pure none)
      >>= finish_load d

  unfoldable pub execute_load : DecodedInstr → Exec M Bool
  execute_load d = get_reg d.rs1 >>= λ base.
      let addr = uword rv32 (base + d.imm) in
      if load_misaligned d.funct3 addr
      then trap Codes.exc_load_misalign addr
      else (translate_addr ops addr load >>= load_from d addr)

  -- The body of the `try`: whether the trap on an unknown width was fired.
  unfoldable pub store_value : DecodedInstr → ℕ → ℕ → Exec M Bool
  store_value d p value =
      if d.funct3 == Isa.f3_sb
      then (on_memory (λ m. ops.write_byte m p (bit_and value 0xFF)) >> pure false)
      else if d.funct3 == Isa.f3_sh
      then (on_memory (λ m. ops.write_half m p (bit_and value 0xFFFF)) >> pure false)
      else if d.funct3 == Isa.f3_sw
      then (on_memory (λ m. ops.write_word m p (value % 2 ^ 32)) >> pure false)
      else trap Codes.exc_illegal_insn d.opcode

  unfoldable pub finish_store : Bool → Exec M Bool
  finish_store true = pure true
  finish_store false = on_memory (λ m. (ok tt, ops.invalidate_reservation m)) >> pure false

  unfoldable pub store_to : DecodedInstr → ℕ → ℕ → Option ℕ → Exec M Bool
  store_to d addr value none = pure true
  store_to d addr value (some p) =
      catch_range (store_value d p value) (trap Codes.exc_store_fault addr) >>= finish_store

  unfoldable pub execute_store : DecodedInstr → Exec M Bool
  execute_store d = get_reg d.rs1 >>= λ base. get_reg d.rs2 >>= λ value.
      let addr = uword rv32 (base + d.imm) in
      if store_misaligned d.funct3 addr
      then trap Codes.exc_store_misalign addr
      else (translate_addr ops addr store >>= store_to d addr value)

  -- What follows the `switch` of `executeAMO`.
  unfoldable pub finish_amo : DecodedInstr → ℕ → ℕ → Option ℕ → Exec M Bool
  finish_amo d p loaded none = trap Codes.exc_illegal_insn d.opcode
  finish_amo d p loaded (some result) =
      on_memory (λ m. (ok tt, ops.invalidate_reservation m))
      >> on_memory (λ m. ops.write_word m p (result % 2 ^ 32))
      >> set_reg d.rd loaded
      >> pure false

  -- `executeAMO` from the physical address on. No exception of the memory is caught.
  unfoldable pub amo_at : DecodedInstr → ℕ → Option ℕ → Exec M Bool
  amo_at d rs2v none = pure true
  amo_at d rs2v (some p) =
      let funct5 = shr d.funct7 2 in
      if funct5 == Isa.f5_lr
      then (on_memory (λ m. ops.read_word m p) >>= λ w.
          set_reg d.rd w >> on_memory (λ m. (ok tt, ops.reserve_load m p)) >> pure false)
      else if funct5 == Isa.f5_sc
      then (on_memory (λ m. ops.store_conditional m p (rs2v % 2 ^ 32)) >>= λ done.
          set_reg d.rd (if done then 0 else 1) >> pure false)
      else (on_memory (λ m. ops.read_word m p) >>= λ loaded.
          finish_amo d p loaded (amo_result funct5 loaded rs2v))

  unfoldable pub execute_amo : DecodedInstr → Exec M Bool
  execute_amo d = gets (λ c. c.config) >>= λ config. get_reg d.rs1 >>= λ addr.
      get_reg d.rs2 >>= λ rs2v.
      if not (has_extension config ext_a)
      then trap Codes.exc_illegal_insn d.opcode
      else if not (bit_and addr 0b11 == 0)
      then trap Codes.exc_store_misalign addr
      else (translate_addr ops addr store >>= amo_at d rs2v)
