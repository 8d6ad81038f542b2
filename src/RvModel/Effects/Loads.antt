-- ===== src/RvModel/Effects/Loads.antt =====
-- rv32i/include/rv_model.hpp: `executeLoad` without address translation, and the
-- meaning of a load.
use xor_os.Base.{
  Bool-cases, inl, inr, ℕ, ◌+◌, ◌%◌, ◌≡◌, refl, ap, ◌∙◌, arith, Bool, true, false, not, ◌==◌,
  if◌then◌else◌, none, some,
}
use xor_os.Base.Bits.{bit_and_mask}
use xor_os.Base.Word.{rv32, uword, shr}
use xor_os.Outcome.{Outcome, ok, fail, out_of_range, illegal_opcode, undefined_behaviour}
use xor_os.Isa
use xor_os.Isa.{sign_extend}
use xor_os.Csr
use xor_os.Csr.Codes
use xor_os.Decoder.{DecodedInstr}
use xor_os.Registers
use xor_os.Memory
use xor_os.Memory.{MemoryModel}
use xor_os.RvModel.Monad.{
  RvModel, pure, gets, modify, on_memory, catch_range, handle_range, and_then, ◌>>=◌,
}
use xor_os.RvModel.Trap.{fire_trap, trap}
use xor_os.RvModel.Plain.{memory_ops}
use xor_os.RvModel.Translate.{translate_addr}
use xor_os.RvModel.Access.{load_misaligned, load_value, finish_load, load_from, execute_load}
use xor_os.RvModel.Execute.{execute_instr}
use xor_os.RvModel.Step.{finish_step, count}
use xor_os.RvModel.Effects.Semantics.{take_trap, widen, fire_trap-take_trap, sign_extend-widen}
use xor_os.RvModel.Effects.{with_reg, next}

pub data LoadOp : Type 0 where
  lb lh lw lbu lhu : LoadOp

unfoldable pub load_funct3 : LoadOp → ℕ
load_funct3 lb = 0
load_funct3 lh = 1
load_funct3 lw = 2
load_funct3 lbu = 4
load_funct3 lhu = 5

-- How many bytes it loads.
unfoldable pub load_width : LoadOp → ℕ
load_width lb = 1
load_width lh = 2
load_width lw = 4
load_width lbu = 1
load_width lhu = 2

-- What the register gets of the value in the memory.
unfoldable pub widened : LoadOp → ℕ → ℕ
widened lb v = widen 8 v
widened lh v = widen 16 v
widened op v = v

-- What `executeLoad` makes of it.
extended : LoadOp → ℕ → ℕ
extended lb v = sign_extend rv32 v 8
extended lh v = sign_extend rv32 v 16
extended op v = v

extended-widened : (op : LoadOp) (v : ℕ) → extended op v ≡ widened op v
unfolding extended widened
extended-widened lb v = (sign_extend-widen v).0
extended-widened lh v = (sign_extend-widen v).1
extended-widened lw v = refl
extended-widened lbu v = refl
extended-widened lhu v = refl

module _ {D : Type 0} where
  unfoldable pub value_at : LoadOp → MemoryModel D → ℕ → Outcome ℕ
  value_at lb m a = Memory.read_byte m a
  value_at lh m a = Memory.read_half m a
  value_at lw m a = Memory.read_word m a
  value_at lbu m a = Memory.read_byte m a
  value_at lhu m a = Memory.read_half m a

  -- The end of a step with a load of the memory's value `v` at `addr`.
  unfoldable pub loaded :
      RvModel (MemoryModel D)
      → LoadOp
      → ℕ
      → ℕ
      → Outcome ℕ
      → Outcome (Unit {0}) × RvModel (MemoryModel D)
  loaded s op rd addr (ok v) = (ok tt, next s (with_reg s rd (widened op v)))
  loaded s op rd addr (fail out_of_range) =
      (ok tt, record s { cpu = count (take_trap 5 addr s.cpu) })
  loaded s op rd addr (fail illegal_opcode) = (fail illegal_opcode, s)
  loaded s op rd addr (fail undefined_behaviour) = (fail undefined_behaviour, s)

  -- A step with a load, that traps where the address is not aligned.
  unfoldable pub load_step :
      RvModel (MemoryModel D) → LoadOp → ℕ → ℕ → Outcome (Unit {0}) × RvModel (MemoryModel D)
  load_step s op rd addr =
      if addr % load_width op == 0
      then loaded s op rd addr (value_at op s.mem addr)
      else (ok tt, record s { cpu = count (take_trap 4 addr s.cpu) })

misaligned-load :
    (op : LoadOp) (addr : ℕ)
    → load_misaligned (load_funct3 op) addr ≡ not (addr % load_width op == 0)
unfolding load_misaligned load_funct3 load_width
misaligned-load lb addr = ground arith
misaligned-load lbu addr = ground arith
misaligned-load lh addr = rw (bit_and_mask 1 addr) refl
misaligned-load lhu addr = rw (bit_and_mask 1 addr) refl
misaligned-load lw addr = ground (arith, bit_and_mask 2 addr)

module _ {D : Type 0} (s : RvModel (MemoryModel D)) (d : DecodedInstr) (addr : ℕ) where
  -- What `executeLoad` does with the outcome of its read.
  after_read : LoadOp → Outcome ℕ → Outcome Bool × RvModel (MemoryModel D)
  after_read op r = and_then (finish_load memory_ops d) (
      handle_range (modify (fire_trap Codes.exc_load_fault addr) >>= λ _. pure none)
        (and_then (λ v. pure (some (extended op v))) (r, s)))

  finish-after_read :
      (op : LoadOp) (r : Outcome ℕ)
      → and_then (finish_step memory_ops) (after_read op r) ≡ loaded s op d.rd addr r
  unfolding after_read loaded and_then finish_load finish_step handle_range pure modify ◌>>=◌
      memory_ops
  finish-after_read op (ok v) = rw (extended-widened op v) refl
  finish-after_read op (fail out_of_range) =
      rw (fire_trap-take_trap Codes.exc_load_fault addr s.cpu) refl
  finish-after_read op (fail illegal_opcode) = refl
  finish-after_read op (fail undefined_behaviour) = refl

  load_from-after_read :
      (op : LoadOp)
      → d.funct3 ≡ load_funct3 op
      → load_from memory_ops d addr (some addr) s ≡ after_read op (value_at op s.mem addr)
  unfolding after_read load_from load_value value_at load_funct3 extended catch_range on_memory
      memory_ops ◌>>=◌
  load_from-after_read lb e = rw e refl
  load_from-after_read lh e = rw e refl
  load_from-after_read lw e = rw e refl
  load_from-after_read lbu e = rw e refl
  load_from-after_read lhu e = rw e refl

module _ {D : Type 0} (s : RvModel (MemoryModel D)) (d : DecodedInstr) where
  select_load : d.opcode ≡ Isa.op_load → execute_instr memory_ops d s ≡ execute_load memory_ops d s
  unfolding execute_instr
  select_load e = simp e refl

  address : ℕ
  address = uword rv32 (Registers.get s.cpu.regs d.rs1 + d.imm)

  load-aligned :
      (shr (Csr.read s.cpu.csr Codes.satp) 31 == 0) ≡ true
      → load_misaligned d.funct3 address ≡ false
      → execute_load memory_ops d s ≡ load_from memory_ops d address (some address) s
  unfolding address execute_load translate_addr gets pure and_then ◌>>=◌
  load-aligned bare even = rw (even, bare) refl

  load-misaligned :
      load_misaligned d.funct3 address ≡ true
      → and_then (finish_step memory_ops) (execute_load memory_ops d s)
        ≡ (ok tt, record s { cpu = count (take_trap 4 address s.cpu) })
  unfolding address execute_load finish_step trap modify gets pure and_then ◌>>=◌
  load-misaligned odd =
      rw
        (
          odd,
          fire_trap-take_trap Codes.exc_load_misalign
              (uword rv32 (Registers.get s.cpu.regs d.rs1 + d.imm)) s.cpu,
        )
        refl

  pub load-effect :
      (op : LoadOp)
      → (shr (Csr.read s.cpu.csr Codes.satp) 31 == 0) ≡ true
      → d.opcode ≡ Isa.op_load
      → d.funct3 ≡ load_funct3 op
      → and_then (finish_step memory_ops) (execute_instr memory_ops d s)
        ≡ load_step s op d.rd (uword rv32 (Registers.get s.cpu.regs d.rs1 + d.imm))
  unfolding load_step address
  load-effect op bare is_load kind =
      let misaligned : load_misaligned d.funct3 address ≡ not (address % load_width op == 0) =
        rw kind (misaligned-load op address) in
      ap (and_then (finish_step memory_ops)) (select_load is_load)
      ∙ elim (Bool-cases (address % load_width op == 0)) [
        | inl even ↦ rw even (
            ap (and_then (finish_step memory_ops)) (
              load-aligned bare (misaligned ∙ ap not even)
              ∙ load_from-after_read s d address op kind)
            ∙ finish-after_read s d address op (value_at op s.mem address))
        | inr odd ↦ rw odd (load-misaligned (misaligned ∙ ap not odd))
      ]
