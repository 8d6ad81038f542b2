-- ===== src/RvModel/Effects/Stores.antt =====
-- rv32i/include/rv_model.hpp: `executeStore` without address translation, and the
-- meaning of a store.
use xor_os.Base.{
  Bool-cases, inl, inr, ℕ, ◌+◌, ◌%◌, ◌^◌, ◌≡◌, refl, ap, ◌∙◌, arith, Bool, true, false, not, ◌==◌,
  if◌then◌else◌, some,
}
use xor_os.Base.Bits.{bit_and_mask}
use xor_os.Base.Word.{rv32, uword, shr}
use xor_os.Outcome.{Outcome, ok, fail, out_of_range, illegal_opcode, undefined_behaviour}
use xor_os.Isa
use xor_os.Csr
use xor_os.Csr.Codes
use xor_os.Decoder.{DecodedInstr}
use xor_os.Registers
use xor_os.Memory
use xor_os.Memory.{MemoryModel}
use xor_os.RvModel.Monad.{
  RvModel, pure, gets, modify, on_memory, catch_range, handle_range, and_then, ◌>>=◌,
}
use xor_os.RvModel.Trap.{trap}
use xor_os.RvModel.Plain.{memory_ops}
use xor_os.RvModel.Translate.{translate_addr}
use xor_os.RvModel.Access.{store_misaligned, store_value, finish_store, store_to, execute_store}
use xor_os.RvModel.Execute.{execute_instr}
use xor_os.RvModel.Step.{finish_step, advance_pc, count}
use xor_os.RvModel.Effects.Semantics.{take_trap, fire_trap-take_trap}

pub data StoreOp : Type 0 where
  sb sh sw : StoreOp

unfoldable pub store_funct3 : StoreOp → ℕ
store_funct3 sb = 0
store_funct3 sh = 1
store_funct3 sw = 2

-- How many bytes it stores.
unfoldable pub store_width : StoreOp → ℕ
store_width sb = 1
store_width sh = 2
store_width sw = 4

module _ {D : Type 0} where
  -- The low bytes of the value are stored.
  unfoldable pub put_at : StoreOp → MemoryModel D → ℕ → ℕ → Outcome (Unit {0}) × MemoryModel D
  put_at sb m a v = Memory.write_byte m a (v % 2 ^ 8)
  put_at sh m a v = Memory.write_half m a (v % 2 ^ 16)
  put_at sw m a v = Memory.write_word m a (v % 2 ^ 32)

  -- The end of a step with a store at `addr`.
  unfoldable pub stored :
      RvModel (MemoryModel D)
      → ℕ
      → Outcome (Unit {0}) × MemoryModel D
      → Outcome (Unit {0}) × RvModel (MemoryModel D)
  stored s addr (ok v, m) =
      (ok tt, record { cpu = count (advance_pc s.cpu); mem = Memory.invalidate_reservation m })
  stored s addr (fail out_of_range, m) =
      (ok tt, record { cpu = count (take_trap 7 addr s.cpu); mem = m })
  stored s addr (fail illegal_opcode, m) = (fail illegal_opcode, record s { mem = m })
  stored s addr (fail undefined_behaviour, m) = (fail undefined_behaviour, record s { mem = m })

  -- A step with a store, that traps where the address is not aligned.
  unfoldable pub store_step :
      RvModel (MemoryModel D) → StoreOp → ℕ → ℕ → Outcome (Unit {0}) × RvModel (MemoryModel D)
  store_step s op addr v =
      if addr % store_width op == 0
      then stored s addr (put_at op s.mem addr v)
      else (ok tt, record s { cpu = count (take_trap 6 addr s.cpu) })

misaligned-store :
    (op : StoreOp) (addr : ℕ)
    → store_misaligned (store_funct3 op) addr ≡ not (addr % store_width op == 0)
unfolding store_misaligned store_funct3 store_width
misaligned-store sb addr = ground arith
misaligned-store sh addr = rw (bit_and_mask 1 addr) refl
misaligned-store sw addr = ground (arith, bit_and_mask 2 addr)

module _ {D : Type 0} (s : RvModel (MemoryModel D)) (d : DecodedInstr) (addr : ℕ) where
  -- What `executeStore` does with the outcome of its write.
  after_write : Outcome (Unit {0}) × MemoryModel D → Outcome Bool × RvModel (MemoryModel D)
  after_write r = and_then (finish_store memory_ops) (
      handle_range (trap Codes.exc_store_fault addr)
        (and_then (λ u. pure false) (r.0, record s { mem = r.1 })))

  finish-after_write :
      (r : Outcome (Unit {0}) × MemoryModel D)
      → and_then (finish_step memory_ops) (after_write r) ≡ stored s addr r
  unfolding after_write stored and_then finish_store finish_step handle_range on_memory trap pure
      modify ◌>>=◌ memory_ops
  finish-after_write (ok v, m) = refl
  finish-after_write (fail out_of_range, m) =
      rw (fire_trap-take_trap Codes.exc_store_fault addr s.cpu) refl
  finish-after_write (fail illegal_opcode, m) = refl
  finish-after_write (fail undefined_behaviour, m) = refl

  store_to-after_write :
      (op : StoreOp) (v : ℕ)
      → d.funct3 ≡ store_funct3 op
      → store_to memory_ops d addr v (some addr) s ≡ after_write (put_at op s.mem addr v)
  unfolding after_write store_to store_value put_at store_funct3 catch_range on_memory memory_ops
      ◌>>=◌
  store_to-after_write sb v e = rw (e, bit_and_mask 8 v) refl
  store_to-after_write sh v e = rw (e, bit_and_mask 16 v) refl
  store_to-after_write sw v e = rw e refl

module _ {D : Type 0} (s : RvModel (MemoryModel D)) (d : DecodedInstr) where
  select_store :
      d.opcode ≡ Isa.op_store → execute_instr memory_ops d s ≡ execute_store memory_ops d s
  unfolding execute_instr
  select_store e = simp e refl

  address : ℕ
  address = uword rv32 (Registers.get s.cpu.regs d.rs1 + d.imm)

  store-aligned :
      (shr (Csr.read s.cpu.csr Codes.satp) 31 == 0) ≡ true
      → store_misaligned d.funct3 address ≡ false
      → execute_store memory_ops d s
        ≡ store_to memory_ops d address (Registers.get s.cpu.regs d.rs2) (some address) s
  unfolding address execute_store translate_addr gets pure and_then ◌>>=◌
  store-aligned bare even = rw (even, bare) refl

  store-misaligned :
      store_misaligned d.funct3 address ≡ true
      → and_then (finish_step memory_ops) (execute_store memory_ops d s)
        ≡ (ok tt, record s { cpu = count (take_trap 6 address s.cpu) })
  unfolding address execute_store finish_step trap modify gets pure and_then ◌>>=◌
  store-misaligned odd =
      rw
        (
          odd,
          fire_trap-take_trap Codes.exc_store_misalign
              (uword rv32 (Registers.get s.cpu.regs d.rs1 + d.imm)) s.cpu,
        )
        refl

  pub store-effect :
      (op : StoreOp)
      → (shr (Csr.read s.cpu.csr Codes.satp) 31 == 0) ≡ true
      → d.opcode ≡ Isa.op_store
      → d.funct3 ≡ store_funct3 op
      → and_then (finish_step memory_ops) (execute_instr memory_ops d s)
        ≡ store_step s op
            (uword rv32 (Registers.get s.cpu.regs d.rs1 + d.imm))
            (Registers.get s.cpu.regs d.rs2)
  unfolding store_step address
  store-effect op bare is_store kind =
      let value = Registers.get s.cpu.regs d.rs2 in
      let misaligned : store_misaligned d.funct3 address ≡ not (address % store_width op == 0) =
        rw kind (misaligned-store op address) in
      ap (and_then (finish_step memory_ops)) (select_store is_store)
      ∙ elim (Bool-cases (address % store_width op == 0)) [
        | inl even ↦ rw even (
            ap (and_then (finish_step memory_ops)) (
              store-aligned bare (misaligned ∙ ap not even)
              ∙ store_to-after_write s d address op value kind)
            ∙ finish-after_write s d address (put_at op s.mem address value))
        | inr odd ↦ rw odd (store-misaligned (misaligned ∙ ap not odd))
      ]
