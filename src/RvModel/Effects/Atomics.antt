-- ===== src/RvModel/Effects/Atomics.antt =====
-- rv32i/include/rv_model.hpp: `executeAMO` without address translation, and the meaning
-- of LR, SC and the AMOs.
use xor_os.Base.{
  Bool-cases, inl, inr, ℕ, ◌+◌, ◌%◌, ◌^◌, ◌≡◌, refl, ◌∙◌, ap, bit_and, bit_or, bit_xor, Bool, true,
  false, ltb, ◌==◌, if◌then◌else◌, some,
}
use xor_os.Base.Bits.{bit_and_mask}
use xor_os.Base.Int.{ltb_ℤ}
use xor_os.Base.Word.{rv32, to_signed, shr}
use xor_os.Outcome.{Outcome, ok, fail}
use xor_os.Isa
use xor_os.Csr
use xor_os.Csr.Codes
use xor_os.Decoder.{DecodedInstr}
use xor_os.Registers
use xor_os.Memory
use xor_os.Memory.{MemoryModel}
use xor_os.RvModel.State.{has_extension, ext_a}
use xor_os.RvModel.Monad.{RvModel, pure, gets, modify, on_memory, and_then, ◌>>=◌}
use xor_os.RvModel.Trap.{trap}
use xor_os.RvModel.Plain.{memory_ops}
use xor_os.RvModel.Translate.{translate_addr}
use xor_os.RvModel.Access.{amo_result, finish_amo, amo_at, execute_amo}
use xor_os.RvModel.Execute.{execute_instr}
use xor_os.RvModel.Effects.Semantics.{take_trap, fire_trap-take_trap}
use xor_os.RvModel.Step.{finish_step, advance_pc, count}
use xor_os.RvModel.Effects.{with_reg}

pub data AmoOp : Type 0 where
  lr sc amoswap amoadd amoxor amoand amoor amomin amomax amominu amomaxu : AmoOp

unfoldable pub amo_funct5 : AmoOp → ℕ
amo_funct5 lr = 0b00010
amo_funct5 sc = 0b00011
amo_funct5 amoswap = 0b00001
amo_funct5 amoadd = 0b00000
amo_funct5 amoxor = 0b00100
amo_funct5 amoand = 0b01100
amo_funct5 amoor = 0b01000
amo_funct5 amomin = 0b10000
amo_funct5 amomax = 0b10100
amo_funct5 amominu = 0b11000
amo_funct5 amomaxu = 0b11100

-- What an AMO stores, of the word `a` in the memory and of the register's `b`.
unfoldable pub amo_value : AmoOp → ℕ → ℕ → ℕ
amo_value amoadd a b = (a + b) % 2 ^ 32
amo_value amoxor a b = bit_xor a b
amo_value amoand a b = bit_and a b
amo_value amoor a b = bit_or a b
amo_value amomin a b = if ltb_ℤ (to_signed rv32 a) (to_signed rv32 b) then a else b
amo_value amomax a b = if ltb_ℤ (to_signed rv32 b) (to_signed rv32 a) then a else b
amo_value amominu a b = if ltb a b then a else b
amo_value amomaxu a b = if ltb b a then a else b
amo_value op a b = b

module _ {D : Type 0} (s : RvModel (MemoryModel D)) where
  -- The next instruction, with rd written and a new memory.
  abbrev next_with : ℕ → ℕ → MemoryModel D → Outcome (Unit {0}) × RvModel (MemoryModel D)
  next_with rd v m = (ok tt, record { cpu = count (advance_pc (with_reg s rd v)); mem = m })

  -- The ends of a step with an LR, with an SC and with an AMO. An exception of the memory ends it.
  unfoldable pub lr_end : ℕ → ℕ → Outcome ℕ → Outcome (Unit {0}) × RvModel (MemoryModel D)
  lr_end rd addr (ok v) = next_with rd v (Memory.reserve_load s.mem addr)
  lr_end rd addr (fail e) = (fail e, s)

  unfoldable pub sc_end :
      ℕ → Outcome Bool × MemoryModel D → Outcome (Unit {0}) × RvModel (MemoryModel D)
  sc_end rd (ok done, m) = next_with rd (if done then 0 else 1) m
  sc_end rd (fail e, m) = (fail e, record s { mem = m })

  unfoldable pub amo_end :
      ℕ → ℕ → Outcome (Unit {0}) × MemoryModel D → Outcome (Unit {0}) × RvModel (MemoryModel D)
  amo_end rd old (ok done, m) = next_with rd old m
  amo_end rd old (fail e, m) = (fail e, record s { mem = m })

  unfoldable pub amo_read :
      AmoOp → ℕ → ℕ → ℕ → Outcome ℕ → Outcome (Unit {0}) × RvModel (MemoryModel D)
  amo_read op rd addr v (ok old) =
      amo_end rd old
        (Memory.write_word (Memory.invalidate_reservation s.mem) addr (amo_value op old v % 2 ^ 32))
  amo_read op rd addr v (fail e) = (fail e, s)

  unfoldable pub amo_access : AmoOp → ℕ → ℕ → ℕ → Outcome (Unit {0}) × RvModel (MemoryModel D)
  amo_access lr rd addr v = lr_end rd addr (Memory.read_word s.mem addr)
  amo_access sc rd addr v = sc_end rd (Memory.store_conditional s.mem addr (v % 2 ^ 32))
  amo_access op rd addr v = amo_read op rd addr v (Memory.read_word s.mem addr)

  -- A step with one of them, that traps where the address is not aligned.
  unfoldable pub amo_step : AmoOp → ℕ → ℕ → ℕ → Outcome (Unit {0}) × RvModel (MemoryModel D)
  amo_step op rd addr v =
      if addr % 4 == 0
      then amo_access op rd addr v
      else (ok tt, record s { cpu = count (take_trap 6 addr s.cpu) })

  module _ (d : DecodedInstr) (addr v : ℕ) where
    -- What `executeAMO` does with the outcome of a read.
    after_lr : Outcome ℕ → Outcome Bool × RvModel (MemoryModel D)
    after_lr r =
        and_then
          (λ w. modify (λ c. record c { regs = Registers.set c.regs d.rd w }) >>= λ _.
            on_memory (λ m. (ok tt, memory_ops.reserve_load m addr)) >>= λ _. pure false)
          (r, s)

    lr-finish :
        (r : Outcome ℕ) → and_then (finish_step memory_ops) (after_lr r) ≡ lr_end d.rd addr r
    unfolding after_lr lr_end and_then ◌>>=◌ modify on_memory pure finish_step memory_ops
    lr-finish (ok w) = refl
    lr-finish (fail e) = refl

    after_sc : Outcome Bool × MemoryModel D → Outcome Bool × RvModel (MemoryModel D)
    after_sc r =
        and_then
          (λ done.
            modify (λ c. record c { regs = Registers.set c.regs d.rd (if done then 0 else 1) })
            >>= λ _. pure false)
          (r.0, record s { mem = r.1 })

    sc-finish :
        (r : Outcome Bool × MemoryModel D)
        → and_then (finish_step memory_ops) (after_sc r) ≡ sc_end d.rd r
    unfolding after_sc sc_end and_then ◌>>=◌ modify pure finish_step memory_ops
    sc-finish (ok done, m) = refl
    sc-finish (fail e, m) = refl

    after_put : ℕ → Outcome (Unit {0}) × MemoryModel D → Outcome Bool × RvModel (MemoryModel D)
    after_put old r =
        and_then (λ _. pure false)
          (and_then (λ _. modify (λ c. record c { regs = Registers.set c.regs d.rd old }))
            (r.0, record s { mem = r.1 }))

    put-finish :
        (old : ℕ) (r : Outcome (Unit {0}) × MemoryModel D)
        → and_then (finish_step memory_ops) (after_put old r) ≡ amo_end d.rd old r
    unfolding after_put amo_end and_then ◌>>=◌ modify pure finish_step memory_ops
    put-finish old (ok done, m) = refl
    put-finish old (fail e, m) = refl

    after_amo : AmoOp → Outcome ℕ → Outcome Bool × RvModel (MemoryModel D)
    after_amo op r =
        and_then (λ old. finish_amo memory_ops d addr old (some (amo_value op old v))) (r, s)

    amo-finish :
        (op : AmoOp) (r : Outcome ℕ)
        → and_then (finish_step memory_ops) (after_amo op r) ≡ amo_read op d.rd addr v r
    unfolding after_amo after_put amo_read finish_amo and_then ◌>>=◌ on_memory modify memory_ops
    amo-finish op (ok old) =
        put-finish old (
          Memory.write_word (Memory.invalidate_reservation s.mem) addr
            (amo_value op old v % 2 ^ 32))
    amo-finish op (fail e) = refl

    amo_at-lr :
        shr d.funct7 2 ≡ amo_funct5 lr
        → amo_at memory_ops d v (some addr) s ≡ after_lr (Memory.read_word s.mem addr)
    unfolding amo_at after_lr amo_funct5 on_memory memory_ops ◌>>=◌ pure modify
    amo_at-lr e = rw e refl

    amo_at-sc :
        shr d.funct7 2 ≡ amo_funct5 sc
        → amo_at memory_ops d v (some addr) s
          ≡ after_sc (Memory.store_conditional s.mem addr (v % 2 ^ 32))
    unfolding amo_at after_sc amo_funct5 on_memory memory_ops ◌>>=◌
    amo_at-sc e = rw e refl

    amo_at-finish :
        (op : AmoOp)
        → shr d.funct7 2 ≡ amo_funct5 op
        → and_then (finish_step memory_ops) (amo_at memory_ops d v (some addr) s)
          ≡ amo_access op d.rd addr v
    unfolding amo_at after_amo amo_result amo_funct5 amo_value amo_access on_memory memory_ops ◌>>=◌
    amo_at-finish lr e =
        ap (and_then (finish_step memory_ops)) (amo_at-lr e)
        ∙ lr-finish (Memory.read_word s.mem addr)
    amo_at-finish sc e =
        ap (and_then (finish_step memory_ops)) (amo_at-sc e)
        ∙ sc-finish (Memory.store_conditional s.mem addr (v % 2 ^ 32))
    amo_at-finish op e =
        let ran : amo_at memory_ops d v (some addr) s ≡ after_amo op (Memory.read_word s.mem addr) =
          rw e refl in
        ap (and_then (finish_step memory_ops)) ran ∙ amo-finish op (Memory.read_word s.mem addr)

  module _ (d : DecodedInstr) where
    addr : ℕ
    addr = Registers.get s.cpu.regs d.rs1

    select_amo : d.opcode ≡ Isa.op_amo → execute_instr memory_ops d s ≡ execute_amo memory_ops d s
    unfolding execute_instr
    select_amo e = simp e refl

    amo-aligned :
        has_extension s.cpu.config ext_a ≡ true
        → (shr (Csr.read s.cpu.csr Codes.satp) 31 == 0) ≡ true
        → (addr % 4 == 0) ≡ true
        → execute_amo memory_ops d s
          ≡ amo_at memory_ops d (Registers.get s.cpu.regs d.rs2) (some addr) s
    unfolding addr execute_amo translate_addr gets pure and_then ◌>>=◌
    amo-aligned ext bare even =
        rw (ext, bit_and_mask 2 (Registers.get s.cpu.regs d.rs1), even, bare) refl

    amo-misaligned :
        has_extension s.cpu.config ext_a ≡ true
        → (addr % 4 == 0) ≡ false
        → and_then (finish_step memory_ops) (execute_amo memory_ops d s)
          ≡ (ok tt, record s { cpu = count (take_trap 6 addr s.cpu) })
    unfolding addr execute_amo finish_step trap modify gets pure and_then ◌>>=◌
    amo-misaligned ext odd =
        rw
          (
            ext,
            bit_and_mask 2 (Registers.get s.cpu.regs d.rs1),
            odd,
            fire_trap-take_trap Codes.exc_store_misalign (Registers.get s.cpu.regs d.rs1) s.cpu,
          )
          refl

    pub amo-effect :
        (op : AmoOp)
        → has_extension s.cpu.config ext_a ≡ true
        → (shr (Csr.read s.cpu.csr Codes.satp) 31 == 0) ≡ true
        → d.opcode ≡ Isa.op_amo
        → shr d.funct7 2 ≡ amo_funct5 op
        → and_then (finish_step memory_ops) (execute_instr memory_ops d s)
          ≡ amo_step op d.rd (Registers.get s.cpu.regs d.rs1) (Registers.get s.cpu.regs d.rs2)
    unfolding amo_step addr
    amo-effect op ext bare is_amo kind =
        ap (and_then (finish_step memory_ops)) (select_amo is_amo)
        ∙ elim (Bool-cases (addr % 4 == 0)) [
          | inl even ↦ rw even (
              ap (and_then (finish_step memory_ops)) (amo-aligned ext bare even)
              ∙ amo_at-finish d addr (Registers.get s.cpu.regs d.rs2) op kind)
          | inr odd ↦ rw odd (amo-misaligned ext odd)
        ]
