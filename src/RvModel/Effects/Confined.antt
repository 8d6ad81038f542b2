-- ===== src/RvModel/Effects/Confined.antt =====
-- rv32i/include/rv_model.hpp: what an instruction can do above the privilege of its mode.
use xor_os.Base.{
  sym, ap, Bool-cases, inl, inr, ◌⊎◌, ℕ, ◌/◌, ◌%◌, ◌^◌, ◌<◌, ◌≡◌, ◌≢◌, refl, arith, Bool, true, ltb,
  ◌==◌,
}
use xor_os.RvModel.Effects.Semantics.{take_trap, fire_trap-take_trap}
use xor_os.Outcome.{Outcome, ok, fail, out_of_range, illegal_opcode, undefined_behaviour}
use xor_os.Csr
use xor_os.Csr.{CsrFile}
use xor_os.Csr.Codes
use xor_os.Csr.Laws.{read-write}
use xor_os.Builder.Formats.{encode}
use xor_os.Memory
use xor_os.Memory.{MemoryModel}
use xor_os.Registers
use xor_os.Registers.{RegisterFile}
use xor_os.RvModel.State.{Cpu, has_extension, ext_m, ext_a}
use xor_os.RvModel.Monad.{RvModel}
use xor_os.RvModel.Plain.{memory_ops}
use xor_os.RvModel.Trap.{fire_trap}
use xor_os.RvModel.Step.{step, count, advance_pc}
use xor_os.RvModel.Effects.{Fetches}
use xor_os.RvModel.Effects.Loads.{LoadOp, load_step, load_width, loaded, value_at}
use xor_os.RvModel.Effects.Stores.{StoreOp, store_step, store_width, stored, put_at}
use xor_os.RvModel.Effects.Csrs.{CsrOp, csrrw, csrrwi, csr_file}
use xor_os.RvModel.Effects.Atomics.{
  AmoOp, lr, sc, amo_step, amo_access, amo_read, amo_end, lr_end, sc_end,
}
use xor_os.RvModel.Effects.Instr.{
  Instr, arith_reg, arith_imm, shift_imm, lui, auipc, branch, jal, jalr, load_reg, store_reg, fence,
  system, access_csr, atomic, ecall, ebreak, mret, system_meaning, holds, to_format, IsEncodable,
  meaning, then_jump,
}
use xor_os.RvModel.Effects.Meaning.{step-Means}

-- The mode and the registers above it are as before, or a trap was taken.
abbrev pub Confined : Cpu → Cpu → Type 0
Confined c c' =
    ((c'.priv_mode ≡ c.priv_mode)
      × ((a : ℕ) → c.priv_mode < a / 2 ^ 8 % 2 ^ 2 → Csr.read c'.csr a ≡ Csr.read c.csr a))
    ⊎ ((cause : ℕ) × (tval : ℕ) × (c' ≡ count (fire_trap cause tval c)))

written : (f : CsrFile) (addr v a : ℕ) → addr ≢ a → Csr.read (Csr.write f addr v) a ≡ Csr.read f a
unfolding Csr.read
written f addr v a ne = ground (arith, read-write f addr a v)

-- The trap that the ISA says is the trap of the code.
trapped : (cause tval : ℕ) (c : Cpu) → Confined c (count (take_trap cause tval c))
trapped cause tval c = inr (cause, tval, ap count (sym (fire_trap-take_trap cause tval c)))

csr_file-other :
    (op : CsrOp) (f : CsrFile) (addr v field a : ℕ)
    → addr ≢ a
    → Csr.read (csr_file op f addr v field) a ≡ Csr.read f a
unfolding csr_file
csr_file-other csrrw f addr v field a ne = written f addr v a ne
csr_file-other csrrwi f addr v field a ne = written f addr v a ne
csr_file-other op f addr v field a ne = elim (Bool-cases (field == 0)) [
  | inl e ↦ rw e refl
  | inr e ↦ rw e (written f addr _ a ne)
]

then_jump-Confined :
    (c : Cpu) (target : ℕ) (regs : RegisterFile) → Confined c (count (then_jump c target regs))
unfolding count
then_jump-Confined c target regs = elim (Bool-cases (target % 4 == 0)) [
  | inl e ↦ rw e (inl (refl, λ a h. refl))
  | inr e ↦ rw e (trapped Codes.exc_insn_misalign target c)
]

module _ {D : Type 0} (s : RvModel (MemoryModel D)) where
  loaded-Confined :
      (op : LoadOp) (rd addr : ℕ) (r : Outcome ℕ) → Confined s.cpu (loaded s op rd addr r).1.cpu
  unfolding loaded count advance_pc
  loaded-Confined op rd addr (ok v) = inl (refl, λ a h. refl)
  loaded-Confined op rd addr (fail out_of_range) = trapped Codes.exc_load_fault addr s.cpu
  loaded-Confined op rd addr (fail illegal_opcode) = inl (refl, λ a h. refl)
  loaded-Confined op rd addr (fail undefined_behaviour) = inl (refl, λ a h. refl)

  load-Confined : (op : LoadOp) (rd addr : ℕ) → Confined s.cpu (load_step s op rd addr).1.cpu
  unfolding load_step count
  load-Confined op rd addr = elim (Bool-cases (addr % load_width op == 0)) [
    | inl e ↦ rw e (loaded-Confined op rd addr (value_at op s.mem addr))
    | inr e ↦ rw e (trapped Codes.exc_load_misalign addr s.cpu)
  ]

  stored-Confined :
      (addr : ℕ) (r : Outcome (Unit {0}) × MemoryModel D) → Confined s.cpu (stored s addr r).1.cpu
  unfolding stored count advance_pc
  stored-Confined addr (ok v, m) = inl (refl, λ a h. refl)
  stored-Confined addr (fail out_of_range, m) = trapped Codes.exc_store_fault addr s.cpu
  stored-Confined addr (fail illegal_opcode, m) = inl (refl, λ a h. refl)
  stored-Confined addr (fail undefined_behaviour, m) = inl (refl, λ a h. refl)

  store-Confined : (op : StoreOp) (addr v : ℕ) → Confined s.cpu (store_step s op addr v).1.cpu
  unfolding store_step count
  store-Confined op addr v = elim (Bool-cases (addr % store_width op == 0)) [
    | inl e ↦ rw e (stored-Confined addr (put_at op s.mem addr v))
    | inr e ↦ rw e (trapped Codes.exc_store_misalign addr s.cpu)
  ]

  lr-Confined : (rd addr : ℕ) (r : Outcome ℕ) → Confined s.cpu (lr_end s rd addr r).1.cpu
  unfolding lr_end count advance_pc
  lr-Confined rd addr (ok v) = inl (refl, λ a h. refl)
  lr-Confined rd addr (fail e) = inl (refl, λ a h. refl)

  sc-Confined : (rd : ℕ) (r : Outcome Bool × MemoryModel D) → Confined s.cpu (sc_end s rd r).1.cpu
  unfolding sc_end count advance_pc
  sc-Confined rd (ok done, m) = inl (refl, λ a h. refl)
  sc-Confined rd (fail e, m) = inl (refl, λ a h. refl)

  put-Confined :
      (rd old : ℕ) (r : Outcome (Unit {0}) × MemoryModel D)
      → Confined s.cpu (amo_end s rd old r).1.cpu
  unfolding amo_end count advance_pc
  put-Confined rd old (ok done, m) = inl (refl, λ a h. refl)
  put-Confined rd old (fail e, m) = inl (refl, λ a h. refl)

  amo-Confined :
      (op : AmoOp) (rd addr v : ℕ) (r : Outcome ℕ)
      → Confined s.cpu (amo_read s op rd addr v r).1.cpu
  unfolding amo_read
  amo-Confined op rd addr v (ok old) = put-Confined rd old _
  amo-Confined op rd addr v (fail e) = inl (refl, λ a h. refl)

  access-Confined : (op : AmoOp) (rd addr v : ℕ) → Confined s.cpu (amo_access s op rd addr v).1.cpu
  unfolding amo_access
  access-Confined lr rd addr v = lr-Confined rd addr (Memory.read_word s.mem addr)
  access-Confined sc rd addr v = sc-Confined rd (Memory.store_conditional s.mem addr (v % 2 ^ 32))
  access-Confined op rd addr v = amo-Confined op rd addr v (Memory.read_word s.mem addr)

  atomic-Confined : (op : AmoOp) (rd addr v : ℕ) → Confined s.cpu (amo_step s op rd addr v).1.cpu
  unfolding amo_step count
  atomic-Confined op rd addr v = elim (Bool-cases (addr % 4 == 0)) [
    | inl e ↦ rw e (access-Confined op rd addr v)
    | inr e ↦ rw e (trapped Codes.exc_store_misalign addr s.cpu)
  ]

  csr-Confined :
      (op : CsrOp) (rd rs1 addr : ℕ) → Confined s.cpu (meaning (access_csr op rd rs1 addr) s).1.cpu
  unfolding meaning count
  csr-Confined op rd rs1 addr = elim (Bool-cases (ltb s.cpu.priv_mode (addr / 2 ^ 8 % 2 ^ 2))) [
    | inl low ↦ rw low (trapped Codes.exc_illegal_insn addr s.cpu)
    | inr enough ↦
        rw enough (inl (refl, λ a h. csr_file-other op s.cpu.csr addr _ rs1 a (λ e. ground arith)))
  ]

  meaning-Confined : (i : Instr) → i ≢ system mret → Confined s.cpu (meaning i s).1.cpu
  unfolding meaning system_meaning count
  meaning-Confined (arith_reg op rd rs1 rs2) ne = inl (refl, λ a h. refl)
  meaning-Confined (arith_imm op rd rs1 imm) ne = inl (refl, λ a h. refl)
  meaning-Confined (shift_imm op rd rs1 k) ne = inl (refl, λ a h. refl)
  meaning-Confined (lui rd imm) ne = inl (refl, λ a h. refl)
  meaning-Confined (auipc rd imm) ne = inl (refl, λ a h. refl)
  meaning-Confined (branch c rs1 rs2 offset) ne =
      elim (Bool-cases (holds c (Registers.get s.cpu.regs rs1) (Registers.get s.cpu.regs rs2))) [
        | inl e ↦ rw e (then_jump-Confined s.cpu _ s.cpu.regs)
        | inr e ↦ rw e (inl (refl, λ a h. refl))
      ]
  meaning-Confined (jal rd offset) ne = then_jump-Confined s.cpu _ _
  meaning-Confined (jalr rd rs1 imm) ne = then_jump-Confined s.cpu _ _
  meaning-Confined (load_reg op rd rs1 imm) ne = load-Confined op rd _
  meaning-Confined (store_reg op rs1 rs2 imm) ne = store-Confined op _ _
  meaning-Confined fence ne = inl (refl, λ a h. refl)
  meaning-Confined (system ecall) ne = trapped _ 0 s.cpu
  meaning-Confined (system ebreak) ne = inl (refl, λ a h. refl)
  meaning-Confined (system mret) ne = absurd (ne refl)
  meaning-Confined (access_csr op rd rs1 addr) ne = csr-Confined op rd rs1 addr
  meaning-Confined (atomic op order rd rs1 rs2) ne = atomic-Confined op rd _ _

  -- A step on the encoding of an instruction of RV32IMA, of a CSR instruction, of ECALL or of
  -- EBREAK, in any mode, either keeps the mode and every CSR above the privilege of the mode, or
  -- takes a trap. Its operands fit their fields, the CPU runs without address translation, and it
  -- has the extensions M and A.
  pub step-Confined :
      (i : Instr)
      → IsEncodable i
      → Fetches s (encode (to_format i))
      → has_extension s.cpu.config ext_m ≡ true
      → has_extension s.cpu.config ext_a ≡ true
      → i ≢ system mret
      → Confined s.cpu (step memory_ops s).1.cpu
  step-Confined i r h m a ne = rw (step-Means s i r h m a) (meaning-Confined i ne)
