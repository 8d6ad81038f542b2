-- ===== src/RvModel/Effects/Meaning.antt =====
-- rv32i/include: the whole path of an instruction, from the builder over the memory and the decoder
-- to the CPU, against the `meaning` of the instruction.
use xor_os.RvModel.Effects.Instr.{
  atomic, access_csr, Instr, arith_reg, arith_imm, shift_imm, lui, auipc, branch, jal, jalr,
  load_reg, store_reg, fence, system, to_format, IsEncodable, meaning,
}
use xor_os.RvModel.Effects.Atomics.{AmoOp, amo_funct5, amo-effect}
use xor_os.RvModel.State.{ext_a, has_extension, ext_m}
use xor_os.Base.Word.{shr, rv32}
use xor_os.Base.{ℕ, ◌≡◌, refl, ◌∙◌, arith, true}
use xor_os.Base.Int.{ℤ}
use xor_os.Isa
use xor_os.Decoder.{decode}
use xor_os.Builder.Formats.{encode, InRange, decode-encode}
use xor_os.Memory.{MemoryModel}
use xor_os.RvModel.Monad.{RvModel}
use xor_os.RvModel.Plain.{memory_ops}
use xor_os.RvModel.Step.{step}
use xor_os.RvModel.Effects.Loads.{LoadOp, load-effect}
use xor_os.RvModel.Effects.Stores.{StoreOp, store-effect}
use xor_os.RvModel.Effects.{Fetches}
use xor_os.RvModel.Effects.Decoded.{imm_pattern, step-decoded}
use xor_os.RvModel.Effects.Arithmetic.{
  step-arith_reg, step-arith_imm, step-shift_imm, step-lui, step-auipc,
}
use xor_os.RvModel.Effects.Control.{
  step-branch, step-jal, step-jalr, step-fence, step-system, step-csr,
}

module _ {D : Type 0} (s : RvModel (MemoryModel D)) where
  pub step-load :
      (op : LoadOp) (rd rs1 : ℕ) (imm : ℤ)
      → InRange (to_format (load_reg op rd rs1 imm))
      → Fetches s (encode (to_format (load_reg op rd rs1 imm)))
      → step memory_ops s ≡ meaning (load_reg op rd rs1 imm) s
  unfolding to_format meaning
  step-load op rd rs1 imm r h =
      let f = to_format (load_reg op rd rs1 imm) in
      let w = encode f in
      let d = decode rv32 w in
      let is = decode-encode rv32 f r in
      let value = imm_pattern w imm is.4 in
      step-decoded s w Isa.op_load _ h is.0 (omega arith) refl
      ∙ load-effect s d op h.bare is.0 is.2
      ∙ rw (is.1, is.3, value) refl

  pub step-store :
      (op : StoreOp) (rs1 rs2 : ℕ) (imm : ℤ)
      → InRange (to_format (store_reg op rs1 rs2 imm))
      → Fetches s (encode (to_format (store_reg op rs1 rs2 imm)))
      → step memory_ops s ≡ meaning (store_reg op rs1 rs2 imm) s
  unfolding to_format meaning
  step-store op rs1 rs2 imm r h =
      let f = to_format (store_reg op rs1 rs2 imm) in
      let w = encode f in
      let d = decode rv32 w in
      let is = decode-encode rv32 f r in
      let value = imm_pattern w imm is.4 in
      step-decoded s w Isa.op_store _ h is.0 (omega arith) refl
      ∙ store-effect s d op h.bare is.0 is.1
      ∙ rw (is.2, is.3, value) refl

  step-atomic :
      (op : AmoOp) (order rd rs1 rs2 : ℕ)
      → IsEncodable (atomic op order rd rs1 rs2)
      → Fetches s (encode (to_format (atomic op order rd rs1 rs2)))
      → has_extension s.cpu.config ext_a ≡ true
      → step memory_ops s ≡ meaning (atomic op order rd rs1 rs2) s
  unfolding to_format meaning IsEncodable
  step-atomic op order rd rs1 rs2 r h ext =
      let f = to_format (atomic op order rd rs1 rs2) in
      let d = decode rv32 (encode f) in
      let is = decode-encode rv32 f r.0 in
      let few = r.1 in
      let kind : shr d.funct7 2 ≡ amo_funct5 op = rw is.5 (omega arith) in
      step-decoded s (encode f) Isa.op_amo _ h is.0 (omega arith) refl
      ∙ amo-effect s d op ext h.bare is.0 kind
      ∙ rw (is.1, is.3, is.4) refl

  -- A step on the encoding of an instruction of RV32IMA, of a CSR instruction, of ECALL, EBREAK or
  -- MRET, wherever it stands in the memory, does what the instruction means: to the registers, to
  -- the CSRs, to the memory, to the pc and to the number of instructions, with the trap or the
  -- exception of an address that is not aligned, of a memory access that fails and of a CSR above
  -- the privilege of the mode. Its operands fit their fields, the CPU runs without address
  -- translation, and it has the extensions M and A.
  pub step-Means :
      (i : Instr)
      → IsEncodable i
      → Fetches s (encode (to_format i))
      → has_extension s.cpu.config ext_m ≡ true
      → has_extension s.cpu.config ext_a ≡ true
      → step memory_ops s ≡ meaning i s
  unfolding IsEncodable
  step-Means (arith_reg op rd rs1 rs2) r h m a = step-arith_reg s op rd rs1 rs2 r h m
  step-Means (arith_imm op rd rs1 imm) r h m a = step-arith_imm s op rd rs1 imm r h
  step-Means (shift_imm op rd rs1 k) r h m a = step-shift_imm s op rd rs1 k r h
  step-Means (lui rd imm) r h m a = step-lui s rd imm r h
  step-Means (auipc rd imm) r h m a = step-auipc s rd imm r h
  step-Means (branch c rs1 rs2 offset) r h m a = step-branch s c rs1 rs2 offset r h
  step-Means (jal rd offset) r h m a = step-jal s rd offset r h
  step-Means (jalr rd rs1 imm) r h m a = step-jalr s rd rs1 imm r h
  step-Means (load_reg op rd rs1 imm) r h m a = step-load op rd rs1 imm r h
  step-Means (store_reg op rs1 rs2 imm) r h m a = step-store op rs1 rs2 imm r h
  step-Means fence r h m a = step-fence s r h
  step-Means (system op) r h m a = step-system s op r h
  step-Means (access_csr op rd rs1 addr) r h m a = step-csr s op rd rs1 addr r h
  step-Means (atomic op order rd rs1 rs2) r h m a = step-atomic op order rd rs1 rs2 r h a
