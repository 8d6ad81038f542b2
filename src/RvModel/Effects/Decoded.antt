-- ===== src/RvModel/Effects/Decoded.antt =====
-- rv32i/include/rv_model.hpp: a step on an instruction that was fetched and decoded.
use xor_os.Base.{ℕ, ◌<◌, ◌≡◌, ap, sym, ◌∙◌, arith, Bool, false, ◌==◌, ◌^◌}
use xor_os.Base.Int.{ℤ}
use xor_os.Base.Word.{rv32, to_signed, of_signed, of_signed-to_signed, of_signed-lt}
use xor_os.Outcome.{Outcome}
use xor_os.Isa.Fields.{get_opcode_lem}
use xor_os.Decoder.{decode, decode_imm}
use xor_os.Memory.{MemoryModel}
use xor_os.RvModel.Monad.{RvModel, and_then, ◌>>=◌}
use xor_os.RvModel.Plain.{memory_ops}
use xor_os.RvModel.Execute.{execute_instr}
use xor_os.RvModel.Step.{step, finish_step}
use xor_os.Isa
use xor_os.Isa.{sign_extend}
use xor_os.RvModel.Effects.{Fetches, step-word}

extend-lt : (v bits : ℕ) → sign_extend rv32 v bits < 2 ^ 32
unfolding sign_extend
extend-lt v bits = of_signed-lt rv32 _

-- An immediate is a word.
decode_imm-lt : (opcode raw : ℕ) → decode_imm rv32 opcode raw < 2 ^ 32
unfolding decode_imm Isa.decode_imm_i Isa.decode_imm_s Isa.decode_imm_b Isa.decode_imm_j
decode_imm-lt opcode raw =
    let i = extend-lt (Isa.extract_bits raw 31 20) 12 in
    let s : Isa.decode_imm_s rv32 raw < 2 ^ 32 = extend-lt _ 12 in
    let b : Isa.decode_imm_b rv32 raw < 2 ^ 32 = extend-lt _ 13 in
    let j : Isa.decode_imm_j rv32 raw < 2 ^ 32 = extend-lt _ 21 in
    let imm_u = of_signed-lt rv32 (to_signed rv32 (Isa.decode_imm_u raw)) in ground arith

decode-imm-lt : (raw : ℕ) → (decode rv32 raw).imm < 2 ^ 32
unfolding decode
decode-imm-lt raw = decode_imm-lt (Isa.get_opcode raw) raw

-- The pattern of an immediate that was decoded as an integer.
pub imm_pattern :
    (w : ℕ) (v : ℤ)
    → to_signed rv32 (decode rv32 w).imm ≡ v
    → (decode rv32 w).imm ≡ of_signed rv32 v
imm_pattern w v e =
    sym (of_signed-to_signed rv32 (decode rv32 w).imm (decode-imm-lt w)) ∙ ap (of_signed rv32) e

nonzero : (w op : ℕ) → (decode rv32 w).opcode ≡ op → 0 < op → (w == 0) ≡ false
unfolding decode
nonzero w op e h = ground (arith, get_opcode_lem w)

module _ {D : Type 0} (s : RvModel (MemoryModel D)) where
  -- A step is the instruction that was decoded, and what follows it.
  pub step-decoded :
      (w op : ℕ) (r : Outcome Bool × RvModel (MemoryModel D))
      → Fetches s w
      → (decode rv32 w).opcode ≡ op
      → 0 < op
      → execute_instr memory_ops (decode rv32 w) s ≡ r
      → step memory_ops s ≡ and_then (finish_step memory_ops) r
  unfolding ◌>>=◌
  step-decoded w op r h e some_op runs =
      step-word s w h (nonzero w op e some_op) ∙ ap (and_then (finish_step memory_ops)) runs
