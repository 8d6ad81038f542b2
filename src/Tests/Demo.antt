-- ===== src/Tests/Demo.antt =====
-- rv32i/src/main.cpp: the demo program runs to its result.
use xor_os.Base.{◌≡◌, refl}
use xor_os.Outcome.{ok}
use xor_os.Builder
use xor_os.Memory
use xor_os.Memory.Program
use xor_os.Memory.Program.{load_words}
use xor_os.Registers
use xor_os.RvModel.State
use xor_os.RvModel.Plain.{memory_ops}
use xor_os.RvModel.Step
use xor_os.RvModel.Step.{run}
use xor_os.RvModel.Monad
use xor_os.RvModel.Translate
use xor_os.RvModel.Execute
use xor_os.Alu
use xor_os.Csr
use xor_os.Isa
use xor_os.Decoder
use xor_os.Base.Word
use xor_os.Simulator.Demo.{demo_arithmetic, result, demo_memory, demo_program}

-- (3 + 4) * 5, in six steps.
demo_35 : demo_arithmetic 7 ≡ ok 35
unfolding demo_arithmetic result demo_memory demo_program load_words Program.program_bytes
    Memory.load_program Memory.copy_bytes Memory.init Memory.read_word Memory.find_mmio
    Memory.in_bounds memory_ops run Step.run_loop Step.step Step.fetch_at Step.execute_word
    Step.finish_step Step.advance_pc Step.count Monad.◌>>=◌ Monad.and_then Monad.gets Monad.modify
    Monad.pure Monad.on_memory Monad.catch_range Monad.handle_range Translate.translate_addr
    State.new State.halt Csr.read Csr.init Execute.execute_instr Execute.execute_op_imm
    Execute.execute_op Execute.op_imm_op Execute.base_op Execute.m_ext_op Execute.finish_op
    Alu.execute State.has_extension Decoder.decode Decoder.decode_imm Registers.get Registers.set
    Registers.init Builder.addi Builder.add Builder.mul Builder.halt Builder.i_type Builder.r_type
    Isa.sign_extend Isa.decode_imm_i Isa.extract_bits Word.of_signed Word.to_signed Isa.get_opcode
    Isa.get_funct3 Isa.get_funct7 Isa.get_rd Isa.get_rs1 Isa.get_rs2
demo_35 = refl
