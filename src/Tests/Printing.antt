-- ===== src/Tests/Printing.antt =====
-- rv32i/include/disasm.hpp and dumper.hpp: the theorems on what is printed at concrete inputs, and
-- tests.
use xor_os.Base.{ℕ, ◌≡◌, refl, arith, ◌==◌, ◌||◌, is_some, List, [], ◌∷◌, ◌++◌, none, some, length}
use xor_os.Base.Word.{rv32, to_signed}
use xor_os.Base.Text.{Text, codes, hex_digit, digits_of, to_string, absent}
use xor_os.Isa
use xor_os.Alu
use xor_os.Csr
use xor_os.Decoder.{DecodedInstr}
use xor_os.Memory
use xor_os.Memory.{MemoryModel}
use xor_os.RvModel.Access.{amo_result}
use xor_os.RvModel.Execute.{branch_taken, op_imm_op, csr_access}
use xor_os.Disasm.{
  disassemble, disassemble_known, branch_name, op_imm_name, shift_imm_name, csr_op_name,
  csr_imm_name, amo_name, mem_type, reg_name, reg_names, switch_on, load_name,
}
use xor_os.Disasm.RoundTrip.{executed}
use xor_os.Disasm.Reading.{read_op, read_op-disassemble}
use xor_os.Disasm.Known.{names-Executed}
use xor_os.Dumper.Trace.{traced, read_trace, read_trace-traced}

-- `sra a0, a1, t6` and `lw a0, -4(sp)`.
abbrev sra_instr : DecodedInstr
sra_instr = record {
  opcode = Isa.op_op;
  rd = 10;
  rs1 = 11;
  rs2 = 31;
  funct3 = Isa.f3_srl_sra;
  funct7 = Isa.f7_alt;
  imm = 0;
  raw = 0x41F5D533;
}

abbrev lw_instr : DecodedInstr
lw_instr = record {
  opcode = Isa.op_load;
  rd = 10;
  rs1 = 2;
  rs2 = 0;
  funct3 = Isa.f3_lw;
  funct7 = 0;
  imm = 0xFFFFFFFC;
  raw = 0xFFC12503;
}

read_op-disassemble_example :
    (op : Alu.Op) × (executed sra_instr.funct3 sra_instr.funct7 ≡ some op)
    × (read_op (disassemble rv32 sra_instr) ≡ (some op, 10, 11, 31))
read_op-disassemble_example =
    read_op-disassemble rv32 sra_instr refl (omega arith) (omega arith) (omega arith) (omega arith)

lw_text : disassemble rv32 lw_instr ≡ codes "lw a0, -4(sp)"
unfolding disassemble disassemble_known mem_type reg_name reg_names switch_on load_name to_string
    digits_of hex_digit to_signed
lw_text = refl

names-Executed_example :
    (is_some (branch_name 2) ≡ is_some (branch_taken 2 5 5))
    × ((is_some (op_imm_name 2) || is_some (shift_imm_name 2 0)) ≡ is_some (op_imm_op 2 0))
    × ((is_some (csr_op_name 2) || is_some (csr_imm_name 2))
        ≡ is_some (csr_access 2 Csr.init 0x300 5 4))
    × (is_some (amo_name 3) ≡ (3 == Isa.f5_sc || is_some (amo_result 3 5 5)))
names-Executed_example = names-Executed 2 0 3 5 5 Csr.init 0x300 4

abbrev greeting : MemoryModel (Unit {0})
greeting = Memory.copy_bytes (Memory.init 24 tt) (codes "Hello, XorOS") 2

abbrev two_steps : List (ℕ × Text)
two_steps = (0x100, codes "addi a0, a0, 1") ∷ (0x104, codes "ebreak") ∷ []

read_trace-traced_example :
    (traced none two_steps ≡ none)
    × ((t : Text) × (traced (some []) two_steps ≡ some ([] ++ t))
        × (read_trace (length two_steps) t ≡ two_steps))
unfolding absent
read_trace-traced_example =
    read_trace-traced two_steps [] (omega arith, refl, (omega arith, refl, tt))
