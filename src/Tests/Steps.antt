-- ===== src/Tests/Steps.antt =====
-- rv32i/include: a step of the CPU on an instruction in its memory, at a concrete input.
use mathlib.Core.Bool.{true≢false}
use xor_os.Base.{◌≢◌, ap, true, false, inr, ◌+◌, ◌≡◌, refl, arith}
use xor_os.Builder.{i_type, b_type}
use xor_os.RvModel.Effects.Csrs.{csrrw, csr_funct3, csr_imm}
use xor_os.RvModel.Effects.Instr.{
  access_csr, system, mret, Instr, branch, bne, to_format, cond_funct3, meaning, IsEncodable,
}
use xor_os.RvModel.Effects.Confined.{Confined, step-Confined}
use xor_os.Base.Int.{negsuc}
use xor_os.Base.Word.{of_signed}
use xor_os.Builder.Formats.{encode}
use xor_os.Csr
use xor_os.Memory
use xor_os.Memory.{MemoryModel}
use xor_os.RvModel.State
use xor_os.RvModel.State.{ext_m, ext_a}
use xor_os.RvModel.Monad.{RvModel}
use xor_os.RvModel.Plain.{memory_ops}
use xor_os.RvModel.Step.{step}
use xor_os.RvModel.Effects.{Fetches}
use xor_os.RvModel.Effects.Meaning.{step-Means}

-- A loop's last instruction, which goes back from 16 to 8.
abbrev back : Instr
back = branch bne 2 0 (negsuc 7)

abbrev looping : RvModel (MemoryModel (Unit {0}))
looping = record {
  cpu = State.init (State.new (record { extensions = ext_m + ext_a })) 16 60;
  mem = (Memory.write_word (Memory.init 64 tt) 16 (encode (to_format back))).1;
}

looping-Fetches : Fetches looping (encode (to_format back))
unfolding State.init State.new Memory.init Memory.read_word Csr.read to_format b_type
    Memory.find_mmio of_signed Csr.init Memory.write_word Memory.in_bounds cond_funct3
looping-Fetches = record { running = refl; bare = refl; word = refl }

back-IsEncodable : IsEncodable back
unfolding IsEncodable to_format cond_funct3
back-IsEncodable = (omega arith, omega arith, refl, omega arith, omega arith, omega arith)

step-Means_example : step memory_ops looping ≡ meaning back looping
unfolding State.has_extension State.init State.new
step-Means_example = step-Means looping back back-IsEncodable looping-Fetches refl refl

-- A user program that writes mepc.
abbrev intruding : Instr
intruding = access_csr csrrw 1 2 0x341

abbrev user : RvModel (MemoryModel (Unit {0}))
user = record {
  cpu = record (State.init (State.new (record { extensions = ext_m + ext_a })) 16 60) {
    priv_mode = 0;
  };
  mem = (Memory.write_word (Memory.init 64 tt) 16 (encode (to_format intruding))).1;
}

user-Fetches : Fetches user (encode (to_format intruding))
unfolding State.init State.new Memory.init Memory.read_word Csr.read to_format i_type
    Memory.find_mmio of_signed Csr.init Memory.write_word Memory.in_bounds csr_funct3 csr_imm
user-Fetches = record { running = refl; bare = refl; word = refl }

intruding-IsEncodable : IsEncodable intruding
unfolding IsEncodable to_format csr_funct3 csr_imm
intruding-IsEncodable = (
  (
    omega arith,
    omega arith,
    omega arith,
    omega arith,
    omega arith,
    omega arith,
    inr (inr (inr (inr refl))),
  ),
  omega arith,
)

intruding-other : intruding ≢ system mret
intruding-other e =
    true≢false (ap (λ (i : Instr). elim i [ access_csr op rd rs1 addr ↦ true | _ ↦ false ]) e)

step-Confined_example : Confined user.cpu (step memory_ops user).1.cpu
unfolding State.has_extension State.init State.new
step-Confined_example =
    step-Confined user intruding intruding-IsEncodable user-Fetches refl refl intruding-other
