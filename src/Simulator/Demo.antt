-- ===== src/Simulator/Demo.antt =====
-- rv32i/src/main.cpp: `demo_arithmetic`, the program of (3 + 4) * 5. Its output and its assert are
-- left out.
use xor_os.Base.{ℕ, List, [], ◌∷◌, Bool}
use xor_os.Base.Int.{pos}
use xor_os.Outcome.{Outcome, ok, fail}
use xor_os.Builder
use xor_os.Memory
use xor_os.Memory.{MemoryModel}
use xor_os.Memory.Program.{load_words}
use xor_os.Registers
use xor_os.RvModel.State
use xor_os.RvModel.State.{ext_m}
use xor_os.RvModel.Monad.{RvModel}
use xor_os.RvModel.Plain.{memory_ops}
use xor_os.RvModel.Step.{run}

unfoldable pub demo_program : List ℕ
demo_program =
    Builder.addi 10 0 (pos 3)
    ∷ Builder.addi 11 0 (pos 4)
    ∷ Builder.addi 12 0 (pos 5)
    ∷ Builder.add 13 10 11
    ∷ Builder.mul 14 13 12
    ∷ Builder.halt
    ∷ []

unfoldable pub demo_memory : MemoryModel (Unit {0})
demo_memory = (load_words (Memory.init 4096 tt) demo_program 0).1

-- The register a4 at the end of a run that ends.
unfoldable pub result : Outcome Bool × RvModel (MemoryModel (Unit {0})) → Outcome ℕ
result (ok ended, s) = ok (Registers.get s.cpu.regs 14)
result (fail e, s) = fail e

unfoldable pub demo_arithmetic : ℕ → Outcome ℕ
demo_arithmetic fuel =
    let cpu = State.new (record { extensions = ext_m }) in
    result (run memory_ops fuel 0 (record { cpu = cpu; mem = demo_memory }))
