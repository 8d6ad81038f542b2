-- ===== src/RvModel/Step.antt =====
-- rv32i/include/rv_model.hpp: `step` and `run`.
pub mod Count
use xor_os.Base.{
  ℕ, zero, suc, ◌+◌, ◌%◌, ◌^◌, Bool, true, false, not, ◌&&◌, ltb, leb, ◌==◌, if◌then◌else◌, Option,
  none, some,
}
use xor_os.Base.Word.{rv32, uword}
use xor_os.Decoder.{decode}
use xor_os.Csr.Codes
use xor_os.RvModel.State.{Cpu, fetch, halt}
use xor_os.RvModel.Monad.{MemT, Exec, modify, gets, pure, on_memory, catch_range, ◌>>=◌, ◌>>◌}
use xor_os.RvModel.Trap.{fire_trap}
use xor_os.RvModel.Translate.{translate_addr}
use xor_os.RvModel.Execute.{execute_instr}

-- `advancePC()`
unfoldable pub advance_pc : Cpu → Cpu
advance_pc c = record c { pc = uword rv32 (c.pc + 4) }

-- `++instrCount_`, a `uint64_t`.
unfoldable pub count : Cpu → Cpu
count c = record c { instr_count = (c.instr_count + 1) % 2 ^ 64 }

module _ {M : Type 0} (ops : MemT M) where
  unfoldable pub finish_step : Bool → Exec M (Unit {0})
  finish_step pc_modified =
      if not pc_modified then (modify advance_pc >> modify count) else modify count

  -- The instruction word that was fetched, or none where the fetch has trapped.
  unfoldable pub execute_word : Option ℕ → Exec M (Unit {0})
  execute_word none = modify count
  execute_word (some raw) =
      if raw == 0 then modify halt else (execute_instr ops (decode rv32 raw) >>= finish_step)

  unfoldable pub fetch_at : ℕ → Option ℕ → Exec M (Unit {0})
  fetch_at pc none = modify count
  fetch_at pc (some p) =
      catch_range (on_memory (λ m. ops.read_word m p) >>= λ raw. pure (some raw))
        (modify (fire_trap Codes.exc_insn_fault pc) >> pure none)
      >>= execute_word

  unfoldable pub step : Exec M (Unit {0})
  step = gets (λ c. c.halted) >>= λ halted. gets (λ c. c.pc) >>= λ pc.
      if halted then pure tt else (translate_addr ops pc fetch >>= fetch_at pc)

  -- The loop of `run`, with `steps` steps made: whether it came to its end on the fuel. A
  -- `max_steps` of 0 is no bound.
  unfoldable pub run_loop : ℕ → ℕ → ℕ → Exec M Bool
  run_loop zero max_steps steps = pure false
  run_loop (suc fuel) max_steps steps = gets (λ c. c.halted) >>= λ halted.
      if halted
      then pure true
      else (step >>= λ _.
          if ltb 0 max_steps && leb max_steps (steps + 1)
          then pure true
          else run_loop fuel max_steps (steps + 1))

  unfoldable pub run : ℕ → ℕ → Exec M Bool
  run fuel max_steps = run_loop fuel max_steps 0
