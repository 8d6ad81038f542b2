-- ===== src/RvModel/Plain.antt =====
-- rv32i/include/rv_model.hpp: the CPU over a `MemoryModel`, the default of its template argument.
pub mod Laws
use xor_os.Base.{ℕ}
use xor_os.Outcome.{Outcome}
use xor_os.Memory
use xor_os.Memory.{MemoryModel}
use xor_os.RvModel.Monad.{MemT}

-- A read changes nothing.
unfoldable pub memory_ops : {D : Type 0} → MemT (MemoryModel D)
memory_ops = record {
  read_byte = λ m a. (Memory.read_byte m a, m);
  read_half = λ m a. (Memory.read_half m a, m);
  read_word = λ m a. (Memory.read_word m a, m);
  write_byte = Memory.write_byte;
  write_half = Memory.write_half;
  write_word = Memory.write_word;
  reserve_load = Memory.reserve_load;
  store_conditional = Memory.store_conditional;
  invalidate_reservation = Memory.invalidate_reservation;
}
