-- ===== src/RvModel.antt =====
-- rv32i/include/rv_model.hpp: `RVModel<32, MemT>`, in the children: its state and the monad that
-- its methods run in, traps, address translation, the instructions, and `step`.
pub mod State
pub mod Monad
pub mod Trap
pub mod Translate
pub mod Access
pub mod Execute
pub mod Step
pub mod Context
pub mod Plain
pub mod Sim
pub mod Effects
