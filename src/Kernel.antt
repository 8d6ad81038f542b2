-- ===== src/Kernel.antt =====
-- os/: parts of the kernel, in C, that runs on the simulator.
pub mod Pipe
pub mod Scheduler
pub mod Clint
pub mod Vmem
pub mod Trap
