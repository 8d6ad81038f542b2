-- ===== src/Tests.antt =====
-- Concrete runs, and the theorems applied to concrete inputs.
mod Instructions
mod Machine
mod Caches
mod Lfu
mod Devices
mod Ideal
mod Demo
mod Kernel
mod Traps
mod Printing
mod Steps
