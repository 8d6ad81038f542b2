-- ===== src/Lib.antt =====
-- XorOS: a RISC-V simulator in C++ (rv32i/) and the kernel that runs on it (os/). These modules model
-- the simulator: the words, the encodings, the units of the CPU, its memory, and the CPU itself; its
-- caches, devices and printed text; and the kernel, over the machine that the simulator is.
--
-- Base has the shared helpers: Boolean tests, lists and integers over the native numbers, the bit
-- operations of the language by their digits, and Base.Word, the words of `XlenTraits`
-- (rv32i/include/types.hpp) with wrap-around. An `SWord` is kept as its two's complement pattern and
-- read by `to_signed`. Base.Text is text as the list of its bytes, with the digits of numbers.
--
--   Isa         rv32i/include/isa.hpp: codes, field extractors, immediates (Isa.Opcodes the enumerations)
--   Decoder     rv32i/include/decoder.hpp: `Decoder::decode`
--   Builder     rv32i/include/instr_builder.hpp: the encoders
--   Alu         rv32i/include/alu.hpp: `ALU::execute`
--   Registers   rv32i/include/register_file.hpp: `RegisterFile`
--   Csr         rv32i/include/csr_file.hpp: `CsrFile` (Csr.Codes the addresses, bits and causes)
--   Memory      rv32i/include/memory_model.hpp: `MemoryModel`; Memory.Program also `InstrBuilder::loadProgram`
--   Outcome     how a C++ call ends: a value or an exception
--   RvModel     rv32i/include/rv_model.hpp: `RVModel`, and config.hpp
--     State       its fields, constructor, `init` and the setters
--     Monad       its template argument `MemT` as a record of operations, and the monad of its methods:
--                 they change the CPU and the memory and may throw; `catch` is a handler on the outcome
--     Trap        `fireTrap`, `executeMRET`, `triggerInterrupt`
--     Translate   `translateAddr`, the Sv32 page walk
--     Access      `executeLoad`, `executeStore`, `executeAMO`
--     Execute     the other instructions and `executeInstr`
--     Step        `step` and `run`
--     Effects     what a step does with each encoded instruction (Instr the instructions, their
--                 encodings and their meaning, with Semantics the results and traps of
--                 the ISA; Meaning the comparison; Confined the privilege)
--     Context     `Context` and `FullContext`
--     Plain       `MemT` filled by `MemoryModel`
--     Sim         a relational logic of two memories that run alike, applied to every method
--   Cache       rv32i/cache_src/include/cache_model.hpp: `CacheModel`, a second `MemT`
--     Lines       the list of lines; Merge, Words, Stores the words of the memory and their parts
--     Coherent    the invariant, and `fetchWord`; Reads, Writes, Machine the calls over cache and memory
--     Order       what is evicted; Bounds the number of lines
--   LfuCache    rv32i/cache_src/include/lfu_cache.hpp and src/lfu_cache.cpp: `LfuCache` and `RunLfu`
--     Buckets     the buckets as a map; Linked, Sound the invariant; Run, Reads, Least what follows
--   IdealCache  rv32i/cache_src/include/ideal_cache.hpp: `IdealCache` (NextUse the next use
--               of a key; Eviction what makes way)
--   Simulator   rv32i/src/main.cpp: `run_os`, its devices (Mmio) and its loop; `demo_arithmetic` (Demo)
--   Disasm      rv32i/include/disasm.hpp: `disassemble` (RoundTrip, Reading what its text says; Known what
--               has a mnemonic)
--   Dumper      rv32i/include/dumper.hpp: `Dumper` (Dumps its memory dump, and the `dump` of the registers,
--               the CSRs and the memory; Rows and Trace what can be read from them)
--   Kernel      os/: the kernel, by its C files
--     Pipe        include/pipe.h and src/pipe.c: the pipe (Fifo that it is a queue)
--     Scheduler   include/process.h and src/scheduler.c: the processes (Table, Sound, Reached their
--                 invariant; Turns that each gets its turn)
--     Clint       include/clint.h and src/clint.c: the timer (Time, Deadline over the devices of Simulator)
--     Vmem        src/vmem.c, src/kalloc.c: the page tables (Identity, Walk over the CPU's translation)
--     Trap        src/trap.c: the trap handler (Dispatch)
--
-- How the parts interact: `step` translates the pc, reads a word of the memory, decodes it and runs
-- `execute_instr`, whose branches use the ALU, the registers, the CSRs and the memory. Each C++ method
-- is a function of the same name; the body of a `switch` or of a `try` is a function beside it. An
-- `assert` is a condition on the caller and stands as a hypothesis where a theorem needs it. The kernel
-- meets the simulator in its loads and stores at the devices, and in the page tables that it writes.
--
-- Isa, Decoder and Alu are modelled for XLEN 32 and 64, the memory and the CPU for 32. The page walk
-- recurses on the level, from 1. `run` without a bound need not end, so it takes fuel and says whether
-- it came to its end; fuel for one turn more than the bound is enough. The loop of `run_os` has no
-- bound and takes fuel too. So does the loop of `clint_mtime`, for which two rounds are enough while
-- the time does not run too fast. Printed numbers have as many digits as their type can need.
--
-- Not modelled: debug mode, the hooks that only observe the CPU, the move constructor, the options and
-- the printed reports of rv32i/src/main.cpp, the printing of the caches, the files that the dumper
-- opens, and of the kernel its assembly, `kernel_main` but for its page tables, and the drivers that
-- only store a byte. The closures of an MMIO region are parameters that act on one device state, and
-- reading a device does not change it. The memory has at most 2 ^ 32 bytes.
pub mod Base
pub mod Isa
pub mod Decoder
pub mod Builder
pub mod Cache
pub mod LfuCache
pub mod IdealCache
pub mod Simulator
pub mod Kernel
pub mod Disasm
pub mod Dumper
pub mod Alu
pub mod Registers
pub mod Csr
pub mod Outcome
pub mod RvModel
pub mod Memory
mod Tests
