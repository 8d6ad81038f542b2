-- ===== src/Simulator.antt =====
-- rv32i/src/main.cpp: `run_os`, the machine that the kernel runs on: a memory of 64 KiB with a UART
-- and a timer, behind a cache, and the loop that steps the CPU. The image is the list of the bytes
-- of the file. Output goes to a list of bytes. The hooks and the reports at the end only print, and
-- `main` reads the options.
pub mod Mmio
pub mod Demo
use xor_os.Base.{
  ℕ, zero, suc, ◌+◌, ◌-◌, ◌*◌, ◌%◌, ◌^◌, bit_and, bit_or, Bool, true, false, ltb, leb, ◌==◌,
  if◌then◌else◌, List, [], ◌∷◌, ◌++◌, length,
}
use xor_os.Base.Word.{shr}
use xor_os.Outcome.{Outcome, ok, fail, undefined_behaviour}
use xor_os.Csr.Codes
use xor_os.Memory
use xor_os.Memory.{MemoryModel}
use xor_os.RvModel.State.{ext_a}
use xor_os.RvModel.State
use xor_os.RvModel.Monad.{RvModel, Exec, pure, gets, modify, on_memory, ◌>>=◌, ◌>>◌}
use xor_os.RvModel.Trap.{trigger_interrupt}
use xor_os.RvModel.Step.{step}
use xor_os.Cache
use xor_os.Cache.{CacheModel, cache_ops}

-- `mtime`, `mtimecmp` and what the UART sent.
pub record Devices : Type 0 where
  pub mtime : ℕ
  pub mtimecmp : ℕ
  pub output : List ℕ

abbrev pub mem_size : ℕ
mem_size = 0x10000

abbrev pub uart_base : ℕ
uart_base = 0xF000

abbrev pub mtime_base : ℕ
mtime_base = 0xF004

abbrev pub mtimecmp_base : ℕ
mtimecmp_base = 0xF00C

-- The handlers, in the order of the calls of `mapMmio`.
unfoldable pub uart_read : Devices → ℕ → ℕ
uart_read d addr = 0

unfoldable pub uart_write : Devices → ℕ → ℕ → Devices
uart_write d addr val = record d { output = d.output ++ (bit_and val 0xFF ∷ []) }

unfoldable pub mtime_read : Devices → ℕ → ℕ
mtime_read d addr = if addr == mtime_base then d.mtime % 2 ^ 32 else shr d.mtime 32 % 2 ^ 32

unfoldable pub mtime_write : Devices → ℕ → ℕ → Devices
mtime_write d addr val = d

unfoldable pub mtimecmp_read : Devices → ℕ → ℕ
mtimecmp_read d addr =
    if addr == mtimecmp_base then d.mtimecmp % 2 ^ 32 else shr d.mtimecmp 32 % 2 ^ 32

unfoldable pub mtimecmp_write : Devices → ℕ → ℕ → Devices
mtimecmp_write d addr val =
    if addr == mtimecmp_base
    then record d { mtimecmp = bit_or (bit_and d.mtimecmp 0xFFFFFFFF00000000) val }
    else record d { mtimecmp = bit_or (val * 2 ^ 32 % 2 ^ 64) (bit_and d.mtimecmp 0xFFFFFFFF) }

unfoldable pub map_devices : MemoryModel Devices → MemoryModel Devices
map_devices m =
    let uart = Memory.map_mmio m uart_base 4 uart_read uart_write in
    let mtime = Memory.map_mmio uart mtime_base 8 mtime_read mtime_write in
    Memory.map_mmio mtime mtimecmp_base 8 mtimecmp_read mtimecmp_write

-- The memory with the image, which `f.read` copies without a check of its size.
unfoldable pub board : List ℕ → Outcome (MemoryModel Devices)
board image =
    let devices : Devices = record { mtime = 0; mtimecmp = 2 ^ 64 - 1; output = [] } in
    if ltb mem_size (length image)
    then fail undefined_behaviour
    else ok (map_devices (Memory.copy_bytes (Memory.init mem_size devices) image 0))

unfoldable pub machine : MemoryModel Devices → RvModel (CacheModel Devices)
machine m = record {
  cpu = State.init (State.new (record { extensions = ext_a })) 0 (mem_size - 4);
  mem = Cache.init m 64;
}

-- `++mtime`
unfoldable pub tick : CacheModel Devices → CacheModel Devices
tick c =
    let d = c.backing.device in
    record c { backing = record c.backing { device = record d { mtime = (d.mtime + 1) % 2 ^ 64 } } }

unfoldable pub timer_due : CacheModel Devices → Bool
timer_due c = leb c.backing.device.mtimecmp c.backing.device.mtime

-- The body of the loop.
unfoldable pub turn : Exec (CacheModel Devices) (Unit {0})
turn =
    step cache_ops
    >> on_memory (λ c. (ok tt, tick c))
    >> on_memory (λ c. (ok (timer_due c), c))
    >>= λ due. if due then modify (λ c. (trigger_interrupt c Codes.int_timer_m).1) else pure tt

-- The loop: whether it came to its end on the fuel.
unfoldable pub run_loop : ℕ → Exec (CacheModel Devices) Bool
run_loop zero = pure false
run_loop (suc fuel) =
    gets (λ c. c.halted) >>= λ halted. if halted then pure true else (turn >> run_loop fuel)

-- `run_os` for an image, on fuel.
unfoldable pub run_from : ℕ → Outcome (MemoryModel Devices) → Outcome (Bool × List ℕ)
run_from fuel (fail e) = fail e
run_from fuel (ok m) =
    let r = run_loop fuel (machine m) in
    elim r.0 [ ok ended ↦ ok (ended, r.1.mem.backing.device.output) | fail e ↦ fail e ]

unfoldable pub run_os : ℕ → List ℕ → Outcome (Bool × List ℕ)
run_os fuel image = run_from fuel (board image)
