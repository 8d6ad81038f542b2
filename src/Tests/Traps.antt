-- ===== src/Tests/Traps.antt =====
-- os/: the theorems on the kernel's traps, timer and page tables at concrete inputs.
use xor_os.Base.{
  ℕ, ◌+◌, ◌-◌, ◌*◌, ◌/◌, ◌^◌, ◌≤◌, ◌<◌, ◌≡◌, refl, arith, leb, ltb, ◌==◌, ◌&&◌, not, if◌then◌else◌,
  [], ◌∷◌, take, get_or, some, true, false,
}
use xor_os.Base.Text.{codes, hex_fixed, hex_digit}
use xor_os.Kernel.Trap.{
  calls, blank, trap_handler, trap_register_exc, trap_register_int, is_ecall, panic_text,
  cause_name, exception_name, is_interrupt, puthex_trap,
}
use xor_os.Kernel.Trap.Dispatch.{trap_handler-register}
use xor_os.Simulator.{Devices}
use xor_os.Kernel.Clint.{clint_mtime, clint_mtimecmp_write}
use xor_os.Kernel.Clint.Time.{device_load, clint_mtime_lem}
use xor_os.Kernel.Clint.Deadline.{store_all, clint_mtimecmp_write_lem}
use xor_os.Simulator.Mmio.{wired, with_devices}
use xor_os.Outcome.{ok}
use xor_os.Csr
use xor_os.Csr.Codes
use xor_os.RvModel.State
use xor_os.RvModel.State.{Cpu, store, ext_a, mode_u}
use xor_os.RvModel.Monad.{RvModel}
use xor_os.RvModel.Plain.{memory_ops}
use xor_os.RvModel.Translate.{translate_addr}
use xor_os.Kernel.Vmem.{PageTables, blank_tables, identity_map, vmem_enable}
use xor_os.Kernel.Vmem.Walk.{Holds, faulted, translate_addr-identity_map}
use xor_os.Memory
use xor_os.Memory.{MemoryModel, MmioRegion}

-- The timer interrupt, cause 7, for a kernel that has registered a handler for it.
trap_handler-register_example :
    (trap_handler (trap_register_exc (blank {H = ℕ}) 7 40) 2147483655 0 0 [] ≡ (
      if (2147483655 == 7) && (ltb 7 16 && not (is_ecall 7))
      then calls 40
      else trap_handler blank 2147483655 0 0 []))
    × (trap_handler (trap_register_int (blank {H = ℕ}) 7 40) 2147483655 0 0 [] ≡ (
        if (2147483655 == 2 ^ 31 + 7) && ltb 7 16
        then calls 40
        else trap_handler blank 2147483655 0 0 []))
trap_handler-register_example =
    trap_handler-register blank 7 40 2147483655 0 0 [] refl refl (omega arith)

panic_print :
    panic_text 13 0x1234 0xBEEF ≡ codes "[trap] load page fault at 0x00001234 (0x0000beef)\n"
unfolding panic_text cause_name exception_name is_interrupt puthex_trap hex_fixed hex_digit
panic_print = refl

-- The lower half of the time wraps between the accesses 1 and 2.
abbrev wrapping : ℕ → Devices
wrapping k = record { mtime = 2 ^ 32 - 2 + k; mtimecmp = 0; output = [] }

clint_mtime_lem_example :
    (k m : ℕ) × (1 ≤ k)
    × (k < m)
    × (m ≤ 1 + 6)
    × (clint_mtime (device_load wrapping) 2 1 ≡ some ((wrapping k).mtime, m))
clint_mtime_lem_example = clint_mtime_lem wrapping 1 (λ k. omega arith) (omega arith) (omega arith)

abbrev armed : MemoryModel Devices
armed = Memory.init 64 (record { mtime = 5; mtimecmp = 2 ^ 33 + 7; output = [] })

clint_mtimecmp_write_lem_example :
    let stored = λ (n : ℕ). store_all (take n (clint_mtimecmp_write 1005)) (wired armed) in
    (armed.device.mtimecmp ≤ (stored 1).device.mtimecmp)
    × (1005 ≤ (stored 2).device.mtimecmp)
    × (stored 3 ≡ wired (with_devices armed (record armed.device { mtimecmp = 1005 })))
clint_mtimecmp_write_lem_example =
    clint_mtimecmp_write_lem armed 1005 (unfold Memory.init in omega arith) (omega arith)

-- The tables of the kernel at 0x1000 and 0x2000, in a memory that shows them as words of a device.
abbrev tables : PageTables
tables = identity_map 0x2000 blank_tables 16

abbrev shown : MmioRegion PageTables
shown = record {
  base = 0x1000;
  end = 0x3000;
  on_read = λ d a. if a == 0x1000 then d.root_pt else get_or d.l0_pt ((a - 0x2000) / 4) 0;
  on_write = λ d a v. d;
}

abbrev paged : MemoryModel PageTables
paged = record { bytes = []; mmio = shown ∷ []; device = tables; lr_addr = 0; lr_valid = false }

paged-l0 :
    (i : ℕ) → i < 1024 → Memory.read_word paged (0x2000 + 4 * i) ≡ ok (get_or tables.l0_pt i 0)
unfolding Memory.read_word
paged-l0 i h =
    let inside : (leb 0x1000 (0x2000 + 4 * i) && ltb (0x2000 + 4 * i) 0x3000) ≡ true =
      ground arith in
    let other : ((0x2000 + 4 * i) == 0x1000) ≡ false = ground arith in
    let index : ((0x2000 + 4 * i) - 0x2000) / 4 ≡ i = omega arith in
    let found : Memory.find_mmio paged.mmio (0x2000 + 4 * i) ≡ some shown =
      unfold Memory.find_mmio in rw inside refl in
    rw (found, Memory.read_word, other, index) refl

paged-Holds : Holds paged 0x1000 0x2000 tables
unfolding Memory.read_word Memory.find_mmio
paged-Holds = record { root_word = refl; l0_word = paged-l0 }

-- A store at 0xF00C in the machine's mode.
abbrev paging : RvModel (MemoryModel PageTables)
paging =
    let c = State.init (State.new (record { extensions = ext_a })) 0 0xFFFC in
    record { cpu = record c { csr = Csr.put c.csr Codes.satp (vmem_enable 0x1000) }; mem = paged }

translate_addr-identity_map_example : translate_addr memory_ops 0xF00C store paging ≡ (
    if ltb 0xF00C 0x10000 && not (paging.cpu.priv_mode == mode_u)
    then (ok (some 0xF00C), paging)
    else faulted 0xF00C store paging)
unfolding Csr.read Csr.put State.init State.new
translate_addr-identity_map_example =
    translate_addr-identity_map 0xF00C store paging 0x1000 0x2000 (omega arith) refl (omega arith)
      refl (omega arith) refl paged-Holds
