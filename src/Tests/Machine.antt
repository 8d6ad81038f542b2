-- ===== src/Tests/Machine.antt =====
-- rv32i/include: the theorems on the memory and the CPU at concrete inputs.
use xor_os.RvModel.Effects.Semantics.{take_trap}
use xor_os.Base.{
  not, ◌==◌, ◌&&◌, ℕ, ◌+◌, ◌*◌, ◌%◌, ◌^◌, ◌<◌, ◌≡◌, ◌≢◌, refl, arith, true, false, if◌then◌else◌,
  List, [], ◌∷◌, none, leb, length, get_or,
}
use xor_os.Base.Digits.{digit}
use xor_os.Base.Word.{complement}
use xor_os.Outcome.{Outcome, ok, fail, out_of_range}
use xor_os.Registers
use xor_os.Registers.Laws.{IsWhole, init-IsWhole}
use xor_os.Csr
use xor_os.Csr.Codes
use xor_os.Memory
use xor_os.Memory.{
  MemoryModel, find_mmio, byte_at, read_byte, read_half, read_word, write_byte, write_half,
  write_word, reserve_load, store_conditional, invalidate_reservation,
}
use xor_os.Memory.Bytes.{word_of, overwritten}
use xor_os.Memory.Access.{reads_lem, writes_lem, read_word-write_word}
use xor_os.Memory.Reservation.{reservation_once}
use xor_os.Memory.Program.{load_words, load_words-read_word}
use xor_os.RvModel.State.{Cpu, new}
use xor_os.RvModel.Monad.{RvModel}
use xor_os.RvModel.Trap.{fire_trap, mret, trigger_interrupt}
use xor_os.RvModel.Trap.Laws.{mret-fire_trap, trigger_interrupt_lem}
use xor_os.RvModel.Context.{save_full_context, restore_full_context}
use xor_os.RvModel.Context.Laws.{restore_full_context-save_full_context}
use xor_os.RvModel.Step.{run}
use xor_os.RvModel.Step.Count.{steps, ended, run-steps}
use xor_os.RvModel.Plain.{memory_ops}
use xor_os.RvModel.Plain.Laws.{IsPlain, init-IsPlain}

abbrev ram : MemoryModel (Unit {0})
ram = Memory.init 64 tt

ram-IsPlain : IsPlain ram
ram-IsPlain = init-IsPlain 64 tt

-- The bytes of a new memory are not mapped.
ram-unmapped : (a : ℕ) → find_mmio ram.mmio a ≡ none
unfolding Memory.init find_mmio
ram-unmapped a = refl

ram-size : length ram.bytes ≡ 64
unfolding Memory.init
ram-size = refl

reads_lem_example :
    (read_byte ram 8
      ≡ (if leb (8 + 1) (length ram.bytes) then ok (byte_at ram 8) else fail out_of_range))
    × (read_half ram 8 ≡ (
        if leb (8 + 2) (length ram.bytes)
        then ok (byte_at ram 8 + byte_at ram 9 * 2 ^ 8)
        else fail out_of_range))
    × (read_word ram 8 ≡ (
        if leb (8 + 4) (length ram.bytes)
        then ok (word_of (byte_at ram 8) (byte_at ram 9) (byte_at ram 10) (byte_at ram 11))
        else fail out_of_range))
reads_lem_example = reads_lem ram 8 (ram-unmapped 8) ram-IsPlain.bytes

writes_lem_example :
    let fits = λ (w : ℕ). leb (8 + w) (length ram.bytes) in
    let result : ℕ → Outcome (Unit {0}) = λ w. if fits w then ok tt else fail out_of_range in
    let stored = λ (w : ℕ). if fits w then overwritten ram 8 w 0x1234 9 else byte_at ram 9 in
    ((write_byte ram 8 (0x1234 % 256)).0 ≡ result 1)
    × (byte_at (write_byte ram 8 (0x1234 % 256)).1 9 ≡ stored 1)
    × ((write_half ram 8 0x1234).0 ≡ result 2)
    × (byte_at (write_half ram 8 0x1234).1 9 ≡ stored 2)
    × ((write_word ram 8 0x1234).0 ≡ result 4)
    × (byte_at (write_word ram 8 0x1234).1 9 ≡ stored 4)
writes_lem_example = writes_lem ram 8 0x1234 9 (ram-unmapped 8)

read_word-write_word_example : read_word (write_word ram 8 0x12345678).1 8 ≡ ok 0x12345678
read_word-write_word_example =
    read_word-write_word ram 8 0x12345678 (ram-unmapped 8) ram-IsPlain.bytes
      (omega (arith, ram-size)) (omega arith)

reservation_once_example :
    let m' = (store_conditional (reserve_load ram 8) 8 5).1 in
    (store_conditional m' 8 6 ≡ (ok false, m'))
    × (store_conditional (invalidate_reservation ram) 8 6 ≡ (ok false, invalidate_reservation ram))
reservation_once_example = reservation_once ram 8 5 8 6

abbrev program : List ℕ
program = 0x00500093 ∷ 0x00108133 ∷ []

load_words-read_word_example :
    ((load_words ram program 16).0 ≡ ok tt)
    × (read_word (load_words ram program 16).1 (16 + 4 * 1) ≡ ok (get_or program 1 0))
load_words-read_word_example =
    load_words-read_word ram program 16 1 (ram-unmapped 20) ram-IsPlain.bytes
      (omega (arith, ram-size)) (omega arith) (omega arith)

-- A CPU of a kernel: with a handler, interrupts on, and the timer enabled.
abbrev kernel : Cpu
kernel = record (new (record { extensions = 3 })) {
  pc = 0x40;
  csr = Csr.write (Csr.write (Csr.write Csr.init Codes.mtvec 0x100) Codes.mstatus 8) Codes.mie 0x80;
}

kernel-mtvec : Csr.get_mtvec kernel.csr ≢ 0
unfolding Csr.get_mtvec Csr.write Csr.put Csr.is_read_only Csr.init new
kernel-mtvec e = omega arith

kernel-mode : kernel.priv_mode < 4
unfolding new
kernel-mode = omega arith

mret-fire_trap_example :
    let c' = mret (fire_trap Codes.exc_ecall_m 0 kernel) in
    (c'.pc ≡ kernel.pc)
    × (c'.priv_mode ≡ kernel.priv_mode)
    × (digit (Csr.read c'.csr Codes.mstatus) 3 ≡ digit (Csr.read kernel.csr Codes.mstatus) 3)
    × (c'.regs ≡ kernel.regs)
    × (c'.halted ≡ kernel.halted)
mret-fire_trap_example = mret-fire_trap kernel Codes.exc_ecall_m 0 kernel-mtvec kernel-mode

abbrev timer_cause : ℕ
timer_cause = Codes.mcause_interrupt + Codes.int_timer_m

trigger_interrupt_lem_example : trigger_interrupt kernel timer_cause ≡ (
    if not kernel.halted
      && ((digit (Csr.read kernel.csr 0x300) 3 == 1)
          && (digit (Csr.read kernel.csr 0x304) (timer_cause % 2 ^ 31) == 1))
    then (true, take_trap timer_cause 0 kernel)
    else (false, kernel))
trigger_interrupt_lem_example = trigger_interrupt_lem kernel timer_cause (omega arith)

-- The interrupt of the timer is taken.
timer_taken : (trigger_interrupt kernel timer_cause).0 ≡ true
unfolding trigger_interrupt Csr.read Csr.write Csr.put Csr.is_read_only Csr.init new complement
timer_taken = refl

restore_full_context-save_full_context_example :
    let r = restore_full_context kernel (save_full_context kernel) in
    (r.pc ≡ kernel.pc) × (Registers.get r.regs 7 ≡ Registers.get kernel.regs 7)
restore_full_context-save_full_context_example =
    restore_full_context-save_full_context kernel kernel 7 kernel-IsWhole (omega arith)
  where
    kernel-IsWhole : IsWhole kernel.regs
    kernel-IsWhole = unfold new in init-IsWhole

-- `addi x1, x0, 5` at 0.
abbrev machine : RvModel (MemoryModel (Unit {0}))
machine = record { cpu = new (record { extensions = 3 }); mem = (write_word ram 0 0x00500093).1 }

run-steps_example : run memory_ops 11 10 machine ≡ ended memory_ops (steps memory_ops 10 machine)
run-steps_example = run-steps memory_ops 11 10 machine (omega arith) (omega arith)

-- Translation is on, with the root of the page table at 0.
abbrev paging : RvModel (MemoryModel (Unit {0}))
paging = record {
  cpu = record kernel { csr = Csr.write kernel.csr Codes.satp (2 ^ 31) };
  mem = ram;
}
