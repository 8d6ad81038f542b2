-- ===== src/Kernel/Trap/Dispatch.antt =====
-- os/src/trap.c: which handler a trap runs.
use xor_os.Base.{
  ℕ, ◌+◌, ◌/◌, ◌%◌, ◌^◌, ◌<◌, ◌≡◌, arith, not, leb, ltb, ◌==◌, ◌&&◌, if◌then◌else◌, List, none,
  some, length, get_or-set,
}
use xor_os.Base.Bits.{bit_and_mask, bit_and_shift}
use xor_os.Kernel.Trap.{
  TrapTables, calls, is_interrupt, cause_code, is_ecall, find_handler, dispatch, trap_handler,
  trap_register_exc, trap_register_int,
}

is_interrupt_lem : (mcause : ℕ) → mcause < 2 ^ 32 → is_interrupt mcause ≡ leb (2 ^ 31) mcause
unfolding is_interrupt
is_interrupt_lem mcause h =
    ground (arith, bit_and_shift 31 mcause 1, bit_and_mask 1 (mcause / 2 ^ 31))

cause_code_lem : (mcause : ℕ) → cause_code mcause ≡ mcause % 2 ^ 31
unfolding cause_code
cause_code_lem mcause = bit_and_mask 31 mcause

module _ {H : Type 0} (t : TrapTables H) (c : ℕ) (fn : H) (mcause mepc mtval : ℕ)
    (frame : List ℕ) where
  register_exc :
      length t.exc_table ≡ 16
      → mcause < 2 ^ 32
      → trap_handler (trap_register_exc t c fn) mcause mepc mtval frame ≡ (
          if (mcause == c) && (ltb c 16 && not (is_ecall c))
          then calls fn
          else trap_handler t mcause mepc mtval frame)
  unfolding trap_handler trap_register_exc find_handler dispatch
  register_exc len h = ground (
    arith,
    is_interrupt_lem mcause h,
    cause_code_lem mcause,
    get_or-set t.exc_table c (mcause % 2 ^ 31) (some fn) none,
  )

  register_int :
      length t.int_table ≡ 16
      → mcause < 2 ^ 32
      → trap_handler (trap_register_int t c fn) mcause mepc mtval frame ≡ (
          if (mcause == 2 ^ 31 + c) && ltb c 16
          then calls fn
          else trap_handler t mcause mepc mtval frame)
  unfolding trap_handler trap_register_int find_handler dispatch
  register_int len h = ground (
    arith,
    is_interrupt_lem mcause h,
    cause_code_lem mcause,
    get_or-set t.int_table c (mcause % 2 ^ 31) (some fn) none,
  )

  -- A handler that is registered for a cause below 16 runs at the traps of that cause, an exception
  -- or an interrupt as it was registered, unless the cause is an ecall; at every other trap, and
  -- where the cause is not below 16, the kernel does what it did before.
  pub trap_handler-register :
      length t.exc_table ≡ 16
      → length t.int_table ≡ 16
      → mcause < 2 ^ 32
      → (trap_handler (trap_register_exc t c fn) mcause mepc mtval frame ≡ (
          if (mcause == c) && (ltb c 16 && not (is_ecall c))
          then calls fn
          else trap_handler t mcause mepc mtval frame))
        × (trap_handler (trap_register_int t c fn) mcause mepc mtval frame ≡ (
            if (mcause == 2 ^ 31 + c) && ltb c 16
            then calls fn
            else trap_handler t mcause mepc mtval frame))
  trap_handler-register exc int h = (register_exc exc h, register_int int h)
