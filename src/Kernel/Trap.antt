-- ===== src/Kernel/Trap.antt =====
-- os/include/trap.h, os/include/csr.h and os/src/trap.c: the kernel's trap handler. A handler that
-- is registered is a value of the parameter `H`. What is printed is text; `do_halt` executes an
-- illegal instruction.
pub mod Dispatch
use xor_os.Base.{
  ℕ, ◌+◌, ◌-◌, ◌%◌, ◌^◌, bit_and, Bool, true, false, not, ltb, ◌&&◌, ◌||◌, ◌==◌, if◌then◌else◌,
  List, [], ◌∷◌, ◌++◌, Option, none, some, get_or, replicate,
}
use xor_os.Base.{set as set_elem}
use xor_os.Base.Text.{Text, codes, hex_fixed}
use xor_os.Csr.Codes

abbrev pub max_causes : ℕ
max_causes = 16

abbrev pub mcause_int : ℕ
mcause_int = 2 ^ 31

abbrev pub trap_frame_a0 : ℕ
trap_frame_a0 = 9

abbrev pub trap_frame_a7 : ℕ
trap_frame_a7 = 16

-- `mcause & MCAUSE_INT` and `mcause & ~MCAUSE_INT`.
unfoldable pub is_interrupt : ℕ → Bool
is_interrupt mcause = not (bit_and mcause mcause_int == 0)

unfoldable pub cause_code : ℕ → ℕ
cause_code mcause = bit_and mcause (2 ^ 32 - 1 - mcause_int)

unfoldable pub interrupt_name : ℕ → Text
interrupt_name code =
    if code == 3
    then codes "M-mode software interrupt"
    else if code == 7
    then codes "M-mode timer interrupt"
    else if code == 11
    then codes "M-mode external interrupt"
    else codes "unknown interrupt"

unfoldable pub exception_name : ℕ → Text
exception_name mcause =
    if mcause == Codes.exc_insn_misalign
    then codes "instruction address misaligned"
    else if mcause == Codes.exc_insn_fault
    then codes "instruction access fault"
    else if mcause == Codes.exc_illegal_insn
    then codes "illegal instruction"
    else if mcause == Codes.exc_breakpoint
    then codes "breakpoint"
    else if mcause == Codes.exc_load_misalign
    then codes "load address misaligned"
    else if mcause == Codes.exc_load_fault
    then codes "load access fault"
    else if mcause == Codes.exc_store_misalign
    then codes "store address misaligned"
    else if mcause == Codes.exc_store_fault
    then codes "store access fault"
    else if mcause == Codes.exc_ecall_u
    then codes "ecall from U-mode"
    else if mcause == Codes.exc_ecall_s
    then codes "ecall from S-mode"
    else if mcause == Codes.exc_ecall_m
    then codes "ecall from M-mode"
    else if mcause == Codes.exc_insn_page_fault
    then codes "instruction page fault"
    else if mcause == Codes.exc_load_page_fault
    then codes "load page fault"
    else if mcause == Codes.exc_store_page_fault
    then codes "store page fault"
    else codes "unknown exception"

unfoldable pub cause_name : ℕ → Text
cause_name mcause =
    if is_interrupt mcause then interrupt_name (cause_code mcause) else exception_name mcause

-- The loop prints the eight digits from the highest on.
unfoldable pub puthex_trap : ℕ → Text
puthex_trap v = codes "0x" ++ hex_fixed 8 v

-- What `panic_handler` prints before it halts.
unfoldable pub panic_text : ℕ → ℕ → ℕ → Text
panic_text mcause mepc mtval =
    codes "[trap] "
    ++ (cause_name mcause
        ++ (codes " at "
            ++ (puthex_trap mepc
                ++ ((if mtval == 0 then [] else codes " (" ++ (puthex_trap mtval ++ codes ")"))
                    ++ codes "\n"))))

-- What a trap comes to: it returns after text was printed, it halts after that, or it runs a
-- handler.
pub data Handling (H : Type 0) : Type 0 where
  returns : Text → Handling H
  halts : Text → Handling H
  calls : H → Handling H

-- `exc_table` and `int_table`.
pub record TrapTables (H : Type 0) : Type 0 where
  pub exc_table : List (Option H)
  pub int_table : List (Option H)

unfoldable pub is_ecall : ℕ → Bool
is_ecall code =
    (code == Codes.exc_ecall_u) || ((code == Codes.exc_ecall_s) || (code == Codes.exc_ecall_m))

module _ {H : Type 0} where
  abbrev pub blank : TrapTables H
  blank = record { exc_table = replicate 16 none; int_table = replicate 16 none }

  unfoldable pub trap_register_exc : TrapTables H → ℕ → H → TrapTables H
  trap_register_exc t cause fn =
      if ltb cause max_causes
      then record t { exc_table = set_elem t.exc_table cause (some fn) }
      else t

  unfoldable pub trap_register_int : TrapTables H → ℕ → H → TrapTables H
  trap_register_int t cause fn =
      if ltb cause max_causes
      then record t { int_table = set_elem t.int_table cause (some fn) }
      else t

  unfoldable pub ecall_handler : List ℕ → Handling H
  ecall_handler frame =
      let a7 = get_or frame trap_frame_a7 0 in
      if a7 == 1
      then returns (get_or frame trap_frame_a0 0 % 2 ^ 8 ∷ [])
      else if a7 == 10
      then halts []
      else returns []

  unfoldable pub dispatch : Option H → ℕ → ℕ → ℕ → Handling H
  dispatch none mcause mepc mtval = halts (panic_text mcause mepc mtval)
  dispatch (some fn) mcause mepc mtval = calls fn

  unfoldable pub find_handler : TrapTables H → ℕ → Option H
  find_handler t mcause =
      let code = cause_code mcause in
      if ltb code max_causes
      then (if is_interrupt mcause
          then get_or t.int_table code none
          else get_or t.exc_table code none)
      else none

  unfoldable pub trap_handler : TrapTables H → ℕ → ℕ → ℕ → List ℕ → Handling H
  trap_handler t mcause mepc mtval frame =
      if not (is_interrupt mcause) && is_ecall (cause_code mcause)
      then ecall_handler frame
      else dispatch (find_handler t mcause) mcause mepc mtval
