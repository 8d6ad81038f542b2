-- ===== src/Dumper.antt =====
-- rv32i/include/dumper.hpp, and `toHex` of include/types.hpp: what the simulator prints of a run,
-- as text, for XLEN 32. An open trace file is the text written to it; none is a file that is not
-- open. The last `std::hex` or `std::dec` of a stream holds until the next, and so does the fill
-- character; a width holds for one item.
pub mod Dumps
pub mod Rows
pub mod Trace
use mathlib.Core.Option
use xor_os.Base.{
  ℕ, zero, suc, ◌+◌, ◌-◌, ◌*◌, ◌/◌, ◌%◌, ◌^◌, bit_and, Bool, ltb, leb, ◌&&◌, ◌==◌, not,
  if◌then◌else◌, List, [], ◌∷◌, ◌++◌, Option, none, some, length, get_or, replicate,
}
use xor_os.Base.Word.{rv32, to_signed}
use xor_os.Base.Text.{Text, codes, hex_fixed, digits_of, to_string}
use xor_os.Outcome.{Outcome, ok, fail}
use xor_os.Csr
use xor_os.Csr.{CsrFile}
use xor_os.Csr.Codes
use xor_os.Registers
use xor_os.Registers.{RegisterFile}
use xor_os.Memory
use xor_os.Memory.{MemoryModel}
use xor_os.Disasm.{switch_on}

unfoldable pub to_hex : ℕ → Text
to_hex v = codes "0x" ++ digits_of 16 16 v

-- `std::setw` with a fill character.
unfoldable pub padded : ℕ → ℕ → Text → Text
padded w fill t = replicate (w - length t) fill ++ t

-- A loop of `n` rounds from `i` on, by `step`, that prints.
unfoldable pub rounds : ℕ → ℕ → ℕ → (ℕ → Text) → Text
rounds zero i step body = []
rounds (suc n) i step body = body i ++ rounds n (i + step) step body

unfoldable pub exception_names : List (ℕ × Text)
exception_names =
    (Codes.exc_insn_misalign, codes "EXC_INSN_MISALIGN")
    ∷ (Codes.exc_insn_fault, codes "EXC_INSN_FAULT")
    ∷ (Codes.exc_illegal_insn, codes "EXC_ILLEGAL_INSN")
    ∷ (Codes.exc_breakpoint, codes "EXC_BREAKPOINT")
    ∷ (Codes.exc_load_misalign, codes "EXC_LOAD_MISALIGN")
    ∷ (Codes.exc_load_fault, codes "EXC_LOAD_FAULT")
    ∷ (Codes.exc_store_misalign, codes "EXC_STORE_MISALIGN")
    ∷ (Codes.exc_store_fault, codes "EXC_STORE_FAULT")
    ∷ (Codes.exc_ecall_u, codes "EXC_ECALL_U")
    ∷ (Codes.exc_ecall_s, codes "EXC_ECALL_S")
    ∷ (Codes.exc_ecall_m, codes "EXC_ECALL_M")
    ∷ (Codes.exc_insn_page_fault, codes "EXC_INSN_PAGE_FAULT")
    ∷ (Codes.exc_load_page_fault, codes "EXC_LOAD_PAGE_FAULT")
    ∷ (Codes.exc_store_page_fault, codes "EXC_STORE_PAGE_FAULT")
    ∷ []

unfoldable pub interrupt_names : List (ℕ × Text)
interrupt_names = (3, codes "INT_SW_M") ∷ (7, codes "INT_TIMER_M") ∷ (11, codes "INT_EXT_M") ∷ []

unfoldable pub cause_name : ℕ → Text
cause_name cause =
    let code = bit_and cause (2 ^ 32 - 1 - Codes.mcause_interrupt) in
    if not (bit_and cause Codes.mcause_interrupt == 0)
    then Option.get_or (switch_on code interrupt_names) (codes "INT_?")
    else Option.get_or (switch_on code exception_names) (codes "EXC_?")

-- The line of `onStep`.
unfoldable pub step_line : ℕ → Text → Text
step_line pc disasm = b'[' ∷ (hex_fixed 8 pc ++ (codes "] " ++ (disasm ++ codes "\n")))

unfoldable pub on_step : Option Text → ℕ → Text → Option Text
on_step trace pc disasm = Option.map (λ t. t ++ step_line pc disasm) trace

-- The line of `onTrap` and of `onTrapEtl`.
unfoldable pub trap_line : ℕ → ℕ → ℕ → ℕ → Text
trap_line cause mepc mtval mtime =
    codes "!TRAP  cause=0x"
    ++ (hex_fixed 8 cause
        ++ (codes " ("
            ++ (cause_name cause
                ++ (codes ")  mepc=0x"
                    ++ (hex_fixed 8 mepc
                        ++ (codes "  mtval=0x"
                            ++ (hex_fixed 8 mtval
                                ++ (codes "  mtime="
                                    ++ (digits_of 10 20 mtime ++ codes "\n")))))))))

unfoldable pub on_trap : Text → ℕ → ℕ → ℕ → ℕ → Text
on_trap out cause mepc mtval mtime = out ++ trap_line cause mepc mtval mtime

unfoldable pub on_trap_etl : Option Text → ℕ → ℕ → ℕ → ℕ → Option Text
on_trap_etl trace cause mepc mtval mtime =
    Option.map (λ t. t ++ trap_line cause mepc mtval mtime) trace

unfoldable pub abi_names : List Text
abi_names =
    codes "zero"
    ∷ codes "ra"
    ∷ codes "sp"
    ∷ codes "gp"
    ∷ codes "tp"
    ∷ codes "t0"
    ∷ codes "t1"
    ∷ codes "t2"
    ∷ codes "s0"
    ∷ codes "s1"
    ∷ codes "a0"
    ∷ codes "a1"
    ∷ codes "a2"
    ∷ codes "a3"
    ∷ codes "a4"
    ∷ codes "a5"
    ∷ codes "a6"
    ∷ codes "a7"
    ∷ codes "s2"
    ∷ codes "s3"
    ∷ codes "s4"
    ∷ codes "s5"
    ∷ codes "s6"
    ∷ codes "s7"
    ∷ codes "s8"
    ∷ codes "s9"
    ∷ codes "s10"
    ∷ codes "s11"
    ∷ codes "t3"
    ∷ codes "t4"
    ∷ codes "t5"
    ∷ codes "t6"
    ∷ []

-- `x01(  ra)` of a register, with what stands before the name.
unfoldable pub reg_label : Text → ℕ → Text
reg_label before idx =
    b'x'
    ∷ (padded 2 b'0' (digits_of 10 2 idx)
        ++ (before ++ (padded 4 b' ' (get_or abi_names idx []) ++ codes ")")))

unfoldable pub reg_item : RegisterFile → ℕ → Text
reg_item regs idx =
    reg_label (codes "(") idx
    ++ (codes "=0x" ++ (hex_fixed 8 (Registers.get regs idx) ++ codes "  "))

unfoldable pub csr_entries : List (Text × ℕ)
csr_entries =
    (codes "mstatus ", Codes.mstatus)
    ∷ (codes "mie     ", Codes.mie)
    ∷ (codes "mtvec   ", Codes.mtvec)
    ∷ (codes "mscratch", Codes.mscratch)
    ∷ (codes "mepc    ", Codes.mepc)
    ∷ (codes "mcause  ", Codes.mcause)
    ∷ (codes "mtval   ", Codes.mtval)
    ∷ (codes "mip     ", Codes.mip)
    ∷ []

unfoldable pub csr_lines : CsrFile → List (Text × ℕ) → Text
csr_lines csr [] = []
csr_lines csr ((name, addr) ∷ entries) =
    let val = Csr.read csr addr in
    let note = if addr == Codes.mcause then codes "  (" ++ (cause_name val ++ codes ")") else [] in
    (name ++ (codes " = 0x" ++ (hex_fixed 8 val ++ (note ++ codes "\n")))) ++ csr_lines csr entries

unfoldable pub dump_state : Text → RegisterFile → CsrFile → ℕ → Text
dump_state out regs csr pc =
    out
    ++ (codes "\n=== CPU STATE ===\nPC = 0x"
        ++ (hex_fixed 8 pc
            ++ (codes "\n"
                ++ (rounds 8 0 4 (λ i. rounds 4 i 1 (reg_item regs) ++ codes "\n")
                    ++ (codes "\n--- CSRs ---\n"
                        ++ csr_lines csr (csr_entries ++ ((codes "satp    ", Codes.satp) ∷ [])))))))

unfoldable pub dump_clint : Text → ℕ → ℕ → Text
dump_clint out mtime mtimecmp =
    out
    ++ (codes "\n--- CLINT ---\nmtime    = "
        ++ (digits_of 10 20 mtime
            ++ (codes "\nmtimecmp = " ++ (digits_of 10 20 mtimecmp ++ codes "\n"))))
