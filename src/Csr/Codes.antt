-- ===== src/Csr/Codes.antt =====
-- rv32i/include/csr_file.hpp: the CSR addresses, the bits of mstatus and the trap causes.
use Prim.Native.Nat.{ℕ, ◌*◌, ◌^◌, bit_or}

abbrev pub mvendorid : ℕ
mvendorid = 0xF11

abbrev pub marchid : ℕ
marchid = 0xF12

abbrev pub mimpid : ℕ
mimpid = 0xF13

abbrev pub mhartid : ℕ
mhartid = 0xF14

abbrev pub satp : ℕ
satp = 0x180

abbrev pub mstatus : ℕ
mstatus = 0x300

abbrev pub misa : ℕ
misa = 0x301

abbrev pub mie : ℕ
mie = 0x304

abbrev pub mtvec : ℕ
mtvec = 0x305

abbrev pub mscratch : ℕ
mscratch = 0x340

abbrev pub mepc : ℕ
mepc = 0x341

abbrev pub mcause : ℕ
mcause = 0x342

abbrev pub mtval : ℕ
mtval = 0x343

abbrev pub mip : ℕ
mip = 0x344

abbrev pub mcycle : ℕ
mcycle = 0xB00

abbrev pub minstret : ℕ
minstret = 0xB02

abbrev pub mstatus_mie : ℕ
mstatus_mie = 2 ^ 3

abbrev pub mstatus_mpie : ℕ
mstatus_mpie = 2 ^ 7

abbrev pub mstatus_mpp : ℕ
mstatus_mpp = 3 * 2 ^ 11

abbrev pub mtvec_mode_direct : ℕ
mtvec_mode_direct = 0b0

abbrev pub mtvec_mode_vectored : ℕ
mtvec_mode_vectored = 0b1

abbrev pub mcause_interrupt : ℕ
mcause_interrupt = 2 ^ 31

abbrev pub exc_insn_misalign : ℕ
exc_insn_misalign = 0b0000

abbrev pub exc_insn_fault : ℕ
exc_insn_fault = 0b0001

abbrev pub exc_illegal_insn : ℕ
exc_illegal_insn = 0b0010

abbrev pub exc_breakpoint : ℕ
exc_breakpoint = 0b0011

abbrev pub exc_load_misalign : ℕ
exc_load_misalign = 0b0100

abbrev pub exc_load_fault : ℕ
exc_load_fault = 0b0101

abbrev pub exc_store_misalign : ℕ
exc_store_misalign = 0b0110

abbrev pub exc_store_fault : ℕ
exc_store_fault = 0b0111

abbrev pub exc_ecall_u : ℕ
exc_ecall_u = 0b1000

abbrev pub exc_ecall_s : ℕ
exc_ecall_s = 0b1001

abbrev pub exc_ecall_m : ℕ
exc_ecall_m = 0b1011

abbrev pub exc_insn_page_fault : ℕ
exc_insn_page_fault = 0b1100

abbrev pub exc_load_page_fault : ℕ
exc_load_page_fault = 0b1101

abbrev pub exc_store_page_fault : ℕ
exc_store_page_fault = 0b1111

abbrev pub int_sw_m : ℕ
int_sw_m = bit_or mcause_interrupt 0b0011

abbrev pub int_timer_m : ℕ
int_timer_m = bit_or mcause_interrupt 0b0111

abbrev pub int_ext_m : ℕ
int_ext_m = bit_or mcause_interrupt 0b1011
