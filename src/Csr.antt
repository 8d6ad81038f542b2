-- ===== src/Csr.antt =====
-- rv32i/include/csr_file.hpp: `CsrFile`. `regs_` is a function of the address, which is asserted to
-- be below `NUM_CSRS`. `dump` only prints.
pub mod Codes
pub mod Laws
use xor_os.Base.{ℕ, ◌*◌, ◌/◌, ◌^◌, bit_and, bit_or, Bool, true, false, not, ◌==◌, if◌then◌else◌}
use xor_os.Base.Word.{Xlen, complement}
use Codes

pub record CsrFile : Type 0 where
  pub regs : ℕ → ℕ

-- `CsrFile()`
unfoldable pub init : CsrFile
init = record { regs = λ _. 0 }

-- `regs_[addr] = val`
unfoldable pub put : CsrFile → ℕ → ℕ → CsrFile
put f addr val = record { regs = λ a. if addr == a then val else f.regs a }

unfoldable pub is_read_only : ℕ → Bool
is_read_only addr = addr / 2 ^ 10 == 0b11

unfoldable pub read : CsrFile → ℕ → ℕ
read f addr = if addr == Codes.mhartid then 0 else f.regs addr

unfoldable pub write : CsrFile → ℕ → ℕ → CsrFile
write f addr val = if is_read_only addr then f else put f addr val

-- The new file, and the value for rd.
unfoldable pub csrrw : CsrFile → ℕ → ℕ → CsrFile × ℕ
csrrw f addr rs1val = (write f addr rs1val, read f addr)

unfoldable pub csrrs : CsrFile → ℕ → ℕ → Bool → CsrFile × ℕ
csrrs f addr rs1val rs1_is_zero =
    let old = read f addr in (if not rs1_is_zero then write f addr (bit_or old rs1val) else f, old)

unfoldable pub csrrc : Xlen → CsrFile → ℕ → ℕ → Bool → CsrFile × ℕ
csrrc x f addr rs1val rs1_is_zero =
    let old = read f addr in
    (if not rs1_is_zero then write f addr (bit_and old (complement x rs1val)) else f, old)

unfoldable pub csrrwi : CsrFile → ℕ → ℕ → CsrFile × ℕ
csrrwi f addr zimm = (write f addr zimm, read f addr)

unfoldable pub csrrsi : CsrFile → ℕ → ℕ → CsrFile × ℕ
csrrsi f addr zimm =
    let old = read f addr in (if not (zimm == 0) then write f addr (bit_or old zimm) else f, old)

unfoldable pub csrrci : Xlen → CsrFile → ℕ → ℕ → CsrFile × ℕ
csrrci x f addr zimm =
    let old = read f addr in
    (if not (zimm == 0) then write f addr (bit_and old (complement x zimm)) else f, old)

unfoldable pub get_mie : CsrFile → Bool
get_mie f = not (bit_and (f.regs Codes.mstatus) Codes.mstatus_mie == 0)

unfoldable pub get_mtvec : CsrFile → ℕ
get_mtvec f = f.regs Codes.mtvec

unfoldable pub get_mepc : CsrFile → ℕ
get_mepc f = f.regs Codes.mepc

unfoldable pub get_mcause : CsrFile → ℕ
get_mcause f = f.regs Codes.mcause

unfoldable pub get_mtval : CsrFile → ℕ
get_mtval f = f.regs Codes.mtval

unfoldable pub get_mscratch : CsrFile → ℕ
get_mscratch f = f.regs Codes.mscratch

unfoldable pub set_mie : Xlen → CsrFile → Bool → CsrFile
set_mie x f enable =
    let old = f.regs Codes.mstatus in
    if enable
    then put f Codes.mstatus (bit_or old Codes.mstatus_mie)
    else put f Codes.mstatus (bit_and old (complement x Codes.mstatus_mie))

unfoldable pub set_mepc : CsrFile → ℕ → CsrFile
set_mepc f val = put f Codes.mepc val

unfoldable pub set_mcause : CsrFile → ℕ → CsrFile
set_mcause f val = put f Codes.mcause val

unfoldable pub set_mtval : CsrFile → ℕ → CsrFile
set_mtval f val = put f Codes.mtval val
