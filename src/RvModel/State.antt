-- ===== src/RvModel/State.antt =====
-- rv32i/include/rv_model.hpp and config.hpp: the state of a CPU, apart from its memory. The hooks
-- are observers that the caller sets, and are left out, like what is printed in debug mode.
use xor_os.Base.{ℕ, bit_and, Bool, false, true, not, ◌==◌, if◌then◌else◌}
use xor_os.Registers
use xor_os.Registers.{RegisterFile}
use xor_os.Csr
use xor_os.Csr.{CsrFile}

-- `Config`, by its bits. The bits that are not implemented are refused by an `assert`.
pub record Config : Type 0 where
  pub extensions : ℕ

abbrev pub ext_m : ℕ
ext_m = 0b00001

abbrev pub ext_a : ℕ
ext_a = 0b00010

unfoldable pub has_extension : Config → ℕ → Bool
has_extension c e = not (bit_and c.extensions e == 0)

-- `PrivMode` is an enumeration over `uint32_t`: a cast can give it a number that has no name.
abbrev pub PrivMode : Type 0
PrivMode = ℕ

abbrev pub mode_u : PrivMode
mode_u = 0

abbrev pub mode_s : PrivMode
mode_s = 1

abbrev pub mode_m : PrivMode
mode_m = 3

pub data MemAccess : Type 0 where
  fetch load store : MemAccess

pub record Cpu : Type 0 where
  pub pc : ℕ
  pub config : Config
  pub regs : RegisterFile
  pub csr : CsrFile
  pub halted : Bool
  pub instr_count : ℕ
  pub debug_mode : Bool
  pub priv_mode : PrivMode

-- The constructor.
unfoldable pub new : Config → Cpu
new cfg = record {
  pc = 0;
  config = cfg;
  regs = Registers.init;
  csr = Csr.init;
  halted = false;
  instr_count = 0;
  debug_mode = false;
  priv_mode = mode_m;
}

unfoldable pub init : Cpu → ℕ → ℕ → Cpu
init c start_pc stack_pointer = record c {
  pc = start_pc;
  regs =
      if not (stack_pointer == 0)
      then Registers.set Registers.init 2 stack_pointer
      else Registers.init;
  csr = Csr.init;
  halted = false;
  instr_count = 0;
  priv_mode = mode_m;
}

unfoldable pub reset : Cpu → Cpu
unfolding init
reset c = record (init c 0 0) { debug_mode = false }

unfoldable pub set_pc : Cpu → ℕ → Cpu
set_pc c addr = record c { pc = addr }

unfoldable pub halt : Cpu → Cpu
halt c = record c { halted = true }

unfoldable pub set_debug : Cpu → Bool → Cpu
set_debug c on = record c { debug_mode = on }
