-- ===== src/Registers.antt =====
-- rv32i/include/register_file.hpp: `RegisterFile`. `ABI_NAMES` and `dump` only print.
pub mod Laws
use xor_os.Base.{
  ℕ, ◌-◌, List, [], ◌∷◌, Bool, true, false, ◌==◌, if◌then◌else◌, get_or, set as set_elem, replicate,
}

abbrev pub num_regs : ℕ
num_regs = 32

pub record RegisterFile : Type 0 where
  pub regs : List ℕ

pub data RegRole : Type 0 where
  preserved non_preserved special : RegRole

-- `RegisterFile()`
unfoldable pub init : RegisterFile
init = record { regs = replicate num_regs 0 }

-- An index in range is the caller's: it is asserted.
unfoldable pub get : RegisterFile → ℕ → ℕ
get r idx = if idx == 0 then 0 else get_or r.regs idx 0

-- A write to x0 is no-op.
unfoldable pub set : RegisterFile → ℕ → ℕ → RegisterFile
set r idx val = if idx == 0 then r else record { regs = set_elem r.regs idx val }

abbrev pub reg_roles : List RegRole
reg_roles =
    special ∷ special ∷ special ∷ special ∷ special ∷ non_preserved ∷ non_preserved ∷ non_preserved
    ∷ preserved ∷ preserved ∷ non_preserved ∷ non_preserved ∷ non_preserved ∷ non_preserved
    ∷ non_preserved ∷ non_preserved ∷ non_preserved ∷ non_preserved ∷ preserved ∷ preserved
    ∷ preserved ∷ preserved ∷ preserved ∷ preserved ∷ preserved ∷ preserved ∷ preserved ∷ preserved
    ∷ non_preserved ∷ non_preserved ∷ non_preserved ∷ non_preserved ∷ []

unfoldable pub role : ℕ → RegRole
role idx = get_or reg_roles idx special

unfoldable pub is_preserved : ℕ → Bool
is_preserved idx = elim (role idx) [ preserved ↦ true | _ ↦ false ]
