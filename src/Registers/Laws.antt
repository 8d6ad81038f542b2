-- ===== src/Registers/Laws.antt =====
-- rv32i/include/register_file.hpp: what a register holds after a write.
use xor_os.Base.{
  ℕ, ◌<◌, ◌≡◌, refl, arith, ◌==◌, if◌then◌else◌, length, length-set, get_or-set_self, get_or-set_ne,
}
use xor_os.Registers.{RegisterFile, num_regs, init, get, set}

-- The array has its 32 entries.
pub record IsWhole (r : RegisterFile) : Type 0 where
  pub size : length r.regs ≡ num_regs

pub init-IsWhole : IsWhole init
unfolding init
init-IsWhole = record { size = refl }

pub set-IsWhole : (r : RegisterFile) (i v : ℕ) → IsWhole r → IsWhole (set r i v)
unfolding set
set-IsWhole r i v w = ground (arith, length-set r.regs i v)

-- A read after a write gives the value written, and any other register is as before; x0 reads 0
-- whatever is written.
pub get-set :
    (r : RegisterFile) (i j v : ℕ)
    → IsWhole r
    → i < num_regs
    → get (set r i v) j ≡ (if j == 0 then 0 else if i == j then v else get r j)
unfolding get set
get-set r i j v w h = ground (arith, get_or-set_self r.regs i v 0, get_or-set_ne r.regs i j v 0)
