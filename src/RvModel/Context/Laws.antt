-- ===== src/RvModel/Context/Laws.antt =====
-- rv32i/include/rv_model.hpp: what a context restores.
use xor_os.Base.{
  ℕ, zero, suc, ◌+◌, ◌≤◌, ◌<◌, ◌≡◌, refl, ap, ◌∙◌, arith, true, ltb, leb, ◌==◌, if◌then◌else◌, List,
  get_or,
}
use xor_os.Registers
use xor_os.Registers.{RegisterFile}
use xor_os.Registers.Laws.{IsWhole, get-set, set-IsWhole}
use xor_os.RvModel.State.{Cpu}
use xor_os.RvModel.Context.{save_from, save_full_context, restore_from, restore_full_context}

save_from-get_or :
    (r : RegisterFile) (i n j : ℕ) → j < n → get_or (save_from r i n) j 0 ≡ Registers.get r (i + j)
unfolding save_from
save_from-get_or r i zero j h = absurd (omega arith)
save_from-get_or r i (suc n) zero h = ap (Registers.get r) (omega arith)
save_from-get_or r i (suc n) (suc j) h =
    save_from-get_or r (i + 1) n j (omega arith) ∙ ap (Registers.get r) (omega arith)

get-zero : (r : RegisterFile) (j : ℕ) → (j == 0) ≡ true → Registers.get r j ≡ 0
unfolding Registers.get
get-zero r j h = rw h

-- The loop sets the registers from `i` to `i + n`.
restore_from-get :
    (r : RegisterFile) (saved : List ℕ) (i n j : ℕ)
    → IsWhole r
    → 1 ≤ i
    → i + n ≤ 32
    → Registers.get (restore_from r saved i n) j ≡ (
        if leb i j
        then if ltb j (i + n) then get_or saved j 0 else Registers.get r j
        else Registers.get r j)
unfolding restore_from
restore_from-get r saved i zero j w p h = ground arith
restore_from-get r saved i (suc n) j w p h =
    let rest =
      restore_from-get (Registers.set r i (get_or saved i 0)) saved (i + 1) n j
        (set-IsWhole r i _ w) (omega arith) (omega arith) in
    ground (arith, get-set r i j (get_or saved i 0) w (omega arith), get-zero r j)

-- Restoring a full context, on any CPU, gives every register and the pc the value that it had when
-- the context was saved.
pub restore_full_context-save_full_context :
    (c c' : Cpu) (i : ℕ)
    → IsWhole c'.regs
    → i < 32
    → let r = restore_full_context c' (save_full_context c) in
      (r.pc ≡ c.pc) × (Registers.get r.regs i ≡ Registers.get c.regs i)
unfolding restore_full_context save_full_context
restore_full_context-save_full_context c c' i w h = (
  refl,
  ground (
    arith,
    restore_from-get c'.regs (save_from c.regs 0 32) 1 31 i w (omega arith) (omega arith),
    save_from-get_or c.regs 0 32 i h,
    get-zero c.regs i,
    get-zero c'.regs i,
  ),
)
