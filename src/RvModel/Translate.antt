-- ===== src/RvModel/Translate.antt =====
-- rv32i/include/rv_model.hpp: `pageFaultCause` and `translateAddr`, the Sv32 page walk.
pub mod Laws
use xor_os.Base.{
  ℕ, zero, suc, ◌^◌, bit_and, bit_or, Bool, true, not, ◌&&◌, ◌==◌, if◌then◌else◌, Option, none,
  some,
}
use xor_os.Base.Word.{rv32, shl, shr}
use xor_os.Csr
use xor_os.Csr.Codes
use xor_os.RvModel.State.{MemAccess, fetch, load, store, mode_u}
use xor_os.RvModel.Monad.{MemT, Exec, modify, gets, pure, on_memory, catch_all, ◌>>=◌, ◌>>◌}
use xor_os.RvModel.Trap.{fire_trap}

unfoldable pub page_fault_cause : MemAccess → ℕ
page_fault_cause fetch = Codes.exc_insn_page_fault
page_fault_cause load = Codes.exc_load_page_fault
page_fault_cause store = Codes.exc_store_page_fault

-- `vpn[lvl]`
unfoldable pub vpn : ℕ → ℕ → ℕ
vpn va zero = bit_and (shr va 12) 0x3FF
vpn va (suc lvl) = bit_and (shr va 22) 0x3FF

unfoldable pub page_offset : ℕ → ℕ
page_offset va = bit_and va 0xFFF

-- The physical address of a leaf at level 1, a superpage, and at level 0.
unfoldable pub leaf_address : ℕ → ℕ → ℕ → ℕ
leaf_address va pte zero = bit_or (shl rv32 (shr pte 10) 12) (page_offset va)
leaf_address va pte (suc lvl) =
    bit_or (bit_or (shl rv32 (bit_and (shr pte 20) 0xFFF) 22) (shl rv32 (vpn va 0) 12))
      (page_offset va)

-- A leaf entry is refused if it is a misaligned superpage, or not for the user's mode.
unfoldable pub leaf_faults : ℕ → ℕ → ℕ → Bool
leaf_faults mode pte lvl =
    if (lvl == 1) && not (bit_and (shr pte 10) 0x3FF == 0)
    then true
    else (mode == mode_u) && (bit_and pte (2 ^ 4) == 0)

module _ {M : Type 0} (ops : MemT M) where
  unfoldable pub page_fault : ℕ → MemAccess → Exec M (Option ℕ)
  page_fault va access = do modify (fire_trap (page_fault_cause access) va); pure none

  -- The entry, or none where the read throws.
  unfoldable pub read_pte : ℕ → Exec M (Option ℕ)
  read_pte pte_addr =
      catch_all (on_memory (λ m. ops.read_word m pte_addr) >>= λ w. pure (some w)) (pure none)

  -- The body of the loop with `pte` read; `next` goes on with the page table below.
  unfoldable pub visit : ℕ → MemAccess → ℕ → (ℕ → Exec M (Option ℕ)) → ℕ → Exec M (Option ℕ)
  visit va access lvl next pte =
      if bit_and pte 0x1 == 0
      then page_fault va access
      else if not (bit_and pte 0xA == 0)
      then (gets (λ c. c.priv_mode) >>= λ mode.
          if leaf_faults mode pte lvl
          then page_fault va access
          else pure (some (leaf_address va pte lvl)))
      else next pte

  unfoldable pub visit_entry :
      ℕ → MemAccess → ℕ → (ℕ → Exec M (Option ℕ)) → Option ℕ → Exec M (Option ℕ)
  visit_entry va access lvl next none = page_fault va access
  visit_entry va access lvl next (some pte) = visit va access lvl next pte

  -- The loop from level `lvl` down, with the page table at `a`.
  unfoldable pub walk : ℕ → MemAccess → ℕ → ℕ → Exec M (Option ℕ)
  walk va access zero a =
      read_pte (bit_or a (shl rv32 (vpn va 0) 2))
      >>= visit_entry va access 0 (λ pte. page_fault va access)
  walk va access (suc lvl) a =
      read_pte (bit_or a (shl rv32 (vpn va (suc lvl)) 2))
      >>= visit_entry va access (suc lvl) (λ pte. walk va access lvl (shl rv32 (shr pte 10) 12))

  -- The physical address, or none after the trap was fired.
  unfoldable pub translate_addr : ℕ → MemAccess → Exec M (Option ℕ)
  translate_addr va access = gets (λ c. Csr.read c.csr Codes.satp) >>= λ satp.
      if shr satp 31 == 0
      then pure (some va)
      else walk va access 1 (shl rv32 (bit_and satp 0x3FFFFF) 12)
