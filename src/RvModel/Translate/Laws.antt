-- ===== src/RvModel/Translate/Laws.antt =====
-- rv32i/include/rv_model.hpp: the two ways in which a translation ends.
use xor_os.Base.{
  ℕ, zero, suc, ◌<◌, ◌%◌, ◌^◌, ◌≡◌, ◌≢◌, arith, bit_and, bit_or, Option, none, some, ◌⊎◌,
}
use xor_os.Base.Bits.{bit_or_sum, bit_or-lt, bit_and_mask}
use xor_os.Base.Word.{rv32, shl, shr}
use xor_os.Outcome.{Outcome, ok, fail, undefined_behaviour}
use xor_os.RvModel.State.{MemAccess, Cpu}
use xor_os.RvModel.Trap.{fire_trap}
use xor_os.RvModel.Monad.{MemT, RvModel, Exec}
use xor_os.RvModel.Translate.{page_fault_cause, vpn, page_offset, leaf_address}

-- The offset in the page survives.
pub leaf_address-offset : (va pte lvl : ℕ) → leaf_address va pte lvl % 2 ^ 12 ≡ va % 2 ^ 12
unfolding leaf_address page_offset vpn
leaf_address-offset va pte zero =
    let o = bit_and_mask 12 va in
    omega (
      arith,
      bit_or_sum 12 (shl rv32 (shr pte 10) 12) (bit_and va 0xFFF) (omega arith) (omega arith),
    )
leaf_address-offset va pte (suc lvl) =
    let o = bit_and_mask 12 va in
    let low = shl rv32 (vpn va 0) 12 in
    let high = shl rv32 (bit_and (shr pte 20) 0xFFF) 22 in
    let pages = bit_or_sum 22 high low (omega arith) (omega (arith, bit_and_mask 10 (shr va 12))) in
    omega (arith, bit_or_sum 12 (bit_or high low) (bit_and va 0xFFF) (omega arith) (omega arith))

-- A leaf's address is a word.
pub leaf_address-lt : (va pte lvl : ℕ) → leaf_address va pte lvl < 2 ^ 32
unfolding leaf_address page_offset vpn
leaf_address-lt va pte zero = bit_or-lt 32 _ _ (omega arith) (omega (arith, bit_and_mask 12 va))
leaf_address-lt va pte (suc lvl) =
    bit_or-lt 32 _ _ (bit_or-lt 32 _ _ (omega arith) (omega arith))
      (omega (arith, bit_and_mask 12 va))

-- What a translation may end in, from the CPU `c`.
abbrev pub Translated : {M : Type 0} → ℕ → MemAccess → Cpu → Outcome (Option ℕ) × RvModel M → Type 0
Translated va access c r =
    ((p : ℕ) × (r.0 ≡ ok (some p)) × (p % 2 ^ 12 ≡ va % 2 ^ 12) × (r.1.cpu ≡ c))
    ⊎ ((r.0 ≡ ok none) × (r.1.cpu ≡ fire_trap (page_fault_cause access) va c))

module _ {M : Type 0} (ops : MemT M) (va : ℕ) (access : MemAccess)
    (reads : (m : M) (a : ℕ) → (ops.read_word m a).0 ≢ fail undefined_behaviour) where
  record Translates (m : Exec M (Option ℕ)) : Type 0 where
    apply : (s : RvModel M) → Translated va access s.cpu (m s)
