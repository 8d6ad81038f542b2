-- ===== src/RvModel/Trap/Laws.antt =====
-- rv32i/include/rv_model.hpp: what a trap and MRET change.
use xor_os.RvModel.Effects.Semantics.{take_trap, fire_trap-take_trap}
use native.Mathlib.Nat.{one-le-pow, pow-le-pow_right}
use xor_os.Base.{
  ℕ, Bool, ◌%◌, ◌&&◌, Bool-cases, inl, inr, refl, ◌-◌, ◌*◌, ◌/◌, ◌^◌, ◌<◌, ◌≡◌, ◌≢◌, arith, bit_and,
  bit_or, true, false, not, ◌==◌, if◌then◌else◌, ◌∙◌, ap, max, min,
}
use xor_os.Base.Digits.{digit, digit-bit_and, digit-bit_or}
use xor_os.Base.Bits.{bit_and_mask, bit_and_shift}
use xor_os.Base.Word.{rv32, complement, shl, shr}
use xor_os.Csr
use xor_os.Csr.{CsrFile}
use xor_os.Csr.Codes
use xor_os.RvModel.State.{Cpu}
use xor_os.RvModel.Trap.{fire_trap, trap_status, mret, mret_status, trigger_interrupt, trap_bits}

-- A test of one bit.
bit_test : (k a : ℕ) → bit_and a (1 * 2 ^ k) ≡ digit a k * 2 ^ k
bit_test k a = bit_and_shift k a 1 ∙ ap (λ (t : ℕ). t * 2 ^ k) (bit_and_mask 1 (a / 2 ^ k))

-- `bit_or (bit_and s kept) set`, where bit `p` tells whether to set, at the digit `i`.
moved_digit :
    (i s kept p set : ℕ)
    → 0 < 2 ^ p
    → digit
        (if not (bit_and s (1 * 2 ^ p) == 0) then bit_or (bit_and s kept) set else bit_and s kept)
        i
      ≡ max (min (digit s i) (digit kept i)) (if digit s p == 0 then 0 else digit set i)
moved_digit i s kept p set h =
    let weight = 2 ^ p in
    ground (arith, bit_test p s, digit-bit_and i s kept, digit-bit_or i (bit_and s kept) set)

-- The bits that a status keeps.
abbrev kept_bits : ℕ
kept_bits = 2 ^ 32 - 1 - trap_bits

trap_status-digit :
    (i s mode : ℕ)
    → digit (trap_status s mode) i
      ≡ max
          (max
            (min (digit s i) (digit kept_bits i))
            (if digit s 3 == 0 then 0 else digit (2 ^ 7) i))
          (digit (shl rv32 mode 11) i)
unfolding trap_status complement
trap_status-digit i s mode =
    digit-bit_or i _ _
    ∙ ap (λ (t : ℕ). max t (digit (shl rv32 mode 11) i))
        (moved_digit i s kept_bits 3 (2 ^ 7) (omega arith))

mret_status-digit :
    (i s : ℕ)
    → digit (mret_status s) i
      ≡ max
          (max
            (min (digit s i) (digit kept_bits i))
            (if digit s 7 == 0 then 0 else digit (2 ^ 3) i))
          (digit (2 ^ 7) i)
unfolding mret_status complement
mret_status-digit i s =
    digit-bit_or i _ _
    ∙ ap (λ (t : ℕ). max t (digit (2 ^ 7) i)) (moved_digit i s kept_bits 7 (2 ^ 3) (omega arith))

-- The new MPIE is the old MIE, the new MIE is 0, and MPP is the mode.
trap_status_lem :
    (s mode : ℕ)
    → mode < 4
    → (digit (trap_status s mode) 7 ≡ digit s 3)
      × (digit (trap_status s mode) 3 ≡ 0)
      × (bit_and (shr (trap_status s mode) 11) 3 ≡ mode)
trap_status_lem s mode h = (
  trap_status-digit 7 s mode ∙ ground arith,
  trap_status-digit 3 s mode ∙ ground arith,
  bit_and_mask 2 (shr (trap_status s mode) 11)
      ∙ (let low = trap_status-digit 11 s mode in
          let high = trap_status-digit 12 s mode in ground arith),
)

mret_status-mie : (s : ℕ) → digit (mret_status s) 3 ≡ digit s 7
mret_status-mie s = mret_status-digit 3 s ∙ ground arith

-- MRET after a trap, in one of the four modes and with a handler, returns to the pc, the mode and
-- the interrupt enable bit MIE that the trap left, with the registers as they were.
pub mret-fire_trap :
    (c : Cpu) (cause tval : ℕ)
    → Csr.get_mtvec c.csr ≢ 0
    → c.priv_mode < 4
    → let c' = mret (fire_trap cause tval c) in
      (c'.pc ≡ c.pc)
      × (c'.priv_mode ≡ c.priv_mode)
      × (digit (Csr.read c'.csr Codes.mstatus) 3 ≡ digit (Csr.read c.csr Codes.mstatus) 3)
      × (c'.regs ≡ c.regs)
      × (c'.halted ≡ c.halted)
unfolding mret fire_trap Csr.read Csr.write Csr.get_mtvec Csr.get_mepc Csr.set_mepc Csr.set_mcause
    Csr.set_mtval Csr.put Csr.is_read_only
mret-fire_trap c cause tval handled mode =
    let s = c.csr.regs Codes.mstatus in
    let fired = trap_status_lem s c.priv_mode mode in
    let left = mret_status-mie (trap_status s c.priv_mode) in ground arith

bit_set : (k a : ℕ) → (bit_and a (1 * 2 ^ k) == 0) ≡ not (digit a k == 1)
bit_set k a =
    let some_bit : 0 < 2 ^ k = one-le-pow k 2 (omega arith) in
    elim (Bool-cases (digit a k == 1)) [
      | inl set ↦
          let one : digit a k ≡ 1 = ground arith in
          let whole : 1 * 2 ^ k ≡ 2 ^ k = omega arith in rw (bit_test k a, one) (ground arith)
      | inr clear ↦
          let zero : digit a k ≡ 0 = ground arith in
          let none : 0 * 2 ^ k ≡ 0 = omega arith in rw (bit_test k a, zero, none) refl
    ]

-- The early returns of `triggerInterrupt`.
guards :
    {A : Type 0} (halted enabled pending : Bool) (taken kept : A)
    → (if halted then kept else if not enabled then kept else if not pending then kept else taken)
      ≡ (if not halted && (enabled && pending) then taken else kept)
guards true enabled pending taken kept = refl
guards false false pending taken kept = refl
guards false true false taken kept = refl
guards false true true taken kept = refl

-- An interrupt of a cause whose code is below 32 is taken exactly by a CPU that is not halted, with
-- MIE, bit 3 of mstatus, set and with the bit of that code set in mie; it is then the trap that the
-- ISA says, and else the CPU is as before.
pub trigger_interrupt_lem :
    (c : Cpu) (cause : ℕ)
    → cause % 2 ^ 31 < 32
    → trigger_interrupt c cause ≡ (
        if not c.halted
          && ((digit (Csr.read c.csr 0x300) 3 == 1)
              && (digit (Csr.read c.csr 0x304) (cause % 2 ^ 31) == 1))
        then (true, take_trap cause 0 c)
        else (false, c))
unfolding trigger_interrupt complement
trigger_interrupt_lem c cause h =
    let code = cause % 2 ^ 31 in
    let fits : 2 ^ code < 2 ^ 32 =
      omega (arith, pow-le-pow_right {n = 2} (omega arith) {i = code} {j = 31} (omega arith)) in
    let shifted : shl rv32 1 code ≡ 1 * 2 ^ code = omega arith in
    rw
      (
        bit_and_mask 31 cause,
        shifted,
        bit_set 3 (Csr.read c.csr 0x300),
        bit_set code (Csr.read c.csr 0x304),
        fire_trap-take_trap cause 0 c,
      )
      (guards c.halted (digit (Csr.read c.csr 0x300) 3 == 1)
        (digit (Csr.read c.csr 0x304) code == 1) (true, take_trap cause 0 c) (false, c))
