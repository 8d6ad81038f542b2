-- ===== src/RvModel/Effects/Semantics.antt =====
-- What the ISA says of the operations, of a trap and of MRET, in its own numbers: RISC-V
-- unprivileged, chapters I and M, and privileged, machine mode. Beside it, that alu.hpp and
-- rv_model.hpp do that.
use xor_os.Base.{
  Bool-cases, inl, inr, ℕ, ◌+◌, ◌-◌, ◌*◌, ◌/◌, ◌%◌, ◌^◌, ◌≡◌, refl, sym, ap, ◌∙◌, arith, bit_and,
  bit_or, bit_xor, true, false, not, ltb, ◌==◌, ◌&&◌, if◌then◌else◌,
}
use xor_os.Base.Bits.{bit_and_mask, bit_and_shift, bit_or-zero}
use native.Mathlib.Nat.{one-le-pow}
use xor_os.Base.Int.{ℤ, pos, negsuc, ◌*ℤ◌, ltb_ℤ, eqb_ℤ, quot}
use xor_os.Base.Int
use xor_os.Base.Word.{rv32, rv64, complement, to_signed, of_signed, asr, shr}
use xor_os.Alu
use xor_os.Isa.{sign_extend}
use xor_os.Csr
use xor_os.Csr.{CsrFile}
use xor_os.RvModel.State.{Cpu}
use xor_os.RvModel.Trap
use xor_os.RvModel.Trap.{fire_trap, trap_status, mret_status}
use xor_os.RvModel.Execute

-- The result of an operation on two words. The quotient of the least integer by -1 is out of range
-- and wraps to itself.
unfoldable pub result : Alu.Op → ℕ → ℕ → ℕ
result Alu.Op.add a b = (a + b) % 2 ^ 32
result Alu.Op.sub a b = (a + 2 ^ 32 - b) % 2 ^ 32
result Alu.Op.and a b = bit_and a b
result Alu.Op.or a b = bit_or a b
result Alu.Op.xor a b = bit_xor a b
result Alu.Op.sll a b = a * 2 ^ (b % 32) % 2 ^ 32
result Alu.Op.srl a b = a / 2 ^ (b % 32)
result Alu.Op.sra a b = of_signed rv32 (asr (to_signed rv32 a) (b % 32))
result Alu.Op.slt a b = if ltb_ℤ (to_signed rv32 a) (to_signed rv32 b) then 1 else 0
result Alu.Op.sltu a b = if ltb a b then 1 else 0
result Alu.Op.mul a b = a * b % 2 ^ 32
result Alu.Op.mulh a b = of_signed rv64 (to_signed rv32 a *ℤ to_signed rv32 b) / 2 ^ 32
result Alu.Op.mulhsu a b = of_signed rv64 (to_signed rv32 a *ℤ pos b) / 2 ^ 32
result Alu.Op.mulhu a b = a * b / 2 ^ 32 % 2 ^ 32
result Alu.Op.div a b =
    if b == 0 then 2 ^ 32 - 1 else of_signed rv32 (quot (to_signed rv32 a) (to_signed rv32 b))
result Alu.Op.divu a b = if b == 0 then 2 ^ 32 - 1 else a / b
result Alu.Op.rem a b =
    if b == 0 then a else of_signed rv32 (Int.rem (to_signed rv32 a) (to_signed rv32 b))
result Alu.Op.remu a b = if b == 0 then a else a % b

-- A trap: MPIE takes MIE, MIE is cleared and MPP takes the mode. With no handler the CPU halts.
unfoldable pub take_trap : ℕ → ℕ → Cpu → Cpu
take_trap cause tval c =
    let old = Csr.read c.csr 0x300 in
    let status =
      bit_or (bit_or (bit_and old 0xFFFFE777) (old / 2 ^ 3 % 2 * 2 ^ 7))
        (c.priv_mode * 2 ^ 11 % 2 ^ 32) in
    let saved = Csr.write (Csr.write (Csr.write c.csr 0x341 c.pc) 0x342 cause) 0x343 tval in
    if Csr.read c.csr 0x305 == 0 then record c { halted = true } else record c {
      csr = Csr.write saved 0x300 status;
      priv_mode = 3;
      pc = bit_and (Csr.read c.csr 0x305) 0xFFFFFFFC;
    }

-- MRET: MIE takes MPIE, MPIE is set, the mode is that of MPP, which becomes U.
unfoldable pub return_from_trap : Cpu → Cpu
return_from_trap c =
    let old = Csr.read c.csr 0x300 in
    let status = bit_or (bit_or (bit_and old 0xFFFFE777) (old / 2 ^ 7 % 2 * 2 ^ 3)) (2 ^ 7) in
    record c {
      csr = Csr.write c.csr 0x300 status;
      priv_mode = old / 2 ^ 11 % 4;
      pc = Csr.read c.csr 0x341;
    }

-- The cause of an ECALL from U, S or M.
unfoldable pub call_cause : ℕ → ℕ
call_cause mode = if mode == 0 then 8 else if mode == 1 then 9 else 11

-- The sign of the low `bits` of a value, in a word.
unfoldable pub widen : ℕ → ℕ → ℕ
widen bits v =
    let low = v % 2 ^ bits in if ltb low (2 ^ bits / 2) then low else low + (2 ^ 32 - 2 ^ bits)

wide : (z : ℤ) → Alu.upper_word rv32 (Alu.of_double rv32 z) ≡ of_signed rv64 z / 2 ^ 32
unfolding Alu.upper_word Alu.of_double of_signed
wide (pos n) = omega arith
wide (negsuc n) = omega arith

zero_test : (b : ℕ) → eqb_ℤ (to_signed rv32 b) (pos 0) ≡ (b == 0)
unfolding to_signed
zero_test b = ground arith

negative-eqb : (z : ℤ) (k : ℕ) → eqb_ℤ z (negsuc k) ≡ true → z ≡ negsuc k
negative-eqb (pos n) k e = absurd (ground arith)
negative-eqb (negsuc n) k e = let same : n ≡ k = ground arith in rw same refl

-- The guard against the least integer by -1 makes no difference.
guarded :
    (s u : ℤ) (v : ℕ) (f : ℤ → ℤ → ℤ)
    → of_signed rv32 (f (negsuc (2 ^ 31 - 1)) (negsuc 0)) ≡ v
    → (if eqb_ℤ s (negsuc (2 ^ 31 - 1)) && eqb_ℤ u (negsuc 0) then v else of_signed rv32 (f s u))
      ≡ of_signed rv32 (f s u)
guarded s u v f e = elim (Bool-cases (eqb_ℤ s (negsuc (2 ^ 31 - 1)))) [
  | inl least ↦ elim (Bool-cases (eqb_ℤ u (negsuc 0))) [
    | inl minus ↦
        rw (least, minus, negative-eqb s (2 ^ 31 - 1) least, negative-eqb u 0 minus) (sym e)
    | inr other ↦ rw (least, other) refl
  ]
  | inr other ↦ rw other refl
]

pub execute-result : (op : Alu.Op) (a b : ℕ) → Alu.execute rv32 op a b ≡ result op a b
unfolding Alu.execute result Alu.shamt Alu.upper_word Alu.of_double of_signed
execute-result Alu.Op.add a b = refl
execute-result Alu.Op.sub a b = refl
execute-result Alu.Op.and a b = refl
execute-result Alu.Op.or a b = refl
execute-result Alu.Op.xor a b = refl
execute-result Alu.Op.sll a b = rw (bit_and_mask 5 b) refl
execute-result Alu.Op.srl a b = rw (bit_and_mask 5 b) refl
execute-result Alu.Op.sra a b = rw (bit_and_mask 5 b) refl
execute-result Alu.Op.slt a b = refl
execute-result Alu.Op.sltu a b = refl
execute-result Alu.Op.mul a b = omega arith
execute-result Alu.Op.mulh a b = wide (to_signed rv32 a *ℤ to_signed rv32 b)
execute-result Alu.Op.mulhsu a b = wide (to_signed rv32 a *ℤ pos b)
execute-result Alu.Op.mulhu a b = omega arith
execute-result Alu.Op.div a b =
    rw
      (
        zero_test b,
        guarded (to_signed rv32 a) (to_signed rv32 b) (2 ^ 31) quot (unfold quot in refl),
      )
      refl
execute-result Alu.Op.divu a b = refl
execute-result Alu.Op.rem a b =
    rw
      (
        zero_test b,
        guarded (to_signed rv32 a) (to_signed rv32 b) 0 Int.rem (unfold Int.rem in refl),
      )
      refl
execute-result Alu.Op.remu a b = refl

-- One bit of the status, moved.
moved :
    (s k p q : ℕ)
    → (if not (bit_and s (1 * 2 ^ p) == 0) then bit_or (bit_and s k) (2 ^ q) else bit_and s k)
      ≡ bit_or (bit_and s k) (s / 2 ^ p % 2 * 2 ^ q)
moved s k p q =
    let bit : bit_and s (1 * 2 ^ p) ≡ s / 2 ^ p % 2 * 2 ^ p =
      bit_and_shift p s 1 ∙ ap (λ (t : ℕ). t * 2 ^ p) (bit_and_mask 1 (s / 2 ^ p)) in
    elim (Bool-cases (s / 2 ^ p % 2 == 0)) [
      | inl clear ↦
          let zero : s / 2 ^ p % 2 ≡ 0 = ground arith in
          let none_p : 0 * 2 ^ p ≡ 0 = omega arith in
          let none_q : 0 * 2 ^ q ≡ 0 = omega arith in
          rw (bit, zero, none_p, none_q) (sym (bit_or-zero (bit_and s k)))
      | inr set ↦
          let one : s / 2 ^ p % 2 ≡ 1 = ground arith in
          let some_bit : (1 * 2 ^ p == 0) ≡ false = ground (arith, one-le-pow p 2) in
          let whole : 1 * 2 ^ q ≡ 2 ^ q = omega arith in rw (bit, one, some_bit, whole) refl
    ]

pub fire_trap-take_trap :
    (cause tval : ℕ) (c : Cpu) → fire_trap cause tval c ≡ take_trap cause tval c
unfolding fire_trap take_trap trap_status complement Csr.read Csr.get_mtvec Csr.set_mepc
    Csr.set_mcause Csr.set_mtval Csr.write Csr.put Csr.is_read_only
fire_trap-take_trap cause tval c = rw (moved (c.csr.regs 0x300) 0xFFFFE777 3 7) refl

pub mret-return : (c : Cpu) → Trap.mret c ≡ return_from_trap c
unfolding Trap.mret return_from_trap mret_status complement Csr.read Csr.get_mepc Csr.write Csr.put
    Csr.is_read_only
mret-return c =
    rw (moved (c.csr.regs 0x300) 0xFFFFE777 7 3, bit_and_mask 2 (shr (c.csr.regs 0x300) 11)) refl

pub ecall-call : (mode : ℕ) → Execute.ecall_cause mode ≡ call_cause mode
unfolding Execute.ecall_cause call_cause
ecall-call mode = refl

pub sign_extend-widen :
    (v : ℕ) → (sign_extend rv32 v 8 ≡ widen 8 v) × (sign_extend rv32 v 16 ≡ widen 16 v)
unfolding sign_extend widen to_signed of_signed
sign_extend-widen v = (ground arith, ground arith)
