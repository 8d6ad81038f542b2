-- ===== src/Csr/Laws.antt =====
-- rv32i/include/csr_file.hpp: what can be read after a write, and what the CSR instructions change.
use xor_os.Base.{
  ℕ, ◌^◌, bit_and, ap, ◌∙◌, ◌-◌, ◌<◌, ◌≡◌, refl, arith, min, max, true, false, ◌==◌, if◌then◌else◌,
}
use xor_os.Base.Digits.{digit, digit-bit_and, digit-bit_or, digit-complement}
use xor_os.Base.Word.{Xlen, rv32, rv64, width, modulus, complement}
use xor_os.Csr.{
  CsrFile, is_read_only, read, write, put, csrrw, csrrs, csrrc, csrrwi, csrrsi, csrrci,
}
use xor_os.Csr.Codes

-- A read after a write: mhartid is 0, a read-only register and every other one is as before, and
-- the register written has the value.
pub read-write :
    (f : CsrFile) (a b v : ℕ)
    → read (write f a v) b ≡ (
        if b == Codes.mhartid
        then 0
        else if is_read_only a
        then read f b
        else if a == b
        then v
        else read f b)
unfolding read write put
read-write f a b v = ground arith

digit-clear :
    (x : Xlen) (a b i : ℕ)
    → b < modulus x
    → i < width x
    → digit (bit_and a (complement x b)) i ≡ min (digit a i) (1 - digit b i)
unfolding complement
digit-clear rv32 a b i h g =
    omega (arith, digit-bit_and i a (2 ^ 32 - 1 - b), digit-complement 32 i b g h)
digit-clear rv64 a b i h g =
    omega (arith, digit-bit_and i a (2 ^ 64 - 1 - b), digit-complement 64 i b g h)

-- On a register that can be written, CSRRW writes the operand, CSRRS sets the bits of the operand
-- and CSRRC clears them, bit by bit; each returns the old value.
pub csr_bits :
    (x : Xlen) (f : CsrFile) (addr v i : ℕ)
    → is_read_only addr ≡ false
    → v < modulus x
    → i < width x
    → let old = read f addr in
      (read (csrrw f addr v).0 addr ≡ v)
      × (digit (read (csrrs f addr v false).0 addr) i ≡ max (digit old i) (digit v i))
      × (digit (read (csrrc x f addr v false).0 addr) i ≡ min (digit old i) (1 - digit v i))
      × ((csrrw f addr v).1 ≡ old)
      × ((csrrs f addr v false).1 ≡ old)
      × ((csrrc x f addr v false).1 ≡ old)
unfolding csrrw csrrs csrrc
csr_bits x f addr v i writable word bit = (
  kept v,
  ap (λ (t : ℕ). digit t i) (kept _) ∙ digit-bit_or i (read f addr) v,
  ap (λ (t : ℕ). digit t i) (kept _) ∙ digit-clear x (read f addr) v i word bit,
  refl,
  refl,
  refl,
)
  where
    kept : (w : ℕ) → read (write f addr w) addr ≡ w
    kept w = read-write f addr addr w ∙ unfold is_read_only in ground arith

-- An access to a read-only register by any of the six instructions keeps the whole file as it is.
pub csr_unchanged :
    (x : Xlen) (f : CsrFile) (addr v : ℕ)
    → is_read_only addr ≡ true
    → ((csrrw f addr v).0 ≡ f)
      × ((csrrs f addr v false).0 ≡ f)
      × ((csrrc x f addr v false).0 ≡ f)
      × ((csrrwi f addr v).0 ≡ f)
      × ((csrrsi f addr v).0 ≡ f)
      × ((csrrci x f addr v).0 ≡ f)
unfolding csrrw csrrs csrrc csrrwi csrrsi csrrci write
csr_unchanged x f addr v fixed = ground arith
