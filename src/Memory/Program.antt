-- ===== src/Memory/Program.antt =====
-- rv32i/include/memory_model.hpp and instr_builder.hpp: loading a program.
use xor_os.Base.{
  ℕ, zero, suc, ◌+◌, ◌-◌, ◌*◌, ◌^◌, ◌≤◌, ◌<◌, ◌≡◌, refl, arith, false, ◌&&◌, leb, ◌==◌, ltb, ap,
  if◌then◌else◌, none, List, [], ◌∷◌, length, length-set, get_or, bit_and,
}
use xor_os.Base.Bits.{bit_and_mask}
use xor_os.Base.Word.{shr}
use xor_os.Outcome.{Outcome, ok}
use xor_os.Memory.{MemoryModel, find_mmio, byte_at, put_byte, read_word, copy_bytes, load_program}
use xor_os.Memory.Bytes.{IsBytes, byte_of, put_byte-at, byte_of-at}
use xor_os.Memory.Access.{read_word-stored}

-- The loop of `InstrBuilder::loadProgram`: each word as four bytes, the lowest first.
unfoldable pub program_bytes : List ℕ → List ℕ
program_bytes [] = []
program_bytes (w ∷ prog) =
    bit_and w 0xFF
    ∷ bit_and (shr w 8) 0xFF
    ∷ bit_and (shr w 16) 0xFF
    ∷ bit_and (shr w 24) 0xFF
    ∷ program_bytes prog

unfoldable pub load_words :
    {D : Type 0} → MemoryModel D → List ℕ → ℕ → Outcome (Unit {0}) × MemoryModel D
load_words m prog base = load_program m (program_bytes prog) base

copy_bytes-length :
    {D : Type 0} (m : MemoryModel D) (p : List ℕ) (base : ℕ)
    → length (copy_bytes m p base).bytes ≡ length m.bytes
unfolding copy_bytes
copy_bytes-length m [] base = refl
copy_bytes-length m (b ∷ p) base =
    omega (arith, copy_bytes-length (put_byte m base b) p (base + 1), length-set m.bytes base b)

copy_bytes-mmio :
    {D : Type 0} (m : MemoryModel D) (p : List ℕ) (base : ℕ) → (copy_bytes m p base).mmio ≡ m.mmio
unfolding copy_bytes
copy_bytes-mmio m [] base = refl
copy_bytes-mmio m (b ∷ p) base = copy_bytes-mmio (put_byte m base b) p (base + 1)

get_or-cons :
    (b : ℕ) (p : List ℕ) (n : ℕ) → get_or (b ∷ p) n 0 ≡ (if n == 0 then b else get_or p (n - 1) 0)
get_or-cons b p zero = refl
get_or-cons b p (suc n) =
    let e : suc n - 1 ≡ n = omega arith in
    let later : (suc n == 0) ≡ false = ground arith in rw (later, e)

-- The bytes of the program stand from `base` on, and no other byte changes.
copy_bytes-byte :
    {D : Type 0} (m : MemoryModel D) (p : List ℕ) (base j : ℕ)
    → base + length p ≤ length m.bytes
    → byte_at (copy_bytes m p base) j
      ≡ (if leb base j && ltb j (base + length p) then get_or p (j - base) 0 else byte_at m j)
unfolding copy_bytes
copy_bytes-byte m [] base j h = ground arith
copy_bytes-byte m (b ∷ p) base j h =
    let same : j - base - 1 ≡ j - (base + 1) = omega arith in
    ground (
      arith,
      get_or-cons b p (j - base),
      ap (λ (t : ℕ). get_or p t 0) same,
      copy_bytes-byte (put_byte m base b) p (base + 1) j,
      put_byte-at m base b j,
      length-set m.bytes base b,
    )

program_bytes-length : (ws : List ℕ) → length (program_bytes ws) ≡ 4 * length ws
unfolding program_bytes
program_bytes-length [] = refl
program_bytes-length (w ∷ ws) = omega (arith, program_bytes-length ws)

-- The `n`-th byte is byte `k` of word `i`.
program_bytes-get :
    (ws : List ℕ) (i k n : ℕ)
    → n ≡ 4 * i + k
    → k < 4
    → get_or (program_bytes ws) n 0 ≡ byte_of (get_or ws i 0) k
unfolding program_bytes
program_bytes-get [] i k n e h = omega arith
program_bytes-get (w ∷ ws) zero k zero e h =
    omega (arith, bit_and_mask 8 w, byte_of-at w k 0 (omega arith))
program_bytes-get (w ∷ ws) zero k (suc zero) e h =
    omega (arith, bit_and_mask 8 (shr w 8), byte_of-at w k 1 (omega arith))
program_bytes-get (w ∷ ws) zero k (suc (suc zero)) e h =
    omega (arith, bit_and_mask 8 (shr w 16), byte_of-at w k 2 (omega arith))
program_bytes-get (w ∷ ws) zero k (suc (suc (suc zero))) e h =
    omega (arith, bit_and_mask 8 (shr w 24), byte_of-at w k 3 (omega arith))
program_bytes-get (w ∷ ws) zero k (suc (suc (suc (suc n)))) e h = absurd (omega arith)
program_bytes-get (w ∷ ws) (suc i) k zero e h = absurd (omega arith)
program_bytes-get (w ∷ ws) (suc i) k (suc zero) e h = absurd (omega arith)
program_bytes-get (w ∷ ws) (suc i) k (suc (suc zero)) e h = absurd (omega arith)
program_bytes-get (w ∷ ws) (suc i) k (suc (suc (suc zero))) e h = absurd (omega arith)
program_bytes-get (w ∷ ws) (suc i) k (suc (suc (suc (suc n)))) e h =
    program_bytes-get ws i k n (omega arith) h

program_bytes-small : (ws : List ℕ) (i : ℕ) → get_or (program_bytes ws) i 0 < 256
unfolding program_bytes
program_bytes-small [] i = omega arith
program_bytes-small (w ∷ ws) zero = omega (arith, bit_and_mask 8 w)
program_bytes-small (w ∷ ws) (suc zero) = omega (arith, bit_and_mask 8 (shr w 8))
program_bytes-small (w ∷ ws) (suc (suc zero)) = omega (arith, bit_and_mask 8 (shr w 16))
program_bytes-small (w ∷ ws) (suc (suc (suc zero))) = omega (arith, bit_and_mask 8 (shr w 24))
program_bytes-small (w ∷ ws) (suc (suc (suc (suc i)))) = program_bytes-small ws i

-- A program that fits into a memory of bytes is loaded, and then each of its words of 32 bits that
-- lies outside the MMIO regions is read back at its place.
pub load_words-read_word :
    {D : Type 0} (m : MemoryModel D) (ws : List ℕ) (base i : ℕ)
    → find_mmio m.mmio (base + 4 * i) ≡ none
    → IsBytes m
    → base + 4 * length ws ≤ length m.bytes
    → i < length ws
    → get_or ws i 0 < 2 ^ 32
    → ((load_words m ws base).0 ≡ ok tt)
      × (read_word (load_words m ws base).1 (base + 4 * i) ≡ ok (get_or ws i 0))
unfolding load_words load_program
load_words-read_word {D} m ws base i unmapped b fits h small =
    rw (program_bytes-length ws, not_beyond) (refl, there)
  where
    m' : MemoryModel D
    m' = copy_bytes m (program_bytes ws) base

    not_beyond : ltb (length m.bytes) (base + 4 * length ws) ≡ false
    not_beyond = ground arith

    stored : (k a : ℕ) → a ≡ base + 4 * i + k → k < 4 → byte_at m' a ≡ byte_of (get_or ws i 0) k
    stored k a e lt = ground (
      arith,
      copy_bytes-byte m (program_bytes ws) base a,
      program_bytes-length ws,
      program_bytes-get ws i k (a - base),
    )

    bytes : IsBytes m'
    bytes j = ground (
      arith,
      b j,
      copy_bytes-byte m (program_bytes ws) base j,
      program_bytes-length ws,
      program_bytes-small ws (j - base),
    )

    there : read_word m' (base + 4 * i) ≡ ok (get_or ws i 0)
    there =
        read_word-stored m' (base + 4 * i) (get_or ws i 0)
          (rw (copy_bytes-mmio m (program_bytes ws) base) unmapped) bytes
          (omega (arith, copy_bytes-length m (program_bytes ws) base)) small stored
