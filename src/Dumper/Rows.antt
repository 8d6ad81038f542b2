-- ===== src/Dumper/Rows.antt =====
-- rv32i/include/dumper.hpp: where `dumpMemHex` prints a byte.
use xor_os.Base.{
  ℕ, zero, suc, ◌+◌, ◌%◌, ◌^◌, ◌<◌, ◌≡◌, ltb, ◌||◌, ◌==◌, if◌then◌else◌, [], ◌∷◌, ◌++◌, length, ◌≤◌,
  Option, some, none,
}
use xor_os.Base.Text.{Text, codes, hex_fixed}
use xor_os.Memory
use xor_os.Memory.{MemoryModel}
use xor_os.Outcome.{ok}
use xor_os.Dumper.Dumps.{value_or, is_shown}

abbrev sum_rounds : ℕ → ℕ → ℕ → (ℕ → ℕ) → ℕ
sum_rounds zero i step w = 0
sum_rounds (suc n) i step w = w i + sum_rounds n (i + step) step w

-- The width of a column of the dump; a space more stands before the ninth.
abbrev width : ℕ → ℕ
width col = if col == 8 then 4 else 3

-- The text `t` stands at the place `at` of a row.
abbrev pub Stands : ℕ → Text → Text → Type 0
Stands at t row = (before after : Text) × (row ≡ before ++ (t ++ after)) × (length before ≡ at)

-- The byte of a column, or none past the range or the memory.
pub data IsByte {D : Type 0} (mem : MemoryModel D) (from size row col : ℕ) : Option ℕ → Type 0 where
  seen :
      (b : ℕ)
      → row + col < size
      → (from + row + col) % 2 ^ 32 < length mem.bytes
      → Memory.read_byte mem ((from + row + col) % 2 ^ 32) ≡ ok b
      → IsByte mem from size row col (some b)
  past_range : size ≤ row + col → IsByte mem from size row col none
  past_memory : length mem.bytes ≤ (from + row + col) % 2 ^ 32 → IsByte mem from size row col none

abbrev pub digits : Option ℕ → Text
digits none = codes "   "
digits (some b) = hex_fixed 2 b ++ codes " "

abbrev pub character : Option ℕ → Text
character none = codes " "
character (some b) = (if ltb b 0x20 || ltb 0x7E b then b'.' else b) ∷ []

module _ {D : Type 0} (mem : MemoryModel D) (from size row : ℕ) where
  -- The digits of a byte, with a space after them, or three spaces.
  abbrev cell : ℕ → Text
  cell col =
      let addr = (from + row + col) % 2 ^ 32 in
      if is_shown mem size (row + col) addr
      then hex_fixed 2 (value_or 0xFF (Memory.read_byte mem addr)) ++ codes " "
      else codes "   "
