-- ===== src/Dumper/Dumps.antt =====
-- rv32i/include/dumper.hpp: `dumpMemHex`; and the `dump` of register_file.hpp, csr_file.hpp and
-- memory_model.hpp.
use xor_os.Base.{
  ℕ, ◌+◌, ◌/◌, ◌%◌, ◌^◌, Bool, ltb, leb, ◌&&◌, ◌==◌, if◌then◌else◌, List, [], ◌∷◌, ◌++◌, length,
  get_or,
}
use xor_os.Base.Word.{rv32, to_signed}
use xor_os.Base.Text.{Text, codes, hex_fixed, digits_of, to_string}
use xor_os.Outcome.{Outcome, ok, fail}
use xor_os.Csr
use xor_os.Csr.{CsrFile}
use xor_os.Registers.{RegisterFile}
use xor_os.Memory
use xor_os.Memory.{MemoryModel}
use xor_os.Dumper.{rounds, reg_label, csr_entries}

-- A value that is read, or what stands for one that cannot be read.
unfoldable pub value_or : ℕ → Outcome ℕ → ℕ
value_or other (ok b) = b
value_or other (fail e) = other

-- `std::isprint`
unfoldable pub is_print : ℕ → Bool
is_print b = leb 0x20 b && leb b 0x7E

module _ {D : Type 0} (mem : MemoryModel D) where
  -- Whether the byte at `row + col` is shown.
  unfoldable pub is_shown : ℕ → ℕ → ℕ → Bool
  is_shown size at addr = ltb at size && ltb addr (length mem.bytes)

  unfoldable pub hex_column : ℕ → ℕ → ℕ → ℕ → Text
  hex_column from size row col =
      let addr = (from + row + col) % 2 ^ 32 in
      (if col == 8 then codes " " else [])
      ++ (if is_shown size (row + col) addr
          then hex_fixed 2 (value_or 0xFF (Memory.read_byte mem addr)) ++ codes " "
          else codes "   ")

  unfoldable pub ascii_column : ℕ → ℕ → ℕ → ℕ → Text
  ascii_column from size row col =
      let addr = (from + row + col) % 2 ^ 32 in
      let b = value_or 0 (Memory.read_byte mem addr) in
      if is_shown size (row + col) addr then (if is_print b then b else b'.') ∷ [] else codes " "

  unfoldable pub hex_row : ℕ → ℕ → ℕ → Text
  hex_row from size row =
      codes "0x"
      ++ (hex_fixed 8 ((from + row) % 2 ^ 32)
          ++ (codes ":  "
              ++ (rounds 16 0 1 (hex_column from size row)
                  ++ (codes " |" ++ (rounds 16 0 1 (ascii_column from size row) ++ codes "|\n")))))

  -- `row` is a `uint32_t`: past 2 ^ 32 - 16 bytes the loop does not end, and this stands for less.
  unfoldable pub dump_mem_hex : Text → ℕ → ℕ → Text
  dump_mem_hex out from size =
      out
      ++ (codes "\n--- MEM 0x"
          ++ (hex_fixed 8 from
              ++ (codes " .. 0x"
                  ++ (hex_fixed 8 ((from + size) % 2 ^ 32)
                      ++ (codes " ---\n" ++ rounds ((size + 15) / 16) 0 16 (hex_row from size))))))

  unfoldable pub word_line : ℕ → ℕ → Text
  word_line from i =
      let a = (from + i) % 2 ^ 32 in
      if leb (a + 4) (length mem.bytes)
      then codes "0x"
        ++ (hex_fixed 8 a
            ++ (codes ": 0x" ++ (hex_fixed 8 (value_or 0 (Memory.read_word mem a)) ++ codes "\n")))
      else []

  -- `MemoryModel::dump`
  unfoldable pub dump_memory : ℕ → ℕ → Text
  dump_memory from count =
      codes "\n=== MEMORY DUMP [0x"
      ++ (digits_of 16 16 from
          ++ (codes " .. 0x"
              ++ (digits_of 16 16 (from + count)
                  ++ (codes "] ===\n" ++ rounds ((count + 3) / 4) 0 4 (word_line from)))))

-- `RegisterFile::dump`
unfoldable pub reg_line : RegisterFile → ℕ → Text
reg_line regs i =
    let val = get_or regs.regs i 0 in
    reg_label (codes " (") i
    ++ (codes ": 0x"
        ++ (hex_fixed 8 val ++ (codes "  (" ++ (to_string (to_signed rv32 val) ++ codes ")\n"))))

unfoldable pub dump_registers : RegisterFile → Text
dump_registers regs = codes "\n=== REGISTER FILE (XLEN=32) ===\n" ++ rounds 32 0 1 (reg_line regs)

-- `CsrFile::dump`
unfoldable pub entry_lines : CsrFile → List (Text × ℕ) → Text
entry_lines csr [] = []
entry_lines csr ((name, addr) ∷ entries) =
    (name ++ (codes ": 0x" ++ (hex_fixed 8 (Csr.read csr addr) ++ codes "\n")))
    ++ entry_lines csr entries

unfoldable pub dump_csrs : CsrFile → Text
dump_csrs csr = codes "\n=== CSR FILE (XLEN=32) ===\n" ++ entry_lines csr csr_entries
