-- ===== src/Kernel/Clint.antt =====
-- os/include/clint.h and os/src/clint.c: the timer as the kernel reads and arms it, by volatile
-- accesses of its four words. The accesses are numbered in the order in which they are made, since
-- the time runs on between two of them; `load n addr` is what the access `n` reads at `addr`.
-- Stores are listed in order.
pub mod Deadline
pub mod Time
use xor_os.Base.{
  ℕ, zero, suc, ◌+◌, ◌-◌, ◌%◌, ◌*◌, ◌^◌, bit_or, ◌==◌, false, if◌then◌else◌, List, [], ◌∷◌, Option,
  none, some,
}
use xor_os.Base.Word.{shr}
use xor_os.Csr.{CsrFile}
use xor_os.Csr
use xor_os.Csr.Codes

abbrev pub clint_mtime_lo : ℕ
clint_mtime_lo = 0xF004

abbrev pub clint_mtime_hi : ℕ
clint_mtime_hi = 0xF008

abbrev pub clint_mtimecmp_lo : ℕ
clint_mtimecmp_lo = 0xF00C

abbrev pub clint_mtimecmp_hi : ℕ
clint_mtimecmp_hi = 0xF010

-- The loop, on fuel for its rounds, from the access `n` on: the time, and the next access.
unfoldable pub clint_mtime : (ℕ → ℕ → ℕ) → ℕ → ℕ → Option (ℕ × ℕ)
clint_mtime load zero n = none
clint_mtime load (suc fuel) n =
    let hi = load n clint_mtime_hi in
    let lo = load (n + 1) clint_mtime_lo in
    let again = load (n + 2) clint_mtime_hi in
    let rest = clint_mtime load fuel (n + 3) in
    if again == hi then some (bit_or (hi * 2 ^ 32 % 2 ^ 64) lo, n + 3) else rest

-- The stores, each an address and a word.
unfoldable pub clint_mtimecmp_write : ℕ → List (ℕ × ℕ)
clint_mtimecmp_write val =
    (clint_mtimecmp_hi, 2 ^ 32 - 1)
    ∷ (clint_mtimecmp_lo, val % 2 ^ 32)
    ∷ (clint_mtimecmp_hi, shr val 32 % 2 ^ 32)
    ∷ []

-- At the time `now` that was read: `g_interval`, the stores, and the CSRs with both interrupt
-- enables.
unfoldable pub clint_init : ℕ → ℕ → CsrFile → ℕ × List (ℕ × ℕ) × CsrFile
clint_init interval now csr =
    let armed = clint_mtimecmp_write ((now + interval) % 2 ^ 64) in
    let timer = (Csr.csrrs csr Codes.mie (2 ^ 7) false).0 in
    (interval, armed, (Csr.csrrsi timer Codes.mstatus 0x8).0)

unfoldable pub clint_set_next : ℕ → ℕ → List (ℕ × ℕ)
clint_set_next g_interval now = clint_mtimecmp_write ((now + g_interval) % 2 ^ 64)
