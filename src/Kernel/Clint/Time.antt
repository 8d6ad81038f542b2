-- ===== src/Kernel/Clint/Time.antt =====
-- os/include/clint.h over rv32i/src/main.cpp: reading the time while it runs.
use xor_os.Base.{
  Bool-cases, inl, inr, ℕ, ◌+◌, ◌*◌, ◌/◌, ◌%◌, ◌^◌, ◌≤◌, ◌<◌, ◌≡◌, ◌≢◌, refl, ◌∙◌, arith, bit_or,
  ◌==◌, false, true, suc, some,
}
use xor_os.Base.Bits.{bit_or_sum}
use xor_os.Simulator.{Devices, mtime_read}
use xor_os.Kernel.Clint.{clint_mtime}

-- What the accesses read where the devices at the access `n` are `now n`.
abbrev pub device_load : (ℕ → Devices) → ℕ → ℕ → ℕ
device_load now n addr = mtime_read (now n) addr

module _ (now : ℕ → Devices) (n : ℕ) (bound : (now (n + 2)).mtime < 2 ^ 64)
    (first : (now n).mtime ≤ (now (n + 1)).mtime)
    (second : (now (n + 1)).mtime ≤ (now (n + 2)).mtime) where
  -- A round whose two upper halves agree gives the time of its second access.
  round-same :
      (fuel : ℕ)
      → (now (n + 2)).mtime / 2 ^ 32 ≡ (now n).mtime / 2 ^ 32
      → clint_mtime (device_load now) (suc fuel) n ≡ some ((now (n + 1)).mtime, n + 3)
  unfolding clint_mtime mtime_read
  round-same fuel e =
      let h = (now n).mtime / 2 ^ 32 % 2 ^ 32 in
      let agree : ((now (n + 2)).mtime / 2 ^ 32 % 2 ^ 32 == h) ≡ true = ground arith in
      let sum =
        bit_or_sum 32 (h * 2 ^ 32 % 2 ^ 64) ((now (n + 1)).mtime % 2 ^ 32) (omega arith)
          (omega arith) in
      let whole : bit_or (h * 2 ^ 32 % 2 ^ 64) ((now (n + 1)).mtime % 2 ^ 32)
          ≡ (now (n + 1)).mtime =
        omega (arith, sum) in
      rw (agree, whole) refl

  round-other :
      (fuel : ℕ)
      → ((now (n + 2)).mtime / 2 ^ 32 == (now n).mtime / 2 ^ 32) ≡ false
      → clint_mtime (device_load now) (suc fuel) n ≡ clint_mtime (device_load now) fuel (n + 3)
  unfolding clint_mtime mtime_read
  round-other fuel e =
      let differ : ((now (n + 2)).mtime / 2 ^ 32 % 2 ^ 32 == (now n).mtime / 2 ^ 32 % 2 ^ 32)
          ≡ false =
        ground arith in
      rw differ refl

module _ (now : ℕ → Devices) (runs : (k : ℕ) → (now k).mtime ≤ (now (k + 1)).mtime) where
  runs_to : (i j : ℕ) → j ≡ i + 1 → (now i).mtime ≤ (now j).mtime
  runs_to i j e = rw e (runs i)

-- Where every load reaches the devices, which is not so behind the `CacheModel` of `run_os`: while
-- the time runs on by less than 2 ^ 32 over six accesses and does not wrap, `clint_mtime` returns
-- after at most two rounds, and gives the time at one of its accesses.
pub clint_mtime_lem :
    (now : ℕ → Devices) (n : ℕ)
    → ((k : ℕ) → (now k).mtime ≤ (now (k + 1)).mtime)
    → (now (n + 5)).mtime < 2 ^ 64
    → (now (n + 5)).mtime < (now n).mtime + 2 ^ 32
    → (k m : ℕ) × (n ≤ k)
      × (k < m)
      × (m ≤ n + 6)
      × (clint_mtime (device_load now) 2 n ≡ some ((now k).mtime, m))
clint_mtime_lem now n runs bound slow =
    let to = runs_to now runs in
    let r0 = to n (n + 1) (omega arith) in
    let r1 = to (n + 1) (n + 2) (omega arith) in
    let r2 = to (n + 2) (n + 3) (omega arith) in
    let r3 = to (n + 3) (n + 3 + 1) (omega arith) in
    let r4 = to (n + 3 + 1) (n + 3 + 2) (omega arith) in
    let end : n + 5 ≡ n + 3 + 2 = omega arith in
    let bound' : (now (n + 3 + 2)).mtime < 2 ^ 64 = rw⁻¹ end bound in
    let slow' : (now (n + 3 + 2)).mtime < (now n).mtime + 2 ^ 32 = rw⁻¹ end slow in
    elim (Bool-cases ((now (n + 2)).mtime / 2 ^ 32 == (now n).mtime / 2 ^ 32)) [
      | inl same ↦
          let again : (now (n + 2)).mtime / 2 ^ 32 ≡ (now n).mtime / 2 ^ 32 = ground arith in
          (
            n + 1,
            n + 3,
            omega arith,
            omega arith,
            omega arith,
            round-same now n (omega arith) r0 r1 1 again,
          )
      | inr other ↦
          let moved : (now (n + 2)).mtime / 2 ^ 32 ≢ (now n).mtime / 2 ^ 32 = ground arith in
          let still : (now (n + 3 + 2)).mtime / 2 ^ 32 ≡ (now (n + 3)).mtime / 2 ^ 32 =
            omega arith in
          (
            n + 3 + 1,
            n + 3 + 3,
            omega arith,
            omega arith,
            omega arith,
            round-other now n (omega arith) r0 r1 1 other
                ∙ round-same now (n + 3) bound' r3 r4 0 still,
          )
    ]
