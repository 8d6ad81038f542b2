-- ===== src/Kernel/Clint/Deadline.antt =====
-- os/include/clint.h over rv32i/src/main.cpp: arming the timer, store by store.
use xor_os.Base.{
  ℕ, ◌+◌, ◌-◌, ◌*◌, ◌/◌, ◌%◌, ◌^◌, ◌≤◌, ◌<◌, ◌≡◌, refl, ap, ◌∙◌, arith, bit_and, bit_or, List, [],
  ◌∷◌, take,
}
use xor_os.Base.Bits.{bit_and_mask, bit_and_shift, bit_or_sum}
use xor_os.Memory
use xor_os.Memory.{MemoryModel}
use xor_os.Simulator.{Devices, mtimecmp_write, map_devices}
use xor_os.Simulator.Mmio.{wired, with_devices, mtimecmp_store_low, mtimecmp_store_high}
use xor_os.Kernel.Clint.{clint_mtimecmp_write}

-- The memory after stores of words, in order.
abbrev pub store_all : List (ℕ × ℕ) → MemoryModel Devices → MemoryModel Devices
store_all [] m = m
store_all ((addr, val) ∷ stores) m = store_all stores (Memory.write_word m addr val).1

high_word :
    (v cmp : ℕ)
    → v < 2 ^ 32
    → bit_or (v * 2 ^ 32 % 2 ^ 64) (bit_and cmp 0xFFFFFFFF) ≡ v * 2 ^ 32 + cmp % 2 ^ 32
high_word v cmp h = omega (
  arith,
  bit_and_mask 32 cmp,
  bit_or_sum 32 (v * 2 ^ 32 % 2 ^ 64) (bit_and cmp 0xFFFFFFFF) (omega arith)
      (omega (arith, bit_and_mask 32 cmp)),
)

low_word :
    (v cmp : ℕ)
    → v < 2 ^ 32
    → bit_or (bit_and cmp 0xFFFFFFFF00000000) v ≡ bit_and (cmp / 2 ^ 32) (2 ^ 32 - 1) * 2 ^ 32 + v
low_word v cmp h =
    let upper = bit_and_shift 32 cmp (2 ^ 32 - 1) in
    omega (arith, upper, bit_or_sum 32 (bit_and cmp 0xFFFFFFFF00000000) v (omega (arith, upper)) h)

module _ (m : MemoryModel Devices) where
  abbrev at : ℕ → MemoryModel Devices
  at cmp = wired (with_devices m (record m.device { mtimecmp = cmp }))

  at-deadline : (cmp : ℕ) → (at cmp).device.mtimecmp ≡ cmp
  unfolding map_devices Memory.map_mmio
  at-deadline cmp = refl

  store_high :
      (cmp v : ℕ)
      → v < 2 ^ 32
      → (Memory.write_word (at cmp) 0xF010 v).1 ≡ at (v * 2 ^ 32 + cmp % 2 ^ 32)
  store_high cmp v h =
      ap (λ r. r.1) (mtimecmp_store_high (with_devices m (record m.device { mtimecmp = cmp })) v)
      ∙ unfold mtimecmp_write in ap at (high_word v cmp h)

  store_low :
      (cmp v : ℕ)
      → v < 2 ^ 32
      → (Memory.write_word (at cmp) 0xF00C v).1
        ≡ at (bit_and (cmp / 2 ^ 32) (2 ^ 32 - 1) * 2 ^ 32 + v)
  store_low cmp v h =
      ap (λ r. r.1) (mtimecmp_store_low (with_devices m (record m.device { mtimecmp = cmp })) v)
      ∙ unfold mtimecmp_write in ap at (low_word v cmp h)

  -- While the kernel arms the timer, the deadline is never sooner than both the old and the new
  -- one: after the first store it is not before the old one, after the second not before the new
  -- one, and after the third it is the new one, with the time, what was sent, and the memory as
  -- before.
  pub clint_mtimecmp_write_lem :
      (val : ℕ)
      → m.device.mtimecmp < 2 ^ 64
      → val < 2 ^ 64
      → let stored = λ (n : ℕ). store_all (take n (clint_mtimecmp_write val)) (wired m) in
        (m.device.mtimecmp ≤ (stored 1).device.mtimecmp)
        × (val ≤ (stored 2).device.mtimecmp)
        × (stored 3 ≡ wired (with_devices m (record m.device { mtimecmp = val })))
  unfolding clint_mtimecmp_write
  clint_mtimecmp_write_lem val c h =
      let cmp = m.device.mtimecmp in
      let one = (2 ^ 32 - 1) * 2 ^ 32 + cmp % 2 ^ 32 in
      let top = bit_and_mask 32 (one / 2 ^ 32) in
      let two = bit_and (one / 2 ^ 32) (2 ^ 32 - 1) * 2 ^ 32 + val % 2 ^ 32 in
      let first = store_high cmp (2 ^ 32 - 1) (omega arith) in
      let second = store_low one (val % 2 ^ 32) (omega arith) in
      let third = store_high two (val / 2 ^ 32 % 2 ^ 32) (omega arith) in
      let whole : val / 2 ^ 32 % 2 ^ 32 * 2 ^ 32 + two % 2 ^ 32 ≡ val = omega arith in
      let once =
        ap (λ (x : MemoryModel Devices). (Memory.write_word x 0xF00C (val % 2 ^ 32)).1) first
        ∙ second in
      let twice =
        ap (λ (x : MemoryModel Devices). (Memory.write_word x 0xF010 (val / 2 ^ 32 % 2 ^ 32)).1)
          once
        ∙ third in
      let old = ap (λ (x : MemoryModel Devices). x.device.mtimecmp) first ∙ at-deadline one in
      let new = ap (λ (x : MemoryModel Devices). x.device.mtimecmp) once ∙ at-deadline two in
      (rw old (omega arith), rw new (omega arith), twice ∙ ap at whole)
