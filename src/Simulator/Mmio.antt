-- ===== src/Simulator/Mmio.antt =====
-- rv32i/src/main.cpp and include/memory_model.hpp: the devices as a program meets them, by loads
-- and stores.
use xor_os.Base.{
  ℕ, ◌+◌, ◌*◌, ◌%◌, ◌^◌, ◌-◌, ◌<◌, ◌≡◌, refl, ap, ◌∙◌, arith, bit_and, bit_or, [], ◌∷◌, ◌++◌,
}
use xor_os.Base.Bits.{bit_and_mask, bit_and_shift, bit_or_sum}
use xor_os.Base.Word.{complement}
use xor_os.Outcome.{ok}
use xor_os.Memory
use xor_os.Memory.{MemoryModel, find_mmio, merge, word_addr, byte_shift}
use xor_os.Simulator.{
  Devices, map_devices, mtimecmp_read, mtimecmp_write, mtime_read, uart_read, uart_write,
}

-- The two halves of `mtimecmp` after the two stores.
halves :
    (cmp lo hi : ℕ)
    → cmp < 2 ^ 64
    → lo < 2 ^ 32
    → hi < 2 ^ 32
    → bit_or
        (hi * 2 ^ 32 % 2 ^ 64)
        (bit_and (bit_or (bit_and cmp 0xFFFFFFFF00000000) lo) 0xFFFFFFFF)
      ≡ hi * 2 ^ 32 + lo
halves cmp lo hi c l h =
    let upper = bit_and cmp 0xFFFFFFFF00000000 in
    let kept : upper % 2 ^ 32 ≡ 0 = omega (arith, bit_and_shift 32 cmp (2 ^ 32 - 1)) in
    let low : bit_and (bit_or upper lo) 0xFFFFFFFF ≡ lo =
      omega (arith, bit_and_mask 32 (bit_or upper lo), bit_or_sum 32 upper lo kept l) in
    rw low (omega (arith, bit_or_sum 32 (hi * 2 ^ 32 % 2 ^ 64) lo (omega arith) l))

-- A part of a word of the UART, which is read as 0, after the store.
sent_part : (v : ℕ) → v < 2 ^ 16 → bit_and (bit_or 0 (v * 1 % 2 ^ 32)) 0xFF ≡ v % 256
sent_part v h =
    omega (arith, bit_and_mask 8 (bit_or 0 (v * 1 % 2 ^ 32)), bit_or_sum 32 0 (v * 1 % 2 ^ 32))

-- A memory to which only the devices are mapped.
abbrev pub wired : MemoryModel Devices → MemoryModel Devices
wired m = map_devices (record m { mmio = [] })

-- The memory with another device state.
abbrev pub with_devices : MemoryModel Devices → Devices → MemoryModel Devices
with_devices m d = record m { device = d }

module _ (m : MemoryModel Devices) where
  pub mtimecmp_store_low :
      (v : ℕ)
      → Memory.write_word (wired m) 0xF00C v
        ≡ (ok tt, wired (with_devices m (mtimecmp_write m.device 0xF00C v)))
  unfolding Memory.write_word find_mmio map_devices Memory.map_mmio
  mtimecmp_store_low v = refl

  pub mtimecmp_store_high :
      (v : ℕ)
      → Memory.write_word (wired m) 0xF010 v
        ≡ (ok tt, wired (with_devices m (mtimecmp_write m.device 0xF010 v)))
  unfolding Memory.write_word find_mmio map_devices Memory.map_mmio
  mtimecmp_store_high v = refl

  load_device :
      (Memory.read_word (wired m) 0xF004 ≡ ok (mtime_read m.device 0xF004))
      × (Memory.read_word (wired m) 0xF008 ≡ ok (mtime_read m.device 0xF008))
      × (Memory.read_word (wired m) 0xF00C ≡ ok (mtimecmp_read m.device 0xF00C))
      × (Memory.read_word (wired m) 0xF010 ≡ ok (mtimecmp_read m.device 0xF010))
  unfolding Memory.read_word find_mmio map_devices Memory.map_mmio
  load_device = (refl, refl, refl, refl)

module _ (m : MemoryModel Devices) where
  -- The memory after stores of the two words of `mtimecmp`, the lower one first.
  abbrev pub compared : ℕ → ℕ → MemoryModel Devices
  compared lo hi = (Memory.write_word (Memory.write_word (wired m) 0xF00C lo).1 0xF010 hi).1

  compared_lem :
      (lo hi : ℕ)
      → m.device.mtimecmp < 2 ^ 64
      → lo < 2 ^ 32
      → hi < 2 ^ 32
      → compared lo hi ≡ wired (with_devices m (record m.device { mtimecmp = hi * 2 ^ 32 + lo }))
  compared_lem lo hi c l h =
      let d = mtimecmp_write m.device 0xF00C lo in
      let first = ap (λ r. (Memory.write_word r.1 0xF010 hi).1) (mtimecmp_store_low m lo) in
      let second = ap (λ r. r.1) (mtimecmp_store_high (with_devices m d) hi) in
      first
      ∙ second
      ∙ unfold mtimecmp_write in
        ap (λ (n : ℕ). wired (with_devices m (record m.device { mtimecmp = n })))
          (halves m.device.mtimecmp lo hi c l h)

  -- A program that stores the two words of a deadline at `mtimecmp`, the lower one first, sets it,
  -- and reads the words back; the time, what was sent, and the memory are as before.
  pub mtimecmp_lem :
      (lo hi : ℕ)
      → m.device.mtimecmp < 2 ^ 64
      → lo < 2 ^ 32
      → hi < 2 ^ 32
      → let m' = compared lo hi in
        (m'.device.mtimecmp ≡ hi * 2 ^ 32 + lo)
        × (Memory.read_word m' 0xF00C ≡ ok lo)
        × (Memory.read_word m' 0xF010 ≡ ok hi)
        × (m'.device.mtime ≡ m.device.mtime)
        × (m'.device.output ≡ m.device.output)
        × (m'.bytes ≡ m.bytes)
  mtimecmp_lem lo hi c l h =
      let d : Devices = record m.device { mtimecmp = hi * 2 ^ 32 + lo } in
      let loads = load_device (with_devices m d) in
      let low : mtimecmp_read d 0xF00C ≡ lo = unfold mtimecmp_read in omega arith in
      let high : mtimecmp_read d 0xF010 ≡ hi = unfold mtimecmp_read in omega arith in
      rw (compared_lem lo hi c l h) (
        unfold map_devices Memory.map_mmio in refl,
        loads.2 ∙ ap ok low,
        loads.3 ∙ ap ok high,
        unfold map_devices Memory.map_mmio in refl,
        unfold map_devices Memory.map_mmio in refl,
        unfold map_devices Memory.map_mmio in refl,
      )

  -- A store of any width at the UART sends the low byte of the value, and changes nothing else.
  uart_lem :
      (v : ℕ)
      → v < 2 ^ 32
      → let sent =
          wired (with_devices m (record m.device { output = m.device.output ++ (v % 256 ∷ []) })) in
        (Memory.write_byte (wired m) 0xF000 (v % 2 ^ 8) ≡ (ok tt, sent))
        × (Memory.write_half (wired m) 0xF000 (v % 2 ^ 16) ≡ (ok tt, sent))
        × (Memory.write_word (wired m) 0xF000 v ≡ (ok tt, sent))
  unfolding Memory.write_byte Memory.write_half Memory.write_word find_mmio map_devices
      Memory.map_mmio uart_write uart_read merge complement word_addr byte_shift Memory.half_shift
  uart_lem v h =
      let send = λ (n : ℕ).
        wired (with_devices m (record m.device { output = m.device.output ++ (n ∷ []) })) in
      let low = bit_and_mask 8 v in
      (
        ap (λ n. (ok tt, send n)) (sent_part (v % 2 ^ 8) (omega arith) ∙ omega arith),
        ap (λ n. (ok tt, send n)) (sent_part (v % 2 ^ 16) (omega arith) ∙ omega arith),
        ap (λ n. (ok tt, send n)) low,
      )
