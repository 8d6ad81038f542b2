-- ===== src/Memory.antt =====
-- rv32i/include/memory_model.hpp: `MemoryModel<32>`. The MMIO handlers are the caller's closures:
-- they read and write one device state `D`. `dump` and the texts of the exceptions only print.
-- The memory has at most 2 ^ 32 bytes, so that `addr + 1` and the like do not wrap within it.
pub mod Bytes
pub mod Access
pub mod Reservation
pub mod Program
use xor_os.Base.{
  ℕ, zero, suc, ◌+◌, ◌*◌, ◌/◌, ◌%◌, ◌^◌, bit_and, bit_or, Bool, true, false, not, ◌&&◌, ◌||◌, ltb,
  leb, ◌==◌, if◌then◌else◌, List, [], ◌∷◌, ◌++◌, Option, none, some, length, get_or, replicate,
}
use xor_os.Base.{set as set_elem}
use xor_os.Base.Word.{rv32, complement, shl, shr}
use xor_os.Outcome.{Outcome, ok, fail, out_of_range}

pub record MmioRegion (D : Type 0) : Type 0 where
  pub base : ℕ
  pub end : ℕ
  pub on_read : D → ℕ → ℕ
  pub on_write : D → ℕ → ℕ → D

pub record MemoryModel (D : Type 0) : Type 0 where
  pub bytes : List ℕ
  pub mmio : List (MmioRegion D)
  pub device : D
  pub lr_addr : ℕ
  pub lr_valid : Bool

-- `addr & ~Addr(3)`
unfoldable pub word_addr : ℕ → ℕ
word_addr addr = bit_and addr (complement rv32 3)

-- The bit position of the byte, or of the half, of a device word.
unfoldable pub byte_shift : ℕ → ℕ
byte_shift addr = bit_and addr 3 * 8

unfoldable pub half_shift : ℕ → ℕ
half_shift addr = bit_and addr 2 * 8

-- `(w & ~(mask << shift)) | (val << shift)`
unfoldable pub merge : ℕ → ℕ → ℕ → ℕ → ℕ
merge w mask val shift =
    bit_or (bit_and w (complement rv32 (shl rv32 mask shift))) (shl rv32 val shift)

module _ {D : Type 0} where
  -- `MemoryModel(size)`, with the devices that its MMIO handlers will use.
  unfoldable pub init : ℕ → D → MemoryModel D
  init size device = record {
    bytes = replicate size 0;
    mmio = [];
    device = device;
    lr_addr = 0;
    lr_valid = false;
  }

  unfoldable pub map_mmio : MemoryModel D → ℕ → ℕ → (D → ℕ → ℕ) → (D → ℕ → ℕ → D) → MemoryModel D
  map_mmio m base size on_read on_write =
      let region =
        let r : MmioRegion D = record {
          base = base;
          end = (base + size) % 2 ^ 32;
          on_read = on_read;
          on_write = on_write;
        } in
        r in
      record m { mmio = m.mmio ++ (region ∷ []) }

  unfoldable pub find_mmio : List (MmioRegion D) → ℕ → Option (MmioRegion D)
  find_mmio [] addr = none
  find_mmio (r ∷ rs) addr = if leb r.base addr && ltb addr r.end then some r else find_mmio rs addr

  -- `checkBounds` passes.
  unfoldable pub in_bounds : MemoryModel D → ℕ → ℕ → Bool
  in_bounds m addr w = leb (addr + w) (length m.bytes)

  abbrev pub byte_at : MemoryModel D → ℕ → ℕ
  byte_at m addr = get_or m.bytes addr 0

  abbrev pub put_byte : MemoryModel D → ℕ → ℕ → MemoryModel D
  put_byte m addr val = record m { bytes = set_elem m.bytes addr val }

  unfoldable pub read_byte : MemoryModel D → ℕ → Outcome ℕ
  read_byte m addr = elim (find_mmio m.mmio addr) [
    | some r ↦
        let w = r.on_read m.device (word_addr addr) in ok (bit_and (shr w (byte_shift addr)) 0xFF)
    | none ↦ if in_bounds m addr 1 then ok (byte_at m addr) else fail out_of_range
  ]

  unfoldable pub read_half : MemoryModel D → ℕ → Outcome ℕ
  read_half m addr = elim (find_mmio m.mmio addr) [
    | some r ↦
        let w = r.on_read m.device (word_addr addr) in ok (bit_and (shr w (half_shift addr)) 0xFFFF)
    | none ↦
        if in_bounds m addr 2
        then ok (bit_or (byte_at m addr) (byte_at m (addr + 1) * 2 ^ 8))
        else fail out_of_range
  ]

  unfoldable pub read_word : MemoryModel D → ℕ → Outcome ℕ
  read_word m addr = elim (find_mmio m.mmio addr) [
    | some r ↦ ok (r.on_read m.device addr)
    | none ↦
        if in_bounds m addr 4
        then ok (
            bit_or
              (bit_or (bit_or (byte_at m addr) (shl rv32 (byte_at m (addr + 1)) 8))
                (shl rv32 (byte_at m (addr + 2)) 16))
              (shl rv32 (byte_at m (addr + 3)) 24))
        else fail out_of_range
  ]

  abbrev pub device_write : MemoryModel D → MmioRegion D → ℕ → ℕ → MemoryModel D
  device_write m r addr w = record m { device = r.on_write m.device addr w }

  -- The three `write`s. An exception leaves the memory as it is.
  unfoldable pub write_byte : MemoryModel D → ℕ → ℕ → Outcome (Unit {0}) × MemoryModel D
  write_byte m addr val = elim (find_mmio m.mmio addr) [
    | some r ↦
        let w = r.on_read m.device (word_addr addr) in
        (ok tt, device_write m r (word_addr addr) (merge w 0xFF val (byte_shift addr)))
    | none ↦ if in_bounds m addr 1 then (ok tt, put_byte m addr val) else (fail out_of_range, m)
  ]

  unfoldable pub write_half : MemoryModel D → ℕ → ℕ → Outcome (Unit {0}) × MemoryModel D
  write_half m addr val = elim (find_mmio m.mmio addr) [
    | some r ↦
        let w = r.on_read m.device (word_addr addr) in
        (ok tt, device_write m r (word_addr addr) (merge w 0xFFFF val (half_shift addr)))
    | none ↦
        if in_bounds m addr 2
        then (
          ok tt,
          put_byte (put_byte m addr (bit_and val 0xFF)) (addr + 1) (bit_and (shr val 8) 0xFF),
        )
        else (fail out_of_range, m)
  ]

  unfoldable pub write_word : MemoryModel D → ℕ → ℕ → Outcome (Unit {0}) × MemoryModel D
  write_word m addr val = elim (find_mmio m.mmio addr) [
    | some r ↦ (ok tt, device_write m r addr val)
    | none ↦
        if in_bounds m addr 4
        then (
          ok tt,
          put_byte
              (put_byte
                (put_byte (put_byte m addr (bit_and val 0xFF)) (addr + 1)
                  (bit_and (shr val 8) 0xFF))
                (addr + 2) (bit_and (shr val 16) 0xFF))
              (addr + 3) (bit_and (shr val 24) 0xFF),
        )
        else (fail out_of_range, m)
  ]

  -- `std::copy` to `data_.begin() + base`.
  unfoldable pub copy_bytes : MemoryModel D → List ℕ → ℕ → MemoryModel D
  copy_bytes m [] base = m
  copy_bytes m (b ∷ program) base = copy_bytes (put_byte m base b) program (base + 1)

  unfoldable pub load_program : MemoryModel D → List ℕ → ℕ → Outcome (Unit {0}) × MemoryModel D
  load_program m program base =
      if ltb (length m.bytes) (base + length program)
      then (fail out_of_range, m)
      else (ok tt, copy_bytes m program base)

  unfoldable pub size : MemoryModel D → ℕ
  size m = length m.bytes

  unfoldable pub reserve_load : MemoryModel D → ℕ → MemoryModel D
  reserve_load m addr = record m { lr_addr = addr; lr_valid = true }

  unfoldable pub invalidate_reservation : MemoryModel D → MemoryModel D
  invalidate_reservation m = record m { lr_valid = false }

  -- The outcome of `storeConditional` after its write.
  abbrev pub stored : Outcome (Unit {0}) × MemoryModel D → Outcome Bool × MemoryModel D
  stored (ok done, m) = (ok true, m)
  stored (fail e, m) = (fail e, m)

  unfoldable pub store_conditional : MemoryModel D → ℕ → ℕ → Outcome Bool × MemoryModel D
  store_conditional m addr val =
      if not m.lr_valid || not (m.lr_addr == addr)
      then (ok false, m)
      else stored (write_word (record m { lr_valid = false }) addr val)
