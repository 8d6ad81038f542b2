-- ===== src/Cache.antt =====
-- rv32i/cache_src/include/cache_model.hpp: `CacheModel<32>`, a cache of words with LRU eviction
-- over a `MemoryModel`. The entries of the hash map `index_` are the tags of the list `lru_`, each
-- with the place of its line, so `index_.find` is a search of the list and `index_.size()` its
-- length. What happened before an exception stays done. `hitRate` is for reports only.
pub mod Lines
pub mod Merge
pub mod Words
pub mod Coherent
pub mod Writes
pub mod Reads
pub mod Stores
pub mod Order
pub mod Bounds
pub mod Machine
use xor_os.Base.{
  ℕ, ◌+◌, ◌*◌, ◌%◌, ◌^◌, bit_and, bit_or, Bool, true, false, leb, ◌==◌, if◌then◌else◌, List, [],
  ◌∷◌, Option, none, some, length, drop_last,
}
use xor_os.Base.Word.{rv32, complement, shl, shr}
use xor_os.Outcome.{Outcome, ok, fail, undefined_behaviour}
use xor_os.Memory
use xor_os.Memory.{MemoryModel, word_addr, byte_shift}
use xor_os.RvModel.Monad.{MemT}

pub record Line : Type 0 where
  pub tag : ℕ
  pub value : ℕ

pub record CacheModel (D : Type 0) : Type 0 where
  pub backing : MemoryModel D
  pub capacity : ℕ
  pub hits : ℕ
  pub misses : ℕ
  pub lru : List Line

-- `index_.find(tag)`
unfoldable pub find_line : List Line → ℕ → Option Line
find_line [] tag = none
find_line (l ∷ lines) tag = if l.tag == tag then some l else find_line lines tag

-- The list without the line of the tag.
unfoldable pub erase_line : List Line → ℕ → List Line
erase_line [] tag = []
erase_line (l ∷ lines) tag =
    let rest = erase_line lines tag in if l.tag == tag then lines else l ∷ rest

-- `it->second->value = val`
unfoldable pub set_value : List Line → ℕ → ℕ → List Line
set_value [] tag val = []
set_value (l ∷ lines) tag val =
    let rest = set_value lines tag val in
    let line : Line = record { tag = l.tag; value = val } in
    if l.tag == tag then line ∷ lines else l ∷ rest

-- `lru_.splice(lru_.begin(), lru_, it->second)`, of the line that was found.
unfoldable pub splice : List Line → Line → List Line
splice lines l = l ∷ erase_line lines l.tag

-- `(value & ~(mask << shift)) | ((val & mask) << shift)`
unfoldable pub patch : ℕ → ℕ → ℕ → ℕ → ℕ
patch value mask val shift =
    bit_or (bit_and value (complement rv32 (shl rv32 mask shift)))
      (shl rv32 (bit_and val mask) shift)

module _ {D : Type 0} where
  -- `CacheModel(backing, capacity)`
  unfoldable pub init : MemoryModel D → ℕ → CacheModel D
  init backing capacity = record {
    backing = backing;
    capacity = capacity;
    hits = 0;
    misses = 0;
    lru = [];
  }

  -- The eviction of `fetchWord`.
  unfoldable pub evict : CacheModel D → Outcome (Unit {0}) × CacheModel D
  evict c = elim c.lru [
    | [] ↦ (fail undefined_behaviour, c)
    | l ∷ lines ↦ (ok tt, record c { lru = drop_last (l ∷ lines) })
  ]

  unfoldable pub make_room : CacheModel D → Outcome (Unit {0}) × CacheModel D
  make_room c = if leb c.capacity (length c.lru) then evict c else (ok tt, c)

  -- The word that the backing memory gave becomes the first line.
  unfoldable pub keep_word : CacheModel D → ℕ → Outcome ℕ → Outcome ℕ × CacheModel D
  keep_word c addr (ok val) =
      let line : Line = record { tag = addr; value = val } in
      (ok val, record c { lru = line ∷ c.lru })
  keep_word c addr (fail e) = (fail e, c)

  unfoldable pub fill : ℕ → Outcome (Unit {0}) × CacheModel D → Outcome ℕ × CacheModel D
  fill addr (ok done, c) = keep_word c addr (Memory.read_word c.backing addr)
  fill addr (fail e, c) = (fail e, c)

  unfoldable pub fetch_word : CacheModel D → ℕ → Outcome ℕ × CacheModel D
  fetch_word c addr = elim (find_line c.lru addr) [
    | some l ↦ (ok l.value, record c { lru = splice c.lru l; hits = (c.hits + 1) % 2 ^ 64 })
    | none ↦ fill addr (make_room (record c { misses = (c.misses + 1) % 2 ^ 64 }))
  ]

  -- A part of the word that was fetched.
  unfoldable pub part : (ℕ → ℕ) → Outcome ℕ × CacheModel D → Outcome ℕ × CacheModel D
  part f (ok w, c) = (ok (f w), c)
  part f (fail e, c) = (fail e, c)

  unfoldable pub read_byte : CacheModel D → ℕ → Outcome ℕ × CacheModel D
  read_byte c addr =
      part (λ w. bit_and (shr w (byte_shift addr)) 0xFF) (fetch_word c (word_addr addr))

  unfoldable pub read_half : CacheModel D → ℕ → Outcome ℕ × CacheModel D
  read_half c addr =
      part (λ w. bit_and (shr w (byte_shift addr)) 0xFFFF) (fetch_word c (word_addr addr))

  unfoldable pub read_word : CacheModel D → ℕ → Outcome ℕ × CacheModel D
  read_word c addr = fetch_word c addr

  -- `patchCached`, with the mask of the width and the shift of the offset.
  unfoldable pub patch_cached : CacheModel D → ℕ → ℕ → ℕ → ℕ → CacheModel D
  patch_cached c addr shift mask val = elim (find_line c.lru addr) [
    | none ↦ c
    | some l ↦
        let line : Line = record { tag = l.tag; value = patch l.value mask val shift } in
        record c { lru = splice c.lru line }
  ]

  -- The line of a word that was written.
  unfoldable pub write_line : CacheModel D → ℕ → ℕ → CacheModel D
  write_line c addr val = elim (find_line c.lru addr) [
    | none ↦ c
    | some l ↦
        let line : Line = record { tag = l.tag; value = val } in
        record c { lru = splice c.lru line }
  ]

  -- What follows a write to the backing memory, unless it threw.
  unfoldable pub after_write :
      CacheModel D
      → (CacheModel D → CacheModel D)
      → Outcome (Unit {0}) × MemoryModel D
      → Outcome (Unit {0}) × CacheModel D
  after_write c f (ok done, m) = (ok tt, f (record c { backing = m }))
  after_write c f (fail e, m) = (fail e, record c { backing = m })

  unfoldable pub write_byte : CacheModel D → ℕ → ℕ → Outcome (Unit {0}) × CacheModel D
  write_byte c addr val =
      after_write c (λ d. patch_cached d (word_addr addr) (byte_shift addr) 0xFF val)
        (Memory.write_byte c.backing addr val)

  unfoldable pub write_half : CacheModel D → ℕ → ℕ → Outcome (Unit {0}) × CacheModel D
  write_half c addr val =
      after_write c (λ d. patch_cached d (word_addr addr) (byte_shift addr) 0xFFFF val)
        (Memory.write_half c.backing addr val)

  unfoldable pub write_word : CacheModel D → ℕ → ℕ → Outcome (Unit {0}) × CacheModel D
  write_word c addr val =
      after_write c (λ d. write_line d addr val) (Memory.write_word c.backing addr val)

  -- No line is changed.
  unfoldable pub load_program : CacheModel D → List ℕ → ℕ → Outcome (Unit {0}) × CacheModel D
  load_program c program base = after_write c (λ d. d) (Memory.load_program c.backing program base)

  unfoldable pub reserve_load : CacheModel D → ℕ → CacheModel D
  reserve_load c addr = record c { backing = Memory.reserve_load c.backing addr }

  unfoldable pub invalidate_reservation : CacheModel D → CacheModel D
  invalidate_reservation c = record c { backing = Memory.invalidate_reservation c.backing }

  -- What follows `storeConditional` on the backing memory.
  unfoldable pub after_store :
      CacheModel D → ℕ → ℕ → Outcome Bool × MemoryModel D → Outcome Bool × CacheModel D
  after_store c addr val (ok true, m) =
      (ok true, record c { backing = m; lru = set_value c.lru (word_addr addr) val })
  after_store c addr val (ok false, m) = (ok false, record c { backing = m })
  after_store c addr val (fail e, m) = (fail e, record c { backing = m })

  unfoldable pub store_conditional : CacheModel D → ℕ → ℕ → Outcome Bool × CacheModel D
  store_conditional c addr val =
      after_store c addr val (Memory.store_conditional c.backing addr val)

  unfoldable pub accesses : CacheModel D → ℕ
  accesses c = (c.hits + c.misses) % 2 ^ 64

  unfoldable pub size : CacheModel D → ℕ
  size c = length c.lru

  -- The CPU over the cache.
  unfoldable pub cache_ops : MemT (CacheModel D)
  cache_ops = record {
    read_byte = read_byte;
    read_half = read_half;
    read_word = read_word;
    write_byte = write_byte;
    write_half = write_half;
    write_word = write_word;
    reserve_load = reserve_load;
    store_conditional = store_conditional;
    invalidate_reservation = invalidate_reservation;
  }
