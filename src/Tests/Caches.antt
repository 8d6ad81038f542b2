-- ===== src/Tests/Caches.antt =====
-- rv32i/cache_src: the theorems on the caches at concrete inputs.
use xor_os.Base.{◌≡◌, refl, arith, [], ◌∷◌, length}
use xor_os.Outcome.{ok}
use xor_os.Memory
use xor_os.Memory.{MemoryModel}
use xor_os.RvModel.State.{Cpu, new}
use xor_os.RvModel.Step.{step}
use xor_os.RvModel.Plain.{memory_ops}
use xor_os.RvModel.Plain.Laws.{init-IsPlain, write_word-IsPlain}
use xor_os.Cache
use xor_os.Cache.{CacheModel, fetch_word, cache_ops, size}
use xor_os.Cache.Coherent.{IsWhole, init-IsCoherent}
use xor_os.Cache.Machine.{EndAlike, step-cache_ops}
use xor_os.Cache.Order.{tags, touch, lru_order}
use xor_os.Cache.Bounds.{Bounded, size-le_capacity}

-- A store of x1 to address 4, at address 8.
abbrev ram : MemoryModel (Unit {0})
ram = (Memory.write_word (Memory.init 64 tt) 8 0x00102223).1

ram-length : length ram.bytes ≡ 64
unfolding Memory.init Memory.write_word Memory.find_mmio Memory.in_bounds
ram-length = refl

ram-IsWhole : IsWhole ram
ram-IsWhole = record {
  plain = write_word-IsPlain _ (init-IsPlain 64 tt) 8 0x00102223;
  words = omega (arith, ram-length);
  small = omega (arith, ram-length);
}

abbrev cache : CacheModel (Unit {0})
cache = Cache.init ram 2

abbrev cpu : Cpu
cpu = record (new (record { extensions = 3 })) { pc = 8 }

step-cache_ops_example :
    EndAlike
      (step cache_ops (record { cpu = cpu; mem = cache }))
      (step memory_ops (record { cpu = cpu; mem = cache.backing }))
step-cache_ops_example =
    step-cache_ops cpu cache (init-IsCoherent ram 2 ram-IsWhole (omega arith)) (omega arith)

-- The cache after reads of the words at 8, 4 and 8.
abbrev used : CacheModel (Unit {0})
used = (fetch_word (fetch_word (fetch_word cache 8).1 4).1 8).1

used-tags : tags used.lru ≡ 8 ∷ 4 ∷ []
unfolding Cache.init fetch_word Cache.find_line Cache.splice Cache.erase_line Cache.make_room
    Cache.fill Cache.keep_word Memory.read_word Memory.init Memory.write_word Memory.find_mmio
    Memory.in_bounds
used-tags = refl

used-Bounded : Bounded 2 used
unfolding size Cache.init fetch_word Cache.find_line Cache.splice Cache.erase_line Cache.make_room
    Cache.fill Cache.keep_word Memory.read_word Memory.init Memory.write_word Memory.find_mmio
    Memory.in_bounds
used-Bounded = (refl, omega arith)

used-read : (fetch_word used 12).0 ≡ ok 0
unfolding Cache.init fetch_word Cache.find_line Cache.splice Cache.erase_line Cache.make_room
    Cache.fill Cache.keep_word Cache.evict Memory.read_word Memory.init Memory.write_word
    Memory.find_mmio Memory.in_bounds
used-read = refl

lru_order_example : tags (fetch_word used 12).1.lru ≡ touch used.capacity (tags used.lru) 12
lru_order_example =
    lru_order used 12 0 (omega (arith, used-Bounded.0))
      (let le = used-Bounded.1 in unfold size in omega (arith, used-Bounded.0)) used-read

size-le_capacity_example :
    Bounded 2 (Cache.read_byte used 13).1
    × Bounded 2 (Cache.read_half used 13).1
    × Bounded 2 (Cache.read_word used 13).1
    × Bounded 2 (Cache.write_byte used 13 7).1
    × Bounded 2 (Cache.write_half used 13 7).1
    × Bounded 2 (Cache.write_word used 13 7).1
    × Bounded 2 (Cache.store_conditional used 13 7).1
size-le_capacity_example = size-le_capacity 2 (omega arith) used 13 7 used-Bounded
