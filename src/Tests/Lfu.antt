-- ===== src/Tests/Lfu.antt =====
-- rv32i/cache_src/include/lfu_cache.hpp: runs, and the theorems on the LFU cache at concrete
-- inputs.
use xor_os.Base.{ℕ, ◌≤◌, ◌≡◌, ◌≢◌, ◌⊎◌, inl, refl, arith, length, List, [], ◌∷◌, none, some}
use xor_os.Outcome.{ok}
use xor_os.LfuCache.{LfuCache, Bucket, find_bucket, get, put, init, run_lfu, remove}
use xor_os.LfuCache
use xor_os.LfuCache.Sound.{IsSound, put-Fine, init-IsSound}
use xor_os.LfuCache.Reads.{get-put}
use xor_os.LfuCache.Run.{run_lfu-returns}
use xor_os.LfuCache.Least.{MindsLeast, EvictsLeast, remove-EvictsLeast}

abbrev elements : List ℕ
elements = 1 ∷ 2 ∷ 1 ∷ 3 ∷ 2 ∷ 1 ∷ []

run_lfu-returns_example : (hits : ℕ) × (run_lfu 2 elements ≡ ok hits) × (hits ≤ length elements)
run_lfu-returns_example = run_lfu-returns 2 elements

-- Two keys, each used once.
abbrev one_key : LfuCache ℕ
one_key = (put (init 2) 7 70).1

abbrev two_keys : LfuCache ℕ
two_keys = (put one_key 8 80).1

one_key-IsSound : IsSound one_key
one_key-IsSound = (put-Fine (init 2) 7 70 (init-IsSound 2)).1

two_keys-IsSound : IsSound two_keys
two_keys-IsSound = (put-Fine one_key 8 80 one_key-IsSound).1

two_keys-capacity : two_keys.capacity ≢ 0
unfolding put init LfuCache.insert_new LfuCache.put_entry
two_keys-capacity e = omega arith

get-put_example :
    let d = (put two_keys 9 90).1 in
    ((get d 9).0 ≡ ok (some 90))
    × ((let key : ℕ = 7 in key ≢ 9) → ((get d 7).0 ≡ (get two_keys 7).0) ⊎ ((get d 7).0 ≡ ok none))
get-put_example = get-put two_keys 9 7 90 two_keys-IsSound two_keys-capacity

abbrev the_bucket : Bucket
the_bucket = record { frequency = 1; keys = 8 ∷ 7 ∷ [] }

two_keys-buckets : two_keys.buckets ≡ the_bucket ∷ []
unfolding put init LfuCache.insert_new LfuCache.push_front LfuCache.find_bucket LfuCache.set_bucket
    LfuCache.put_entry
two_keys-buckets = refl

two_keys-MindsLeast : MindsLeast two_keys
unfolding put init LfuCache.insert_new LfuCache.push_front LfuCache.find_bucket LfuCache.set_bucket
    LfuCache.put_entry
two_keys-MindsLeast = inl (λ f keys e. ground arith)

remove-EvictsLeast_example : EvictsLeast two_keys (remove two_keys).1
remove-EvictsLeast_example =
    remove-EvictsLeast two_keys two_keys-IsSound the_bucket [] two_keys-buckets two_keys-MindsLeast

-- Key 8 was used three times and key 7 twice: `Promote` of 7 leaves `min_frequency_` at 3, and 8
-- goes.
abbrev uses : LfuCache ℕ
uses = (get (get (get two_keys 8).1 8).1 7).1

uses_evicts_8 : ((put uses 9 90).1.data_ 8 ≡ none) × ((put uses 9 90).1.data_ 7 ≡ some 70)
unfolding put get init LfuCache.insert_new LfuCache.push_front LfuCache.find_bucket
    LfuCache.set_bucket LfuCache.promote LfuCache.found LfuCache.leave LfuCache.leave_bucket
    LfuCache.enter LfuCache.frequency_of LfuCache.erase_key LfuCache.erase_at LfuCache.shrink_bucket
    LfuCache.erase_bucket LfuCache.next_least LfuCache.walk_least LfuCache.least_frequency
    LfuCache.remove LfuCache.evict_from LfuCache.victim_frequency LfuCache.last_key
    LfuCache.put_entry LfuCache.erase_entry
uses_evicts_8 = (refl, refl)
