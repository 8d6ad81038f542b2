-- ===== src/Tests/Ideal.antt =====
-- rv32i/cache_src/include/ideal_cache.hpp: a run, and the theorem on the eviction at a concrete
-- input.
use xor_os.Base.{ℕ, ◌≡◌, refl, arith, true, false, [], ◌∷◌, none, some}
use xor_os.IdealCache.{
  IdealCache, CacheEntry, KeyAccess, init, load_access_pattern, put, get, contains, find_entry,
}
use xor_os.IdealCache
use xor_os.IdealCache.Eviction.{MakesWay, put-MakesWay}
use xor_os.IdealCache.NextUse.{IsNextAfter}

-- A cache of one entry; key 1 is used at 0 and 10, key 2 at 1 and 5.
abbrev patterns : IdealCache ℕ
patterns = load_access_pattern (load_access_pattern (init 1) 1 (0 ∷ 10 ∷ [])) 2 (1 ∷ 5 ∷ [])

abbrev full : IdealCache ℕ
full = put patterns 1 100 0

abbrev pattern_2 : KeyAccess
pattern_2 = record { accesses = 1 ∷ 5 ∷ []; current_index = 0 }

full-state :
    (find_entry full.entries 2 ≡ none)
    × (full.capacity ≡ 1)
    × (full.size ≡ 1)
    × (full.access_sequence 2 ≡ some pattern_2)
unfolding put init load_access_pattern IdealCache.set_sequence IdealCache.look_ahead
    IdealCache.put_new IdealCache.insert IdealCache.advance IdealCache.upcoming
    IdealCache.first_or_never IdealCache.from_index IdealCache.pass_over find_entry
full-state = (refl, refl, refl, refl)

put-MakesWay_example :
    (next : ℕ) × IsNextAfter 1 (1 ∷ 5 ∷ []) next
    × MakesWay
        (record { key = 2; value = 200; next_use = next })
        full.entries
        (put full 2 200 1).entries
put-MakesWay_example =
    put-MakesWay full 2 1 200 pattern_2 full-state.0 (λ e. let one = full-state.1 in omega arith)
      (let one = full-state.1 in let size = full-state.2 in omega arith) full-state.3
      ((omega arith, tt), (tt, tt)) tt

-- Key 1, used later, makes way for key 2.
replaced : (contains (put full 2 200 1) 1 ≡ false) × (contains (put full 2 200 1) 2 ≡ true)
unfolding put init load_access_pattern IdealCache.set_sequence IdealCache.look_ahead
    IdealCache.put_new IdealCache.insert IdealCache.advance IdealCache.upcoming
    IdealCache.first_or_never IdealCache.from_index IdealCache.pass_over find_entry contains
    IdealCache.replace_furthest IdealCache.furthest IdealCache.erase_entry
replaced = (refl, refl)
