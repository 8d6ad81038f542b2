-- ===== src/LfuCache.antt =====
-- rv32i/cache_src/include/lfu_cache.hpp: `LfuCache`, and `RunLfu` of
-- rv32i/cache_src/src/lfu_cache.cpp. Keys are only compared: here they are numbers. The maps of
-- data and frequencies are functions; the map of buckets, which the code also walks, is a list of
-- entries in some order. An iterator of `iterator_map_` is kept as the frequency of the bucket in
-- whose list it was taken; it points at its key there. To erase by an iterator that is missing, of
-- another bucket or of a key that is no longer in the bucket is undefined. `DumpCache` only prints.
pub mod Reads
pub mod Buckets
pub mod Linked
pub mod Sound
pub mod Least
pub mod Run
use xor_os.Base.{
  ℕ, zero, suc, ◌+◌, ◌-◌, ◌%◌, ◌^◌, Bool, true, false, ltb, leb, ◌==◌, if◌then◌else◌, List, [], ◌∷◌,
  Option, none, some, drop_last,
}
use xor_os.Outcome.{Outcome, ok, fail, undefined_behaviour}

-- An `unordered_map`, and its entry set or erased.
abbrev pub Map : Type 0 → Type 0
Map V = ℕ → Option V

unfoldable pub put_entry : {V : Type 0} → Map V → ℕ → V → Map V
put_entry m k v = λ j. if k == j then some v else m j

unfoldable pub erase_entry : {V : Type 0} → Map V → ℕ → Map V
erase_entry m k = λ j. if k == j then none else m j

-- The keys of one frequency, the last used one first.
pub record Bucket : Type 0 where
  pub frequency : ℕ
  pub keys : List ℕ

pub record LfuCache (V : Type 0) : Type 0 where
  pub data_ : Map V
  pub frequency : Map ℕ
  pub iterators : Map ℕ
  pub buckets : List Bucket
  pub capacity : ℕ
  pub size : ℕ
  pub min_frequency : ℕ

-- `frequency_buckets_.find(f)`
unfoldable pub find_bucket : List Bucket → ℕ → Option (List ℕ)
find_bucket [] f = none
find_bucket (b ∷ bs) f = if b.frequency == f then some b.keys else find_bucket bs f

-- The bucket of `f` is `keys` from now on.
unfoldable pub set_bucket : List Bucket → ℕ → List ℕ → List Bucket
set_bucket [] f keys = let b : Bucket = record { frequency = f; keys = keys } in b ∷ []
set_bucket (b ∷ bs) f keys =
    let rest = set_bucket bs f keys in
    let new : Bucket = record { frequency = f; keys = keys } in
    if b.frequency == f then new ∷ bs else b ∷ rest

-- `frequency_buckets_.erase(f)`
unfoldable pub erase_bucket : List Bucket → ℕ → List Bucket
erase_bucket [] f = []
erase_bucket (b ∷ bs) f =
    let rest = erase_bucket bs f in if b.frequency == f then rest else b ∷ rest

-- `frequency_buckets_[f].push_front(key)`
unfoldable pub push_front : List Bucket → ℕ → ℕ → List Bucket
push_front bs f key = elim (find_bucket bs f) [
  | none ↦ set_bucket bs f (key ∷ [])
  | some keys ↦ set_bucket bs f (key ∷ keys)
]

-- The least frequency of a bucket, from `least` on.
unfoldable pub least_frequency : ℕ → List Bucket → ℕ
least_frequency least [] = least
least_frequency least (b ∷ bs) =
    least_frequency (if ltb b.frequency least then b.frequency else least) bs

-- A bucket that lost a key stays, or goes if it is empty.
unfoldable pub shrink_bucket : List Bucket → ℕ → List ℕ → List Bucket
shrink_bucket bs f [] = erase_bucket bs f
shrink_bucket bs f (k ∷ keys) = set_bucket bs f (k ∷ keys)

-- A key erased from the list of a bucket; none where the key is not in it.
unfoldable pub erase_key : List ℕ → ℕ → Option (List ℕ)
erase_key [] key = none
erase_key (k ∷ keys) key =
    let rest = erase_key keys key in
    if k == key then some keys else elim rest [ none ↦ none | some ks ↦ some (k ∷ ks) ]

-- `old_bucket.erase(iterator_map_[key])` on the bucket `f`, with the iterator of the key.
unfoldable pub erase_at : Option ℕ → ℕ → List ℕ → ℕ → Option (List ℕ)
erase_at none f keys key = none
erase_at (some g) f keys key = let rest = erase_key keys key in if g == f then rest else none

-- `min_bucket.back()`
unfoldable pub last_key : ℕ → List ℕ → ℕ
last_key k [] = k
last_key k (j ∷ keys) = last_key j keys

-- The least frequency of a walk over the buckets, from the first one.
unfoldable pub walk_least : ℕ → List Bucket → ℕ
walk_least empty [] = empty
walk_least empty (b ∷ bs) = least_frequency b.frequency (b ∷ bs)

-- What `Promote` makes of the least frequency, after the key has left its bucket `f`.
unfoldable pub next_least : ℕ → ℕ → List Bucket → List ℕ → ℕ
next_least least f bs [] = if f == least then walk_least 1 bs else least
next_least least f bs (k ∷ keys) = least

module _ {V : Type 0} where
  -- `LfuCache(capacity)`
  unfoldable pub init : ℕ → LfuCache V
  init capacity = record {
    data_ = λ k. none;
    frequency = λ k. none;
    iterators = λ k. none;
    buckets = [];
    capacity = capacity;
    size = 0;
    min_frequency = 0;
  }

  -- The bucket of the least frequency: the one that was kept in mind or, if that is gone, of the
  -- least one there is.
  unfoldable pub victim_frequency : LfuCache V → ℕ
  victim_frequency c = elim (find_bucket c.buckets c.min_frequency) [
    | some keys ↦ c.min_frequency
    | none ↦ walk_least 0 c.buckets
  ]

  -- The end of `Remove`, from the bucket of the frequency `f` on.
  unfoldable pub evict_from : LfuCache V → ℕ → Option (List ℕ) → Outcome (Unit {0}) × LfuCache V
  evict_from c f none = (fail undefined_behaviour, c)
  evict_from c f (some []) = (fail undefined_behaviour, c)
  evict_from c f (some (k ∷ keys)) =
      let victim = last_key k keys in
      (
        ok tt,
        record c {
          data_ = erase_entry c.data_ victim;
          frequency = erase_entry c.frequency victim;
          iterators = erase_entry c.iterators victim;
          buckets = shrink_bucket c.buckets f (drop_last (k ∷ keys));
          size = (c.size + 2 ^ 64 - 1) % 2 ^ 64;
          min_frequency = f;
        },
      )

  unfoldable pub remove : LfuCache V → Outcome (Unit {0}) × LfuCache V
  remove c = elim c.buckets [
    | [] ↦ (ok tt, c)
    | b ∷ bs ↦ let f = victim_frequency c in evict_from c f (find_bucket c.buckets f)
  ]

  -- The old bucket of `Promote` without the key.
  unfoldable pub leave_bucket : LfuCache V → ℕ → Option (List ℕ) → Outcome (Unit {0}) × LfuCache V
  leave_bucket c f none = (fail undefined_behaviour, c)
  leave_bucket c f (some keys) =
      let bs = shrink_bucket c.buckets f keys in
      (ok tt, record c { buckets = bs; min_frequency = next_least c.min_frequency f bs keys })

  unfoldable pub leave : LfuCache V → ℕ → ℕ → Outcome (Unit {0}) × LfuCache V
  leave c key f = elim (find_bucket c.buckets f) [
    | none ↦ (ok tt, c)
    | some keys ↦ leave_bucket c f (erase_at (c.iterators key) f keys key)
  ]

  -- The rest of `Promote`.
  unfoldable pub enter : ℕ → ℕ → Outcome (Unit {0}) × LfuCache V → Outcome (Unit {0}) × LfuCache V
  enter key f (fail e, c) = (fail e, c)
  enter key f (ok done, c) = (
    ok tt,
    record c {
      frequency = put_entry c.frequency key f;
      iterators = put_entry c.iterators key f;
      buckets = push_front c.buckets f key;
    },
  )

  -- `frequency_[key]`: 0 for a key that has none.
  unfoldable pub frequency_of : LfuCache V → ℕ → ℕ
  frequency_of c key = elim (c.frequency key) [ none ↦ 0 | some f ↦ f ]

  unfoldable pub promote : LfuCache V → ℕ → Outcome (Unit {0}) × LfuCache V
  promote c key = let f = frequency_of c key in enter key ((f + 1) % 2 ^ 64) (leave c key f)

  -- The value that `Get` points to, or none for `nullptr`.
  unfoldable pub found : V → Outcome (Unit {0}) × LfuCache V → Outcome (Option V) × LfuCache V
  found v (ok done, c) = (ok (some v), c)
  found v (fail e, c) = (fail e, c)

  unfoldable pub get : LfuCache V → ℕ → Outcome (Option V) × LfuCache V
  get c key = elim (c.data_ key) [ none ↦ (ok none, c) | some v ↦ found v (promote c key) ]

  -- The end of `Put`, for a key that is new.
  unfoldable pub insert_new :
      ℕ → V → Outcome (Unit {0}) × LfuCache V → Outcome (Unit {0}) × LfuCache V
  insert_new key value (fail e, c) = (fail e, c)
  insert_new key value (ok done, c) = (
    ok tt,
    record c {
      data_ = put_entry c.data_ key value;
      frequency = put_entry c.frequency key 1;
      iterators = put_entry c.iterators key 1;
      buckets = push_front c.buckets 1 key;
      min_frequency = 1;
      size = (c.size + 1) % 2 ^ 64;
    },
  )

  unfoldable pub put : LfuCache V → ℕ → V → Outcome (Unit {0}) × LfuCache V
  put c key value = if c.capacity == 0 then (ok tt, c) else elim (c.data_ key) [
    | some old ↦ promote (record c { data_ = put_entry c.data_ key value }) key
    | none ↦ insert_new key value (if leb c.capacity c.size then remove c else (ok tt, c))
  ]

-- The loop of `RunLfu` over the elements that were read, with the hits so far. The loop ends at an
-- element that is not read.
unfoldable pub count_hit : ℕ → Outcome (Unit {0}) × LfuCache ℕ → Outcome ℕ × LfuCache ℕ
count_hit hits (ok done, c) = (ok hits, c)
count_hit hits (fail e, c) = (fail e, c)

-- One turn: a hit is counted, and after a miss the element is put in.
unfoldable pub turn : ℕ → ℕ → Outcome (Option ℕ) × LfuCache ℕ → Outcome ℕ × LfuCache ℕ
turn element hits (ok (some v), c) = (ok ((hits + 1) % 2 ^ 64), c)
turn element hits (ok none, c) = count_hit hits (put c element element)
turn element hits (fail e, c) = (fail e, c)

unfoldable pub and_next : (ℕ → LfuCache ℕ → Outcome ℕ) → Outcome ℕ × LfuCache ℕ → Outcome ℕ
and_next next (ok hits, c) = next hits c
and_next next (fail e, c) = fail e

unfoldable pub run_elements : List ℕ → ℕ → LfuCache ℕ → Outcome ℕ
run_elements [] hits c = ok hits
run_elements (e ∷ elements) hits c = and_next (run_elements elements) (turn e hits (get c e))

unfoldable pub run_lfu : ℕ → List ℕ → Outcome ℕ
run_lfu cache_size elements = run_elements elements 0 (init cache_size)
