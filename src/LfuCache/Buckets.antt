-- ===== src/LfuCache/Buckets.antt =====
-- rv32i/cache_src/include/lfu_cache.hpp: the buckets as a map from frequencies to keys.
use xor_os.Base.{
  ℕ, ◌≡◌, ◌≢◌, refl, sym, ap, ◌∙◌, arith, Bool, true, false, not, ◌&&◌, ltb, ◌==◌, ==_iff,
  if◌then◌else◌, Bool-cases, Option-cases, inl, inr, ◌⊎◌, Option, none, some, List, [], ◌∷◌,
  drop_last,
}
use mathlib.Core.Bool.{true≢false}
use xor_os.LfuCache.{
  Bucket, find_bucket, set_bucket, erase_bucket, push_front, least_frequency, walk_least,
  shrink_bucket, erase_key, last_key,
}

-- The key is in the list.
abbrev pub mem : List ℕ → ℕ → Bool
mem [] k = false
mem (x ∷ xs) k = if x == k then true else mem xs k

-- No key is in the list twice.
abbrev pub Distinct : List ℕ → Type 0
Distinct [] = Unit
Distinct (x ∷ xs) = (mem xs x ≡ false) × Distinct xs

pub find_bucket-set_bucket :
    (bs : List Bucket) (f g : ℕ) (keys : List ℕ)
    → find_bucket (set_bucket bs f keys) g ≡ (if f == g then some keys else find_bucket bs g)
unfolding find_bucket set_bucket
find_bucket-set_bucket [] f g keys = refl
find_bucket-set_bucket (b ∷ bs) f g keys =
    let below = find_bucket-set_bucket bs f g keys in ground arith

pub find_bucket-erase_bucket :
    (bs : List Bucket) (f g : ℕ)
    → find_bucket (erase_bucket bs f) g ≡ (if f == g then none else find_bucket bs g)
unfolding find_bucket erase_bucket
find_bucket-erase_bucket [] f g = ground arith
find_bucket-erase_bucket (b ∷ bs) f g = let below = find_bucket-erase_bucket bs f g in ground arith

-- A bucket's keys, none where there are no keys.
abbrev pub filled : List ℕ → Option (List ℕ)
filled [] = none
filled (k ∷ keys) = some (k ∷ keys)

pub find_bucket-shrink_bucket :
    (bs : List Bucket) (f g : ℕ) (keys : List ℕ)
    → find_bucket (shrink_bucket bs f keys) g ≡ (if f == g then filled keys else find_bucket bs g)
unfolding shrink_bucket
find_bucket-shrink_bucket bs f g [] = find_bucket-erase_bucket bs f g
find_bucket-shrink_bucket bs f g (k ∷ keys) = find_bucket-set_bucket bs f g (k ∷ keys)

-- The keys of a bucket, no keys where there is none.
abbrev pub keys_of : Option (List ℕ) → List ℕ
keys_of none = []
keys_of (some keys) = keys

pub find_bucket-push_front :
    (bs : List Bucket) (f g key : ℕ)
    → find_bucket (push_front bs f key) g
      ≡ (if f == g then some (key ∷ keys_of (find_bucket bs f)) else find_bucket bs g)
find_bucket-push_front bs f g key = elim (Option-cases (find_bucket bs f)) [
  | inl e ↦ unfold push_front in rw (e, push_front) (find_bucket-set_bucket bs f g (key ∷ []))
  | inr (keys, e) ↦
      unfold push_front in rw (e, push_front) (find_bucket-set_bucket bs f g (key ∷ keys))
]

-- A list without one of its keys.
pub record Without (keys : List ℕ) (key : ℕ) (rest : List ℕ) : Type 0 where
  pub distinct : Distinct rest
  pub mem_rest : (j : ℕ) → mem rest j ≡ mem keys j && not (j == key)

pub last_key-mem : (k : ℕ) (keys : List ℕ) → mem (k ∷ keys) (last_key k keys) ≡ true
unfolding last_key
last_key-mem k [] = ground arith
last_key-mem k (x ∷ keys) = let below = last_key-mem x keys in ground arith

pub drop_last-Without :
    (k : ℕ) (keys : List ℕ)
    → Distinct (k ∷ keys)
    → Without (k ∷ keys) (last_key k keys) (drop_last (k ∷ keys))
unfolding last_key
drop_last-Without k [] d = record { distinct = tt; mem_rest = λ j. ground arith }
drop_last-Without k (x ∷ keys) d =
    let below = drop_last-Without x keys d.1 in
    let last = last_key-mem x keys in
    let v = last_key x keys in
    let at : (j : ℕ) → j ≡ k → mem (x ∷ keys) j ≡ false = λ j e. ap (mem (x ∷ keys)) e ∙ d.0 in
    let other : k ≢ v = λ e. true≢false (sym last ∙ at v (sym e)) in
    record {
      distinct = (below.mem_rest k ∙ rw (d.0), below.distinct);
      mem_rest = λ j. let rest = below.mem_rest j in ground arith;
    }

-- A key of the list can be erased.
pub erase_key-Without :
    (keys : List ℕ) (key : ℕ)
    → Distinct keys
    → mem keys key ≡ true
    → (rest : List ℕ) × (erase_key keys key ≡ some rest) × Without keys key rest
unfolding erase_key
erase_key-Without [] key d h = ground arith
erase_key-Without (k ∷ keys) key d h = elim (Bool-cases (k == key)) [
  | inl e ↦
      let same = (==_iff k key).0 e in
      let at : (j : ℕ) → j ≡ k → mem keys j ≡ false = λ j e'. ap (mem keys) e' ∙ d.0 in
      (keys, rw e, record { distinct = d.1; mem_rest = λ j. let no = at j in ground arith })
  | inr e ↦
      let (rest, erased, without) = erase_key-Without keys key d.1 ground arith in
      (
        k ∷ rest,
        rw (e, erased),
        record {
          distinct = (without.mem_rest k ∙ rw (d.0), without.distinct);
          mem_rest = λ j. let r = without.mem_rest j in ground arith;
        },
      )
]

-- There is a bucket of the frequency.
abbrev pub Found : List Bucket → ℕ → Type 0
Found bs f = (keys : List ℕ) × (find_bucket bs f ≡ some keys)

first-Found :
    (b : Bucket) (bs : List Bucket) (f : ℕ) → (f ≡ b.frequency) ⊎ Found bs f → Found (b ∷ bs) f
unfolding find_bucket
first-Found b bs f h = elim (Bool-cases (b.frequency == f)) [
  | inl e ↦ (b.keys, rw e)
  | inr e ↦ elim h [
    | inl same ↦ absurd (true≢false (sym ((==_iff b.frequency f).1 (sym same)) ∙ e))
    | inr (keys, e') ↦ (keys, rw (e, e'))
  ]
]

-- The walk ends at a bucket there is.
least-Found :
    (least : ℕ) (bs : List Bucket)
    → (least_frequency least bs ≡ least) ⊎ Found bs (least_frequency least bs)
unfolding least_frequency
least-Found least [] = inl refl
least-Found least (b ∷ bs) = elim (Bool-cases (ltb b.frequency least)) [
  | inl e ↦ rw e (inr (first-Found b bs _ (least-Found b.frequency bs)))
  | inr e ↦ rw e (elim (least-Found least bs) [
    | inl same ↦ inl same
    | inr there ↦ inr (first-Found b bs _ (inr there))
  ])
]

pub walk_least-Found :
    (empty : ℕ) (b : Bucket) (bs : List Bucket) → Found (b ∷ bs) (walk_least empty (b ∷ bs))
unfolding walk_least
walk_least-Found empty b bs = elim (least-Found b.frequency (b ∷ bs)) [
  | inl same ↦ first-Found b bs _ (inl same)
  | inr there ↦ there
]
