-- ===== src/LfuCache/Least.antt =====
-- rv32i/cache_src/include/lfu_cache.hpp: the key that is evicted.
use xor_os.Base.{
  is_some, ℕ, ◌≤◌, ◌≡◌, refl, sym, ap, ◌∙◌, arith, ltb, ◌==◌, if◌then◌else◌, Bool-cases,
  Option-cases, inl, inr, ◌⊎◌, none, some, List, [], ◌∷◌,
}
use xor_os.LfuCache.Buckets.{last_key-mem}
use mathlib.Core.Bool.{true≢false}
use xor_os.LfuCache.Sound.{IsSound, victim_frequency-Found}
use xor_os.LfuCache.{
  erase_entry, LfuCache, Bucket, find_bucket, least_frequency, walk_least, victim_frequency,
  evict_from, remove, last_key,
}

least_frequency-le :
    (least : ℕ) (bs : List Bucket) (f : ℕ) (keys : List ℕ)
    → (least_frequency least bs ≤ least)
      × (find_bucket bs f ≡ some keys → least_frequency least bs ≤ f)
unfolding least_frequency find_bucket
least_frequency-le least [] f keys = (omega arith, λ e. ground arith)
least_frequency-le least (b ∷ bs) f keys = elim (Bool-cases (ltb b.frequency least)) [
  | inl e ↦
      rw e
        (let below = least_frequency-le b.frequency bs f keys in ground (arith, below.0, below.1))
  | inr e ↦
      rw e (let below = least_frequency-le least bs f keys in ground (arith, below.0, below.1))
]

-- The least frequency is the one kept in mind, or none is.
abbrev pub MindsLeast : {V : Type 0} → LfuCache V → Type 0
MindsLeast c =
    ((f : ℕ) (keys : List ℕ) → find_bucket c.buckets f ≡ some keys → c.min_frequency ≤ f)
    ⊎ (find_bucket c.buckets c.min_frequency ≡ none)

-- `Remove` evicted a key that no other has a lower frequency than, and nothing else.
abbrev pub EvictsLeast : {V : Type 0} → LfuCache V → LfuCache V → Type 0
EvictsLeast c d =
    (victim : ℕ) × (g : ℕ) × (c.frequency victim ≡ some g)
    × ((k f : ℕ) → c.frequency k ≡ some f → g ≤ f)
    × ((j : ℕ) → d.data_ j ≡ (if victim == j then none else c.data_ j))

module _ {V : Type 0} (c : LfuCache V) (h : IsSound c) where
  victim_frequency-le :
      (b : Bucket) (bs : List Bucket)
      → c.buckets ≡ b ∷ bs
      → MindsLeast c
      → (f : ℕ) (keys : List ℕ) → find_bucket c.buckets f ≡ some keys
      → victim_frequency c ≤ f
  victim_frequency-le b bs e minds f keys there =
      elim (Option-cases (find_bucket c.buckets c.min_frequency)) [
        | inl gone ↦
            unfold victim_frequency walk_least in
            rw (gone, victim_frequency, e)
              ((least_frequency-le b.frequency (b ∷ bs) f keys).1
                (ap (λ (bs : List Bucket). find_bucket bs f) (sym e) ∙ there))
        | inr (ks, kept) ↦
            unfold victim_frequency in
            rw (kept, victim_frequency)
              (elim minds [
                | inl least ↦ least f keys there
                | inr gone ↦ absurd (true≢false (ap is_some (sym kept ∙ gone)))
              ])
      ]

  evict_from-EvictsLeast :
      (f : ℕ) (keys : List ℕ)
      → find_bucket c.buckets f ≡ some keys
      → ((g : ℕ) (ks : List ℕ) → find_bucket c.buckets g ≡ some ks → f ≤ g)
      → EvictsLeast c (evict_from c f (some keys)).1
  unfolding evict_from erase_entry
  evict_from-EvictsLeast f [] e least = let b = (h.linked.bucket f [] e).nonempty in ground arith
  evict_from-EvictsLeast f (k ∷ keys) e least =
      let b = h.linked.bucket f (k ∷ keys) e in
      (
        last_key k keys,
        f,
        b.frequencies (last_key k keys) (last_key-mem k keys),
        λ j g fr. let (ks, there, inside) = h.linked.there j g fr in least g ks there,
        λ j. refl,
      )

  -- `Remove` on a sound cache that is not empty evicts one key, of the least frequency there is, if
  -- `min_frequency_` is the least frequency of a bucket or is not one of a bucket.
  pub remove-EvictsLeast :
      (b : Bucket) (bs : List Bucket)
      → c.buckets ≡ b ∷ bs
      → MindsLeast c
      → EvictsLeast c (remove c).1
  unfolding remove
  remove-EvictsLeast b bs e minds =
      let (keys, there) = victim_frequency-Found c h b bs e in
      rw (e, remove)
        (rw there (
          evict_from-EvictsLeast (victim_frequency c) keys there
            (victim_frequency-le b bs e minds)))
