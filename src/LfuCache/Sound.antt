-- ===== src/LfuCache/Sound.antt =====
-- rv32i/cache_src/include/lfu_cache.hpp: what the cache keeps between calls, so that no call
-- reaches undefined behaviour.
use xor_os.Base.{
  is_some, ℕ, ◌+◌, ◌%◌, ◌^◌, ◌≡◌, refl, sym, ap, ◌∙◌, arith, Bool, true, false, leb, ◌==◌,
  if◌then◌else◌, Bool-cases, Option-cases, inl, inr, Option, none, some, List, [], ◌∷◌,
}
use mathlib.Core.Bool.{true≢false}
use mathlib.Core.Path.{subst, fun_ext}
use xor_os.Outcome.{Outcome, ok, fail}
use xor_os.LfuCache.{
  Map, put_entry, erase_entry, LfuCache, Bucket, find_bucket, evict_from, remove, leave_bucket,
  leave, enter, promote, found, get, insert_new, put, last_key, victim_frequency, frequency_of,
  push_front, shrink_bucket, init, erase_at,
}
use xor_os.LfuCache.Buckets.{
  mem, Found, walk_least-Found, Without, drop_last-Without, last_key-mem, erase_key-Without,
}
use xor_os.LfuCache.Linked.{Linked, nothing-Linked, leave-Linked, enter-Linked}

is_some-none : (o : Option ℕ) → is_some o ≡ false → o ≡ none
is_some-none none e = refl
is_some-none (some a) e = absurd (true≢false e)

-- The keys with data are those with a frequency, the buckets hold these, and the iterator of a key
-- is of the bucket of its frequency.
pub record IsSound {V : Type 0} (c : LfuCache V) : Type 0 where
  pub linked : Linked c.frequency c.buckets
  pub known : (k : ℕ) → is_some (c.data_ k) ≡ is_some (c.frequency k)
  pub placed : c.iterators ≡ c.frequency

module _ {V : Type 0} where
  -- The call returned, and left a sound cache.
  abbrev pub Fine : Outcome (Unit {0}) × LfuCache V → Type 0
  Fine r = (r.0 ≡ ok tt) × IsSound r.1

  module _ (c : LfuCache V) (h : IsSound c) where
    evict_from-Fine :
        (f : ℕ) (keys : List ℕ)
        → find_bucket c.buckets f ≡ some keys
        → Fine (evict_from c f (some keys))
    unfolding evict_from
    evict_from-Fine f [] e = let b = (h.linked.bucket f [] e).nonempty in ground arith
    evict_from-Fine f (k ∷ keys) e =
        let b = h.linked.bucket f (k ∷ keys) e in
        (
          refl,
          record {
            linked =
                leave-Linked c.frequency c.buckets h.linked f (last_key k keys) (k ∷ keys) _ e
                  (last_key-mem k keys) (drop_last-Without k keys b.distinct);
            known = λ j. let same = h.known j in unfold erase_entry in ground arith;
            placed = ap (λ (m : Map ℕ). erase_entry m (last_key k keys)) h.placed;
          },
        )

    pub victim_frequency-Found :
        (b : Bucket) (bs : List Bucket) → c.buckets ≡ b ∷ bs → Found c.buckets (victim_frequency c)
    victim_frequency-Found b bs e = elim (Option-cases (find_bucket c.buckets c.min_frequency)) [
      | inl gone ↦
          unfold victim_frequency in rw (gone, victim_frequency, e) (walk_least-Found 0 b bs)
      | inr (keys, kept) ↦ unfold victim_frequency in rw (kept, victim_frequency) (keys, kept)
    ]

    remove-from : (bs : List Bucket) → c.buckets ≡ bs → Fine (remove c)
    unfolding remove
    remove-from [] e = rw (e, remove) (refl, h)
    remove-from (b ∷ bs) e =
        let (keys, there) = victim_frequency-Found b bs e in
        rw (e, remove) (rw there (evict_from-Fine (victim_frequency c) keys there))

    remove-Fine : Fine (remove c)
    remove-Fine = remove-from c.buckets refl

    -- The key moves to the bucket of the frequency `g`.
    moved-Fine :
        (key f g : ℕ) (keys rest : List ℕ)
        → c.frequency key ≡ some f
        → find_bucket c.buckets f ≡ some keys
        → mem keys key ≡ true
        → Without keys key rest
        → Fine (enter key g (leave_bucket c f (some rest)))
    unfolding enter leave_bucket
    moved-Fine key f g keys rest e b m w =
        let gone = leave-Linked c.frequency c.buckets h.linked f key keys rest b m w in
        let fresh : erase_entry c.frequency key key ≡ none = unfold erase_entry in ground arith in
        let again : put_entry (erase_entry c.frequency key) key g ≡ put_entry c.frequency key g =
          fun_ext (λ j. unfold put_entry erase_entry in ground arith) in
        (
          refl,
          record {
            linked =
                subst (λ (m : Map ℕ). Linked m (push_front (shrink_bucket c.buckets f rest) g key))
                  again (enter-Linked _ _ gone key g fresh);
            known = λ j.
                let at : j ≡ key → is_some (c.data_ j) ≡ true =
                  λ same. h.known j ∙ ap is_some (ap c.frequency same ∙ e) in
                let same = h.known j in unfold put_entry in ground arith;
            placed = ap (λ (m : Map ℕ). put_entry m key g) h.placed;
          },
        )

    pub promote-Fine : (key : ℕ) → is_some (c.data_ key) ≡ true → Fine (promote c key)
    unfolding promote
    promote-Fine key present = elim (Option-cases (c.frequency key)) [
      | inl missing ↦ absurd (true≢false (sym present ∙ h.known key ∙ ap is_some missing))
      | inr (f, e) ↦
          let (keys, b, m) = h.linked.there key f e in
          let old = h.linked.bucket f keys b in
          let (rest, erased, w) = erase_key-Without keys key old.distinct m in
          let freq : frequency_of c key ≡ f = unfold frequency_of in rw (frequency_of, e) in
          let at : c.iterators key ≡ some f = ap (λ (m : Map ℕ). m key) h.placed ∙ e in
          let same : (f == f) ≡ true = ground arith in
          let left : leave c key f ≡ leave_bucket c f (some rest) =
            unfold leave erase_at in rw (leave, b, at, erased, same) in
          rw (freq, left) (moved-Fine key f ((f + 1) % 2 ^ 64) keys rest e b m w)
    ]

  insert_new-Fine :
      (c : LfuCache V) (key : ℕ) (value : V) (r : Outcome (Unit {0}) × LfuCache V)
      → Fine r
      → is_some (r.1.data_ key) ≡ false
      → Fine (insert_new key value r)
  unfolding insert_new
  insert_new-Fine c key value (fail e, d) h absent = ground arith
  insert_new-Fine c key value (ok done, d) h absent = (
    refl,
    record {
      linked =
          enter-Linked d.frequency d.buckets h.1.linked key 1
            (is_some-none _ (sym (h.1.known key) ∙ absent));
      known = λ j. let same = h.1.known j in unfold put_entry in ground arith;
      placed = ap (λ (m : Map ℕ). put_entry m key 1) h.1.placed;
    },
  )

  -- An eviction adds no data.
  evict_from-absent :
      (c : LfuCache V) (f key : ℕ) (o : Option (List ℕ))
      → c.data_ key ≡ none
      → (evict_from c f o).1.data_ key ≡ none
  unfolding evict_from erase_entry
  evict_from-absent c f key none e = e
  evict_from-absent c f key (some []) e = e
  evict_from-absent c f key (some (k ∷ keys)) e = ground arith

  remove-absent :
      (c : LfuCache V) (key : ℕ) (bs : List Bucket)
      → c.buckets ≡ bs
      → c.data_ key ≡ none
      → (remove c).1.data_ key ≡ none
  unfolding remove
  remove-absent c key [] b e = rw (b, remove) e
  remove-absent c key (x ∷ bs) b e =
      rw (b, remove) (evict_from-absent c (victim_frequency c) key _ e)

  -- The room that `Put` makes.
  make_room-Fine :
      (c : LfuCache V) (key : ℕ) (full : Bool)
      → IsSound c
      → c.data_ key ≡ none
      → let r : Outcome (Unit {0}) × LfuCache V = if full then remove c else (ok tt, c) in
        Fine r × (r.1.data_ key ≡ none)
  make_room-Fine c key true h e = (remove-Fine c h, remove-absent c key c.buckets refl e)
  make_room-Fine c key false h e = ((refl, h), e)

  found-Sound :
      (v : V) (r : Outcome (Unit {0}) × LfuCache V)
      → Fine r
      → ((found v r).0 ≡ ok (some v)) × IsSound (found v r).1
  unfolding found
  found-Sound v (ok done, c) h = (refl, h.1)
  found-Sound v (fail e, c) h = ground arith

  -- A `Get` on a sound cache gives the data of the key, and leaves a sound cache.
  pub get-Sound :
      (c : LfuCache V) (key : ℕ)
      → IsSound c
      → ((get c key).0 ≡ ok (c.data_ key)) × IsSound (get c key).1
  unfolding get
  get-Sound c key h = elim (Option-cases (c.data_ key)) [
    | inl absent ↦ rw (absent, get) (refl, h)
    | inr (v, e) ↦ rw (e, get) (found-Sound v _ (promote-Fine c h key (ap is_some e)))
  ]

  -- A `Put` on a sound cache returns, and leaves a sound cache.
  pub put-Fine : (c : LfuCache V) (key : ℕ) (value : V) → IsSound c → Fine (put c key value)
  put-Fine c key value h = elim (Bool-cases (c.capacity == 0)) [
    | inl e ↦ unfold put in rw (e, put) (refl, h)
    | inr e ↦ elim (Option-cases (c.data_ key)) [
      | inl absent ↦
          let (fine, still) = make_room-Fine c key (leb c.capacity c.size) h absent in
          unfold put in rw (e, absent, put) (insert_new-Fine c key value _ fine (ap is_some still))
      | inr (old, e') ↦
          let d : LfuCache V = record c { data_ = put_entry c.data_ key value } in
          let at : (j : ℕ) → j ≡ key → is_some (c.data_ j) ≡ true =
            λ j same. ap is_some (ap c.data_ same ∙ e') in
          let sound : IsSound d = record {
            linked = h.linked;
            known =
                λ j. let same = h.known j in let here = at j in unfold put_entry in ground arith;
            placed = h.placed;
          } in
          unfold put in
          rw (e, e', put) (promote-Fine d sound key (unfold put_entry in ground arith))
    ]
  ]

  pub init-IsSound : (capacity : ℕ) → IsSound (init {V = V} capacity)
  unfolding init
  init-IsSound capacity = record { linked = nothing-Linked; known = λ k. refl; placed = refl }
