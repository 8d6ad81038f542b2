-- ===== src/LfuCache/Reads.antt =====
-- rv32i/cache_src/include/lfu_cache.hpp: what `Get` gives after `Put`.
use xor_os.Base.{
  ℕ, ◌≡◌, ◌≢◌, refl, sym, ap, ◌∙◌, arith, Bool, true, false, leb, ◌==◌, if◌then◌else◌, Option-cases,
  inl, inr, ◌⊎◌, Option, none, some, List, [], ◌∷◌,
}
use xor_os.Outcome.{Outcome, ok, fail}
use xor_os.LfuCache.Sound.{IsSound, get-Sound, put-Fine}
use xor_os.LfuCache.{
  put_entry, erase_entry, LfuCache, Bucket, find_bucket, evict_from, remove, leave_bucket, leave,
  enter, promote, get, insert_new, put, erase_at, victim_frequency, frequency_of,
}

module _ {V : Type 0} where
  leave_bucket-data :
      (c : LfuCache V) (f : ℕ) (o : Option (List ℕ)) → (leave_bucket c f o).1.data_ ≡ c.data_
  unfolding leave_bucket
  leave_bucket-data c f none = refl
  leave_bucket-data c f (some keys) = refl

  leave-data : (c : LfuCache V) (key f : ℕ) → (leave c key f).1.data_ ≡ c.data_
  unfolding leave
  leave-data c key f = elim (Option-cases (find_bucket c.buckets f)) [
    | inl e ↦ rw (e, leave)
    | inr (keys, e) ↦ rw (e, leave) (leave_bucket-data c f (erase_at (c.iterators key) f keys key))
  ]

  enter-data :
      (key f : ℕ) (r : Outcome (Unit {0}) × LfuCache V) → (enter key f r).1.data_ ≡ r.1.data_
  unfolding enter
  enter-data key f (ok done, c) = refl
  enter-data key f (fail e, c) = refl

  promote-data : (c : LfuCache V) (key : ℕ) → (promote c key).1.data_ ≡ c.data_
  unfolding promote
  promote-data c key =
      enter-data key _ (leave c key (frequency_of c key)) ∙ leave-data c key (frequency_of c key)

  evict_from-data :
      (c : LfuCache V) (f j : ℕ) (o : Option (List ℕ))
      → ((evict_from c f o).1.data_ j ≡ c.data_ j) ⊎ ((evict_from c f o).1.data_ j ≡ none)
  unfolding evict_from erase_entry
  evict_from-data c f j none = inl refl
  evict_from-data c f j (some []) = inl refl
  evict_from-data c f j (some (k ∷ keys)) = ground arith

  remove-data :
      (c : LfuCache V) (j : ℕ) (bs : List Bucket)
      → c.buckets ≡ bs
      → ((remove c).1.data_ j ≡ c.data_ j) ⊎ ((remove c).1.data_ j ≡ none)
  unfolding remove
  remove-data c j [] e = rw (e, remove) (inl refl)
  remove-data c j (b ∷ bs) e = rw (e, remove) (evict_from-data c (victim_frequency c) j _)

  insert_new-data :
      (c : LfuCache V) (key j : ℕ) (value : V) (r : Outcome (Unit {0}) × LfuCache V)
      → (insert_new key value r).0 ≡ ok tt
      → (r.1.data_ j ≡ c.data_ j) ⊎ (r.1.data_ j ≡ none)
      → let m = (insert_new key value r).1.data_ in
        (m key ≡ some value) × (j ≢ key → (m j ≡ c.data_ j) ⊎ (m j ≡ none))
  unfolding insert_new put_entry
  insert_new-data c key j value (ok done, d) e h = ground arith
  insert_new-data c key j value (fail f, d) e h = ground arith

  room-data :
      (c : LfuCache V) (j : ℕ) (full : Bool)
      → let r : Outcome (Unit {0}) × LfuCache V = if full then remove c else (ok tt, c) in
        (r.1.data_ j ≡ c.data_ j) ⊎ (r.1.data_ j ≡ none)
  room-data c j true = remove-data c j c.buckets refl
  room-data c j false = inl refl

  put-data :
      (c : LfuCache V) (key j : ℕ) (value : V)
      → IsSound c
      → c.capacity ≢ 0
      → let m = (put c key value).1.data_ in
        (m key ≡ some value) × (j ≢ key → (m j ≡ c.data_ j) ⊎ (m j ≡ none))
  put-data c key j value h room =
      let nonzero : (c.capacity == 0) ≡ false = ground arith in
      let fine = (put-Fine c key value h).0 in
      elim (Option-cases (c.data_ key)) [
        | inl absent ↦
            let to_new : put c key value
                ≡ insert_new key value (if leb c.capacity c.size then remove c else (ok tt, c)) =
              unfold put in rw (nonzero, absent, put) in
            rw to_new (
              insert_new-data c key j value _ (sym (ap (λ r. r.0) to_new) ∙ fine)
                (room-data c j (leb c.capacity c.size)))
        | inr (old, there) ↦
            let d : LfuCache V = record c { data_ = put_entry c.data_ key value } in
            let to_old : put c key value ≡ promote d key = unfold put in rw (nonzero, there, put) in
            rw (to_old, promote-data d key) (unfold put_entry in ground arith)
      ]

  -- In a sound cache with room for a key, a `Get` after a `Put` gives the value that was put; and
  -- any other key has the value that it had before the `Put`, or none, where it was evicted.
  pub get-put :
      (c : LfuCache V) (key j : ℕ) (value : V)
      → IsSound c
      → c.capacity ≢ 0
      → let d = (put c key value).1 in
        ((get d key).0 ≡ ok (some value))
        × (j ≢ key → ((get d j).0 ≡ (get c j).0) ⊎ ((get d j).0 ≡ ok none))
  get-put c key j value h room =
      let sound = (put-Fine c key value h).1 in
      let after = put-data c key j value h room in
      let d = (put c key value).1 in
      (
        (get-Sound d key sound).0 ∙ ap ok after.0,
        λ ne. elim (after.1 ne) [
          | inl same ↦ inl ((get-Sound d j sound).0 ∙ ap ok same ∙ sym (get-Sound c j h).0)
          | inr gone ↦ inr ((get-Sound d j sound).0 ∙ ap ok gone)
        ],
      )
