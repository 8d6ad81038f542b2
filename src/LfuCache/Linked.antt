-- ===== src/LfuCache/Linked.antt =====
-- rv32i/cache_src/include/lfu_cache.hpp: the buckets hold each key that has a frequency, in the
-- bucket of that frequency and once, and no other key; no bucket is empty.
use xor_os.Base.{
  ℕ, ◌≡◌, ◌≢◌, refl, sym, ap, ◌∙◌, arith, Bool, true, false, ◌==◌, ==_iff, if◌then◌else◌,
  Bool-cases, inl, inr, Option, none, some, List, [], ◌∷◌,
}
use mathlib.Core.Path.{subst}
use xor_os.LfuCache.{Map, put_entry, erase_entry, Bucket, find_bucket, shrink_bucket, push_front}
use xor_os.LfuCache.Buckets.{
  mem, Distinct, filled, keys_of, Without, find_bucket-shrink_bucket, find_bucket-push_front,
}

-- What a bucket holds.
pub record IsBucketOf (frequency : Map ℕ) (f : ℕ) (keys : List ℕ) : Type 0 where
  pub nonempty : filled keys ≡ some keys
  pub distinct : Distinct keys
  pub frequencies : (k : ℕ) → mem keys k ≡ true → frequency k ≡ some f

pub record Linked (frequency : Map ℕ) (bs : List Bucket) : Type 0 where
  pub there :
      (k f : ℕ)
      → frequency k ≡ some f
      → (keys : List ℕ) × (find_bucket bs f ≡ some keys) × (mem keys k ≡ true)
  pub bucket : (f : ℕ) (keys : List ℕ) → find_bucket bs f ≡ some keys → IsBucketOf frequency f keys

pub nothing-Linked : Linked (λ k. none) []
unfolding find_bucket
nothing-Linked = record { there = λ k f e. ground arith; bucket = λ f keys e. ground arith }

mem-filled : (xs : List ℕ) (k : ℕ) → mem xs k ≡ true → filled xs ≡ some xs
mem-filled [] k h = ground arith
mem-filled (x ∷ xs) k h = refl

filled-some : (xs ys : List ℕ) → filled xs ≡ some ys → (xs ≡ ys) × (filled ys ≡ some ys)
filled-some [] ys e = ground arith
filled-some (x ∷ xs) ys e =
    let same : x ∷ xs ≡ ys = ap keys_of e in (same, ap filled (sym same) ∙ e)

module _ (frequency : Map ℕ) (bs : List Bucket) (h : Linked frequency bs) where
  -- A key leaves its bucket and has no frequency any more.
  module _ (f key : ℕ) (keys rest : List ℕ) (e : find_bucket bs f ≡ some keys)
      (m : mem keys key ≡ true) (w : Without keys key rest) where
    other_there :
        (k g : ℕ) (b : Bool)
        → (f == g) ≡ b
        → k ≢ key
        → frequency k ≡ some g
        → (ks : List ℕ) × ((if b then filled rest else find_bucket bs g) ≡ some ks)
          × (mem ks k ≡ true)
    other_there k g true eq ne e' =
        let (ks, found, inside) = h.there k g e' in
        let same : ks ≡ keys =
          ap keys_of (sym found ∙ ap (find_bucket bs) (sym ((==_iff f g).0 eq)) ∙ e) in
        let kept : mem rest k ≡ true =
          let r = w.mem_rest k in let i = ap (λ (xs : List ℕ). mem xs k) same in ground arith in
        (rest, mem-filled rest k kept, kept)
    other_there k g false eq ne e' = h.there k g e'

    other_bucket :
        (g : ℕ) (ks : List ℕ) (b : Bool)
        → (f == g) ≡ b
        → (if b then filled rest else find_bucket bs g) ≡ some ks
        → IsBucketOf (erase_entry frequency key) g ks
    unfolding erase_entry
    other_bucket g ks true eq e' =
        let old = h.bucket f keys e in
        let (same, nonempty) = filled-some rest ks e' in
        record {
          nonempty = nonempty;
          distinct = subst Distinct same w.distinct;
          frequencies = λ j i.
              let r = w.mem_rest j in
              let i' = ap (λ (xs : List ℕ). mem xs j) same in
              let fr = old.frequencies j in ground arith;
        }
    other_bucket g ks false eq e' =
        let old = h.bucket g ks e' in
        let home = (h.bucket f keys e).frequencies key m in
        record {
          nonempty = old.nonempty;
          distinct = old.distinct;
          frequencies = λ j i.
              let fr = old.frequencies j i in
              let moved : j ≡ key → some g ≡ some f = λ same. sym fr ∙ ap frequency same ∙ home in
              ground arith;
        }

    pub leave-Linked : Linked (erase_entry frequency key) (shrink_bucket bs f rest)
    leave-Linked = record {
      there = λ k g e'.
          let ne : k ≢ key = unfold erase_entry in ground arith in
          let old : frequency k ≡ some g = unfold erase_entry in ground arith in
          let (ks, found, inside) = other_there k g (f == g) refl ne old in
          (ks, find_bucket-shrink_bucket bs f g rest ∙ found, inside);
      bucket = λ g ks e'.
          other_bucket g ks (f == g) refl (sym (find_bucket-shrink_bucket bs f g rest) ∙ e');
    }

  -- A key without a frequency enters a bucket.
  module _ (key f : ℕ) (fresh : frequency key ≡ none) where
    abbrev old_keys : List ℕ
    old_keys = keys_of (find_bucket bs f)

    old-Distinct : (o : Option (List ℕ)) → find_bucket bs f ≡ o → Distinct (keys_of o)
    old-Distinct none e = tt
    old-Distinct (some keys) e = (h.bucket f keys e).distinct

    old_frequencies :
        (o : Option (List ℕ)) (k : ℕ)
        → find_bucket bs f ≡ o
        → mem (keys_of o) k ≡ true
        → frequency k ≡ some f
    old_frequencies none k e m = ground arith
    old_frequencies (some keys) k e m = (h.bucket f keys e).frequencies k m

    entered_there :
        (k g : ℕ) (b : Bool)
        → (f == g) ≡ b
        → put_entry frequency key f k ≡ some g
        → (ks : List ℕ) × ((if b then some (key ∷ old_keys) else find_bucket bs g) ≡ some ks)
          × (mem ks k ≡ true)
    unfolding put_entry
    entered_there k g true eq e = (
      key ∷ old_keys,
      refl,
      elim (Bool-cases (key == k)) [
        | inl same ↦ rw same
        | inr other ↦
            let old : frequency k ≡ some g = ground arith in
            let (ks, found, inside) = h.there k g old in
            let at : old_keys ≡ ks = ap keys_of (ap (find_bucket bs) ((==_iff f g).0 eq) ∙ found) in
            rw (other, at) inside
      ],
    )
    entered_there k g false eq e = h.there k g (ground arith)

    entered_bucket :
        (g : ℕ) (ks : List ℕ) (b : Bool)
        → (f == g) ≡ b
        → (if b then some (key ∷ old_keys) else find_bucket bs g) ≡ some ks
        → IsBucketOf (put_entry frequency key f) g ks
    unfolding put_entry
    entered_bucket g ks true eq e =
        let same : key ∷ old_keys ≡ ks = ap keys_of e in
        let old = old_frequencies (find_bucket bs f) in
        subst (IsBucketOf (put_entry frequency key f) g) same (record {
          nonempty = refl;
          distinct = (let fr = old key refl in ground arith, old-Distinct (find_bucket bs f) refl);
          frequencies = λ j i. let fr = old j refl in ground arith;
        })
    entered_bucket g ks false eq e =
        let old = h.bucket g ks e in
        record {
          nonempty = old.nonempty;
          distinct = old.distinct;
          frequencies = λ j i.
              let fr = old.frequencies j i in
              let at : j ≡ key → some g ≡ none = λ same. sym fr ∙ ap frequency same ∙ fresh in
              ground arith;
        }

    pub enter-Linked : Linked (put_entry frequency key f) (push_front bs f key)
    enter-Linked = record {
      there = λ k g e.
          let (ks, found, inside) = entered_there k g (f == g) refl e in
          (ks, find_bucket-push_front bs f g key ∙ found, inside);
      bucket =
          λ g ks e. entered_bucket g ks (f == g) refl (sym (find_bucket-push_front bs f g key) ∙ e);
    }
