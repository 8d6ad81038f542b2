-- ===== src/Cache/Bounds.antt =====
-- rv32i/cache_src/include/cache_model.hpp: the number of lines.
use xor_os.Base.{
  ℕ, ◌≤◌, ◌<◌, ◌≡◌, refl, ap, arith, Bool, true, false, leb, inl, inr, Bool-cases, Option-cases,
  leb→le, List, Option, none, some, length,
}
use xor_os.Outcome.{Outcome, ok, fail}
use xor_os.Memory
use xor_os.Memory.{MemoryModel}
use xor_os.Cache
use xor_os.Cache.{
  Line, CacheModel, find_line, erase_line, splice, keep_word, fetch_word, part, patch_cached,
  write_line, after_write, after_store, size,
}
use xor_os.Cache.Lines.{find_line-tag, length-splice, length-drop_last}
use xor_os.Cache.Coherent.{kept_lines, fetch_word-hit, fetch_word-miss}
use xor_os.Cache.Writes.{length-set_value}

-- The cache is of the capacity, and is not over it.
abbrev pub Bounded : {D : Type 0} → ℕ → CacheModel D → Type 0
Bounded capacity c = (c.capacity ≡ capacity) × (size c ≤ capacity)

-- A line that was found, and has its tag, moves to the front.
splice-le :
    (lines : List Line) (t v : ℕ) (l : Line)
    → find_line lines t ≡ some l
    → length (splice lines (record { tag = l.tag; value = v })) ≤ length lines
unfolding splice
splice-le lines t v l e =
    let same = ap (λ (n : ℕ). length (erase_line lines n)) (find_line-tag lines t l e) in
    omega (arith, length-splice lines t l e)

kept_lines-lt :
    (capacity : ℕ) (lines : List Line)
    → 0 < capacity
    → length lines ≤ capacity
    → length (kept_lines capacity lines) < capacity
kept_lines-lt capacity lines room h = elim (Bool-cases (leb capacity (length lines))) [
  | inl full ↦ let le = leb→le _ _ full in rw full (omega (arith, length-drop_last lines))
  | inr free ↦ rw free (ground arith)
]

module _ {D : Type 0} (capacity : ℕ) (room : 0 < capacity) where
  keep_word-Bounded :
      (c : CacheModel D) (t : ℕ) (o : Outcome ℕ)
      → c.capacity ≡ capacity
      → size c < capacity
      → Bounded capacity (keep_word c t o).1
  unfolding keep_word size
  keep_word-Bounded c t (ok w) e h = (e, omega arith)
  keep_word-Bounded c t (fail f) e h = (e, omega arith)

  after_write-Bounded :
      (c : CacheModel D) (f : CacheModel D → CacheModel D) (r : Outcome (Unit {0}) × MemoryModel D)
      → ((d : CacheModel D) → Bounded capacity d → Bounded capacity (f d))
      → Bounded capacity c
      → Bounded capacity (after_write c f r).1
  unfolding after_write size
  after_write-Bounded c f (ok done, m) g h = g _ h
  after_write-Bounded c f (fail e, m) g h = h

  after_store-Bounded :
      (c : CacheModel D) (a v : ℕ) (r : Outcome Bool × MemoryModel D)
      → Bounded capacity c
      → Bounded capacity (after_store c a v r).1
  unfolding after_store size
  after_store-Bounded c a v (ok true, m) h =
      (h.0, let le = h.1 in omega (arith, length-set_value c.lru (Memory.word_addr a) v))
  after_store-Bounded c a v (ok false, m) h = h
  after_store-Bounded c a v (fail e, m) h = h

  part-Bounded :
      (f : ℕ → ℕ) (r : Outcome ℕ × CacheModel D)
      → Bounded capacity r.1
      → Bounded capacity (part f r).1
  unfolding part
  part-Bounded f (ok w, c) h = h
  part-Bounded f (fail e, c) h = h

  fetch_word-Bounded :
      (c : CacheModel D) (t : ℕ) → Bounded capacity c → Bounded capacity (fetch_word c t).1
  unfolding size
  fetch_word-Bounded c t h =
      let le = h.1 in
      elim (Option-cases (find_line c.lru t)) [
        | inl absent ↦
            rw (fetch_word-miss c t absent (omega (arith, h.0)))
              (keep_word-Bounded _ t _ h.0 (rw (h.0) (kept_lines-lt capacity c.lru room h.1)))
        | inr (l, found) ↦
            rw (fetch_word-hit c t l found) (h.0, omega (arith, splice-le c.lru t l.value l found))
      ]

  update-Bounded :
      (c : CacheModel D) (t : ℕ) (f : ℕ → ℕ) (o : Option Line)
      → find_line c.lru t ≡ o
      → Bounded capacity c
      → let d : CacheModel D = elim o [
        | none ↦ c
        | some l ↦
            let line : Line = record { tag = l.tag; value = f l.value } in
            record c { lru = splice c.lru line }
      ] in
        Bounded capacity d
  unfolding size
  update-Bounded c t f none e h = h
  update-Bounded c t f (some l) e h =
      (h.0, let le = h.1 in omega (arith, splice-le c.lru t (f l.value) l e))

  -- A cache of a capacity that is not 0 never has more lines than its capacity: every operation
  -- that reads or writes keeps it so, however it ends.
  pub size-le_capacity :
      (c : CacheModel D) (a v : ℕ)
      → Bounded capacity c
      → Bounded capacity (Cache.read_byte c a).1
        × Bounded capacity (Cache.read_half c a).1
        × Bounded capacity (Cache.read_word c a).1
        × Bounded capacity (Cache.write_byte c a v).1
        × Bounded capacity (Cache.write_half c a v).1
        × Bounded capacity (Cache.write_word c a v).1
        × Bounded capacity (Cache.store_conditional c a v).1
  unfolding Cache.read_byte Cache.read_half Cache.read_word Cache.write_byte Cache.write_half
      Cache.write_word Cache.store_conditional patch_cached write_line
  size-le_capacity c a v h = (
    part-Bounded _ _ (fetch_word-Bounded c (Memory.word_addr a) h),
    part-Bounded _ _ (fetch_word-Bounded c (Memory.word_addr a) h),
    fetch_word-Bounded c a h,
    after_write-Bounded c _ _ (λ d g. update-Bounded d (Memory.word_addr a) _ _ refl g) h,
    after_write-Bounded c _ _ (λ d g. update-Bounded d (Memory.word_addr a) _ _ refl g) h,
    after_write-Bounded c _ _ (λ d g. update-Bounded d a _ _ refl g) h,
    after_store-Bounded c a v _ h,
  )
