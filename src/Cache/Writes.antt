-- ===== src/Cache/Writes.antt =====
-- rv32i/cache_src/include/cache_model.hpp: the lines after a write to the backing memory.
use xor_os.Base.{
  ℕ, suc, ◌%◌, ◌≡◌, ◌≢◌, refl, sym, ap, ◌∙◌, arith, Option, none, some, List, [], ◌∷◌, length,
}
use xor_os.Memory.{MemoryModel}
use xor_os.Cache.{
  Line, CacheModel, find_line, erase_line, splice, set_value, patch, patch_cached, write_line,
}
use xor_os.Cache.Lines.{
  Every, Distinct, Every-map, Every-both, if_tag, erase_line-Every, find_line-Every, absent-Every,
  erase_line-absent, erase_line-Distinct, length-splice,
}
use xor_os.Cache.Words.{word_at}
use xor_os.Cache.Coherent.{IsCopy, IsWhole, AreCopies, IsCoherent, Mirrors}

-- At most the aligned word at `t` changed.
pub record Rewrote {D : Type 0} (m m' : MemoryModel D) (t : ℕ) : Type 0 where
  pub whole : IsWhole m'
  pub long : length m'.bytes ≡ length m.bytes
  pub others : (t' : ℕ) → t' % 4 ≡ 0 → t' ≢ t → word_at m' t' ≡ word_at m t'

-- The tags, and the number of the lines, are as before.
set_value-tags :
    (P : ℕ → Type 0) (lines : List Line) (t v : ℕ)
    → Every (λ k. P k.tag) lines
    → Every (λ k. P k.tag) (set_value lines t v)
unfolding set_value
set_value-tags P [] t v h = tt
set_value-tags P (l ∷ lines) t v h =
    if_tag (Every (λ k. P k.tag)) l t _ _ (λ _. h) (λ _. (h.0, set_value-tags P lines t v h.1))

set_value-Distinct : (lines : List Line) (t v : ℕ) → Distinct lines → Distinct (set_value lines t v)
unfolding set_value
set_value-Distinct [] t v h = tt
set_value-Distinct (l ∷ lines) t v h =
    if_tag Distinct l t _ _ (λ _. h)
      (λ _. (set_value-tags (λ n. n ≢ l.tag) lines t v h.0, set_value-Distinct lines t v h.1))

pub length-set_value : (lines : List Line) (t v : ℕ) → length (set_value lines t v) ≡ length lines
unfolding set_value
length-set_value [] t v = refl
length-set_value (l ∷ lines) t v =
    if_tag (λ (lines' : List Line). length lines' ≡ length (l ∷ lines)) l t _ _ (λ _. refl)
      (λ _. ap suc (length-set_value lines t v))

module _ {D : Type 0} (m m' : MemoryModel D) (t : ℕ) (w : Rewrote m m' t) where
  kept-IsCopy : (l : Line) → l.tag ≢ t → IsCopy m l → IsCopy m' l
  kept-IsCopy l ne copy = (copy.0, rw (w.long) copy.1, copy.2 ∙ sym (w.others l.tag copy.0 ne))

  -- The other lines.
  kept_copies :
      (lines : List Line)
      → Every (λ k. k.tag ≢ t) lines
      → Every (IsCopy m) lines
      → Every (IsCopy m') lines
  kept_copies lines ne copies =
      Every-map _ _ lines (λ l h. kept-IsCopy l h.0 h.1) (Every-both _ _ lines ne copies)

  set_value-copies :
      (v : ℕ) (lines : List Line)
      → v ≡ word_at m' t
      → Distinct lines
      → Every (IsCopy m) lines
      → Every (IsCopy m') (set_value lines t v)
  unfolding set_value
  set_value-copies v [] e d h = tt
  set_value-copies v (l ∷ lines) e d h =
      if_tag (Every (IsCopy m')) l t _ _
        (λ same. (
          (h.0.0, rw (w.long) h.0.1, e ∙ sym (ap (word_at m') same)),
          kept_copies lines (Every-map _ _ lines (λ k n k_t. n (k_t ∙ sym same)) d.0) h.1,
        ))
        (λ ne. (kept-IsCopy l ne h.0, set_value-copies v lines e d.1 h.1))

  module _ (capacity : ℕ) (lines : List Line) (h : AreCopies m capacity lines) where
    absent-AreCopies : find_line lines t ≡ none → AreCopies m' capacity lines
    absent-AreCopies e = record {
      bounded = h.bounded;
      distinct = h.distinct;
      copies = kept_copies lines (absent-Every lines t e) h.copies;
    }

    -- The line of the word moves to the front with its new value.
    spliced-AreCopies :
        (l : Line) (v : ℕ)
        → find_line lines t ≡ some l
        → (l.value ≡ word_at m t → v ≡ word_at m' t)
        → AreCopies m' capacity (splice lines (record { tag = l.tag; value = v }))
    unfolding splice
    spliced-AreCopies l v e new =
        let found = find_line-Every (IsCopy m) lines t l e h.copies in
        let copy = found.0 in
        let rest = ap (λ (n : ℕ). length (erase_line lines n)) found.1 in
        let absent = erase_line-absent lines l.tag h.distinct in
        record {
          bounded = let le = h.bounded in omega (arith, length-splice lines t l e);
          distinct = (absent, erase_line-Distinct lines l.tag h.distinct);
          copies = (
            (
              copy.0,
              rw (w.long) copy.1,
              new (copy.2 ∙ ap (word_at m) found.1) ∙ sym (ap (word_at m') found.1),
            ),
            kept_copies (erase_line lines l.tag)
                (Every-map _ _ (erase_line lines l.tag) (λ k n k_t. n (k_t ∙ sym found.1)) absent)
                (erase_line-Every (IsCopy m) lines l.tag h.copies),
          );
        }

    pub set_value-AreCopies :
        (v : ℕ) → v ≡ word_at m' t → AreCopies m' capacity (set_value lines t v)
    set_value-AreCopies v e = record {
      bounded = let le = h.bounded in omega (arith, length-set_value lines t v);
      distinct = set_value-Distinct lines t v h.distinct;
      copies = set_value-copies v lines e h.distinct h.copies;
    }

-- The cache over the memory after the write, with the line of the word brought up to date.
module _ {D : Type 0} (c : CacheModel D) (h : IsCoherent c) (m' : MemoryModel D) (t : ℕ)
    (w : Rewrote c.backing m' t) where
  abbrev over : CacheModel D
  over = record c { backing = m' }

  -- The line is updated to `f` of its value.
  update-Mirrors :
      (f : ℕ → ℕ) (o : Option Line)
      → find_line c.lru t ≡ o
      → word_at m' t ≡ f (word_at c.backing t)
      → let d : CacheModel D = elim o [
        | none ↦ over
        | some l ↦
            let line : Line = record { tag = l.tag; value = f l.value } in
            record over { lru = splice c.lru line }
      ] in
        Mirrors d m'
  update-Mirrors f none e new = record {
    backing = refl;
    coherent = record {
      whole = w.whole;
      room = h.room;
      lines = absent-AreCopies c.backing m' t w c.capacity c.lru h.lines e;
    };
  }
  update-Mirrors f (some l) e new = record {
    backing = refl;
    coherent = record {
      whole = w.whole;
      room = h.room;
      lines =
          spliced-AreCopies c.backing m' t w c.capacity c.lru h.lines l (f l.value) e
            (λ same. ap f same ∙ sym new);
    };
  }

  pub patch_cached-Mirrors :
      (shift mask v : ℕ)
      → word_at m' t ≡ patch (word_at c.backing t) mask v shift
      → Mirrors (patch_cached over t shift mask v) m'
  unfolding patch_cached
  patch_cached-Mirrors shift mask v new =
      update-Mirrors (λ x. patch x mask v shift) (find_line c.lru t) refl new

  pub write_line-Mirrors : (v : ℕ) → word_at m' t ≡ v → Mirrors (write_line over t v) m'
  unfolding write_line
  write_line-Mirrors v new = update-Mirrors (λ _. v) (find_line c.lru t) refl new
