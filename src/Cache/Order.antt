-- ===== src/Cache/Order.antt =====
-- rv32i/cache_src/include/cache_model.hpp: the order of the lines, and what is evicted.
use xor_os.Base.{
  ℕ, zero, suc, ◌≤◌, ◌<◌, ◌≡◌, refl, sym, ap, ◌∙◌, arith, leb, ◌==◌, inl, inr, if◌then◌else◌,
  Bool-cases, Option-cases, leb→le, List, [], ◌∷◌, none, some, length, drop_last, take,
}
use xor_os.Outcome.{Outcome, ok, fail}
use xor_os.Memory
use xor_os.Cache.{Line, CacheModel, find_line, erase_line, splice, keep_word, fetch_word}
use xor_os.Cache.Lines.{find_line-tag, length-splice}
use xor_os.Cache.Coherent.{kept_lines, fetch_word-hit, fetch_word-miss}

-- The tags, the most recent one first.
abbrev pub tags : List Line → List ℕ
tags [] = []
tags (l ∷ lines) = l.tag ∷ tags lines

-- The list without its first `t`.
abbrev pub delete : List ℕ → ℕ → List ℕ
delete [] t = []
delete (x ∷ xs) t = let rest = delete xs t in if x == t then xs else x ∷ rest

-- The rule of LRU: `t` becomes the first, and what does not fit goes at the end.
abbrev pub touch : ℕ → List ℕ → ℕ → List ℕ
touch capacity xs t = take capacity (t ∷ delete xs t)

tags-erase_line : (lines : List Line) (t : ℕ) → tags (erase_line lines t) ≡ delete (tags lines) t
unfolding erase_line
tags-erase_line [] t = refl
tags-erase_line (l ∷ lines) t = let below = tags-erase_line lines t in ground arith

length-tags : (lines : List Line) → length (tags lines) ≡ length lines
length-tags [] = refl
length-tags (l ∷ lines) = ap suc (length-tags lines)

tags-drop_last : (lines : List Line) → tags (drop_last lines) ≡ drop_last (tags lines)
tags-drop_last [] = refl
tags-drop_last (l ∷ []) = refl
tags-drop_last (l ∷ k ∷ lines) = ap (λ (xs : List ℕ). l.tag ∷ xs) (tags-drop_last (k ∷ lines))

take-all : (n : ℕ) (xs : List ℕ) → length xs ≤ n → take n xs ≡ xs
take-all zero [] h = refl
take-all zero (x ∷ xs) h = absurd (omega arith)
take-all (suc n) [] h = refl
take-all (suc n) (x ∷ xs) h = ap (λ (ys : List ℕ). x ∷ ys) (take-all n xs (omega arith))

take-drop_last : (n : ℕ) (xs : List ℕ) → length xs ≡ suc n → take n xs ≡ drop_last xs
take-drop_last n [] h = absurd (omega arith)
take-drop_last zero (x ∷ []) h = refl
take-drop_last (suc n) (x ∷ []) h = absurd (omega arith)
take-drop_last zero (x ∷ y ∷ xs) h = absurd (omega arith)
take-drop_last (suc n) (x ∷ y ∷ xs) h =
    ap (λ (ys : List ℕ). x ∷ ys) (take-drop_last n (y ∷ xs) (omega arith))

delete-absent :
    (lines : List Line) (t : ℕ) → find_line lines t ≡ none → delete (tags lines) t ≡ tags lines
unfolding find_line
delete-absent [] t e = refl
delete-absent (l ∷ lines) t e = let below = delete-absent lines t in ground arith

-- The lines that are kept when one more must fit.
tags-kept :
    (capacity : ℕ) (lines : List Line)
    → length lines ≤ suc capacity
    → tags (kept_lines (suc capacity) lines) ≡ take capacity (tags lines)
tags-kept capacity lines h = elim (Bool-cases (leb (suc capacity) (length lines))) [
  | inl full ↦
      let le = leb→le _ _ full in
      rw full (
        tags-drop_last lines
        ∙ sym (take-drop_last capacity (tags lines) (omega (arith, length-tags lines))))
  | inr free ↦
      rw free (sym (take-all capacity (tags lines) (let e = length-tags lines in ground arith)))
]

hit_order :
    (capacity t : ℕ) (lines : List Line) (l : Line)
    → find_line lines t ≡ some l
    → length lines ≤ capacity
    → tags (splice lines l) ≡ touch capacity (tags lines) t
unfolding splice
hit_order capacity t lines l e h =
    let found = find_line-tag lines t l e in
    let len = length-splice lines t l e in
    rw (found, tags-erase_line lines t)
      (sym (
        take-all capacity (t ∷ delete (tags lines) t) (
          let a = length-tags (erase_line lines t) in
          let b = ap length (tags-erase_line lines t) in omega arith)))

miss_order :
    (capacity t : ℕ) (lines : List Line)
    → find_line lines t ≡ none
    → 0 < capacity
    → length lines ≤ capacity
    → t ∷ tags (kept_lines capacity lines) ≡ touch capacity (tags lines) t
miss_order zero t lines e room h = absurd (omega arith)
miss_order (suc capacity) t lines e room h =
    rw (delete-absent lines t e) (ap (λ (xs : List ℕ). t ∷ xs) (tags-kept capacity lines h))

keep_word-tags :
    {D : Type 0} (c : CacheModel D) (t v : ℕ) (o : Outcome ℕ)
    → (keep_word c t o).0 ≡ ok v
    → tags (keep_word c t o).1.lru ≡ t ∷ tags c.lru
unfolding keep_word
keep_word-tags c t v (ok w) e = refl
keep_word-tags c t v (fail f) e = ground arith

-- In a cache with at most as many lines as its capacity, which is not 0, the words are in the order
-- of their last use: a read that returns makes its word the most recent one and keeps the order of
-- the others, and of these only the least recent one is evicted, where else there would be too
-- many.
pub lru_order :
    {D : Type 0} (c : CacheModel D) (t v : ℕ)
    → 0 < c.capacity
    → length c.lru ≤ c.capacity
    → (fetch_word c t).0 ≡ ok v
    → tags (fetch_word c t).1.lru ≡ touch c.capacity (tags c.lru) t
lru_order c t v room h e = elim (Option-cases (find_line c.lru t)) [
  | inl absent ↦
      let miss = fetch_word-miss c t absent room in
      rw miss (
        keep_word-tags _ t v (Memory.read_word c.backing t) (sym (ap (λ r. r.0) miss) ∙ e)
        ∙ miss_order c.capacity t c.lru absent room h)
  | inr (l, found) ↦ rw (fetch_word-hit c t l found) (hit_order c.capacity t c.lru l found h)
]
