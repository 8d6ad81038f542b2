-- ===== src/Cache/Lines.antt =====
-- rv32i/cache_src/include/cache_model.hpp: the list `lru_`, its lines with distinct tags.
use xor_os.Base.{
  ℕ, ◌+◌, ◌<◌, ◌≡◌, ◌≢◌, refl, sym, ◌∙◌, arith, ◌==◌, ==_iff, if◌then◌else◌, Bool-cases, List, [],
  ◌∷◌, none, some, inl, inr, length, drop_last,
}
use xor_os.Cache.{Line, find_line, erase_line}

-- Each line has the property.
abbrev pub Every : (Line → Type 0) → List Line → Type 0
Every P [] = Unit
Every P (l ∷ lines) = P l × Every P lines

-- No two lines have the same tag.
abbrev pub Distinct : List Line → Type 0
Distinct [] = Unit
Distinct (l ∷ lines) = Every (λ k. k.tag ≢ l.tag) lines × Distinct lines

module _ (P Q : Line → Type 0) where
  pub Every-map : (lines : List Line) → ((l : Line) → P l → Q l) → Every P lines → Every Q lines
  Every-map [] f h = tt
  Every-map (l ∷ lines) f h = (f l h.0, Every-map lines f h.1)

  pub Every-both :
      (lines : List Line) → Every P lines → Every Q lines → Every (λ l. P l × Q l) lines
  Every-both [] h g = tt
  Every-both (l ∷ lines) h g = ((h.0, g.0), Every-both lines h.1 g.1)

-- A head that is the one searched for, or not.
pub if_tag :
    {A : Type 0} (C : A → Type 0) (l : Line) (tag : ℕ) (a b : A)
    → (l.tag ≡ tag → C a)
    → (l.tag ≢ tag → C b)
    → C (if l.tag == tag then a else b)
if_tag C l tag a b h g = elim (Bool-cases (l.tag == tag)) [
  | inl e ↦ rw e (h ((==_iff l.tag tag).0 e))
  | inr e ↦ rw e (g (λ same. ground arith))
]

module _ (P : Line → Type 0) where
  pub drop_last-Every : (lines : List Line) → Every P lines → Every P (drop_last lines)
  drop_last-Every [] h = tt
  drop_last-Every (l ∷ []) h = tt
  drop_last-Every (l ∷ k ∷ lines) h = (h.0, drop_last-Every (k ∷ lines) h.1)

  pub erase_line-Every :
      (lines : List Line) (tag : ℕ) → Every P lines → Every P (erase_line lines tag)
  unfolding erase_line
  erase_line-Every [] tag h = tt
  erase_line-Every (l ∷ lines) tag h =
      if_tag (Every P) l tag _ _ (λ _. h.1) (λ _. (h.0, erase_line-Every lines tag h.1))

  -- A line that is found has the tag, and the property of every line.
  pub find_line-Every :
      (lines : List Line) (tag : ℕ) (l : Line)
      → find_line lines tag ≡ some l
      → Every P lines
      → P l × (l.tag ≡ tag)
  unfolding find_line
  find_line-Every [] tag l e h = ground arith
  find_line-Every (k ∷ lines) tag l e h =
      let below = find_line-Every lines tag l in ground (arith, h.0, h.1)

pub find_line-tag :
    (lines : List Line) (tag : ℕ) (l : Line) → find_line lines tag ≡ some l → l.tag ≡ tag
unfolding find_line
find_line-tag [] tag l e = ground arith
find_line-tag (k ∷ lines) tag l e = let below = find_line-tag lines tag l in ground arith

-- Where no line is found, every line has another tag.
pub absent-Every :
    (lines : List Line) (tag : ℕ) → find_line lines tag ≡ none → Every (λ k. k.tag ≢ tag) lines
unfolding find_line
absent-Every [] tag e = tt
absent-Every (l ∷ lines) tag e = let below = absent-Every lines tag in ground arith

pub erase_line-absent :
    (lines : List Line) (tag : ℕ) → Distinct lines → Every (λ k. k.tag ≢ tag) (erase_line lines tag)
unfolding erase_line
erase_line-absent [] tag d = tt
erase_line-absent (l ∷ lines) tag d =
    if_tag (Every (λ k. k.tag ≢ tag)) l tag _ _
      (λ e. Every-map _ _ lines (λ k n m. n (m ∙ sym e)) d.0)
      (λ n. (n, erase_line-absent lines tag d.1))

pub erase_line-Distinct :
    (lines : List Line) (tag : ℕ) → Distinct lines → Distinct (erase_line lines tag)
unfolding erase_line
erase_line-Distinct [] tag d = tt
erase_line-Distinct (l ∷ lines) tag d =
    if_tag Distinct l tag _ _ (λ _. d.1)
      (λ _. (erase_line-Every _ lines tag d.0, erase_line-Distinct lines tag d.1))

pub drop_last-Distinct : (lines : List Line) → Distinct lines → Distinct (drop_last lines)
drop_last-Distinct [] d = tt
drop_last-Distinct (l ∷ []) d = tt
drop_last-Distinct (l ∷ k ∷ lines) d =
    (drop_last-Every _ (k ∷ lines) d.0, drop_last-Distinct (k ∷ lines) d.1)

-- The list is as long as before once a line that was found has moved.
pub length-splice :
    (lines : List Line) (tag : ℕ) (l : Line)
    → find_line lines tag ≡ some l
    → length (erase_line lines tag) + 1 ≡ length lines
unfolding find_line erase_line
length-splice [] tag l e = ground arith
length-splice (k ∷ lines) tag l e = let below = length-splice lines tag l in ground arith

pub length-drop_last :
    {A : Type 0} (xs : List A) → 0 < length xs → length (drop_last xs) + 1 ≡ length xs
length-drop_last [] h = elim h [ ]
length-drop_last (x ∷ []) h = refl
length-drop_last (x ∷ y ∷ xs) h = omega (arith, length-drop_last (y ∷ xs))
