-- ===== src/Cache/Coherent.antt =====
-- rv32i/cache_src/include/cache_model.hpp: what the cache keeps between calls, and `fetchWord`.
use xor_os.Base.{
  ℕ, ◌+◌, ◌%◌, ◌^◌, ◌≤◌, ◌<◌, ◌≡◌, ◌≢◌, refl, sym, ap, ◌∙◌, arith, leb, inl, inr, if◌then◌else◌,
  Bool-cases, Option-cases, leb→le, le→leb, none, some, List, [], ◌∷◌, length, drop_last,
}
use mathlib.Core.Path.{subst}
use xor_os.Outcome.{Outcome, ok, fail, out_of_range}
use xor_os.Memory
use xor_os.Memory.{MemoryModel, find_mmio}
use xor_os.Memory.Access.{reads_lem}
use xor_os.RvModel.Plain.Laws.{IsPlain, find_mmio-IsPlain}
use xor_os.Cache
use xor_os.Cache.{
  Line, CacheModel, find_line, erase_line, splice, evict, make_room, keep_word, fill, fetch_word,
}
use xor_os.Cache.Lines.{
  Every, Distinct, erase_line-Every, drop_last-Every, find_line-Every, absent-Every,
  erase_line-absent, erase_line-Distinct, drop_last-Distinct, length-splice, length-drop_last,
}
use xor_os.Cache.Words.{word_at}

-- The line is of an aligned word of the memory, and has its value.
abbrev pub IsCopy : {D : Type 0} → MemoryModel D → Line → Type 0
IsCopy m l = (l.tag % 4 ≡ 0) × (l.tag + 4 ≤ length m.bytes) × (l.value ≡ word_at m l.tag)

-- A memory of whole words, of bytes, and without MMIO regions.
pub record IsWhole {D : Type 0} (m : MemoryModel D) : Type 0 where
  pub plain : IsPlain m
  pub words : length m.bytes % 4 ≡ 0
  pub small : length m.bytes ≤ 2 ^ 32

-- The lines of a cache of `capacity` lines over the memory.
pub record AreCopies {D : Type 0} (m : MemoryModel D) (capacity : ℕ) (lines : List Line)
    : Type 0 where
  pub bounded : length lines ≤ capacity
  pub distinct : Distinct lines
  pub copies : Every (IsCopy m) lines

pub record IsCoherent {D : Type 0} (c : CacheModel D) : Type 0 where
  pub whole : IsWhole c.backing
  pub room : 0 < c.capacity
  pub lines : AreCopies c.backing c.capacity c.lru

-- The memory behind a coherent cache.
pub record Mirrors {D : Type 0} (c : CacheModel D) (m : MemoryModel D) : Type 0 where
  pub backing : c.backing ≡ m
  pub coherent : IsCoherent c

pub read_word-IsWhole :
    {D : Type 0} (m : MemoryModel D) (t : ℕ)
    → IsWhole m
    → Memory.read_word m t
      ≡ (if leb (t + 4) (length m.bytes) then ok (word_at m t) else fail out_of_range)
read_word-IsWhole m t w = (reads_lem m t (find_mmio-IsPlain m w.plain t) w.plain.bytes).2

IsCopy-read_word :
    {D : Type 0} (m : MemoryModel D) (l : Line)
    → IsWhole m
    → IsCopy m l
    → Memory.read_word m l.tag ≡ ok l.value
IsCopy-read_word m l w copy =
    rw (read_word-IsWhole m l.tag w, le→leb _ _ copy.1) (ap ok (sym copy.2))

-- The lines that are left where one more must fit.
abbrev pub kept_lines : ℕ → List Line → List Line
kept_lines capacity lines = if leb capacity (length lines) then drop_last lines else lines

module _ {D : Type 0} where
  evict_lem :
      (c : CacheModel D) (lines : List Line)
      → c.lru ≡ lines
      → 0 < length lines
      → evict c ≡ (ok tt, record c { lru = drop_last lines })
  unfolding evict
  evict_lem c [] e h = elim h [ ]
  evict_lem c (l ∷ lines) e h = rw e

  pub make_room_lem :
      (c : CacheModel D)
      → 0 < c.capacity
      → make_room c ≡ (ok tt, record c { lru = kept_lines c.capacity c.lru })
  unfolding make_room
  make_room_lem c h = elim (Bool-cases (leb c.capacity (length c.lru))) [
    | inl e ↦ rw e (evict_lem c c.lru refl (let le = leb→le _ _ e in omega arith))
    | inr e ↦ rw e
  ]

-- A cache with the lines, after a hit or a miss was counted.
module _ {D : Type 0} (c : CacheModel D) (t : ℕ) where
  pub fetch_word-hit :
      (l : Line)
      → find_line c.lru t ≡ some l
      → fetch_word c t
        ≡ (ok l.value, record c { lru = splice c.lru l; hits = (c.hits + 1) % 2 ^ 64 })
  fetch_word-hit l e = unfold fetch_word in rw (e, fetch_word)

  pub fetch_word-miss :
      find_line c.lru t ≡ none
      → 0 < c.capacity
      → fetch_word c t
        ≡ keep_word
            (record c { lru = kept_lines c.capacity c.lru; misses = (c.misses + 1) % 2 ^ 64 })
            t
            (Memory.read_word c.backing t)
  fetch_word-miss e h =
      unfold fetch_word fill in
      rw (e, make_room_lem (record c { misses = (c.misses + 1) % 2 ^ 64 }) h, fetch_word)

module _ {D : Type 0} (m : MemoryModel D) (capacity : ℕ) (lines : List Line)
    (h : AreCopies m capacity lines) where
  pub splice-AreCopies :
      (t : ℕ) (l : Line) → find_line lines t ≡ some l → AreCopies m capacity (splice lines l)
  unfolding splice
  splice-AreCopies t l e =
      let found = find_line-Every (IsCopy m) lines t l e h.copies in
      record {
        bounded =
            let same = ap (λ (n : ℕ). length (erase_line lines n)) found.1 in
            let le = h.bounded in omega (arith, length-splice lines t l e);
        distinct =
            (erase_line-absent lines l.tag h.distinct, erase_line-Distinct lines l.tag h.distinct);
        copies = (found.0, erase_line-Every (IsCopy m) lines l.tag h.copies);
      }

  kept-AreCopies :
      (t : ℕ)
      → find_line lines t ≡ none
      → 0 < capacity
      → AreCopies m capacity (kept_lines capacity lines)
        × (length (kept_lines capacity lines) < capacity)
        × Every (λ k. k.tag ≢ t) (kept_lines capacity lines)
  kept-AreCopies t e room =
      let le = h.bounded in
      elim (Bool-cases (leb capacity (length lines))) [
        | inl full ↦
            let full_le = leb→le _ _ full in
            rw full (
              record {
                bounded = omega (arith, length-drop_last lines);
                distinct = drop_last-Distinct lines h.distinct;
                copies = drop_last-Every (IsCopy m) lines h.copies;
              },
              omega (arith, length-drop_last lines),
              drop_last-Every (λ k. k.tag ≢ t) lines (absent-Every lines t e),
            )
        | inr free ↦ rw free (h, ground arith, absent-Every lines t e)
      ]

-- A read of a word: the value, and the exception, of the memory.
pub record Fetched {D : Type 0} (c : CacheModel D) (t : ℕ) (r : Outcome ℕ × CacheModel D)
    : Type 0 where
  pub value : r.0 ≡ Memory.read_word c.backing t
  pub backing : r.1.backing ≡ c.backing
  pub coherent : IsCoherent r.1

module _ {D : Type 0} (c : CacheModel D) (t : ℕ) (h : IsCoherent c) where
  hit-Fetched : (l : Line) → find_line c.lru t ≡ some l → Fetched c t (fetch_word c t)
  hit-Fetched l e =
      let found = find_line-Every (IsCopy c.backing) c.lru t l e h.lines.copies in
      rw (fetch_word-hit c t l e) (record {
        value = sym (
            subst (λ (n : ℕ). Memory.read_word c.backing n ≡ ok l.value) found.1
              (IsCopy-read_word c.backing l h.whole found.0));
        backing = refl;
        coherent = record {
          whole = h.whole;
          room = h.room;
          lines = splice-AreCopies c.backing c.capacity c.lru h.lines t l e;
        };
      })

  miss-Fetched : t % 4 ≡ 0 → find_line c.lru t ≡ none → Fetched c t (fetch_word c t)
  miss-Fetched a e =
      let read = read_word-IsWhole c.backing t h.whole in
      let kept = kept-AreCopies c.backing c.capacity c.lru h.lines t e h.room in
      elim (Bool-cases (leb (t + 4) (length c.backing.bytes))) [
        | inl fits ↦
            let found : Memory.read_word c.backing t ≡ ok (word_at c.backing t) = read ∙ rw fits in
            rw (fetch_word-miss c t e h.room, found)
              (unfold keep_word in
                record {
                  value = sym found;
                  backing = refl;
                  coherent = record {
                    whole = h.whole;
                    room = h.room;
                    lines = record {
                      bounded = let le = kept.1 in omega arith;
                      distinct = (kept.2, kept.0.distinct);
                      copies = ((a, leb→le _ _ fits, refl), kept.0.copies);
                    };
                  };
                })
        | inr out ↦
            let found : Memory.read_word c.backing t ≡ fail out_of_range = read ∙ rw out in
            rw (fetch_word-miss c t e h.room, found)
              (unfold keep_word in
                record {
                  value = sym found;
                  backing = refl;
                  coherent = record { whole = h.whole; room = h.room; lines = kept.0 };
                })
      ]

  pub fetch_word-Fetched : t % 4 ≡ 0 → Fetched c t (fetch_word c t)
  fetch_word-Fetched a = elim (Option-cases (find_line c.lru t)) [
    | inl e ↦ miss-Fetched a e
    | inr (l, e) ↦ hit-Fetched l e
  ]

-- A new cache.
pub init-IsCoherent :
    {D : Type 0} (m : MemoryModel D) (capacity : ℕ)
    → IsWhole m
    → 0 < capacity
    → IsCoherent (Cache.init m capacity)
unfolding Cache.init
init-IsCoherent m capacity h room = record {
  whole = h;
  room = room;
  lines = record { bounded = omega arith; distinct = tt; copies = tt };
}
