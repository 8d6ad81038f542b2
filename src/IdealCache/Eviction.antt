-- ===== src/IdealCache/Eviction.antt =====
-- rv32i/cache_src/include/ideal_cache.hpp: which entry makes room for a new one.
use xor_os.Base.{
  ℕ, ◌≤◌, ◌<◌, ◌≡◌, ◌≢◌, refl, sym, ap, ◌∙◌, arith, Bool, true, false, ltb, ltb→lt, ◌==◌, ==_iff,
  if◌then◌else◌, Bool-cases, Option-cases, inl, inr, ◌⊎◌, none, some, List, [], ◌∷◌,
}
use mathlib.Core.Bool.{true≢false}
use mathlib.Core.Path.{subst}
use xor_os.IdealCache.{
  IdealCache, CacheEntry, KeyAccess, find_entry, erase_entry, furthest, replace_furthest, insert,
  put_new, look_ahead, put, never,
}
use xor_os.IdealCache.NextUse.{Ascending, PassedBy, IsNextAfter, look_ahead-IsNextAfter}

module _ {V : Type 0} where
  -- Each entry is used at the position or before.
  abbrev pub AllBy : ℕ → List (CacheEntry V) → Type 0
  AllBy n [] = Unit
  AllBy n (e ∷ es) = (e.next_use ≤ n) × AllBy n es

  abbrev pub Holds : List (CacheEntry V) → CacheEntry V → Type 0
  Holds es e = (found : CacheEntry V) × (find_entry es e.key ≡ some found)

  -- The entries after a `Put` of a new entry into a full cache.
  abbrev pub MakesWay : CacheEntry V → List (CacheEntry V) → List (CacheEntry V) → Type 0
  MakesWay new es es' =
      ((es' ≡ es) × ((new.next_use ≡ never) ⊎ AllBy new.next_use es))
      ⊎ ((last : CacheEntry V) × Holds es last
          × AllBy last.next_use es
          × (new.next_use < last.next_use)
          × (es' ≡ new ∷ erase_entry es last.key))

  AllBy-le : (m n : ℕ) (es : List (CacheEntry V)) → m ≤ n → AllBy m es → AllBy n es
  AllBy-le m n [] h a = tt
  AllBy-le m n (e ∷ es) h a = (let le = a.0 in omega arith, AllBy-le m n es h a.1)

  furthest_step :
      (best e : CacheEntry V) (es : List (CacheEntry V)) (b : Bool)
      → ltb best.next_use e.next_use ≡ b
      → furthest best (e ∷ es) ≡ furthest (if b then e else best) es
  unfolding furthest
  furthest_step best e es b h = ap (λ (b : Bool). furthest (if b then e else best) es) h

  furthest-AllBy :
      (best : CacheEntry V) (es : List (CacheEntry V))
      → (best.next_use ≤ (furthest best es).next_use) × AllBy (furthest best es).next_use es
  furthest-AllBy best [] = (unfold furthest in omega arith, tt)
  furthest-AllBy best (e ∷ es) = elim (Bool-cases (ltb best.next_use e.next_use)) [
    | inl later ↦
        let below = furthest-AllBy e es in
        let lt = ltb→lt _ _ later in
        let le = below.0 in
        subst Latest (sym (furthest_step best e es true later)) (omega arith, (le, below.1))
    | inr not_later ↦
        let below = furthest-AllBy best es in
        let le = below.0 in
        subst Latest (sym (furthest_step best e es false not_later)) (le, (ground arith, below.1))
  ]
    where
      Latest : CacheEntry V → Type 0
      Latest f = (best.next_use ≤ f.next_use) × AllBy f.next_use (e ∷ es)

  first-Holds :
      (e : CacheEntry V) (es : List (CacheEntry V)) (f : CacheEntry V)
      → (f ≡ e) ⊎ Holds es f
      → Holds (e ∷ es) f
  unfolding find_entry
  first-Holds e es f h = elim (Bool-cases (e.key == f.key)) [
    | inl same ↦ (e, rw same)
    | inr other ↦ elim h [
      | inl f_e ↦ absurd (
          true≢false
            (sym ((==_iff e.key f.key).1 (sym (ap (λ (x : CacheEntry V). x.key) f_e))) ∙ other))
      | inr (found, there) ↦ (found, rw (other, there))
    ]
  ]

  furthest-Holds :
      (best : CacheEntry V) (es : List (CacheEntry V))
      → (furthest best es ≡ best) ⊎ Holds es (furthest best es)
  furthest-Holds best [] = inl (unfold furthest in refl)
  furthest-Holds best (e ∷ es) = elim (Bool-cases (ltb best.next_use e.next_use)) [
    | inl later ↦
        rw (furthest_step best e es true later)
          (inr (first-Holds e es (furthest e es) (furthest-Holds e es)))
    | inr not_later ↦ rw (furthest_step best e es false not_later) (elim (furthest-Holds best es) [
      | inl same ↦ inl same
      | inr there ↦ inr (first-Holds e es (furthest best es) (inr there))
    ])
  ]

  replace_furthest-MakesWay :
      (c : IdealCache V) (new : CacheEntry V) (es : List (CacheEntry V))
      → c.entries ≡ es
      → MakesWay new es (replace_furthest c new).entries
  replace_furthest-MakesWay c new [] e =
      unfold replace_furthest in rw (e, replace_furthest) (inl (e, inr tt))
  replace_furthest-MakesWay c new (x ∷ es) e =
      let last = furthest x es in
      let all = furthest-AllBy x es in
      elim (Bool-cases (ltb new.next_use last.next_use)) [
        | inl sooner ↦
            unfold replace_furthest in
            rw (e, sooner, replace_furthest)
              (inr
                (last, first-Holds x es last (furthest-Holds x es), all, ltb→lt _ _ sooner, refl))
        | inr later ↦
            unfold replace_furthest in
            rw (e, later, replace_furthest)
              (inl (e, inr (AllBy-le last.next_use new.next_use (x ∷ es) (ground arith) all)))
      ]

  -- The entry that a `Put` of a new key makes, with the next use that its access pattern tells.
  abbrev incoming : IdealCache V → ℕ → V → ℕ → CacheEntry V
  incoming c key value position = record {
    key = key;
    value = value;
    next_use = (look_ahead (record c { current_access_index = position }) key position).0;
  }

  look_ahead-entries :
      (c : IdealCache V) (key position : ℕ)
      → let d = (look_ahead c key position).1 in
        (d.entries ≡ c.entries) × (d.size ≡ c.size) × (d.capacity ≡ c.capacity)
  unfolding look_ahead
  look_ahead-entries c key position = elim (Option-cases (c.access_sequence key)) [
    | inl e ↦ rw (e, look_ahead) (refl, refl, refl)
    | inr (a, e) ↦ rw (e, look_ahead) (refl, refl, refl)
  ]

  insert-MakesWay :
      (c : IdealCache V) (new : CacheEntry V)
      → c.capacity ≤ c.size
      → MakesWay new c.entries (insert c new).entries
  unfolding insert
  insert-MakesWay c new full = elim (Bool-cases (new.next_use == never)) [
    | inl unused ↦ rw unused (inl (refl, inl ((==_iff _ _).0 unused)))
    | inr used ↦
        let no_room : ltb c.size c.capacity ≡ false = ground arith in
        rw (used, no_room) (replace_furthest-MakesWay c new c.entries refl)
  ]

  incoming-MakesWay :
      (c : IdealCache V) (key position : ℕ) (value : V)
      → find_entry c.entries key ≡ none
      → c.capacity ≢ 0
      → c.capacity ≤ c.size
      → MakesWay (incoming c key value position) c.entries (put c key value position).entries
  unfolding put_new
  incoming-MakesWay c key position value absent room full =
      let d : IdealCache V = record c { current_access_index = position } in
      let nonzero : (c.capacity == 0) ≡ false = ground arith in
      let ahead = look_ahead-entries d key position in
      let to_insert : put c key value position
          ≡ insert (look_ahead d key position).1 (incoming c key value position) =
        unfold put in rw (nonzero, absent, put) in
      rw to_insert (
        subst
          (λ (es : List (CacheEntry V)).
            MakesWay (incoming c key value position) es
              (insert (look_ahead d key position).1 (incoming c key value position)).entries)
          ahead.0
          (insert-MakesWay (look_ahead d key position).1 (incoming c key value position)
            (let e = ahead.1 in let e' = ahead.2 in omega arith)))

  -- In a full cache, of a capacity that is not 0, a `Put` of a new key whose accesses ascend, those
  -- before its index not after the position, finds as its next use the least access after the
  -- position, or never if there is none. The entries are as before, where that is never or no entry
  -- has a later recorded next use; or one with that next use replaces an entry whose recorded next
  -- use is the latest of all, and later than its own.
  pub put-MakesWay :
      (c : IdealCache V) (key position : ℕ) (value : V) (a : KeyAccess)
      → find_entry c.entries key ≡ none
      → c.capacity ≢ 0
      → c.capacity ≤ c.size
      → c.access_sequence key ≡ some a
      → Ascending a.accesses
      → PassedBy position a.current_index a.accesses
      → (next : ℕ) × IsNextAfter position a.accesses next
        × MakesWay
            (record { key = key; value = value; next_use = next })
            c.entries
            (put c key value position).entries
  put-MakesWay c key position value a absent room full e up passed =
      let d : IdealCache V = record c { current_access_index = position } in
      (
        (look_ahead d key position).0,
        look_ahead-IsNextAfter d key position a e up passed,
        incoming-MakesWay c key position value absent room full,
      )
