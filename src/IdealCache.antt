-- ===== src/IdealCache.antt =====
-- rv32i/cache_src/include/ideal_cache.hpp: `IdealCache`, which knows when each key will be used
-- again. Keys are only compared: here they are numbers. `data_` is the list of its entries in the
-- order in which the map is walked; where a new entry goes in that order is open in C++, and here
-- it goes first. The positions are less than 2 ^ 64 - 1, the value that stands for never.
-- `DumpCache` only prints.
pub mod Eviction
pub mod NextUse
use xor_os.Base.{
  ℕ, zero, suc, ◌+◌, ◌-◌, ◌%◌, ◌^◌, Bool, true, false, ltb, leb, ◌==◌, if◌then◌else◌, List, [], ◌∷◌,
  Option, none, some,
}

abbrev pub never : ℕ
never = 2 ^ 64 - 1

pub record CacheEntry (V : Type 0) : Type 0 where
  pub key : ℕ
  pub value : V
  pub next_use : ℕ

pub record KeyAccess : Type 0 where
  pub accesses : List ℕ
  pub current_index : ℕ

pub record IdealCache (V : Type 0) : Type 0 where
  pub access_sequence : ℕ → Option KeyAccess
  pub entries : List (CacheEntry V)
  pub capacity : ℕ
  pub size : ℕ
  pub current_access_index : ℕ

-- `positions` from the index on.
unfoldable pub from_index : List ℕ → ℕ → List ℕ
from_index xs zero = xs
from_index [] (suc i) = []
from_index (x ∷ xs) (suc i) = from_index xs i

-- The loop that passes over the positions up to `position`: the index where it stops.
unfoldable pub pass_over : List ℕ → ℕ → ℕ → ℕ
pass_over [] position idx = idx
pass_over (x ∷ xs) position idx =
    let rest = pass_over xs position (suc idx) in if leb x position then rest else idx

unfoldable pub advance : KeyAccess → ℕ → KeyAccess
advance a position = record a {
  current_index = pass_over (from_index a.accesses a.current_index) position a.current_index;
}

-- The position at the index, or never.
unfoldable pub first_or_never : List ℕ → ℕ
first_or_never [] = never
first_or_never (x ∷ xs) = x

unfoldable pub upcoming : KeyAccess → ℕ
upcoming a = first_or_never (from_index a.accesses a.current_index)

-- `access_sequence_[key]`, which makes an empty one for a new key.
unfoldable pub sequence_of : (ℕ → Option KeyAccess) → ℕ → KeyAccess
sequence_of s key = elim (s key) [
  | none ↦ (let a : KeyAccess = record { accesses = []; current_index = 0 } in a)
  | some a ↦ a
]

unfoldable pub set_sequence : (ℕ → Option KeyAccess) → ℕ → KeyAccess → ℕ → Option KeyAccess
set_sequence s key a = λ k. if key == k then some a else s k

module _ {V : Type 0} where
  -- `data_.find(key)`
  unfoldable pub find_entry : List (CacheEntry V) → ℕ → Option (CacheEntry V)
  find_entry [] key = none
  find_entry (e ∷ es) key = if e.key == key then some e else find_entry es key

  unfoldable pub set_entry : List (CacheEntry V) → CacheEntry V → List (CacheEntry V)
  set_entry [] new = []
  set_entry (e ∷ es) new =
      let rest = set_entry es new in if e.key == new.key then new ∷ es else e ∷ rest

  unfoldable pub erase_entry : List (CacheEntry V) → ℕ → List (CacheEntry V)
  erase_entry [] key = []
  erase_entry (e ∷ es) key = let rest = erase_entry es key in if e.key == key then es else e ∷ rest

  -- The walk of `Put` for the entry of the latest next use, the first of these; none in an empty
  -- map.
  unfoldable pub furthest : CacheEntry V → List (CacheEntry V) → CacheEntry V
  furthest best [] = best
  furthest best (e ∷ es) = furthest (if ltb best.next_use e.next_use then e else best) es

  unfoldable pub init : ℕ → IdealCache V
  init capacity = record {
    access_sequence = λ k. none;
    entries = [];
    capacity = capacity;
    size = 0;
    current_access_index = 0;
  }

  unfoldable pub load_access_pattern : IdealCache V → ℕ → List ℕ → IdealCache V
  load_access_pattern c key positions =
      let a : KeyAccess = record { accesses = positions; current_index = 0 } in
      record c { access_sequence = set_sequence c.access_sequence key a }

  -- One turn of `UpdateNextUses`, and the loop over the entries that are left.
  unfoldable pub renew :
      ℕ → (ℕ → Option KeyAccess) → CacheEntry V → CacheEntry V × (ℕ → Option KeyAccess)
  renew position s e = elim (s e.key) [
    | none ↦ (record e { next_use = never }, s)
    | some a ↦
        let b = advance a position in (record e { next_use = upcoming b }, set_sequence s e.key b)
  ]

  unfoldable pub renew_all :
      ℕ
      → (ℕ → Option KeyAccess)
      → List (CacheEntry V)
      → List (CacheEntry V) × (ℕ → Option KeyAccess)
  renew_all position s [] = ([], s)
  renew_all position s (e ∷ es) =
      let r = renew position s e in let rest = renew_all position r.1 es in (r.0 ∷ rest.0, rest.1)

  unfoldable pub update_next_uses : IdealCache V → IdealCache V
  update_next_uses c =
      let r = renew_all c.current_access_index c.access_sequence c.entries in
      record c { entries = r.0; access_sequence = r.1 }

  unfoldable pub get : IdealCache V → ℕ → Option V × IdealCache V
  get c key = elim (find_entry c.entries key) [
    | none ↦ (none, c)
    | some e ↦ (
      some e.value,
      update_next_uses (record c { current_access_index = (c.current_access_index + 1) % 2 ^ 64 }),
    )
  ]

  unfoldable pub contains : IdealCache V → ℕ → Bool
  contains c key = elim (find_entry c.entries key) [ none ↦ false | some e ↦ true ]

  -- `Put` of a key that is there.
  unfoldable pub put_old : IdealCache V → ℕ → V → ℕ → IdealCache V
  put_old c key value position =
      let a = advance (sequence_of c.access_sequence key) position in
      let e : CacheEntry V = record { key = key; value = value; next_use = upcoming a } in
      record c {
        entries = set_entry c.entries e;
        access_sequence = set_sequence c.access_sequence key a;
        current_access_index = position;
      }

  -- The next use of a new key, with its sequence moved on.
  unfoldable pub look_ahead : IdealCache V → ℕ → ℕ → ℕ × IdealCache V
  look_ahead c key position = elim (c.access_sequence key) [
    | none ↦ (never, c)
    | some a ↦
        let b = advance a position in
        (upcoming b, record c { access_sequence = set_sequence c.access_sequence key b })
  ]

  -- `Remove`, which nothing calls.
  unfoldable pub remove : IdealCache V → IdealCache V
  remove c = elim c.entries [
    | [] ↦ c
    | e ∷ es ↦ record c {
      entries = erase_entry (e ∷ es) (furthest e es).key;
      size = (c.size + 2 ^ 64 - 1) % 2 ^ 64;
    }
  ]

  -- A new entry in the place of the one that is used last, if that is used later.
  unfoldable pub replace_furthest : IdealCache V → CacheEntry V → IdealCache V
  replace_furthest c new = elim c.entries [
    | [] ↦ c
    | e ∷ es ↦
        let last = furthest e es in
        if ltb new.next_use last.next_use
        then record c { entries = new ∷ erase_entry (e ∷ es) last.key }
        else c
  ]

  unfoldable pub insert : IdealCache V → CacheEntry V → IdealCache V
  insert c new =
      if new.next_use == never
      then c
      else if ltb c.size c.capacity
      then record c { entries = new ∷ c.entries; size = (c.size + 1) % 2 ^ 64 }
      else replace_furthest c new

  unfoldable pub put_new : ℕ → V → ℕ × IdealCache V → IdealCache V
  put_new key value (next_use, c) =
      let new : CacheEntry V = record { key = key; value = value; next_use = next_use } in
      insert c new

  unfoldable pub put : IdealCache V → ℕ → V → ℕ → IdealCache V
  put c key value position =
      let d : IdealCache V = record c { current_access_index = position } in
      if c.capacity == 0 then c else elim (find_entry c.entries key) [
        | some e ↦ put_old d key value position
        | none ↦ put_new key value (look_ahead d key position)
      ]
