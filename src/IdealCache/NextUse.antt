-- ===== src/IdealCache/NextUse.antt =====
-- rv32i/cache_src/include/ideal_cache.hpp: the next use of a key, that `Put` looks up.
use xor_os.Base.{
  ℕ, zero, suc, ◌≤◌, ◌<◌, ◌≡◌, refl, sym, arith, true, false, leb, leb→le, Bool-cases, inl, inr,
  ◌⊎◌, List, [], ◌∷◌, some,
}
use mathlib.Core.Path.{subst}
use xor_os.IdealCache.{
  IdealCache, KeyAccess, from_index, pass_over, first_or_never, upcoming, advance, look_ahead,
  never,
}

abbrev pub Every : (ℕ → Type 0) → List ℕ → Type 0
Every P [] = Unit
Every P (x ∷ xs) = P x × Every P xs

abbrev pub Ascending : List ℕ → Type 0
Ascending [] = Unit
Ascending (x ∷ xs) = Every (λ y. x ≤ y) xs × Ascending xs

abbrev pub Occurs : ℕ → List ℕ → Type 0
Occurs n [] = n < 0
Occurs n (x ∷ xs) = (x ≡ n) ⊎ Occurs n xs

-- The least position after `p`, or never where no position is after `p`.
abbrev pub IsNextAfter : ℕ → List ℕ → ℕ → Type 0
IsNextAfter p xs n =
    (Occurs n xs × (p < n) × Every (λ y. (y ≤ p) ⊎ (n ≤ y)) xs)
    ⊎ ((n ≡ never) × Every (λ y. y ≤ p) xs)

-- The positions before the index are not after `p`.
abbrev pub PassedBy : ℕ → ℕ → List ℕ → Type 0
PassedBy p zero xs = Unit
PassedBy p (suc i) [] = Unit
PassedBy p (suc i) (x ∷ xs) = (x ≤ p) × PassedBy p i xs

later_only : (p x : ℕ) (xs : List ℕ) → Every (λ y. x ≤ y) xs → Every (λ y. (y ≤ p) ⊎ (x ≤ y)) xs
later_only p x [] h = tt
later_only p x (y ∷ ys) h = (inr h.0, later_only p x ys h.1)

earlier : (p x n : ℕ) (xs : List ℕ) → x ≤ p → IsNextAfter p xs n → IsNextAfter p (x ∷ xs) n
earlier p x n xs h (inl (there, after, least)) = inl (inr there, after, (inl h, least))
earlier p x n xs h (inr (e, passed)) = inr (e, (h, passed))

pass_over-suc : (xs : List ℕ) (p i : ℕ) → pass_over xs p (suc i) ≡ suc (pass_over xs p i)
unfolding pass_over
pass_over-suc [] p i = refl
pass_over-suc (x ∷ xs) p i = elim (Bool-cases (leb x p)) [
  | inl passed ↦ rw passed (pass_over-suc xs p (suc i))
  | inr stop ↦ rw stop refl
]

-- The position where the loop from the index `i` on stops.
abbrev stop : List ℕ → ℕ → ℕ → ℕ
stop xs i p = first_or_never (from_index xs (pass_over (from_index xs i) p i))

stop-passed : (xs : List ℕ) (x p : ℕ) → leb x p ≡ true → stop (x ∷ xs) 0 p ≡ stop xs 0 p
unfolding from_index pass_over
stop-passed xs x p passed = rw (passed, pass_over-suc xs p 0) refl

stop-first : (xs : List ℕ) (x p : ℕ) → leb x p ≡ false → stop (x ∷ xs) 0 p ≡ x
unfolding from_index pass_over first_or_never
stop-first xs x p after = rw after refl

stop-suc : (xs : List ℕ) (x i p : ℕ) → stop (x ∷ xs) (suc i) p ≡ stop xs i p
unfolding from_index
stop-suc xs x i p = rw (pass_over-suc (from_index xs i) p i) refl

stop-start : (xs : List ℕ) (p : ℕ) → Ascending xs → IsNextAfter p xs (stop xs 0 p)
unfolding from_index pass_over first_or_never
stop-start [] p a = inr (refl, tt)
stop-start (x ∷ xs) p a = elim (Bool-cases (leb x p)) [
  | inl passed ↦
      subst (IsNextAfter p (x ∷ xs)) (sym (stop-passed xs x p passed))
        (earlier p x (stop xs 0 p) xs (leb→le _ _ passed) (stop-start xs p a.1))
  | inr after ↦
      subst (IsNextAfter p (x ∷ xs)) (sym (stop-first xs x p after))
        (inl (inl refl, ground arith, (inr (omega arith), later_only p x xs a.0)))
]

stop-from :
    (xs : List ℕ) (i p : ℕ) → Ascending xs → PassedBy p i xs → IsNextAfter p xs (stop xs i p)
unfolding from_index pass_over first_or_never
stop-from xs zero p a h = stop-start xs p a
stop-from [] (suc i) p a h = inr (refl, tt)
stop-from (x ∷ xs) (suc i) p a h =
    subst (IsNextAfter p (x ∷ xs)) (sym (stop-suc xs x i p))
      (earlier p x (stop xs i p) xs h.0 (stop-from xs i p a.1 h.1))

-- What `Put` looks up for a key of the access pattern.
pub look_ahead-IsNextAfter :
    {V : Type 0} (c : IdealCache V) (key position : ℕ) (a : KeyAccess)
    → c.access_sequence key ≡ some a
    → Ascending a.accesses
    → PassedBy position a.current_index a.accesses
    → IsNextAfter position a.accesses (look_ahead c key position).0
unfolding advance upcoming
look_ahead-IsNextAfter c key position a e up passed =
    unfold look_ahead in
    rw (e, look_ahead) (stop-from a.accesses a.current_index position up passed)
