-- ===== src/LfuCache/Run.antt =====
-- rv32i/cache_src/src/lfu_cache.cpp: `RunLfu` comes to its end.
use xor_os.Base.{
  ℕ, ◌+◌, ◌%◌, ◌^◌, ◌≤◌, suc, ◌≡◌, refl, arith, length, List, [], ◌∷◌, Option, none, some,
}
use mathlib.Core.Path.{subst}
use xor_os.Outcome.{Outcome, ok, fail}
use xor_os.LfuCache.{LfuCache, count_hit, turn, and_next, run_elements, run_lfu, init}
use xor_os.LfuCache.Sound.{IsSound, Fine, get-Sound, put-Fine, init-IsSound}

-- The hits after one turn, at most one more, and a sound cache.
abbrev Counted : ℕ → Outcome ℕ × LfuCache ℕ → Type 0
Counted hits r = (n : ℕ) × (r.0 ≡ ok n) × (n ≤ hits + 1) × IsSound r.1

count_hit-Counted :
    (hits : ℕ) (r : Outcome (Unit {0}) × LfuCache ℕ) → Fine r → Counted hits (count_hit hits r)
unfolding count_hit
count_hit-Counted hits (ok done, c) h = (hits, refl, omega arith, h.1)
count_hit-Counted hits (fail e, c) h = ground arith

turn-Counted :
    (element hits : ℕ) (v : Option ℕ) (r : Outcome (Option ℕ) × LfuCache ℕ)
    → r.0 ≡ ok v
    → IsSound r.1
    → Counted hits (turn element hits r)
unfolding turn
turn-Counted element hits v (ok none, c) e h =
    count_hit-Counted hits _ (put-Fine c element element h)
turn-Counted element hits v (ok (some w), c) e h = ((hits + 1) % 2 ^ 64, refl, omega arith, h)
turn-Counted element hits v (fail f, c) e h = ground arith

ok-inj : {a b : ℕ} → ok a ≡ ok b → b ≡ a
ok-inj e = ground arith

and_next-returns :
    (next : ℕ → LfuCache ℕ → Outcome ℕ) (hits bound : ℕ) (r : Outcome ℕ × LfuCache ℕ)
    → Counted hits r
    → ((n : ℕ) (c : LfuCache ℕ) → IsSound c → (m : ℕ) × (next n c ≡ ok m) × (m ≤ n + bound))
    → (m : ℕ) × (and_next next r ≡ ok m) × (m ≤ hits + suc bound)
unfolding and_next
and_next-returns next hits bound (ok n, c) h k =
    let (m, e, le) = k n c h.3 in
    let counted : n ≤ hits + 1 = subst (λ (x : ℕ). x ≤ hits + 1) (ok-inj h.1) h.2 in
    (m, e, omega arith)
and_next-returns next hits bound (fail e, c) h k = ground arith

run_elements-returns :
    (elements : List ℕ) (hits : ℕ) (c : LfuCache ℕ)
    → IsSound c
    → (m : ℕ) × (run_elements elements hits c ≡ ok m) × (m ≤ hits + length elements)
unfolding run_elements
run_elements-returns [] hits c h = (hits, refl, omega arith)
run_elements-returns (e ∷ elements) hits c h =
    let got = get-Sound c e h in
    and_next-returns (run_elements elements) hits (length elements) _
      (turn-Counted e hits _ _ got.0 got.1) (run_elements-returns elements)

-- `RunLfu` never takes the last key of a bucket that is empty or missing, and never erases from a
-- bucket by an iterator that is missing, of another bucket, or of a key that the bucket no longer
-- has: over every sequence of elements and for every size of the cache, 0 included, it gives a
-- number of hits, which is at most the number of elements.
pub run_lfu-returns :
    (cache_size : ℕ) (elements : List ℕ)
    → (hits : ℕ) × (run_lfu cache_size elements ≡ ok hits) × (hits ≤ length elements)
unfolding run_lfu
run_lfu-returns cache_size elements =
    let (hits, e, le) =
      run_elements-returns elements 0 (init cache_size) (init-IsSound cache_size) in
    (hits, e, omega arith)
