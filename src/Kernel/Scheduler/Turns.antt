-- ===== src/Kernel/Scheduler/Turns.antt =====
-- os/src/scheduler.c: every process that is ready gets its turn.
use mathlib.Core.Bool.{true≢false}
use xor_os.Base.{
  Bool-cases, inl, inr, ℕ, zero, suc, ◌+◌, ◌-◌, ◌%◌, ◌≤◌, ◌<◌, ◌≡◌, ◌≢◌, refl, sym, ap, ◌∙◌, arith,
  Bool, true, false, ◌==◌, List, some,
}
use xor_os.Kernel.Scheduler.{
  proc_ready, Proc, Scheduler, Outcome, switches, is_ready, is_running, proc_at, find_ready,
  yield_to, sched_yield,
}
use xor_os.Kernel.Scheduler.Table.{find_ready-Ready}
use xor_os.Kernel.Scheduler.Sound.{
  IsSound, handed, handed-state, handed-IsSound, current-runs, current-intact,
}

abbrev pub ready : List Proc → ℕ → Bool
ready procs i = is_ready (proc_at procs i).state

-- What the search finds is ready, and no later than a process that is.
find-Ready :
    (procs : List Proc) (old i n j : ℕ)
    → i ≤ j
    → j < i + n
    → ready procs ((old + j) % 4) ≡ true
    → (k : ℕ) × (find_ready procs old i n ≡ some ((old + k) % 4)) × (i ≤ k) × (k ≤ j)
unfolding find_ready
find-Ready procs old i zero j le lt h = absurd (omega arith)
find-Ready procs old i (suc n) j le lt h = elim (Bool-cases (ready procs ((old + i) % 4))) [
  | inl here ↦ (i, rw here refl, omega arith, le)
  | inr busy ↦
      let other : i ≢ j =
        λ e. true≢false (sym h ∙ ap (λ (k : ℕ). ready procs ((old + k) % 4)) (sym e) ∙ busy) in
      let found = find-Ready procs old (i + 1) n j (omega arith) (omega arith) h in
      (found.0, rw busy found.1, (let least = found.2 in omega arith), found.3)
]

module _ (s : Scheduler) (h : IsSound s) where
  yield-handed :
      (next : ℕ)
      → find_ready s.procs s.current 1 4 ≡ some next
      → sched_yield s ≡ (switches s.current next, handed s h proc_ready next)
  unfolding sched_yield yield_to
  yield-handed next e = rw (current-intact s h, e, current-runs s h) refl

  still-IsSound :
      (next : ℕ)
      → find_ready s.procs s.current 1 4 ≡ some next
      → IsSound (handed s h proc_ready next)
  unfolding is_running
  still-IsSound next e =
      let is = find_ready-Ready s.procs s.current 1 4 next e in
      handed-IsSound s h proc_ready next is.0 refl is.1

  handed-running :
      (next : ℕ)
      → next < 4
      → is_running (proc_at (handed s h proc_ready next).procs next).state ≡ true
  unfolding is_running
  handed-running next lt =
      let here : (next == next) ≡ true = ground arith in
      rw (handed-state s h proc_ready next lt next, here) refl

  handed-ready :
      (next t : ℕ)
      → next < 4
      → next ≢ t
      → ready s.procs t ≡ true
      → ready (handed s h proc_ready next).procs t ≡ true
  unfolding is_ready
  handed-ready next t lt off r =
      let other : (next == t) ≡ false = ground arith in
      elim (Bool-cases (s.current == t)) [
        | inl e ↦ rw (handed-state s h proc_ready next lt t, other, e) refl
        | inr e ↦ rw (handed-state s h proc_ready next lt t, other, e) r
      ]

-- The state after `n` calls.
unfoldable pub yields : ℕ → Scheduler → Scheduler
yields zero s = s
yields (suc n) s = yields n (sched_yield s).1

-- The process `t` is the current one and runs after at most `d` calls, one at least.
abbrev pub Turn : Scheduler → ℕ → ℕ → Type 0
Turn s d t =
    (n : ℕ) × (1 ≤ n)
    × (n ≤ d)
    × ((yields n s).current ≡ t)
    × (is_running (proc_at (yields n s).procs t).state ≡ true)

module _ (s r : Scheduler) (o : Outcome) (moved : sched_yield s ≡ (o, r)) where
  Turn-now :
      (d t : ℕ) → 1 ≤ d → r.current ≡ t → is_running (proc_at r.procs t).state ≡ true → Turn s d t
  unfolding yields
  Turn-now d t one here runs = (
    1,
    omega arith,
    one,
    ap (λ (q : Outcome × Scheduler). q.1.current) moved ∙ here,
    ap (λ (q : Outcome × Scheduler). is_running (proc_at q.1.procs t).state) moved ∙ runs,
  )

  Turn-later : (d m t : ℕ) → m < d → Turn r m t → Turn s d t
  unfolding yields
  Turn-later d m t less turn =
      let n = turn.0 in
      let few = turn.2 in
      (
        suc n,
        omega arith,
        omega arith,
        ap (λ (q : Outcome × Scheduler). (yields n q.1).current) moved ∙ turn.3,
        ap (λ (q : Outcome × Scheduler). is_running (proc_at (yields n q.1).procs t).state) moved
            ∙ turn.4,
      )

yields-Turn :
    (m d : ℕ) (s : Scheduler)
    → d ≤ m
    → IsSound s
    → 1 ≤ d
    → d ≤ 4
    → ready s.procs ((s.current + d) % 4) ≡ true
    → Turn s d ((s.current + d) % 4)
yields-Turn zero d s le h one four r = absurd (omega arith)
yields-Turn (suc m) d s le h one four r =
    let found = find-Ready s.procs s.current 1 4 d one (omega arith) r in
    let k = found.0 in
    let next = (s.current + k) % 4 in
    let inside : next < 4 = omega arith in
    let q = handed s h proc_ready next in
    let moved = yield-handed s h next found.1 in
    let first = found.2 in
    let last = found.3 in
    elim (Bool-cases (k == d)) [
      | inl e ↦
          let same : next ≡ (s.current + d) % 4 = ground arith in
          Turn-now s q (switches s.current next) moved d ((s.current + d) % 4) one same
            (rw⁻¹ same (handed-running s h next inside))
      | inr ne ↦
          let later : k ≢ d = ground arith in
          let t = (next + (d - k)) % 4 in
          let same : t ≡ (s.current + d) % 4 = omega arith in
          let still = handed-ready s h next t inside (omega arith) (rw same r) in
          let turn =
            yields-Turn m (d - k) q (omega arith) (still-IsSound s h next found.1) (omega arith)
              (omega arith) still in
          rw⁻¹ same (Turn-later s q (switches s.current next) moved d (d - k) t (omega arith) turn)
    ]

-- In a table that satisfies the invariant, a process that is ready, `d` places after the current
-- one, is the current one and runs after at most `d` calls of sched_yield.
pub sched_yield-Turn :
    (s : Scheduler) (d : ℕ)
    → IsSound s
    → 1 ≤ d
    → d ≤ 4
    → ready s.procs ((s.current + d) % 4) ≡ true
    → Turn s d ((s.current + d) % 4)
sched_yield-Turn s d = yields-Turn d d s (omega arith)
