-- ===== src/Kernel/Scheduler/Sound.antt =====
-- os/src/scheduler.c: the invariant of the table of processes, and that a process that gives way
-- keeps it.
use mathlib.Core.Bool.{true≢false}
use xor_os.Base.{
  Bool-cases, inl, inr, ℕ, ◌<◌, ◌≡◌, refl, sym, ◌∙◌, arith, Bool, true, false, not, ◌==◌,
  if◌then◌else◌, List, Option, none, some, length,
}
use xor_os.Kernel.Scheduler.{
  ProcState, proc_unused, proc_ready, proc_running, proc_zombie, Proc, Scheduler, switches,
  is_ready, is_unused, is_running, proc_at, set_state, check_canary, find_ready, yield_to,
  sched_yield, exit_to, sched_exit,
}
use xor_os.Kernel.Scheduler.Table.{
  set_state-at, set_state-canary, set_state-pid, length-set_state, find_ready-Ready,
}

abbrev pub used : Scheduler → ℕ → Bool
used s i = not (is_unused (proc_at s.procs i).state)

-- The current process runs and no other does; the stacks of the processes are intact, and their
-- numbers are below the next one and all different.
pub record IsSound (s : Scheduler) : Type 0 where
  pub whole : length s.procs ≡ 4
  pub inside : s.current < 4
  pub runs : (i : ℕ) → i < 4 → is_running (proc_at s.procs i).state ≡ (i == s.current)
  pub intact : (i : ℕ) → i < 4 → used s i ≡ true → check_canary s i ≡ true
  pub fresh : (i : ℕ) → i < 4 → used s i ≡ true → (proc_at s.procs i).pid < s.next_pid
  pub distinct :
      (i j : ℕ)
      → i < 4
      → j < 4
      → used s i ≡ true
      → used s j ≡ true
      → (proc_at s.procs i).pid ≡ (proc_at s.procs j).pid
      → i ≡ j

ready-used : (st : ProcState) → is_ready st ≡ true → not (is_unused st) ≡ true
unfolding is_ready is_unused
ready-used proc_unused e = absurd (true≢false (sym e))
ready-used proc_ready e = refl
ready-used proc_running e = refl
ready-used proc_zombie e = refl

running-used : (st : ProcState) → is_running st ≡ true → not (is_unused st) ≡ true
unfolding is_running is_unused
running-used proc_unused e = absurd (true≢false (sym e))
running-used proc_ready e = refl
running-used proc_running e = refl
running-used proc_zombie e = refl

module _ (s : Scheduler) (h : IsSound s) where
  -- The current process gives way, with a new state, to the one at `next`.
  abbrev pub handed : ProcState → ℕ → Scheduler
  handed st next = record s {
    procs = set_state (set_state s.procs s.current st) next proc_running;
    current = next;
  }

  module _ (st : ProcState) (next : ℕ) (lt : next < 4) where
    pub handed-state :
        (j : ℕ)
        → (proc_at (handed st next).procs j).state ≡ (
            if next == j
            then proc_running
            else (if s.current == j then st else (proc_at s.procs j).state))
    handed-state j =
        let whole = h.whole in
        let inside = h.inside in
        let len = length-set_state s.procs s.current st in
        let here = set_state-at s.procs s.current j st (omega arith) in
        let there =
          set_state-at (set_state s.procs s.current st) next j proc_running (omega arith) in
        elim (Bool-cases (next == j)) [
          | inl e ↦ rw (there, e) refl
          | inr e ↦ elim (Bool-cases (s.current == j)) [
            | inl f ↦ rw (there, e, here, f) refl
            | inr f ↦ rw (there, e, here, f) refl
          ]
        ]

    handed-same :
        (j : ℕ)
        → ((proc_at (handed st next).procs j).canary ≡ (proc_at s.procs j).canary)
          × ((proc_at (handed st next).procs j).pid ≡ (proc_at s.procs j).pid)
    handed-same j =
        let whole = h.whole in
        let inside = h.inside in
        let len = length-set_state s.procs s.current st in
        (
          set_state-canary (set_state s.procs s.current st) next j proc_running (omega arith)
              ∙ set_state-canary s.procs s.current j st (omega arith),
          set_state-pid (set_state s.procs s.current st) next j proc_running (omega arith)
              ∙ set_state-pid s.procs s.current j st (omega arith),
        )

    module _ (stopped : is_running st ≡ false)
        (ready : is_ready (proc_at s.procs next).state ≡ true) where
      handed-runs :
          (j : ℕ) → j < 4 → is_running (proc_at (handed st next).procs j).state ≡ (j == next)
      unfolding is_running
      handed-runs j small =
          let before = h.runs j small in
          elim (Bool-cases (next == j)) [
            | inl e ↦ rw (handed-state j, e) ground arith
            | inr e ↦ elim (Bool-cases (s.current == j)) [
              | inl f ↦ rw (handed-state j, e, f, stopped) ground arith
              | inr f ↦ rw (handed-state j, e, f, before) ground arith
            ]
          ]

      -- A process that is used now was used before.
      handed-used : (j : ℕ) → j < 4 → used (handed st next) j ≡ true → used s j ≡ true
      unfolding is_unused is_ready is_running
      handed-used j small u =
          let before = h.runs j small in
          elim (Bool-cases (next == j)) [
            | inl e ↦
                let same : next ≡ j = ground arith in
                rw⁻¹ same (ready-used (proc_at s.procs next).state ready)
            | inr e ↦ elim (Bool-cases (s.current == j)) [
              | inl f ↦
                  let same : s.current ≡ j = ground arith in
                  let runs : (j == s.current) ≡ true = ground arith in
                  running-used (proc_at s.procs j).state (before ∙ runs)
              | inr f ↦ rw (handed-state j, e, f) at u
            ]
          ]

      pub handed-IsSound : IsSound (handed st next)
      unfolding check_canary
      handed-IsSound = record {
        whole =
            length-set_state (set_state s.procs s.current st) next proc_running
            ∙ length-set_state s.procs s.current st
            ∙ h.whole;
        inside = lt;
        runs = handed-runs;
        intact = λ j small u. rw ((handed-same j).0) (h.intact j small (handed-used j small u));
        fresh = λ j small u. rw ((handed-same j).1) (h.fresh j small (handed-used j small u));
        distinct = λ i j a b u v e.
            h.distinct i j a b (handed-used i a u) (handed-used j b v)
              (sym (handed-same i).1 ∙ e ∙ (handed-same j).1);
      }

  pub current-runs : is_running (proc_at s.procs s.current).state ≡ true
  current-runs = let runs = h.runs s.current h.inside in ground arith

  pub current-intact : check_canary s s.current ≡ true
  current-intact =
      h.intact s.current h.inside (running-used (proc_at s.procs s.current).state current-runs)

  yield_to-IsSound :
      (found : Option ℕ) → find_ready s.procs s.current 1 4 ≡ found → IsSound (yield_to s found).1
  unfolding yield_to is_running
  yield_to-IsSound none e = h
  yield_to-IsSound (some next) e =
      let is = find_ready-Ready s.procs s.current 1 4 next e in
      rw current-runs (handed-IsSound proc_ready next is.0 refl is.1)

  pub sched_yield-IsSound : IsSound (sched_yield s).1
  unfolding sched_yield
  sched_yield-IsSound = rw current-intact (yield_to-IsSound (find_ready s.procs s.current 1 4) refl)

  -- The table in which `sched_exit` searches.
  abbrev left : List Proc
  left = set_state s.procs s.current proc_zombie

  left-Ready :
      (next : ℕ)
      → is_ready (proc_at left next).state ≡ true
      → is_ready (proc_at s.procs next).state ≡ true
  unfolding is_ready
  left-Ready next ready =
      let whole = h.whole in
      let inside = h.inside in
      let at = set_state-at s.procs s.current next proc_zombie (omega arith) in
      elim (Bool-cases (s.current == next)) [
        | inl e ↦ absurd (true≢false (sym (rw (at, e) at ready)))
        | inr e ↦ rw (at, e) at ready
      ]

  exit_to-IsSound :
      (found : Option ℕ) (a b : ℕ)
      → find_ready left s.current 1 4 ≡ found
      → (exit_to (record s { procs = left }) found).0 ≡ switches a b
      → IsSound (exit_to (record s { procs = left }) found).1
  unfolding exit_to is_running is_unused
  exit_to-IsSound none a b e moved = absurd (ground arith)
  exit_to-IsSound (some next) a b e moved =
      let is = find_ready-Ready left s.current 1 4 next e in
      handed-IsSound proc_zombie next is.0 refl (left-Ready next is.1)

  pub sched_exit-IsSound : (a b : ℕ) → (sched_exit s).0 ≡ switches a b → IsSound (sched_exit s).1
  unfolding sched_exit
  sched_exit-IsSound a b moved =
      rw current-intact
        (exit_to-IsSound (find_ready left s.current 1 4) a b refl (rw current-intact at moved))
