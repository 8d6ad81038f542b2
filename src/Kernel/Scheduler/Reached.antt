-- ===== src/Kernel/Scheduler/Reached.antt =====
-- os/src/scheduler.c: the tables that the calls of the kernel lead to.
use mathlib.Core.Bool.{true≢false}
use xor_os.Base.{
  Bool-cases, inl, inr, ℕ, zero, suc, ◌+◌, ◌^◌, ◌<◌, ◌≡◌, refl, sym, ◌∙◌, arith, true, false, ◌==◌,
  if◌then◌else◌, Option, none, some, replicate, length-set, get_or-set,
}
use xor_os.Kernel.Scheduler.{
  ProcState, proc_unused, proc_ready, proc_running, proc_zombie, Proc, Scheduler, switches,
  blank_proc, is_unused, is_running, proc_at, set_state, check_canary, find_unused, sched_init,
  all_unused, spawn_at, sched_spawn, sched_yield, sched_exit, stack_canary,
}
use xor_os.Kernel.Scheduler.Table.{find_unused-Unused}
use xor_os.Kernel.Scheduler.Sound.{IsSound, used, sched_yield-IsSound, sched_exit-IsSound}

-- The table as the loader leaves it.
abbrev pub blank_table : Scheduler
blank_table = record { procs = replicate 4 blank_proc; next_pid = 1; current = 0 }

-- The tables that the calls lead to from the start, where no call has ended the machine and fewer
-- than 2 ^ 32 processes were spawned.
pub data Reaches (trampoline : ℕ) (stack_top : ℕ → ℕ) : Scheduler → Type 0 where
  after_init : Reaches trampoline stack_top (sched_init blank_table)
  after_spawn :
      {s : Scheduler} (entry : ℕ)
      → Reaches trampoline stack_top s
      → s.next_pid + 1 < 2 ^ 32
      → Reaches trampoline stack_top (sched_spawn trampoline stack_top s entry).1
  after_yield :
      {s : Scheduler}
      → Reaches trampoline stack_top s
      → Reaches trampoline stack_top (sched_yield s).1
  after_exit :
      {s : Scheduler} (old next : ℕ)
      → Reaches trampoline stack_top s
      → (sched_exit s).0 ≡ switches old next
      → Reaches trampoline stack_top (sched_exit s).1

-- At the start only the first slot is used.
init-slots :
    (i : ℕ)
    → i < 4
    → (is_running (proc_at (sched_init blank_table).procs i).state ≡ (i == 0))
      × (used (sched_init blank_table) i ≡ true → i ≡ 0)
unfolding sched_init all_unused set_state is_running is_unused
init-slots zero h = (refl, λ u. refl)
init-slots (suc zero) h = (refl, λ u. absurd (true≢false (sym u)))
init-slots (suc (suc zero)) h = (refl, λ u. absurd (true≢false (sym u)))
init-slots (suc (suc (suc zero))) h = (refl, λ u. absurd (true≢false (sym u)))
init-slots (suc (suc (suc (suc i)))) h = absurd (omega arith)

init-IsSound : IsSound (sched_init blank_table)
unfolding sched_init all_unused set_state check_canary
init-IsSound = record {
  whole = refl;
  inside = omega arith;
  runs = λ i h. (init-slots i h).0;
  intact = λ i h u. rw ((init-slots i h).1 u) refl;
  fresh = λ i h u. rw ((init-slots i h).1 u) (omega arith);
  distinct = λ i j h k u v e. (init-slots i h).1 u ∙ sym ((init-slots j k).1 v);
}

unused-stops : (st : ProcState) → is_unused st ≡ true → is_running st ≡ false
unfolding is_running is_unused
unused-stops proc_unused e = refl
unused-stops proc_ready e = refl
unused-stops proc_running e = absurd (true≢false (sym e))
unused-stops proc_zombie e = refl

module _ (trampoline : ℕ) (stack_top : ℕ → ℕ) (s : Scheduler) (h : IsSound s) where
  -- The table with a process in an unused slot.
  abbrev filled : ℕ → ℕ → Scheduler
  filled entry slot = (spawn_at trampoline stack_top s entry (some slot)).1

  module _ (entry slot : ℕ) (lt : slot < 4) (free : is_unused (proc_at s.procs slot).state ≡ true)
      (room : s.next_pid + 1 < 2 ^ 32) where
    filled-at :
        (j : ℕ)
        → ((proc_at (filled entry slot).procs j).state
            ≡ (if slot == j then proc_ready else (proc_at s.procs j).state))
          × ((proc_at (filled entry slot).procs j).pid
              ≡ (if slot == j then s.next_pid else (proc_at s.procs j).pid))
          × ((proc_at (filled entry slot).procs j).canary
              ≡ (if slot == j then stack_canary else (proc_at s.procs j).canary))
    unfolding spawn_at
    filled-at j =
        let whole = h.whole in
        let new : Proc = record {
          state = proc_ready;
          pid = s.next_pid;
          ctx = record {
            ra = trampoline;
            sp = stack_top slot;
            saved = (proc_at s.procs slot).ctx.saved;
          };
          entry = entry;
          canary = stack_canary;
        } in
        let at = get_or-set s.procs slot j new blank_proc (omega arith) in
        elim (Bool-cases (slot == j)) [
          | inl e ↦ rw (at, e) (refl, refl, refl)
          | inr e ↦ rw (at, e) (refl, refl, refl)
        ]

    filled-used :
        (j : ℕ) → used (filled entry slot) j ≡ true → (slot == j) ≡ false → used s j ≡ true
    filled-used j u e = rw ((filled-at j).0, e) at u

    filled-runs :
        (j : ℕ) → j < 4 → is_running (proc_at (filled entry slot).procs j).state ≡ (j == s.current)
    unfolding is_running is_unused
    filled-runs j small =
        let before = h.runs j small in
        elim (Bool-cases (slot == j)) [
          | inl e ↦
              let same : slot ≡ j = ground arith in
              let idle = unused-stops (proc_at s.procs slot).state free in
              rw ((filled-at j).0, e) (rw⁻¹ same (sym idle ∙ h.runs slot lt))
          | inr e ↦ rw ((filled-at j).0, e) before
        ]

    filled-IsSound : IsSound (filled entry slot)
    unfolding spawn_at check_canary
    filled-IsSound = record {
      whole = length-set s.procs slot _ ∙ h.whole;
      inside = h.inside;
      runs = filled-runs;
      intact = λ j small u. elim (Bool-cases (slot == j)) [
        | inl e ↦ rw ((filled-at j).2, e) refl
        | inr e ↦ rw ((filled-at j).2, e) (h.intact j small (filled-used j u e))
      ];
      fresh = λ j small u. elim (Bool-cases (slot == j)) [
        | inl e ↦ rw ((filled-at j).1, e) (omega arith)
        | inr e ↦
            let before = h.fresh j small (filled-used j u e) in
            rw ((filled-at j).1, e) (omega arith)
      ];
      distinct = λ i j a b u v e. elim (Bool-cases (slot == i)) [
        | inl c ↦ elim (Bool-cases (slot == j)) [
          | inl d ↦ ground arith
          | inr d ↦
              let before = h.fresh j b (filled-used j v d) in
              let clash : s.next_pid ≡ (proc_at s.procs j).pid =
                rw ((filled-at i).1, (filled-at j).1, c, d) at e in
              absurd (omega arith)
        ]
        | inr c ↦ elim (Bool-cases (slot == j)) [
          | inl d ↦
              let before = h.fresh i a (filled-used i u c) in
              let clash : (proc_at s.procs i).pid ≡ s.next_pid =
                rw ((filled-at i).1, (filled-at j).1, c, d) at e in
              absurd (omega arith)
          | inr d ↦
              h.distinct i j a b (filled-used i u c) (filled-used j v d)
                (rw ((filled-at i).1, (filled-at j).1, c, d) at e)
        ]
      ];
    }

  spawn_at-IsSound :
      (entry : ℕ) (found : Option ℕ)
      → s.next_pid + 1 < 2 ^ 32
      → find_unused s.procs 0 4 ≡ found
      → IsSound (spawn_at trampoline stack_top s entry found).1
  unfolding spawn_at
  spawn_at-IsSound entry none room e = h
  spawn_at-IsSound entry (some slot) room e =
      let is = find_unused-Unused s.procs 0 4 slot e in filled-IsSound entry slot is.0 is.1 room

  sched_spawn-IsSound :
      (entry : ℕ) → s.next_pid + 1 < 2 ^ 32 → IsSound (sched_spawn trampoline stack_top s entry).1
  unfolding sched_spawn
  sched_spawn-IsSound entry room = spawn_at-IsSound entry (find_unused s.procs 0 4) room refl

-- In every table that the calls of the kernel reach, where none has ended the machine and fewer
-- than 2 ^ 32 processes were spawned, the current process runs and no other does; the canaries of
-- the processes are intact, and their pids are all different.
pub Reaches-IsSound :
    (trampoline : ℕ) (stack_top : ℕ → ℕ) (s : Scheduler)
    → Reaches trampoline stack_top s
    → IsSound s
Reaches-IsSound tr st s after_init = init-IsSound
Reaches-IsSound tr st s (after_spawn {s = t} entry r room) =
    sched_spawn-IsSound tr st t (Reaches-IsSound tr st t r) entry room
Reaches-IsSound tr st s (after_yield {s = t} r) = sched_yield-IsSound t (Reaches-IsSound tr st t r)
Reaches-IsSound tr st s (after_exit {s = t} old next r moved) =
    sched_exit-IsSound t (Reaches-IsSound tr st t r) old next moved
