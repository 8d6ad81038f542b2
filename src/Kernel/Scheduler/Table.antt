-- ===== src/Kernel/Scheduler/Table.antt =====
-- os/src/scheduler.c: what a change of a slot does to the table, and what the searches find.
use xor_os.Base.{
  Bool-cases, inl, inr, ℕ, zero, suc, ◌+◌, ◌%◌, ◌<◌, ◌≡◌, refl, ap, arith, true, ◌==◌,
  if◌then◌else◌, List, some, length, length-set, get_or-set,
}
use xor_os.Kernel.Scheduler.{
  ProcState, Proc, blank_proc, is_ready, is_unused, proc_at, set_state, find_ready, find_unused,
}

pub set_state-at :
    (procs : List Proc) (i j : ℕ) (st : ProcState)
    → i < length procs
    → proc_at (set_state procs i st) j
      ≡ (if i == j then record (proc_at procs i) { state = st } else proc_at procs j)
unfolding set_state
set_state-at procs i j st lt =
    get_or-set procs i j (record (proc_at procs i) { state = st }) blank_proc lt

-- No operation on the states changes a canary.
pub set_state-canary :
    (procs : List Proc) (i j : ℕ) (st : ProcState)
    → i < length procs
    → (proc_at (set_state procs i st) j).canary ≡ (proc_at procs j).canary
set_state-canary procs i j st lt = elim (Bool-cases (i == j)) [
  | inl e ↦
      let same : i ≡ j = ground arith in
      rw (set_state-at procs i j st lt, e) (ap (λ (k : ℕ). (proc_at procs k).canary) same)
  | inr ne ↦ rw (set_state-at procs i j st lt, ne) refl
]

pub length-set_state :
    (procs : List Proc) (i : ℕ) (st : ProcState) → length (set_state procs i st) ≡ length procs
unfolding set_state
length-set_state procs i st = length-set procs i (record (proc_at procs i) { state = st })

pub set_state-pid :
    (procs : List Proc) (i j : ℕ) (st : ProcState)
    → i < length procs
    → (proc_at (set_state procs i st) j).pid ≡ (proc_at procs j).pid
set_state-pid procs i j st lt = elim (Bool-cases (i == j)) [
  | inl e ↦
      let same : i ≡ j = ground arith in
      rw (set_state-at procs i j st lt, e) (ap (λ (k : ℕ). (proc_at procs k).pid) same)
  | inr ne ↦ rw (set_state-at procs i j st lt, ne) refl
]

-- What the loops of `sched_yield` and `sched_exit` find is ready.
pub find_ready-Ready :
    (procs : List Proc) (old i n next : ℕ)
    → find_ready procs old i n ≡ some next
    → (next < 4) × (is_ready (proc_at procs next).state ≡ true)
unfolding find_ready
find_ready-Ready procs old i zero next e = absurd (ground arith)
find_ready-Ready procs old i (suc n) next e =
    let rest = find_ready-Ready procs old (i + 1) n next in
    elim (Bool-cases (is_ready (proc_at procs ((old + i) % 4)).state)) [
      | inl here ↦
          let found : some ((old + i) % 4) ≡ some next = rw here at e in ground (arith, found, here)
      | inr busy ↦ rest (rw busy at e)
    ]

-- What the loop of `sched_spawn` finds is unused.
pub find_unused-Unused :
    (procs : List Proc) (i n slot : ℕ)
    → find_unused procs i n ≡ some slot
    → (slot < i + n) × (is_unused (proc_at procs slot).state ≡ true)
unfolding find_unused
find_unused-Unused procs i zero slot e = absurd (ground arith)
find_unused-Unused procs i (suc n) slot e =
    let rest = find_unused-Unused procs (i + 1) n slot in
    elim (Bool-cases (is_unused (proc_at procs i).state)) [
      | inl here ↦ let found : some i ≡ some slot = rw here at e in ground (arith, found, here)
      | inr busy ↦ let later = rest (rw busy at e) in (omega (arith, later.0), later.1)
    ]
