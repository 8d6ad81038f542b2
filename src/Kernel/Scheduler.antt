-- ===== src/Kernel/Scheduler.antt =====
-- os/include/process.h and os/src/scheduler.c: the table of processes and the round-robin
-- scheduler. `context_switch` is assembly: an operation says which contexts it switches. The
-- addresses the compiler chooses, of the trampoline and of the top of each stack, are parameters.
-- The state of the machine that `sys_exit` halts is the state reached.
mod Table
pub mod Turns
pub mod Sound
pub mod Reached
use xor_os.Base.{
  ℕ, zero, suc, ◌+◌, ◌%◌, ◌^◌, ◌==◌, Bool, true, false, if◌then◌else◌, List, Option, none, some,
  get_or, replicate,
}
use xor_os.Base.{set as set_elem}
use xor_os.Base.Int.{ℤ, negsuc}
use xor_os.Base.Word.{rv32, to_signed}

abbrev pub max_procs : ℕ
max_procs = 4

abbrev pub stack_canary : ℕ
stack_canary = 3735928559

pub data ProcState : Type 0 where
  proc_unused : ProcState
  proc_ready : ProcState
  proc_running : ProcState
  proc_zombie : ProcState

-- `saved` is the registers from s0 to s11.
pub record Context : Type 0 where
  pub ra : ℕ
  pub sp : ℕ
  pub saved : List ℕ

-- Of the stack only the canary is read or written here.
pub record Proc : Type 0 where
  pub state : ProcState
  pub pid : ℕ
  pub ctx : Context
  pub entry : ℕ
  pub canary : ℕ

pub record Scheduler : Type 0 where
  pub procs : List Proc
  pub next_pid : ℕ
  pub current : ℕ

pub data Outcome : Type 0 where
  returns : Outcome
  switches : ℕ → ℕ → Outcome
  exits : Outcome

-- What a static table starts with.
abbrev pub blank_proc : Proc
blank_proc = record {
  state = proc_unused;
  pid = 0;
  ctx = record { ra = 0; sp = 0; saved = replicate 12 0 };
  entry = 0;
  canary = 0;
}

unfoldable pub is_unused : ProcState → Bool
is_unused proc_unused = true
is_unused proc_ready = false
is_unused proc_running = false
is_unused proc_zombie = false

unfoldable pub is_ready : ProcState → Bool
is_ready proc_unused = false
is_ready proc_ready = true
is_ready proc_running = false
is_ready proc_zombie = false

unfoldable pub is_running : ProcState → Bool
is_running proc_unused = false
is_running proc_ready = false
is_running proc_running = true
is_running proc_zombie = false

abbrev pub proc_at : List Proc → ℕ → Proc
proc_at procs i = get_or procs i blank_proc

unfoldable pub set_state : List Proc → ℕ → ProcState → List Proc
set_state procs i st = set_elem procs i (record (proc_at procs i) { state = st })

-- The test of `check_canary`, which exits where it fails.
unfoldable pub check_canary : Scheduler → ℕ → Bool
check_canary s i = (proc_at s.procs i).canary == stack_canary

unfoldable pub all_unused : List Proc → ℕ → List Proc
all_unused procs zero = procs
all_unused procs (suc n) = set_state (all_unused procs n) n proc_unused

unfoldable pub sched_init : Scheduler → Scheduler
sched_init s =
    let procs = all_unused s.procs max_procs in
    let first = proc_at procs 0 in
    record s {
      procs =
          set_elem procs 0 (record first { state = proc_running; pid = 0; canary = stack_canary });
    }

-- The slot that the loop of `sched_spawn` takes, from `i` on.
unfoldable pub find_unused : List Proc → ℕ → ℕ → Option ℕ
find_unused procs i zero = none
find_unused procs i (suc n) =
    let rest = find_unused procs (i + 1) n in
    if is_unused (proc_at procs i).state then some i else rest

unfoldable pub spawn_at : ℕ → (ℕ → ℕ) → Scheduler → ℕ → Option ℕ → ℤ × Scheduler
spawn_at trampoline stack_top s entry none = (negsuc 0, s)
spawn_at trampoline stack_top s entry (some i) =
    let p = proc_at s.procs i in
    (
      to_signed rv32 s.next_pid,
      record s {
        procs = set_elem s.procs i (record {
          state = proc_ready;
          pid = s.next_pid;
          ctx = record { ra = trampoline; sp = stack_top i; saved = p.ctx.saved };
          entry = entry;
          canary = stack_canary;
        });
        next_pid = (s.next_pid + 1) % 2 ^ 32;
      },
    )

unfoldable pub sched_spawn : ℕ → (ℕ → ℕ) → Scheduler → ℕ → ℤ × Scheduler
sched_spawn trampoline stack_top s entry =
    spawn_at trampoline stack_top s entry (find_unused s.procs 0 max_procs)

-- The process that the loops of `sched_yield` and `sched_exit` find, from the turn `i` on.
unfoldable pub find_ready : List Proc → ℕ → ℕ → ℕ → Option ℕ
find_ready procs old i zero = none
find_ready procs old i (suc n) =
    let rest = find_ready procs old (i + 1) n in
    let next = (old + i) % max_procs in
    if is_ready (proc_at procs next).state then some next else rest

unfoldable pub yield_to : Scheduler → Option ℕ → Outcome × Scheduler
yield_to s none = (returns, s)
yield_to s (some next) =
    let old = s.current in
    let procs =
      if is_running (proc_at s.procs old).state
      then set_state s.procs old proc_ready
      else s.procs in
    (switches old next, record s { procs = set_state procs next proc_running; current = next })

unfoldable pub sched_yield : Scheduler → Outcome × Scheduler
sched_yield s =
    if check_canary s s.current
    then yield_to s (find_ready s.procs s.current 1 max_procs)
    else (exits, s)

unfoldable pub exit_to : Scheduler → Option ℕ → Outcome × Scheduler
exit_to s none = (exits, s)
exit_to s (some next) = (
  switches s.current next,
  record s { procs = set_state s.procs next proc_running; current = next },
)

unfoldable pub sched_exit : Scheduler → Outcome × Scheduler
sched_exit s =
    let procs = set_state s.procs s.current proc_zombie in
    if check_canary s s.current
    then exit_to (record s { procs = procs }) (find_ready procs s.current 1 max_procs)
    else (exits, s)
