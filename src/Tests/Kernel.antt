-- ===== src/Tests/Kernel.antt =====
-- os/: the theorems on the kernel at concrete inputs.
use xor_os.Base.{◌+◌, ◌*◌, ◌%◌, ℕ, ◌∷◌, ◌≡◌, refl, arith, [], replicate}
use xor_os.Kernel.Pipe.{Pipe, pipe_init, pipe_write, pipe_read}
use xor_os.Base.Int.{negsuc}
use xor_os.Kernel.Scheduler.{
  sched_spawn, sched_init, sched_yield, yield_to, is_running, sched_exit, switches, proc_at,
  find_unused, spawn_at, find_ready, exit_to, is_unused, set_state, all_unused, ProcState,
  proc_ready, proc_running, proc_zombie, Proc, blank_proc, stack_canary, Scheduler, is_ready,
  check_canary,
}
use xor_os.Kernel.Scheduler.Sound.{IsSound}
use xor_os.Kernel.Scheduler.Reached.{
  blank_table, Reaches, after_init, after_spawn, after_yield, Reaches-IsSound,
}
use xor_os.Kernel.Scheduler.Turns.{Turn, sched_yield-Turn}
use xor_os.Kernel.Pipe.Fifo.{IsRing, contents, written, read_out, enqueue, dequeue, pipe-Fifo}

-- Three bytes across the end of the buffer.
abbrev wrapped : Pipe
wrapped = record { buf = replicate 16 7; read_pos = 14; write_pos = 1; count = 3 }

wrapped-IsRing : IsRing wrapped
wrapped-IsRing = record {
  whole = refl;
  fits = omega arith;
  first = omega arith;
  next = omega arith;
}

pipe-Fifo_example :
    (written (pipe_write wrapped 9) ≡ enqueue (contents wrapped) 9)
    × IsRing (pipe_write wrapped 9).1
    × (read_out (pipe_read wrapped) ≡ dequeue (contents wrapped))
    × IsRing (pipe_read wrapped).2
    × (contents (pipe_init wrapped) ≡ [])
    × IsRing (pipe_init wrapped)
pipe-Fifo_example = pipe-Fifo wrapped 9 wrapped-IsRing

-- Process 0 runs, 1 has ended, 2 and 3 are ready.
abbrev table : Scheduler
table =
    let proc : ProcState → ℕ → Proc =
      λ st n. record blank_proc { state = st; pid = n; canary = stack_canary } in
    record {
      procs = proc proc_running 0 ∷ proc proc_zombie 1 ∷ proc proc_ready 2 ∷ proc proc_ready 3 ∷ [];
      next_pid = 4;
      current = 0;
    }

-- After two calls of sched_spawn and one of sched_yield, process 1 runs, 0 and 2 are ready.
abbrev three : Scheduler
three =
    let spawned = λ (s : Scheduler). (sched_spawn 0x80 (λ i. 0x9000 + i * 0x1000) s 0x44).1 in
    (sched_yield (spawned (spawned (sched_init blank_table)))).1

three-Reaches : Reaches 0x80 (λ i. 0x9000 + i * 0x1000) three
unfolding sched_init sched_spawn spawn_at find_unused all_unused set_state is_unused
three-Reaches =
    after_yield (after_spawn 0x44 (after_spawn 0x44 after_init (omega arith)) (omega arith))

Reaches-IsSound_example : IsSound three
Reaches-IsSound_example = Reaches-IsSound 0x80 (λ i. 0x9000 + i * 0x1000) three three-Reaches

sched_yield-Turn_example : Turn three 3 ((three.current + 3) % 4)
unfolding is_ready sched_init sched_spawn spawn_at find_unused all_unused set_state is_unused
    sched_yield check_canary yield_to find_ready is_running
sched_yield-Turn_example =
    sched_yield-Turn three 3 Reaches-IsSound_example (omega arith) (omega arith) refl

-- No slot of the table is free.
spawn_full : (sched_spawn 64 (λ i. 1000 + i) table 8).0 ≡ negsuc 0
unfolding sched_spawn find_unused spawn_at is_unused
spawn_full = refl

-- After sched_init the first process that is spawned takes slot 1.
spawn_first :
    (proc_at (sched_spawn 64 (λ i. 1000 + i) (sched_init table) 8).1.procs 1).ctx.sp ≡ 1001
unfolding sched_spawn spawn_at find_unused is_unused sched_init all_unused set_state
spawn_first = refl

-- Process 0 ends, and the next one that is ready runs.
exit_switches : (sched_exit table).0 ≡ switches 0 2
unfolding sched_exit check_canary exit_to find_ready is_ready set_state
exit_switches = refl
