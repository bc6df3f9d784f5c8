-- ===== src/World/Tests.antt =====
-- src/server.c, on a server with one process that has called exec.
use memprof.Common.{
  if◌then◌else◌, ◌==◌, true, ◌↔◌, ◌<◌, ℕ, arith, ◌∷◌, [], some, none, false, refl, ◌≡◌,
}
use memprof.Process.{Info, mi_exit, mi_free, mp_process_init, mi_new}
use memprof.World.{status_changed, World, was_reset, write_byte}
use memprof.World.Answer.{AnswerTo, control_func-Answered}
use memprof.World.Served.{IsServed}
use memprof.World.Server.{
  received, clone_root, add_clones, mp_server_get_process_clones, open_pid_table, answer,
  exec_process, Connection, find_or_fork, connect, mp_server_find_process, accept_new, control_func,
}
use memprof.World.Life.{
  process_duplicate, process_exec_reset, process_reinit, process_stop_input, process_start_input,
  process_set_status,
}
use memprof.Common.Table.{lookup}
use memprof.Common.Outcome.{out_of_fuel, done, Outcome, aborted}
use mathlib.Core.List.{Memᴰ}
use memprof.World.Clones.{clones_lem}
use memprof.World.Duplicate.{process_duplicate-live, state_of}
use memprof.World.Input.{Packet}
use memprof.Process.Last.{left_in_info}
use memprof.Process.Live.{live}
use memprof.Process.Commands.{get_block_table}
use memprof.World.Restore.{process_reinit-process_duplicate, held}

abbrev one_process : World
one_process = record {
  process = λ n. record mp_process_init { pid = 10 };
  fresh = 1;
  blocks = record {
    cell = λ b. record {
      marked = false;
      is_root = false;
      addr = 0;
      size = 0;
      stack = none;
      refcount = 0;
    };
    freed = λ b. false;
    fresh = 0;
  };
  missing = [];
  pid_table = some ((10, 0) ∷ []);
  events = [];
}

abbrev exec_message : Connection
exec_message = record { operation = mi_new; pid = 0; new_pid = 10 }

abbrev world_of : Outcome World → World
world_of (done w) = w
world_of aborted = one_process
world_of out_of_fuel = one_process

one_process-IsServed : IsServed one_process
unfolding mp_server_find_process lookup mp_process_init
one_process-IsServed = record { found = λ pid n e. ground (arith, e); older = λ n m lt e. cc }

abbrev after_exec : World
after_exec = world_of (control_func 4 (some 3) (received exec_message) true one_process)

-- The process is reset, runs and is answered.
exec_events : after_exec.events ≡ write_byte 3 1 ∷ status_changed 0 ∷ was_reset 0 ∷ []
unfolding control_func connect accept_new find_or_fork exec_process process_exec_reset
    process_reinit process_set_status answer process_start_input mp_server_find_process lookup
    mp_process_init process_stop_input
exec_events = refl

exec_done : control_func 4 (some 3) (received exec_message) true one_process ≡ done after_exec
unfolding control_func connect
exec_done = refl

control_func-Answered_example : AnswerTo 4 3 true (received exec_message) one_process after_exec
control_func-Answered_example =
    control_func-Answered 4 3 true (received exec_message) one_process after_exec
      one_process-IsServed exec_done

-- The process and a thread of it, in the table.
abbrev with_thread : World
with_thread = record one_process {
  process = λ n.
      if n == 0
      then record mp_process_init { pid = 10 }
      else record mp_process_init { pid = 11; clone_of = some 0 };
  fresh = 2;
  pid_table = some ((10, 0) ∷ (11, 1) ∷ []);
}

with_thread-IsServed : IsServed with_thread
unfolding mp_server_find_process lookup mp_process_init
with_thread-IsServed = record {
  found = λ pid n e. ground (arith, e);
  older = λ n m lt e. ground (arith, lt, e);
}

clones_lem_example :
    (Memᴰ 1 (mp_server_get_process_clones with_thread 0)
      ↔ ((pid : ℕ) × Memᴰ (pid, 1) (open_pid_table with_thread) × (clone_root 2 with_thread 1 ≡ 0)))
    × (1 < 2 → (with_thread.process (clone_root 2 with_thread 1)).clone_of ≡ none)
clones_lem_example = clones_lem with_thread 0 1 with_thread-IsServed

-- Both are clones of the process, the last one first.
two_clones : mp_server_get_process_clones with_thread 0 ≡ 1 ∷ 0 ∷ []
unfolding mp_server_get_process_clones add_clones clone_root mp_process_init
two_clones = refl

abbrev with_block : World
with_block = record one_process {
  process = λ n. record mp_process_init {
    pid = 10;
    block_table = some ((8, 0) ∷ []);
    bytes_used = 4;
    n_allocations = 1;
    seqno = 1;
  };
  blocks = record {
    cell = λ b. record {
      marked = false;
      is_root = false;
      addr = 8;
      size = 4;
      stack = none;
      refcount = 1;
    };
    freed = λ b. false;
    fresh = 1;
  };
}

process_duplicate-live_example :
    (live (state_of (process_duplicate 0 with_block) 1) 8 ≡ live (state_of with_block 0) 8)
    × (live (state_of (process_duplicate 0 with_block) 0) 8 ≡ live (state_of with_block 0) 8)
    × (((process_duplicate 0 with_block).process 1).bytes_used ≡ 4)
    × (((process_duplicate 0 with_block).process 1).n_allocations ≡ 1)
    × (((process_duplicate 0 with_block).process 1).seqno ≡ 1)
    × ((process_duplicate 0 with_block).process 0 ≡ with_block.process 0)
unfolding lookup get_block_table
process_duplicate-live_example = process_duplicate-live 0 with_block 8 (omega arith) (refl, tt)

abbrev free_message : Packet
free_message = record {
  info = record {
    operation = mi_free;
    pid = 10;
    seqno = 1;
    old_ptr = 8;
    new_ptr = 0;
    size = 0;
    stack_size = 0;
  };
  whole = true;
  stack = [];
}

-- An exit whose turn makes a queued message run: `info` holds that message, so the loop reads on.
abbrev exit_message : Info
exit_message = record {
  operation = mi_exit;
  pid = 10;
  seqno = 1;
  old_ptr = 0;
  new_ptr = 0;
  size = 0;
  stack_size = 0;
}

exit_overwritten :
    left_in_info
      (record { info = exit_message; stack = none })
      (record mp_process_init {
        seqno = 1;
        command_queue =
            record { info = record exit_message { operation = mi_free; seqno = 2 }; stack = none }
            ∷ [];
      })
    ≡ mi_free
unfolding mp_process_init
exit_overwritten = refl

process_reinit-process_duplicate_example :
    (((process_reinit 1 (process_duplicate 0 with_block)).blocks.cell 0).refcount ≡ 1)
    × ((process_reinit 1 (process_duplicate 0 with_block)).blocks.freed 0 ≡ false)
unfolding lookup get_block_table held
process_reinit-process_duplicate_example =
    process_reinit-process_duplicate 0 with_block 0 (omega arith) (refl, tt) (omega arith)
      (omega arith)
