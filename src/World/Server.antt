-- ===== src/World/Server.antt =====
-- src/server.c: the table of processes, and the connections of new processes.
use memprof.Common.{Bool, if◌then◌else◌, ◌==◌, ◌∷◌, [], List, some, none, Option, suc, zero, ℕ}
use memprof.Process.{mi_new, mi_fork, running, mi_clone, Operation}
use memprof.World.{World, write_byte, emit, set_process, close_fd, process_created}
use memprof.World.Life.{
  process_exec_reset, process_start_input, process_set_status, process_new, process_duplicate,
}
use memprof.Common.Table.{insert, Table, lookup, remove}
use memprof.Common.Outcome.{done, aborted, ◌>>=◌, Outcome}
use memprof.Intercept.Calls.{message}

unfoldable pub mp_server_find_process : ℕ → World → Option ℕ
unfolding lookup
mp_server_find_process pid w = elim w.pid_table [ none ↦ none | some t ↦ lookup pid t ]

abbrev pub open_pid_table : World → Table ℕ
open_pid_table w = elim w.pid_table [ none ↦ [] | some t ↦ t ]

unfoldable pub mp_server_add_process : ℕ → World → World
unfolding insert
mp_server_add_process n w = record w {
  pid_table = some (insert (w.process n).pid n (open_pid_table w));
}

-- `g_return_if_fail` returns without a change.
unfoldable pub mp_server_remove_process : ℕ → World → World
unfolding lookup remove
mp_server_remove_process n w = elim w.pid_table [
  | none ↦ w
  | some t ↦ elim (lookup (w.process n).pid t) [
    | none ↦ w
    | some m ↦ if m == n then record w { pid_table = some (remove (w.process n).pid t) } else w
  ]
]

-- The `while (process->clone_of)` loops, on fuel. A clone is created after the process that it is a
-- clone of, so as many rounds as there are processes are enough.
unfoldable pub clone_root : ℕ → World → ℕ → ℕ
clone_root zero w n = n
clone_root (suc f) w n = elim (w.process n).clone_of [ none ↦ n | some m ↦ clone_root f w m ]

-- `g_hash_table_foreach` with `add_clone`.
unfoldable pub add_clones : World → ℕ → Table ℕ → List ℕ → List ℕ
unfolding clone_root
add_clones w parent [] result = result
add_clones w parent ((pid, n) ∷ t) result =
    add_clones w parent t (if clone_root w.fresh w n == parent then n ∷ result else result)

unfoldable pub mp_server_get_process_clones : World → ℕ → List ℕ
unfolding add_clones
mp_server_get_process_clones w n = add_clones w n (open_pid_table w) []

-- The message of a new connection: MIInfoFork for MI_FORK, MI_NEW and MI_CLONE.
pub record Connection : Type 0 where
  pub operation : Operation
  pub pid : ℕ
  pub new_pid : ℕ

-- The new process that takes the place of a process which follows an exec: number `fresh`.
unfoldable pub replace_process : ℕ → World → World
unfolding process_new mp_server_add_process
replace_process n w =
    let u = process_new w in
    let p = w.process n in
    let q = record (u.process w.fresh) { pid = p.pid; parent = p.parent } in
    emit (process_created w.fresh) (mp_server_add_process w.fresh (set_process w.fresh q u))

-- The branch of MI_NEW where the pid is known: an exec.
unfoldable pub exec_process : ℕ → World → World × ℕ
unfolding replace_process process_exec_reset
exec_process n w =
    if (w.process n).follow_exec
    then (replace_process n w, w.fresh)
    else (process_exec_reset n w, n)

-- The duplicate of a process, with its own pid: number `fresh`.
unfoldable pub register_child : ℕ → ℕ → World → World
unfolding process_duplicate mp_server_add_process
register_child parent pid w =
    let u = process_duplicate parent w in
    let v = set_process w.fresh (record (u.process w.fresh) { pid = pid }) u in
    emit (process_created w.fresh) (mp_server_add_process w.fresh v)

-- The branch of MI_NEW where the pid is new.
unfoldable pub fork_process : Connection → World → Option (World × ℕ)
unfolding mp_server_find_process register_child
fork_process c w = elim (mp_server_find_process c.pid w) [
  | none ↦ none
  | some parent ↦ some (register_child parent c.new_pid w, w.fresh)
]

unfoldable pub find_or_fork : Connection → World → Option (World × ℕ)
unfolding mp_server_find_process exec_process fork_process
find_or_fork c w = elim (mp_server_find_process c.new_pid w) [
  | some n ↦ some (exec_process n w)
  | none ↦ fork_process c w
]

-- MI_NEW, and MI_FORK after its test.
unfoldable pub accept_new : Connection → World → Option (World × ℕ)
unfolding find_or_fork process_set_status
accept_new c w = elim (find_or_fork c w) [
  | none ↦ none
  | some r ↦ some (process_set_status r.1 running r.0, r.1)
]

-- The new process of a thread: number `fresh`.
unfoldable pub register_clone : ℕ → ℕ → World → World
unfolding process_new process_set_status mp_server_add_process
register_clone parent pid w =
    let n = w.fresh in
    let u = process_set_status n running (process_new w) in
    mp_server_add_process n
      (set_process n (record (u.process n) { clone_of = some parent; pid = pid }) u)

-- MI_CLONE. `g_error` aborts.
unfoldable pub clone_process : Connection → World → Outcome (World × ℕ)
unfolding mp_server_find_process register_clone
clone_process c w = elim (mp_server_find_process c.pid w) [
  | none ↦ aborted
  | some parent ↦ done (register_clone parent c.new_pid w, w.fresh)
]

-- What `read` gives: a whole message, less than one, or an error. An error is -1, which is no short
-- read, since it is compared as an unsigned number; the message is then what the variable `info` held.
pub data Received : Type 0 where
  received : Connection → Received
  failed_read : Connection → Received
  short_read : Received

-- `if (process)`, and the response. `wrote` says that `write` did not fail.
unfoldable pub answer : ℕ → ℕ → Bool → Option (World × ℕ) → World → World
unfolding process_start_input
answer tag fd wrote none w = emit (close_fd fd) (emit (write_byte fd 0) w)
answer tag fd wrote (some (u, n)) w =
    let v = emit (write_byte fd 1) (
      process_start_input tag n
        (set_process n (record (u.process n) { input_channel = some fd }) u)) in
    if wrote then v else emit (close_fd fd) v

-- The `switch` of `control_func`.
unfoldable pub connect : ℕ → ℕ → Bool → Connection → World → Operation → Outcome World
unfolding mp_server_find_process accept_new clone_process answer
connect tag fd wrote c w mi_fork = elim (mp_server_find_process c.pid w) [
  | some parent ↦
      if (w.process parent).follow_fork
      then done (answer tag fd wrote (accept_new c w) w)
      else done (answer tag fd wrote none w)
  | none ↦ done (answer tag fd wrote (accept_new c w) w)
]
connect tag fd wrote c w mi_new = done (answer tag fd wrote (accept_new c w) w)
connect tag fd wrote c w mi_clone =
    clone_process c w >>= (λ r. done (answer tag fd wrote (some r) w))
connect tag fd wrote c w _ = aborted

-- `accept` gives a descriptor or fails.
unfoldable pub control_func : ℕ → Option ℕ → Received → Bool → World → Outcome World
unfolding answer connect
control_func tag none message wrote w = done w
control_func tag (some fd) short_read wrote w = done (answer tag fd wrote none w)
control_func tag (some fd) (received c) wrote w = connect tag fd wrote c w c.operation
control_func tag (some fd) (failed_read c) wrote w = connect tag fd wrote c w c.operation
