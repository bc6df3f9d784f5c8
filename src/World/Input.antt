-- ===== src/World/Input.antt =====
-- src/process.c: `input_func`, which reads the messages of one thread.
use memprof.Common.{
  length, if◌then◌else◌, ◌∷◌, [], List, some, none, Option, false, true, Bool, ◌*◌, ◌+◌, ℕ,
}
use memprof.Process.{
  mi_realloc, mi_free, exiting, Operation, Process, defunct, Info, mi_malloc, Command, State,
  mi_exit, mi_time,
}
use memprof.StackStash.{stack_stash_add_trace, stack_stash_new, StackStash}
use memprof.World.{World, set_process}
use memprof.World.Server.{mp_server_remove_process, clone_root}
use memprof.World.Life.{process_set_status, process_detach}
use memprof.Process.Commands.{process_command, command_operation}
use memprof.Common.Outcome.{◌>>=◌, Outcome, done, aborted}

-- What a read gives: a message with its stack, innermost call first, or the end of the stream.
-- `whole` says that the message had the bytes of a MIInfoAlloc.
pub record Packet : Type 0 where
  pub info : Info
  pub whole : Bool
  pub stack : List ℕ

pub data Read : Type 0 where
  packet : Packet → Read
  end_of_stream : Read

unfoldable pub get_stack_stash : Process → StackStash
unfolding stack_stash_new
get_stack_stash p = elim p.stack_stash [ none ↦ stack_stash_new | some s ↦ s ]

-- The branch of the end of the stream. `g_io_channel_unref` of NULL is not distinguished.
unfoldable pub end_input : ℕ → World → World
unfolding mp_server_remove_process process_set_status
end_input n w =
    process_set_status n defunct
      (mp_server_remove_process n (set_process n (record (w.process n) { input_channel = none }) w))

-- The stack is stored in the stash of the thread, with a size of -1.
unfoldable pub store_stack : ℕ → Packet → World → Outcome (World × Option ℕ)
unfolding get_stack_stash stack_stash_add_trace
store_stack n m w =
    if m.whole
    then (let stored = stack_stash_add_trace (get_stack_stash (w.process n)) m.stack 0xFFFF_FFFF in
        done (set_process n (record (w.process n) { stack_stash = some stored.0 }) w, stored.1))
    else aborted

unfoldable pub note_exit : ℕ → World → Outcome (World × Option ℕ)
unfolding process_set_status process_detach
note_exit n w =
    let u = process_set_status n exiting w in
    elim (w.process n).clone_of [
      | none ↦ done (u, none)
      | some m ↦ process_detach n u >>= (λ v. done (v, none))
    ]

unfoldable pub receive : Operation → ℕ → Packet → World → Outcome (World × Option ℕ)
unfolding store_stack note_exit
receive mi_malloc n m w = store_stack n m w
receive mi_realloc n m w = store_stack n m w
receive mi_free n m w = store_stack n m w
receive mi_time n m w = store_stack n m w
receive mi_exit n m w = note_exit n w
receive _ n m w = done (w, none)

-- `process_command` on the process that a thread belongs to, with the fuel that it needs, and the
-- operation that is in `info` afterwards.
unfoldable pub command_in : ℕ → Command → World → Outcome (World × Operation)
unfolding process_command command_operation
command_in n c w =
    let st : State = record { process = w.process n; blocks = w.blocks; missing = w.missing } in
    let fuel = 2 * length (w.process n).command_queue + 2 in
    process_command fuel c st >>= (λ t. command_operation fuel c st >>= (λ op.
      done (record (set_process n t.process w) { blocks = t.blocks; missing = t.missing }, op)))

unfoldable pub handle_packet : ℕ → Packet → World → Outcome (World × Operation)
unfolding receive clone_root command_in
handle_packet n m w =
    receive m.info.operation n m w
    >>= (λ r. command_in (clone_root r.0.fresh r.0 n) (record { info = m.info; stack = r.1 }) r.0)

abbrev pub is_exit : Operation → Bool
is_exit mi_exit = true
is_exit _ = false

-- The loop, on what is in the buffer, which is not empty at the call, with the result. Its test reads
-- `info` as `process_command` left it.
unfoldable pub input_func : ℕ → List Read → World → Outcome (World × Bool)
unfolding end_input handle_packet
input_func n [] w = done (w, true)
input_func n (end_of_stream ∷ reads) w = done (end_input n w, false)
input_func n (packet m ∷ reads) w =
    handle_packet n m w
    >>= (λ u. elim (is_exit u.1) [ true ↦ done (u.0, true) | false ↦ input_func n reads u.0 ])
