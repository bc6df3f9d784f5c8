-- ===== src/World/Life.antt =====
-- src/process.c: the life of a process.
use Prim.Native.String.{String}
use memprof.Common.{
  Option, if◌then◌else◌, ◌==◌, ◌∷◌, [], some, none, ◌&&◌, not, false, true, Bool, ◌+◌, ℕ,
}
use memprof.Process.{
  Status, exiting, detached, mp_process_init, defunct, running, init, Process, starting,
}
use memprof.World.{
  emit, set_process, kill_term, write_byte, World, was_reset, status_changed, shutdown_channel,
}
use memprof.Block.{set_cell, block_unref, block_ref, Blocks}
use memprof.Process.Commands.{get_block_table}
use memprof.Common.Table.{Table, insert}
use memprof.Common.Outcome.{aborted, Outcome, done}

-- `process_new`: the new process is number `fresh`.
unfoldable pub process_new : World → World
unfolding mp_process_init
process_new w = record w {
  process = set_cell w.process w.fresh mp_process_init;
  fresh = w.fresh + 1;
}

abbrev pub process_set_follow_fork : ℕ → Bool → World → World
process_set_follow_fork n follow w = set_process n (record (w.process n) { follow_fork = follow }) w

abbrev pub process_set_follow_exec : ℕ → Bool → World → World
process_set_follow_exec n follow w = set_process n (record (w.process n) { follow_exec = follow }) w

abbrev pub same_status : Status → Status → Bool
same_status init init = true
same_status starting starting = true
same_status running running = true
same_status exiting exiting = true
same_status defunct defunct = true
same_status detached detached = true
same_status _ _ = false

unfoldable pub process_set_status : ℕ → Status → World → World
process_set_status n status w =
    if same_status (w.process n).status status
    then w
    else emit (status_changed n) (set_process n (record (w.process n) { status = status }) w)

-- The words that the interface shows.
abbrev pub process_get_status_text : Status → String
process_get_status_text init = "Initial"
process_get_status_text starting = "Starting"
process_get_status_text running = "Running"
process_get_status_text exiting = "Exiting"
process_get_status_text defunct = "Defunct"
process_get_status_text detached = "Defunct"

unfoldable pub process_stop_input : ℕ → World → World
process_stop_input n w = set_process n (record (w.process n) { input_tag = 0 }) w

-- `tag` is what `g_io_add_watch_full` returns, which is not 0.
unfoldable pub process_start_input : ℕ → ℕ → World → World
process_start_input tag n w =
    let p = w.process n in
    if p.input_tag == 0
    then elim p.input_channel [
      | none ↦ w
      | some fd ↦ set_process n (record p { input_tag = tag }) w
    ]
    else w

abbrev pub process_is_recording : Process → Bool
process_is_recording p = not (p.input_tag == 0)

-- `g_hash_table_foreach` with `process_free_block`.
unfoldable pub free_blocks : Table ℕ → Blocks → Blocks
unfolding block_unref
free_blocks [] h = h
free_blocks ((k, b) ∷ t) h = free_blocks t (block_unref b h)

-- What `process_clear_input` and `process_reinit` do to the process. Nothing else holds the stash,
-- so unref frees it.
abbrev pub cleared : Process → Process
cleared p = record p {
  bytes_used = 0;
  n_allocations = 0;
  map_list = [];
  bad_pages = [];
  block_table = none;
  stack_stash = none;
}

unfoldable pub process_clear_input : ℕ → World → World
unfolding get_block_table free_blocks
process_clear_input n w = record (set_process n (cleared (w.process n)) w) {
  blocks = free_blocks (get_block_table (w.process n)) w.blocks;
}

unfoldable pub process_reinit : ℕ → World → World
unfolding process_stop_input get_block_table free_blocks
process_reinit n w =
    let s = process_stop_input n w in
    let p = s.process n in
    record (set_process n
      (record (cleared p) { input_channel = none; seqno = 0; command_queue = [] }) s) {
        blocks = free_blocks (get_block_table p) s.blocks;
      }

unfoldable pub process_exec_reset : ℕ → World → World
unfolding process_reinit
process_exec_reset n w = emit (was_reset n) (process_reinit n w)

-- `g_hash_table_foreach` with `process_duplicate_block`.
unfoldable pub duplicate_blocks : Table ℕ → Table ℕ × Blocks → Table ℕ × Blocks
unfolding block_ref insert
duplicate_blocks [] s = s
duplicate_blocks ((k, b) ∷ t) (table, h) = duplicate_blocks t (insert k b table, block_ref b h)

-- `if (process->block_table)`, with the table that the new process has without it.
unfoldable pub duplicate_table :
    Option (Table ℕ) → Option (Table ℕ) → Blocks → Option (Table ℕ) × Blocks
unfolding duplicate_blocks
duplicate_table fresh none h = (fresh, h)
duplicate_table fresh (some t) h = let (table, k) = duplicate_blocks t ([], h) in (some table, k)

-- The new process is number `fresh`. `follow_fork`, `follow_exec` and the stash are not copied.
unfoldable pub process_duplicate : ℕ → World → World
unfolding process_new duplicate_table
process_duplicate n w =
    let p = w.process n in
    let u = process_new w in
    let q = u.process w.fresh in
    let copied = duplicate_table q.block_table p.block_table u.blocks in
    record (set_process w.fresh
      (record q {
        block_table = copied.0;
        bytes_used = p.bytes_used;
        n_allocations = p.n_allocations;
        seqno = p.seqno;
        parent = some n;
      })
      u) { blocks = copied.1 }

-- `g_io_channel_unix_get_fd` of NULL is a crash.
unfoldable pub process_detach : ℕ → World → Outcome World
unfolding process_set_status
process_detach n w =
    let p = w.process n in
    if same_status p.status defunct then done w else elim p.input_channel [
      | none ↦ aborted
      | some fd ↦
          if same_status p.status exiting
          then done (emit (write_byte fd 0) w)
          else done (process_set_status n detached (emit (shutdown_channel fd) w))
    ]

unfoldable pub process_kill : ℕ → World → Outcome World
unfolding process_detach
process_kill n w =
    let p = w.process n in
    if same_status p.status exiting
    then process_detach n w
    else if not (same_status p.status defunct) && not (same_status p.status init)
    then done (emit (kill_term p.pid) w)
    else done w

-- `process_block_foreach` with a function on the blocks and its data.
unfoldable pub process_block_foreach {ℓ} : {A : Type ℓ} → (ℕ → A → A) → Table ℕ → A → A
process_block_foreach f [] s = s
process_block_foreach f ((k, b) ∷ t) s = process_block_foreach f t (f b s)
