-- ===== src/World.antt =====
-- src/process.c, src/server.c: the profiler with all its processes. `MPProcess *` is a number in
-- `process`, and the processes from `fresh` on were not yet created.
pub mod Life
pub mod Input
pub mod Server
pub mod Served
pub mod Accept
pub mod Begun
pub mod Replies
pub mod Answer
pub mod Duplicate
pub mod Restore
pub mod Clones
pub mod Total
pub mod Tests
use memprof.Common.{◌∷◌, List, Option, ℕ}
use memprof.Process.{Process}
use memprof.Block.{set_cell, Blocks}
use memprof.Common.Table.{Table}

-- What the profiler does to the outside: signals of GObject, calls of `write`, `close` and `kill`,
-- and `g_io_channel_shutdown`.
pub data Event : Type 0 where
  status_changed : ℕ → Event
  was_reset : ℕ → Event
  process_created : ℕ → Event
  write_byte : ℕ → ℕ → Event
  close_fd : ℕ → Event
  shutdown_channel : ℕ → Event
  kill_term : ℕ → Event

-- `pid_table` is the table of the server, and `none` is NULL. The last event comes first.
pub record World : Type 0 where
  pub process : ℕ → Process
  pub fresh : ℕ
  pub blocks : Blocks
  pub missing : List ℕ
  pub pid_table : Option (Table ℕ)
  pub events : List Event

abbrev pub set_process : ℕ → Process → World → World
set_process n p w = record w { process = set_cell w.process n p }

abbrev pub emit : Event → World → World
emit e w = record w { events = e ∷ w.events }
