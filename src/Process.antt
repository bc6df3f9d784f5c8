-- ===== src/Process.antt =====
-- src/process.h, lib/memintercept.h: a profiled process, its messages and its state.
pub mod Queue
pub mod Commands
pub mod Drain
pub mod Total
pub mod Last
pub mod Arrival
pub mod Order
pub mod Kept
pub mod Account
pub mod Live
pub mod Tests
use memprof.Common.{[], List, none, Option, false, Bool, ℕ}
use memprof.StackStash.{StackStash}
use memprof.Block.{Blocks}
use memprof.Common.Table.{Table}

-- MIOperation
pub data Operation : Type 0 where
  mi_malloc mi_realloc mi_free mi_time mi_exec mi_new mi_fork mi_clone mi_exit : Operation

-- MIInfo as `process_command` reads it: the fields of MIInfoAlloc. A message of another kind leaves
-- the last four at the zeros that the reader's `memset` wrote.
pub record Info : Type 0 where
  pub operation : Operation
  pub pid : ℕ
  pub seqno : ℕ
  pub old_ptr : ℕ
  pub new_ptr : ℕ
  pub size : ℕ
  pub stack_size : ℕ

-- `stack` is a node of the stash.
pub record Command : Type 0 where
  pub info : Info
  pub stack : Option ℕ

-- MPProcessStatus
pub data Status : Type 0 where
  init starting running exiting defunct detached : Status

-- A Symbol and a Map of src/memprof.h; `symbols` is NULL until the map is prepared. The handles of
-- the bfd library are left out.
pub record MapSymbol : Type 0 where
  pub addr : ℕ
  pub size : ℕ
  pub name : ℕ

pub record AddressMap : Type 0 where
  pub addr : ℕ
  pub size : ℕ
  pub name : Option ℕ
  pub symbols : Option (List MapSymbol)
  pub do_offset : Bool
  pub prepared : Bool

-- MPProcess. A process that another field names is its number in the table of the server's
-- processes. `input_tag` is 0 where no watch is set; `input_channel` is a file descriptor;
-- `block_table` maps addresses to blocks, and `none` is NULL. `program_name` is only printed.
pub record Process : Type 0 where
  pub status : Status
  pub pid : ℕ
  pub clone_of : Option ℕ
  pub parent : Option ℕ
  pub seqno : ℕ
  pub bytes_used : ℕ
  pub n_allocations : ℕ
  pub input_tag : ℕ
  pub input_channel : Option ℕ
  pub map_list : List AddressMap
  pub bad_pages : List ℕ
  pub block_table : Option (Table ℕ)
  pub stack_stash : Option StackStash
  pub command_queue : List Command
  pub follow_fork : Bool
  pub follow_exec : Bool

-- mp_process_init. GObject zeroes the fields that it does not name.
unfoldable pub mp_process_init : Process
mp_process_init = record {
  status = init;
  pid = 0;
  clone_of = none;
  parent = none;
  seqno = 0;
  bytes_used = 0;
  n_allocations = 0;
  input_tag = 0;
  input_channel = none;
  map_list = [];
  bad_pages = [];
  block_table = none;
  stack_stash = none;
  command_queue = [];
  follow_fork = false;
  follow_exec = false;
}

-- A process with the heap of blocks, and the addresses that "Block %p not found" was printed for,
-- the last one first.
pub record State : Type 0 where
  pub process : Process
  pub blocks : Blocks
  pub missing : List ℕ
