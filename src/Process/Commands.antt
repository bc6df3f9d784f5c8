-- ===== src/Process/Commands.antt =====
-- src/process.c: `process_command`, which keeps the table of blocks and its counters.
use memprof.Common.{if◌then◌else◌, ◌==◌, ◌∷◌, [], some, none, Option, false, true, suc, zero, ℕ}
use memprof.Process.{
  Operation, mi_exec, mi_clone, Command, mi_time, mi_malloc, Info, mi_exit, mi_free, Process,
  mi_fork, mi_realloc, State, mi_new,
}
use memprof.Block.{block_unref, new_block}
use memprof.Process.Queue.{unqueue_command, queue_command}
use memprof.Common.Table.{lookup, insert, remove, Table}
use memprof.Common.Word.{wrap32, sub32, add32}
use memprof.Common.Outcome.{done, ◌>>=◌, out_of_fuel, Outcome, aborted}

unfoldable pub get_block_table : Process → Table ℕ
get_block_table p = elim p.block_table [ none ↦ [] | some t ↦ t ]

-- `if (info->alloc.old_ptr != NULL)`. The warning also prints the stack, which may refresh the
-- cached maps; that is left out.
unfoldable pub release_old : Info → State → State
unfolding get_block_table lookup remove block_unref
release_old info st =
    let p = st.process in
    let table = get_block_table p in
    if info.old_ptr == 0 then st else elim (lookup info.old_ptr table) [
      | none ↦ record st { missing = info.old_ptr ∷ st.missing }
      | some b ↦ record st {
        process = record p {
          block_table = some (remove info.old_ptr table);
          bytes_used = sub32 p.bytes_used (st.blocks.cell b).size;
          n_allocations = sub32 p.n_allocations 1;
        };
        blocks = block_unref b st.blocks;
      }
    ]

-- `block->size` is a `guint`, `info->alloc.size` a `size_t`.
unfoldable pub insert_new : Info → Option ℕ → State → State
unfolding get_block_table lookup insert new_block
insert_new info stack st =
    let p = st.process in
    let table = get_block_table p in
    if info.new_ptr == 0 then st else elim (lookup info.new_ptr table) [
      | some b ↦ st
      | none ↦ record st {
        process = record p {
          n_allocations = add32 p.n_allocations 1;
          bytes_used = add32 p.bytes_used info.size;
          block_table = some (insert info.new_ptr st.blocks.fresh table);
        };
        blocks = new_block st.blocks (record {
          marked = false;
          is_root = false;
          addr = info.new_ptr;
          size = wrap32 info.size;
          stack = stack;
          refcount = 1;
        });
      }
    ]

-- The default branch: `get_block_table` creates the table if there is none.
unfoldable pub update_blocks : Info → Option ℕ → State → State
unfolding release_old insert_new
update_blocks info stack st =
    let opened = record st {
      process = record (st.process) { block_table = some (get_block_table st.process) };
    } in
    insert_new info stack (release_old info opened)

-- MI_TIME: every sample is a block of its own, of size 1.
unfoldable pub sample_info : Info → ℕ → Info
sample_info info seqno = record info { old_ptr = 0; new_ptr = seqno; size = 1 }

-- `process->seqno++` and the `switch`. `g_assert_not_reached` aborts.
unfoldable pub dispatch : Operation → Command → State → Outcome State
unfolding update_blocks sample_info
dispatch mi_new c st = aborted
dispatch mi_fork c st = aborted
dispatch mi_clone c st = aborted
dispatch mi_exec c st = aborted
dispatch mi_exit c st = done st
dispatch mi_time c st = done (update_blocks (sample_info c.info st.process.seqno) c.stack st)
dispatch mi_malloc c st = done (update_blocks c.info c.stack st)
dispatch mi_realloc c st = done (update_blocks c.info c.stack st)
dispatch mi_free c st = done (update_blocks c.info c.stack st)

unfoldable pub execute : Command → State → Outcome State
unfolding dispatch
execute c st =
    dispatch c.info.operation c
      (record st { process = record (st.process) { seqno = add32 st.process.seqno 1 } })

-- The function and the `while` at its end call each other on fuel.
unfoldable mutual
  pub process_command : ℕ → Command → State → Outcome State
  process_command zero c st = out_of_fuel
  process_command (suc f) c st = elim (c.info.seqno == st.process.seqno) [
    | false ↦ done (queue_command c st)
    | true ↦ execute c st >>= (λ t. drain f t)
  ]

  pub drain : ℕ → State → Outcome State
  drain zero st = out_of_fuel
  drain (suc f) st = elim (unqueue_command st) [
    | none ↦ done st
    | some (c, t) ↦ process_command f c t >>= (λ u. drain f u)
  ]

-- `info->operation` when they return: `info` is a pointer, and `unqueue_command` overwrites what it
-- points to. The fuel is spent as above.
unfoldable mutual
  pub command_operation : ℕ → Command → State → Outcome Operation
  command_operation zero c st = out_of_fuel
  command_operation (suc f) c st = elim (c.info.seqno == st.process.seqno) [
    | false ↦ done c.info.operation
    | true ↦ execute c st >>= (λ t. drain_operation f c.info.operation t)
  ]

  pub drain_operation : ℕ → Operation → State → Outcome Operation
  drain_operation zero op st = out_of_fuel
  drain_operation (suc f) op st = elim (unqueue_command st) [
    | none ↦ done op
    | some (c, t) ↦
        command_operation f c t >>= (λ o. process_command f c t >>= (λ u. drain_operation f o u))
  ]
