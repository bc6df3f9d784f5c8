-- ===== src/Leak/Leaks.antt =====
-- src/leakdetect.c: the roots, and the whole of `leaks_find`.
use memprof.Common.{
  length, if◌then◌else◌, leb, ltb, map, ◌++◌, ◌∷◌, [], List, some, none, Option, ◌&&◌, false, true,
  Bool, ◌+◌, ℕ,
}
use memprof.Leak.{mark_loop, sort_blocks, Marking, prepare_block}
use memprof.Block.{block_unref, Blocks, new_block, Block}
use memprof.Common.Word.{sub32, wrap32}
use memprof.Common.Outcome.{Outcome, ◌>>=◌, done}

-- What `leaks_find` reads of the system and of the process. `table` is the block table in the order
-- of `g_hash_table_foreach`; `stat` is `read_proc_stat`, the start and the end of a stack; `maps`
-- and `sections` are the addresses and sizes of the writable maps and of the data sections.
pub record Target : Type 0 where
  pub pid : ℕ
  pub clones : List ℕ
  pub table : List ℕ
  pub mem_opens : Bool
  pub stat : ℕ → Option (ℕ × ℕ)
  pub maps : List (ℕ × ℕ)
  pub sections : List (ℕ × ℕ)

-- The calls of `ptrace` and of `kill`, and the wait for a clone to stop.
pub data Signal : Type 0 where
  attach : ℕ → Signal
  sigstop : ℕ → Signal
  sigcont : ℕ → Signal
  detach : ℕ → Signal

pub record Leaks : Type 0 where
  pub blocks : Blocks
  pub result : List ℕ
  pub signals : List Signal

abbrev root_block : ℕ → ℕ → Block
root_block addr size = record {
  marked = false;
  is_root = true;
  addr = addr;
  size = size;
  stack = none;
  refcount = 1;
}

-- `g_slist_prepend` of a new root. `size` is a `guint`.
unfoldable pub add_root : ℕ → ℕ → Blocks × List ℕ → Blocks × List ℕ
unfolding new_block
add_root addr size (h, roots) = (new_block h (root_block addr (wrap32 size)), h.fresh ∷ roots)

-- The `while` loop of `add_stack_root` over the maps. The size is a difference of `gsize` that is
-- cut to a `guint`.
unfoldable pub add_stack_root : ℕ × ℕ → List (ℕ × ℕ) → Blocks × List ℕ → Blocks × List ℕ
unfolding add_root
add_stack_root (start_stack, end_stack) [] roots = roots
add_stack_root (start_stack, end_stack) ((addr, size) ∷ maps) roots =
    let rest = add_stack_root (start_stack, end_stack) maps roots in
    let top =
      if ltb addr start_stack && ltb start_stack (addr + size) then start_stack else addr + size in
    if leb addr end_stack && ltb end_stack (addr + size)
    then add_root end_stack (sub32 (wrap32 top) (wrap32 end_stack)) roots
    else rest

unfoldable pub add_stack_roots : Target → List ℕ → Blocks × List ℕ → Blocks × List ℕ
unfolding add_stack_root
add_stack_roots p [] roots = roots
add_stack_roots p (c ∷ clones) roots = elim (p.stat c) [
  | none ↦ add_stack_roots p clones roots
  | some range ↦ add_stack_roots p clones (add_stack_root range p.maps roots)
]

-- `process_sections` with `process_data_root`.
unfoldable pub add_data_roots : List (ℕ × ℕ) → Blocks × List ℕ → Blocks × List ℕ
unfolding add_root
add_data_roots [] roots = roots
add_data_roots ((addr, size) ∷ sections) roots = add_data_roots sections (add_root addr size roots)

-- `process_block_foreach` with `prepare_block`.
unfoldable pub prepare_blocks : List ℕ → Blocks × List ℕ → Outcome (Blocks × List ℕ)
unfolding prepare_block
prepare_blocks [] s = done s
prepare_blocks (b ∷ table) s = prepare_block b s >>= (λ t. prepare_blocks table t)

-- The loop that looks for leaked blocks.
unfoldable pub collect : List ℕ → Blocks × List ℕ → Blocks × List ℕ
unfolding block_unref
collect [] s = s
collect (b ∷ arr) (h, result) = elim ((h.cell b).marked) [
  | true ↦ collect arr (block_unref b h, result)
  | false ↦ collect arr (h, b ∷ result)
]

-- The clones are stopped in the order of the list.
abbrev pub stop_all : Target → List Signal
stop_all p = attach p.pid ∷ map sigstop p.clones

abbrev pub roots_of : Target → Blocks → Blocks × List ℕ
roots_of p h = add_data_roots p.sections (add_stack_roots p p.clones (h, []))

-- What follows the mark phase.
abbrev pub report : Target → List ℕ → Blocks → Leaks
report p arr h =
    let (h1, result) = collect arr (h, []) in
    record {
      blocks = h1;
      result = result;
      signals = stop_all p ++ map sigcont p.clones ++ detach p.pid ∷ [];
    }

module _ (peek : ℕ → Option ℕ) (word_size : ℕ) where
  -- From the roots on, with the sorted array. Each block of the array is listed once at most.
  unfoldable pub mark_roots : List ℕ → Blocks × List ℕ → Outcome Marking
  mark_roots arr (h, roots) =
      mark_loop peek word_size (length arr + length roots) arr (record { blocks = h; work = roots })

  unfoldable pub leaks_find : Target → Blocks → Outcome Leaks
  leaks_find p h =
      if p.mem_opens
      then prepare_blocks p.table (h, []) >>= (λ s.
        let arr = sort_blocks s.0 s.1 in
        mark_roots arr (roots_of p s.0) >>= (λ t. done (report p arr t.blocks)))
      else done (record { blocks = h; result = []; signals = stop_all p })
