-- ===== src/Process/Live.antt =====
-- src/process.c: the table of blocks against a map from addresses to sizes and stacks.
use memprof.Common.{
  ◌∙◌, ap, sym, All, ==→eq, arith, Option-cases, Bool-cases, if◌then◌else◌, ◌==◌, some, none,
  Option, inr, inl, ◌≡◌, ℕ,
}
use memprof.Process.{
  mi_malloc, mi_exec, mi_time, mi_clone, Operation, mi_free, mi_fork, mi_exit, mi_new, mi_realloc,
  Command, State, Info,
}
use memprof.Process.Account.{opened-IsAccounted, release_old-IsAccounted, Entry, IsAccounted}
use memprof.Process.Commands.{
  sample_info, update_blocks, dispatch, execute, get_block_table, insert_new, release_old,
}
use memprof.Common.Table.{
  lookup-insert, IsTable, All-lookup, Table, insert, lookup-remove, remove, lookup,
}
use memprof.Common.Word.{add32, wrap32}
use mathlib.Core.Path.{fun_ext, subst}
use memprof.Block.{new_block, block_unref, Blocks, Block}
use memprof.Common.Outcome.{done-injective, done}

-- What the profiler knows of an address: the size and the stack of its block.
unfoldable pub live : State → ℕ → Option (ℕ × Option ℕ)
live st a = elim (lookup a (get_block_table st.process)) [
  | none ↦ none
  | some b ↦ some ((st.blocks.cell b).size, (st.blocks.cell b).stack)
]

-- The specification: `old_ptr` is forgotten, and `new_ptr` is remembered unless it is known already.
abbrev pub forget : ℕ → (ℕ → Option (ℕ × Option ℕ)) → ℕ → Option (ℕ × Option ℕ)
forget old m a = if old == 0 then m a else if old == a then none else m a

abbrev pub remember : ℕ → ℕ → Option ℕ → (ℕ → Option (ℕ × Option ℕ)) → ℕ → Option (ℕ × Option ℕ)
remember new size stack m a =
    if new == 0
    then m a
    else if new == a
    then elim (m new) [ some x ↦ some x | none ↦ some (wrap32 size, stack) ]
    else m a

-- `live` over the parts that it reads, so that the table stays shut.
unfoldable pub live_in : Table ℕ → Blocks → ℕ → Option (ℕ × Option ℕ)
live_in t h a = elim (lookup a t) [
  | none ↦ none
  | some b ↦ some ((h.cell b).size, (h.cell b).stack)
]

live_in-remove :
    (k b : ℕ) (t : Table ℕ) (h : Blocks) (a : ℕ)
    → IsTable t
    → lookup k t ≡ some b
    → live_in (remove k t) (block_unref b h) a ≡ (if k == a then none else live_in t h a)
unfolding live_in block_unref
live_in-remove k b t h a keys found = ground (arith, lookup-remove k a t keys)

live_in-missing :
    (k : ℕ) (t : Table ℕ) (h : Blocks) (a : ℕ)
    → lookup k t ≡ none
    → live_in t h a ≡ (if k == a then none else live_in t h a)
unfolding live_in
live_in-missing k t h a missing = elim (Bool-cases (k == a)) [
  | inl same ↦
      let e = ==→eq k a same in rw same (rw (subst (λ x. lookup x t ≡ none) e missing, live_in))
  | inr other ↦ rw other
]

live_in-found :
    (k b : ℕ) (t : Table ℕ) (h : Blocks) (a : ℕ)
    → lookup k t ≡ some b
    → live_in t h a ≡ (if k == a then some ((h.cell b).size, (h.cell b).stack) else live_in t h a)
unfolding live_in
live_in-found k b t h a found = elim (Bool-cases (k == a)) [
  | inl same ↦
      let e = ==→eq k a same in rw same (rw (subst (λ x. lookup x t ≡ some b) e found, live_in))
  | inr other ↦ rw other
]

live_in-insert :
    (k : ℕ) (x : Block) (t : Table ℕ) (h : Blocks) (a : ℕ)
    → All (Entry h) t
    → live_in (insert k h.fresh t) (new_block h x) a
      ≡ (if k == a then some (x.size, x.stack) else live_in t h a)
unfolding live_in new_block
live_in-insert k x t h a entries = elim (Option-cases (lookup a t)) [
  | inl missing ↦ ground (arith, lookup-insert k a h.fresh t)
  | inr (b, found) ↦
      let own = All-lookup (Entry h) a b t entries found in
      ground (arith, lookup-insert k a h.fresh t, own.0)
]

release_old-live :
    (info : Info) (st : State) (a : ℕ)
    → IsAccounted st.process st.blocks
    → live (release_old info st) a ≡ forget info.old_ptr (live st) a
unfolding live live_in release_old
release_old-live info st a h =
    let table = get_block_table st.process in
    elim (Bool-cases (info.old_ptr == 0)) [
      | inl null ↦ rw (null, release_old)
      | inr ptr ↦ elim (Option-cases (lookup info.old_ptr table)) [
        | inl missing ↦
            rw (ptr, missing, release_old) (live_in-missing info.old_ptr table st.blocks a missing)
        | inr (b, found) ↦
            rw (ptr, found, release_old)
              (live_in-remove info.old_ptr b table st.blocks a h.keys found)
      ]
    ]

insert_new-live :
    (info : Info) (stack : Option ℕ) (st : State) (a : ℕ)
    → IsAccounted st.process st.blocks
    → live (insert_new info stack st) a ≡ remember info.new_ptr info.size stack (live st) a
unfolding live live_in insert_new
insert_new-live info stack st a h =
    let table = get_block_table st.process in
    elim (Bool-cases (info.new_ptr == 0)) [
      | inl null ↦ rw (null, insert_new)
      | inr ptr ↦ elim (Option-cases (lookup info.new_ptr table)) [
        | inl missing ↦
            rw (ptr, missing, insert_new, lookup)
              (live_in-insert info.new_ptr _ table st.blocks a h.entries)
        | inr (b, found) ↦
            rw (ptr, found, insert_new) (live_in-found info.new_ptr b table st.blocks a found)
      ]
    ]

update_blocks-live :
    (info : Info) (stack : Option ℕ) (st : State) (a : ℕ)
    → IsAccounted st.process st.blocks
    → live (update_blocks info stack st) a
      ≡ remember info.new_ptr info.size stack (forget info.old_ptr (live st)) a
unfolding update_blocks live get_block_table
update_blocks-live info stack st a h =
    let opened = record st {
      process = record (st.process) { block_table = some (get_block_table st.process) };
    } in
    let h' = opened-IsAccounted st.process st.blocks h in
    insert_new-live info stack (release_old info opened) a (release_old-IsAccounted info opened h')
    ∙ ap (λ m. remember info.new_ptr info.size stack m a)
        (fun_ext (λ x. release_old-live info opened x h'))

-- What one command does to the map; `n` is the number of the command after it.
abbrev pub effect :
    Operation → Command → ℕ → (ℕ → Option (ℕ × Option ℕ)) → ℕ → Option (ℕ × Option ℕ)
effect mi_malloc c n m = remember c.info.new_ptr c.info.size c.stack (forget c.info.old_ptr m)
effect mi_realloc c n m = remember c.info.new_ptr c.info.size c.stack (forget c.info.old_ptr m)
effect mi_free c n m = remember c.info.new_ptr c.info.size c.stack (forget c.info.old_ptr m)
effect mi_time c n m = remember n 1 c.stack m
effect _ c n m = m

dispatch-live :
    (op : Operation) (c : Command) (st t : State) (a : ℕ)
    → IsAccounted st.process st.blocks
    → dispatch op c st ≡ done t
    → live t a ≡ effect op c st.process.seqno (live st) a
unfolding dispatch sample_info
dispatch-live mi_new c st t a h e = cc
dispatch-live mi_fork c st t a h e = cc
dispatch-live mi_clone c st t a h e = cc
dispatch-live mi_exec c st t a h e = cc
dispatch-live mi_exit c st t a h e = ap (λ s. live s a) (sym (done-injective e))
dispatch-live mi_time c st t a h e =
    ap (λ s. live s a) (sym (done-injective e))
    ∙ update_blocks-live (sample_info c.info st.process.seqno) c.stack st a h
dispatch-live mi_malloc c st t a h e =
    ap (λ s. live s a) (sym (done-injective e)) ∙ update_blocks-live c.info c.stack st a h
dispatch-live mi_realloc c st t a h e =
    ap (λ s. live s a) (sym (done-injective e)) ∙ update_blocks-live c.info c.stack st a h
dispatch-live mi_free c st t a h e =
    ap (λ s. live s a) (sym (done-injective e)) ∙ update_blocks-live c.info c.stack st a h

-- Seen as a map from addresses to sizes and stacks, the table does under each command what the map
-- should: a malloc, realloc or free forgets the block at `old_ptr` and then records the one at
-- `new_ptr` with the size (as a `guint`) and the stack of the message, unless an entry is there
-- already; a sample records a block of size 1 at the number of the next command; an exit changes
-- nothing. NULL is neither forgotten nor recorded.
pub execute-live :
    (c : Command) (st t : State) (a : ℕ)
    → IsAccounted st.process st.blocks
    → execute c st ≡ done t
    → live t a ≡ effect c.info.operation c (add32 st.process.seqno 1) (live st) a
unfolding execute live get_block_table
execute-live c st t a h e =
    let stepped = record st {
      process = record (st.process) { seqno = add32 st.process.seqno 1 };
    } in
    dispatch-live c.info.operation c stepped t a
      (record { entries = h.entries; keys = h.keys; bytes = h.bytes; count = h.count }) e
