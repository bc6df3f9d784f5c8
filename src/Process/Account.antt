-- ===== src/Process/Account.antt =====
-- src/process.c: the counters of a process agree with its table of blocks.
use memprof.Common.{
  List, some, none, Option, All, Option-cases, Bool-cases, ◌==◌, arith, ◌∷◌, [], inr, inl, refl,
  ◌≡◌, ◌<◌, ℕ,
}
use memprof.Process.{
  mp_process_init, mi_exit, mi_realloc, mi_new, Operation, mi_exec, mi_clone, mi_malloc, mi_free,
  mi_time, mi_fork, Command, Process, Info, State,
}
use memprof.Block.{Blocks, new_block, block_unref, Block}
use memprof.Process.Commands.{
  dispatch, sample_info, update_blocks, execute, insert_new, release_old, get_block_table,
}
use memprof.Common.Table.{
  remove-IsTable, insert, total-insert, insert-IsTable, remove, total-remove, All-remove,
  All-lookup, All-insert, All-map, Table, total, lookup, IsTable,
}
use memprof.Common.Word.{add32, sub32, wrap32, u32_mod}
use memprof.Common.Outcome.{done-injective, done}
use mathlib.Core.Path.{subst}
use memprof.Process.Kept.{deliver_keeps}
use memprof.Process.Order.{deliver}

abbrev pub block_size : (ℕ → Block) → ℕ → ℕ
block_size cell b = (cell b).size

-- What the table knows of a block.
abbrev pub Entry : Blocks → ℕ × ℕ → Type 0
Entry h e = (e.1 < h.fresh) × ((h.cell e.1).addr ≡ e.0) × ((h.cell e.1).size < u32_mod)

-- The key of a block is its address, an address has one block, `bytes_used` is the sum of the sizes
-- and `n_allocations` the number of blocks, both as 32-bit numbers.
pub record IsAccounted (p : Process) (h : Blocks) : Type 0 where
  pub entries : All (Entry h) (get_block_table p)
  pub keys : IsTable (get_block_table p)
  pub bytes : p.bytes_used ≡ wrap32 (total (block_size h.cell) (get_block_table p))
  pub count : p.n_allocations ≡ wrap32 (total (λ _. 1) (get_block_table p))

-- Counting a reference moves no size and no address.
pub block_unref-Entry : (b : ℕ) (h : Blocks) (e : ℕ × ℕ) → Entry h e → Entry (block_unref b h) e
unfolding block_unref
block_unref-Entry b h (k, v) p = ground arith

block_unref-size :
    (b : ℕ) (h : Blocks) (t : Table ℕ)
    → total (block_size (block_unref b h).cell) t ≡ total (block_size h.cell) t
unfolding block_unref total
block_unref-size b h [] = refl
block_unref-size b h ((i, w) ∷ t) = ground (arith, block_unref-size b h t)

pub new_block-Entry : (h : Blocks) (x : Block) (e : ℕ × ℕ) → Entry h e → Entry (new_block h x) e
unfolding new_block
new_block-Entry h x (k, v) p = ground arith

new_block-size :
    (h : Blocks) (x : Block) (t : Table ℕ)
    → All (Entry h) t
    → total (block_size (new_block h x).cell) t ≡ total (block_size h.cell) t
unfolding new_block total
new_block-size h x [] p = refl
new_block-size h x ((i, w) ∷ t) p = ground (arith, new_block-size h x t p.1)

new_block_own :
    (h : Blocks) (x : Block)
    → ((k size : ℕ) → x.addr ≡ k → x.size ≡ wrap32 size → Entry (new_block h x) (k, h.fresh))
      × (((new_block h x).cell h.fresh).size ≡ x.size)
unfolding new_block
new_block_own h x = (λ k size ea es. ground arith, ground arith)

IsAccounted-remove :
    (k b : ℕ) (p : Process) (h : Blocks)
    → IsAccounted p h
    → lookup k (get_block_table p) ≡ some b
    → IsAccounted
        (record p {
          block_table = some (remove k (get_block_table p));
          bytes_used = sub32 p.bytes_used (h.cell b).size;
          n_allocations = sub32 p.n_allocations 1;
        })
        (block_unref b h)
unfolding get_block_table
IsAccounted-remove k b p h a found =
    let table = get_block_table p in
    let left = remove k table in
    let entry = All-lookup (Entry h) k b table a.entries found in
    record {
      entries =
          All-map (Entry h) (Entry (block_unref b h)) left (block_unref-Entry b h)
            (All-remove (Entry h) k table a.entries);
      keys = remove-IsTable k table a.keys;
      bytes = omega (
        arith,
        a.bytes,
        entry.2,
        total-remove (block_size h.cell) k b table found,
        block_unref-size b h left,
      );
      count = omega (arith, a.count, total-remove (λ _. 1) k b table found);
    }

IsAccounted-insert :
    (k size : ℕ) (x : Block) (p : Process) (h : Blocks)
    → IsAccounted p h
    → lookup k (get_block_table p) ≡ none
    → x.addr ≡ k
    → x.size ≡ wrap32 size
    → IsAccounted
        (record p {
          n_allocations = add32 p.n_allocations 1;
          bytes_used = add32 p.bytes_used size;
          block_table = some (insert k h.fresh (get_block_table p));
        })
        (new_block h x)
unfolding get_block_table
IsAccounted-insert k size x p h a missing addr sz =
    let table = get_block_table p in
    let more = insert k h.fresh table in
    let (own, whole) = new_block_own h x in
    record {
      entries =
          All-insert (Entry (new_block h x)) k h.fresh table (own k size addr sz)
            (All-map (Entry h) (Entry (new_block h x)) table (new_block-Entry h x) a.entries);
      keys = insert-IsTable k h.fresh table a.keys;
      bytes = omega (
        arith,
        a.bytes,
        sz,
        whole,
        total-insert (block_size (new_block h x).cell) k h.fresh table missing,
        new_block-size h x table a.entries,
      );
      count = omega (arith, a.count, total-insert (λ _. 1) k h.fresh table missing);
    }

pub release_old-IsAccounted :
    (info : Info) (st : State)
    → IsAccounted st.process st.blocks
    → let t = release_old info st in IsAccounted t.process t.blocks
unfolding release_old
release_old-IsAccounted info st a = elim (Bool-cases (info.old_ptr == 0)) [
  | inl null ↦ rw (null, release_old) a
  | inr ptr ↦ elim (Option-cases (lookup info.old_ptr (get_block_table st.process))) [
    | inl missing ↦ rw (ptr, missing, release_old) a
    | inr (b, found) ↦
        rw (ptr, found, release_old)
          (IsAccounted-remove info.old_ptr b st.process st.blocks a found)
  ]
]

insert_new-IsAccounted :
    (info : Info) (stack : Option ℕ) (st : State)
    → IsAccounted st.process st.blocks
    → let t = insert_new info stack st in IsAccounted t.process t.blocks
unfolding insert_new
insert_new-IsAccounted info stack st a = elim (Bool-cases (info.new_ptr == 0)) [
  | inl null ↦ rw (null, insert_new) a
  | inr ptr ↦ elim (Option-cases (lookup info.new_ptr (get_block_table st.process))) [
    | inr (b, found) ↦ rw (ptr, found, insert_new) a
    | inl missing ↦
        rw (ptr, missing, insert_new)
          (IsAccounted-insert info.new_ptr info.size _ st.process st.blocks a missing refl refl)
  ]
]

pub opened-IsAccounted :
    (p : Process) (h : Blocks)
    → IsAccounted p h
    → IsAccounted (record p { block_table = some (get_block_table p) }) h
unfolding get_block_table
opened-IsAccounted p h a = record {
  entries = a.entries;
  keys = a.keys;
  bytes = a.bytes;
  count = a.count;
}

update_blocks-IsAccounted :
    (info : Info) (stack : Option ℕ) (st : State)
    → IsAccounted st.process st.blocks
    → let t = update_blocks info stack st in IsAccounted t.process t.blocks
unfolding update_blocks
update_blocks-IsAccounted info stack st a =
    insert_new-IsAccounted info stack _
      (release_old-IsAccounted info _ (opened-IsAccounted st.process st.blocks a))

abbrev Accounted : State → Type 0
Accounted st = IsAccounted st.process st.blocks

Accounted-at : {st t : State} → done st ≡ done t → Accounted st → Accounted t
Accounted-at e a = subst Accounted (done-injective e) a

dispatch-IsAccounted :
    (op : Operation) (c : Command) (st t : State)
    → IsAccounted st.process st.blocks
    → dispatch op c st ≡ done t
    → IsAccounted t.process t.blocks
unfolding dispatch
dispatch-IsAccounted mi_new c st t a e = cc
dispatch-IsAccounted mi_fork c st t a e = cc
dispatch-IsAccounted mi_clone c st t a e = cc
dispatch-IsAccounted mi_exec c st t a e = cc
dispatch-IsAccounted mi_exit c st t a e = Accounted-at e a
dispatch-IsAccounted mi_time c st t a e =
    Accounted-at e (update_blocks-IsAccounted (sample_info c.info st.process.seqno) c.stack st a)
dispatch-IsAccounted mi_malloc c st t a e =
    Accounted-at e (update_blocks-IsAccounted c.info c.stack st a)
dispatch-IsAccounted mi_realloc c st t a e =
    Accounted-at e (update_blocks-IsAccounted c.info c.stack st a)
dispatch-IsAccounted mi_free c st t a e =
    Accounted-at e (update_blocks-IsAccounted c.info c.stack st a)

pub execute-IsAccounted :
    (c : Command) (st t : State)
    → IsAccounted st.process st.blocks
    → execute c st ≡ done t
    → IsAccounted t.process t.blocks
unfolding execute
execute-IsAccounted c st t a e =
    dispatch-IsAccounted c.info.operation c _ t
      (record { entries = a.entries; keys = a.keys; bytes = a.bytes; count = a.count }) e

-- Whatever the process is told, in whatever order, and whether or not it is told the truth (blocks
-- that are freed without being known, an address allocated twice): `bytes_used` is the sum of the
-- sizes of the blocks in the table and `n_allocations` is their number, both modulo 2^32; the key of
-- a block is its address and no address has two blocks.
pub deliver-IsAccounted :
    (ms : List Command) (st t : State)
    → IsAccounted st.process st.blocks
    → deliver ms st ≡ done t
    → IsAccounted t.process t.blocks
unfolding get_block_table
deliver-IsAccounted =
    deliver_keeps Accounted execute-IsAccounted
      (λ q st a. record { entries = a.entries; keys = a.keys; bytes = a.bytes; count = a.count })

pub mp_process_init-IsAccounted : (h : Blocks) → IsAccounted mp_process_init h
unfolding mp_process_init get_block_table total
mp_process_init-IsAccounted h = record { entries = tt; keys = tt; bytes = refl; count = refl }
