-- ===== src/StackStash.antt =====
-- src/stackstash.c: the tree of call stacks. Nodes live in an arena and a pointer is an index into
-- it; `node` and `used` are the nodes that `stack_node_new` has handed out, in that order.
pub mod Shape
pub mod Trace
pub mod Unique
pub mod Insert
pub mod Share
pub mod Rows
pub mod Foreach
pub mod Tests
use memprof.Common.{
  ◌++◌, ℕ, zero, suc, ◌+◌, ◌-◌, ◌%◌, ◌^◌, ◌≡◌, Bool, true, false, not, Option, none, some, List, [],
  ◌∷◌, ◌==◌, if◌then◌else◌,
}
use memprof.Common.Word.{add32, sub32}
use mathlib.Core.List.{reverse}

-- `total` has 32 bits and `size` has 31.
pub record StackNode : Type 0 where
  pub address : ℕ
  pub total : ℕ
  pub size : ℕ
  pub toplevel : Bool
  pub parent : Option ℕ
  pub siblings : Option ℕ
  pub children : Option ℕ
  pub next : Option ℕ

-- `cached` is the length of the free list `cached_nodes`, whose nodes were never handed out, and
-- `blocks` that of the array of blocks. `destroy` is NULL in every call of `stack_stash_new`.
pub record StackStash : Type 0 where
  pub ref_count : ℕ
  pub root : Option ℕ
  pub nodes_by_data : ℕ → Option ℕ
  pub cached : ℕ
  pub blocks : ℕ
  pub node : ℕ → StackNode
  pub used : ℕ

-- BLOCK_SIZE / sizeof (StackNode), with pointers of eight bytes.
abbrev pub n_nodes : ℕ
n_nodes = 682

-- Memory that nothing has written yet.
abbrev pub raw_node : StackNode
raw_node = record {
  address = 0;
  total = 0;
  size = 0;
  toplevel = false;
  parent = none;
  siblings = none;
  children = none;
  next = none;
}

unfoldable pub create_stack_stash : StackStash
create_stack_stash = record {
  ref_count = 1;
  root = none;
  nodes_by_data = λ _. none;
  cached = 0;
  blocks = 0;
  node = λ _. raw_node;
  used = 0;
}

unfoldable pub stack_stash_new : StackStash
unfolding create_stack_stash
stack_stash_new = create_stack_stash

abbrev pub set_node : (ℕ → StackNode) → ℕ → StackNode → ℕ → StackNode
set_node f i x j = if i == j then x else f j

-- The new node is number `used` of the stash that is returned.
unfoldable pub refill : StackStash → StackStash
refill s = if s.cached == 0 then record s { cached = n_nodes; blocks = s.blocks + 1 } else s

-- `toplevel` is not reset.
unfoldable pub stack_node_new : StackStash → StackStash
unfolding refill
stack_node_new s =
    let r = refill s in
    record r {
      cached = r.cached - 1;
      node = set_node r.node r.used (record raw_node { toplevel = (r.node r.used).toplevel });
      used = r.used + 1;
    }

-- The loop of `decorate_node`: whether `n` or a node above it has the address. Indices fall along
-- `parent`, so `used` rounds are enough.
unfoldable pub address_above : ℕ → StackStash → Option ℕ → ℕ → Bool
address_above zero s n address = false
address_above (suc f) s none address = false
address_above (suc f) s (some n) address = elim ((s.node n).address == address) [
  | true ↦ true
  | false ↦ address_above f s (s.node n).parent address
]

unfoldable pub decorate_node : StackStash → ℕ → StackStash
unfolding address_above
decorate_node s n =
    let node = s.node n in
    let above = address_above s.used s node.parent node.address in
    record s {
      node =
          set_node s.node n
            (record node { toplevel = not above; next = s.nodes_by_data node.address });
      nodes_by_data = λ a. if node.address == a then some n else s.nodes_by_data a;
    }

-- `StackNode **location`: the root of the stash, or the `children` of a node.
pub data Location : Type 0 where
  at_root : Location
  at_children : ℕ → Location

unfoldable pub read_location : StackStash → Location → Option ℕ
read_location s at_root = s.root
read_location s (at_children n) = (s.node n).children

unfoldable pub write_location : StackStash → Location → ℕ → StackStash
write_location s at_root m = record s { root = some m }
write_location s (at_children n) m = record s {
  node = set_node s.node n (record (s.node n) { children = some m });
}

-- The search of the siblings. Indices fall along `siblings`, so `used` rounds are enough.
unfoldable pub find_sibling : ℕ → StackStash → Option ℕ → ℕ → Option ℕ
find_sibling zero s n address = none
find_sibling (suc f) s none address = none
find_sibling (suc f) s (some n) address = elim ((s.node n).address == address) [
  | true ↦ some n
  | false ↦ find_sibling f s (s.node n).siblings address
]

-- The branch `if (!match)`: the new node is number `s.used`.
unfoldable pub insert_node : StackStash → Location → Option ℕ → ℕ → StackStash
unfolding stack_node_new read_location write_location decorate_node
insert_node s location parent address =
    let t = stack_node_new s in
    let m = s.used in
    let u = record t {
      node = set_node t.node m (record (t.node m) {
        address = address;
        siblings = read_location t location;
        parent = parent;
      });
    } in
    decorate_node (write_location u location m) m

-- `match->total += size`
unfoldable pub add_total : StackStash → ℕ → ℕ → StackStash
add_total s m size = record s {
  node = set_node s.node m (record (s.node m) { total = add32 (s.node m).total size });
}

-- `parent->size += size`
unfoldable pub add_size : StackStash → ℕ → ℕ → StackStash
add_size s m size = record s {
  node = set_node s.node m (record (s.node m) { size = ((s.node m).size + size) % 2 ^ 31 });
}

-- The stash after one round of the loop of `stack_stash_add_trace`, and `match`.
unfoldable pub trace_step : StackStash → Location → Option ℕ → ℕ → ℕ → StackStash × ℕ
unfolding find_sibling read_location insert_node add_total
trace_step s location parent address size =
    elim (find_sibling s.used s (read_location s location) address) [
      | some m ↦ (add_total s m size, m)
      | none ↦ (add_total (insert_node s location parent address) s.used size, s.used)
    ]

-- The rounds that are left, on the addresses that are left, the outermost first.
unfoldable pub trace_loop : List ℕ → ℕ → StackStash → Location → Option ℕ → StackStash × Option ℕ
unfolding trace_step
trace_loop [] size s location parent = (s, parent)
trace_loop (a ∷ rest) size s location parent =
    let (t, m) = trace_step s location parent a size in
    trace_loop rest size t (at_children m) (some m)

abbrev pub finish_trace : ℕ → StackStash × Option ℕ → StackStash × Option ℕ
finish_trace size (s, none) = (s, none)
finish_trace size (s, some m) = (add_size s m size, some m)

-- `size` is an `int` as its 32-bit pattern. With no address `trace_loop` leaves the stash alone and
-- the result is NULL, which is the early return.
unfoldable pub stack_stash_add_trace : StackStash → List ℕ → ℕ → StackStash × Option ℕ
unfolding trace_loop add_size
stack_stash_add_trace s addrs size =
    finish_trace size (trace_loop (reverse addrs) size s at_root none)

unfoldable pub stack_stash_find_node : StackStash → ℕ → Option ℕ
stack_stash_find_node s address = s.nodes_by_data address

unfoldable pub stack_stash_get_root : StackStash → Option ℕ
stack_stash_get_root s = s.root

-- A walk along `parent`, as every client of a node makes it: the addresses from the innermost call
-- outwards. Indices fall along `parent`.
unfoldable pub walk : ℕ → StackStash → Option ℕ → List ℕ
walk zero s n = []
walk (suc f) s none = []
walk (suc f) s (some n) = (s.node n).address ∷ walk f s (s.node n).parent

unfoldable pub stack_stash_ref : StackStash → StackStash
stack_stash_ref s = record s { ref_count = add32 s.ref_count 1 }

-- None where the last reference has gone: the stash and its blocks of nodes are freed.
unfoldable pub stack_stash_unref : StackStash → Option StackStash
stack_stash_unref s =
    let count = sub32 s.ref_count 1 in
    if count == 0 then none else some (record s { ref_count = count })

-- The `while` loop of `do_callback`, which calls `descend` for the children: the calls of `func`, each a
-- list of addresses from `link` on and a size. Indices fall along `siblings`.
unfoldable pub callback_row :
    (Option ℕ → List ℕ → List (List ℕ × ℕ)) → ℕ → StackStash → Option ℕ → List ℕ → List (List ℕ × ℕ)
callback_row descend zero s n trace = []
callback_row descend (suc f) s none trace = []
callback_row descend (suc f) s (some n) trace =
    let link = (s.node n).address ∷ trace in
    let rest =
      descend (s.node n).children link ++ callback_row descend f s (s.node n).siblings trace in
    if (s.node n).size == 0 then rest else (link, (s.node n).size) ∷ rest

-- Indices rise from a node to its children, so `used` is deep enough.
unfoldable pub do_callback : ℕ → StackStash → Option ℕ → List ℕ → List (List ℕ × ℕ)
unfolding callback_row
do_callback zero s n trace = []
do_callback (suc d) s n trace = callback_row (do_callback d s) s.used s n trace

unfoldable pub stack_stash_foreach : StackStash → List (List ℕ × ℕ)
unfolding do_callback
stack_stash_foreach s = do_callback s.used s s.root []

unfoldable pub stack_node_foreach_trace : StackStash → ℕ → List (List ℕ × ℕ)
unfolding do_callback
stack_node_foreach_trace s n =
    let link = (s.node n).address ∷ [] in
    let rest = do_callback s.used s (s.node n).children link in
    if (s.node n).size == 0 then rest else (link, (s.node n).size) ∷ rest
