-- ===== src/Profile.antt =====
-- src/profile.c and src/profile.h: the profile of the blocks that a process has allocated. Nodes live in
-- an arena and a pointer is an index into it; `node` and `used` are the nodes that `g_new` has handed
-- out, in that order. A symbol is the number of a string.
pub mod Sums
pub mod Trees
pub mod Growth
pub mod Traces
pub mod Rounds
pub mod Chains
pub mod Stacks
pub mod Functions
pub mod Bounds
pub mod Known
pub mod Callers
pub mod Shares
pub mod Topmost
pub mod CallerSums
pub mod Output
pub mod Descendants
pub mod Folding
pub mod Sprouts
pub mod Descents
pub mod Traced
pub mod Details
pub mod Tests
use memprof.Common.{
  has, if◌then◌else◌, ◌==◌, map, ◌++◌, ◌∷◌, [], List, some, none, Option, not, false, true, Bool,
  ◌+◌, suc, zero, ℕ,
}
use memprof.StackStash.{StackStash, walk}
use memprof.Block.{Blocks, Block}
use memprof.World.Life.{process_block_foreach}
use memprof.Common.Table.{total, lookup, insert, Table}
use memprof.Common.Word.{wrap32, add32}

pub record ProfileNode : Type 0 where
  pub symbol : ℕ
  pub total : ℕ
  pub self : ℕ
  pub toplevel : Bool
  pub next : Option ℕ
  pub children : List ℕ
  pub parent : Option ℕ

-- `node` is NULL in the function that stands for calls from nowhere.
pub record ProfileFunc : Type 0 where
  pub total : ℕ
  pub self : ℕ
  pub node : Option ℕ

pub record Profile : Type 0 where
  pub roots : List ℕ
  pub functions : List ProfileFunc
  pub n_bytes : ℕ
  pub nodes_by_symbol : Table ℕ
  pub node : ℕ → ProfileNode
  pub used : ℕ

-- `GPtrArray *roots`: the roots of the profile, or the children of a node.
pub data Level : Type 0 where
  top : Level
  under : ℕ → Level

unfoldable pub read_level : Profile → Level → List ℕ
read_level p top = p.roots
read_level p (under n) = (p.node n).children

abbrev pub set_profile_node : Profile → ℕ → ProfileNode → Profile
set_profile_node p n x = record p { node = λ k. if k == n then x else p.node k }

-- `g_ptr_array_add (roots, match)`
unfoldable pub add_to_level : Profile → Level → ℕ → Profile
add_to_level p top m = record p { roots = p.roots ++ m ∷ [] }
add_to_level p (under n) m =
    set_profile_node p n (record (p.node n) { children = (p.node n).children ++ m ∷ [] })

-- The `for` loop over `roots`, which goes on to the end: the last match counts.
unfoldable pub find_match : (ℕ → ProfileNode) → List ℕ → ℕ → Option ℕ
find_match node [] symbol = none
find_match node (r ∷ roots) symbol = elim (find_match node roots symbol) [
  | some m ↦ some m
  | none ↦ if (node r).symbol == symbol then some r else none
]

-- The branch `if (!match)`. `seen` is the keys of `seen_symbols`.
unfoldable pub new_profile_node : Profile → Level → Option ℕ → List ℕ → ℕ → Profile
unfolding add_to_level
new_profile_node p level parent seen symbol =
    let q = set_profile_node p p.used (record {
      symbol = symbol;
      total = 0;
      self = 0;
      toplevel = not (has symbol seen);
      next = lookup symbol p.nodes_by_symbol;
      children = [];
      parent = parent;
    }) in
    add_to_level
      (record q { nodes_by_symbol = insert symbol p.used p.nodes_by_symbol; used = p.used + 1 })
      level p.used

-- `match->total += size`, and `match->self += size` for the last element of the stack.
unfoldable pub add_bytes : Profile → ℕ → ℕ → Bool → Profile
add_bytes p m size last =
    let x = p.node m in
    set_profile_node p m
      (record x { total = add32 x.total size; self = if last then add32 x.self size else x.self })

-- The search of a level, and the branch where it finds nothing: the profile and `match`.
unfoldable pub match_at : Profile → Level → Option ℕ → List ℕ → ℕ → Profile × ℕ
unfolding find_match read_level new_profile_node
match_at p level parent seen symbol = elim (find_match p.node (read_level p level) symbol) [
  | some m ↦ (p, m)
  | none ↦ (new_profile_node p level parent seen symbol, p.used)
]

abbrev pub is_nil {ℓ} : {A : Type ℓ} → List A → Bool
is_nil [] = true
is_nil (x ∷ xs) = false

-- The rounds that are left of the loop of `profile_add_stack_trace`.
unfoldable pub trace_rounds : List ℕ → ℕ → Profile → Level → Option ℕ → List ℕ → Profile
unfolding match_at add_bytes
trace_rounds [] size p level parent seen = p
trace_rounds (symbol ∷ rest) size p level parent seen =
    let (q, m) = match_at p level parent seen symbol in
    trace_rounds rest size (add_bytes q m size (is_nil rest)) (under m) (some m) (symbol ∷ seen)

-- `symbol_at` is `process_locate_symbol` for the process, and `text` the characters of a symbol, which
-- `skip_hash` compares.
module _ (symbol_at : ℕ → ℕ) (text : ℕ → ℕ) where
  -- The loop along `parent`, with the list made so far; the outermost call comes first in the end.
  unfoldable pub stack_list : List ℕ → List ℕ → List ℕ → List ℕ
  stack_list skip [] stack = stack
  stack_list skip (address ∷ rest) stack =
      stack_list skip rest (if has (text (symbol_at address)) skip then stack else address ∷ stack)

  unfoldable pub block_create_stack_list : StackStash → List ℕ → Block → List ℕ
  unfolding stack_list
  block_create_stack_list stash skip b = stack_list skip (walk stash.used stash b.stack) []

  unfoldable pub profile_add_stack_trace : Profile → List ℕ → ℕ → Profile
  unfolding trace_rounds
  profile_add_stack_trace p stack size =
      trace_rounds (map symbol_at stack) (wrap32 size) p top none []

  unfoldable pub profile_build_tree : StackStash → List ℕ → List Block → Profile → Profile
  unfolding block_create_stack_list profile_add_stack_trace
  profile_build_tree stash skip [] p = p
  profile_build_tree stash skip (b ∷ blocks) p =
      profile_build_tree stash skip blocks
        (profile_add_stack_trace p (block_create_stack_list stash skip b) b.size)

-- The `while` loop of `add_function`: indices fall along `next`, so `used` rounds are enough.
unfoldable pub add_function_loop : ℕ → (ℕ → ProfileNode) → Option ℕ → ProfileFunc → ProfileFunc
add_function_loop zero node n func = func
add_function_loop (suc f) node none func = func
add_function_loop (suc f) node (some n) func = add_function_loop f node (node n).next (record func {
  self = add32 func.self (node n).self;
  total = if (node n).toplevel then add32 func.total (node n).total else func.total;
})

unfoldable pub add_function : Profile → ℕ → Profile
unfolding add_function_loop
add_function p n = record p {
  functions =
      p.functions
      ++ add_function_loop p.used p.node (some n) (record { total = 0; self = 0; node = some n })
        ∷ [];
}

-- `g_hash_table_foreach` with `add_function`.
unfoldable pub add_functions : Table ℕ → Profile → Profile
unfolding add_function
add_functions [] p = p
add_functions ((symbol, n) ∷ t) p = add_functions t (add_function p n)

-- `n_bytes += block->size`
unfoldable pub sum_bytes : List Block → ℕ → ℕ
sum_bytes [] n = n
sum_bytes (b ∷ blocks) n = sum_bytes blocks (add32 n b.size)

abbrev pub empty_profile : Profile
empty_profile = record {
  roots = [];
  functions = [];
  n_bytes = 0;
  nodes_by_symbol = [];
  node = λ _. record {
    symbol = 0;
    total = 0;
    self = 0;
    toplevel = false;
    next = none;
    children = [];
    parent = none;
  };
  used = 0;
}

-- `add_block_to_list` puts each block of the table in front of the list.
unfoldable pub blocks_list : Blocks → Table ℕ → List Block
unfolding process_block_foreach
blocks_list h table = process_block_foreach (λ b blocks. h.cell b ∷ blocks) table []

module _ (symbol_at : ℕ → ℕ) (text : ℕ → ℕ) where
  unfoldable pub profile_create : StackStash → List ℕ → Blocks → Table ℕ → Profile
  unfolding blocks_list profile_build_tree sum_bytes add_functions
  profile_create stash skip h table =
      let blocks = blocks_list h table in
      let p = profile_build_tree symbol_at text stash skip blocks empty_profile in
      add_functions p.nodes_by_symbol (record p { n_bytes = sum_bytes blocks 0 })
