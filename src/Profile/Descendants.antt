-- ===== src/Profile/Descendants.antt =====
-- src/profile.c: `profile_func_create_descendant_tree`, the tree of what a function calls, in which recursion is
-- folded back.
use memprof.Common.Table.{Table, lookup, insert}
use memprof.Common.{
  if◌then◌else◌, ◌==◌, ltb, foldl, ◌++◌, ◌∷◌, [], List, some, none, Option, false, true, Bool, ◌+◌,
  suc, zero, ℕ,
}
use memprof.Profile.{ProfileFunc, Level, ProfileNode, under, top, is_nil}
use memprof.Profile.Callers.{pointer, chain_nodes}
use memprof.Common.Word.{add32, sub32, wrap32}
use memprof.Common.Outcome.{◌>>=◌, out_of_fuel, aborted, Outcome, done}

-- `marked_non_recursive` is a `gint` as its 32-bit pattern.
pub record DescendantNode : Type 0 where
  pub symbol : ℕ
  pub self : ℕ
  pub non_recursion : ℕ
  pub total : ℕ
  pub children : List ℕ
  pub parent : Option ℕ
  pub marked_non_recursive : ℕ
  pub marked_total : Bool

-- The arena of the nodes of the tree.
pub record DescendantTree : Type 0 where
  pub roots : List ℕ
  pub node : ℕ → DescendantNode
  pub used : ℕ

-- The variables of the loop of `add_trace_to_tree`.
pub record Tracing : Type 0 where
  pub tree : DescendantTree
  pub level : Level
  pub parent : Option ℕ
  pub seen_symbols : Table ℕ
  pub to_unmark : List ℕ
  pub to_unmark_recursive : List ℕ

abbrev pub set_descendant : DescendantTree → ℕ → DescendantNode → DescendantTree
set_descendant t n x = record t { node = λ k. if k == n then x else t.node k }

unfoldable pub read_roots : DescendantTree → Level → List ℕ
read_roots t top = t.roots
read_roots t (under n) = (t.node n).children

unfoldable pub add_to_roots : DescendantTree → Level → ℕ → DescendantTree
add_to_roots t top m = record t { roots = t.roots ++ m ∷ [] }
add_to_roots t (under n) m =
    set_descendant t n (record (t.node n) { children = (t.node n).children ++ m ∷ [] })

-- The `for` loop over `roots`, which goes on to the end.
unfoldable pub find_descendant : (ℕ → DescendantNode) → List ℕ → ℕ → Option ℕ
find_descendant node [] symbol = none
find_descendant node (r ∷ roots) symbol = elim (find_descendant node roots symbol) [
  | some m ↦ some m
  | none ↦ if (node r).symbol == symbol then some r else none
]

-- `for (node = parent; node != seen_tree_node->parent; node = node->parent)`: `stop` is
-- `seen_tree_node->parent`, and NULL is followed where the loop misses it. Indices fall along `parent`.
unfoldable pub unwind : ℕ → ℕ → Option ℕ → Option ℕ → DescendantTree → Outcome DescendantTree
unwind zero size stop n t = out_of_fuel
unwind (suc f) size stop none t = if 0 == pointer stop then done t else aborted
unwind (suc f) size stop (some n) t = elim (pointer (some n) == pointer stop) [
  | true ↦ done t
  | false ↦
      let x = t.node n in
      unwind f size stop x.parent (
        set_descendant t n (record x {
          non_recursion = sub32 x.non_recursion (wrap32 size);
          marked_non_recursive = sub32 x.marked_non_recursive 1;
        }))
]

-- `for (node = match; node != NULL; node = node->parent)`, which fills the new `seen_symbols`.
unfoldable pub see_again : ℕ → (ℕ → DescendantNode) → Option ℕ → Table ℕ → Table ℕ
see_again zero node n seen = seen
see_again (suc f) node none seen = seen
see_again (suc f) node (some n) seen =
    see_again f node (node n).parent (insert (node n).symbol n seen)

-- The branch `if (seen_tree_node)`.
unfoldable pub fold_back : Tracing → ℕ → ℕ → Outcome Tracing
unfolding unwind see_again
fold_back tr seen_node size = elim tr.parent [
  | none ↦ aborted
  | some p ↦
      unwind (suc tr.tree.used) size (tr.tree.node seen_node).parent (some p) tr.tree >>= (λ t.
        done (record tr { tree = t; seen_symbols = see_again t.used t.node (some seen_node) [] }))
]

-- The second branch `if (!match)`.
unfoldable pub new_descendant : Tracing → ℕ → Tracing
unfolding add_to_roots
new_descendant tr symbol =
    let t = tr.tree in
    let u = set_descendant t t.used (record {
      symbol = symbol;
      self = 0;
      non_recursion = 0;
      total = 0;
      children = [];
      parent = tr.parent;
      marked_non_recursive = 0;
      marked_total = false;
    }) in
    record tr { tree = add_to_roots (record u { used = t.used + 1 }) tr.level t.used }

unfoldable pub match_descendant : Tracing → ℕ → ℕ → Outcome (Tracing × ℕ)
unfolding find_descendant read_roots fold_back new_descendant
match_descendant tr symbol size =
    elim (find_descendant tr.tree.node (read_roots tr.tree tr.level) symbol) [
      | some m ↦ done (tr, m)
      | none ↦ elim (lookup symbol tr.seen_symbols) [
        | some s ↦ fold_back tr s size >>= (λ q. done (q, s))
        | none ↦ done (new_descendant tr symbol, tr.tree.used)
      ]
    ]

-- What follows the search: the marks, the sums, and the step down.
unfoldable pub count_descendant : Tracing → ℕ → ℕ → ℕ → Bool → Tracing
count_descendant tr m symbol size last =
    let x = tr.tree.node m in
    let fresh = x.marked_non_recursive == 0 in
    record tr {
      tree = set_descendant tr.tree m (record x {
        non_recursion = if fresh then add32 x.non_recursion size else x.non_recursion;
        marked_non_recursive = if fresh then 1 else x.marked_non_recursive;
        total = if x.marked_total then x.total else add32 x.total size;
        marked_total = true;
        self = if last then add32 x.self size else x.self;
      });
      to_unmark = if fresh then m ∷ tr.to_unmark else tr.to_unmark;
      to_unmark_recursive =
          if x.marked_total then tr.to_unmark_recursive else m ∷ tr.to_unmark_recursive;
      seen_symbols = insert symbol m tr.seen_symbols;
      level = under m;
      parent = some m;
    }

unfoldable pub descendant_rounds : List ℕ → ℕ → Tracing → Outcome Tracing
unfolding match_descendant count_descendant
descendant_rounds [] size tr = done tr
descendant_rounds (symbol ∷ rest) size tr =
    match_descendant tr symbol size
    >>= (λ (q, m). descendant_rounds rest size (count_descendant q m symbol size (is_nil rest)))

unfoldable pub unmark : List ℕ → DescendantTree → DescendantTree
unmark [] t = t
unmark (n ∷ nodes) t =
    unmark nodes (set_descendant t n (record (t.node n) { marked_non_recursive = 0 }))

unfoldable pub unmark_recursive : List ℕ → DescendantTree → DescendantTree
unmark_recursive [] t = t
unmark_recursive (n ∷ nodes) t =
    unmark_recursive nodes (set_descendant t n (record (t.node n) { marked_total = false }))

-- `trace` is the symbols of the nodes of the trace.
unfoldable pub add_trace_to_tree : DescendantTree → List ℕ → ℕ → Outcome DescendantTree
unfolding descendant_rounds unmark unmark_recursive
add_trace_to_tree t trace size =
    descendant_rounds trace size (record {
      tree = t;
      level = top;
      parent = none;
      seen_symbols = [];
      to_unmark = [];
      to_unmark_recursive = [];
    })
    >>= (λ tr. done (unmark_recursive tr.to_unmark_recursive (unmark tr.to_unmark tr.tree)))

-- Indices rise from a node to its children, so the number of nodes is deep enough.
unfoldable pub node_list_leaves : ℕ → (ℕ → ProfileNode) → List ℕ → ℕ → List ℕ
node_list_leaves zero node leaves n = leaves
node_list_leaves (suc f) node leaves n =
    foldl (node_list_leaves f node) (if ltb 0 (node n).self then n ∷ leaves else leaves)
      (node n).children

-- The loop of `add_leaf_to_tree`: `stop` is `top->parent`.
unfoldable pub leaf_trace : ℕ → (ℕ → ProfileNode) → Option ℕ → Option ℕ → List ℕ → List ℕ
leaf_trace zero node stop n trace = trace
leaf_trace (suc f) node stop none trace = trace
leaf_trace (suc f) node stop (some n) trace = elim (pointer (some n) == pointer stop) [
  | true ↦ trace
  | false ↦ leaf_trace f node stop (node n).parent ((node n).symbol ∷ trace)
]

unfoldable pub add_leaf_to_tree :
    ℕ → (ℕ → ProfileNode) → DescendantTree → ℕ → ℕ → Outcome DescendantTree
unfolding leaf_trace add_trace_to_tree
add_leaf_to_tree f node t leaf head =
    add_trace_to_tree t (leaf_trace f node (node head).parent (some leaf) []) (node leaf).self

unfoldable pub add_leaves :
    ℕ → (ℕ → ProfileNode) → List ℕ → ℕ → DescendantTree → Outcome DescendantTree
unfolding add_leaf_to_tree
add_leaves f node [] head t = done t
add_leaves f node (leaf ∷ leaves) head t =
    add_leaf_to_tree f node t leaf head >>= add_leaves f node leaves head

-- The loop over the nodes of the function.
unfoldable pub add_heads : ℕ → (ℕ → ProfileNode) → List ℕ → DescendantTree → Outcome DescendantTree
unfolding node_list_leaves add_leaves
add_heads f node [] t = done t
add_heads f node (n ∷ chain) t =
    (if (node n).toplevel then add_leaves f node (node_list_leaves f node [] n) n t else done t)
    >>= add_heads f node chain

abbrev pub empty_tree : DescendantTree
empty_tree = record {
  roots = [];
  node = λ _. record {
    symbol = 0;
    self = 0;
    non_recursion = 0;
    total = 0;
    children = [];
    parent = none;
    marked_non_recursive = 0;
    marked_total = false;
  };
  used = 0;
}

-- `f` is the number of nodes of the profile.
unfoldable pub profile_func_create_descendant_tree :
    ℕ → (ℕ → ProfileNode) → ProfileFunc → Outcome DescendantTree
unfolding add_heads chain_nodes
profile_func_create_descendant_tree f node func =
    add_heads f node (chain_nodes f node func.node) empty_tree
