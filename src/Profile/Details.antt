-- ===== src/Profile/Details.antt =====
-- src/profile.c: the descendants that `output_descendants` prints.
use memprof.Common.Sort.{sort_by}
use Prim.Native.Nat.{Ordering, compare}
use memprof.Common.{if◌then◌else◌, ltb, map, ◌∷◌, [], List, ℕ}
use memprof.Profile.{ProfileFunc, ProfileNode}
use memprof.Profile.Output.{percent_of}
use memprof.Profile.Descendants.{
  profile_func_create_descendant_tree, DescendantNode, DescendantTree,
}
use memprof.Common.Outcome.{done, aborted, Outcome, ◌>>=◌}

-- As `g_ptr_array_sort` uses it: the greater total comes first.
unfoldable pub compare_descendant_tree_nodes : DescendantNode → DescendantNode → Ordering
compare_descendant_tree_nodes a b = compare b.total a.total

unfoldable pub create_sorted_descendant_tree_nodes : List DescendantNode → List DescendantNode
unfolding compare_descendant_tree_nodes
create_sorted_descendant_tree_nodes nodes = sort_by compare_descendant_tree_nodes nodes

-- A line of `output_descendants`, the name by its symbol.
pub record DescendantLine : Type 0 where
  pub self : ℕ
  pub total : ℕ
  pub percent : ℕ
  pub symbol : ℕ

-- The `for` loop of `output_descendants`.
unfoldable pub descendant_lines : ℕ → List DescendantNode → Outcome (List DescendantLine)
unfolding percent_of
descendant_lines whole [] = done []
descendant_lines whole (x ∷ nodes) =
    let rest = descendant_lines whole nodes in
    percent_of x.total whole >>= (λ percent. rest >>= (λ lines. done (
      if ltb percent 1
      then lines
      else record { self = x.self; total = x.total; percent = percent; symbol = x.symbol }
        ∷ lines)))

-- `descendant_tree->roots->pdata [0]`, NULL in an empty array.
unfoldable pub first_root : DescendantTree → Outcome DescendantNode
first_root t = elim t.roots [ [] ↦ aborted | r ∷ _ ↦ done (t.node r) ]

unfoldable pub output_descendants :
    ℕ → (ℕ → ProfileNode) → ProfileFunc → Outcome (List DescendantLine)
unfolding create_sorted_descendant_tree_nodes descendant_lines first_root
output_descendants f node func = profile_func_create_descendant_tree f node func >>= (λ t.
    first_root t >>= (λ x.
      descendant_lines x.total (create_sorted_descendant_tree_nodes (map t.node x.children))))
