-- ===== src/Profile/Traced.antt =====
-- src/profile.c: `profile_func_create_descendant_tree` ends, and its tree has the bytes of the function's callees.
use mathlib.Core.List.Memᴰ
use memprof.Profile.Folding.{IsCallTree}
use memprof.Profile.Sprouts.{SameSelf-descendant_self, descendant_self, SameSelf-descendant_self}
use memprof.Common.{if◌then◌else◌, ◌∷◌, [], List, some, ◌≡◌, ◌+◌, ℕ}
use memprof.Profile.{ProfileNode, is_nil}
use memprof.Profile.Descendants.{node_list_leaves, leaf_trace, DescendantTree}
use memprof.Common.Word.{wrap32}
use memprof.Common.Outcome.{Outcome, done}

-- The bytes that a trace leaves in the tree.
abbrev pub trace_bytes : List ℕ → ℕ → ℕ
trace_bytes trace size = if is_nil trace then 0 else size

-- The tree after an operation that adds bytes.
abbrev pub IsGrown : Outcome DescendantTree → DescendantTree → ℕ → Type 0
IsGrown o t bytes =
    (u : DescendantTree) × (o ≡ done u)
    × IsCallTree u
    × (wrap32 (descendant_self u) ≡ wrap32 (descendant_self t + bytes))

module _ (f : ℕ) (node : ℕ → ProfileNode) where
  -- The bytes that `profile_func_create_descendant_tree` goes through: those of the leaves below each node
  -- of the function that is the first on its stack.
  abbrev pub leaves_bytes : List ℕ → ℕ → ℕ
  leaves_bytes [] head = 0
  leaves_bytes (leaf ∷ leaves) head =
      trace_bytes (leaf_trace f node (node head).parent (some leaf) []) (node leaf).self
      + leaves_bytes leaves head

  abbrev pub heads_bytes : List ℕ → ℕ
  heads_bytes [] = 0
  heads_bytes (n ∷ chain) =
      (if (node n).toplevel then leaves_bytes (node_list_leaves f node [] n) n else 0)
      + heads_bytes chain
