-- ===== src/Profile/Tests.antt =====
-- src/profile.c: the profile of three blocks, one of them allocated under recursion.
use memprof.Profile.Functions.{
  profile_create-functions, func_report, all_bytes, profile_create-functions,
}
use memprof.Profile.CallerSums.{profile_func_create_caller_list-self, func_of}
use memprof.Profile.Shares.{self_total}
use memprof.Profile.Output.{output_callers, output_callers-shares, caller_lines, shares, NotBelow}
use memprof.Common.Sort.{IsSorted}
use memprof.Profile.Descendants.{profile_func_create_descendant_tree}
use memprof.Profile.Details.{output_descendants}
use memprof.Common.Sort.{sort_by}
use memprof.Profile.Bounds.{profile_create-InOrder, InOrder}
use memprof.Profile.Known.{profile_create-is_called, is_called, is_some}
use memprof.StackStash.{walk, StackStash, stack_stash_add_trace, stack_stash_new}
use memprof.Common.{
  none, true, List, All, if◌then◌else◌, ◌==◌, arith, map, ◌∷◌, [], some, Option, false, refl, ◌≡◌,
  ◌/◌, ℕ,
}
use memprof.Profile.{ProfileNode, ProfileFunc, profile_create, Profile}
use memprof.Block.{Blocks, Block}
use memprof.Common.Table.{insert, IsTable, lookup, total, Table}
use memprof.Common.Word.{wrap32}
use memprof.Profile.Callers.{profile_func_create_caller_list}
use memprof.Common.Outcome.{aborted, done, ◌>>=◌}
use mathlib.Core.List.{Perm}

-- main (1) calls f (2), which calls itself; g (3) is called by main. Addresses are symbols times ten.
abbrev symbol_of_address : ℕ → ℕ
symbol_of_address a = a / 10

abbrev text_of : ℕ → ℕ
text_of s = s

abbrev stash_f : StackStash × Option ℕ
stash_f = stack_stash_add_trace stack_stash_new (21 ∷ 20 ∷ 10 ∷ []) 100

abbrev stash_g : StackStash × Option ℕ
stash_g = stack_stash_add_trace stash_f.0 (30 ∷ 11 ∷ []) 10

abbrev three_stash : StackStash
three_stash = (stack_stash_add_trace stash_g.0 (20 ∷ 10 ∷ []) 1).0

abbrev block_with : ℕ → Option ℕ → Block
block_with size stack = record {
  marked = false;
  is_root = false;
  addr = 0;
  size = size;
  stack = stack;
  refcount = 1;
}

abbrev three_blocks : Blocks
three_blocks = record {
  cell = λ b.
      if b == 0
      then block_with 100 (some 2)
      else if b == 1
      then block_with 10 (some 4)
      else block_with 1 (some 1);
  freed = λ _. false;
  fresh = 3;
}

abbrev three_table : Table ℕ
three_table = (4096, 0) ∷ (8192, 1) ∷ (12288, 2) ∷ []

abbrev three_profile : Profile
three_profile = profile_create symbol_of_address text_of three_stash [] three_blocks three_table

-- f has 101 bytes under it, 101 of them its own, with the hundred of the recursion once.
three_functions :
    map {B = ℕ × ℕ} (λ f. (f.total, f.self)) three_profile.functions
    ≡ (111, 0) ∷ (101, 101) ∷ (10, 10) ∷ []
unfolding profile_create stack_stash_new stack_stash_add_trace walk insert lookup
three_functions = refl

profile_create-functions_example :
    (three_profile.functions
      ≡ map
          (func_report symbol_of_address text_of three_stash [] three_blocks three_table)
          three_profile.nodes_by_symbol)
    × IsTable three_profile.nodes_by_symbol
    × (three_profile.n_bytes
        ≡ wrap32 (all_bytes symbol_of_address text_of three_stash [] three_blocks three_table))
profile_create-functions_example =
    profile_create-functions symbol_of_address text_of three_stash [] three_blocks three_table

profile_create-InOrder_example :
    (three_profile.n_bytes
      ≡ all_bytes symbol_of_address text_of three_stash [] three_blocks three_table)
    × All
        (InOrder symbol_of_address text_of three_stash [] three_blocks three_table three_profile)
        three_profile.functions
unfolding total
profile_create-InOrder_example =
    profile_create-InOrder symbol_of_address text_of three_stash [] three_blocks three_table
      (omega arith)

profile_create-is_called_example :
    is_some (lookup 2 three_profile.nodes_by_symbol)
    ≡ is_called symbol_of_address text_of three_stash [] three_blocks three_table 2 three_table
profile_create-is_called_example =
    profile_create-is_called symbol_of_address text_of three_stash [] three_blocks three_table 2

-- The callers of f: main, with one byte, and f itself.
f_callers :
    (profile_func_create_caller_list 4 three_profile.node (func_of 4 three_profile.node (some 3))
      >>= (λ callers. done (map {B = ℕ × ℕ} (λ c. (c.total, c.self)) callers)))
    ≡ done ((100, 100) ∷ (101, 1) ∷ [])
unfolding profile_create stack_stash_new stack_stash_add_trace walk insert lookup
    profile_func_create_caller_list
f_callers = refl

profile_func_create_caller_list-self_example :
    (callers : List ProfileFunc) × (profile_func_create_caller_list 4 three_profile.node
        (func_of 4 three_profile.node (some 3))
      ≡ done callers)
    × (wrap32 (self_total callers) ≡ (func_of 4 three_profile.node (some 3)).self)
profile_func_create_caller_list-self_example =
    profile_func_create_caller_list-self 4 three_profile.node (some 3)

abbrev f_func : ProfileFunc
f_func = record { total = 101; self = 101; node = some 3 }

abbrev two_callers : List ProfileFunc
two_callers =
    record { total = 100; self = 100; node = some 1 }
    ∷ record { total = 101; self = 1; node = some 0 }
    ∷ []

two_callers_listed : profile_func_create_caller_list 4 three_profile.node f_func ≡ done two_callers
unfolding profile_create stack_stash_new stack_stash_add_trace walk insert lookup
    profile_func_create_caller_list
two_callers_listed = refl

-- A hundred times 42949673 wraps around to 4: a caller with all the bytes of the function is left out.
large_left_out :
    caller_lines 42949673 (record { total = 42949673; self = 0; node = some 0 } ∷ []) ≡ done []
unfolding caller_lines
large_left_out = refl

output_callers-shares_example :
    (sorted : List ProfileFunc) × (output_callers 4 three_profile.node f_func
      ≡ done (shares 101 sorted))
    × IsSorted NotBelow sorted
    × Perm sorted two_callers
output_callers-shares_example =
    output_callers-shares 4 three_profile.node f_func two_callers two_callers_listed (omega arith)
      (omega arith, (omega arith, tt))

abbrev main_func : ProfileFunc
main_func = record { total = 111; self = 0; node = some 0 }

-- Below main are g and f, and the recursion of f is folded back onto it.
main_descendants :
    (profile_func_create_descendant_tree 4 three_profile.node main_func >>= (λ t. done (
      map {B = ℕ × ℕ × ℕ}
        (λ n. ((t.node n).symbol, (t.node n).total, (t.node n).self))
        (0 ∷ 1 ∷ 2 ∷ []))))
    ≡ done ((1, 111, 0) ∷ (3, 10, 10) ∷ (2, 101, 101) ∷ [])
unfolding profile_create stack_stash_new stack_stash_add_trace walk insert lookup
    profile_func_create_descendant_tree
main_descendants = refl

-- Of the bytes below main, f has 90 per cent and g 9.
main_lines :
    (output_descendants 4 three_profile.node main_func
      >>= (λ lines. done (map {B = ℕ × ℕ} (λ l. (l.symbol, l.percent)) lines)))
    ≡ done ((2, 90) ∷ (3, 9) ∷ [])
unfolding profile_create stack_stash_new stack_stash_add_trace walk insert lookup output_descendants
    sort_by profile_func_create_descendant_tree
main_lines = refl

-- A node without bytes, as blocks of size 0 make it: it is no leaf, and the first root of an empty tree is read.
abbrev zero_node : ProfileNode
zero_node = record {
  symbol = 1;
  total = 0;
  self = 0;
  toplevel = true;
  next = none;
  children = [];
  parent = none;
}

no_descendants :
    output_descendants 1 (λ _. zero_node) (record { total = 0; self = 0; node = some 0 }) ≡ aborted
unfolding output_descendants profile_func_create_descendant_tree
no_descendants = refl
