-- ===== src/StackStash/Tests.antt =====
-- Runs of the stash, and its theorems at an input.
use memprof.Common.{◌∷◌, [], List, some, false, true, ◌↔◌, refl, ◌≡◌, ◌<◌, ℕ}
use memprof.StackStash.{
  stack_stash_foreach, walk, stack_stash_new, stack_stash_add_trace, stack_stash_get_root,
  stack_stash_find_node,
}
use memprof.StackStash.Trace.{stack_stash_new-IsWellFormed, walk-add_trace}
use memprof.StackStash.Foreach.{stack_stash_foreach_iff}
use memprof.StackStash.Rows.{IsCall}
use memprof.StackStash.Share.{add_traces, add_trace-eq_iff}
use memprof.StackStash.Shape.{IsWellFormed}
use mathlib.Core.List.{Memᴰ}

abbrev inner : List ℕ
inner = 30 ∷ 20 ∷ 10 ∷ []

abbrev outer : List ℕ
outer = 20 ∷ 10 ∷ []

-- `size` is -1, as the callers pass it.
abbrev minus_one : ℕ
minus_one = 0xffff_ffff

runs : Unit {0}
unfolding stack_stash_new stack_stash_add_trace walk
runs = tt

-- The shorter stack is the parent of the longer one, which was there before.
shared_prefix :
    let (s, first) = stack_stash_add_trace stack_stash_new inner minus_one in
    let (t, second) = stack_stash_add_trace s outer minus_one in
    (first ≡ some 2)
    × (second ≡ some 1)
    × (t.used ≡ 3)
    × (t.cached ≡ 679)
    × (walk 3 t first ≡ inner)
unfolding runs
shared_prefix = (refl, refl, refl, refl, refl)

-- A recursive call is not at the top level, and is chained to the first node of its address.
recursion :
    let (s, handle) = stack_stash_add_trace stack_stash_new (10 ∷ 20 ∷ 10 ∷ []) 1 in
    ((s.node 2).toplevel ≡ false)
    × ((s.node 0).toplevel ≡ true)
    × ((s.node 2).next ≡ some 0)
    × (stack_stash_find_node s 10 ≡ some 2)
    × (stack_stash_get_root s ≡ some 0)
unfolding runs stack_stash_find_node stack_stash_get_root
recursion = (refl, refl, refl, refl, refl)

walk-add_trace_example :
    let (t, handle) = stack_stash_add_trace stack_stash_new inner minus_one in
    (walk t.used t handle ≡ inner)
    × ((n : ℕ)
        → n < stack_stash_new.used
        → walk t.used t (some n) ≡ walk stack_stash_new.used stack_stash_new (some n))
    × IsWellFormed t
walk-add_trace_example = walk-add_trace stack_stash_new inner minus_one stack_stash_new-IsWellFormed

add_trace-eq_iff_example :
    let s = add_traces ((outer, 4) ∷ []) stack_stash_new in
    let (t, handle) = stack_stash_add_trace s inner 8 in
    let u = add_traces ((40 ∷ 10 ∷ [], 16) ∷ []) t in
    ((stack_stash_add_trace u inner minus_one).1 ≡ handle) ↔ (inner ≡ inner)
add_trace-eq_iff_example =
    add_trace-eq_iff ((outer, 4) ∷ []) ((40 ∷ 10 ∷ [], 16) ∷ []) inner inner 8 minus_one

abbrev two_stacks : List (List ℕ × ℕ)
two_stacks = (inner, 8) ∷ (outer, 4) ∷ []

both_given :
    stack_stash_foreach (add_traces two_stacks stack_stash_new) ≡ (outer, 4) ∷ (inner, 8) ∷ []
unfolding stack_stash_new stack_stash_add_trace stack_stash_foreach add_traces
both_given = refl

stack_stash_foreach_iff_example :
    Memᴰ (outer, 4) (stack_stash_foreach (add_traces two_stacks stack_stash_new))
    ↔ IsCall (add_traces two_stacks stack_stash_new) (outer, 4)
stack_stash_foreach_iff_example = stack_stash_foreach_iff two_stacks outer 4
