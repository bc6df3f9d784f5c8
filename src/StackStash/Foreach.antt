-- ===== src/StackStash/Foreach.antt =====
-- src/stackstash.c: `stack_stash_foreach` gives every stack with a size to the callback.
use mathlib.Core.List.Memᴰ
use mathlib.Core.List.{Memᴰ}
use memprof.StackStash.Unique.{read_location-InArena, IsIndexed, InArena}
use memprof.StackStash.Shape.{Stands, IsWellFormed}
use memprof.StackStash.Share.{add_traces, add_traces-Run, stack_stash_new-IsIndexed}
use memprof.StackStash.Trace.{stack_stash_new-IsWellFormed, index_bound}
use memprof.Common.{
  Option-cases, ◌↔◌, ◌-◌, ◌∙◌, ◌+◌, sym, arith, [], List, some, none, Option, inr, inl, refl, ◌≡◌,
  ◌<◌, ◌≤◌, suc, zero, ℕ,
}
use memprof.StackStash.{
  stack_stash_new, stack_stash_foreach, at_root, do_callback, at_children, Location, read_location,
  StackStash,
}
use mathlib.Core.Path.{ap₂, subst}
use memprof.StackStash.Rows.{
  stack_of, stack_of-none, stack_of-some, IsCall, row_sound, row_complete, Given,
}

abbrev location_of : Option ℕ → Location
location_of none = at_root
location_of (some n) = at_children n

module _ (s : StackStash) (w : IsWellFormed s) where
  do_callback_sound :
      (d : ℕ) (p o : Option ℕ) (call : List ℕ × ℕ)
      → ((n : ℕ) → p ≡ some n → (n < s.used) × ((s.node n).parent ≡ o))
      → Memᴰ call (do_callback d s p (stack_of s o))
      → IsCall s call
  unfolding do_callback
  do_callback_sound zero p o call at m = absurd (Memᴰ.not-nil m)
  do_callback_sound (suc d) p o call at m =
      row_sound s w (do_callback d s) s.used p o call
        (λ n lt. do_callback_sound d (s.node n).children (some n) call (λ c e. w.child_lt n c lt e))
        at m

  abbrev row_calls : ℕ → Option ℕ → List (List ℕ × ℕ)
  row_calls d o = do_callback d s (read_location s (location_of o)) (stack_of s o)

  -- All that the row below a pointer gives is given, with `d` rounds for what lies below it.
  abbrev Reaches : Option ℕ → ℕ → ℕ → Type 0
  Reaches o D d =
      (call : List ℕ × ℕ) → Memᴰ call (row_calls d o) → Memᴰ call (do_callback D s s.root [])

  location_of-Stands :
      (n : ℕ) (o : Option ℕ) → n < s.used → (s.node n).parent ≡ o → Stands s (location_of o) o
  location_of-Stands n none lt up = refl
  location_of-Stands n (some p) lt up = (refl, omega (arith, w.parent_lt n p lt up, lt))

  arena_bound : (p : Option ℕ) → InArena s p → index_bound p ≤ s.used
  arena_bound none arena = omega arith
  arena_bound (some n) arena = arena n refl

  node_given :
      (x : IsIndexed s) (d n : ℕ) (lt : n < s.used) (call : List ℕ × ℕ)
      → Given s w (do_callback d s) n (stack_of s (s.node n).parent) call
      → Memᴰ call (row_calls (suc d) (s.node n).parent)
  unfolding do_callback
  node_given x d n lt call given =
      let o = (s.node n).parent in
      let stands = location_of-Stands n o lt refl in
      let arena = read_location-InArena s (location_of o) o w stands in
      row_complete s w (do_callback d s) s.used n (stack_of s o) (read_location s (location_of o))
        call arena (arena_bound (read_location s (location_of o)) arena)
        (x.linked (location_of o) n lt stands) given

  below_node :
      (x : IsIndexed s) (d p D : ℕ)
      → p < s.used
      → Reaches (s.node p).parent D (suc d)
      → Reaches (some p) D d
  unfolding read_location
  below_node x d p D lt sub call m = sub call (
      node_given x d p lt call (
        inr (
          subst (λ t. Memᴰ call (do_callback d s (s.node p).children t))
            (sym (stack_of-some s p w lt)) m)))

  reach :
      (x : IsIndexed s) (k n D : ℕ)
      → n < k
      → n < s.used
      → n < D
      → (d : ℕ) × (D ≤ d + n) × Reaches (s.node n).parent D d
  unfolding read_location
  reach x zero n D below lt deep = absurd (omega arith)
  reach x (suc k) n D below lt deep = elim (Option-cases (s.node n).parent) [
    | inl alone ↦ (
      D,
      omega arith,
      subst (λ o. Reaches o D D) (sym alone)
          (λ call m. subst (λ t. Memᴰ call (do_callback D s s.root t)) (stack_of-none s) m),
    )
    | inr (p, up) ↦
        let p_lt = w.parent_lt n p lt up in
        let (d, le, sub) =
          reach x k p D (omega (arith, p_lt, below)) (omega (arith, p_lt, lt))
            (omega (arith, p_lt, deep)) in
        let e : d ≡ suc (d - 1) = omega (arith, le, p_lt, deep) in
        (
          d - 1,
          omega (arith, le, p_lt, e),
          subst (λ o. Reaches o D (d - 1)) (sym up)
              (below_node x (d - 1) p D (omega (arith, p_lt, lt))
                (subst (Reaches (s.node p).parent D) e sub)),
        )
  ]

  complete :
      (x : IsIndexed s) (trace : List ℕ) (size : ℕ)
      → IsCall s (trace, size)
      → Memᴰ (trace, size) (do_callback s.used s s.root [])
  complete x trace size (n, lt, stack, same, positive) =
      let (d, le, sub) = reach x s.used n s.used lt lt lt in
      let e : d ≡ suc (d - 1) = omega (arith, le, lt) in
      subst (Reaches (s.node n).parent s.used) e sub (trace, size)
        (node_given x (d - 1) n lt (trace, size)
          (inl (
            ap₂ (λ t z. (t, z)) (sym (stack_of-some s n w lt ∙ stack)) (sym same),
            λ z. positive (sym same ∙ z),
          )))

  stack_stash_foreach-IsCall :
      IsIndexed s
      → (trace : List ℕ) (size : ℕ)
      → Memᴰ (trace, size) (stack_stash_foreach s) ↔ IsCall s (trace, size)
  unfolding stack_stash_foreach
  stack_stash_foreach-IsCall x trace size = (
    λ m.
        do_callback_sound s.used s.root none (trace, size) w.root_lt
          (subst (λ t. Memᴰ (trace, size) (do_callback s.used s s.root t)) (sym (stack_of-none s))
            m),
    complete x trace size,
  )

-- After any history of added stacks `stack_stash_foreach` calls the function with a list of addresses and a
-- size exactly if some node of the stash has that stack, from its own address outwards, and that size,
-- which is not 0.
pub stack_stash_foreach_iff :
    (history : List (List ℕ × ℕ)) (trace : List ℕ) (size : ℕ)
    → Memᴰ (trace, size) (stack_stash_foreach (add_traces history stack_stash_new))
      ↔ IsCall (add_traces history stack_stash_new) (trace, size)
stack_stash_foreach_iff history trace size =
    let run =
      add_traces-Run history stack_stash_new stack_stash_new-IsWellFormed
        stack_stash_new-IsIndexed in
    stack_stash_foreach-IsCall (add_traces history stack_stash_new) run.well_formed run.indexed
      trace size
