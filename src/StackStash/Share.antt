-- ===== src/StackStash/Share.antt =====
-- src/stackstash.c: no stack is stored twice.
-- Writing `total` or `size` moves no pointer.
use memprof.Common.{
  ◌↔◌, ◌∙◌, Option-cases, arith, ◌∷◌, [], List, some, none, Option, inr, inl, ap, sym, refl, ◌≡◌,
  ◌<◌, ◌≤◌, suc, zero, ℕ,
}
use mathlib.Core.List.{reverse}
use mathlib.Core.Path.{subst}
use memprof.StackStash.{
  stack_stash_new, stack_stash_add_trace, at_root, insert_node, at_children, add_size, trace_loop,
  read_location, find_sibling, trace_step, Location, StackStash, add_total, finish_trace, walk,
}
use memprof.StackStash.Trace.{
  add_trace-Recorded, stack_stash_new-IsWellFormed, walk-Extends, parent_bound, index_bound,
  trace_from_root-Recorded,
}
use memprof.StackStash.Shape.{
  Extends-trans, Extends-refl, Extends, Stands, trace_step-Stepped, insert_node-IsWellFormed,
  IsWellFormed,
}
use memprof.StackStash.Insert.{insert_node-IsIndexed}
use memprof.StackStash.Unique.{InChain-mono, read_location-InArena, InChain, IsIndexed}

record SamePointers (s t : StackStash) : Type 0 where
  used : t.used ≡ s.used
  root : t.root ≡ s.root
  address : (n : ℕ) → (t.node n).address ≡ (s.node n).address
  parent : (n : ℕ) → (t.node n).parent ≡ (s.node n).parent
  siblings : (n : ℕ) → (t.node n).siblings ≡ (s.node n).siblings
  children : (n : ℕ) → (t.node n).children ≡ (s.node n).children

read_location-same :
    (s t : StackStash) (k : Location) → SamePointers s t → read_location t k ≡ read_location s k
unfolding read_location
read_location-same s t at_root e = e.root
read_location-same s t (at_children n) e = e.children n

Stands-same :
    (s t : StackStash) (k : Location) (p : Option ℕ)
    → SamePointers s t
    → Stands t k p
    → Stands s k p
Stands-same s t at_root p e h = h
Stands-same s t (at_children n) p e h = (h.0, subst (λ u. n < u) e.used h.1)

IsIndexed-same : (s t : StackStash) → SamePointers s t → IsWellFormed s → IsIndexed s → IsIndexed t
IsIndexed-same s t e w x = record {
  linked = λ k n lt h.
      let lt' : n < s.used = subst (λ u. n < u) e.used lt in
      let st = Stands-same s t k (s.node n).parent e (subst (Stands t k) (e.parent n) h) in
      subst (λ p. InChain t p n) (sym (read_location-same s t k e))
        (InChain-mono s t (read_location s k) n w (λ q _. e.siblings q)
          (read_location-InArena s k (s.node n).parent w st) (x.linked k n lt' st));
  unique = λ n m n_lt m_lt ep ea.
      x.unique n m (subst (λ u. n < u) e.used n_lt) (subst (λ u. m < u) e.used m_lt)
        (cc (e.parent n, e.parent m)) (cc (e.address n, e.address m));
}

add_total-same : (s : StackStash) (m size : ℕ) → SamePointers s (add_total s m size)
unfolding add_total
add_total-same s m size = record {
  used = refl;
  root = refl;
  address = λ n. ground arith;
  parent = λ n. ground arith;
  siblings = λ n. ground arith;
  children = λ n. ground arith;
}

add_size-same : (s : StackStash) (m size : ℕ) → SamePointers s (add_size s m size)
unfolding add_size
add_size-same s m size = record {
  used = refl;
  root = refl;
  address = λ n. ground arith;
  parent = λ n. ground arith;
  siblings = λ n. ground arith;
  children = λ n. ground arith;
}

trace_step-IsIndexed :
    (s : StackStash) (location : Location) (parent : Option ℕ) (a size : ℕ)
    → IsWellFormed s
    → IsIndexed s
    → Stands s location parent
    → IsIndexed (trace_step s location parent a size).0
unfolding trace_step
trace_step-IsIndexed s location parent a size w x h =
    elim (Option-cases (find_sibling s.used s (read_location s location) a)) [
      | inl missing ↦
          let t = insert_node s location parent a in
          rw (missing, trace_step)
            (IsIndexed-same t _ (add_total-same t s.used size)
              (insert_node-IsWellFormed s location parent a w h)
              (insert_node-IsIndexed s location parent a w x h missing))
      | inr (m, found) ↦ rw (found, trace_step) (IsIndexed-same s _ (add_total-same s m size) w x)
    ]

trace_loop-IsIndexed :
    (addrs : List ℕ) (size : ℕ) (s : StackStash) (location : Location) (parent : Option ℕ)
    → IsWellFormed s
    → IsIndexed s
    → Stands s location parent
    → IsIndexed (trace_loop addrs size s location parent).0
unfolding trace_loop
trace_loop-IsIndexed [] size s location parent w x h = x
trace_loop-IsIndexed (a ∷ rest) size s location parent w x h =
    let st = trace_step-Stepped s location parent a size w h in
    trace_loop-IsIndexed rest size _ _ _ st.well_formed
      (trace_step-IsIndexed s location parent a size w x h) (refl, st.in_arena)

finish_trace-IsIndexed :
    (size : ℕ) (r : StackStash × Option ℕ)
    → IsWellFormed r.0
    → IsIndexed r.0
    → IsIndexed (finish_trace size r).0
finish_trace-IsIndexed size (t, none) w x = x
finish_trace-IsIndexed size (t, some m) w x = IsIndexed-same t _ (add_size-same t m size) w x

pub add_trace-IsIndexed :
    (s : StackStash) (addrs : List ℕ) (size : ℕ)
    → IsWellFormed s
    → IsIndexed s
    → IsIndexed (stack_stash_add_trace s addrs size).0
unfolding stack_stash_add_trace
add_trace-IsIndexed s addrs size w x =
    finish_trace-IsIndexed size _ (trace_from_root-Recorded s addrs size w).well_formed
      (trace_loop-IsIndexed (reverse addrs) size s at_root none w x refl)

-- One stack has one handle.
walk_injective :
    (f : ℕ) (s : StackStash) (p q : Option ℕ)
    → IsWellFormed s
    → IsIndexed s
    → index_bound p ≤ s.used
    → index_bound q ≤ s.used
    → index_bound p ≤ f
    → index_bound q ≤ f
    → walk f s p ≡ walk f s q
    → p ≡ q
unfolding walk
walk_injective f s none none w x p_in q_in p_le q_le e = refl
walk_injective zero s none (some m) w x p_in q_in p_le q_le e = absurd (omega arith)
walk_injective (suc f) s none (some m) w x p_in q_in p_le q_le e = cc
walk_injective zero s (some n) q w x p_in q_in p_le q_le e = absurd (omega arith)
walk_injective (suc f) s (some n) none w x p_in q_in p_le q_le e = cc
walk_injective (suc f) s (some n) (some m) w x p_in q_in p_le q_le e =
    let n_bound = parent_bound s n w p_in in
    let m_bound = parent_bound s m w q_in in
    let parents =
      walk_injective f s (s.node n).parent (s.node m).parent w x (omega arith) (omega arith)
        (omega arith) (omega arith) (cc) in
    ap some (x.unique n m p_in q_in parents (cc))

-- A run: the stacks of a history are added one after the other, each with its size.
unfoldable pub add_traces : List (List ℕ × ℕ) → StackStash → StackStash
add_traces [] s = s
add_traces ((addrs, size) ∷ rest) s = add_traces rest (stack_stash_add_trace s addrs size).0

pub record Run (s t : StackStash) : Type 0 where
  pub well_formed : IsWellFormed t
  pub indexed : IsIndexed t
  pub extends : Extends s t

pub add_traces-Run :
    (history : List (List ℕ × ℕ)) (s : StackStash)
    → IsWellFormed s
    → IsIndexed s
    → Run s (add_traces history s)
unfolding add_traces
add_traces-Run [] s w x = record { well_formed = w; indexed = x; extends = Extends-refl s }
add_traces-Run ((addrs, size) ∷ rest) s w x =
    let one = add_trace-Recorded s addrs size w in
    let t = (stack_stash_add_trace s addrs size).0 in
    let ih = add_traces-Run rest t one.well_formed (add_trace-IsIndexed s addrs size w x) in
    record {
      well_formed = ih.well_formed;
      indexed = ih.indexed;
      extends = Extends-trans s t _ one.extends ih.extends;
    }

pub stack_stash_new-IsIndexed : IsIndexed stack_stash_new
unfolding stack_stash_new
stack_stash_new-IsIndexed = record {
  linked = λ k n lt. absurd (omega arith);
  unique = λ n m lt. absurd (omega arith);
}

-- In every run of the stash two calls of `stack_stash_add_trace` return the same handle exactly
-- when they are given the same addresses, whatever is added before and between them.
pub add_trace-eq_iff :
    (before between : List (List ℕ × ℕ)) (first second : List ℕ) (size size' : ℕ)
    → let s = add_traces before stack_stash_new in
      let (t, handle) = stack_stash_add_trace s first size in
      let u = add_traces between t in
      ((stack_stash_add_trace u second size').1 ≡ handle) ↔ (second ≡ first)
add_trace-eq_iff before between first second size size' =
    let run =
      add_traces-Run before stack_stash_new stack_stash_new-IsWellFormed
        stack_stash_new-IsIndexed in
    let s = add_traces before stack_stash_new in
    let r = stack_stash_add_trace s first size in
    let one = add_trace-Recorded s first size run.well_formed in
    let more =
      add_traces-Run between r.0 one.well_formed
        (add_trace-IsIndexed s first size run.well_formed run.indexed) in
    let u = add_traces between r.0 in
    let two = add_trace-Recorded u second size' more.well_formed in
    let again = add_trace-IsIndexed u second size' more.well_formed more.indexed in
    let v = (stack_stash_add_trace u second size').0 in
    let k = (stack_stash_add_trace u second size').1 in
    let extends = Extends-trans r.0 u v more.extends two.extends in
    let r_in : index_bound r.1 ≤ v.used = omega (arith, one.in_arena, extends.grows) in
    let old : walk v.used v r.1 ≡ first =
      walk-Extends v.used r.0 v r.1 one.well_formed extends one.in_arena ∙ one.walks v.used r_in in
    let new : walk v.used v k ≡ second = two.walks v.used two.in_arena in
    (
      λ e. sym new ∙ ap (walk v.used v) e ∙ old,
      λ e.
          walk_injective v.used v k r.1 two.well_formed again two.in_arena r_in two.in_arena r_in
            (new ∙ e ∙ sym old),
    )
