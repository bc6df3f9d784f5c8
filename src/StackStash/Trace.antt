-- ===== src/StackStash/Trace.antt =====
-- src/stackstash.c: a handle stands for the stack that it was made from, for as long as the stash
-- lives.
use memprof.Common.{
  sym, Option-cases, arith, ◌++◌, ◌∷◌, [], List, none, inr, inl, ◌∙◌, ap, refl, ◌≡◌, ◌<◌, ◌≤◌, zero,
  suc, some, ℕ, Option,
}
use mathlib.Core.List.{append-nil, reverse-reverse, append_assoc, reverse-append, reverse}
use memprof.StackStash.{
  stack_stash_new, finish_trace, stack_stash_add_trace, at_root, walk, StackStash, Location,
  trace_loop, trace_step, at_children,
}
use memprof.StackStash.Shape.{
  add_size-Extends, add_size-IsWellFormed, Extends-refl, trace_step-Stepped, Extends, Stands,
  IsWellFormed, Extends-trans,
}
use mathlib.Core.Path.{subst}

-- A bound on the index that a pointer holds.
abbrev pub index_bound : Option ℕ → ℕ
index_bound none = 0
index_bound (some n) = suc n

-- With enough rounds the walk from `p` gives `stack`.
abbrev Walks : StackStash → Option ℕ → List ℕ → Type 0
Walks s p stack = (f : ℕ) → index_bound p ≤ f → walk f s p ≡ stack

pub parent_bound :
    (s : StackStash) (n : ℕ) → IsWellFormed s → n < s.used → index_bound (s.node n).parent ≤ n
parent_bound s n w h = elim (Option-cases (s.node n).parent) [
  | inl e ↦ rw e (omega arith)
  | inr (p, e) ↦ rw e (w.parent_lt n p h e)
]

pub walk-Extends :
    (f : ℕ) (s t : StackStash) (p : Option ℕ)
    → IsWellFormed s
    → Extends s t
    → index_bound p ≤ s.used
    → walk f t p ≡ walk f s p
unfolding walk
walk-Extends zero s t p w h lt = refl
walk-Extends (suc f) s t none w h lt = refl
walk-Extends (suc f) s t (some n) w h lt =
    let (address, parent) = h.same n lt in
    let bound : index_bound (s.node n).parent ≤ s.used = omega (arith, parent_bound s n w lt) in
    rw (address, parent)
      (ap (λ l. (s.node n).address ∷ l) (walk-Extends f s t (s.node n).parent w h bound))

Walks-cons :
    (s : StackStash) (m a : ℕ) (parent : Option ℕ) (stack : List ℕ)
    → (s.node m).address ≡ a
    → (s.node m).parent ≡ parent
    → index_bound parent ≤ m
    → Walks s parent stack
    → Walks s (some m) (a ∷ stack)
unfolding walk
Walks-cons s m a parent stack ea ep lt h zero le = absurd (omega arith)
Walks-cons s m a parent stack ea ep lt h (suc f) le =
    rw (ea, ep) (ap (λ l. a ∷ l) (h f (omega arith)))

-- What the loop leaves behind.
pub record Recorded (s : StackStash) (stack : List ℕ) (r : StackStash × Option ℕ) : Type 0 where
  pub well_formed : IsWellFormed r.0
  pub extends : Extends s r.0
  pub in_arena : index_bound r.1 ≤ r.0.used
  pub walks : Walks r.0 r.1 stack

trace_loop-Recorded :
    (addrs : List ℕ) (size : ℕ) (s : StackStash) (location : Location) (parent : Option ℕ)
    (stack : List ℕ)
    → IsWellFormed s
    → Stands s location parent
    → index_bound parent ≤ s.used
    → Walks s parent stack
    → Recorded s (reverse addrs ++ stack) (trace_loop addrs size s location parent)
unfolding trace_loop
trace_loop-Recorded [] size s location parent stack w h lt walks = record {
  well_formed = w;
  extends = Extends-refl s;
  in_arena = lt;
  walks = walks;
}
trace_loop-Recorded (a ∷ rest) size s location parent stack w h lt walks =
    let r = trace_step s location parent a size in
    let t = r.0 in
    let m = r.1 in
    let st = trace_step-Stepped s location parent a size w h in
    let lower : index_bound parent ≤ m =
      subst (λ q. index_bound q ≤ m) st.parent_of (parent_bound t m st.well_formed st.in_arena) in
    let later : Walks t parent stack =
      λ f le. walk-Extends f s t parent w st.extends lt ∙ walks f le in
    let ih =
      trace_loop-Recorded rest size t (at_children m) (some m) (a ∷ stack) st.well_formed
        (refl, st.in_arena) st.in_arena
        (Walks-cons t m a parent stack st.address st.parent_of lower later) in
    let order : reverse rest ++ a ∷ stack ≡ reverse (a ∷ rest) ++ stack =
      rw (reverse-append (a ∷ []) rest, append_assoc) in
    record {
      well_formed = ih.well_formed;
      extends = Extends-trans s t _ st.extends ih.extends;
      in_arena = ih.in_arena;
      walks = λ f le. ih.walks f le ∙ order;
    }

pub stack_stash_new-IsWellFormed : IsWellFormed stack_stash_new
unfolding stack_stash_new
stack_stash_new-IsWellFormed = record {
  parent_lt = λ n p lt. absurd (omega arith);
  sibling_lt = λ n q lt. absurd (omega arith);
  child_lt = λ n c lt. absurd (omega arith);
  root_lt = λ r e. cc;
}

finish_trace-Recorded :
    (s : StackStash) (stack : List ℕ) (size : ℕ) (r : StackStash × Option ℕ)
    → Recorded s stack r
    → Recorded s stack (finish_trace size r)
finish_trace-Recorded s stack size (t, none) h = h
finish_trace-Recorded s stack size (t, some m) h =
    let e = add_size-Extends t m size in
    record {
      well_formed = add_size-IsWellFormed t m size h.well_formed;
      extends = Extends-trans s t _ h.extends e;
      in_arena = omega (arith, h.in_arena, e.grows);
      walks = λ f le. walk-Extends f t _ (some m) h.well_formed e h.in_arena ∙ h.walks f le;
    }

walk-none : (s : StackStash) (f : ℕ) → 0 ≤ f → walk f s none ≡ []
unfolding walk
walk-none s zero le = refl
walk-none s (suc f) le = refl

-- The rounds that are left over change nothing.
walk_enough :
    (f g : ℕ) (s : StackStash) (p : Option ℕ)
    → IsWellFormed s
    → index_bound p ≤ s.used
    → index_bound p ≤ f
    → index_bound p ≤ g
    → walk f s p ≡ walk g s p
unfolding walk
walk_enough f g s none w lt lf lg = walk-none s f (omega arith) ∙ sym (walk-none s g (omega arith))
walk_enough zero g s (some n) w lt lf lg = absurd (omega arith)
walk_enough (suc f) zero s (some n) w lt lf lg = absurd (omega arith)
walk_enough (suc f) (suc g) s (some n) w lt lf lg =
    let bound = parent_bound s n w lt in
    ap (λ l. (s.node n).address ∷ l)
      (walk_enough f g s (s.node n).parent w (omega arith) (omega arith) (omega arith))

pub trace_from_root-Recorded :
    (s : StackStash) (addrs : List ℕ) (size : ℕ)
    → IsWellFormed s
    → Recorded s addrs (trace_loop (reverse addrs) size s at_root none)
trace_from_root-Recorded s addrs size w =
    subst (λ l. Recorded s l (trace_loop (reverse addrs) size s at_root none))
      (append-nil (reverse (reverse addrs)) ∙ reverse-reverse addrs)
      (trace_loop-Recorded (reverse addrs) size s at_root none [] w refl (omega arith)
        (walk-none s))

pub add_trace-Recorded :
    (s : StackStash) (addrs : List ℕ) (size : ℕ)
    → IsWellFormed s
    → Recorded s addrs (stack_stash_add_trace s addrs size)
unfolding stack_stash_add_trace
add_trace-Recorded s addrs size w =
    finish_trace-Recorded s addrs size _ (trace_from_root-Recorded s addrs size w)

-- The handle that `stack_stash_add_trace` returns stands for the addresses that it was given: the
-- walk along `parent` from it gives them back, in order. Every handle that was given out before
-- still walks to the same addresses, and the stash is well formed again. The number of nodes in the
-- arena is enough fuel for both walks.
pub walk-add_trace :
    (s : StackStash) (addrs : List ℕ) (size : ℕ)
    → IsWellFormed s
    → let (t, handle) = stack_stash_add_trace s addrs size in
      (walk t.used t handle ≡ addrs)
      × ((n : ℕ) → n < s.used → walk t.used t (some n) ≡ walk s.used s (some n))
      × IsWellFormed t
walk-add_trace s addrs size w =
    let h = add_trace-Recorded s addrs size w in
    let t = (stack_stash_add_trace s addrs size).0 in
    (
      h.walks t.used h.in_arena,
      λ n lt.
          walk-Extends t.used s t (some n) w h.extends lt
          ∙ walk_enough t.used s.used s (some n) w lt (omega (arith, h.extends.grows)) lt,
      h.well_formed,
    )
