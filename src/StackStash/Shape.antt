-- ===== src/StackStash/Shape.antt =====
-- src/stackstash.c: the pointers of the arena, and what one round of `stack_stash_add_trace` keeps.
use memprof.Common.{
  inr, inl, Option-cases, ℕ, zero, suc, ◌≡◌, refl, ◌<◌, ◌≤◌, Option, none, some, arith, ◌∙◌,
}
use memprof.StackStash.{
  trace_step, add_size, add_total, StackStash, Location, at_root, at_children, read_location,
  find_sibling, insert_node,
}

-- Along `parent` and `siblings` the indices fall; siblings have one parent; children know theirs.
pub record IsWellFormed (s : StackStash) : Type 0 where
  pub parent_lt : (n p : ℕ) → n < s.used → (s.node n).parent ≡ some p → p < n
  pub sibling_lt :
      (n q : ℕ)
      → n < s.used
      → (s.node n).siblings ≡ some q
      → (q < n) × ((s.node q).parent ≡ (s.node n).parent)
  pub child_lt :
      (n c : ℕ)
      → n < s.used
      → (s.node n).children ≡ some c
      → (c < s.used) × ((s.node c).parent ≡ some n)
  pub root_lt : (r : ℕ) → s.root ≡ some r → (r < s.used) × ((s.node r).parent ≡ none)

-- The place where the loop stands: NULL at the root, `parent` at its children.
abbrev pub Stands : StackStash → Location → Option ℕ → Type 0
Stands s at_root parent = parent ≡ none
Stands s (at_children n) parent = (parent ≡ some n) × (n < s.used)

-- Nodes stay: the stack that a handle stands for never changes.
pub record Extends (s t : StackStash) : Type 0 where
  pub grows : s.used ≤ t.used
  pub same :
      (n : ℕ)
      → n < s.used
      → ((t.node n).address ≡ (s.node n).address) × ((t.node n).parent ≡ (s.node n).parent)

pub find_sibling_sound :
    (f : ℕ) (s : StackStash) (p parent : Option ℕ) (a m : ℕ)
    → IsWellFormed s
    → ((n : ℕ) → p ≡ some n → (n < s.used) × ((s.node n).parent ≡ parent))
    → find_sibling f s p a ≡ some m
    → (m < s.used) × ((s.node m).parent ≡ parent) × ((s.node m).address ≡ a)
unfolding find_sibling
find_sibling_sound zero s p parent a m w h e = ground arith
find_sibling_sound (suc f) s none parent a m w h e = ground arith
find_sibling_sound (suc f) s (some n) parent a m w h e =
    let (n_lt, n_parent) = h n refl in
    let chain : (q : ℕ)
        → (s.node n).siblings ≡ some q
        → (q < s.used) × ((s.node q).parent ≡ parent) =
      λ q eq.
        (omega (arith, (w.sibling_lt n q n_lt eq).0), (w.sibling_lt n q n_lt eq).1 ∙ n_parent) in
    ground (arith, n_lt, n_parent, find_sibling_sound f s (s.node n).siblings parent a m w chain)

-- Every node that a location leads to is in the arena and has the location's parent.
pub read_location_sound :
    (s : StackStash) (location : Location) (parent : Option ℕ) (n : ℕ)
    → IsWellFormed s
    → Stands s location parent
    → read_location s location ≡ some n
    → (n < s.used) × ((s.node n).parent ≡ parent)
unfolding read_location
read_location_sound s at_root parent n w h e = ground (arith, w.root_lt n)
read_location_sound s (at_children p) parent n w h e = ground (arith, w.child_lt p n)

pub insert_node-IsWellFormed :
    (s : StackStash) (location : Location) (parent : Option ℕ) (a : ℕ)
    → IsWellFormed s
    → Stands s location parent
    → IsWellFormed (insert_node s location parent a)
unfolding insert_node
insert_node-IsWellFormed s at_root parent a w h = record {
  parent_lt = λ n p. ground (arith, w.parent_lt n p);
  sibling_lt = λ n q. ground (arith, w.sibling_lt n q, w.root_lt q);
  child_lt = λ n c. ground (arith, w.child_lt n c);
  root_lt = λ r. ground (arith, w.root_lt r);
}
insert_node-IsWellFormed s (at_children i) parent a w h = record {
  parent_lt = λ n p. ground (arith, w.parent_lt n p);
  sibling_lt = λ n q. ground (arith, w.sibling_lt n q, w.child_lt i q);
  child_lt = λ n c. ground (arith, w.child_lt n c);
  root_lt = λ r. ground (arith, w.root_lt r);
}

pub Extends-refl : (s : StackStash) → Extends s s
Extends-refl s = record { grows = omega arith; same = λ n h. (refl, refl) }

pub Extends-trans : (s t u : StackStash) → Extends s t → Extends t u → Extends s u
Extends-trans s t u h k = record {
  grows = omega (arith, h.grows, k.grows);
  same = λ n lt.
      let lt' : n < t.used = omega (arith, h.grows) in
      ((k.same n lt').0 ∙ (h.same n lt).0, (k.same n lt').1 ∙ (h.same n lt).1);
}

pub insert_node-Extends :
    (s : StackStash) (location : Location) (parent : Option ℕ) (a : ℕ)
    → Stands s location parent
    → Extends s (insert_node s location parent a)
unfolding insert_node
insert_node-Extends s at_root parent a h = record {
  grows = ground arith;
  same = λ n lt. ground arith;
}
insert_node-Extends s (at_children i) parent a h = record {
  grows = ground arith;
  same = λ n lt. ground arith;
}

pub insert_node_new :
    (s : StackStash) (location : Location) (parent : Option ℕ) (a : ℕ)
    → Stands s location parent
    → let t = insert_node s location parent a in
      (s.used < t.used) × ((t.node s.used).address ≡ a) × ((t.node s.used).parent ≡ parent)
unfolding insert_node
insert_node_new s at_root parent a h = ground arith
insert_node_new s (at_children i) parent a h = ground arith

add_total-IsWellFormed :
    (s : StackStash) (m size : ℕ) → IsWellFormed s → IsWellFormed (add_total s m size)
unfolding add_total
add_total-IsWellFormed s m size w = record {
  parent_lt = λ n p. ground (arith, w.parent_lt n p);
  sibling_lt = λ n q. ground (arith, w.sibling_lt n q);
  child_lt = λ n c. ground (arith, w.child_lt n c);
  root_lt = λ r. ground (arith, w.root_lt r);
}

pub add_size-IsWellFormed :
    (s : StackStash) (m size : ℕ) → IsWellFormed s → IsWellFormed (add_size s m size)
unfolding add_size
add_size-IsWellFormed s m size w = record {
  parent_lt = λ n p. ground (arith, w.parent_lt n p);
  sibling_lt = λ n q. ground (arith, w.sibling_lt n q);
  child_lt = λ n c. ground (arith, w.child_lt n c);
  root_lt = λ r. ground (arith, w.root_lt r);
}

add_total-Extends : (s : StackStash) (m size : ℕ) → Extends s (add_total s m size)
unfolding add_total
add_total-Extends s m size = record { grows = ground arith; same = λ n lt. ground arith }

pub add_size-Extends : (s : StackStash) (m size : ℕ) → Extends s (add_size s m size)
unfolding add_size
add_size-Extends s m size = record { grows = ground arith; same = λ n lt. ground arith }

-- What the next round relies on, and what the matched node is.
pub record Stepped (s : StackStash) (parent : Option ℕ) (a : ℕ) (t : StackStash) (m : ℕ)
    : Type 0 where
  pub well_formed : IsWellFormed t
  pub extends : Extends s t
  pub in_arena : m < t.used
  pub address : (t.node m).address ≡ a
  pub parent_of : (t.node m).parent ≡ parent

add_total-Stepped :
    (s : StackStash) (parent : Option ℕ) (a : ℕ) (t : StackStash) (m size : ℕ)
    → Stepped s parent a t m
    → Stepped s parent a (add_total t m size) m
add_total-Stepped s parent a t m size h =
    let e = add_total-Extends t m size in
    let same = e.same m h.in_arena in
    record {
      well_formed = add_total-IsWellFormed t m size h.well_formed;
      extends = Extends-trans s t _ h.extends e;
      in_arena = omega (arith, e.grows, h.in_arena);
      address = same.0 ∙ h.address;
      parent_of = same.1 ∙ h.parent_of;
    }

pub trace_step-Stepped :
    (s : StackStash) (location : Location) (parent : Option ℕ) (a size : ℕ)
    → IsWellFormed s
    → Stands s location parent
    → let r = trace_step s location parent a size in Stepped s parent a r.0 r.1
unfolding trace_step
trace_step-Stepped s location parent a size w h =
    elim (Option-cases (find_sibling s.used s (read_location s location) a)) [
      | inl missing ↦
          let new = insert_node_new s location parent a h in
          rw (missing, trace_step)
            (add_total-Stepped s parent a (insert_node s location parent a) s.used size (record {
              well_formed = insert_node-IsWellFormed s location parent a w h;
              extends = insert_node-Extends s location parent a h;
              in_arena = new.0;
              address = new.1;
              parent_of = new.2;
            }))
      | inr (m, found) ↦
          let old =
            find_sibling_sound s.used s (read_location s location) parent a m w
              (λ n. read_location_sound s location parent n w h) found in
          rw (found, trace_step)
            (add_total-Stepped s parent a s m size (record {
              well_formed = w;
              extends = Extends-refl s;
              in_arena = old.0;
              address = old.2;
              parent_of = old.1;
            }))
    ]
