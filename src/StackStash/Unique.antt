-- ===== src/StackStash/Unique.antt =====
-- src/stackstash.c: the list of siblings at a location holds every node with that parent, and no
-- address twice.
use memprof.Common.{
  Bool-cases, ==→eq, ◌==◌, ap, ◌+◌, Option-cases, inr, inl, ◌⊎◌, sym, arith, some, none, Option,
  ◌≢◌, refl, ◌≡◌, ◌<◌, ◌≤◌, suc, zero, ℕ,
}
use mathlib.Core.Path.{subst}
use memprof.StackStash.{
  insert_node, at_children, at_root, Location, read_location, find_sibling, StackStash,
}
use memprof.StackStash.Trace.{index_bound}
use memprof.StackStash.Shape.{IsWellFormed, Stands}

-- `n` stands in the list of siblings that `p` begins.
pub data InChain (s : StackStash) : Option ℕ → ℕ → Type 0 where
  here : {p : Option ℕ} {n : ℕ} → p ≡ some n → InChain s p n
  after : {p : Option ℕ} {q n : ℕ} → p ≡ some q → InChain s (s.node q).siblings n → InChain s p n

pub record IsIndexed (s : StackStash) : Type 0 where
  pub linked :
      (location : Location) (n : ℕ)
      → n < s.used
      → Stands s location (s.node n).parent
      → InChain s (read_location s location) n
  pub unique :
      (n m : ℕ)
      → n < s.used
      → m < s.used
      → (s.node n).parent ≡ (s.node m).parent
      → (s.node n).address ≡ (s.node m).address
      → n ≡ m

abbrev pub InArena : StackStash → Option ℕ → Type 0
InArena s p = (q : ℕ) → p ≡ some q → q < s.used

pub siblings-InArena :
    (s : StackStash) (n : ℕ) → IsWellFormed s → n < s.used → InArena s (s.node n).siblings
siblings-InArena s n w lt q e = omega (arith, (w.sibling_lt n q lt e).0)

pub siblings_bound :
    (s : StackStash) (n : ℕ) → IsWellFormed s → n < s.used → index_bound (s.node n).siblings ≤ n
siblings_bound s n w h = elim (Option-cases (s.node n).siblings) [
  | inl e ↦ rw e (omega arith)
  | inr (q, e) ↦ rw e (w.sibling_lt n q h e).0
]

pub find_sibling_complete :
    (f : ℕ) (s : StackStash) (p : Option ℕ) (a n : ℕ)
    → IsWellFormed s
    → InArena s p
    → index_bound p ≤ f
    → (s.node n).address ≡ a
    → InChain s p n
    → find_sibling f s p a ≢ none
unfolding find_sibling
find_sibling_complete zero s none a n w arena le ea (here e) = cc
find_sibling_complete zero s none a n w arena le ea (after e c) = cc
find_sibling_complete zero s (some m) a n w arena le ea c = absurd (omega arith)
find_sibling_complete (suc f) s none a n w arena le ea (here e) = cc
find_sibling_complete (suc f) s none a n w arena le ea (after e c) = cc
find_sibling_complete (suc f) s (some m) a n w arena le ea (here e) = ground arith
find_sibling_complete (suc f) s (some m) a n w arena le ea (after {q = q} e c) =
    let m_lt = arena m refl in
    let c' : InChain s (s.node m).siblings n =
      subst (λ x. InChain s (s.node x).siblings n) (cc) c in
    ground (
      arith,
      find_sibling_complete f s (s.node m).siblings a n w (siblings-InArena s m w m_lt)
          (omega (arith, siblings_bound s m w m_lt)) ea c',
    )

pub read_location-InArena :
    (s : StackStash) (location : Location) (parent : Option ℕ)
    → IsWellFormed s
    → Stands s location parent
    → InArena s (read_location s location)
unfolding read_location
read_location-InArena s at_root parent w h q e = (w.root_lt q e).0
read_location-InArena s (at_children p) parent w h q e = (w.child_lt p q h.1 e).0

-- A list of siblings survives where no `siblings` pointer of the arena changes.
pub InChain-mono :
    (s t : StackStash) (p : Option ℕ) (n : ℕ)
    → IsWellFormed s
    → ((q : ℕ) → q < s.used → (t.node q).siblings ≡ (s.node q).siblings)
    → InArena s p
    → InChain s p n
    → InChain t p n
InChain-mono s t p n w same arena (here e) = here e
InChain-mono s t p n w same arena (after {q = q} e c) =
    let q_lt = arena q e in
    after e (
      subst (λ x. InChain t x n) (sym (same q q_lt))
        (InChain-mono s t (s.node q).siblings n w same (siblings-InArena s q w q_lt) c))

Stands-unique :
    (s : StackStash) (l k : Location) (parent : Option ℕ)
    → Stands s l parent
    → Stands s k parent
    → l ≡ k
Stands-unique s at_root at_root parent h g = refl
Stands-unique s at_root (at_children n) parent h g = cc (h, g.0)
Stands-unique s (at_children n) at_root parent h g = cc (h.0, g)
Stands-unique s (at_children n) (at_children m) parent h g = cc (h.0, g.0)

pub insert_node-siblings :
    (s : StackStash) (location : Location) (parent : Option ℕ) (a : ℕ)
    → Stands s location parent
    → let t = insert_node s location parent a in
      ((q : ℕ) → q < s.used → (t.node q).siblings ≡ (s.node q).siblings)
      × ((t.node s.used).siblings ≡ read_location s location)
      × (t.used ≡ s.used + 1)
unfolding insert_node
insert_node-siblings s at_root parent a h = (λ q lt. ground arith, ground arith, ground arith)
insert_node-siblings s (at_children i) parent a h =
    (λ q lt. ground arith, ground arith, ground arith)

-- Only the location of the insertion leads to another node.
unfoldable pub Reads : StackStash → StackStash → Location → Location → Type 0
Reads s t location k =
    (read_location t k ≡ read_location s k) ⊎ ((k ≡ location) × (read_location t k ≡ some s.used))

pub read_location-insert_node :
    (s : StackStash) (location : Location) (parent : Option ℕ) (a : ℕ) (k : Location) (n : ℕ)
    → IsWellFormed s
    → Stands s location parent
    → n < s.used
    → Stands (insert_node s location parent a) k (s.node n).parent
    → Stands s k (s.node n).parent × Reads s (insert_node s location parent a) location k
unfolding insert_node Reads
read_location-insert_node s at_root parent a at_root n w l lt h = (h, inr (refl, ground arith))
read_location-insert_node s at_root parent a (at_children j) n w l lt h =
    let below = w.parent_lt n j lt h.0 in ((h.0, omega (arith, below)), inl (ground (arith, below)))
read_location-insert_node s (at_children i) parent a at_root n w l lt h = (h, inl (ground arith))
read_location-insert_node s (at_children i) parent a (at_children j) n w l lt h =
    let below = w.parent_lt n j lt h.0 in
    (
      (h.0, omega (arith, below)),
      elim (Bool-cases (i == j)) [
        | inl e ↦ inr (ap at_children (sym (==→eq i j e)), ground arith)
        | inr e ↦ inl (ground (arith, below))
      ],
    )

-- What a new node is read by.
pub read_location-new :
    (s : StackStash) (location : Location) (parent : Option ℕ) (a : ℕ) (k : Location)
    → Stands s location parent
    → Stands (insert_node s location parent a) k parent
    → read_location (insert_node s location parent a) k ≡ some s.used
unfolding insert_node
read_location-new s at_root parent a at_root h g = ground arith
read_location-new s at_root parent a (at_children j) h g = cc (h, g.0)
read_location-new s (at_children i) parent a at_root h g = cc (h.0, g)
read_location-new s (at_children i) parent a (at_children j) h g =
    let e : j ≡ i = cc (h.0, g.0) in rw e (ground arith)
