-- ===== src/StackStash/Insert.antt =====
-- src/stackstash.c: a new node is linked in, and no node of the arena is its twin.
use memprof.Common.{
  ltb→le, arith, some, ◌⊎◌, refl, ◌≤◌, Bool-cases, ltb→lt, ltb, none, Option, inr, inl, ◌≢◌, ◌∙◌,
  ap, sym, ◌≡◌, ◌<◌, ℕ,
}
use mathlib.Core.Path.{subst}
use memprof.StackStash.{insert_node, Location, find_sibling, read_location, StackStash}
use memprof.StackStash.Shape.{IsWellFormed, Stands, insert_node_new, insert_node-Extends}
use memprof.StackStash.Unique.{
  read_location-new, here, after, InChain, read_location-InArena, IsIndexed, find_sibling_complete,
  InChain-mono, read_location-insert_node, Reads, insert_node-siblings,
}
use memprof.StackStash.Trace.{index_bound}

bound_of_arena : (p : Option ℕ) (k : ℕ) → ((q : ℕ) → p ≡ some q → q < k) → index_bound p ≤ k
bound_of_arena none k h = omega arith
bound_of_arena (some n) k h = h n refl

module _ (s : StackStash) (location : Location) (parent : Option ℕ) (a : ℕ) (w : IsWellFormed s)
    (x : IsIndexed s) (stands : Stands s location parent)
    (missing : find_sibling s.used s (read_location s location) a ≡ none) where
  abbrev inserted : StackStash
  inserted = insert_node s location parent a

  old_linked :
      (k : Location) (n : ℕ)
      → n < s.used
      → Stands inserted k (s.node n).parent
      → InChain inserted (read_location inserted k) n
  unfolding Reads
  old_linked k n lt h =
      let (st, reads) = read_location-insert_node s location parent a k n w stands lt h in
      let (same, new, grown) = insert_node-siblings s location parent a stands in
      let chain =
        InChain-mono s inserted (read_location s k) n w same
          (read_location-InArena s k (s.node n).parent w st) (x.linked k n lt st) in
      elim reads [
        | inl e ↦ subst (λ p. InChain inserted p n) (sym e) chain
        | inr (ek, e) ↦
            after e (subst (λ p. InChain inserted p n) (ap (read_location s) ek ∙ sym new) chain)
      ]

  -- No node of the arena has the parent and the address of the new one.
  no_twin : (n : ℕ) → n < s.used → (s.node n).parent ≡ parent → (s.node n).address ≢ a
  no_twin n lt ep ea =
      let arena = read_location-InArena s location parent w stands in
      let st : Stands s location (s.node n).parent = subst (Stands s location) (sym ep) stands in
      find_sibling_complete s.used s (read_location s location) a n w arena
        (bound_of_arena _ _ arena) ea (x.linked location n lt st) missing

  old_or_new : (n : ℕ) → n < inserted.used → (n < s.used) ⊎ (n ≡ s.used)
  old_or_new n lt =
      let grown = (insert_node-siblings s location parent a stands).2 in
      elim (Bool-cases (ltb n s.used)) [
        | inl h ↦ inl (ltb→lt n s.used h)
        | inr h ↦ inr (omega (arith, grown, ltb→le n s.used h))
      ]

  new_linked :
      (k : Location) → Stands inserted k parent → InChain inserted (read_location inserted k) s.used
  new_linked k h = here (read_location-new s location parent a k stands h)

  insert_node_unique :
      (n m : ℕ)
      → n < inserted.used
      → m < inserted.used
      → (inserted.node n).parent ≡ (inserted.node m).parent
      → (inserted.node n).address ≡ (inserted.node m).address
      → n ≡ m
  insert_node_unique n m n_lt m_lt ep ea =
      let (_, new_address, new_parent) = insert_node_new s location parent a stands in
      let same = (insert_node-Extends s location parent a stands).same in
      elim (old_or_new n n_lt) [
        | inl n_old ↦ elim (old_or_new m m_lt) [
          | inl m_old ↦
              x.unique n m n_old m_old (sym (same n n_old).1 ∙ ep ∙ (same m m_old).1)
                (sym (same n n_old).0 ∙ ea ∙ (same m m_old).0)
          | inr m_new ↦ absurd (
              no_twin n n_old (cc ((same n n_old).1, new_parent))
                (cc ((same n n_old).0, new_address)))
        ]
        | inr n_new ↦ elim (old_or_new m m_lt) [
          | inl m_old ↦ absurd (
              no_twin m m_old (cc ((same m m_old).1, new_parent))
                (cc ((same m m_old).0, new_address)))
          | inr m_new ↦ n_new ∙ sym m_new
        ]
      ]

  pub insert_node-IsIndexed : IsIndexed inserted
  insert_node-IsIndexed =
      let (_, new_address, new_parent) = insert_node_new s location parent a stands in
      let same = (insert_node-Extends s location parent a stands).same in
      record {
        linked = λ k n lt h. elim (old_or_new n lt) [
          | inl old ↦ old_linked k n old (subst (Stands inserted k) (same n old).1 h)
          | inr new ↦ subst (InChain inserted (read_location inserted k)) (sym new) (
              new_linked k
                (subst (Stands inserted k) (ap (λ q. (inserted.node q).parent) new ∙ new_parent) h))
        ];
        unique = insert_node_unique;
      }
