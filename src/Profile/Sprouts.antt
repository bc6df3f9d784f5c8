-- ===== src/Profile/Sprouts.antt =====
-- src/profile.c: a new node of the tree of descendants.
use mathlib.Core.List.Memᴰ
use mathlib.Core.List.{Memᴰ}
use mathlib.Core.Logic.{⊎_elim}
use mathlib.Core.Option.{none-ne-some, some-injective}
use memprof.Profile.Growth.{mem-snoc}
use memprof.Profile.Sums.{sum_below, sum_below-same}
use memprof.Profile.Folding.{SameSelf, IsCallTree, set_here, set_other, set_field}
use memprof.Common.{
  Bool-cases, eq→==, ==→eq, ltb→le, ltb→lt, ◌==◌, ltb, arith, [], some, none, Option, false, inr,
  inl, ◌⊎◌, ◌≢◌, ◌∙◌, ap, sym, refl, ◌≡◌, ◌<◌, suc, ℕ,
}
use mathlib.Core.Path.{subst}
use memprof.Profile.{under, top, Level}
use memprof.Profile.Descendants.{
  new_descendant, DescendantNode, add_to_roots, DescendantTree, Tracing, set_descendant,
}

-- The sum of `self` over the tree.
abbrev pub descendant_self : DescendantTree → ℕ
descendant_self t = sum_below (λ n. (t.node n).self) t.used

pub SameSelf-descendant_self :
    (t u : DescendantTree) → u.used ≡ t.used → SameSelf t u → descendant_self u ≡ descendant_self t
SameSelf-descendant_self t u used same =
    ap (sum_below (λ n. (u.node n).self)) used
    ∙ sum_below-same (λ n. (t.node n).self) (λ n. (u.node n).self) t.used (λ n _. same n)

-- The place of the loop in `add_trace_to_tree`.
abbrev pub IsAt : DescendantTree → Level → Option ℕ → Type 0
IsAt t top parent = parent ≡ none
IsAt t (under n) parent = (parent ≡ some n) × (n < t.used)

pub IsAt-below :
    (t : DescendantTree) (level : Level) (parent : Option ℕ)
    → IsAt t level parent
    → (n : ℕ) → parent ≡ some n
    → n < t.used
IsAt-below t top parent stands n e = absurd (none-ne-some _ (sym stands ∙ e))
IsAt-below t (under k) parent stands n e =
    subst (λ j. j < t.used) (some-injective _ _ (sym stands.0 ∙ e)) stands.1

add_to_roots-parent :
    (t : DescendantTree) (level : Level) (m n : ℕ)
    → ((add_to_roots t level m).node n).parent ≡ (t.node n).parent
unfolding add_to_roots
add_to_roots-parent t top m n = refl
add_to_roots-parent t (under k) m n = set_field (λ y. y.parent) t k n _ refl

add_to_roots_self :
    (t : DescendantTree) (level : Level) (m : ℕ) → SameSelf t (add_to_roots t level m)
unfolding add_to_roots
add_to_roots_self t top m n = refl
add_to_roots_self t (under k) m n = set_field (λ y. y.self) t k n _ refl

add_to_roots-used :
    (t : DescendantTree) (level : Level) (m : ℕ) → (add_to_roots t level m).used ≡ t.used
unfolding add_to_roots
add_to_roots-used t top m = refl
add_to_roots-used t (under k) m = refl

add_to_roots-roots :
    (t : DescendantTree) (level : Level) (m r : ℕ)
    → Memᴰ r (add_to_roots t level m).roots
    → ((r ≡ m) × (level ≡ top)) ⊎ Memᴰ r t.roots
unfolding add_to_roots
add_to_roots-roots t top m r h = ⊎_elim (λ e. inl (e, refl)) inr (mem-snoc t.roots m r h)
add_to_roots-roots t (under k) m r h = inr h

add_to_roots-children :
    (t : DescendantTree) (level : Level) (m n c : ℕ)
    → Memᴰ c ((add_to_roots t level m).node n).children
    → ((c ≡ m) × (level ≡ under n)) ⊎ Memᴰ c (t.node n).children
unfolding add_to_roots
add_to_roots-children t top m n c h = inr h
add_to_roots-children t (under k) m n c h = elim (Bool-cases (k == n)) [
  | inl here ↦
      let e = ==→eq k n here in
      let at_k = subst (λ j. Memᴰ c ((add_to_roots t (under k) m).node j).children) (sym e) h in
      let grown = subst (λ x. Memᴰ c x.children) (set_here t k _) at_k in
      ⊎_elim (λ q. inl (q, ap under e)) (λ q. inr (subst (λ j. Memᴰ c (t.node j).children) e q))
        (mem-snoc (t.node k).children m c grown)
  | inr other ↦ inr (
      subst (λ x. Memᴰ c x.children)
        (set_other t k n _ (λ e. ground (arith, other, eq→== k n (sym e)))) h)
]

module _ (tr : Tracing) (symbol : ℕ) where
  abbrev sprout : DescendantNode
  sprout = record {
    symbol = symbol;
    self = 0;
    non_recursion = 0;
    total = 0;
    children = [];
    parent = tr.parent;
    marked_non_recursive = 0;
    marked_total = false;
  }

  abbrev pub sprouted : DescendantTree
  sprouted = (new_descendant tr symbol).tree

  pub sprouted-used : sprouted.used ≡ suc tr.tree.used
  unfolding new_descendant
  sprouted-used = add_to_roots-used _ tr.level tr.tree.used ∙ omega arith

  pub sprouted-old : (n : ℕ) → n < tr.tree.used → (sprouted.node n).parent ≡ (tr.tree.node n).parent
  unfolding new_descendant
  sprouted-old n lt =
      add_to_roots-parent _ tr.level tr.tree.used n
      ∙ ap (λ y. y.parent) (set_other tr.tree tr.tree.used n sprout (λ e. omega (arith, e, lt)))

  pub sprouted-new : (sprouted.node tr.tree.used).parent ≡ tr.parent
  unfolding new_descendant
  sprouted-new =
      add_to_roots-parent _ tr.level tr.tree.used tr.tree.used
      ∙ ap (λ y. y.parent) (set_here tr.tree tr.tree.used sprout)

  -- The new node has no bytes.
  pub sprouted_self : descendant_self sprouted ≡ descendant_self tr.tree
  unfolding new_descendant
  sprouted_self =
      let old : (n : ℕ) → n < tr.tree.used → (sprouted.node n).self ≡ (tr.tree.node n).self =
        λ n lt.
          add_to_roots_self _ tr.level tr.tree.used n
          ∙ ap (λ y. y.self)
              (set_other tr.tree tr.tree.used n sprout (λ e. omega (arith, e, lt))) in
      let new : (sprouted.node tr.tree.used).self ≡ 0 =
        add_to_roots_self _ tr.level tr.tree.used tr.tree.used
        ∙ ap (λ y. y.self) (set_here tr.tree tr.tree.used sprout) in
      ap (sum_below (λ n. (sprouted.node n).self)) sprouted-used
      ∙ omega (
        arith,
        new,
        sum_below-same (λ n. (tr.tree.node n).self) (λ n. (sprouted.node n).self) tr.tree.used old,
      )

  sprouted-children :
      (n c : ℕ)
      → n < sprouted.used
      → Memᴰ c (sprouted.node n).children
      → ((c ≡ tr.tree.used) × (tr.level ≡ under n))
        ⊎ ((n < tr.tree.used) × Memᴰ c (tr.tree.node n).children)
  unfolding new_descendant
  sprouted-children n c lt h = elim (add_to_roots-children _ tr.level tr.tree.used n c h) [
    | inl new ↦ inl new
    | inr old ↦ elim (Bool-cases (n == tr.tree.used)) [
      | inl last ↦
          let e = ==→eq n tr.tree.used last in
          let at_last =
            subst (λ j. Memᴰ c ((set_descendant tr.tree tr.tree.used sprout).node j).children) e
              old in
          absurd (
            Memᴰ.not-nil
              (subst (λ x. Memᴰ c x.children) (set_here tr.tree tr.tree.used sprout) at_last))
      | inr before ↦
          let apart : n ≢ tr.tree.used = λ e. ground (arith, before, eq→== n tr.tree.used e) in
          inr (
            omega (arith, apart, lt, sprouted-used),
            subst (λ x. Memᴰ c x.children) (set_other tr.tree tr.tree.used n sprout apart) old,
          )
    ]
  ]

  sprouted-roots :
      (r : ℕ)
      → Memᴰ r sprouted.roots
      → ((r ≡ tr.tree.used) × (tr.level ≡ top)) ⊎ Memᴰ r tr.tree.roots
  unfolding new_descendant
  sprouted-roots r h = add_to_roots-roots _ tr.level tr.tree.used r h

  sprouted_cases : (n : ℕ) → n < sprouted.used → (n < tr.tree.used) ⊎ (tr.tree.used ≡ n)
  sprouted_cases n lt = elim (Bool-cases (ltb n tr.tree.used)) [
    | inl old ↦ inl (ltb→lt n tr.tree.used old)
    | inr new ↦ inr (omega (arith, ltb→le n tr.tree.used new, lt, sprouted-used))
  ]

  pub sprouted-IsCallTree :
      IsCallTree tr.tree → IsAt tr.tree tr.level tr.parent → IsCallTree sprouted
  sprouted-IsCallTree tree stands = record {
    parent_lt = λ n m lt e. elim (sprouted_cases n lt) [
      | inl old ↦ tree.parent_lt n m old (sym (sprouted-old n old) ∙ e)
      | inr new ↦
          let at_new : (sprouted.node tr.tree.used).parent ≡ some m =
            subst (λ j. (sprouted.node j).parent ≡ some m) (sym new) e in
          subst (λ j. m < j) new
            (IsAt-below tr.tree tr.level tr.parent stands m (sym sprouted-new ∙ at_new))
    ];
    root = λ r h. elim (sprouted-roots r h) [
      | inl (e, at_top) ↦
          let none_above : tr.parent ≡ none = subst (λ l. IsAt tr.tree l tr.parent) at_top stands in
          (
            omega (arith, e, sprouted-used),
            ap (λ j. (sprouted.node j).parent) e ∙ sprouted-new ∙ none_above,
          )
      | inr old ↦
          let (lt, e) = tree.root r old in (omega (arith, lt, sprouted-used), sprouted-old r lt ∙ e)
    ];
    child = λ n c lt h. elim (sprouted-children n c lt h) [
      | inl (e, at_n) ↦
          let (above_n, _) = subst (λ l. IsAt tr.tree l tr.parent) at_n stands in
          (
            omega (arith, e, sprouted-used),
            ap (λ j. (sprouted.node j).parent) e ∙ sprouted-new ∙ above_n,
          )
      | inr (old, m) ↦
          let (lt_c, e) = tree.child n c old m in
          (omega (arith, lt_c, sprouted-used), sprouted-old c lt_c ∙ e)
    ];
  }
