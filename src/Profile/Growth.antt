-- ===== src/Profile/Growth.antt =====
-- src/profile.c: a new node of the tree of callers.
use mathlib.Core.List.{Memᴰ}
use mathlib.Core.List.Memᴰ
use mathlib.Core.Logic.{⊎_elim}
use mathlib.Core.Option.{none-ne-some, some-injective}
use memprof.Common.{
  ltb→le, ltb→lt, ltb, ◌≢◌, eq→==, ap, suc, Bool-cases, ==→eq, ◌==◌, ◌++◌, inr, inl, ◌⊎◌, has,
  arith, ◌∷◌, [], List, some, none, Option, not, ◌∙◌, sym, refl, ◌≡◌, ◌<◌, ℕ,
}
use mathlib.Core.Path.{subst}
use memprof.Profile.{
  set_profile_node, new_profile_node, Profile, ProfileNode, add_to_level, top, under, Level,
}
use memprof.Common.Table.{lookup}
use memprof.Profile.Sums.{set_node_here, set_node_other}
use memprof.Profile.Trees.{Above, Above-same, bare, Stands, IsTree, IsMarked}

add_to_level-bare :
    (p : Profile) (level : Level) (m n : ℕ)
    → bare ((add_to_level p level m).node n) ≡ bare (p.node n)
unfolding add_to_level
add_to_level-bare p top m n = refl
add_to_level-bare p (under k) m n = elim (Bool-cases (k == n)) [
  | inl here ↦
      subst (λ j. bare ((add_to_level p (under k) m).node j) ≡ bare (p.node j)) (==→eq k n here)
        (ap bare (set_node_here p k _))
  | inr other ↦ ap bare (set_node_other p k n _ (λ e. ground (arith, other, eq→== k n (sym e))))
]

pub add_to_level-used :
    (p : Profile) (level : Level) (m : ℕ) → (add_to_level p level m).used ≡ p.used
unfolding add_to_level
add_to_level-used p top m = refl
add_to_level-used p (under k) m = refl

pub mem-snoc : (xs : List ℕ) (m c : ℕ) → Memᴰ c (xs ++ m ∷ []) → (c ≡ m) ⊎ Memᴰ c xs
mem-snoc [] m c h = ⊎_elim inl (λ n. absurd (Memᴰ.not-nil n)) (Memᴰ.cases_cons h)
mem-snoc (x ∷ xs) m c h =
    ⊎_elim (λ e. inr (Memᴰ.head e)) (λ l. ⊎_elim inl (λ n. inr (Memᴰ.tail n)) (mem-snoc xs m c l))
      (Memᴰ.cases_cons h)

add_to_level-roots :
    (p : Profile) (level : Level) (m r : ℕ)
    → Memᴰ r (add_to_level p level m).roots
    → ((r ≡ m) × (level ≡ top)) ⊎ Memᴰ r p.roots
unfolding add_to_level
add_to_level-roots p top m r h = ⊎_elim (λ e. inl (e, refl)) inr (mem-snoc p.roots m r h)
add_to_level-roots p (under k) m r h = inr h

add_to_level-children :
    (p : Profile) (level : Level) (m n c : ℕ)
    → Memᴰ c ((add_to_level p level m).node n).children
    → ((c ≡ m) × (level ≡ under n)) ⊎ Memᴰ c (p.node n).children
unfolding add_to_level
add_to_level-children p top m n c h = inr h
add_to_level-children p (under k) m n c h = elim (Bool-cases (k == n)) [
  | inl here ↦
      let e = ==→eq k n here in
      let at_k = subst (λ j. Memᴰ c ((add_to_level p (under k) m).node j).children) (sym e) h in
      let here_mem = subst (λ x. Memᴰ c x.children) (set_node_here p k _) at_k in
      ⊎_elim (λ q. inl (q, ap under e)) (λ q. inr (subst (λ j. Memᴰ c (p.node j).children) e q))
        (mem-snoc (p.node k).children m c here_mem)
  | inr other ↦ inr (
      subst (λ x. Memᴰ c x.children)
        (set_node_other p k n _ (λ e. ground (arith, other, eq→== k n (sym e)))) h)
]

parent_below :
    (p : Profile) (level : Level) (parent : Option ℕ)
    → Stands p level parent
    → (n : ℕ) → parent ≡ some n
    → n < p.used
parent_below p top parent stands n e = absurd (none-ne-some _ (sym stands ∙ e))
parent_below p (under k) parent stands n e =
    subst (λ j. j < p.used) (some-injective _ _ (sym stands.0 ∙ e)) stands.1

module _ (p : Profile) (level : Level) (parent : Option ℕ) (seen : List ℕ) (symbol : ℕ) where
  abbrev fresh : ProfileNode
  fresh = record {
    symbol = symbol;
    total = 0;
    self = 0;
    toplevel = not (has symbol seen);
    next = lookup symbol p.nodes_by_symbol;
    children = [];
    parent = parent;
  }

  abbrev grown : Profile
  grown = new_profile_node p level parent seen symbol

  pub grown-bare : (n : ℕ) → n < p.used → bare (grown.node n) ≡ bare (p.node n)
  unfolding new_profile_node
  grown-bare n lt =
      add_to_level-bare _ level p.used n
      ∙ ap bare (set_node_other p p.used n fresh (λ e. omega (arith, e, lt)))

  pub grown-fresh : bare (grown.node p.used) ≡ fresh
  unfolding new_profile_node
  grown-fresh = add_to_level-bare _ level p.used p.used ∙ ap bare (set_node_here p p.used fresh)

  pub grown-used : grown.used ≡ suc p.used
  unfolding new_profile_node
  grown-used = add_to_level-used _ level p.used ∙ omega arith

  grown-children :
      (n c : ℕ)
      → n < grown.used
      → Memᴰ c (grown.node n).children
      → ((c ≡ p.used) × (level ≡ under n)) ⊎ ((n < p.used) × Memᴰ c (p.node n).children)
  unfolding new_profile_node
  grown-children n c lt h = elim (add_to_level-children _ level p.used n c h) [
    | inl new ↦ inl new
    | inr old ↦ elim (Bool-cases (n == p.used)) [
      | inl last ↦
          let e = ==→eq n p.used last in
          let at_last =
            subst (λ j. Memᴰ c ((set_profile_node p p.used fresh).node j).children) e old in
          absurd
            (Memᴰ.not-nil (subst (λ x. Memᴰ c x.children) (set_node_here p p.used fresh) at_last))
      | inr before ↦
          let apart : n ≢ p.used = λ e. ground (arith, before, eq→== n p.used e) in
          inr (
            omega (arith, apart, lt, grown-used),
            subst (λ x. Memᴰ c x.children) (set_node_other p p.used n fresh apart) old,
          )
    ]
  ]

  grown-roots : (r : ℕ) → Memᴰ r grown.roots → ((r ≡ p.used) × (level ≡ top)) ⊎ Memᴰ r p.roots
  unfolding new_profile_node
  grown-roots r h = add_to_level-roots _ level p.used r h

  grown-Above :
      (o : Option ℕ) (symbols : List ℕ)
      → IsTree p
      → ((n : ℕ) → o ≡ some n → n < p.used)
      → Above p.node o symbols
      → Above grown.node o symbols
  grown-Above o symbols tree lt a =
      Above-same p.node grown.node p.used o symbols tree.parent_lt
        (λ n below.
          (ap (λ x. x.symbol) (grown-bare n below), ap (λ x. x.parent) (grown-bare n below)))
        lt a

  grown_cases : (n : ℕ) → n < grown.used → (n < p.used) ⊎ (p.used ≡ n)
  grown_cases n lt = elim (Bool-cases (ltb n p.used)) [
    | inl old ↦ inl (ltb→lt n p.used old)
    | inr new ↦ inr (omega (arith, ltb→le n p.used new, lt, grown-used))
  ]

  grown-first :
      (n : ℕ) (symbols : List ℕ)
      → IsTree p
      → n < p.used
      → Above p.node (p.node n).parent symbols
      → Above grown.node (grown.node n).parent symbols
  grown-first n symbols tree lt a =
      subst (λ q. Above grown.node q symbols) (sym (ap (λ x. x.parent) (grown-bare n lt)))
        (grown-Above (p.node n).parent symbols tree
          (λ m e. omega (arith, tree.parent_lt n m lt e, lt)) a)

  pub grown-fresh-Above :
      IsTree p
      → Stands p level parent
      → Above p.node parent seen
      → Above grown.node (grown.node p.used).parent seen
  grown-fresh-Above tree stands above =
      subst (λ q. Above grown.node q seen) (sym (ap (λ x. x.parent) grown-fresh))
        (grown-Above parent seen tree (parent_below p level parent stands) above)

  pub grown-IsTree : IsTree p → Stands p level parent → Above p.node parent seen → IsTree grown
  grown-IsTree tree stands above = record {
    parent_lt = λ n m lt e. elim (grown_cases n lt) [
      | inl old ↦ tree.parent_lt n m old (sym (ap (λ x. x.parent) (grown-bare n old)) ∙ e)
      | inr new ↦
          let at_new : (grown.node p.used).parent ≡ some m =
            subst (λ j. (grown.node j).parent ≡ some m) (sym new) e in
          subst (λ j. m < j) new
            (parent_below p level parent stands m (sym (ap (λ x. x.parent) grown-fresh) ∙ at_new))
    ];
    root = λ r h. elim (grown-roots r h) [
      | inl (e, at_top) ↦
          let none_above : parent ≡ none = subst (λ l. Stands p l parent) at_top stands in
          (
            omega (arith, e, grown-used),
            ap (λ j. (grown.node j).parent) e ∙ ap (λ x. x.parent) grown-fresh ∙ none_above,
          )
      | inr old ↦
          let (lt, e) = tree.root r old in
          (omega (arith, lt, grown-used), ap (λ x. x.parent) (grown-bare r lt) ∙ e)
    ];
    child = λ n c lt h. elim (grown-children n c lt h) [
      | inl (e, at_n) ↦
          let (above_n, _) = subst (λ l. Stands p l parent) at_n stands in
          (
            omega (arith, e, grown-used),
            ap (λ j. (grown.node j).parent) e ∙ ap (λ x. x.parent) grown-fresh ∙ above_n,
          )
      | inr (old, m) ↦
          let (lt_c, e) = tree.child n c old m in
          (omega (arith, lt_c, grown-used), ap (λ x. x.parent) (grown-bare c lt_c) ∙ e)
    ];
    first = λ n lt. elim (grown_cases n lt) [
      | inl old ↦
          let (symbols, a, t) = tree.first n old in
          (
            symbols,
            grown-first n symbols tree old a,
            ap (λ x. x.toplevel) (grown-bare n old)
                ∙ t
                ∙ sym (ap (λ x. not (has x.symbol symbols)) (grown-bare n old)),
          )
      | inr new ↦
          let here : IsMarked grown p.used = (
            seen,
            grown-fresh-Above tree stands above,
            ap (λ x. x.toplevel) grown-fresh ∙ sym (ap (λ x. not (has x.symbol seen)) grown-fresh),
          ) in
          subst (IsMarked grown) new here
    ];
  }
