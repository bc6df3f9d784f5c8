-- ===== src/Profile/Traces.antt =====
-- src/profile.c: what `profile_add_stack_trace` adds to the bytes of each function.
use mathlib.Core.List.{Memᴰ}
use mathlib.Core.Option.{none-ne-some}
use memprof.Profile.Trees.{Above-same, bare, Stands, Above, Above-unique, IsTree}
use memprof.Profile.Growth.{grown-IsTree, grown-bare, grown-fresh, grown-used, grown-fresh-Above}
use memprof.Common.{
  eq→==, if◌then◌else◌, ◌&&◌, false, true, Bool, has, Option-cases, Bool-cases, ==→eq, ◌==◌, arith,
  ◌∷◌, [], List, some, Option, not, inr, inl, ◌∙◌, ap, sym, refl, ◌≡◌, ◌<◌, ℕ,
}
use mathlib.Core.Path.{subst}
use memprof.Profile.{
  add_bytes, read_level, new_profile_node, Level, Profile, under, find_match, ProfileNode, top,
}
use memprof.Profile.Sums.{
  set_node_other, set_node_here, sum_below-same, total_of, self_of, sum_below, self_sum, total_sum,
}

find_match-some :
    (node : ℕ → ProfileNode) (roots : List ℕ) (symbol m : ℕ)
    → find_match node roots symbol ≡ some m
    → Memᴰ m roots × ((node m).symbol ≡ symbol)
unfolding find_match
find_match-some node [] symbol m e = absurd (none-ne-some _ e)
find_match-some node (r ∷ roots) symbol m e = elim (Option-cases (find_match node roots symbol)) [
  | inr (k, later) ↦
      let same : k ≡ m = ground arith in
      let (in_roots, at) = find_match-some node roots symbol m (later ∙ ap some same) in
      (Memᴰ.tail in_roots, at)
  | inl missing ↦ elim (Bool-cases ((node r).symbol == symbol)) [
    | inl here ↦
        let same : r ≡ m = ground arith in
        (Memᴰ.head (sym same), subst (λ j. (node j).symbol ≡ symbol) same (==→eq _ _ here))
    | inr other ↦ ground (arith, e, missing, other)
  ]
]

read_level-parent :
    (p : Profile) (level : Level) (parent : Option ℕ) (m : ℕ)
    → IsTree p
    → Stands p level parent
    → Memᴰ m (read_level p level)
    → (m < p.used) × ((p.node m).parent ≡ parent)
unfolding read_level
read_level-parent p top parent m tree stands h = let (lt, e) = tree.root m h in (lt, e ∙ sym stands)
read_level-parent p (under n) parent m tree stands h =
    let (lt, e) = tree.child n m stands.1 h in (lt, e ∙ sym stands.0)

zero_if : (b : Bool) → ◌≡◌ {A = ℕ} (if b then 0 else 0) 0
zero_if true = refl
zero_if false = refl

-- The node that the search of a level ends with.
pub record IsMatched (p : Profile) (seen : List ℕ) (symbol : ℕ) (q : Profile) (m : ℕ) : Type 0 where
  pub tree : IsTree q
  pub lt : m < q.used
  pub at : (q.node m).symbol ≡ symbol
  pub above : Above q.node (some m) (symbol ∷ seen)
  pub toplevel : (q.node m).toplevel ≡ not (has symbol seen)
  pub self_same : (s : ℕ) → self_sum s q ≡ self_sum s p
  pub total_same : (s : ℕ) → total_sum s q ≡ total_sum s p

module _ (p : Profile) (level : Level) (parent : Option ℕ) (seen : List ℕ) (symbol : ℕ)
    (tree : IsTree p) (stands : Stands p level parent) (above : Above p.node parent seen) where
  pub old-IsMatched :
      (m : ℕ) → find_match p.node (read_level p level) symbol ≡ some m → IsMatched p seen symbol p m
  old-IsMatched m e =
      let (in_level, at) = find_match-some p.node (read_level p level) symbol m e in
      let (lt, up) = read_level-parent p level parent m tree stands in_level in
      let (symbols, a, t) = tree.first m lt in
      let here : Above p.node (p.node m).parent seen =
        subst (λ q. Above p.node q seen) (sym up) above in
      let same = Above-unique p.node (p.node m).parent symbols seen a here in
      record {
        tree = tree;
        lt = lt;
        at = at;
        above = (m, refl, at, here);
        toplevel = t ∙ ap (λ l. not (has (p.node m).symbol l)) same ∙ ap (λ s. not (has s seen)) at;
        self_same = λ s. refl;
        total_same = λ s. refl;
      }

  abbrev pub added : Profile
  added = new_profile_node p level parent seen symbol

  new_sum :
      (w : ProfileNode → ℕ)
      → ((x : ProfileNode) → w (bare x) ≡ w x)
      → w (bare (added.node p.used)) ≡ 0
      → sum_below (λ n. w (added.node n)) added.used ≡ sum_below (λ n. w (p.node n)) p.used
  new_sum w blind zero_new =
      let used = grown-used p level parent seen symbol in
      let old = grown-bare p level parent seen symbol in
      let rest =
        sum_below-same (λ n. w (p.node n)) (λ n. w (added.node n)) p.used
          (λ n lt. sym (blind (added.node n)) ∙ ap w (old n lt) ∙ blind (p.node n)) in
      ap (sum_below (λ n. w (added.node n))) used
      ∙ omega (arith, blind (added.node p.used), zero_new, rest)

  pub new-IsMatched : IsMatched p seen symbol added p.used
  new-IsMatched =
      let fresh = grown-fresh p level parent seen symbol in
      let used = grown-used p level parent seen symbol in
      let old = grown-bare p level parent seen symbol in
      record {
        tree = grown-IsTree p level parent seen symbol tree stands above;
        lt = omega (arith, used);
        at = ap (λ x. x.symbol) fresh;
        above = (
          p.used,
          refl,
          ap (λ x. x.symbol) fresh,
          grown-fresh-Above p level parent seen symbol tree stands above,
        );
        toplevel = ap (λ x. x.toplevel) fresh;
        self_same =
            λ s. new_sum (self_of s) (λ x. refl) (ap (self_of s) fresh ∙ zero_if (symbol == s));
        total_same = λ s.
            new_sum (total_of s) (λ x. refl)
              (ap (total_of s) fresh ∙ zero_if (symbol == s && not (has symbol seen)));
      }

-- What bytes leave alone.
abbrev pub shape : ProfileNode → ProfileNode
shape x = record x { total = 0; self = 0 }

pub add_bytes-shape :
    (p : Profile) (m size : ℕ) (last : Bool) (n : ℕ)
    → shape ((add_bytes p m size last).node n) ≡ shape (p.node n)
unfolding add_bytes
add_bytes-shape p m size last n = elim (Bool-cases (m == n)) [
  | inl here ↦
      subst (λ j. shape ((add_bytes p m size last).node j) ≡ shape (p.node j)) (==→eq m n here)
        (ap shape (set_node_here p m _))
  | inr other ↦ ap shape (set_node_other p m n _ (λ e. ground (arith, other, eq→== m n (sym e))))
]

module _ (p : Profile) (m size : ℕ) (last : Bool) (tree : IsTree p) where
  abbrev pub counted : Profile
  counted = add_bytes p m size last

  same_parent : (n : ℕ) → (counted.node n).parent ≡ (p.node n).parent
  same_parent n = ap (λ x. x.parent) (add_bytes-shape p m size last n)

  pub counted-Above :
      (o : Option ℕ) (symbols : List ℕ)
      → ((n : ℕ) → o ≡ some n → n < p.used)
      → Above p.node o symbols
      → Above counted.node o symbols
  counted-Above o symbols lt a =
      Above-same p.node counted.node p.used o symbols tree.parent_lt
        (λ n below. (ap (λ x. x.symbol) (add_bytes-shape p m size last n), same_parent n)) lt a

  pub counted-IsTree : IsTree counted
  unfolding add_bytes
  counted-IsTree = record {
    parent_lt = λ n k lt e. tree.parent_lt n k lt (sym (same_parent n) ∙ e);
    root = λ r h. ((tree.root r h).0, same_parent r ∙ (tree.root r h).1);
    child = λ n c lt h.
        let (lt_c, e) =
          tree.child n c lt (subst (λ x. Memᴰ c x.children) (add_bytes-shape p m size last n) h) in
        (lt_c, same_parent c ∙ e);
    first = λ n lt.
        let (symbols, a, t) = tree.first n lt in
        (
          symbols,
          subst (λ q. Above counted.node q symbols) (sym (same_parent n))
              (counted-Above (p.node n).parent symbols
                (λ k e. omega (arith, tree.parent_lt n k lt e, lt)) a),
          ap (λ x. x.toplevel) (add_bytes-shape p m size last n)
              ∙ t
              ∙ sym (ap (λ x. not (has x.symbol symbols)) (add_bytes-shape p m size last n)),
        );
  }
