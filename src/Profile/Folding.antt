-- ===== src/Profile/Folding.antt =====
-- src/profile.c: the tree of descendants keeps its shape, and a stack that is folded back stays on it.
use mathlib.Core.List.{Memᴰ}
use mathlib.Core.Option.{none-ne-some, some-injective}
use memprof.StackStash.Trace.{index_bound}
use memprof.Common.{
  ◌⊎◌, ◌≤◌, ◌-◌, Bool-cases, eq→==, ==→eq, ◌==◌, arith, some, none, Option, inr, inl, ◌≢◌, ◌∙◌, ap,
  sym, refl, ◌≡◌, ◌<◌, ◌+◌, suc, zero, ℕ,
}
use mathlib.Core.Path.{subst}
use memprof.Profile.Callers.{pointer}
use memprof.Profile.Descendants.{unwind, set_descendant, DescendantTree, DescendantNode}
use memprof.Common.Outcome.{done}
use memprof.Common.Word.{wrap32, sub32}

-- Indices fall along `parent`; roots have no parent, and children have theirs.
pub record IsCallTree (t : DescendantTree) : Type 0 where
  pub parent_lt : (n m : ℕ) → n < t.used → (t.node n).parent ≡ some m → m < n
  pub root : (r : ℕ) → Memᴰ r t.roots → (r < t.used) × ((t.node r).parent ≡ none)
  pub child :
      (n c : ℕ)
      → n < t.used
      → Memᴰ c (t.node n).children
      → (c < t.used) × ((t.node c).parent ≡ some n)

-- The pointers are the same.
pub record Same (t u : DescendantTree) : Type 0 where
  pub used : u.used ≡ t.used
  pub roots : u.roots ≡ t.roots
  pub parent : (n : ℕ) → (u.node n).parent ≡ (t.node n).parent
  pub children : (n : ℕ) → (u.node n).children ≡ (t.node n).children

abbrev pub SameSelf : DescendantTree → DescendantTree → Type 0
SameSelf t u = (n : ℕ) → (u.node n).self ≡ (t.node n).self

pub Same-refl : (t : DescendantTree) → Same t t
Same-refl t = record { used = refl; roots = refl; parent = λ n. refl; children = λ n. refl }

pub Same-trans : (t u v : DescendantTree) → Same t u → Same u v → Same t v
Same-trans t u v a b = record {
  used = b.used ∙ a.used;
  roots = b.roots ∙ a.roots;
  parent = λ n. b.parent n ∙ a.parent n;
  children = λ n. b.children n ∙ a.children n;
}

pub Same-IsCallTree : (t u : DescendantTree) → Same t u → IsCallTree t → IsCallTree u
Same-IsCallTree t u same tree = record {
  parent_lt =
      λ n m lt e. tree.parent_lt n m (omega (arith, lt, same.used)) (sym (same.parent n) ∙ e);
  root = λ r h.
      let (lt, e) = tree.root r (subst (Memᴰ r) same.roots h) in
      (omega (arith, lt, same.used), same.parent r ∙ e);
  child = λ n c lt h.
      let (lt_c, e) =
        tree.child n c (omega (arith, lt, same.used)) (subst (Memᴰ c) (same.children n) h) in
      (omega (arith, lt_c, same.used), same.parent c ∙ e);
}

pub set_here : (t : DescendantTree) (m : ℕ) (x : DescendantNode) → (set_descendant t m x).node m ≡ x
set_here t m x = ground (arith, eq→== m m refl)

pub set_other :
    (t : DescendantTree) (m n : ℕ) (x : DescendantNode)
    → n ≢ m
    → (set_descendant t m x).node n ≡ t.node n
set_other t m n x apart = ground (arith, ==→eq m n)

pub set_field {ℓ} :
    {A : Type ℓ} (field : DescendantNode → A) (t : DescendantTree) (m n : ℕ) (x : DescendantNode)
    → field x ≡ field (t.node m)
    → field ((set_descendant t m x).node n) ≡ field (t.node n)
set_field field t m n x e = elim (Bool-cases (n == m)) [
  | inl here ↦
      subst (λ j. field ((set_descendant t m x).node j) ≡ field (t.node j)) (sym (==→eq n m here))
        (ap field (set_here t m x) ∙ e)
  | inr other ↦ ap field (set_other t m n x (λ q. ground (arith, other, eq→== n m q)))
]

pub set-Same :
    (t : DescendantTree) (m : ℕ) (x : DescendantNode)
    → x.parent ≡ (t.node m).parent
    → x.children ≡ (t.node m).children
    → Same t (set_descendant t m x)
set-Same t m x p c = record {
  used = refl;
  roots = refl;
  parent = λ n. set_field (λ y. y.parent) t m n x p;
  children = λ n. set_field (λ y. y.children) t m n x c;
}

-- `k` is the node that `o` points to, or one above it.
pub data OnPath (node : ℕ → DescendantNode) : Option ℕ → ℕ → Type 0 where
  at : {o : Option ℕ} {k : ℕ} → o ≡ some k → OnPath node o k
  above : {o : Option ℕ} {n k : ℕ} → o ≡ some n → OnPath node (node n).parent k → OnPath node o k

pub OnPath-below :
    (node new : ℕ → DescendantNode) (b : ℕ) (o : Option ℕ) (k : ℕ)
    → ((n m : ℕ) → n < b → (node n).parent ≡ some m → m < n)
    → ((n : ℕ) → n < b → (new n).parent ≡ (node n).parent)
    → ((n : ℕ) → o ≡ some n → n < b)
    → OnPath node o k
    → OnPath new o k × (k < b)
OnPath-below node new b o k falls same lt (at e) = (at e, lt k e)
OnPath-below node new b o k falls same lt (above {n = n} e path) =
    let below = lt n e in
    let (rest, k_lt) =
      OnPath-below node new b (node n).parent k falls same
        (λ m q. omega (arith, falls n m below q, below)) path in
    (above e (subst (λ p. OnPath new p k) (sym (same n below)) rest), k_lt)

unwind-stop :
    (f size : ℕ) (stop : Option ℕ) (t : DescendantTree) → unwind (suc f) size stop stop t ≡ done t
unfolding unwind
unwind-stop f size none t = refl
unwind-stop f size (some k) t = rw (eq→== (k + 1) (k + 1) refl, unwind) refl

OnPath-cases :
    (node : ℕ → DescendantNode) (n k : ℕ)
    → OnPath node (some n) k
    → (n ≡ k) ⊎ OnPath node (node n).parent k
OnPath-cases node n k (at e) = inl (some-injective _ _ e)
OnPath-cases node n k (above {n = m} e path) =
    inr (subst (λ j. OnPath node (node j).parent k) (sym (some-injective _ _ e)) path)

pub bound_of : (o : Option ℕ) (k : ℕ) → ((q : ℕ) → o ≡ some q → q < k) → index_bound o ≤ k
bound_of none k h = omega arith
bound_of (some n) k h = h n refl

-- The loop comes to the node that the stack is folded back to, and ends above it.
pub unwind-done :
    (f size s : ℕ) (stop o : Option ℕ) (t : DescendantTree)
    → IsCallTree t
    → OnPath t.node o s
    → ((n : ℕ) → o ≡ some n → n < t.used)
    → index_bound o < f
    → stop ≡ (t.node s).parent
    → (u : DescendantTree) × (unwind f size stop o t ≡ done u) × Same t u × SameSelf t u
unfolding unwind
unwind-done zero size s stop o t tree path lt enough e = absurd (omega arith)
unwind-done (suc f) size s stop none t tree (at q) lt enough e = absurd (none-ne-some _ q)
unwind-done (suc f) size s stop none t tree (above q path) lt enough e = absurd (none-ne-some _ q)
unwind-done (suc f) size s stop (some n) t tree path lt enough e =
    elim (Bool-cases (n + 1 == pointer stop)) [
      | inl met ↦ (t, rw (met, unwind) refl, Same-refl t, λ j. refl)
      | inr apart ↦
          let x = t.node n in
          let t1 = set_descendant t n (record x {
            non_recursion = sub32 x.non_recursion (wrap32 size);
            marked_non_recursive = sub32 x.marked_non_recursive 1;
          }) in
          let same1 : Same t t1 = set-Same t n _ refl refl in
          let kept1 : SameSelf t t1 = λ j. set_field (λ y. y.self) t n j _ refl in
          let n_lt = lt n refl in
          elim (OnPath-cases t.node n s path) [
            | inl here ↦
                let stop_here : stop ≡ x.parent = e ∙ ap (λ j. (t.node j).parent) (sym here) in
                let room : f ≡ suc (f - 1) = omega (arith, enough) in
                let ended : unwind f size stop x.parent t1 ≡ done t1 =
                  subst (λ o. unwind f size stop o t1 ≡ done t1) stop_here
                    (subst (λ g. unwind g size stop stop t1 ≡ done t1) (sym room)
                      (unwind-stop (f - 1) size stop t1)) in
                (t1, rw (apart, unwind) ended, same1, kept1)
            | inr path' ↦
                let falls : (m : ℕ) → x.parent ≡ some m → m < n =
                  λ m q. tree.parent_lt n m n_lt q in
                let inside : (m : ℕ) → x.parent ≡ some m → m < t.used =
                  λ m q. omega (arith, falls m q, n_lt) in
                let (moved, _) =
                  OnPath-below t.node t1.node t.used x.parent s tree.parent_lt
                    (λ j _. same1.parent j) inside path' in
                let (u, ended, same2, kept2) =
                  unwind-done f size s stop x.parent t1 (Same-IsCallTree t t1 same1 tree) moved
                    inside (omega (arith, bound_of x.parent n falls, enough))
                    (e ∙ sym (same1.parent s)) in
                (u, rw (apart, unwind) ended, Same-trans t t1 u same1 same2, λ j. kept2 j ∙ kept1 j)
          ]
    ]
