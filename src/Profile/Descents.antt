-- ===== src/Profile/Descents.antt =====
-- src/profile.c: the search of `add_trace_to_tree` finds a node of the tree.
use mathlib.Core.List.{Memᴰ}
use mathlib.Core.Option.{none-ne-some, some-injective}
use memprof.Common.Table.{Table, lookup, insert, lookup-insert}
use memprof.Profile.Folding.{
  IsCallTree, Same-IsCallTree, OnPath, at, above, OnPath-below, unwind-done,
}
use memprof.Profile.Sprouts.{
  descendant_self, SameSelf-descendant_self, sprouted_self, IsAt, IsAt-below, sprouted,
  sprouted-used, sprouted-old, sprouted-new, sprouted-IsCallTree,
}
use memprof.Common.{
  ◌≢◌, Option-cases, Bool-cases, if◌then◌else◌, ◌==◌, arith, ◌∷◌, [], List, some, none, Option, inr,
  inl, ◌∙◌, ap, sym, refl, ◌≡◌, ◌<◌, suc, zero, ℕ,
}
use mathlib.Core.Path.{subst}
use memprof.Profile.{under, top, Level}
use memprof.Leak.Report.{roots}
use memprof.Profile.Descendants.{
  unwind, match_descendant, new_descendant, Tracing, DescendantNode, fold_back, see_again,
  find_descendant, read_roots, DescendantTree,
}
use memprof.Common.Outcome.{Outcome, aborted, ◌>>=◌, done}

-- `seen_symbols` leads to nodes that `o` points to or that stand above it.
abbrev pub Sees : DescendantTree → Option ℕ → Table ℕ → Type 0
Sees t o seen = (s k : ℕ) → lookup s seen ≡ some k → OnPath t.node o k

pub record IsTracing (tr : Tracing) : Type 0 where
  pub tree : IsCallTree tr.tree
  pub stands : IsAt tr.tree tr.level tr.parent
  pub seen : Sees tr.tree tr.parent tr.seen_symbols

-- The node that the search ends with.
pub record IsFoundIn (m : ℕ) (tr : Tracing) : Type 0 where
  pub tree : IsCallTree tr.tree
  pub lt : m < tr.tree.used
  pub seen : Sees tr.tree (some m) tr.seen_symbols

pub Sees-insert :
    (t : DescendantTree) (o : Option ℕ) (seen : Table ℕ) (symbol m : ℕ)
    → OnPath t.node o m
    → Sees t o seen
    → Sees t o (insert symbol m seen)
Sees-insert t o seen symbol m path old s k e = elim (Bool-cases (symbol == s)) [
  | inl here ↦
      let q : some m ≡ some k =
        sym (lookup-insert symbol s m seen ∙ ap (λ b. if b then some m else lookup s seen) here)
        ∙ e in
      subst (OnPath t.node o) (some-injective _ _ q) path
  | inr other ↦ old s k (
      sym (lookup-insert symbol s m seen ∙ ap (λ b. if b then some m else lookup s seen) other) ∙ e)
]

see_again-Sees :
    (f : ℕ) (t : DescendantTree) (o n : Option ℕ) (seen : Table ℕ)
    → ((k : ℕ) → OnPath t.node n k → OnPath t.node o k)
    → Sees t o seen
    → Sees t o (see_again f t.node n seen)
unfolding see_again
see_again-Sees zero t o n seen within old = old
see_again-Sees (suc f) t o none seen within old = old
see_again-Sees (suc f) t o (some n) seen within old =
    see_again-Sees f t o (t.node n).parent (insert (t.node n).symbol n seen)
      (λ k path. within k (above refl path))
      (Sees-insert t o seen (t.node n).symbol n (within n (at refl)) old)

find_descendant-some :
    (node : ℕ → DescendantNode) (roots : List ℕ) (symbol m : ℕ)
    → find_descendant node roots symbol ≡ some m
    → Memᴰ m roots
unfolding find_descendant
find_descendant-some node [] symbol m e = absurd (none-ne-some _ e)
find_descendant-some node (r ∷ roots) symbol m e =
    elim (Option-cases (find_descendant node roots symbol)) [
      | inr (k, later) ↦
          let same : k ≡ m = ground arith in
          Memᴰ.tail (find_descendant-some node roots symbol m (later ∙ ap some same))
      | inl missing ↦ elim (Bool-cases ((node r).symbol == symbol)) [
        | inl here ↦ let same : r ≡ m = ground arith in Memᴰ.head (sym same)
        | inr other ↦ ground (arith, e, missing, other)
      ]
    ]

read_roots-parent :
    (t : DescendantTree) (level : Level) (parent : Option ℕ) (m : ℕ)
    → IsCallTree t
    → IsAt t level parent
    → Memᴰ m (read_roots t level)
    → (m < t.used) × ((t.node m).parent ≡ parent)
unfolding read_roots
read_roots-parent t top parent m tree stands h = let (lt, e) = tree.root m h in (lt, e ∙ sym stands)
read_roots-parent t (under n) parent m tree stands h =
    let (lt, e) = tree.child n m stands.1 h in (lt, e ∙ sym stands.0)

OnPath-none : (node : ℕ → DescendantNode) (k : ℕ) → OnPath node none k → ⊥
OnPath-none node k (at e) = none-ne-some _ e
OnPath-none node k (above e path) = none-ne-some _ e

pub no_entry : (s k : ℕ) → lookup {A = ℕ} s [] ≢ some k
unfolding lookup
no_entry s k e = none-ne-some _ e

module _ (tr : Tracing) (symbol size : ℕ) (w : IsTracing tr) where
  old_found :
      (m : ℕ)
      → find_descendant tr.tree.node (read_roots tr.tree tr.level) symbol ≡ some m
      → IsFoundIn m tr
  old_found m e =
      let in_level = find_descendant-some tr.tree.node (read_roots tr.tree tr.level) symbol m e in
      let (lt, up) = read_roots-parent tr.tree tr.level tr.parent m w.tree w.stands in_level in
      record {
        tree = w.tree;
        lt = lt;
        seen = λ s k q. above refl (subst (λ o. OnPath tr.tree.node o k) (sym up) (w.seen s k q));
      }

  new_found : IsFoundIn tr.tree.used (new_descendant tr symbol)
  unfolding new_descendant
  new_found = record {
    tree = sprouted-IsCallTree tr symbol w.tree w.stands;
    lt = omega (arith, sprouted-used tr symbol);
    seen = λ s k q.
        let moved =
          OnPath-below tr.tree.node (sprouted tr symbol).node tr.tree.used tr.parent k
            w.tree.parent_lt (sprouted-old tr symbol)
            (IsAt-below tr.tree tr.level tr.parent w.stands) (w.seen s k q) in
        above refl (
          subst (λ o. OnPath (sprouted tr symbol).node o k) (sym (sprouted-new tr symbol)) moved.0);
  }

  abbrev refilled : ℕ → DescendantTree → Outcome Tracing
  refilled s u = done (record tr { tree = u; seen_symbols = see_again u.used u.node (some s) [] })

  abbrev folded_at : ℕ → Option ℕ → Outcome Tracing
  folded_at s none = aborted
  folded_at s (some p) =
      unwind (suc tr.tree.used) size (tr.tree.node s).parent (some p) tr.tree >>= refilled s

  fold_back-folded_at : (s : ℕ) (o : Option ℕ) → tr.parent ≡ o → fold_back tr s size ≡ folded_at s o
  unfolding fold_back
  fold_back-folded_at s none e = rw (e, fold_back) refl
  fold_back-folded_at s (some p) e = ground arith

  fold_back-unwound :
      (s p : ℕ) (u : DescendantTree)
      → tr.parent ≡ some p
      → unwind (suc tr.tree.used) size (tr.tree.node s).parent (some p) tr.tree ≡ done u
      → fold_back tr s size
        ≡ done (record tr { tree = u; seen_symbols = see_again u.used u.node (some s) [] })
  unfolding fold_back
  fold_back-unwound s p u at_p ended =
      fold_back-folded_at s (some p) at_p ∙ ap (λ x. x >>= refilled s) ended

  fold_back-found :
      (s : ℕ)
      → lookup symbol tr.seen_symbols ≡ some s
      → (q : Tracing) × (fold_back tr s size ≡ done q)
        × IsFoundIn s q
        × (descendant_self q.tree ≡ descendant_self tr.tree)
  unfolding fold_back
  fold_back-found s e = elim (Option-cases tr.parent) [
    | inl alone ↦ absurd (
        OnPath-none tr.tree.node s (subst (λ o. OnPath tr.tree.node o s) alone (w.seen symbol s e)))
    | inr (p, at_p) ↦
        let inside = IsAt-below tr.tree tr.level tr.parent w.stands in
        let p_lt = inside p at_p in
        let path = subst (λ o. OnPath tr.tree.node o s) at_p (w.seen symbol s e) in
        let (_, s_lt) =
          OnPath-below tr.tree.node tr.tree.node tr.tree.used tr.parent s w.tree.parent_lt
            (λ n _. refl) inside (w.seen symbol s e) in
        let (u, ended, same, kept) =
          unwind-done (suc tr.tree.used) size s (tr.tree.node s).parent (some p) tr.tree w.tree path
            (λ n q. subst (λ j. j < tr.tree.used) (some-injective _ _ q) p_lt) (omega (arith, p_lt))
            refl in
        let unwound : s < u.used = omega (arith, s_lt, same.used) in
        (
          record tr { tree = u; seen_symbols = see_again u.used u.node (some s) [] },
          fold_back-unwound s p u at_p ended,
          record {
            tree = Same-IsCallTree tr.tree u same w.tree;
            lt = unwound;
            seen =
                see_again-Sees u.used u (some s) (some s) [] (λ k q. q)
                  (λ t k q. absurd (no_entry t k q));
          },
          SameSelf-descendant_self tr.tree u same.used kept,
        )
  ]

  new_self : descendant_self (new_descendant tr symbol).tree ≡ descendant_self tr.tree
  new_self = sprouted_self tr symbol

  pub match_descendant-found :
      (q : Tracing) × (m : ℕ) × (match_descendant tr symbol size ≡ done (q, m))
      × IsFoundIn m q
      × (descendant_self q.tree ≡ descendant_self tr.tree)
  unfolding match_descendant
  match_descendant-found =
      elim (Option-cases (find_descendant tr.tree.node (read_roots tr.tree tr.level) symbol)) [
        | inr (m, found) ↦ (tr, m, rw (found, match_descendant) refl, old_found m found, refl)
        | inl missing ↦ elim (Option-cases (lookup symbol tr.seen_symbols)) [
          | inl unseen ↦ (
            new_descendant tr symbol,
            tr.tree.used,
            rw (missing, unseen, match_descendant) refl,
            new_found,
            new_self,
          )
          | inr (s, met) ↦
              let (q, folded, found, sum) = fold_back-found s met in
              (q, s, rw (missing, met, folded, match_descendant) refl, found, sum)
        ]
      ]
