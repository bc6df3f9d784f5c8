-- ===== src/Leak/Start.antt =====
-- src/leakdetect.c: the state in which the mark phase begins.
use mathlib.Core.List.Memᴰ
use memprof.Common.{
  ◌∙◌, sym, Option-cases, if◌then◌else◌, leb, ltb, arith, ◌++◌, ◌∷◌, [], List, ◌&&◌, false, true,
  Bool, inr, inl, ap, refl, ◌≡◌, ◌<◌, ◌≤◌, ◌+◌, ℕ,
}
use mathlib.Core.List.{append-nil, append_assoc, Memᴰ}
use mathlib.Core.Path.{ap₂}
use mathlib.Core.Logic.{⊎_elim}
use memprof.Leak.{prepare_block}
use memprof.Block.{Blocks, new_block, block_ref, set_cell}
use memprof.Leak.Mark.{SameShape-refl, SameShape}
use memprof.Leak.Leaks.{
  add_data_roots, roots_of, add_root, add_stack_roots, Target, prepare_blocks, add_stack_root,
}
use memprof.Common.Outcome.{◌>>=◌, done}

-- Blocks of `h` are unchanged in `k`, which may have more.
pub record Extends (h k : Blocks) : Type 0 where
  pub fresh_le : h.fresh ≤ k.fresh
  pub same : (b : ℕ) → b < h.fresh → k.cell b ≡ h.cell b

add_root-Extends :
    (addr size : ℕ) (h : Blocks) (x : Blocks × List ℕ)
    → Extends h x.0
    → Extends h (add_root addr size x).0
unfolding add_root new_block
add_root-Extends addr size h x e = record {
  fresh_le = omega (arith, e.fresh_le);
  same = λ b lt. ground (arith, e.fresh_le, e.same b lt);
}

-- Two heaps with blocks of the same shape, and the same roots.
pub record Alike (x y : Blocks × List ℕ) : Type 0 where
  pub shape : SameShape x.0 y.0
  pub fresh : y.0.fresh ≡ x.0.fresh
  pub roots : y.1 ≡ x.1

add_root-Alike :
    (addr size : ℕ) (x y : Blocks × List ℕ)
    → Alike x y
    → Alike (add_root addr size x) (add_root addr size y)
unfolding add_root new_block
add_root-Alike addr size x y a = record {
  shape = record {
    addr = λ b. ground (arith, a.fresh, a.shape.addr b);
    size = λ b. ground (arith, a.fresh, a.shape.size b);
    root = λ b. ground (arith, a.fresh, a.shape.root b);
  };
  fresh = ap (λ n. n + 1) a.fresh;
  roots = ap₂ ◌∷◌ a.fresh a.roots;
}

-- What `add_root` keeps, the root set keeps.
module _ (R : Blocks × List ℕ → Blocks × List ℕ → Type 0)
    (step : (addr size : ℕ) (x y : Blocks × List ℕ)
      → R x y
      → R (add_root addr size x) (add_root addr size y)) where
  if_rule :
      (c : Bool) {a b d e : Blocks × List ℕ}
      → R a b
      → R d e
      → R (if c then a else d) (if c then b else e)
  if_rule true r q = r
  if_rule false r q = q

  stack_root_rule :
      (range : ℕ × ℕ) (maps : List (ℕ × ℕ)) (x y : Blocks × List ℕ)
      → R x y
      → R (add_stack_root range maps x) (add_stack_root range maps y)
  unfolding add_stack_root
  stack_root_rule (start, end) [] x y r = r
  stack_root_rule (start, end) ((addr, size) ∷ maps) x y r =
      if_rule (leb addr end && ltb end (addr + size)) (step end _ x y r)
        (stack_root_rule (start, end) maps x y r)

  stack_roots_rule :
      (p : Target) (clones : List ℕ) (x y : Blocks × List ℕ)
      → R x y
      → R (add_stack_roots p clones x) (add_stack_roots p clones y)
  unfolding add_stack_roots
  stack_roots_rule p [] x y r = r
  stack_roots_rule p (c ∷ clones) x y r = elim (Option-cases (p.stat c)) [
    | inl gone ↦ rw (gone, add_stack_roots) (stack_roots_rule p clones x y r)
    | inr (range, there) ↦
        rw (there, add_stack_roots)
          (stack_roots_rule p clones _ _ (stack_root_rule range p.maps x y r))
  ]

  data_roots_rule :
      (sections : List (ℕ × ℕ)) (x y : Blocks × List ℕ)
      → R x y
      → R (add_data_roots sections x) (add_data_roots sections y)
  unfolding add_data_roots
  data_roots_rule [] x y r = r
  data_roots_rule ((addr, size) ∷ sections) x y r =
      data_roots_rule sections _ _ (step addr size x y r)

  pub roots_rule : (p : Target) (h k : Blocks) → R (h, []) (k, []) → R (roots_of p h) (roots_of p k)
  roots_rule p h k r = data_roots_rule p.sections _ _ (stack_roots_rule p p.clones _ _ r)

pub roots_of-Extends : (p : Target) (h : Blocks) → Extends h (roots_of p h).0
roots_of-Extends p h =
    roots_rule (λ x y. Extends h x.0) (λ addr size x y e. add_root-Extends addr size h x e) p h h
      (record { fresh_le = omega arith; same = λ b lt. refl })

pub roots_of-Alike :
    (p : Target) (h k : Blocks)
    → SameShape h k
    → k.fresh ≡ h.fresh
    → Alike (roots_of p h) (roots_of p k)
roots_of-Alike p h k shape fresh =
    roots_rule Alike add_root-Alike p h k (record { shape = shape; fresh = fresh; roots = refl })

SameShape-trans : {h k l : Blocks} → SameShape h k → SameShape k l → SameShape h l
SameShape-trans p q = record {
  addr = λ b. q.addr b ∙ p.addr b;
  size = λ b. q.size b ∙ p.size b;
  root = λ b. q.root b ∙ p.root b;
}

-- The blocks after `prepare_block` on a table.
pub record IsPrepared (h k : Blocks) (table : List ℕ) : Type 0 where
  pub shape : SameShape h k
  pub fresh : k.fresh ≡ h.fresh
  pub clear : (b : ℕ) → Memᴰ b table → (k.cell b).marked ≡ false
  pub kept : (b : ℕ) → (h.cell b).marked ≡ false → (k.cell b).marked ≡ false

prepare_block_lem :
    (b : ℕ) (h : Blocks) (acc : List ℕ)
    → (h.cell b).is_root ≡ false
    → (k : Blocks) × (prepare_block b (h, acc) ≡ done (k, acc ++ b ∷ [])) × IsPrepared h k (b ∷ [])
unfolding prepare_block block_ref
prepare_block_lem b h acc plain = (
  block_ref b (record h { cell = set_cell h.cell b (record (h.cell b) { marked = false }) }),
  simp (plain, prepare_block, block_ref),
  record {
    shape = record { addr = λ c. ground arith; size = λ c. ground arith; root = λ c. ground arith };
    fresh = refl;
    clear = λ c m.
        ⊎_elim (λ e. ground (arith, e)) (λ later. absurd (Memᴰ.not-nil later)) (Memᴰ.cases_cons m);
    kept = λ c old. ground (arith, old);
  },
)

pub prepare_blocks_lem :
    (table : List ℕ) (h : Blocks) (acc : List ℕ)
    → ((b : ℕ) → Memᴰ b table → (h.cell b).is_root ≡ false)
    → (k : Blocks) × (prepare_blocks table (h, acc) ≡ done (k, acc ++ table)) × IsPrepared h k table
unfolding prepare_blocks
prepare_blocks_lem [] h acc plain = (
  h,
  ap (λ xs. done (h, xs)) (sym (append-nil acc)),
  record {
    shape = SameShape-refl h;
    fresh = refl;
    clear = λ b m. absurd (Memᴰ.not-nil m);
    kept = λ b old. old;
  },
)
prepare_blocks_lem (b ∷ table) h acc plain =
    let (k, first, one) = prepare_block_lem b h acc (plain b (Memᴰ.head refl)) in
    let (l, rest, more) =
      prepare_blocks_lem table k (acc ++ b ∷ [])
        (λ c m. one.shape.root c ∙ plain c (Memᴰ.tail m)) in
    (
      l,
      ap (λ m. m >>= (λ t. prepare_blocks table t)) first
          ∙ rest
          ∙ ap (λ xs. done (l, xs)) (append_assoc acc (b ∷ []) table),
      record {
        shape = SameShape-trans one.shape more.shape;
        fresh = more.fresh ∙ one.fresh;
        clear = λ c m.
            ⊎_elim (λ e. more.kept c (one.clear c (Memᴰ.head e))) (more.clear c)
              (Memᴰ.cases_cons m);
        kept = λ c old. more.kept c (one.kept c old);
      },
    )
