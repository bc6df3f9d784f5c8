-- ===== src/Leak/Correct.antt =====
-- src/leakdetect.c: the mark phase marks exactly the blocks that chains of pointers lead to.
use mathlib.Core.List.Memᴰ
use memprof.Common.{
  arith, length, Option, ◌↔◌, ◌<◌, ◌≤◌, suc, zero, if◌then◌else◌, ◌∷◌, [], List, true, inr, inl,
  ◌⊎◌, ap, sym, refl, ◌≡◌, ◌+◌, ℕ,
}
use mathlib.Core.List.{Memᴰ}
use mathlib.Core.Path.{subst}
use mathlib.Core.Logic.{⊎_elim}
use memprof.Leak.{mark_loop, Marking}
use memprof.Block.{Blocks}
use memprof.Leak.Mark.{
  visit_all-left_to_do, left_to_do, FindsNoRoot, marked-visit_all, SameShape, mem-visit_all,
  visit_all, visit_all-SameShape, is_marked, unmarked,
}
use memprof.Leak.Scan.{
  mem-targets, scan_block-visit_all, targets, PointsTo, from_root, onward, Reach,
}
use memprof.Leak.Search.{IsDisjoint}
use memprof.Common.Word.{u32_mod}
use memprof.Common.Outcome.{◌>>=◌, done, Outcome}

-- A block is listed, or what a scan of it visits is marked. A step keeps that.
abbrev Covered : (ℕ → List ℕ) → Marking → ℕ → Type 0
Covered visits s a = Memᴰ a s.work ⊎ ((b : ℕ) → Memᴰ b (visits a) → is_marked s b ≡ true)

Covered-step :
    (visits : ℕ → List ℕ) (s : Marking) (c : ℕ) (rest : List ℕ) (a : ℕ)
    → s.work ≡ c ∷ rest
    → Covered visits s a
    → Covered visits (visit_all (visits c) (record s { work = rest })) a
Covered-step visits s c rest a e (inl m) =
    ⊎_elim
      (λ same. inr (λ b there.
        (marked-visit_all (visits c) (record s { work = rest }) b).1
          (inr (subst (λ x. Memᴰ b (visits x)) same there))))
      (λ later. inl ((mem-visit_all (visits c) (record s { work = rest }) a).1 later))
      (Memᴰ.cases_cons (subst (Memᴰ a) e m))
Covered-step visits s c rest a e (inr all) =
    inr
      (λ b there. (marked-visit_all (visits c) (record s { work = rest }) b).1 (inl (all b there)))

list_cases : (xs : List ℕ) → (xs ≡ []) ⊎ ((c : ℕ) × (rest : List ℕ) × (xs ≡ c ∷ rest))
list_cases [] = inl refl
list_cases (c ∷ rest) = inr (c, rest, refl)

unmarked-work :
    (arr : List ℕ) (s : Marking) (work : List ℕ)
    → unmarked arr (record s { work = work }) ≡ unmarked arr s
unfolding unmarked
unmarked-work [] s work = refl
unmarked-work (b ∷ arr) s work =
    ap (λ n. (if is_marked s b then 0 else 1) + n) (unmarked-work arr s work)

module _ (points : ℕ → ℕ → Type 0) (visits : ℕ → List ℕ) (h : Blocks) (arr roots : List ℕ) where
  -- The state of the mark loop: all that is listed or marked is reached, and a root or a marked
  -- block is listed or has been scanned.
  pub record IsMarking (s : Marking) : Type 0 where
    pub shape : SameShape h s.blocks
    pub listed : (x : ℕ) → Memᴰ x s.work → Memᴰ x roots ⊎ Reach points roots x
    pub sound : (x : ℕ) → Memᴰ x arr → is_marked s x ≡ true → Reach points roots x
    pub of_root : (x : ℕ) → Memᴰ x roots → Covered visits s x
    pub of_marked : (x : ℕ) → Memᴰ x arr → is_marked s x ≡ true → Covered visits s x

  step-IsMarking :
      (s : Marking) (c : ℕ) (rest : List ℕ)
      → ((a b : ℕ) → Memᴰ b (visits a) → points a b)
      → IsMarking s
      → s.work ≡ c ∷ rest
      → IsMarking (visit_all (visits c) (record s { work = rest }))
  step-IsMarking s c rest pointed i e =
      let s1 : Marking = record s { work = rest } in
      let reached : (x : ℕ) → Memᴰ x (visits c) → Reach points roots x = λ x m.
        ⊎_elim (λ r. from_root r (pointed c x m)) (λ r. onward r (pointed c x m))
          (i.listed c (subst (Memᴰ c) (sym e) (Memᴰ.head refl))) in
      record {
        shape = visit_all-SameShape h (visits c) s1 i.shape;
        listed = λ x m.
            ⊎_elim (λ old. i.listed x (subst (Memᴰ x) (sym e) (Memᴰ.tail old)))
              (λ new. inr (reached x new)) ((mem-visit_all (visits c) s1 x).0 m);
        sound = λ x m t. ⊎_elim (i.sound x m) (reached x) ((marked-visit_all (visits c) s1 x).0 t);
        of_root = λ x r. Covered-step visits s c rest x e (i.of_root x r);
        of_marked = λ x m t.
            ⊎_elim (λ old. Covered-step visits s c rest x e (i.of_marked x m old))
              (λ new.
                ⊎_elim (λ old. Covered-step visits s c rest x e (i.of_marked x m old)) inl
                  ((mem-visit_all (visits c) s1 x).2 new))
              ((marked-visit_all (visits c) s1 x).0 t);
      }

  all_marked :
      (t : Marking)
      → ((a b : ℕ) → points a b → Memᴰ b (visits a) × Memᴰ b arr)
      → IsMarking t
      → t.work ≡ []
      → (x : ℕ) → Reach points roots x
      → Memᴰ x arr × (is_marked t x ≡ true)
  all_marked t target i e x (from_root {r} {b} m p) =
      let there = target r b p in
      (
        there.1,
        ⊎_elim (λ w. absurd (Memᴰ.not-nil (subst (Memᴰ r) e w))) (λ all. all b there.0)
            (i.of_root r m),
      )
  all_marked t target i e x (onward {a} {b} r p) =
      let there = target a b p in
      let ih = all_marked t target i e a r in
      (
        there.1,
        ⊎_elim (λ w. absurd (Memᴰ.not-nil (subst (Memᴰ a) e w))) (λ all. all b there.0)
            (i.of_marked a ih.0 ih.1),
      )

module _ (peek : ℕ → Option ℕ) (word_size : ℕ) (h : Blocks) (arr roots : List ℕ)
    (small : length arr + length arr < u32_mod) (disjoint : IsDisjoint h arr)
    (safe : FindsNoRoot h arr) where
  abbrev Points : ℕ → ℕ → Type 0
  Points = PointsTo peek word_size h arr

  abbrev visits : ℕ → List ℕ
  visits = targets peek word_size h arr small disjoint

  -- A result that marks, in the array, what is reached.
  abbrev pub Marks : Outcome Marking → Type 0
  Marks m =
      (t : Marking) × (m ≡ done t)
      × SameShape h t.blocks
      × ((b : ℕ) → Memᴰ b arr → (is_marked t b ≡ true) ↔ Reach Points roots b)

  mark_loop_end : (f : ℕ) (s : Marking) → s.work ≡ [] → mark_loop peek word_size f arr s ≡ done s
  unfolding mark_loop
  mark_loop_end zero s e = simp (e, mark_loop)
  mark_loop_end (suc f) s e = simp (e, mark_loop)

  mark_loop_scan :
      (f : ℕ) (s : Marking) (c : ℕ) (rest : List ℕ)
      → SameShape h s.blocks
      → s.work ≡ c ∷ rest
      → mark_loop peek word_size (suc f) arr s
        ≡ mark_loop peek word_size f arr (visit_all (visits c) (record s { work = rest }))
  unfolding mark_loop
  mark_loop_scan f s c rest shape e =
      let scanned =
        scan_block-visit_all peek word_size h arr small disjoint c (record s { work = rest }) safe
          shape in
      rw (e, mark_loop) (ap (λ m. m >>= (λ t. mark_loop peek word_size f arr t)) scanned)

  end-Marks :
      (f : ℕ) (s : Marking)
      → IsMarking Points visits h arr roots s
      → s.work ≡ []
      → Marks (mark_loop peek word_size f arr s)
  end-Marks f s i e = (
    s,
    mark_loop_end f s e,
    i.shape,
    λ b m. (
      i.sound b m,
      λ r.
          (all_marked Points visits h arr roots s
            (λ x y p. ((mem-targets peek word_size h arr small disjoint x y).1 p, p.0)) i e b r).1,
    ),
  )

  step-left_to_do :
      (s : Marking) (c : ℕ) (rest : List ℕ)
      → s.work ≡ c ∷ rest
      → left_to_do arr (visit_all (visits c) (record s { work = rest })) + 1 ≤ left_to_do arr s
  step-left_to_do s c rest e = omega (
    arith,
    visit_all-left_to_do arr (visits c) (record s { work = rest })
        (λ b m. ((mem-targets peek word_size h arr small disjoint c b).0 m).0),
    unmarked-work arr s rest,
    ap length e,
  )

  pub mark_loop-Marks :
      (f : ℕ) (s : Marking)
      → IsMarking Points visits h arr roots s
      → left_to_do arr s ≤ f
      → Marks (mark_loop peek word_size f arr s)
  mark_loop-Marks zero s i enough = elim (list_cases s.work) [
    | inl e ↦ end-Marks 0 s i e
    | inr (c, rest, e) ↦ absurd (omega (arith, step-left_to_do s c rest e))
  ]
  mark_loop-Marks (suc f) s i enough = elim (list_cases s.work) [
    | inl e ↦ end-Marks (suc f) s i e
    | inr (c, rest, e) ↦ subst Marks (sym (mark_loop_scan f s c rest i.shape e)) (
        mark_loop-Marks f _
          (step-IsMarking Points visits h arr roots s c rest
            (λ a b. (mem-targets peek word_size h arr small disjoint a b).0) i e)
          (omega (arith, step-left_to_do s c rest e)))
  ]
