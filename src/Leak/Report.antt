-- ===== src/Leak/Report.antt =====
-- src/leakdetect.c: what `leaks_find` reports.
use mathlib.Core.List.Memᴰ
use memprof.Common.{
  true, length, Bool-cases, arith, ◌∷◌, [], List, Option, false, inr, inl, ◌↔◌, ◌∙◌, ap, sym, ◌≡◌,
  ◌<◌, ◌≤◌, ◌+◌, ℕ,
}
use mathlib.Core.List.{Memᴰ}
use mathlib.Core.Path.{subst}
use mathlib.Core.Logic.{⊎_elim}
use memprof.Leak.{size_of, sort_blocks, Marking}
use memprof.Block.{Blocks}
use memprof.Leak.Search.{find_block_sound}
use memprof.Leak.Mark.{unmarked, FindsNoRoot, is_marked}
use memprof.Leak.Scan.{targets, PointsTo, onward, from_root, Reach}
use memprof.Leak.Order.{
  IsOrdered-IsDisjoint, length-sort_blocks, AllApart-same, IsOrdered, AllApart,
  sort_blocks-IsOrdered, mem-sort_blocks, IsOrdered-same,
}
use memprof.Leak.Leaks.{prepare_blocks, report, leaks_find, mark_roots, Leaks, roots_of, Target}
use memprof.Leak.Start.{prepare_blocks_lem, roots_of-Extends, Alike, roots_of-Alike, IsPrepared}
use memprof.Common.Word.{u32_mod}
use memprof.Leak.Correct.{Marks, IsMarking, mark_loop-Marks}
use memprof.Common.Outcome.{done}
use memprof.Leak.Collect.{mem-collect}

unmarked_le : (arr : List ℕ) (s : Marking) → unmarked arr s ≤ length arr
unfolding unmarked
unmarked_le [] s = omega arith
unmarked_le (b ∷ arr) s = ground (arith, unmarked_le arr s)

Reach-map :
    (P Q : ℕ → ℕ → Type 0) (roots : List ℕ) (b : ℕ)
    → ((a c : ℕ) → P a c → Q a c)
    → Reach P roots b
    → Reach Q roots b
Reach-map P Q roots b f (from_root {r} m p) = from_root m (f r b p)
Reach-map P Q roots b f (onward {a} r p) = onward (Reach-map P Q roots a f r) (f a b p)

-- The block table holds blocks of the heap, none a root, which do not overlap.
pub record IsTarget (p : Target) (h : Blocks) : Type 0 where
  pub live : (b : ℕ) → Memᴰ b p.table → b < h.fresh
  pub plain : (b : ℕ) → Memᴰ b p.table → (h.cell b).is_root ≡ false
  pub apart : AllApart h p.table
  pub small : length p.table + length p.table < u32_mod

module _ (peek : ℕ → Option ℕ) (word_size : ℕ) (p : Target) (h : Blocks) (t : IsTarget p h) where
  abbrev pub heap : Blocks
  heap = (roots_of p h).0

  abbrev pub roots : List ℕ
  roots = (roots_of p h).1

  -- The mark phase starts well from the prepared blocks `k`.
  module _ (k : Blocks) (ready : IsPrepared h k p.table) where
    abbrev arr : List ℕ
    arr = sort_blocks k p.table

    abbrev begin : Marking
    begin = record { blocks = (roots_of p k).0; work = (roots_of p k).1 }

    in_table : (b : ℕ) → Memᴰ b arr → Memᴰ b p.table
    in_table b m = (mem-sort_blocks k b p.table).0 m

    arr-IsOrdered : IsOrdered heap arr
    arr-IsOrdered =
        let prepared =
          AllApart-same h k p.table (λ b m. (ready.shape.addr b, ready.shape.size b)) t.apart in
        IsOrdered-same k heap arr
          (λ b m.
            let e = (roots_of-Extends p h).same b (t.live b (in_table b m)) in
            (
              ap (λ c. c.addr) e ∙ sym (ready.shape.addr b),
              ap (λ c. c.size) e ∙ sym (ready.shape.size b),
            ))
          (sort_blocks-IsOrdered k p.table prepared)

    arr_small : length arr + length arr < u32_mod
    arr_small = omega (arith, length-sort_blocks k p.table, t.small)

    arr-FindsNoRoot : FindsNoRoot heap arr
    arr-FindsNoRoot w b e =
        let m = in_table b (find_block_sound heap arr w arr_small b e).0 in
        ap (λ c. c.is_root) ((roots_of-Extends p h).same b (t.live b m)) ∙ t.plain b m

    begin_clear : (b : ℕ) → Memᴰ b arr → is_marked begin b ≡ false
    begin_clear b m =
        let there = in_table b m in
        ap (λ c. c.marked)
          ((roots_of-Extends p k).same b (subst (λ n. b < n) (sym ready.fresh) (t.live b there)))
        ∙ ready.clear b there

    begin_shape : Alike (roots_of p h) (roots_of p k)
    begin_shape = roots_of-Alike p h k ready.shape ready.fresh

    abbrev Points : ℕ → ℕ → Type 0
    Points = PointsTo peek word_size heap arr

    begin-IsMarking :
        IsMarking Points
          (targets peek word_size heap arr arr_small (IsOrdered-IsDisjoint heap arr arr-IsOrdered))
          heap
          arr
          roots
          begin
    begin-IsMarking = record {
      shape = begin_shape.shape;
      listed = λ x m. inl (subst (Memᴰ x) begin_shape.roots m);
      sound = λ x m old. absurd (cc (old, begin_clear x m));
      of_root = λ x m. inl (subst (Memᴰ x) (sym begin_shape.roots) m);
      of_marked = λ x m old. absurd (cc (old, begin_clear x m));
    }

    marked :
        Marks peek word_size heap arr roots arr_small
          (IsOrdered-IsDisjoint heap arr arr-IsOrdered)
          arr-FindsNoRoot
          (mark_roots peek word_size arr (roots_of p k))
    unfolding mark_roots
    marked =
        mark_loop-Marks peek word_size heap arr roots arr_small
          (IsOrdered-IsDisjoint heap arr arr-IsOrdered) arr-FindsNoRoot _ begin begin-IsMarking
          (omega (arith, unmarked_le arr begin))

  -- The blocks that are reached, from the table as it is.
  abbrev pub Reached : ℕ → Type 0
  Reached = Reach (PointsTo peek word_size heap p.table) roots

  Reached-iff :
      (k : Blocks) (b : ℕ)
      → Reach (PointsTo peek word_size heap (sort_blocks k p.table)) roots b ↔ Reached b
  Reached-iff k b = (
    Reach-map _ _ roots b (λ a c q. ((mem-sort_blocks k c p.table).0 q.0, q.1)),
    Reach-map _ _ roots b (λ a c q. ((mem-sort_blocks k c p.table).1 q.0, q.1)),
  )

  not_marked :
      (s : Marking) (b : ℕ) {P : Type 0}
      → (is_marked s b ≡ true) ↔ P
      → (is_marked s b ≡ false) ↔ ¬ P
  not_marked s b e = (
    λ new r. cc (new, e.1 r),
    λ n. ⊎_elim (λ old. absurd (n (e.0 old))) (λ new. new) (Bool-cases (is_marked s b)),
  )

  leaks_find_run :
      (k : Blocks) (s : Marking)
      → p.mem_opens ≡ true
      → prepare_blocks p.table (h, []) ≡ done (k, p.table)
      → mark_roots peek word_size (sort_blocks k p.table) (roots_of p k) ≡ done s
      → leaks_find peek word_size p h ≡ done (report p (sort_blocks k p.table) s.blocks)
  unfolding leaks_find
  leaks_find_run k s opens first second = simp (opens, first, second, leaks_find)

  -- When /proc/PID/mem opens, and the block table holds allocated blocks that are no roots, do not
  -- overlap and are fewer than 2 ^ 31, `leaks_find` ends without a failed assertion, and it reports
  -- a block exactly if the block is in the table and no chain of pointers leads to it: no word of a
  -- root, nor of a block that is itself reached, points into it. The words of a block are what
  -- `peek` gives at the `size / word_size` places `word_size` apart from its address on, as far as
  -- they are among the first `(size + 3) mod 2 ^ 32 / 4`. A block has no words if one of these reads
  -- fails, which may lie behind the block.
  pub leaks_find_lem :
      p.mem_opens ≡ true
      → (r : Leaks) × (leaks_find peek word_size p h ≡ done r)
        × ((b : ℕ) → Memᴰ b r.result ↔ (Memᴰ b p.table × ¬ Reached b))
  unfolding leaks_find
  leaks_find_lem opens =
      let (k, first, ready) = prepare_blocks_lem p.table h [] t.plain in
      let (s, second, shape, marks) = marked k ready in
      (
        report p (sort_blocks k p.table) s.blocks,
        leaks_find_run k s opens first second,
        λ b.
            let (table, back) = mem-sort_blocks k b p.table in
            let found = mem-collect (sort_blocks k p.table) s.blocks [] b in
            let reached = Reached-iff k b in
            (
              λ m.
                  ⊎_elim (λ none_yet. absurd (Memᴰ.not-nil none_yet))
                    (λ q. (table q.0, λ r. (not_marked s b (marks b q.0)).0 q.1 (reached.1 r)))
                    (found.0 m),
              λ q. found.1 (
                  inr (back q.0, (not_marked s b (marks b (back q.0))).1 (λ r. q.1 (reached.0 r)))),
            ),
      )

  -- A chain of pointers leads only to blocks that have a byte.
  Reached-size : (b : ℕ) → Reached b → 0 < size_of heap b
  Reached-size b (from_root m q) = omega (arith, q.1.2)
  Reached-size b (onward r q) = omega (arith, q.1.2)

  -- Under the same conditions `leaks_find` reports every block of size 0 of the table, also one
  -- that a root points to: no address lies in such a block.
  pub empty_block-reported :
      p.mem_opens ≡ true
      → (b : ℕ) → Memᴰ b p.table
      → size_of h b ≡ 0
      → (r : Leaks) × (leaks_find peek word_size p h ≡ done r) × Memᴰ b r.result
  empty_block-reported opens b m empty =
      let (r, run, reports) = leaks_find_lem opens in
      let same = ap (λ c. c.size) ((roots_of-Extends p h).same b (t.live b m)) in
      (
        r,
        run,
        (reports b).1 (m, λ reached. absurd (omega (arith, Reached-size b reached, same, empty))),
      )
