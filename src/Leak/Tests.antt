-- ===== src/Leak/Tests.antt =====
-- src/leakdetect.c on a heap of three blocks: a global points into the first, nothing to the second,
-- and the third has size 0.
use mathlib.Core.List.Memᴰ
use memprof.Common.{
  ◌↔◌, sym, if◌then◌else◌, ◌==◌, arith, ◌∷◌, [], List, some, none, Option, false, true, inr, refl,
  ◌≡◌, ℕ,
}
use mathlib.Core.List.{Memᴰ}
use mathlib.Core.Logic.{⊎_elim}
use memprof.Leak.{
  scan_word, contents, scan_words, compare_blocks, find_index, insert_block, scan_block, find_block,
  mark_loop, read_words, visit, find_loop, sort_blocks, prepare_block,
}
use memprof.Block.{new_block, Blocks, block_ref, block_unref}
use memprof.Leak.Report.{empty_block-reported, Reached, leaks_find_lem, IsTarget}
use memprof.Leak.Leaks.{
  Leaks, collect, leaks_find, mark_roots, add_root, add_stack_roots, add_data_roots, prepare_blocks,
  Target,
}
use memprof.Common.Outcome.{aborted, out_of_fuel, done, Outcome}
use mathlib.Core.Path.{subst}
use memprof.Leak.Search.{find_block_iff, IsDisjoint, Holds}
use memprof.Leak.Order.{IsOrdered-IsDisjoint}

abbrev three_blocks : Blocks
three_blocks = record {
  cell = λ b. record {
    marked = false;
    is_root = false;
    addr = if b == 0 then 100 else if b == 1 then 200 else 300;
    size = if b == 0 then 8 else if b == 1 then 8 else 0;
    stack = none;
    refcount = 1;
  };
  freed = λ b. false;
  fresh = 3;
}

abbrev memory : ℕ → Option ℕ
memory a = some (if a == 50 then 104 else 300)

abbrev three : List ℕ
three = 0 ∷ 1 ∷ 2 ∷ []

abbrev target : Target
target = record {
  pid = 7;
  clones = 7 ∷ [];
  table = 2 ∷ 1 ∷ 0 ∷ [];
  mem_opens = true;
  stat = λ c. none;
  maps = [];
  sections = (50, 16) ∷ [];
}

abbrev reported : Outcome Leaks → List ℕ
reported (done r) = r.result
reported aborted = []
reported out_of_fuel = []

-- Blocks 1 and 2 are reported, though the second word of the root is the address of block 2.
reports_two : reported (leaks_find memory 8 target three_blocks) ≡ 2 ∷ 1 ∷ []
unfolding leaks_find prepare_blocks prepare_block block_ref sort_blocks insert_block compare_blocks
    add_stack_roots add_data_roots add_root new_block mark_roots mark_loop scan_block scan_words
    scan_word find_block find_index find_loop contents read_words visit collect block_unref
reports_two = refl

none_of : (P : ℕ → Type 0) (x : ℕ) → Memᴰ x [] → P x
none_of P x m = absurd (Memᴰ.not-nil m)

module _ {P : ℕ → Type 0} where
  one_more :
      (c : ℕ) (arr : List ℕ) → P c → ((x : ℕ) → Memᴰ x arr → P x) → (x : ℕ) → Memᴰ x (c ∷ arr) → P x
  one_more c arr p q x m = ⊎_elim (λ e. subst P (sym e) p) (q x) (Memᴰ.cases_cons m)

target-IsTarget : IsTarget target three_blocks
target-IsTarget = record {
  live =
      one_more 2 _ (omega arith)
        (one_more 1 _ (omega arith) (one_more 0 _ (omega arith) (none_of _)));
  plain = λ b m. refl;
  apart = (
    one_more 1 _ (inr (omega arith, omega arith))
        (one_more 0 _ (inr (omega arith, omega arith)) (none_of _)),
    (one_more 0 _ (inr (omega arith, omega arith)) (none_of _), ((none_of _), tt)),
  );
  small = omega arith;
}

leaks_find_lem_example :
    (r : Leaks) × (leaks_find memory 8 target three_blocks ≡ done r)
    × ((b : ℕ)
        → Memᴰ b r.result
          ↔ (Memᴰ b target.table × ¬ Reached memory 8 target three_blocks target-IsTarget b))
leaks_find_lem_example = leaks_find_lem memory 8 target three_blocks target-IsTarget refl

empty_block-reported_example :
    (r : Leaks) × (leaks_find memory 8 target three_blocks ≡ done r) × Memᴰ 2 r.result
empty_block-reported_example =
    empty_block-reported memory 8 target three_blocks target-IsTarget refl 2 (Memᴰ.head refl) refl

array-IsDisjoint : IsDisjoint three_blocks three
array-IsDisjoint = IsOrdered-IsDisjoint three_blocks three (
  one_more 1 _ (omega arith, omega arith) (one_more 2 _ (omega arith, omega arith) (none_of _)),
  (one_more 2 _ (omega arith, omega arith) (none_of _), ((none_of _), tt)),
)

find_block_iff_example :
    (find_block three_blocks three 204 ≡ some 1) ↔ (Memᴰ 1 three × Holds three_blocks 1 204)
find_block_iff_example = find_block_iff three_blocks three 204 (omega arith) 1 array-IsDisjoint
