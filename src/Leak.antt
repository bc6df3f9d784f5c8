-- ===== src/Leak.antt =====
-- src/leakdetect.c: the search of a word among the blocks, and the mark phase.
pub mod Search
pub mod Mark
pub mod Words
pub mod Scan
pub mod Leaks
pub mod Correct
pub mod Order
pub mod Start
pub mod Collect
pub mod Report
pub mod Tests
use memprof.Common.{
  take, get_or, length, if◌then◌else◌, ◌==◌, ltb, ◌++◌, ◌∷◌, [], List, some, none, Option, false,
  true, ◌/◌, ◌+◌, suc, zero, ℕ,
}
use Prim.Native.Nat.{compare, Ordering}
use memprof.Block.{Block, Blocks, set_cell, block_ref}
use memprof.Common.Word.{sub32, add32}
use memprof.Common.Outcome.{◌>>=◌, out_of_fuel, Outcome, done, aborted}

abbrev pub addr_of : Blocks → ℕ → ℕ
addr_of h b = (h.cell b).addr

abbrev pub size_of : Blocks → ℕ → ℕ
size_of h b = (h.cell b).size

-- `prepare_block`, with the array that it appends to. `g_assert` aborts.
unfoldable pub prepare_block : ℕ → Blocks × List ℕ → Outcome (Blocks × List ℕ)
unfolding block_ref
prepare_block b (h, arr) =
    if (h.cell b).is_root
    then aborted
    else done (
      block_ref b (record h { cell = set_cell h.cell b (record (h.cell b) { marked = false }) }),
      arr ++ b ∷ [],
    )

-- `compare_blocks` below zero or zero, as `qsort` uses it.
unfoldable pub compare_blocks : Blocks → ℕ → ℕ → Ordering
compare_blocks h a b = compare (addr_of h a) (addr_of h b)

-- `qsort` by `compare_blocks`.
unfoldable pub insert_block : Blocks → ℕ → List ℕ → List ℕ
unfolding compare_blocks
insert_block h b [] = b ∷ []
insert_block h b (c ∷ arr) = elim (compare_blocks h b c) [
  | Ordering.gt ↦ c ∷ insert_block h b arr
  | _ ↦ b ∷ c ∷ arr
]

unfoldable pub sort_blocks : Blocks → List ℕ → List ℕ
unfolding insert_block
sort_blocks h [] = []
sort_blocks h (b ∷ arr) = insert_block h b (sort_blocks h arr)

-- The `while` loop of `find_block` over the addresses of the array, on fuel: the last value of
-- `first`.
unfoldable pub find_loop : ℕ → (ℕ → ℕ) → ℕ → ℕ → ℕ → ℕ
find_loop zero key addr first last = first
find_loop (suc f) key addr first last = elim (ltb first (sub32 last 1)) [
  | false ↦ first
  | true ↦ elim (ltb addr (key (add32 first last / 2))) [
    | true ↦ find_loop f key addr first (add32 first last / 2)
    | false ↦ find_loop f key addr (add32 first last / 2) last
  ]
]

-- `block_arr->len` rounds are enough.
unfoldable pub find_index : (ℕ → ℕ) → ℕ → ℕ → Option ℕ
unfolding find_loop
find_index key len addr =
    let last = sub32 len 1 in
    if len == 0
    then none
    else if ltb addr (key 0)
    then none
    else if ltb addr (key last)
    then some (find_loop len key addr 0 last)
    else some last

-- Indices and `len` are `guint`. The sum of an address and a size is not wrapped: no block ends
-- behind the address space.
unfoldable pub find_block : Blocks → List ℕ → ℕ → Option ℕ
unfolding find_index
find_block h arr addr = elim (find_index (λ i. addr_of h (get_or arr i 0)) (length arr) addr) [
  | none ↦ none
  | some i ↦ let b = get_or arr i 0 in if ltb addr (addr_of h b + size_of h b) then some b else none
]

-- The blocks with the list `block_list` of those whose words have yet to be read.
pub record Marking : Type 0 where
  pub blocks : Blocks
  pub work : List ℕ

-- `if (new_block && !(new_block->flags & BLOCK_MARKED))`
unfoldable pub visit : ℕ → Marking → Marking
visit b s = if (s.blocks.cell b).marked then s else record {
  blocks = record (s.blocks) {
    cell = set_cell s.blocks.cell b (record (s.blocks.cell b) { marked = true });
  };
  work = b ∷ s.work;
}

-- One round of `scan_block_contents`, with its `g_assert`.
unfoldable pub scan_word : List ℕ → ℕ → Marking → Outcome Marking
scan_word arr word s = elim (find_block s.blocks arr word) [
  | none ↦ done s
  | some b ↦ if (s.blocks.cell b).is_root then aborted else done (visit b s)
]

unfoldable pub scan_words : List ℕ → List ℕ → Marking → Outcome Marking
scan_words arr [] s = done s
scan_words arr (w ∷ ws) s = scan_word arr w s >>= (λ t. scan_words arr ws t)

-- The traced process: `peek` is PTRACE_PEEKDATA, `none` an error; `word_size` is sizeof (void *).
-- The process is stopped, so its memory does not change.
module _ (peek : ℕ → Option ℕ) (word_size : ℕ) where
  -- The loop of `scan_block`: all words or, after an error, none.
  unfoldable pub read_words : ℕ → ℕ → Option (List ℕ)
  read_words zero addr = some []
  read_words (suc n) addr = elim (peek addr) [
    | none ↦ none
    | some w ↦ elim (read_words n (addr + word_size)) [ none ↦ none | some ws ↦ some (w ∷ ws) ]
  ]

  -- The number of words that `scan_block` reads; the sum is a `guint`.
  abbrev pub word_count : ℕ → ℕ
  word_count size = add32 size 3 / 4

  -- The words that `scan_block_contents` looks at. It does not look past those that were read
  -- where pointers have four bytes or more and the sum does not wrap.
  unfoldable pub contents : Block → List ℕ
  unfolding read_words
  contents b = elim (read_words (word_count b.size) b.addr) [
    | none ↦ []
    | some ws ↦ take (b.size / word_size) ws
  ]

  unfoldable pub scan_block : List ℕ → ℕ → Marking → Outcome Marking
  scan_block arr b s = scan_words arr (contents (s.blocks.cell b)) s

  -- The `while (block_list)` loop of `leaks_find`, on fuel.
  unfoldable pub mark_loop : ℕ → List ℕ → Marking → Outcome Marking
  mark_loop zero arr s = elim s.work [ [] ↦ done s | _ ∷ _ ↦ out_of_fuel ]
  mark_loop (suc f) arr s = elim s.work [
    | [] ↦ done s
    | b ∷ rest ↦ scan_block arr b (record s { work = rest }) >>= (λ t. mark_loop f arr t)
  ]
