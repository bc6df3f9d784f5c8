-- ===== src/Block.antt =====
-- src/memprof.h and src/process.c: the blocks that the profiled program has allocated. `Block *` is
-- an index into a heap of blocks.
use memprof.Common.{if◌then◌else◌, ◌==◌, Option, false, true, Bool, ◌+◌, ℕ}
use memprof.Common.Word.{sub32, add32}

-- `flags` is its two bits, BLOCK_MARKED and BLOCK_IS_ROOT. `refcount` is a `gint` as its 32-bit
-- pattern. `stack` is a node of the stash of the process.
pub record Block : Type 0 where
  pub marked : Bool
  pub is_root : Bool
  pub addr : ℕ
  pub size : ℕ
  pub stack : Option ℕ
  pub refcount : ℕ

-- `freed` says which blocks `g_free` has been called on; blocks from `fresh` on were never
-- allocated.
pub record Blocks : Type 0 where
  pub cell : ℕ → Block
  pub freed : ℕ → Bool
  pub fresh : ℕ

abbrev pub set_cell {ℓ} : {A : Type ℓ} → (ℕ → A) → ℕ → A → ℕ → A
set_cell f b x c = if b == c then x else f c

-- `g_new` and the assignments that follow it: the new block is number `fresh`.
unfoldable pub new_block : Blocks → Block → Blocks
new_block h b = record h {
  cell = set_cell h.cell h.fresh b;
  freed = set_cell h.freed h.fresh false;
  fresh = h.fresh + 1;
}

unfoldable pub block_ref : ℕ → Blocks → Blocks
block_ref b h = record h {
  cell = set_cell h.cell b (record (h.cell b) { refcount = add32 (h.cell b).refcount 1 });
}

unfoldable pub block_unref : ℕ → Blocks → Blocks
block_unref b h =
    let count = sub32 (h.cell b).refcount 1 in
    record h {
      cell = set_cell h.cell b (record (h.cell b) { refcount = count });
      freed = if count == 0 then set_cell h.freed b true else h.freed;
    }
