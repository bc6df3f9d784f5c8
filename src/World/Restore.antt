-- ===== src/World/Restore.antt =====
-- src/process.c: a copy of a process that is given up leaves the blocks as they were.
use memprof.Common.{
  ==→eq, Option, Bool-cases, if◌then◌else◌, ◌==◌, arith, ◌++◌, ◌∷◌, [], some, none, false, true,
  inr, inl, ◌≢◌, ◌∙◌, ap, sym, refl, ◌≡◌, ◌<◌, ◌+◌, ℕ,
}
use mathlib.Core.List.{append_assoc, append-nil}
use memprof.Block.{Blocks, block_unref, block_ref}
use memprof.World.Life.{
  process_reinit, duplicate_table, process_duplicate, process_stop_input, process_new, free_blocks,
  duplicate_blocks,
}
use memprof.Common.Table.{lookup-insert, insert, Table, IsTable, lookup}
use memprof.Common.Word.{u32_mod}
use mathlib.Core.Path.{ap₂, subst}
use memprof.Process.{mp_process_init}
use memprof.World.{World}
use memprof.World.Duplicate.{get_block_table-open, open_table}
use memprof.Process.Commands.{get_block_table}

-- How often a table holds a block.
unfoldable pub held : ℕ → Table ℕ → ℕ
held b [] = 0
held b ((k, c) ∷ t) = (if c == b then 1 else 0) + held b t

-- A copy of a table is the table.
abbrev Absent : Table ℕ → Table ℕ → Type 0
Absent s t = (a : ℕ) (b : ℕ) → lookup a t ≡ some b → lookup a s ≡ none

insert-absent : (k b : ℕ) (s : Table ℕ) → lookup k s ≡ none → insert k b s ≡ s ++ (k, b) ∷ []
unfolding insert lookup
insert-absent k b [] e = refl
insert-absent k b ((j, c) ∷ s) e = elim (Bool-cases (j == k)) [
  | inl same ↦ absurd (found_here j k c s same e)
  | inr other ↦
      rw (other, insert)
        (ap (λ t. (j, c) ∷ t) (insert-absent k b s (sym (skip_here j k c s other) ∙ e)))
]
  where
    found_here : (j k c : ℕ) (s : Table ℕ) → (j == k) ≡ true → lookup k ((j, c) ∷ s) ≢ none
    found_here j k c s same e = ground (arith, same, e)

    skip_here : (j k c : ℕ) (s : Table ℕ) → (j == k) ≡ false → lookup k ((j, c) ∷ s) ≡ lookup k s
    skip_here j k c s other = rw (other, lookup) refl

still-Absent :
    (j b : ℕ) (t s : Table ℕ) → lookup j t ≡ none → Absent s ((j, b) ∷ t) → Absent (insert j b s) t
unfolding lookup
still-Absent j b t s gone a = λ x c e. elim (Bool-cases (j == x)) [
  | inl same ↦ absurd (cc (==→eq j x same, gone, e))
  | inr other ↦
      let there : lookup x ((j, b) ∷ t) ≡ some c = rw other e in
      lookup-insert j x b s ∙ rw other (a x c there)
]

duplicate_blocks-table :
    (t s : Table ℕ) (h : Blocks) → IsTable t → Absent s t → (duplicate_blocks t (s, h)).0 ≡ s ++ t
unfolding duplicate_blocks lookup insert
duplicate_blocks-table [] s h k a = sym (append-nil s)
duplicate_blocks-table ((j, b) ∷ t) s h k a =
    let gone : lookup j s ≡ none = a j b (ground arith) in
    let appended : insert j b s ≡ s ++ (j, b) ∷ [] = insert-absent j b s gone in
    duplicate_blocks-table t (insert j b s) (block_ref b h) k.1 (still-Absent j b t s k.0 a)
    ∙ ap (λ xs. xs ++ t) appended
    ∙ append_assoc s ((j, b) ∷ []) t

duplicate_blocks-refcount :
    (b : ℕ) (t s : Table ℕ) (h : Blocks)
    → (h.cell b).refcount + held b t < u32_mod
    → (((duplicate_blocks t (s, h)).1.cell b).refcount ≡ (h.cell b).refcount + held b t)
      × ((duplicate_blocks t (s, h)).1.freed b ≡ h.freed b)
unfolding duplicate_blocks block_ref held
duplicate_blocks-refcount b [] s h small = (omega arith, refl)
duplicate_blocks-refcount b ((j, c) ∷ t) s h small =
    let now : ((block_ref c h).cell b).refcount ≡ (h.cell b).refcount + (if c == b then 1 else 0) =
      ground (arith, small) in
    let ih =
      duplicate_blocks-refcount b t (insert j c s) (block_ref c h) (omega (arith, now, small)) in
    (omega (arith, ih.0, now), ih.1)

free_blocks-refcount :
    (b : ℕ) (t : Table ℕ) (h : Blocks)
    → held b t < (h.cell b).refcount
    → (h.cell b).refcount < u32_mod
    → (((free_blocks t h).cell b).refcount + held b t ≡ (h.cell b).refcount)
      × ((free_blocks t h).freed b ≡ h.freed b)
unfolding free_blocks block_unref held
free_blocks-refcount b [] h more small = (omega arith, refl)
free_blocks-refcount b ((j, c) ∷ t) h more small =
    let now : ((block_unref c h).cell b).refcount + (if c == b then 1 else 0)
        ≡ (h.cell b).refcount =
      ground (arith, more, small) in
    let kept : (block_unref c h).freed b ≡ h.freed b = ground (arith, more, small) in
    let ih =
      free_blocks-refcount b t (block_unref c h) (omega (arith, now, more))
        (omega (arith, now, small)) in
    (omega (arith, ih.0, now), ih.1 ∙ kept)

duplicate_table-copy :
    (new old : Option (Table ℕ)) (h : Blocks)
    → new ≡ none
    → IsTable (open_table old)
    → (open_table (duplicate_table new old h).0 ≡ open_table old)
      × ((duplicate_table new old h).1 ≡ (duplicate_blocks (open_table old) ([], h)).1)
unfolding duplicate_table open_table duplicate_blocks lookup
duplicate_table-copy new none h e k = (rw e refl, refl)
duplicate_table-copy new (some t) h e k =
    (duplicate_blocks-table t [] h k (λ a b there. refl), refl)

-- When the copy of a process is reset, as after a fork whose child calls exec at once, the blocks are
-- as before the copy: a block with a reference, whose count does not wrap, has the count that it had,
-- and is freed only if it was.
pub process_reinit-process_duplicate :
    (n : ℕ) (w : World) (b : ℕ)
    → n < w.fresh
    → IsTable (get_block_table (w.process n))
    → 0 < (w.blocks.cell b).refcount
    → (w.blocks.cell b).refcount + held b (get_block_table (w.process n)) < u32_mod
    → let v = process_reinit w.fresh (process_duplicate n w) in
      ((v.blocks.cell b).refcount ≡ (w.blocks.cell b).refcount)
      × (v.blocks.freed b ≡ w.blocks.freed b)
unfolding process_duplicate process_new mp_process_init process_reinit process_stop_input
process_reinit-process_duplicate n w b lt keys counted small =
    let p = w.process n in
    let new = ((process_new w).process w.fresh).block_table in
    let opened = get_block_table-open p p.block_table refl in
    let copy =
      duplicate_table-copy new p.block_table w.blocks (ground arith) (subst IsTable opened keys) in
    let u = process_duplicate n w in
    let table : get_block_table ((process_stop_input w.fresh u).process w.fresh)
        ≡ get_block_table p =
      get_block_table-open ((process_stop_input w.fresh u).process w.fresh)
        (duplicate_table new p.block_table w.blocks).0 (ground arith)
      ∙ copy.0
      ∙ sym opened in
    let blocks : u.blocks ≡ (duplicate_blocks (get_block_table p) ([], w.blocks)).1 =
      copy.1 ∙ ap (λ t. (duplicate_blocks t ([], w.blocks)).1) (sym opened) in
    let result : (process_reinit w.fresh u).blocks
        ≡ free_blocks (get_block_table p) (duplicate_blocks (get_block_table p) ([], w.blocks)).1 =
      ap₂ free_blocks table blocks in
    let up = duplicate_blocks-refcount b (get_block_table p) [] w.blocks small in
    let down =
      free_blocks-refcount b (get_block_table p)
        (duplicate_blocks (get_block_table p) ([], w.blocks)).1 (omega (arith, up.0, counted))
        (omega (arith, up.0, small)) in
    (
      ap (λ h. (h.cell b).refcount) result ∙ omega (arith, down.0, up.0),
      ap (λ h. h.freed b) result ∙ down.1 ∙ up.1,
    )
