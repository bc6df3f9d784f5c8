-- ===== src/World/Duplicate.antt =====
-- src/process.c: a forked process knows the blocks of its parent.
use memprof.Common.{
  Option-cases, Bool-cases, ==→eq, ◌==◌, arith, ◌∷◌, [], some, none, Option, inr, inl, ◌∙◌, ap, sym,
  refl, ◌≡◌, ◌<◌, ℕ,
}
use mathlib.Core.Path.{subst, ap₂}
use memprof.Process.{mp_process_init, Process, State}
use memprof.World.{World}
use memprof.Block.{Blocks, block_ref}
use memprof.World.Life.{process_new, duplicate_table, process_duplicate, duplicate_blocks}
use memprof.Process.Live.{live}
use memprof.Process.Commands.{get_block_table}
use memprof.Common.Table.{lookup-insert, IsTable, Table, lookup, insert}

abbrev or_else : Option ℕ → Option ℕ → Option ℕ
or_else none o = o
or_else (some b) o = some b

lookup-duplicate_blocks :
    (a : ℕ) (t s : Table ℕ) (h : Blocks)
    → IsTable t
    → lookup a (duplicate_blocks t (s, h)).0 ≡ or_else (lookup a t) (lookup a s)
unfolding duplicate_blocks lookup
lookup-duplicate_blocks a [] s h k = refl
lookup-duplicate_blocks a ((j, b) ∷ t) s h k = elim (Bool-cases (j == a)) [
  | inl same ↦
      let gone : lookup a t ≡ none = ap (λ x. lookup x t) (sym (==→eq j a same)) ∙ k.0 in
      lookup-duplicate_blocks a t (insert j b s) (block_ref b h) k.1
      ∙ ap₂ or_else gone (lookup-insert j a b s)
      ∙ rw same refl
  | inr other ↦
      lookup-duplicate_blocks a t (insert j b s) (block_ref b h) k.1
      ∙ ap (or_else (lookup a t)) (lookup-insert j a b s)
      ∙ rw other refl
]

duplicate_blocks-kept :
    (b : ℕ) (t s : Table ℕ) (h : Blocks)
    → (((duplicate_blocks t (s, h)).1.cell b).size ≡ (h.cell b).size)
      × (((duplicate_blocks t (s, h)).1.cell b).stack ≡ (h.cell b).stack)
unfolding duplicate_blocks block_ref
duplicate_blocks-kept b [] s h = (refl, refl)
duplicate_blocks-kept b ((j, c) ∷ t) s h =
    let ih = duplicate_blocks-kept b t (insert j c s) (block_ref c h) in
    (ground (arith, ih.0), ground (arith, ih.1))

-- A process of the world as `process_command` sees it.
abbrev pub state_of : World → ℕ → State
state_of w n = record { process = w.process n; blocks = w.blocks; missing = w.missing }

live-same :
    (st su : State) (a : ℕ)
    → lookup a (get_block_table su.process) ≡ lookup a (get_block_table st.process)
    → ((b : ℕ)
        → ((su.blocks.cell b).size ≡ (st.blocks.cell b).size)
          × ((su.blocks.cell b).stack ≡ (st.blocks.cell b).stack))
    → live su a ≡ live st a
unfolding live
live-same st su a e kept = elim (Option-cases (lookup a (get_block_table st.process))) [
  | inl gone ↦ rw (e, gone, live) refl
  | inr (b, there) ↦ rw (e, there, live) (ap some (ap₂ (λ x y. (x, y)) (kept b).0 (kept b).1))
]

unfoldable pub open_table : Option (Table ℕ) → Table ℕ
open_table none = []
open_table (some t) = t

pub get_block_table-open :
    (p : Process) (o : Option (Table ℕ)) → p.block_table ≡ o → get_block_table p ≡ open_table o
unfolding get_block_table open_table
get_block_table-open p none e = rw e refl
get_block_table-open p (some t) e = rw e refl

lookup-duplicate_table :
    (a : ℕ) (new old : Option (Table ℕ)) (h : Blocks)
    → new ≡ none
    → IsTable (open_table old)
    → lookup a (open_table (duplicate_table new old h).0) ≡ lookup a (open_table old)
unfolding duplicate_table open_table lookup
lookup-duplicate_table a new none h e k = rw e refl
lookup-duplicate_table a new (some t) h e k =
    lookup-duplicate_blocks a t [] h k ∙ or_none (lookup a t)
  where
    or_none : (o : Option ℕ) → or_else o none ≡ o
    or_none none = refl
    or_none (some b) = refl

duplicate_table-kept :
    (b : ℕ) (new old : Option (Table ℕ)) (h : Blocks)
    → (((duplicate_table new old h).1.cell b).size ≡ (h.cell b).size)
      × (((duplicate_table new old h).1.cell b).stack ≡ (h.cell b).stack)
unfolding duplicate_table
duplicate_table-kept b new none h = (refl, refl)
duplicate_table-kept b new (some t) h = duplicate_blocks-kept b t [] h

-- `process_duplicate` gives the new process the counters, the next message number and the blocks of
-- its parent: at every address the same size and stack, or none. The parent is as it was, and knows
-- the same blocks.
pub process_duplicate-live :
    (n : ℕ) (w : World) (a : ℕ)
    → n < w.fresh
    → IsTable (get_block_table (w.process n))
    → let u = process_duplicate n w in
      (live (state_of u w.fresh) a ≡ live (state_of w n) a)
      × (live (state_of u n) a ≡ live (state_of w n) a)
      × ((u.process w.fresh).bytes_used ≡ (w.process n).bytes_used)
      × ((u.process w.fresh).n_allocations ≡ (w.process n).n_allocations)
      × ((u.process w.fresh).seqno ≡ (w.process n).seqno)
      × (u.process n ≡ w.process n)
unfolding process_duplicate process_new mp_process_init
process_duplicate-live n w a lt keys =
    let p = w.process n in
    let u = process_duplicate n w in
    let new = ((process_new w).process w.fresh).block_table in
    let opened : get_block_table p ≡ open_table p.block_table =
      get_block_table-open p p.block_table refl in
    let copied : get_block_table (u.process w.fresh)
        ≡ open_table (duplicate_table new p.block_table w.blocks).0 =
      get_block_table-open (u.process w.fresh) _ (ground arith) in
    let same : u.process n ≡ p = ground (arith, lt) in
    (
      live-same (state_of w n) (state_of u w.fresh) a
          (ap (lookup a) copied
            ∙ lookup-duplicate_table a new p.block_table w.blocks (ground arith)
                (subst IsTable opened keys)
            ∙ ap (lookup a) (sym opened))
          (λ b. duplicate_table-kept b new p.block_table w.blocks),
      live-same (state_of w n) (state_of u n) a (ap (λ q. lookup a (get_block_table q)) same)
          (λ b. duplicate_table-kept b new p.block_table w.blocks),
      ground arith,
      ground arith,
      ground arith,
      same,
    )
