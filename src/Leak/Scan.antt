-- ===== src/Leak/Scan.antt =====
-- src/leakdetect.c: a scanned block marks the blocks that its words point into.
use mathlib.Core.List.Memᴰ
use memprof.Common.{
  length, ◌<◌, ◌+◌, take, Option-cases, ◌∷◌, [], List, some, none, Option, inr, inl, ◌↔◌, ◌∙◌, ap,
  sym, refl, ◌≡◌, ◌/◌, ℕ,
}
use mathlib.Core.List.{Memᴰ}
use mathlib.Core.Path.{ap₂}
use mathlib.Core.Logic.{⊎_elim}
use memprof.Leak.{scan_block, find_block, Marking, scan_words, contents, read_words, word_count}
use memprof.Block.{Blocks}
use memprof.Leak.Search.{IsDisjoint, find_block_complete, find_block_sound, Holds}
use memprof.Leak.Mark.{scan_words-visit_all, visit_all, FindsNoRoot, hits, SameShape}
use memprof.Leak.Words.{IsWordOf, mem-contents}
use memprof.Common.Word.{u32_mod}
use memprof.Common.Outcome.{done}

-- A word of `a` points into the block `b` of the array.
abbrev pub PointsTo : (ℕ → Option ℕ) → ℕ → Blocks → List ℕ → ℕ → ℕ → Type 0
PointsTo peek word_size h arr a b =
    Memᴰ b arr × ((w : ℕ) × IsWordOf peek word_size (h.cell a) w × Holds h b w)

-- The chains of pointers that begin in a root.
pub data Reach (points : ℕ → ℕ → Type 0) (roots : List ℕ) : ℕ → Type 0 where
  from_root : {r b : ℕ} → Memᴰ r roots → points r b → Reach points roots b
  onward : {a b : ℕ} → Reach points roots a → points a b → Reach points roots b

mem-hits :
    (find : ℕ → Option ℕ) (ws : List ℕ) (b : ℕ)
    → Memᴰ b (hits find ws) ↔ ((w : ℕ) × Memᴰ w ws × (find w ≡ some b))
unfolding hits
mem-hits find [] b = (λ m. absurd (Memᴰ.not-nil m), λ p. absurd (Memᴰ.not-nil p.1))
mem-hits find (w ∷ ws) b =
    let ih = mem-hits find ws b in
    elim (Option-cases (find w)) [
      | inl missing ↦
          rw (missing, hits)
            (
              λ m. let (v, later, e) = ih.0 m in (v, Memᴰ.tail later, e),
              λ p.
                  ⊎_elim (λ e. absurd (cc (e, missing, p.2))) (λ later. ih.1 (p.0, later, p.2))
                    (Memᴰ.cases_cons p.1),
            )
      | inr (c, found) ↦
          rw (found, hits)
            (
              λ m.
                  ⊎_elim (λ e. (w, Memᴰ.head refl, found ∙ ap some (sym e)))
                    (λ later. let (v, there, e) = ih.0 later in (v, Memᴰ.tail there, e))
                    (Memᴰ.cases_cons m),
              λ p.
                  ⊎_elim (λ e. Memᴰ.head (cc (e, found, p.2)))
                    (λ later. Memᴰ.tail (ih.1 (p.0, later, p.2))) (Memᴰ.cases_cons p.1),
            )
    ]

contents_over : (ℕ → Option ℕ) → ℕ → ℕ → ℕ → List ℕ
contents_over peek word_size addr size =
    elim (read_words peek word_size (word_count peek word_size size) addr) [
      | none ↦ []
      | some ws ↦ take (size / word_size) ws
    ]

contents-shape :
    (peek : ℕ → Option ℕ) (word_size : ℕ) (h k : Blocks) (b : ℕ)
    → SameShape h k
    → contents peek word_size (k.cell b) ≡ contents peek word_size (h.cell b)
unfolding contents contents_over
contents-shape peek word_size h k b e = ap₂ (contents_over peek word_size) (e.addr b) (e.size b)

module _ (peek : ℕ → Option ℕ) (word_size : ℕ) (h : Blocks) (arr : List ℕ)
    (small : length arr + length arr < u32_mod) (disjoint : IsDisjoint h arr) where
  -- The blocks that a scan of `a` visits, in the order of the words.
  abbrev pub targets : ℕ → List ℕ
  targets a = hits (find_block h arr) (contents peek word_size (h.cell a))

  pub mem-targets : (a b : ℕ) → Memᴰ b (targets a) ↔ PointsTo peek word_size h arr a b
  mem-targets a b =
      let found = mem-hits (find_block h arr) (contents peek word_size (h.cell a)) b in
      (
        λ m.
            let (w, there, e) = found.0 m in
            let word = (mem-contents peek word_size (h.cell a) w).0 there in
            let (inside, holds) = find_block_sound h arr w small b e in (inside, (w, word, holds)),
        λ p. found.1 (
          p.1.0,
          (mem-contents peek word_size (h.cell a) p.1.0).1 p.1.1,
          find_block_complete h arr p.1.0 small b disjoint p.0 p.1.2,
        ),
      )

  pub scan_block-visit_all :
      (a : ℕ) (s : Marking)
      → FindsNoRoot h arr
      → SameShape h s.blocks
      → scan_block peek word_size arr a s ≡ done (visit_all (targets a) s)
  unfolding scan_block
  scan_block-visit_all a s safe e =
      ap (λ ws. scan_words arr ws s) (contents-shape peek word_size h s.blocks a e)
      ∙ scan_words-visit_all h arr (contents peek word_size (h.cell a)) s safe e
