-- ===== src/Leak/Collect.antt =====
-- src/leakdetect.c: the loop of `leaks_find` that looks for leaked blocks.
use mathlib.Core.List.Memᴰ
use memprof.Common.{
  Bool-cases, arith, ◌∷◌, [], List, false, inr, inl, ◌⊎◌, ◌↔◌, ◌∙◌, ap, sym, ◌≡◌, ℕ,
}
use mathlib.Core.List.{Memᴰ}
use mathlib.Core.Logic.{⊎_elim}
use memprof.Block.{Blocks, block_unref}
use memprof.Leak.Leaks.{collect}

-- The loop reports the blocks that are not marked.
marked_after_unref : (b x : ℕ) (h : Blocks) → ((block_unref b h).cell x).marked ≡ (h.cell x).marked
unfolding block_unref
marked_after_unref b x h = ground arith

pub mem-collect :
    (arr : List ℕ) (h : Blocks) (result : List ℕ) (x : ℕ)
    → Memᴰ x (collect arr (h, result)).1
      ↔ (Memᴰ x result ⊎ (Memᴰ x arr × ((h.cell x).marked ≡ false)))
unfolding collect
mem-collect [] h result x = (inl, ⊎_elim (λ m. m) (λ p. absurd (Memᴰ.not-nil p.0)))
mem-collect (b ∷ arr) h result x = elim (Bool-cases ((h.cell b).marked)) [
  | inl old ↦
      let ih = mem-collect arr (block_unref b h) result x in
      let same = marked_after_unref b x h in
      rw (old, collect)
        (
          λ m. ⊎_elim inl (λ p. inr (Memᴰ.tail p.0, sym same ∙ p.1)) (ih.0 m),
          ⊎_elim (λ m. ih.1 (inl m))
              (λ p.
                ⊎_elim (λ e. absurd (cc (e, old, p.1))) (λ later. ih.1 (inr (later, same ∙ p.1)))
                  (Memᴰ.cases_cons p.0)),
        )
  | inr new ↦
      let ih = mem-collect arr h (b ∷ result) x in
      rw (new, collect)
        (
          λ m.
              ⊎_elim
                (λ r.
                  ⊎_elim (λ e. inr (Memᴰ.head e, ap (λ y. (h.cell y).marked) e ∙ new)) inl
                    (Memᴰ.cases_cons r))
                (λ p. inr (Memᴰ.tail p.0, p.1)) (ih.0 m),
          ⊎_elim (λ m. ih.1 (inl (Memᴰ.tail m)))
              (λ p.
                ⊎_elim (λ e. ih.1 (inl (Memᴰ.head e))) (λ later. ih.1 (inr (later, p.1)))
                  (Memᴰ.cases_cons p.0)),
        )
]
