-- ===== src/Leak/Mark.antt =====
-- src/leakdetect.c: what a visit changes, and that a scan is a sequence of visits.
use mathlib.Core.List.Memᴰ
use memprof.Common.{
  ap, sym, ◌≤◌, Bool-cases, true, ◌⊎◌, ◌↔◌, ◌∙◌, get_or, length, Option-cases, if◌then◌else◌, ltb,
  arith, ◌∷◌, [], List, some, none, Option, false, Bool, inr, inl, refl, ◌≡◌, ◌+◌, ℕ,
}
use mathlib.Core.Path.{ap₂, fun_ext, subst}
use memprof.Leak.{scan_word, scan_words, find_block, find_index, size_of, visit, addr_of, Marking}
use memprof.Block.{Blocks}
use memprof.Common.Outcome.{done}
use mathlib.Core.List.{Memᴰ}
use mathlib.Core.Logic.{⊎_elim}
use native.Mathlib.Nat.{le_trans}

abbrev pub is_marked : Marking → ℕ → Bool
is_marked s b = (s.blocks.cell b).marked

-- Marking changes no address, size or root flag.
pub record SameShape (h k : Blocks) : Type 0 where
  pub addr : (b : ℕ) → addr_of k b ≡ addr_of h b
  pub size : (b : ℕ) → size_of k b ≡ size_of h b
  pub root : (b : ℕ) → (k.cell b).is_root ≡ (h.cell b).is_root

pub SameShape-refl : (h : Blocks) → SameShape h h
SameShape-refl h = record { addr = λ b. refl; size = λ b. refl; root = λ b. refl }

visit-SameShape :
    (h : Blocks) (b : ℕ) (s : Marking) → SameShape h s.blocks → SameShape h (visit b s).blocks
unfolding visit
visit-SameShape h b s e = record {
  addr = λ c. ground (arith, e.addr c);
  size = λ c. ground (arith, e.size c);
  root = λ c. ground (arith, e.root c);
}

find_over : (ℕ → ℕ) → (ℕ → ℕ) → List ℕ → ℕ → Option ℕ
find_over addr size arr a = elim (find_index (λ i. addr (get_or arr i 0)) (length arr) a) [
  | none ↦ none
  | some i ↦ let b = get_or arr i 0 in if ltb a (addr b + size b) then some b else none
]

pub find_block-shape :
    (h k : Blocks) (arr : List ℕ) (a : ℕ) → SameShape h k → find_block k arr a ≡ find_block h arr a
unfolding find_block find_over
find_block-shape h k arr a e = ap₂ (λ f g. find_over f g arr a) (fun_ext e.addr) (fun_ext e.size)

-- The blocks that the words point into, in the order of the words.
unfoldable pub hits : (ℕ → Option ℕ) → List ℕ → List ℕ
hits find [] = []
hits find (w ∷ ws) = elim (find w) [ none ↦ hits find ws | some b ↦ b ∷ hits find ws ]

unfoldable pub visit_all : List ℕ → Marking → Marking
visit_all [] s = s
visit_all (b ∷ bs) s = visit_all bs (visit b s)

pub visit_all-SameShape :
    (h : Blocks) (bs : List ℕ) (s : Marking)
    → SameShape h s.blocks
    → SameShape h (visit_all bs s).blocks
unfolding visit_all
visit_all-SameShape h [] s e = e
visit_all-SameShape h (b ∷ bs) s e = visit_all-SameShape h bs (visit b s) (visit-SameShape h b s e)

-- No block that the search finds is a root, so the assertion holds.
abbrev pub FindsNoRoot : Blocks → List ℕ → Type 0
FindsNoRoot h arr = (w b : ℕ) → find_block h arr w ≡ some b → (h.cell b).is_root ≡ false

scan_word_miss :
    (arr : List ℕ) (w : ℕ) (s : Marking)
    → find_block s.blocks arr w ≡ none
    → scan_word arr w s ≡ done s
unfolding scan_word
scan_word_miss arr w s e = rw (e, scan_word)

scan_word_hit :
    (arr : List ℕ) (w b : ℕ) (s : Marking)
    → find_block s.blocks arr w ≡ some b
    → (s.blocks.cell b).is_root ≡ false
    → scan_word arr w s ≡ done (visit b s)
unfolding scan_word
scan_word_hit arr w b s e r = rw (e, r, scan_word)

pub scan_words-visit_all :
    (h : Blocks) (arr ws : List ℕ) (s : Marking)
    → FindsNoRoot h arr
    → SameShape h s.blocks
    → scan_words arr ws s ≡ done (visit_all (hits (find_block h arr) ws) s)
unfolding scan_words visit_all hits
scan_words-visit_all h arr [] s safe e = refl
scan_words-visit_all h arr (w ∷ ws) s safe e =
    let same = find_block-shape h s.blocks arr w e in
    elim (Option-cases (find_block h arr w)) [
      | inl missing ↦
          rw (scan_word_miss arr w s (same ∙ missing), missing, hits)
            (scan_words-visit_all h arr ws s safe e)
      | inr (b, found) ↦
          rw (scan_word_hit arr w b s (same ∙ found) (e.root b ∙ safe w b found), found, hits)
            (scan_words-visit_all h arr ws (visit b s) safe (visit-SameShape h b s e))
    ]

-- A visit marks the block and nothing else, and lists it if it was not marked.
marked-visit :
    (b : ℕ) (s : Marking) (x : ℕ)
    → (is_marked (visit b s) x ≡ true) ↔ ((is_marked s x ≡ true) ⊎ (x ≡ b))
unfolding visit
marked-visit b s x = ground arith

mem-visit :
    (b : ℕ) (s : Marking) (x : ℕ)
    → Memᴰ x (visit b s).work ↔ (Memᴰ x s.work ⊎ (x ≡ b) × (is_marked s b ≡ false))
unfolding visit
mem-visit b s x = elim (Bool-cases (is_marked s b)) [
  | inl old ↦ rw old (inl, ⊎_elim (λ m. m) (λ new. cc))
  | inr new ↦ rw new (
    λ m. ⊎_elim (λ e. inr (e, refl)) inl (Memᴰ.cases_cons m),
    ⊎_elim Memᴰ.tail (λ e. Memᴰ.head e.0),
  )
]

pub marked-visit_all :
    (bs : List ℕ) (s : Marking) (x : ℕ)
    → (is_marked (visit_all bs s) x ≡ true) ↔ ((is_marked s x ≡ true) ⊎ Memᴰ x bs)
unfolding visit_all
marked-visit_all [] s x = (inl, ⊎_elim (λ m. m) (λ m. absurd (Memᴰ.not-nil m)))
marked-visit_all (b ∷ bs) s x =
    let ih = marked-visit_all bs (visit b s) x in
    let here = marked-visit b s x in
    (
      λ m.
          ⊎_elim (λ old. ⊎_elim inl (λ e. inr (Memᴰ.head e)) (here.0 old))
            (λ later. inr (Memᴰ.tail later)) (ih.0 m),
      ⊎_elim (λ old. ih.1 (inl (here.1 (inl old))))
          (λ m.
            ⊎_elim (λ e. ih.1 (inl (here.1 (inr e)))) (λ later. ih.1 (inr later))
              (Memᴰ.cases_cons m)),
    )

-- What is listed stays listed, and all that is listed was listed or was visited.
pub mem-visit_all :
    (bs : List ℕ) (s : Marking) (x : ℕ)
    → (Memᴰ x (visit_all bs s).work → Memᴰ x s.work ⊎ Memᴰ x bs)
      × (Memᴰ x s.work → Memᴰ x (visit_all bs s).work)
      × (Memᴰ x bs → (is_marked s x ≡ true) ⊎ Memᴰ x (visit_all bs s).work)
unfolding visit_all
mem-visit_all [] s x = (inl, λ m. m, λ m. absurd (Memᴰ.not-nil m))
mem-visit_all (b ∷ bs) s x =
    let ih = mem-visit_all bs (visit b s) x in
    let one = mem-visit b s x in
    let self : x ≡ b → (is_marked s x ≡ true) ⊎ Memᴰ x (visit_all bs (visit b s)).work = λ e.
      ⊎_elim (λ old. inl (ap (is_marked s) e ∙ old)) (λ new. inr (ih.1 (one.1 (inr (e, new)))))
        (Bool-cases (is_marked s b)) in
    (
      λ m.
          ⊎_elim (λ old. ⊎_elim inl (λ new. inr (Memᴰ.head new.0)) (one.0 old))
            (λ later. inr (Memᴰ.tail later)) (ih.0 m),
      λ m. ih.1 (one.1 (inl m)),
      λ m.
          ⊎_elim self
            (λ later. ⊎_elim (λ old. ⊎_elim inl self ((marked-visit b s x).0 old)) inr (ih.2 later))
            (Memᴰ.cases_cons m),
    )

-- The blocks of the array that are not marked.
unfoldable pub unmarked : List ℕ → Marking → ℕ
unmarked [] s = 0
unmarked (b ∷ arr) s = (if is_marked s b then 0 else 1) + unmarked arr s

visit-unmarked :
    (arr : List ℕ) (b : ℕ) (s : Marking)
    → (unmarked arr (visit b s) ≤ unmarked arr s)
      × (Memᴰ b arr → is_marked s b ≡ false → unmarked arr (visit b s) + 1 ≤ unmarked arr s)
unfolding unmarked visit
visit-unmarked [] b s = (omega arith, λ m. absurd (Memᴰ.not-nil m))
visit-unmarked (c ∷ arr) b s =
    let ih = visit-unmarked arr b s in
    (
      ground (arith, ih.0),
      λ m new.
          ⊎_elim (λ e. ground (arith, ih.0, e, new)) (λ later. ground (arith, ih.1 later new))
            (Memᴰ.cases_cons m),
    )

-- Each visit that lists a block marks it, so marking does not add to what is left to do.
abbrev pub left_to_do : List ℕ → Marking → ℕ
left_to_do arr s = unmarked arr s + length s.work

visit_old : (b : ℕ) (s : Marking) → is_marked s b ≡ true → visit b s ≡ s
unfolding visit
visit_old b s old = rw (old, visit)

visit-length : (b : ℕ) (s : Marking) → length (visit b s).work ≤ length s.work + 1
unfolding visit
visit-length b s = ground arith

visit-left_to_do :
    (arr : List ℕ) (b : ℕ) (s : Marking)
    → Memᴰ b arr
    → left_to_do arr (visit b s) ≤ left_to_do arr s
visit-left_to_do arr b s m = elim (Bool-cases (is_marked s b)) [
  | inl old ↦
      subst (λ t. left_to_do arr t ≤ left_to_do arr s) (sym (visit_old b s old)) (omega arith)
  | inr new ↦ omega (arith, (visit-unmarked arr b s).1 m new, visit-length b s)
]

pub visit_all-left_to_do :
    (arr bs : List ℕ) (s : Marking)
    → ((b : ℕ) → Memᴰ b bs → Memᴰ b arr)
    → left_to_do arr (visit_all bs s) ≤ left_to_do arr s
unfolding visit_all
visit_all-left_to_do arr [] s h = omega arith
visit_all-left_to_do arr (b ∷ bs) s h =
    le_trans (visit_all-left_to_do arr bs (visit b s) (λ c m. h c (Memᴰ.tail m)))
      (visit-left_to_do arr b s (h b (Memᴰ.head refl)))
