-- ===== src/Leak/Words.antt =====
-- src/leakdetect.c: the words that a scan of a block looks at.
use mathlib.Core.List.Memᴰ
use mathlib.Core.List.{Memᴰ}
use mathlib.Core.Path.{subst}
use mathlib.Core.Logic.{⊎_elim}
use mathlib.Core.Option.{none-ne-some, some-injective}
use memprof.Common.{
  take, Option-cases, ◌∷◌, [], List, some, none, Option, inr, inl, ◌↔◌, ◌∙◌, ap, sym, ◌≡◌, ◌<◌, ◌/◌,
  ◌%◌, ◌^◌, ◌+◌, ◌*◌, suc, zero, ℕ, arith,
}
use native.Mathlib.Nat.{suc-mul, zero-mul}
use memprof.Block.{Block}
use memprof.Leak.{contents, read_words}

module _ (peek : ℕ → Option ℕ) (word_size : ℕ) where
  -- The `n` words from an address on can be read.
  abbrev pub AllRead : ℕ → ℕ → Type 0
  AllRead n addr = (i : ℕ) → i < n → (w : ℕ) × (peek (addr + i * word_size) ≡ some w)

  -- `w` is one of the `size / word_size` words of the block, and a scan comes to look at it: the
  -- `(size + 3) / 4` words from the address of the block on can be read, and it is one of them. The 4
  -- is not the size of a word, so these reach beyond the block where words have eight bytes.
  abbrev pub IsWordOf : Block → ℕ → Type 0
  IsWordOf b w =
      let n = (b.size + 3) % 2 ^ 32 / 4 in
      AllRead n b.addr
      × ((i : ℕ) × (i < n) × (i < b.size / word_size) × (peek (b.addr + i * word_size) ≡ some w))

  next_word : (addr i : ℕ) → addr + word_size + i * word_size ≡ addr + suc i * word_size
  next_word addr i = omega (arith, suc-mul i word_size)

  first_word : (addr : ℕ) → peek (addr + 0 * word_size) ≡ peek addr
  first_word addr = ap peek (omega (arith, zero-mul word_size))

  AllRead-tail : (n addr : ℕ) → AllRead (suc n) addr → AllRead n (addr + word_size)
  AllRead-tail n addr all i lt =
      let (w, e) = all (suc i) (omega (arith, lt)) in (w, ap peek (next_word addr i) ∙ e)

  read_words-none : (n addr : ℕ) → read_words peek word_size n addr ≡ none → ¬ AllRead n addr
  unfolding read_words
  read_words-none zero addr e all = none-ne-some _ (sym e)
  read_words-none (suc n) addr e all = elim (Option-cases (peek addr)) [
    | inl missing ↦ none-ne-some _ (sym missing ∙ sym (first_word addr) ∙ (all 0 (omega arith)).1)
    | inr (w, here) ↦ elim (Option-cases (read_words peek word_size n (addr + word_size))) [
      | inl stopped ↦ read_words-none n (addr + word_size) stopped (AllRead-tail n addr all)
      | inr (ws, rest) ↦ cc (rw (here, rest, read_words) at e)
    ]
  ]

  -- What the reading of `n` words gives: the words that `peek` has there, in order.
  abbrev IsAt : ℕ → ℕ → ℕ → ℕ → Type 0
  IsAt n k addr w = (i : ℕ) × (i < n) × (i < k) × (peek (addr + i * word_size) ≡ some w)

  -- A word is the first one, or one of the others.
  IsAt-cons :
      (n k addr w v : ℕ) (ws : List ℕ)
      → peek addr ≡ some v
      → (Memᴰ w (take k ws) ↔ IsAt n k (addr + word_size) w)
      → Memᴰ w (v ∷ take k ws) ↔ IsAt (suc n) (suc k) addr w
  IsAt-cons n k addr w v ws here ih = (
    λ m.
        ⊎_elim (λ e. (0, omega arith, omega arith, first_word addr ∙ here ∙ ap some (sym e)))
          (λ later.
            let (i, lt, small, at) = ih.0 later in
            (suc i, omega (arith, lt), omega (arith, small), ap peek (sym (next_word addr i)) ∙ at))
          (Memᴰ.cases_cons m),
    λ p. back p.0 p.1 p.2 p.3,
  )
    where
      back :
          (i : ℕ)
          → i < suc n
          → i < suc k
          → peek (addr + i * word_size) ≡ some w
          → Memᴰ w (v ∷ take k ws)
      back zero lt small at = Memᴰ.head (some-injective _ _ (sym at ∙ first_word addr ∙ here))
      back (suc i) lt small at =
          Memᴰ.tail
            (ih.1 (i, omega (arith, lt), omega (arith, small), ap peek (next_word addr i) ∙ at))

  -- A reading of a word and `n` others that does not fail.
  read_words_split :
      (n addr : ℕ) (ws : List ℕ)
      → read_words peek word_size (suc n) addr ≡ some ws
      → (v : ℕ) × (vs : List ℕ) × (peek addr ≡ some v)
        × (read_words peek word_size n (addr + word_size) ≡ some vs)
        × (ws ≡ v ∷ vs)
  unfolding read_words
  read_words_split n addr ws e = elim (Option-cases (peek addr)) [
    | inl missing ↦ cc (rw (missing, read_words) at e)
    | inr (v, here) ↦ elim (Option-cases (read_words peek word_size n (addr + word_size))) [
      | inl stopped ↦ cc (rw (here, stopped, read_words) at e)
      | inr (vs, rest) ↦
          (v, vs, here, rest, sym (some-injective _ _ (rw (here, rest, read_words) at e)))
    ]
  ]

  read_words-AllRead :
      (n addr : ℕ) (ws : List ℕ) → read_words peek word_size n addr ≡ some ws → AllRead n addr
  read_words-AllRead zero addr ws e i lt = absurd (omega (arith, lt))
  read_words-AllRead (suc n) addr ws e zero lt =
      let (v, vs, here, rest, split) = read_words_split n addr ws e in (v, first_word addr ∙ here)
  read_words-AllRead (suc n) addr ws e (suc i) lt =
      let (v, vs, here, rest, split) = read_words_split n addr ws e in
      let (w, at) = read_words-AllRead n (addr + word_size) vs rest i (omega (arith, lt)) in
      (w, ap peek (sym (next_word addr i)) ∙ at)

  take_nil : (k w : ℕ) → ¬ Memᴰ w (take k [])
  take_nil zero w m = Memᴰ.not-nil m
  take_nil (suc k) w m = Memᴰ.not-nil m

  mem-read_words :
      (n k addr w : ℕ) (ws : List ℕ)
      → read_words peek word_size n addr ≡ some ws
      → Memᴰ w (take k ws) ↔ IsAt n k addr w
  unfolding read_words
  mem-read_words n zero addr w ws e =
      (λ m. absurd (Memᴰ.not-nil m), λ p. absurd (omega (arith, p.2)))
  mem-read_words zero (suc k) addr w ws e =
      let empty : ws ≡ [] = some-injective _ _ (sym e) in
      (
        λ m. absurd (take_nil (suc k) w (subst (λ xs. Memᴰ w (take (suc k) xs)) empty m)),
        λ p. absurd (omega (arith, p.1)),
      )
  mem-read_words (suc n) (suc k) addr w ws e =
      let (v, vs, here, rest, split) = read_words_split n addr ws e in
      subst (λ xs. Memᴰ w (take (suc k) xs) ↔ IsAt (suc n) (suc k) addr w) (sym split)
        (IsAt-cons n k addr w v vs here (mem-read_words n k (addr + word_size) w vs rest))

  -- A word of `contents` is a word of the block that the scan comes to.
  pub mem-contents : (b : Block) (w : ℕ) → Memᴰ w (contents peek word_size b) ↔ IsWordOf b w
  unfolding contents
  mem-contents b w =
      let n = (b.size + 3) % 2 ^ 32 / 4 in
      elim (Option-cases (read_words peek word_size n b.addr)) [
        | inl failed ↦
            rw (failed, contents)
              (λ m. absurd (Memᴰ.not-nil m), λ p. absurd (read_words-none n b.addr failed p.0))
        | inr (ws, read) ↦
            let all = read_words-AllRead n b.addr ws read in
            let found = mem-read_words n (b.size / word_size) b.addr w ws read in
            rw (read, contents) (λ m. (all, found.0 m), λ p. found.1 p.1)
      ]
