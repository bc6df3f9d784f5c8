-- ===== src/Leak/Order.antt =====
-- src/leakdetect.c: the sorted array of blocks, which `find_block` may search.
use mathlib.Core.List.Memᴰ
use memprof.Common.{
  sym, get_or, length, arith, ◌∷◌, [], List, inr, inl, ◌⊎◌, ◌↔◌, refl, ◌≡◌, ◌<◌, ◌≤◌, ◌+◌, suc,
  zero, ℕ,
}
use mathlib.Core.List.{Memᴰ}
use mathlib.Core.Logic.{⊎_elim}
use memprof.Leak.{size_of, compare_blocks, addr_of, insert_block, sort_blocks}
use memprof.Block.{Blocks}
use memprof.Leak.Search.{IsDisjoint, Memᴰ-get_or}
use mathlib.Core.Path.{subst}

-- Two blocks that do not overlap, at different addresses.
abbrev pub Before : Blocks → ℕ → ℕ → Type 0
Before h a b = (addr_of h a < addr_of h b) × (addr_of h a + size_of h a ≤ addr_of h b)

abbrev pub Apart : Blocks → ℕ → ℕ → Type 0
Apart h a b = Before h a b ⊎ Before h b a

abbrev pub AllApart : Blocks → List ℕ → Type 0
AllApart h [] = Unit
AllApart h (b ∷ arr) = ((c : ℕ) → Memᴰ c arr → Apart h b c) × AllApart h arr

abbrev pub IsOrdered : Blocks → List ℕ → Type 0
IsOrdered h [] = Unit
IsOrdered h (b ∷ arr) = ((c : ℕ) → Memᴰ c arr → Before h b c) × IsOrdered h arr

pub IsOrdered-IsDisjoint : (h : Blocks) (arr : List ℕ) → IsOrdered h arr → IsDisjoint h arr
IsOrdered-IsDisjoint h [] o i j lt in_range = absurd (omega arith)
IsOrdered-IsDisjoint h (b ∷ arr) o zero zero lt in_range = absurd (omega arith)
IsOrdered-IsDisjoint h (b ∷ arr) o zero (suc j) lt in_range =
    (o.0 (get_or arr j 0) (Memᴰ-get_or arr j (omega arith))).1
IsOrdered-IsDisjoint h (b ∷ arr) o (suc i) zero lt in_range = absurd (omega arith)
IsOrdered-IsDisjoint h (b ∷ arr) o (suc i) (suc j) lt in_range =
    IsOrdered-IsDisjoint h arr o.1 i j (omega arith) (omega arith)

module _ (h : Blocks) where
  -- `compare_blocks` tells whether the first block stands behind the second.
  insert_cases :
      (b c : ℕ) (arr : List ℕ)
      → ((addr_of h c < addr_of h b) × (insert_block h b (c ∷ arr) ≡ c ∷ insert_block h b arr))
        ⊎ ((addr_of h b ≤ addr_of h c) × (insert_block h b (c ∷ arr) ≡ b ∷ c ∷ arr))
  unfolding insert_block compare_blocks
  insert_cases b c arr = ground arith

  pub mem-insert_block :
      (b x : ℕ) (arr : List ℕ) → Memᴰ x (insert_block h b arr) ↔ ((x ≡ b) ⊎ Memᴰ x arr)
  unfolding insert_block
  mem-insert_block b x [] = (λ m. ⊎_elim inl inr (Memᴰ.cases_cons m), ⊎_elim Memᴰ.head Memᴰ.tail)
  mem-insert_block b x (c ∷ arr) =
      let ih = mem-insert_block b x arr in
      elim (insert_cases b c arr) [
        | inr stays ↦ rw (stays.1) (λ m. Memᴰ.cases_cons m, ⊎_elim Memᴰ.head Memᴰ.tail)
        | inl moves ↦ rw (moves.1) (
          λ m.
              ⊎_elim (λ e. inr (Memᴰ.head e))
                (λ later. ⊎_elim inl (λ old. inr (Memᴰ.tail old)) (ih.0 later)) (Memᴰ.cases_cons m),
          ⊎_elim (λ e. Memᴰ.tail (ih.1 (inl e)))
              (λ m. ⊎_elim Memᴰ.head (λ later. Memᴰ.tail (ih.1 (inr later))) (Memᴰ.cases_cons m)),
        )
      ]

  Before-trans : (a b c : ℕ) → Before h a b → Before h b c → Before h a c
  Before-trans a b c p q = (omega (arith, p, q), omega (arith, p, q))

  Before-of_le : {b c : ℕ} → Apart h b c → addr_of h b ≤ addr_of h c → Before h b c
  Before-of_le (inl p) le = p
  Before-of_le (inr p) le = absurd (omega (arith, p.0))

  Before-of_gt : {b c : ℕ} → Apart h b c → addr_of h c < addr_of h b → Before h c b
  Before-of_gt (inl p) gt = absurd (omega (arith, p.0))
  Before-of_gt (inr p) gt = p

  insert_block-IsOrdered :
      (b : ℕ) (arr : List ℕ)
      → ((c : ℕ) → Memᴰ c arr → Apart h b c)
      → IsOrdered h arr
      → IsOrdered h (insert_block h b arr)
  unfolding insert_block
  insert_block-IsOrdered b [] apart o = (λ c m. absurd (Memᴰ.not-nil m), tt)
  insert_block-IsOrdered b (c ∷ arr) apart o =
      let here = apart c (Memᴰ.head refl) in
      elim (insert_cases b c arr) [
        | inr stays ↦ rw (stays.1) (
          λ x m.
              ⊎_elim (λ e. subst (Before h b) (sym e) (Before-of_le here stays.0))
                (λ later. Before-trans b c x (Before-of_le here stays.0) (o.0 x later))
                (Memᴰ.cases_cons m),
          o,
        )
        | inl moves ↦ rw (moves.1) (
          λ x m.
              ⊎_elim (λ e. subst (Before h c) (sym e) (Before-of_gt here moves.0)) (o.0 x)
                ((mem-insert_block b x arr).0 m),
          insert_block-IsOrdered b arr (λ x m. apart x (Memᴰ.tail m)) o.1,
        )
      ]

  pub mem-sort_blocks : (x : ℕ) (arr : List ℕ) → Memᴰ x (sort_blocks h arr) ↔ Memᴰ x arr
  unfolding sort_blocks
  mem-sort_blocks x [] = (λ m. m, λ m. m)
  mem-sort_blocks x (b ∷ arr) =
      let here = mem-insert_block b x (sort_blocks h arr) in
      let ih = mem-sort_blocks x arr in
      (
        λ m. ⊎_elim Memᴰ.head (λ later. Memᴰ.tail (ih.0 later)) (here.0 m),
        λ m. here.1 (⊎_elim inl (λ later. inr (ih.1 later)) (Memᴰ.cases_cons m)),
      )

  pub sort_blocks-IsOrdered : (arr : List ℕ) → AllApart h arr → IsOrdered h (sort_blocks h arr)
  unfolding sort_blocks
  sort_blocks-IsOrdered [] apart = apart
  sort_blocks-IsOrdered (b ∷ arr) apart =
      insert_block-IsOrdered b (sort_blocks h arr) (λ c m. apart.0 c ((mem-sort_blocks c arr).0 m))
        (sort_blocks-IsOrdered arr apart.1)

  length-insert_block : (b : ℕ) (arr : List ℕ) → length (insert_block h b arr) ≡ length arr + 1
  unfolding insert_block
  length-insert_block b [] = omega arith
  length-insert_block b (c ∷ arr) = elim (insert_cases b c arr) [
    | inr stays ↦ rw (stays.1) (omega arith)
    | inl moves ↦ rw (moves.1) (omega (arith, length-insert_block b arr))
  ]

  pub length-sort_blocks : (arr : List ℕ) → length (sort_blocks h arr) ≡ length arr
  unfolding sort_blocks
  length-sort_blocks [] = omega arith
  length-sort_blocks (b ∷ arr) =
      omega (arith, length-insert_block b (sort_blocks h arr), length-sort_blocks arr)

-- The order depends on the addresses and sizes of the blocks of the array.
abbrev pub SameAt : Blocks → Blocks → List ℕ → Type 0
SameAt h k arr = (b : ℕ) → Memᴰ b arr → (addr_of k b ≡ addr_of h b) × (size_of k b ≡ size_of h b)

Before-same :
    (h k : Blocks) (arr : List ℕ) (a b : ℕ)
    → SameAt h k arr
    → Memᴰ a arr
    → Memᴰ b arr
    → Before h a b
    → Before k a b
Before-same h k arr a b e ma mb p =
    (omega (arith, e a ma, e b mb, p), omega (arith, e a ma, e b mb, p))

pub IsOrdered-same :
    (h k : Blocks) (arr : List ℕ) → SameAt h k arr → IsOrdered h arr → IsOrdered k arr
IsOrdered-same h k [] e o = o
IsOrdered-same h k (b ∷ arr) e o = (
  λ c m. Before-same h k (b ∷ arr) b c e (Memᴰ.head refl) (Memᴰ.tail m) (o.0 c m),
  IsOrdered-same h k arr (λ c m. e c (Memᴰ.tail m)) o.1,
)

pub AllApart-same : (h k : Blocks) (arr : List ℕ) → SameAt h k arr → AllApart h arr → AllApart k arr
AllApart-same h k [] e o = o
AllApart-same h k (b ∷ arr) e o = (
  λ c m.
      ⊎_elim (λ p. inl (Before-same h k (b ∷ arr) b c e (Memᴰ.head refl) (Memᴰ.tail m) p))
        (λ p. inr (Before-same h k (b ∷ arr) c b e (Memᴰ.tail m) (Memᴰ.head refl) p)) (o.0 c m),
  AllApart-same h k arr (λ c m. e c (Memᴰ.tail m)) o.1,
)
