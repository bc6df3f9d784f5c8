-- ===== src/Common/Sort.antt =====
-- `qsort` and `g_ptr_array_sort` with a comparison function, as a stable sort by insertion.
use Prim.Native.Nat.{Ordering}
use mathlib.Core.Path.{◌≡◌, sym, subst}
use mathlib.Core.Logic.{◌⊎◌, inl, inr, ⊎_elim}
use mathlib.Core.List.{List, [], ◌∷◌}
use mathlib.Core.List.Memᴰ
use mathlib.Core.List.{Memᴰ}
use mathlib.Core.List.Perm
use mathlib.Core.List.{Perm}
use memprof.Common.{length, refl, ◌+◌, arith, ◌≢◌}

module _ {ℓ} {A : Type ℓ} where
  -- Every element is in the relation to all behind it.
  abbrev pub IsSorted : (A → A → Type 0) → List A → Type ℓ
  IsSorted le [] = Unit
  IsSorted le (x ∷ xs) = ((y : A) → Memᴰ y xs → le x y) × IsSorted le xs

module _ {ℓ} {A : Type ℓ} (cmp : A → A → Ordering) where
  unfoldable pub insert_by : A → List A → List A
  insert_by x [] = x ∷ []
  insert_by x (y ∷ ys) = elim (cmp x y) [ Ordering.gt ↦ y ∷ insert_by x ys | _ ↦ x ∷ y ∷ ys ]

  unfoldable pub sort_by : List A → List A
  unfolding insert_by
  sort_by [] = []
  sort_by (x ∷ xs) = insert_by x (sort_by xs)

  insert_by-cases :
      (x y : A) (ys : List A)
      → ((cmp x y ≡ Ordering.gt) × (insert_by x (y ∷ ys) ≡ y ∷ insert_by x ys))
        ⊎ ((cmp x y ≢ Ordering.gt) × (insert_by x (y ∷ ys) ≡ x ∷ y ∷ ys))
  unfolding insert_by
  insert_by-cases x y ys = ground arith

  insert_by-Perm : (x : A) (xs : List A) → Perm (insert_by x xs) (x ∷ xs)
  unfolding insert_by
  insert_by-Perm x [] = Perm.refl _
  insert_by-Perm x (y ∷ ys) = elim (insert_by-cases x y ys) [
    | inl moves ↦ rw (moves.1) (Perm.trans (Perm.cons y (insert_by-Perm x ys)) (Perm.swap _ _ _))
    | inr stays ↦ rw (stays.1) (Perm.refl _)
  ]

  pub sort_by-Perm : (xs : List A) → Perm (sort_by xs) xs
  unfolding sort_by
  sort_by-Perm [] = Perm.refl _
  sort_by-Perm (x ∷ xs) = Perm.trans (insert_by-Perm x (sort_by xs)) (Perm.cons x (sort_by-Perm xs))

  length-insert_by : (x : A) (xs : List A) → length (insert_by x xs) ≡ length xs + 1
  unfolding insert_by
  length-insert_by x [] = omega arith
  length-insert_by x (y ∷ ys) = elim (insert_by-cases x y ys) [
    | inl moves ↦ rw (moves.1) (omega (arith, length-insert_by x ys))
    | inr stays ↦ rw (stays.1) (omega arith)
  ]

  pub length-sort_by : (xs : List A) → length (sort_by xs) ≡ length xs
  unfolding sort_by
  length-sort_by [] = refl
  length-sort_by (x ∷ xs) = omega (arith, length-insert_by x (sort_by xs), length-sort_by xs)

  mem-insert_by : (x y : A) (xs : List A) → Memᴰ y (insert_by x xs) → (y ≡ x) ⊎ Memᴰ y xs
  unfolding insert_by
  mem-insert_by x y [] m = Memᴰ.cases_cons m
  mem-insert_by x y (z ∷ xs) m = elim (insert_by-cases x z xs) [
    | inr stays ↦ Memᴰ.cases_cons (subst (Memᴰ y) (stays.1) m)
    | inl moves ↦
        ⊎_elim (λ e. inr (Memᴰ.head e))
          (λ later. ⊎_elim inl (λ n. inr (Memᴰ.tail n)) (mem-insert_by x y xs later))
          (Memᴰ.cases_cons (subst (Memᴰ y) (moves.1) m))
  ]

  module _ (le : A → A → Type 0) (trans : (x y z : A) → le x y → le y z → le x z)
      (behind : (x y : A) → cmp x y ≡ Ordering.gt → le y x)
      (before : (x y : A) → cmp x y ≢ Ordering.gt → le x y) where
    insert_by-IsSorted : (x : A) (xs : List A) → IsSorted le xs → IsSorted le (insert_by x xs)
    unfolding insert_by
    insert_by-IsSorted x [] s = (λ y m. absurd (Memᴰ.not-nil m), tt)
    insert_by-IsSorted x (y ∷ ys) s = elim (insert_by-cases x y ys) [
      | inr stays ↦ rw (stays.1) (
        λ z m.
            ⊎_elim (λ e. subst (le x) (sym e) (before x y (stays.0)))
              (λ later. trans x y z (before x y (stays.0)) (s.0 z later)) (Memᴰ.cases_cons m),
        s,
      )
      | inl moves ↦ rw (moves.1) (
        λ z m.
            ⊎_elim (λ e. subst (le y) (sym e) (behind x y (moves.0))) (s.0 z)
              (mem-insert_by x z ys m),
        insert_by-IsSorted x ys s.1,
      )
    ]

    pub sort_by-IsSorted : (xs : List A) → IsSorted le (sort_by xs)
    unfolding sort_by
    sort_by-IsSorted [] = tt
    sort_by-IsSorted (x ∷ xs) = insert_by-IsSorted x (sort_by xs) (sort_by-IsSorted xs)
