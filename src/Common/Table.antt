-- ===== src/Common/Table.antt =====
-- A GHashTable with number keys (pids, addresses): an association list in which `insert` replaces.
-- No theorem depends on the order in which the real table is walked, unless it says so.
use memprof.Common.{
  ◌≤◌, All, Bool-cases, ==→eq, inr, inl, ◌+◌, ◌==◌, arith, ◌∷◌, [], List, some, none, Option, refl,
  ◌≡◌, ℕ, if◌then◌else◌,
}
use mathlib.Core.Path.{subst}

abbrev pub Table {ℓ} : Type ℓ → Type ℓ
Table A = List (ℕ × A)

module _ {ℓ} {A : Type ℓ} where
  unfoldable pub lookup : ℕ → Table A → Option A
  lookup k [] = none
  lookup k ((j, v) ∷ t) = if j == k then some v else lookup k t

  unfoldable pub insert : ℕ → A → Table A → Table A
  insert k v [] = (k, v) ∷ []
  insert k v ((j, w) ∷ t) = if j == k then (k, v) ∷ t else (j, w) ∷ insert k v t

  unfoldable pub remove : ℕ → Table A → Table A
  remove k [] = []
  remove k ((j, w) ∷ t) = if j == k then t else (j, w) ∷ remove k t

  -- The keys are distinct.
  abbrev pub IsTable : Table A → Type ℓ
  IsTable [] = Unit {ℓ}
  IsTable ((j, v) ∷ t) = (lookup j t ≡ none) × IsTable t

  pub lookup-insert :
      (k j : ℕ) (v : A) (t : Table A)
      → lookup j (insert k v t) ≡ (if k == j then some v else lookup j t)
  unfolding lookup insert
  lookup-insert k j v [] = refl
  lookup-insert k j v ((i, w) ∷ t) = ground (arith, lookup-insert k j v t)

  pub lookup-remove :
      (k j : ℕ) (t : Table A)
      → IsTable t
      → lookup j (remove k t) ≡ (if k == j then none else lookup j t)
  unfolding lookup remove
  lookup-remove k j [] h = ground arith
  lookup-remove k j ((i, w) ∷ t) h = ground (arith, lookup-remove k j t h.1)

  pub insert-IsTable : (k : ℕ) (v : A) (t : Table A) → IsTable t → IsTable (insert k v t)
  unfolding lookup insert
  insert-IsTable k v [] h = ground arith
  insert-IsTable k v ((i, w) ∷ t) h =
      ground (arith, lookup-insert k i v t, insert-IsTable k v t h.1)

  pub remove-IsTable : (k : ℕ) (t : Table A) → IsTable t → IsTable (remove k t)
  unfolding lookup remove
  remove-IsTable k [] h = h
  remove-IsTable k ((i, w) ∷ t) h = ground (arith, lookup-remove k i t h.1, remove-IsTable k t h.1)

  -- Every entry satisfies `P`.
  pub All-insert {κ} :
      (P : ℕ × A → Type κ) (k : ℕ) (v : A) (t : Table A) → P (k, v) → All P t → All P (insert k v t)
  unfolding insert
  All-insert P k v [] p h = (p, tt)
  All-insert P k v ((i, w) ∷ t) p h = elim (Bool-cases (i == k)) [
    | inl same ↦ rw (same, insert) (p, h.1)
    | inr other ↦ rw (other, insert) (h.0, All-insert P k v t p h.1)
  ]

  pub All-remove {κ} : (P : ℕ × A → Type κ) (k : ℕ) (t : Table A) → All P t → All P (remove k t)
  unfolding remove
  All-remove P k [] h = h
  All-remove P k ((i, w) ∷ t) h = elim (Bool-cases (i == k)) [
    | inl same ↦ rw (same, remove) h.1
    | inr other ↦ rw (other, remove) (h.0, All-remove P k t h.1)
  ]

  pub All-lookup {κ} :
      (P : ℕ × A → Type κ) (k : ℕ) (v : A) (t : Table A) → All P t → lookup k t ≡ some v → P (k, v)
  unfolding lookup
  All-lookup P k v [] h e = cc
  All-lookup P k v ((i, w) ∷ t) h e = elim (Bool-cases (i == k)) [
    | inl same ↦
        let ek : i ≡ k = ==→eq i k same in
        let ev : w ≡ v = ground arith in subst (λ x. P (k, x)) ev (subst (λ x. P (x, w)) ek h.0)
    | inr other ↦ All-lookup P k v t h.1 (ground arith)
  ]

  -- A sum over the entries.
  unfoldable pub total : (A → ℕ) → Table A → ℕ
  total f [] = 0
  total f ((i, w) ∷ t) = f w + total f t

  pub total-insert :
      (f : A → ℕ) (k : ℕ) (v : A) (t : Table A)
      → lookup k t ≡ none
      → total f (insert k v t) ≡ total f t + f v
  unfolding total insert lookup
  total-insert f k v [] e = omega arith
  total-insert f k v ((i, w) ∷ t) e = ground (arith, total-insert f k v t)

  pub total-remove :
      (f : A → ℕ) (k : ℕ) (v : A) (t : Table A)
      → lookup k t ≡ some v
      → total f (remove k t) + f v ≡ total f t
  unfolding total remove lookup
  total-remove f k v [] e = cc
  total-remove f k v ((i, w) ∷ t) e = ground (arith, total-remove f k v t)

  -- The sum depends on the values of the entries only.
  pub total-cong : (f g : A → ℕ) (t : Table A) → All (λ e. f e.1 ≡ g e.1) t → total f t ≡ total g t
  unfolding total
  total-cong f g [] h = refl
  total-cong f g ((i, w) ∷ t) h = omega (arith, h.0, total-cong f g t h.1)

  pub total_mono : (f g : A → ℕ) (t : Table A) → ((a : A) → f a ≤ g a) → total f t ≤ total g t
  unfolding total
  total_mono f g [] le = omega arith
  total_mono f g ((i, w) ∷ t) le = omega (arith, le w, total_mono f g t le)

  pub All-map {κ κ'} :
      (P : ℕ × A → Type κ) (Q : ℕ × A → Type κ') (t : Table A)
      → ((e : ℕ × A) → P e → Q e)
      → All P t
      → All Q t
  All-map P Q [] f h = tt
  All-map P Q (e ∷ t) f h = (f e h.0, All-map P Q t f h.1)
