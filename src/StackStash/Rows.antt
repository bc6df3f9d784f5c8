-- ===== src/StackStash/Rows.antt =====
-- src/stackstash.c: the loop of `do_callback` over a row of siblings.
use mathlib.Core.List.Memᴰ
use mathlib.Core.List.{Memᴰ}
use mathlib.Core.Option.{none-ne-some, some-injective}
use memprof.StackStash.Unique.{siblings-InArena, siblings_bound, InChain, here, after, InArena}
use memprof.StackStash.Shape.{IsWellFormed}
use memprof.StackStash.Trace.{index_bound, parent_bound}
use memprof.Common.{
  ◌∙◌, Bool-cases, eq→==, ==→eq, ◌==◌, sym, arith, ◌++◌, ◌∷◌, [], List, some, none, Option, inr,
  inl, ◌⊎◌, ◌≢◌, ap, refl, ◌≡◌, ◌<◌, ◌≤◌, suc, zero, ℕ,
}
use mathlib.Core.Logic.{⊎_elim}
use memprof.StackStash.{walk, callback_row, StackStash}
use mathlib.Core.Path.{subst}

-- A walk does not depend on its fuel, where that is enough.
pub walk-enough :
    (f g : ℕ) (s : StackStash) (p : Option ℕ)
    → IsWellFormed s
    → index_bound p ≤ s.used
    → index_bound p ≤ f
    → index_bound p ≤ g
    → walk f s p ≡ walk g s p
unfolding walk
walk-enough zero zero s none w u a b = refl
walk-enough zero (suc g) s none w u a b = refl
walk-enough (suc f) zero s none w u a b = refl
walk-enough (suc f) (suc g) s none w u a b = refl
walk-enough zero g s (some n) w u a b = absurd (omega arith)
walk-enough (suc f) zero s (some n) w u a b = absurd (omega arith)
walk-enough (suc f) (suc g) s (some n) w u a b =
    let bound = parent_bound s n w (omega arith) in
    ap (λ l. (s.node n).address ∷ l)
      (walk-enough f g s (s.node n).parent w (omega (arith, bound)) (omega (arith, bound))
        (omega (arith, bound)))

-- A call of the callback for a node: its stack and its size.
abbrev pub stack_of : StackStash → Option ℕ → List ℕ
stack_of s p = walk s.used s p

pub stack_of-none : (s : StackStash) → stack_of s none ≡ []
unfolding walk
stack_of-none s = none_walk s.used
  where
    none_walk : (f : ℕ) → walk f s none ≡ []
    none_walk zero = refl
    none_walk (suc f) = refl

pub stack_of-some :
    (s : StackStash) (n : ℕ)
    → IsWellFormed s
    → n < s.used
    → (s.node n).address ∷ stack_of s (s.node n).parent ≡ stack_of s (some n)
unfolding walk
stack_of-some s n w lt =
    let bound = parent_bound s n w lt in
    walk-enough (suc s.used) s.used s (some n) w (omega arith) (omega arith) (omega arith)

abbrev pub IsCall : StackStash → List ℕ × ℕ → Type 0
IsCall s (trace, size) =
    (n : ℕ) × (n < s.used) × (stack_of s (some n) ≡ trace) × ((s.node n).size ≡ size) × (size ≢ 0)

module _ (s : StackStash) (w : IsWellFormed s)
    (descend : Option ℕ → List ℕ → List (List ℕ × ℕ)) where
  -- What the loop does for a node.
  abbrev pub Given : ℕ → List ℕ → List ℕ × ℕ → Type 0
  Given n trace call =
      ((call ≡ ((s.node n).address ∷ trace, (s.node n).size)) × ((s.node n).size ≢ 0))
      ⊎ Memᴰ call (descend (s.node n).children ((s.node n).address ∷ trace))

  row_cases :
      (f n : ℕ) (trace : List ℕ) (call : List ℕ × ℕ)
      → Memᴰ call (callback_row descend (suc f) s (some n) trace)
      → Given n trace call ⊎ Memᴰ call (callback_row descend f s (s.node n).siblings trace)
  unfolding callback_row
  row_cases f n trace call m =
      let link = (s.node n).address ∷ trace in
      let below = descend (s.node n).children link in
      let later = callback_row descend f s (s.node n).siblings trace in
      let in_rest : Memᴰ call (below ++ later) → Given n trace call ⊎ Memᴰ call later =
        λ r. ⊎_elim (λ b. inl (inr b)) inr (Memᴰ.append_cases below r) in
      elim (Bool-cases ((s.node n).size == 0)) [
        | inl empty ↦ in_rest (rw empty at m)
        | inr full ↦
            ⊎_elim (λ e. inl (inl (e, λ z. ground (arith, full, eq→== _ _ z)))) in_rest
              (Memᴰ.cases_cons (rw full at m))
      ]

  row_given :
      (f n : ℕ) (trace : List ℕ) (call : List ℕ × ℕ)
      → Given n trace call
      → Memᴰ call (callback_row descend (suc f) s (some n) trace)
  unfolding callback_row
  row_given f n trace call given = elim (Bool-cases ((s.node n).size == 0)) [
    | inl empty ↦ rw empty (elim given [
      | inl (e, positive) ↦ absurd (positive (==→eq _ _ empty))
      | inr below ↦ Memᴰ.append_left _ below
    ])
    | inr full ↦ rw full (elim given [
      | inl (e, positive) ↦ Memᴰ.head e
      | inr below ↦ Memᴰ.tail (Memᴰ.append_left _ below)
    ])
  ]

  row_later :
      (f n : ℕ) (trace : List ℕ) (call : List ℕ × ℕ)
      → Memᴰ call (callback_row descend f s (s.node n).siblings trace)
      → Memᴰ call (callback_row descend (suc f) s (some n) trace)
  unfolding callback_row
  row_later f n trace call later = elim (Bool-cases ((s.node n).size == 0)) [
    | inl empty ↦ rw empty (Memᴰ.append_right _ later)
    | inr full ↦ rw full (Memᴰ.tail (Memᴰ.append_right _ later))
  ]

  pub row_complete :
      (f n : ℕ) (trace : List ℕ) (p : Option ℕ) (call : List ℕ × ℕ)
      → InArena s p
      → index_bound p ≤ f
      → InChain s p n
      → Given n trace call
      → Memᴰ call (callback_row descend f s p trace)
  row_complete f n trace none call arena le (here e) given = absurd (none-ne-some _ e)
  row_complete f n trace none call arena le (after e c) given = absurd (none-ne-some _ e)
  row_complete zero n trace (some m) call arena le c given = absurd (omega arith)
  row_complete (suc f) n trace (some m) call arena le (here e) given =
      subst (λ j. Memᴰ call (callback_row descend (suc f) s (some j) trace))
        (sym (some-injective _ _ e)) (row_given f n trace call given)
  row_complete (suc f) n trace (some m) call arena le (after {q = q} e c) given =
      let m_lt = arena m refl in
      let c' : InChain s (s.node m).siblings n =
        subst (λ x. InChain s (s.node x).siblings n) (sym (some-injective _ _ e)) c in
      row_later f m trace call (
        row_complete f n trace (s.node m).siblings call (siblings-InArena s m w m_lt)
          (omega (arith, le, siblings_bound s m w m_lt)) c' given)

  -- All that the loop gives on is a call for a node.
  pub row_sound :
      (f : ℕ) (p o : Option ℕ) (call : List ℕ × ℕ)
      → ((n : ℕ)
          → n < s.used
          → Memᴰ call (descend (s.node n).children (stack_of s (some n)))
          → IsCall s call)
      → ((n : ℕ) → p ≡ some n → (n < s.used) × ((s.node n).parent ≡ o))
      → Memᴰ call (callback_row descend f s p (stack_of s o))
      → IsCall s call
  unfolding callback_row
  row_sound zero p o call deeper at m = absurd (Memᴰ.not-nil m)
  row_sound (suc f) none o call deeper at m = absurd (Memᴰ.not-nil m)
  row_sound (suc f) (some n) o call deeper at m =
      let (lt, up) = at n refl in
      let link : (s.node n).address ∷ stack_of s o ≡ stack_of s (some n) =
        subst (λ q. (s.node n).address ∷ stack_of s q ≡ stack_of s (some n)) up
          (stack_of-some s n w lt) in
      elim (row_cases f n (stack_of s o) call m) [
        | inl (inl (e, positive)) ↦ subst (IsCall s) (sym e) (n, lt, sym link, refl, positive)
        | inl (inr below) ↦
            deeper n lt (subst (λ t. Memᴰ call (descend (s.node n).children t)) link below)
        | inr later ↦
            row_sound f (s.node n).siblings o call deeper
              (λ q e.
                (omega (arith, (w.sibling_lt n q lt e).0, lt), (w.sibling_lt n q lt e).1 ∙ up))
              later
      ]
