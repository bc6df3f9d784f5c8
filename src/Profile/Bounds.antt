-- ===== src/Profile/Bounds.antt =====
-- src/profile.c: the numbers of a profile stay in order where their sum fits a `guint`.
use memprof.Common.Table.{Table, total_mono}
use memprof.Profile.Functions.{
  func_report, total_bytes, self_bytes, all_bytes, profile_create-functions,
}
use memprof.Common.{
  has, All, Bool-cases, if◌then◌else◌, ◌==◌, arith, map, ◌∷◌, [], List, false, true, Bool, inr, inl,
  sym, ◌≡◌, ◌<◌, ◌≤◌, ℕ,
}
use mathlib.Core.Path.{subst}
use memprof.Profile.{profile_create, ProfileFunc, Profile}
use memprof.StackStash.{StackStash, walk}
use memprof.Block.{Blocks}
use memprof.Profile.Stacks.{innermost, calls}
use memprof.Common.Word.{u32_mod}

first_bit :
    (x y : Bool) (size : ℕ)
    → (if x then size else 0) ≤ (if (if x then true else y) then size else 0)
first_bit true y size = omega arith
first_bit false true size = omega arith
first_bit false false size = omega arith

innermost-calls :
    (symbol_at text : ℕ → ℕ) (skip : List ℕ) (s size : ℕ) (stack : List ℕ)
    → (if innermost symbol_at text skip s stack then size else 0)
      ≤ (if calls symbol_at text skip s stack then size else 0)
innermost-calls symbol_at text skip s size [] = omega arith
innermost-calls symbol_at text skip s size (a ∷ stack) =
    elim (Bool-cases (has (text (symbol_at a)) skip)) [
      | inl left_out ↦ rw left_out (innermost-calls symbol_at text skip s size stack)
      | inr kept ↦ rw kept (first_bit (symbol_at a == s) (calls symbol_at text skip s stack) size)
    ]

bit_le : (x : Bool) (size : ℕ) → (if x then size else 0) ≤ size
bit_le true size = omega arith
bit_le false size = omega arith

module _ (symbol_at : ℕ → ℕ) (text : ℕ → ℕ) (stash : StackStash) (skip : List ℕ) (h : Blocks)
    (table : Table ℕ) where
  self_le :
      (s : ℕ)
      → self_bytes symbol_at text stash skip h table s
        ≤ total_bytes symbol_at text stash skip h table s
  self_le s = total_mono _ _ table (λ b.
      innermost-calls symbol_at text skip s (h.cell b).size
        (walk stash.used stash (h.cell b).stack))

  total_le :
      (s : ℕ)
      → total_bytes symbol_at text stash skip h table s
        ≤ all_bytes symbol_at text stash skip h table
  total_le s = total_mono _ _ table (λ b.
      bit_le (calls symbol_at text skip s (walk stash.used stash (h.cell b).stack)) (h.cell b).size)

  abbrev pub InOrder : Profile → ProfileFunc → Type 0
  InOrder p func = (func.self ≤ func.total) × (func.total ≤ p.n_bytes)

  All-map-func_report :
      (P : ProfileFunc → Type 0) (t : Table ℕ)
      → ((e : ℕ × ℕ) → P (func_report symbol_at text stash skip h table e))
      → All P (map (func_report symbol_at text stash skip h table) t)
  All-map-func_report P [] all = tt
  All-map-func_report P (e ∷ t) all = (all e, All-map-func_report P t all)

  -- The sizes of the blocks in the table add up to less than 2 ^ 32. Then no number of the profile
  -- wraps around: `n_bytes` is their sum, and for every function `self` is at most `total` and `total` at
  -- most `n_bytes`, so that the percentages of `profile_write` are at most a hundred.
  pub profile_create-InOrder :
      all_bytes symbol_at text stash skip h table < u32_mod
      → ((profile_create symbol_at text stash skip h table).n_bytes
          ≡ all_bytes symbol_at text stash skip h table)
        × All
            (InOrder (profile_create symbol_at text stash skip h table))
            (profile_create symbol_at text stash skip h table).functions
  profile_create-InOrder small =
      let p = profile_create symbol_at text stash skip h table in
      let facts = profile_create-functions symbol_at text stash skip h table in
      let sum : p.n_bytes ≡ all_bytes symbol_at text stash skip h table =
        omega (arith, facts.2, small) in
      (
        sum,
        subst (All (InOrder p)) (sym facts.0) (
            All-map-func_report (InOrder p) p.nodes_by_symbol (λ e. (
              omega (arith, self_le e.0, total_le e.0, small),
              omega (arith, total_le e.0, small, sum),
            ))),
      )
