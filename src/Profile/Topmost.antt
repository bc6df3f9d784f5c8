-- ===== src/Profile/Topmost.antt =====
-- src/profile.c: the loop for the topmost pair of `profile_func_create_caller_list` follows no NULL.
use memprof.Common.{
  none, ◌==◌, Option-cases, Bool-cases, some, Option, inr, inl, refl, ◌≡◌, suc, zero, ℕ,
}
use memprof.Profile.{ProfileNode}
use memprof.Profile.Callers.{topmost}
use memprof.Common.Outcome.{done}

module _ (node : ℕ → ProfileNode) where
  -- The pair that the loop compares with has a caller, so the loop follows no NULL.
  topmost-done :
      (g start c : ℕ) (o : Option ℕ) (callee : ℕ)
      → (pair : Option ℕ × ℕ) × (topmost g node start o (some c) callee ≡ done pair)
  unfolding topmost
  topmost-done zero start c o callee = ((some c, callee), refl)
  topmost-done (suc g) start c none callee = ((some c, callee), refl)
  topmost-done (suc g) start c (some n) callee = elim (Option-cases (node n).parent) [
    | inl top ↦ ((some c, callee), rw (top, topmost) refl)
    | inr (up, there) ↦ elim (Bool-cases ((node n).symbol == (node start).symbol)) [
      | inr other ↦
          let (pair, e) = topmost-done g start c (some up) callee in
          (pair, rw (there, other, topmost) e)
      | inl here ↦ elim (Bool-cases ((node up).symbol == (node c).symbol)) [
        | inr apart ↦
            let (pair, e) = topmost-done g start c (some up) callee in
            (pair, rw (there, here, apart, topmost) e)
        | inl both ↦
            let (pair, e) = topmost-done g start up (some up) n in
            (pair, rw (there, here, both, topmost) e)
      ]
    ]
  ]

  -- The loop begins at the caller itself, and does not run where there is none.
  pub topmost_begun :
      (g n : ℕ) (o : Option ℕ) → (pair : Option ℕ × ℕ) × (topmost g node n o o n ≡ done pair)
  unfolding topmost
  topmost_begun zero n o = ((o, n), refl)
  topmost_begun (suc g) n none = ((none, n), refl)
  topmost_begun (suc g) n (some c) = topmost-done (suc g) n c (some c) n
