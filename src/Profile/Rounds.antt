-- ===== src/Profile/Rounds.antt =====
-- src/profile.c: the loop of `profile_add_stack_trace` over a stack.
use memprof.Profile.Traces.{IsMatched, old-IsMatched, new-IsMatched, counted-IsTree, counted-Above}
use memprof.Profile.Trees.{IsTree, Stands, Above}
use memprof.Common.{
  ◌∙◌, ◌<◌, ==→eq, some, true, ap, refl, Option-cases, Bool-cases, if◌then◌else◌, ◌==◌, arith, ◌∷◌,
  [], List, Option, ◌&&◌, not, false, Bool, inr, inl, ◌≡◌, ◌+◌, ℕ, has,
}
use mathlib.Core.Option.{some-injective}
use memprof.Profile.{
  add_bytes, trace_rounds, under, find_match, is_nil, match_at, Profile, Level, read_level,
}
use memprof.Common.Word.{wrap32}
use memprof.Profile.Sums.{total_sum-add_bytes, self_sum-add_bytes, total_sum, self_sum}
use mathlib.Core.Path.{subst}

-- The last symbol is `s`.
abbrev pub ends_in : ℕ → List ℕ → Bool
ends_in s [] = false
ends_in s (t ∷ []) = t == s
ends_in s (t ∷ u ∷ rest) = ends_in s (u ∷ rest)

-- What a stack adds to a function that has been met on the way or not.
abbrev pub first_bytes : ℕ → List ℕ → List ℕ → ℕ → ℕ
first_bytes s seen rest size = if has s rest && not (has s seen) then size else 0

abbrev pub last_bytes : ℕ → List ℕ → ℕ → ℕ
last_bytes s rest size = if ends_in s rest then size else 0

pub match_at-IsMatched :
    (p : Profile) (level : Level) (parent : Option ℕ) (seen : List ℕ) (symbol : ℕ)
    → IsTree p
    → Stands p level parent
    → Above p.node parent seen
    → IsMatched p seen symbol
        (match_at p level parent seen symbol).0
        (match_at p level parent seen symbol).1
unfolding match_at
match_at-IsMatched p level parent seen symbol tree stands above =
    elim (Option-cases (find_match p.node (read_level p level) symbol)) [
      | inl missing ↦
          rw (missing, match_at) (new-IsMatched p level parent seen symbol tree stands above)
      | inr (m, found) ↦
          rw (found, match_at) (old-IsMatched p level parent seen symbol tree stands above m found)
    ]

bits_round :
    (a b c size : ℕ) (here met later : Bool)
    → wrap32 a ≡ wrap32 (b + (if here && not met then size else 0))
    → wrap32 c ≡ wrap32 (a + (if later && not (if here then true else met) then size else 0))
    → wrap32 c ≡ wrap32 (b + (if (if here then true else later) && not met then size else 0))
bits_round a b c size true true true e f = omega (arith, e, f)
bits_round a b c size true true false e f = omega (arith, e, f)
bits_round a b c size true false true e f = omega (arith, e, f)
bits_round a b c size true false false e f = omega (arith, e, f)
bits_round a b c size false true true e f = omega (arith, e, f)
bits_round a b c size false true false e f = omega (arith, e, f)
bits_round a b c size false false true e f = omega (arith, e, f)
bits_round a b c size false false false e f = omega (arith, e, f)

met_here :
    (s symbol : ℕ) (seen : List ℕ)
    → (symbol == s && not (has symbol seen)) ≡ (symbol == s && not (has s seen))
met_here s symbol seen = elim (Bool-cases (symbol == s)) [
  | inl here ↦ ap (λ t. symbol == s && not (has t seen)) (==→eq symbol s here)
  | inr other ↦ cc
]

last_round :
    (s symbol a b c size : ℕ) (rest : List ℕ)
    → wrap32 a ≡ wrap32 (b + (if is_nil rest && (symbol == s) then size else 0))
    → wrap32 c ≡ wrap32 (a + last_bytes s rest size)
    → wrap32 c ≡ wrap32 (b + last_bytes s (symbol ∷ rest) size)
last_round s symbol a b c size [] e f = omega (arith, e, f)
last_round s symbol a b c size (t ∷ rest) e f = omega (arith, e, f)

module _ (p : Profile) (seen : List ℕ) (symbol : ℕ) (q : Profile) (m size : ℕ) (last : Bool) (s : ℕ)
    (matched : IsMatched p seen symbol q m) where
  match_total :
      wrap32 (total_sum s (add_bytes q m size last))
      ≡ wrap32 (total_sum s p + (if symbol == s && not (has s seen) then size else 0))
  match_total =
      let grow = total_sum-add_bytes q m size last s matched.lt in
      grow
      ∙ ap (λ x. wrap32 (x + (if (q.node m).symbol == s && (q.node m).toplevel then size else 0)))
          (matched.total_same s)
      ∙ ap (λ x. wrap32 (total_sum s p + (if x == s && (q.node m).toplevel then size else 0)))
          matched.at
      ∙ ap (λ b. wrap32 (total_sum s p + (if symbol == s && b then size else 0))) matched.toplevel
      ∙ ap (λ b. wrap32 (total_sum s p + (if b then size else 0))) (met_here s symbol seen)

  match_self :
      wrap32 (self_sum s (add_bytes q m size last))
      ≡ wrap32 (self_sum s p + (if last && (symbol == s) then size else 0))
  match_self =
      self_sum-add_bytes q m size last s matched.lt
      ∙ ap (λ x. wrap32 (x + (if last && ((q.node m).symbol == s) then size else 0)))
          (matched.self_same s)
      ∙ ap (λ x. wrap32 (self_sum s p + (if last && (x == s) then size else 0))) matched.at

-- The rounds that are left add the size to `total` of a function that comes in them for the first time,
-- and to `self` of the last.
pub trace_rounds-sums :
    (rest : List ℕ) (size : ℕ) (p : Profile) (level : Level) (parent : Option ℕ) (seen : List ℕ)
    → IsTree p
    → Stands p level parent
    → Above p.node parent seen
    → IsTree (trace_rounds rest size p level parent seen)
      × ((s : ℕ)
          → (wrap32 (total_sum s (trace_rounds rest size p level parent seen))
              ≡ wrap32 (total_sum s p + first_bytes s seen rest size))
            × (wrap32 (self_sum s (trace_rounds rest size p level parent seen))
                ≡ wrap32 (self_sum s p + last_bytes s rest size)))
unfolding trace_rounds
trace_rounds-sums [] size p level parent seen tree stands above =
    (tree, λ s. (omega arith, omega arith))
trace_rounds-sums (symbol ∷ rest) size p level parent seen tree stands above =
    let q = (match_at p level parent seen symbol).0 in
    let m = (match_at p level parent seen symbol).1 in
    let matched = match_at-IsMatched p level parent seen symbol tree stands above in
    let counted = add_bytes q m size (is_nil rest) in
    let (tree', sums) =
      trace_rounds-sums rest size counted (under m) (some m) (symbol ∷ seen)
        (counted-IsTree q m size (is_nil rest) matched.tree) (refl, matched.lt)
        (counted-Above q m size (is_nil rest) matched.tree (some m) (symbol ∷ seen)
          (λ n e. subst (λ j. j < q.used) (some-injective _ _ e) matched.lt) matched.above) in
    (
      tree',
      λ s. (
        bits_round (total_sum s counted) (total_sum s p) _ size (symbol == s) (has s seen)
            (has s rest) (match_total p seen symbol q m size (is_nil rest) s matched) (sums s).0,
        last_round s symbol (self_sum s counted) (self_sum s p) _ size rest
            (match_self p seen symbol q m size (is_nil rest) s matched) (sums s).1,
      ),
    )
