-- ===== src/Profile/Output.antt =====
-- src/profile.c: the sorted lists of functions and the callers that `output_callers` prints.
use mathlib.Core.List.Perm
use mathlib.Core.List.Memᴰ
use mathlib.Core.List.{Perm, Memᴰ}
use memprof.Common.Sort.{sort_by, IsSorted, sort_by-IsSorted, sort_by-Perm}
use mathlib.Core.List.Perm
use mathlib.Core.List.Memᴰ
use mathlib.Core.List.{Perm, Memᴰ}
use native.Mathlib.Bridge.{le_prop}
use mathlib.Core.Logic.{∥∥₁_elim}
use native.Mathlib.Nat.{div-lt_iff_lt-mul}
use Prim.Native.Nat.{Ordering, compare}
use memprof.Common.{
  sym, Bool-cases, ltb→le, ltb→lt, not, false, true, Bool, inr, inl, ◌∙◌, ap, All, if◌then◌else◌,
  ◌==◌, leb, ltb, arith, ◌∷◌, [], List, Option, refl, ◌≡◌, ◌<◌, ◌≤◌, ◌/◌, ◌*◌, ℕ,
}
use memprof.Profile.{ProfileFunc, ProfileNode}
use memprof.Profile.Callers.{profile_func_create_caller_list}
use memprof.Common.Word.{wrap32, u32_mod}
use memprof.Common.Outcome.{◌>>=◌, done, Outcome, aborted}
use mathlib.Core.Path.{subst}

-- As `g_ptr_array_sort` uses it: the greater total comes first.
unfoldable pub compare_profile_funcs : ProfileFunc → ProfileFunc → Ordering
compare_profile_funcs a b = compare b.total a.total

unfoldable pub create_sorted_profile_funcs : List ProfileFunc → List ProfileFunc
unfolding compare_profile_funcs
create_sorted_profile_funcs funcs = sort_by compare_profile_funcs funcs

-- A line of `output_callers`; the name is that of the symbol of the node.
pub record CallerLine : Type 0 where
  pub self : ℕ
  pub total : ℕ
  pub percent : ℕ
  pub node : Option ℕ

-- `(part * 100) / whole`, which traps where `whole` is 0.
unfoldable pub percent_of : ℕ → ℕ → Outcome ℕ
percent_of part whole = if whole == 0 then aborted else done (wrap32 (part * 100) / whole)

-- The `for` loop of `output_callers`.
unfoldable pub caller_lines : ℕ → List ProfileFunc → Outcome (List CallerLine)
unfolding percent_of
caller_lines whole [] = done []
caller_lines whole (x ∷ callers) =
    let rest = caller_lines whole callers in
    percent_of x.total whole >>= (λ percent. rest >>= (λ lines. done (
      if ltb percent 1
      then lines
      else record { self = x.self; total = x.total; percent = percent; node = x.node } ∷ lines)))

unfoldable pub output_callers : ℕ → (ℕ → ProfileNode) → ProfileFunc → Outcome (List CallerLine)
unfolding create_sorted_profile_funcs caller_lines
output_callers f node func =
    profile_func_create_caller_list f node func
    >>= (λ callers. caller_lines func.total (create_sorted_profile_funcs callers))

abbrev pub NotBelow : ProfileFunc → ProfileFunc → Type 0
NotBelow a b = b.total ≤ a.total

pub create_sorted_profile_funcs-IsSorted :
    (funcs : List ProfileFunc) → IsSorted NotBelow (create_sorted_profile_funcs funcs)
unfolding create_sorted_profile_funcs compare_profile_funcs
create_sorted_profile_funcs-IsSorted funcs =
    sort_by-IsSorted compare_profile_funcs NotBelow (λ x y z p q. omega (arith, p, q))
      (λ x y e. ground arith) (λ x y e. ground arith) funcs

create_sorted_profile_funcs-Perm :
    (funcs : List ProfileFunc) → Perm (create_sorted_profile_funcs funcs) funcs
unfolding create_sorted_profile_funcs
create_sorted_profile_funcs-Perm funcs = sort_by-Perm compare_profile_funcs funcs

-- The callers with at least a hundredth of the bytes, with their share.
abbrev pub shares : ℕ → List ProfileFunc → List CallerLine
shares whole [] = []
shares whole (x ∷ callers) =
    if leb whole (x.total * 100)
    then record { self = x.self; total = x.total; percent = x.total * 100 / whole; node = x.node }
      ∷ shares whole callers
    else shares whole callers

-- Where no hundredfold wraps around.
abbrev pub IsSmall : ProfileFunc → Type 0
IsSmall x = x.total * 100 < u32_mod

IsSmall-of_mem : (xs : List ProfileFunc) (x : ProfileFunc) → All IsSmall xs → Memᴰ x xs → IsSmall x
IsSmall-of_mem [] x all m = absurd (Memᴰ.not-nil m)
IsSmall-of_mem (y ∷ xs) x all (Memᴰ.head e) = subst IsSmall (sym e) all.0
IsSmall-of_mem (y ∷ xs) x all (Memᴰ.tail m) = IsSmall-of_mem xs x all.1 m

All-of_mem : (xs : List ProfileFunc) → ((x : ProfileFunc) → Memᴰ x xs → IsSmall x) → All IsSmall xs
All-of_mem [] h = tt
All-of_mem (x ∷ xs) h = (h x (Memᴰ.head refl), All-of_mem xs (λ y m. h y (Memᴰ.tail m)))

All-Perm : (xs ys : List ProfileFunc) → Perm xs ys → All IsSmall ys → All IsSmall xs
All-Perm xs ys perm all =
    All-of_mem xs (λ x m. ∥∥₁_elim ((Perm.mem_iff perm).0 ∣ m ∣₁) le_prop (IsSmall-of_mem ys x all))

percent_of-exact :
    (part whole : ℕ)
    → 0 < whole
    → part * 100 < u32_mod
    → percent_of part whole ≡ done (part * 100 / whole)
unfolding percent_of
percent_of-exact part whole pos small =
    let full : whole == 0 ≡ false = ground arith in
    let exact : wrap32 (part * 100) ≡ part * 100 = omega arith in rw (full, exact, percent_of) refl

-- A quotient is below 1 exactly if the whole is greater.
below_one : (t whole : ℕ) → 0 < whole → ltb (t / whole) 1 ≡ not (leb whole t)
below_one t whole pos = elim (Bool-cases (ltb (t / whole) 1)) [
  | inl below ↦
      let lt : t < 1 * whole = (div-lt_iff_lt-mul pos).0 (ltb→lt (t / whole) 1 below) in
      let above : leb whole t ≡ false = ground arith in rw (below, above) refl
  | inr not_below ↦
      let ge : whole ≤ t = elim (Bool-cases (ltb t whole)) [
        | inr more ↦ ltb→le t whole more
        | inl less ↦ absurd (
            let small : t / whole < 1 =
              (div-lt_iff_lt-mul pos).1 (omega (arith, ltb→lt t whole less)) in
            omega (arith, small, ltb→le (t / whole) 1 not_below))
      ] in
      let within : leb whole t ≡ true = ground arith in rw (not_below, within) refl
]

not_if {ℓ} : {A : Type ℓ} (b : Bool) (x y : A) → (if not b then x else y) ≡ (if b then y else x)
not_if true x y = refl
not_if false x y = refl

caller_lines-shares :
    (whole : ℕ) (callers : List ProfileFunc)
    → 0 < whole
    → All IsSmall callers
    → caller_lines whole callers ≡ done (shares whole callers)
unfolding caller_lines percent_of
caller_lines-shares whole [] pos small = refl
caller_lines-shares whole (x ∷ callers) pos small =
    let line : CallerLine = record {
      self = x.self;
      total = x.total;
      percent = x.total * 100 / whole;
      node = x.node;
    } in
    rw (percent_of-exact x.total whole pos small.0, caller_lines-shares whole callers pos small.1)
      (ap (λ b. done (if b then shares whole callers else line ∷ shares whole callers))
          (below_one (x.total * 100) whole pos)
        ∙ ap done (
            not_if (leb whole (x.total * 100)) (shares whole callers)
              (line ∷ shares whole callers)))

-- The function has bytes, and no caller has so many that a hundred times as many wrap around a `guint`. Then
-- `output_callers` sorts the callers by their bytes, the greatest first, loses none, and prints exactly
-- those with at least a hundredth of the bytes of the function, each with its exact percentage.
pub output_callers-shares :
    (f : ℕ) (node : ℕ → ProfileNode) (func : ProfileFunc) (callers : List ProfileFunc)
    → profile_func_create_caller_list f node func ≡ done callers
    → 0 < func.total
    → All IsSmall callers
    → (sorted : List ProfileFunc) × (output_callers f node func ≡ done (shares func.total sorted))
      × IsSorted NotBelow sorted
      × Perm sorted callers
unfolding output_callers
output_callers-shares f node func callers listed pos small =
    let sorted = create_sorted_profile_funcs callers in
    let perm = create_sorted_profile_funcs-Perm callers in
    (
      sorted,
      rw (listed, output_callers)
          (caller_lines-shares func.total sorted pos (All-Perm sorted callers perm small)),
      create_sorted_profile_funcs-IsSorted callers,
      perm,
    )
