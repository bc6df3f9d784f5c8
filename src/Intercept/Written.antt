-- ===== src/Intercept/Written.antt =====
-- lib/memintercept-utils.c: what is written is what was given.
-- The value of a string of digits.
use memprof.Common.{
  false, All, take, length, ◌++◌, true, Bool, refl, ◌∙◌, ap, sym, if◌then◌else◌, ltb, arith, ◌∷◌,
  [], List, ◌≡◌, ◌≤◌, ◌*◌, ◌-◌, ◌+◌, suc, zero, ℕ,
}
use memprof.Intercept.Output.{failed, wrote, drop, write_all, interrupted, Reply}
use memprof.Common.Outcome.{>>=-eq_done, done-injective, done, ◌>>=◌}
use mathlib.Core.List.{append_assoc}

unfoldable char_digit : ℕ → ℕ
char_digit c = if ltb c 58 then c - 48 else c - 87

unfoldable pub read_digits : ℕ → ℕ → List ℕ → ℕ
unfolding char_digit
read_digits radix value [] = value
read_digits radix value (c ∷ cs) = read_digits radix (value * radix + char_digit c) cs

write_all_nil : (replies : List Reply) → write_all replies [] ≡ done (true, [])
unfolding write_all
write_all_nil [] = refl
write_all_nil (r ∷ replies) = refl

take-drop : (n : ℕ) (xs : List ℕ) → take n xs ++ drop n xs ≡ xs
take-drop zero xs = refl
take-drop (suc n) [] = refl
take-drop (suc n) (x ∷ xs) = ap (λ ys. x ∷ ys) (take-drop n xs)

length-drop : (n : ℕ) (xs : List ℕ) → length (drop n xs) ≤ length xs
length-drop zero xs = omega arith
length-drop (suc n) [] = omega arith
length-drop (suc n) (x ∷ xs) = omega (arith, length-drop n xs)

-- A call that made progress.
abbrev pub Progress : Reply → Type 0
Progress r = (n : ℕ) × (r ≡ wrote (suc n))

-- When every call of `write` or `send` takes at least one byte, as many calls as there are bytes are
-- enough: `write_all` and `mi_write` return 1, and all bytes are written, in order.
pub write_all_complete :
    (replies : List Reply) (buf : List ℕ)
    → All Progress replies
    → length buf ≤ length replies
    → write_all replies buf ≡ done (true, buf)
unfolding write_all
write_all_complete replies [] ok enough = write_all_nil replies
write_all_complete [] (b ∷ buf) ok enough = absurd (omega arith)
write_all_complete (wrote (suc n) ∷ replies) (b ∷ buf) ok enough =
    ap (λ m. m >>= (λ r. done (r.0, b ∷ take n buf ++ r.1)))
      (write_all_complete replies (drop n buf) ok.1 (omega (arith, length-drop n buf, enough)))
    ∙ ap (λ out. done (true, b ∷ out)) (take-drop n buf)
write_all_complete (wrote zero ∷ replies) (b ∷ buf) ok enough = absurd (cc (ok.0.1))
write_all_complete (interrupted ∷ replies) (b ∷ buf) ok enough = absurd (cc (ok.0.1))
write_all_complete (failed ∷ replies) (b ∷ buf) ok enough = absurd (cc (ok.0.1))

stopped-prefix :
    (b : ℕ) (buf : List ℕ) (ok : Bool) (out : List ℕ)
    → let none_out : Bool × List ℕ = (false, []) in
      none_out ≡ (ok, out)
      → ((rest : List ℕ) × (out ++ rest ≡ b ∷ buf)) × (ok ≡ true → out ≡ b ∷ buf)
stopped-prefix b buf ok out e = (
  (b ∷ buf, ap (λ x. x ++ b ∷ buf) (sym (ap (λ r. r.1) e))),
  λ yes. absurd (cc (ap (λ r. r.0) e, yes)),
)

-- Whatever the calls return: what `write_all` and `mi_write` wrote is a prefix of the bytes, and if
-- they return 1 it is all of them.
pub write_all-prefix :
    (replies : List Reply) (buf : List ℕ) (ok : Bool) (out : List ℕ)
    → write_all replies buf ≡ done (ok, out)
    → ((rest : List ℕ) × (out ++ rest ≡ buf)) × (ok ≡ true → out ≡ buf)
unfolding write_all
write_all-prefix replies [] ok out e =
    let none_out : out ≡ [] = ap (λ r. r.1) (done-injective (sym e ∙ write_all_nil replies)) in
    (([], ap (λ x. x ++ []) none_out), λ yes. none_out)
write_all-prefix [] (b ∷ buf) ok out e = cc
write_all-prefix (interrupted ∷ replies) (b ∷ buf) ok out e =
    write_all-prefix replies (b ∷ buf) ok out e
write_all-prefix (failed ∷ replies) (b ∷ buf) ok out e =
    stopped-prefix b buf ok out (done-injective e)
write_all-prefix (wrote zero ∷ replies) (b ∷ buf) ok out e =
    stopped-prefix b buf ok out (done-injective e)
write_all-prefix (wrote (suc n) ∷ replies) (b ∷ buf) ok out e =
    let (r, first, last) = >>=-eq_done (write_all replies (drop n buf)) _ e in
    let (before, all) = write_all-prefix replies (drop n buf) r.0 r.1 first in
    let both = done-injective last in
    let written : out ≡ b ∷ take n buf ++ r.1 = ap (λ x. x.1) (sym both) in
    (
      (
        before.0,
        ap (λ x. x ++ before.0) written
            ∙ ap (λ xs. b ∷ xs)
                (append_assoc (take n buf) r.1 before.0
                  ∙ ap (λ xs. take n buf ++ xs) before.1
                  ∙ take-drop n buf),
      ),
      λ yes.
          written
          ∙ ap (λ xs. b ∷ xs)
              (ap (λ xs. take n buf ++ xs) (all (ap (λ x. x.0) both ∙ yes)) ∙ take-drop n buf),
    )
