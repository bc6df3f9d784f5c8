-- ===== src/Common/Outcome.antt =====
-- The end of a run: a result, an assertion that failed, or (in the models of `while` loops and
-- recursions) fuel that ran out.
use memprof.Common.{◌≢◌, refl, ◌≡◌}

pub data Outcome {ℓ} (A : Type ℓ) : Type ℓ where
  done : A → Outcome A
  aborted : Outcome A
  out_of_fuel : Outcome A

infixl 5 ◌>>=◌
abbrev pub ◌>>=◌ {ℓ κ} : {A : Type ℓ} {B : Type κ} → Outcome A → (A → Outcome B) → Outcome B
done a >>= f = f a
aborted >>= f = aborted
out_of_fuel >>= f = out_of_fuel

module _ {ℓ} {A B C : Type ℓ} where
  pub >>=-assoc :
      (m : Outcome A) (f : A → Outcome B) (g : B → Outcome C)
      → ((m >>= f) >>= g) ≡ (m >>= (λ a. f a >>= g))
  >>=-assoc (done a) f g = refl
  >>=-assoc aborted f g = refl
  >>=-assoc out_of_fuel f g = refl

module _ {ℓ} {A B : Type ℓ} where
  pub >>=-cong :
      (m : Outcome A) {f g : A → Outcome B} → ((a : A) → f a ≡ g a) → (m >>= f) ≡ (m >>= g)
  >>=-cong (done a) h = h a
  >>=-cong aborted h = refl
  >>=-cong out_of_fuel h = refl

module _ {ℓ} {A : Type ℓ} where
  -- A continuation that gives back every result that `m` can have.
  pub >>=-return :
      (m : Outcome A) {f : A → Outcome A} → ((a : A) → m ≡ done a → f a ≡ done a) → (m >>= f) ≡ m
  >>=-return (done a) h = h a refl
  >>=-return aborted h = refl
  >>=-return out_of_fuel h = refl

  -- A run that did not run out of fuel.
  abbrev pub Ends : Outcome A → Type ℓ
  Ends m = m ≢ out_of_fuel

module _ {ℓ} {A B : Type ℓ} where
  -- As `>>=-cong`, at the results that `m` has.
  pub >>=-cong_done :
      (m : Outcome A) {f g : A → Outcome B}
      → ((a : A) → m ≡ done a → f a ≡ g a)
      → (m >>= f) ≡ (m >>= g)
  >>=-cong_done (done a) h = h a refl
  >>=-cong_done aborted h = refl
  >>=-cong_done out_of_fuel h = refl

pub done-injective {ℓ} : {A : Type ℓ} {a b : A} → done a ≡ done b → a ≡ b
done-injective e = cc

module _ {ℓ} {A B : Type ℓ} where
  -- A sequence that ends has a first part that ends.
  pub >>=-eq_done :
      (m : Outcome A) (f : A → Outcome B) {b : B}
      → (m >>= f) ≡ done b
      → (a : A) × (m ≡ done a) × (f a ≡ done b)
  >>=-eq_done (done a) f e = (a, refl, e)
  >>=-eq_done aborted f e = cc
  >>=-eq_done out_of_fuel f e = cc

module _ {ℓ κ} {A : Type ℓ} {B : Type κ} where
  pub >>=-Ends :
      (m : Outcome A) (f : A → Outcome B) → Ends m → ((a : A) → Ends (f a)) → Ends (m >>= f)
  >>=-Ends (done a) f ends h = h a
  >>=-Ends aborted f ends h = λ e. cc
  >>=-Ends out_of_fuel f ends h = absurd (ends refl)
