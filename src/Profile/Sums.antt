-- ===== src/Profile/Sums.antt =====
-- src/profile.c: sums over the nodes that a profile has handed out.
use memprof.Common.{
  false, true, ◌∙◌, Bool-cases, eq→==, ==→eq, if◌then◌else◌, ◌==◌, arith, ◌&&◌, Bool, inr, inl, ◌≢◌,
  ap, refl, ◌≡◌, ◌<◌, ◌+◌, suc, zero, ℕ,
}
use mathlib.Core.Path.{subst}
use memprof.Profile.{set_profile_node, add_bytes, Profile, ProfileNode}
use memprof.Common.Word.{wrap32, add32}

-- The sum of `g` over the numbers below a bound.
abbrev pub sum_below : (ℕ → ℕ) → ℕ → ℕ
sum_below g zero = 0
sum_below g (suc k) = g k + sum_below g k

pub sum_below-same :
    (g h : ℕ → ℕ) (k : ℕ) → ((n : ℕ) → n < k → h n ≡ g n) → sum_below h k ≡ sum_below g k
sum_below-same g h zero same = refl
sum_below-same g h (suc k) same =
    omega (arith, same k (omega arith), sum_below-same g h k (λ n lt. same n (omega arith)))

-- One summand changes.
pub sum_below-set :
    (g h : ℕ → ℕ) (k c : ℕ)
    → c < k
    → ((n : ℕ) → n ≢ c → h n ≡ g n)
    → sum_below h k + g c ≡ sum_below g k + h c
sum_below-set g h zero c lt same = absurd (omega arith)
sum_below-set g h (suc k) c lt same = elim (Bool-cases (k == c)) [
  | inl here ↦
      let e = ==→eq k c here in
      let rest = sum_below-same g h k (λ n below. same n (λ q. omega (arith, q, e, below))) in
      subst (λ d. sum_below h (suc k) + g d ≡ sum_below g (suc k) + h d) e (omega (arith, rest))
  | inr other ↦
      let apart : k ≢ c = λ q. ground (arith, eq→== k c q, other) in
      omega (arith, same k apart, sum_below-set g h k c (ground arith) same)
]

-- The bytes of a function: `self` of its nodes, and `total` of those that are the first of the function
-- on their stack.
abbrev pub self_of : ℕ → ProfileNode → ℕ
self_of s x = if x.symbol == s then x.self else 0

abbrev pub total_of : ℕ → ProfileNode → ℕ
total_of s x = if x.symbol == s && x.toplevel then x.total else 0

abbrev pub self_sum : ℕ → Profile → ℕ
self_sum s p = sum_below (λ n. self_of s (p.node n)) p.used

abbrev pub total_sum : ℕ → Profile → ℕ
total_sum s p = sum_below (λ n. total_of s (p.node n)) p.used

pub set_node_other :
    (p : Profile) (m n : ℕ) (x : ProfileNode) → n ≢ m → (set_profile_node p m x).node n ≡ p.node n
set_node_other p m n x apart = ground (arith, ==→eq m n)

pub set_node_here : (p : Profile) (m : ℕ) (x : ProfileNode) → (set_profile_node p m x).node m ≡ x
set_node_here p m x = ground (arith, eq→== m m refl)

gain :
    (a b t size : ℕ) (there : Bool)
    → a + (if there then t else 0) ≡ b + (if there then add32 t size else 0)
    → wrap32 a ≡ wrap32 (b + (if there then size else 0))
gain a b t size true e = omega (arith, e)
gain a b t size false e = omega (arith, e)

keep :
    (a b t : ℕ) (there : Bool) → a + (if there then t else 0) ≡ b + (if there then t else 0) → a ≡ b
keep a b t true e = omega (arith, e)
keep a b t false e = omega (arith, e)

add_bytes-here :
    (p : Profile) (m size : ℕ) (last : Bool)
    → (add_bytes p m size last).node m ≡ record (p.node m) {
      total = add32 (p.node m).total size;
      self = if last then add32 (p.node m).self size else (p.node m).self;
    }
unfolding add_bytes
add_bytes-here p m size last = set_node_here p m _

pub total_sum-add_bytes :
    (p : Profile) (m size : ℕ) (last : Bool) (s : ℕ)
    → m < p.used
    → wrap32 (total_sum s (add_bytes p m size last))
      ≡ wrap32 (total_sum s p + (if (p.node m).symbol == s && (p.node m).toplevel then size else 0))
unfolding add_bytes
total_sum-add_bytes p m size last s lt =
    let q = add_bytes p m size last in
    let change =
      sum_below-set (λ n. total_of s (p.node n)) (λ n. total_of s (q.node n)) p.used m lt
        (λ n apart. ap (total_of s) (set_node_other p m n _ apart)) in
    let here = ap (total_of s) (add_bytes-here p m size last) in
    gain (total_sum s q) (total_sum s p) (p.node m).total size
      ((p.node m).symbol == s && (p.node m).toplevel) (change ∙ ap (λ x. total_sum s p + x) here)

pub self_sum-add_bytes :
    (p : Profile) (m size : ℕ) (last : Bool) (s : ℕ)
    → m < p.used
    → wrap32 (self_sum s (add_bytes p m size last))
      ≡ wrap32 (self_sum s p + (if last && ((p.node m).symbol == s) then size else 0))
unfolding add_bytes
self_sum-add_bytes p m size true s lt =
    let q = add_bytes p m size true in
    let change =
      sum_below-set (λ n. self_of s (p.node n)) (λ n. self_of s (q.node n)) p.used m lt
        (λ n apart. ap (self_of s) (set_node_other p m n _ apart)) in
    gain (self_sum s q) (self_sum s p) (p.node m).self size ((p.node m).symbol == s)
      (change ∙ ap (λ x. self_sum s p + self_of s x) (add_bytes-here p m size true))
self_sum-add_bytes p m size false s lt =
    let q = add_bytes p m size false in
    let change =
      sum_below-set (λ n. self_of s (p.node n)) (λ n. self_of s (q.node n)) p.used m lt
        (λ n apart. ap (self_of s) (set_node_other p m n _ apart)) in
    omega (
      arith,
      keep (self_sum s q) (self_sum s p) (p.node m).self ((p.node m).symbol == s)
          (change ∙ ap (λ x. self_sum s p + self_of s x) (add_bytes-here p m size false)),
    )
