-- ===== src/Profile/Trees.antt =====
-- src/profile.c: the pointers of the nodes of a profile, and what the search of a level keeps.
use mathlib.Core.List.{Memᴰ}
use mathlib.Core.Option.{none-ne-some, some-injective}
use memprof.Common.{has, arith, ◌∷◌, [], List, some, none, Option, not, ◌∙◌, sym, refl, ◌≡◌, ◌<◌, ℕ}
use mathlib.Core.Path.{subst}
use memprof.Profile.{Profile, ProfileNode, top, under, Level}

-- `symbols` are those of the node that `o` points to and of the nodes above it, the innermost first.
abbrev pub Above : (ℕ → ProfileNode) → Option ℕ → List ℕ → Type 0
Above node o [] = o ≡ none
Above node o (s ∷ symbols) =
    (n : ℕ) × (o ≡ some n) × ((node n).symbol ≡ s) × Above node (node n).parent symbols

pub Above-unique :
    (node : ℕ → ProfileNode) (o : Option ℕ) (ss ts : List ℕ)
    → Above node o ss
    → Above node o ts
    → ss ≡ ts
Above-unique node o [] [] a b = refl
Above-unique node o [] (t ∷ ts) a b = absurd (none-ne-some _ (sym a ∙ b.1))
Above-unique node o (s ∷ ss) [] a b = absurd (none-ne-some _ (sym b ∙ a.1))
Above-unique node o (s ∷ ss) (t ∷ ts) (n, en, es, a) (m, em, et, b) =
    let same : n ≡ m = some-injective _ _ (sym en ∙ em) in
    let rest =
      Above-unique node (node m).parent ss ts (subst (λ k. Above node (node k).parent ss) same a)
        b in
    cc (es, et, rest, same)

-- What a node keeps when its children grow.
abbrev pub bare : ProfileNode → ProfileNode
bare x = record x { children = [] }

-- The place of the loop in `profile_add_stack_trace`.
abbrev pub Stands : Profile → Level → Option ℕ → Type 0
Stands p top parent = parent ≡ none
Stands p (under n) parent = (parent ≡ some n) × (n < p.used)

-- `toplevel` says that no node above has the symbol.
abbrev pub IsMarked : Profile → ℕ → Type 0
IsMarked p n =
    (symbols : List ℕ) × Above p.node (p.node n).parent symbols
    × ((p.node n).toplevel ≡ not (has (p.node n).symbol symbols))

-- Indices fall along `parent`; roots have no parent, and children have theirs.
pub record IsTree (p : Profile) : Type 0 where
  pub parent_lt : (n m : ℕ) → n < p.used → (p.node n).parent ≡ some m → m < n
  pub root : (r : ℕ) → Memᴰ r p.roots → (r < p.used) × ((p.node r).parent ≡ none)
  pub child :
      (n c : ℕ)
      → n < p.used
      → Memᴰ c (p.node n).children
      → (c < p.used) × ((p.node c).parent ≡ some n)
  pub first : (n : ℕ) → n < p.used → IsMarked p n

pub Above-same :
    (node new : ℕ → ProfileNode) (k : ℕ) (o : Option ℕ) (symbols : List ℕ)
    → ((n m : ℕ) → n < k → (node n).parent ≡ some m → m < n)
    → ((n : ℕ) → n < k → ((new n).symbol ≡ (node n).symbol) × ((new n).parent ≡ (node n).parent))
    → ((n : ℕ) → o ≡ some n → n < k)
    → Above node o symbols
    → Above new o symbols
Above-same node new k o [] falls same lt a = a
Above-same node new k o (s ∷ symbols) falls same lt (n, en, es, a) =
    let below = lt n en in
    (
      n,
      en,
      (same n below).0 ∙ es,
      subst (λ q. Above new q symbols) (sym (same n below).1)
          (Above-same node new k (node n).parent symbols falls same
            (λ m e. omega (arith, falls n m below e, below)) a),
    )
