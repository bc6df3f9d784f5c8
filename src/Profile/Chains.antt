-- ===== src/Profile/Chains.antt =====
-- src/profile.c: `next` chains the nodes of a symbol together, and `add_function` adds up the chain.
use memprof.Profile.Growth.{grown-bare, grown-fresh, grown-used}
use memprof.Profile.Traces.{add_bytes-shape}
use memprof.Common.Table.{insert, total, lookup, lookup-insert, insert-IsTable, IsTable}
use memprof.Common.{
  ◌&&◌, Option-cases, Bool-cases, ==→eq, if◌then◌else◌, ◌==◌, arith, ◌∷◌, [], List, some, none,
  Option, false, true, Bool, inr, inl, ◌⊎◌, ◌∙◌, ap, sym, refl, ◌≡◌, ◌<◌, ◌≤◌, ◌+◌, suc, zero, ℕ,
}
use mathlib.Core.Path.{subst}
use memprof.Profile.{
  match_at, add_function_loop, add_to_level, Profile, is_nil, ProfileFunc, read_level, find_match,
  top, ProfileNode, new_profile_node, add_bytes, Level, trace_rounds, under,
}
use memprof.Profile.Sums.{total_of, self_of, sum_below}
use memprof.Common.Word.{add32, wrap32, u32_mod}

-- From `o` the chain runs through exactly the nodes below `k` of the symbol, the last first.
abbrev pub Chained : (ℕ → ProfileNode) → ℕ → ℕ → Option ℕ → Type 0
Chained node s zero o = o ≡ none
Chained node s (suc k) o =
    (((node k).symbol == s ≡ true) × (o ≡ some k) × Chained node s k (node k).next)
    ⊎ (((node k).symbol == s ≡ false) × Chained node s k o)

pub Chained-same :
    (node new : ℕ → ProfileNode) (s k : ℕ) (o : Option ℕ)
    → ((n : ℕ) → n < k → ((new n).symbol ≡ (node n).symbol) × ((new n).next ≡ (node n).next))
    → Chained node s k o
    → Chained new s k o
Chained-same node new s zero o same c = c
Chained-same node new s (suc k) o same (inl (here, e, c)) =
    let (symbol, next) = same k (omega arith) in
    let rest = Chained-same node new s k (node k).next (λ n lt. same n (omega (arith, lt))) c in
    inl (ap (λ t. t == s) symbol ∙ here, e, subst (Chained new s k) (sym next) rest)
Chained-same node new s (suc k) o same (inr (other, c)) =
    let (symbol, _) = same k (omega arith) in
    inr (
      ap (λ t. t == s) symbol ∙ other,
      Chained-same node new s k o (λ n lt. same n (omega (arith, lt))) c,
    )

-- The table leads to the chain of each symbol, and has each symbol once.
pub record IsIndexed (p : Profile) : Type 0 where
  pub chained : (s : ℕ) → Chained p.node s p.used (lookup s p.nodes_by_symbol)
  pub table : IsTable p.nodes_by_symbol

pub add_to_level-table :
    (p : Profile) (level : Level) (m : ℕ)
    → (add_to_level p level m).nodes_by_symbol ≡ p.nodes_by_symbol
unfolding add_to_level
add_to_level-table p top m = refl
add_to_level-table p (under n) m = refl

module _ (p : Profile) (level : Level) (parent : Option ℕ) (seen : List ℕ) (symbol : ℕ)
    (indexed : IsIndexed p) where
  abbrev pub added : Profile
  added = new_profile_node p level parent seen symbol

  pub new-table : added.nodes_by_symbol ≡ insert symbol p.used p.nodes_by_symbol
  unfolding new_profile_node
  new-table = add_to_level-table _ level p.used

  new-old : (s : ℕ) (o : Option ℕ) → Chained p.node s p.used o → Chained added.node s p.used o
  new-old s o = Chained-same p.node added.node s p.used o (λ n lt.
      let bare = grown-bare p level parent seen symbol n lt in
      (ap (λ x. x.symbol) bare, ap (λ x. x.next) bare))

  new-Chained :
      (s : ℕ)
      → Chained added.node s (suc p.used) (lookup s (insert symbol p.used p.nodes_by_symbol))
  new-Chained s =
      let fresh = grown-fresh p level parent seen symbol in
      let at = lookup-insert symbol s p.used p.nodes_by_symbol in
      elim (Bool-cases (symbol == s)) [
        | inl here ↦ inl (
          ap (λ x. x.symbol == s) fresh ∙ here,
          at ∙ ap (λ b. if b then some p.used else lookup s p.nodes_by_symbol) here,
          subst (Chained added.node s p.used)
              (ap (λ t. lookup t p.nodes_by_symbol) (sym (==→eq symbol s here))
                ∙ sym (ap (λ x. x.next) fresh))
              (new-old s (lookup s p.nodes_by_symbol) (indexed.chained s)),
        )
        | inr other ↦ inr (
          ap (λ x. x.symbol == s) fresh ∙ other,
          subst (Chained added.node s p.used)
              (sym (at ∙ ap (λ b. if b then some p.used else lookup s p.nodes_by_symbol) other))
              (new-old s (lookup s p.nodes_by_symbol) (indexed.chained s)),
        )
      ]

  pub new-IsIndexed : IsIndexed added
  new-IsIndexed = record {
    chained = λ s.
        subst (λ k. Chained added.node s k (lookup s added.nodes_by_symbol))
          (sym (grown-used p level parent seen symbol))
          (subst (λ t. Chained added.node s (suc p.used) (lookup s t)) (sym new-table)
            (new-Chained s));
    table =
        subst IsTable (sym new-table)
          (insert-IsTable symbol p.used p.nodes_by_symbol indexed.table);
  }

pub add_bytes-IsIndexed :
    (p : Profile) (m size : ℕ) (last : Bool) → IsIndexed p → IsIndexed (add_bytes p m size last)
unfolding add_bytes
add_bytes-IsIndexed p m size last indexed = record {
  chained = λ s.
      Chained-same p.node (add_bytes p m size last).node s p.used (lookup s p.nodes_by_symbol)
        (λ n lt.
          let same = add_bytes-shape p m size last n in
          (ap (λ x. x.symbol) same, ap (λ x. x.next) same))
        (indexed.chained s);
  table = indexed.table;
}

pub match_at-IsIndexed :
    (p : Profile) (level : Level) (parent : Option ℕ) (seen : List ℕ) (symbol : ℕ)
    → IsIndexed p
    → IsIndexed (match_at p level parent seen symbol).0
unfolding match_at
match_at-IsIndexed p level parent seen symbol indexed =
    elim (Option-cases (find_match p.node (read_level p level) symbol)) [
      | inl missing ↦ rw (missing, match_at) (new-IsIndexed p level parent seen symbol indexed)
      | inr (m, found) ↦ rw (found, match_at) indexed
    ]

pub trace_rounds-IsIndexed :
    (rest : List ℕ) (size : ℕ) (p : Profile) (level : Level) (parent : Option ℕ) (seen : List ℕ)
    → IsIndexed p
    → IsIndexed (trace_rounds rest size p level parent seen)
unfolding trace_rounds
trace_rounds-IsIndexed [] size p level parent seen indexed = indexed
trace_rounds-IsIndexed (symbol ∷ rest) size p level parent seen indexed =
    trace_rounds-IsIndexed rest size _ _ _ _ (
      add_bytes-IsIndexed _ _ size (is_nil rest)
        (match_at-IsIndexed p level parent seen symbol indexed))

total_small : (a b : ℕ) (top : Bool) → a < u32_mod → (if top then add32 a b else a) < u32_mod
total_small a b true lt = omega arith
total_small a b false lt = lt

total_step :
    (a b t rest : ℕ) (top : Bool)
    → t ≡ (if top then b else 0)
    → wrap32 ((if top then add32 a b else a) + rest) ≡ wrap32 (a + (t + rest))
total_step a b t rest true e = omega (arith, e)
total_step a b t rest false e = omega (arith, e)

-- The loop adds the whole chain to the function.
pub add_function_loop-sums :
    (node : ℕ → ProfileNode) (s k f : ℕ) (o : Option ℕ) (func : ProfileFunc)
    → Chained node s k o
    → k ≤ f
    → func.self < u32_mod
    → func.total < u32_mod
    → ((add_function_loop f node o func).self
        ≡ wrap32 (func.self + sum_below (λ n. self_of s (node n)) k))
      × ((add_function_loop f node o func).total
          ≡ wrap32 (func.total + sum_below (λ n. total_of s (node n)) k))
      × ((add_function_loop f node o func).node ≡ func.node)
unfolding add_function_loop
add_function_loop-sums node s zero zero o func c le a b = (omega arith, omega arith, refl)
add_function_loop-sums node s zero (suc f) o func c le a b =
    rw (c, add_function_loop) (omega arith, omega arith, refl)
add_function_loop-sums node s (suc k) zero o func c le a b = absurd (omega arith)
add_function_loop-sums node s (suc k) (suc f) o func (inl (here, e, c)) le a b =
    let x = node k in
    let next_func = record func {
      self = add32 func.self x.self;
      total = if x.toplevel then add32 func.total x.total else func.total;
    } in
    let (self, total, same) =
      add_function_loop-sums node s k f x.next next_func c (omega arith) (omega arith)
        (total_small func.total x.total x.toplevel b) in
    let self_k : self_of s x ≡ x.self = ap (λ h. if h then x.self else 0) here in
    let total_k : total_of s x ≡ (if x.toplevel then x.total else 0) =
      ap (λ h. if h && x.toplevel then x.total else 0) here in
    rw (e, add_function_loop)
      (
        omega (arith, self, self_k),
        total ∙ total_step func.total x.total _ _ x.toplevel total_k,
        same,
      )
add_function_loop-sums node s (suc k) (suc f) o func (inr (other, c)) le a b =
    let (self, total, same) = add_function_loop-sums node s k (suc f) o func c (omega arith) a b in
    let self_k : self_of s (node k) ≡ 0 = ap (λ h. if h then (node k).self else 0) other in
    let total_k : total_of s (node k) ≡ 0 =
      ap (λ h. if h && (node k).toplevel then (node k).total else 0) other in
    (omega (arith, self, self_k), omega (arith, total, total_k), same)
