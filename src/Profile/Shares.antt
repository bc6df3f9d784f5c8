-- ===== src/Profile/Shares.antt =====
-- src/profile.c: the first loop of `profile_func_create_caller_list` finds a caller for every node.
use mathlib.Core.Option.{none-ne-some, some-injective}
use memprof.Common.Table.{All-map, All-insert, All-lookup, lookup, insert, lookup-insert}
use memprof.Common.{
  All, Bool-cases, eq→==, ==→eq, if◌then◌else◌, ◌==◌, ap, sym, ◌≤◌, length-append, length,
  Option-cases, arith, ◌++◌, ◌∷◌, [], List, some, none, Option, inr, inl, ◌∙◌, refl, ◌≡◌, ◌<◌, ◌+◌,
  ℕ,
}
use memprof.Profile.{ProfileFunc, ProfileNode}
use memprof.Profile.Callers.{add_callers, CallerList, add_caller, new_caller}
use mathlib.Core.Path.{subst}

abbrev pub self_total : List ProfileFunc → ℕ
self_total [] = 0
self_total (x ∷ funcs) = x.self + self_total funcs

abbrev pub chain_self : (ℕ → ProfileNode) → List ℕ → ℕ
chain_self node [] = 0
chain_self node (n ∷ chain) = (node n).self + chain_self node chain

-- What the second loop will find for a node with this parent.
abbrev pub caller_at : (ℕ → ProfileNode) → CallerList → Option ℕ → Option ℕ
caller_at node c none = c.spontaneous
caller_at node c (some p) = lookup (node p).symbol c.callers_by_symbol

abbrev pub IsFound : (ℕ → ProfileNode) → CallerList → ℕ → Type 0
IsFound node c n = (k : ℕ) × (caller_at node c (node n).parent ≡ some k) × (k < length c.result)

self_total-snoc :
    (funcs : List ProfileFunc) (n : Option ℕ)
    → self_total (funcs ++ new_caller n ∷ []) ≡ self_total funcs
self_total-snoc [] n = refl
self_total-snoc (x ∷ funcs) n = omega (arith, self_total-snoc funcs n)

length-snoc :
    (funcs : List ProfileFunc) (x : ProfileFunc) → length (funcs ++ x ∷ []) ≡ length funcs + 1
length-snoc funcs x = length-append funcs (x ∷ []) ∙ omega arith

-- The positions in the table, and that of `spontaneous`, are positions of the array.
abbrev pub IsIn : CallerList → Type 0
IsIn c =
    All (λ e. e.1 < length c.result) c.callers_by_symbol
    × ((k : ℕ) → c.spontaneous ≡ some k → k < length c.result)

module _ (node : ℕ → ProfileNode) where
  add_caller-self_total :
      (c : CallerList) (n : ℕ) → self_total (add_caller node c n).result ≡ self_total c.result
  unfolding add_caller
  add_caller-self_total c n = elim (Option-cases (node n).parent) [
    | inl no_parent ↦ elim (Option-cases c.spontaneous) [
      | inl e ↦ rw (no_parent, e, add_caller) (self_total-snoc c.result none)
      | inr (k, e) ↦ rw (no_parent, e, add_caller) refl
    ]
    | inr (p, up) ↦ elim (Option-cases (lookup (node p).symbol c.callers_by_symbol)) [
      | inl e ↦ rw (up, e, add_caller) (self_total-snoc c.result (some p))
      | inr (k, e) ↦ rw (up, e, add_caller) refl
    ]
  ]

  keeps_spontaneous :
      (c : CallerList) (funcs : List ProfileFunc) (o : Option ℕ) (k j : ℕ)
      → c.spontaneous ≡ none
      → caller_at node c o ≡ some k
      → caller_at node (record c { result = funcs; spontaneous = some j }) o ≡ some k
  keeps_spontaneous c funcs none k j e found = absurd (none-ne-some _ (sym e ∙ found))
  keeps_spontaneous c funcs (some p) k j e found = found

  keeps_symbol :
      (c : CallerList) (funcs : List ProfileFunc) (s : ℕ) (o : Option ℕ) (k j : ℕ)
      → lookup s c.callers_by_symbol ≡ none
      → caller_at node c o ≡ some k
      → caller_at node
          (record c { result = funcs; callers_by_symbol = insert s j c.callers_by_symbol })
          o
        ≡ some k
  keeps_symbol c funcs s none k j e found = found
  keeps_symbol c funcs s (some p) k j e found = elim (Bool-cases (s == (node p).symbol)) [
    | inl same ↦
        absurd
          (none-ne-some _ (sym e ∙ ap (λ t. lookup t c.callers_by_symbol) (==→eq _ _ same) ∙ found))
    | inr other ↦
        lookup-insert s (node p).symbol j c.callers_by_symbol
        ∙ ap (λ b. if b then some j else lookup (node p).symbol c.callers_by_symbol) other
        ∙ found
  ]

  add_caller-keeps :
      (c : CallerList) (n : ℕ) (o : Option ℕ) (k : ℕ)
      → caller_at node c o ≡ some k
      → caller_at node (add_caller node c n) o ≡ some k
  unfolding add_caller
  add_caller-keeps c n o k found = elim (Option-cases (node n).parent) [
    | inl no_parent ↦ elim (Option-cases c.spontaneous) [
      | inl e ↦
          rw (no_parent, e, add_caller)
            (keeps_spontaneous c (c.result ++ new_caller none ∷ []) o k (length c.result) e found)
      | inr (j, e) ↦ rw (no_parent, e, add_caller) found
    ]
    | inr (p, up) ↦ elim (Option-cases (lookup (node p).symbol c.callers_by_symbol)) [
      | inl e ↦
          rw (up, e, add_caller)
            (keeps_symbol c (c.result ++ new_caller (some p) ∷ []) (node p).symbol o k
              (length c.result) e found)
      | inr (j, e) ↦ rw (up, e, add_caller) found
    ]
  ]

  add_caller-length :
      (c : CallerList) (n : ℕ) → length c.result ≤ length (add_caller node c n).result
  unfolding add_caller
  add_caller-length c n = elim (Option-cases (node n).parent) [
    | inl no_parent ↦ elim (Option-cases c.spontaneous) [
      | inl e ↦
          rw (no_parent, e, add_caller) (omega (arith, length-snoc c.result (new_caller none)))
      | inr (j, e) ↦ rw (no_parent, e, add_caller) (omega arith)
    ]
    | inr (p, up) ↦ elim (Option-cases (lookup (node p).symbol c.callers_by_symbol)) [
      | inl e ↦ rw (up, e, add_caller) (omega (arith, length-snoc c.result (new_caller (some p))))
      | inr (j, e) ↦ rw (up, e, add_caller) (omega arith)
    ]
  ]

  add_caller-IsFound :
      (c : CallerList) (n m : ℕ) → IsFound node c m → IsFound node (add_caller node c n) m
  add_caller-IsFound c n m (k, found, lt) =
      (k, add_caller-keeps c n (node m).parent k found, omega (arith, lt, add_caller-length c n))

  add_caller-new : (c : CallerList) (n : ℕ) → IsIn c → IsFound node (add_caller node c n) n
  unfolding add_caller
  add_caller-new c n within = elim (Option-cases (node n).parent) [
    | inl no_parent ↦ elim (Option-cases c.spontaneous) [
      | inl e ↦
          rw (no_parent, e, add_caller)
            (length c.result, refl, omega (arith, length-snoc c.result (new_caller none)))
      | inr (j, e) ↦ rw (no_parent, e, add_caller) (j, e, within.1 j e)
    ]
    | inr (p, up) ↦ elim (Option-cases (lookup (node p).symbol c.callers_by_symbol)) [
      | inl e ↦
          rw (up, e, add_caller)
            (
              length c.result,
              lookup-insert (node p).symbol (node p).symbol (length c.result) c.callers_by_symbol
                  ∙ ap
                      (λ b.
                        if b
                        then some (length c.result)
                        else lookup (node p).symbol c.callers_by_symbol)
                      (eq→== _ _ refl),
              omega (arith, length-snoc c.result (new_caller (some p))),
            )
      | inr (j, e) ↦
          rw (up, e, add_caller)
            (
              j,
              e,
              All-lookup (λ x. x.1 < length c.result) (node p).symbol j c.callers_by_symbol within.0
                  e,
            )
    ]
  ]

  add_caller-IsIn : (c : CallerList) (n : ℕ) → IsIn c → IsIn (add_caller node c n)
  unfolding add_caller
  add_caller-IsIn c n within = elim (Option-cases (node n).parent) [
    | inl no_parent ↦ elim (Option-cases c.spontaneous) [
      | inl e ↦
          let longer = length-snoc c.result (new_caller none) in
          rw (no_parent, e, add_caller)
            (
              All-map _ _ c.callers_by_symbol (λ x lt. omega (arith, lt, longer)) within.0,
              λ k q.
                  subst (λ j. j < length (c.result ++ new_caller none ∷ [])) (some-injective _ _ q)
                    (omega (arith, longer)),
            )
      | inr (j, e) ↦ rw (no_parent, e, add_caller) within
    ]
    | inr (p, up) ↦ elim (Option-cases (lookup (node p).symbol c.callers_by_symbol)) [
      | inl e ↦
          let longer = length-snoc c.result (new_caller (some p)) in
          rw (up, e, add_caller)
            (
              All-insert _ (node p).symbol (length c.result) c.callers_by_symbol
                  (omega (arith, longer))
                  (All-map _ _ c.callers_by_symbol (λ x lt. omega (arith, lt, longer)) within.0),
              λ k q. omega (arith, within.1 k q, longer),
            )
      | inr (j, e) ↦ rw (up, e, add_caller) within
    ]
  ]

  -- After the first loop every node of the chain has its caller, and no caller has bytes.
  pub add_callers-IsFound :
      (chain : List ℕ) (c : CallerList)
      → IsIn c
      → All (IsFound node (add_callers node chain c)) chain
        × ((m : ℕ) → IsFound node c m → IsFound node (add_callers node chain c) m)
        × (self_total (add_callers node chain c).result ≡ self_total c.result)
  unfolding add_callers
  add_callers-IsFound [] c within = (tt, λ m found. found, refl)
  add_callers-IsFound (n ∷ chain) c within =
      let d = add_caller node c n in
      let (all, kept, same) = add_callers-IsFound chain d (add_caller-IsIn c n within) in
      (
        (kept n (add_caller-new c n within), all),
        λ m found. kept m (add_caller-IsFound c n m found),
        same ∙ add_caller-self_total c n,
      )
