-- ===== src/Profile/CallerSums.antt =====
-- src/profile.c: the callers of a function share the bytes that it has allocated itself.
use memprof.Common.{All, ltb→le, if◌then◌else◌, ltb, none, ap, has}
use mathlib.Core.Option.{none-ne-some}
use memprof.Profile.Shares.{IsFound, IsIn, caller_at, self_total, chain_self, add_callers-IsFound}
use memprof.Common.{
  length, Option-cases, Bool-cases, arith, ◌∷◌, [], List, some, Option, inr, inl, ◌∙◌, refl, ◌≡◌,
  ◌<◌, ◌+◌, suc, zero, ℕ,
}
use mathlib.Core.Path.{subst}
use memprof.Profile.{add_function_loop, ProfileFunc, ProfileNode}
use memprof.Profile.Callers.{
  add_callers, profile_func_create_caller_list, count_callers, update_caller, chain_nodes,
  count_caller, CallerList, pointer, mark_caller, update_func, find_caller,
}
use memprof.Common.Table.{total, lookup}
use memprof.Common.Word.{u32_mod, add32, wrap32}
use memprof.Common.Outcome.{done}
use memprof.Profile.Topmost.{topmost_begun}
use memprof.Profile.Traces.{added, counted}

length-update_func :
    (g : ProfileFunc → ProfileFunc) (k : ℕ) (funcs : List ProfileFunc)
    → length (update_func g k funcs) ≡ length funcs
unfolding update_func
length-update_func g k [] = refl
length-update_func g zero (x ∷ funcs) = refl
length-update_func g (suc k) (x ∷ funcs) = omega (arith, length-update_func g k funcs)

update_func-keeps :
    (g : ProfileFunc → ProfileFunc) (k : ℕ) (funcs : List ProfileFunc)
    → ((x : ProfileFunc) → (g x).self ≡ x.self)
    → self_total (update_func g k funcs) ≡ self_total funcs
unfolding update_func
update_func-keeps g k [] same = refl
update_func-keeps g zero (x ∷ funcs) same = omega (arith, same x)
update_func-keeps g (suc k) (x ∷ funcs) same = omega (arith, update_func-keeps g k funcs same)

update_func-adds :
    (v k : ℕ) (funcs : List ProfileFunc)
    → k < length funcs
    → wrap32 (self_total (update_func (λ x. record x { self = add32 x.self v }) k funcs))
      ≡ wrap32 (self_total funcs + v)
unfolding update_func
update_func-adds v k [] lt = absurd (omega arith)
update_func-adds v zero (x ∷ funcs) lt = omega arith
update_func-adds v (suc k) (x ∷ funcs) lt = omega (arith, update_func-adds v k funcs (omega arith))

find_caller-found :
    (node : ℕ → ProfileNode) (c : CallerList) (n : ℕ) (found : IsFound node c n)
    → find_caller node c n ≡ done (some found.0)
unfolding find_caller
find_caller-found node c n (k, e, lt) = elim (Option-cases (node n).parent) [
  | inl alone ↦
      let here : c.spontaneous ≡ some k = subst (λ o. caller_at node c o ≡ some k) alone e in
      rw (alone, here, find_caller) refl
  | inr (p, up) ↦
      let here : lookup (node p).symbol c.callers_by_symbol ≡ some k =
        subst (λ o. caller_at node c o ≡ some k) up e in
      rw (up, here, find_caller) refl
]

-- The table, the caller without a node and the length of the array stay.
abbrev Settled : CallerList → CallerList → Type 0
Settled c d =
    (d.callers_by_symbol ≡ c.callers_by_symbol)
    × (d.spontaneous ≡ c.spontaneous)
    × (length d.result ≡ length c.result)

caller_at-settled :
    (node : ℕ → ProfileNode) (c d : CallerList) (o : Option ℕ)
    → d.callers_by_symbol ≡ c.callers_by_symbol
    → d.spontaneous ≡ c.spontaneous
    → caller_at node d o ≡ caller_at node c o
caller_at-settled node c d none table alone = alone
caller_at-settled node c d (some p) table alone = ap (lookup (node p).symbol) table

IsFound-Settled :
    (node : ℕ → ProfileNode) (c d : CallerList) (n : ℕ)
    → Settled c d
    → IsFound node c n
    → IsFound node d n
IsFound-Settled node c d n (table, alone, same) (k, e, lt) =
    (k, caller_at-settled node c d (node n).parent table alone ∙ e, omega (arith, lt, same))

All-Settled :
    (node : ℕ → ProfileNode) (c d : CallerList) (chain : List ℕ)
    → Settled c d
    → All (IsFound node c) chain
    → All (IsFound node d) chain
All-Settled node c d [] settled found = tt
All-Settled node c d (n ∷ chain) settled found =
    (IsFound-Settled node c d n settled found.0, All-Settled node c d chain settled found.1)

module _ (f : ℕ) (node : ℕ → ProfileNode) where
  mark_caller-done :
      (c : CallerList) (k : ℕ) (pair : Option ℕ × ℕ)
      → (d : CallerList) × (mark_caller node (some k) pair c ≡ done d)
        × Settled c d
        × (self_total d.result ≡ self_total c.result)
  unfolding mark_caller
  mark_caller-done c k (top_caller, top_callee) =
      elim (Bool-cases (has (pointer top_caller) c.marked_callers)) [
        | inl marked ↦ (c, rw (marked, mark_caller) refl, (refl, refl, refl), refl)
        | inr fresh ↦
            let g : ProfileFunc → ProfileFunc =
              λ x. record x { total = add32 x.total (node top_callee).total } in
            (
              record c {
                result = update_func g k c.result;
                marked_callers = pointer top_caller ∷ c.marked_callers;
              },
              rw (fresh, mark_caller) refl,
              (refl, refl, length-update_func g k c.result),
              update_func-keeps g k c.result (λ x. refl),
            )
      ]

  -- `self` is added to the caller, and is 0 where the code does not add it.
  self_added :
      (c d : CallerList) (n k : ℕ)
      → Settled c d
      → self_total d.result ≡ self_total c.result
      → k < length c.result
      → (e : CallerList) × ((if ltb 0 (node n).self
            then update_caller (λ x. record x { self = add32 x.self (node n).self }) (some k) d
            else done d)
          ≡ done e)
        × Settled c e
        × (wrap32 (self_total e.result) ≡ wrap32 (self_total c.result + (node n).self))
  unfolding update_caller
  self_added c d n k settled same lt = elim (Bool-cases (ltb 0 (node n).self)) [
    | inl some_self ↦
        let g : ProfileFunc → ProfileFunc = λ x. record x { self = add32 x.self (node n).self } in
        (
          record d { result = update_func g k d.result },
          rw some_self refl,
          (settled.0, settled.1, length-update_func g k d.result ∙ settled.2),
          update_func-adds (node n).self k d.result (omega (arith, lt, settled.2))
              ∙ ap (λ x. wrap32 (x + (node n).self)) same,
        )
    | inr no_self ↦
        let zero_self : (node n).self ≡ 0 = omega (arith, ltb→le 0 (node n).self no_self) in
        (d, rw no_self refl, settled, omega (arith, same, zero_self))
  ]

  count_caller-done :
      (c : CallerList) (n : ℕ)
      → IsFound node c n
      → (e : CallerList) × (count_caller f node c n ≡ done e)
        × Settled c e
        × (wrap32 (self_total e.result) ≡ wrap32 (self_total c.result + (node n).self))
  unfolding count_caller
  count_caller-done c n found =
      let (pair, top) = topmost_begun node f n (node n).parent in
      let (d, marked, settled, same) = mark_caller-done c found.0 pair in
      let (e, added, end, sum) = self_added c d n found.0 settled same found.2 in
      (e, rw (find_caller-found node c n found, top, marked, count_caller) added, end, sum)

  count_callers-done :
      (chain : List ℕ) (c : CallerList)
      → All (IsFound node c) chain
      → (d : CallerList) × (count_callers f node chain c ≡ done d)
        × (wrap32 (self_total d.result) ≡ wrap32 (self_total c.result + chain_self node chain))
  unfolding count_callers
  count_callers-done [] c found = (c, refl, omega arith)
  count_callers-done (n ∷ chain) c found =
      let (d, counted, settled, sum) = count_caller-done c n found.0 in
      let (e, rest, total) =
        count_callers-done chain d (All-Settled node c d chain settled found.1) in
      (e, rw (counted, count_callers) rest, omega (arith, sum, total))

  loop_self :
      (k : ℕ) (o : Option ℕ) (func : ProfileFunc)
      → func.self < u32_mod
      → (add_function_loop k node o func).self
        ≡ wrap32 (func.self + chain_self node (chain_nodes k node o))
  unfolding add_function_loop chain_nodes
  loop_self zero o func small = omega arith
  loop_self (suc k) none func small = omega arith
  loop_self (suc k) (some n) func small =
      let x = node n in
      let next_func = record func {
        self = add32 func.self x.self;
        total = if x.toplevel then add32 func.total x.total else func.total;
      } in
      omega (arith, loop_self k x.next next_func (omega arith))

  loop_node :
      (k : ℕ) (o : Option ℕ) (func : ProfileFunc)
      → (add_function_loop k node o func).node ≡ func.node
  unfolding add_function_loop
  loop_node zero o func = refl
  loop_node (suc k) none func = refl
  loop_node (suc k) (some n) func = loop_node k (node n).next _

  abbrev pub func_of : Option ℕ → ProfileFunc
  func_of n = add_function_loop f node n (record { total = 0; self = 0; node = n })

  -- No assertion of `profile_func_create_caller_list` fails for a function of `add_function`, and no NULL is
  -- followed: it returns a list of callers, whose `self` add up to `self` of the function, modulo 2 ^ 32 as
  -- `guint` counts.
  pub profile_func_create_caller_list-self :
      (n : Option ℕ)
      → (callers : List ProfileFunc) × (profile_func_create_caller_list f node (func_of n)
          ≡ done callers)
        × (wrap32 (self_total callers) ≡ (func_of n).self)
  unfolding profile_func_create_caller_list
  profile_func_create_caller_list-self n =
      let chain = chain_nodes f node n in
      let none_yet : CallerList = record {
        result = [];
        callers_by_symbol = [];
        spontaneous = none;
        marked_callers = [];
      } in
      let within : IsIn none_yet = (tt, λ k e. absurd (none-ne-some _ e)) in
      let (found, _, empty) = add_callers-IsFound node chain none_yet within in
      let (d, counted, sum) = count_callers-done chain (add_callers node chain none_yet) found in
      let own : (func_of n).self ≡ wrap32 (0 + chain_self node chain) =
        loop_self f n (record { total = 0; self = 0; node = n }) (omega arith) in
      (
        d.result,
        rw
            (
              loop_node f n (record { total = 0; self = 0; node = n }),
              counted,
              profile_func_create_caller_list,
            )
            refl,
        omega (arith, sum, empty, own),
      )
