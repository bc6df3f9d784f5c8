-- ===== src/Profile/Callers.antt =====
-- src/profile.c: `profile_func_create_caller_list`, the callers of a function of the profile.
use memprof.Common.{
  length, if◌then◌else◌, ◌==◌, ltb, ◌++◌, ◌∷◌, [], List, some, none, Option, false, true, Bool, ◌+◌,
  suc, zero, ℕ, has,
}
use memprof.Common.Table.{Table, lookup, insert}
use memprof.Profile.{ProfileFunc, ProfileNode}
use memprof.Common.Word.{add32}
use memprof.Common.Outcome.{done, Outcome, aborted, ◌>>=◌}

-- The callers are pointers into the array `result`: their positions in it. `marked_callers` holds
-- pointers to nodes, NULL as 0.
pub record CallerList : Type 0 where
  pub result : List ProfileFunc
  pub callers_by_symbol : Table ℕ
  pub spontaneous : Option ℕ
  pub marked_callers : List ℕ

abbrev pub pointer : Option ℕ → ℕ
pointer none = 0
pointer (some n) = n + 1

-- The nodes that `for (node = func->node; node != NULL; node = node->next)` goes through.
unfoldable pub chain_nodes : ℕ → (ℕ → ProfileNode) → Option ℕ → List ℕ
chain_nodes zero node o = []
chain_nodes (suc f) node none = []
chain_nodes (suc f) node (some n) = n ∷ chain_nodes f node (node n).next

abbrev pub new_caller : Option ℕ → ProfileFunc
new_caller n = record { total = 0; self = 0; node = n }

-- The body of the first loop.
unfoldable pub add_caller : (ℕ → ProfileNode) → CallerList → ℕ → CallerList
add_caller node c n = elim (node n).parent [
  | some p ↦ elim (lookup (node p).symbol c.callers_by_symbol) [
    | some k ↦ c
    | none ↦ record c {
      callers_by_symbol = insert (node p).symbol (length c.result) c.callers_by_symbol;
      result = c.result ++ new_caller (some p) ∷ [];
    }
  ]
  | none ↦ elim c.spontaneous [
    | some k ↦ c
    | none ↦ record c {
      spontaneous = some (length c.result);
      result = c.result ++ new_caller none ∷ [];
    }
  ]
]

unfoldable pub add_callers : (ℕ → ProfileNode) → List ℕ → CallerList → CallerList
unfolding add_caller
add_callers node [] c = c
add_callers node (n ∷ chain) c = add_callers node chain (add_caller node c n)

-- `caller`, with the assertion for nodes without a parent.
unfoldable pub find_caller : (ℕ → ProfileNode) → CallerList → ℕ → Outcome (Option ℕ)
find_caller node c n = elim (node n).parent [
  | some p ↦ done (lookup (node p).symbol c.callers_by_symbol)
  | none ↦ elim c.spontaneous [ some k ↦ done (some k) | none ↦ aborted ]
]

-- `symbol_equal (n->parent->symbol, top_caller_node->symbol)`, which follows `top_caller_node`.
abbrev pub same_caller : (ℕ → ProfileNode) → ℕ → Option ℕ → Outcome Bool
same_caller node up none = aborted
same_caller node up (some c) = done ((node up).symbol == (node c).symbol)

-- The test of the loop below. The second half is not looked at where the first fails.
abbrev pub same_pair : (ℕ → ProfileNode) → ℕ → ℕ → ℕ → Option ℕ → Outcome Bool
same_pair node start n up caller =
    if (node n).symbol == (node start).symbol then same_caller node up caller else done false

-- The loop for the topmost pair: `top_caller_node` and `top_callee_node`. Indices fall along `parent`.
unfoldable pub topmost :
    ℕ → (ℕ → ProfileNode) → ℕ → Option ℕ → Option ℕ → ℕ → Outcome (Option ℕ × ℕ)
topmost zero node start n caller callee = done (caller, callee)
topmost (suc f) node start none caller callee = done (caller, callee)
topmost (suc f) node start (some n) caller callee = elim (node n).parent [
  | none ↦ done (caller, callee)
  | some up ↦ same_pair node start n up caller >>= (λ same. elim same [
    | true ↦ topmost f node start (some up) (some up) n
    | false ↦ topmost f node start (some up) caller callee
  ])
]

unfoldable pub update_func : (ProfileFunc → ProfileFunc) → ℕ → List ProfileFunc → List ProfileFunc
update_func g k [] = []
update_func g zero (x ∷ funcs) = g x ∷ funcs
update_func g (suc k) (x ∷ funcs) = x ∷ update_func g k funcs

unfoldable pub update_caller :
    (ProfileFunc → ProfileFunc) → Option ℕ → CallerList → Outcome CallerList
unfolding update_func
update_caller g none c = aborted
update_caller g (some k) c = done (record c { result = update_func g k c.result })

unfoldable pub mark_caller :
    (ℕ → ProfileNode) → Option ℕ → Option ℕ × ℕ → CallerList → Outcome CallerList
unfolding update_caller
mark_caller node caller (top_caller, top_callee) c =
    if has (pointer top_caller) c.marked_callers
    then done c
    else update_caller (λ x. record x { total = add32 x.total (node top_callee).total }) caller c
      >>= (λ d. done (record d { marked_callers = pointer top_caller ∷ d.marked_callers }))

-- The body of the second loop.
unfoldable pub count_caller : ℕ → (ℕ → ProfileNode) → CallerList → ℕ → Outcome CallerList
unfolding find_caller topmost mark_caller update_caller
count_caller f node c n = find_caller node c n >>= (λ caller.
    topmost f node n (node n).parent (node n).parent n >>= (λ pair.
      mark_caller node caller pair c >>= (λ d.
        if ltb 0 (node n).self
        then update_caller (λ x. record x { self = add32 x.self (node n).self }) caller d
        else done d)))

unfoldable pub count_callers : ℕ → (ℕ → ProfileNode) → List ℕ → CallerList → Outcome CallerList
unfolding count_caller
count_callers f node [] c = done c
count_callers f node (n ∷ chain) c = count_caller f node c n >>= count_callers f node chain

-- `f` is the number of nodes of the profile.
unfoldable pub profile_func_create_caller_list :
    ℕ → (ℕ → ProfileNode) → ProfileFunc → Outcome (List ProfileFunc)
unfolding chain_nodes add_callers count_callers
profile_func_create_caller_list f node func =
    let chain = chain_nodes f node func.node in
    let none_yet : CallerList = record {
      result = [];
      callers_by_symbol = [];
      spontaneous = none;
      marked_callers = [];
    } in
    count_callers f node chain (add_callers node chain none_yet) >>= (λ c. done c.result)
