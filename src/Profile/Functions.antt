-- ===== src/Profile/Functions.antt =====
-- src/profile.c: the functions of the profile that `profile_create` makes of the blocks of a process.
use mathlib.Core.Option.{none-ne-some}
use memprof.Common.Table.{Table, All-map, total, IsTable, lookup}
use memprof.Profile.Stacks.{
  profile_build_tree-IsBuilt, calls, innermost, bytes_under, bytes_in, IsBuilt,
}
use memprof.Profile.Trees.{IsTree}
use memprof.Profile.Chains.{IsIndexed, add_function_loop-sums, Chained}
use mathlib.Core.List.Memᴰ
use mathlib.Core.List.{append_assoc, append-nil}
use memprof.Common.{
  Option-cases, none, Option, Bool-cases, ==→eq, if◌then◌else◌, ◌==◌, inr, inl, ap, All, eq→==,
  arith, map, ◌++◌, ◌∷◌, [], List, some, ◌∙◌, sym, refl, ◌≡◌, ◌<◌, ◌+◌, ℕ,
}
use memprof.Profile.{
  block_create_stack_list, match_at, Level, add_bytes, top, find_match, add_to_level,
  new_profile_node, profile_add_stack_trace, read_level, trace_rounds, under, profile_build_tree,
  blocks_list, profile_create, add_function, add_function_loop, ProfileFunc, sum_bytes,
  empty_profile, add_functions, Profile,
}
use memprof.Block.{Blocks, Block}
use memprof.Common.Word.{u32_mod, wrap32, add32}
use mathlib.Core.Path.{subst, ap₂}
use memprof.StackStash.{StackStash, walk}
use memprof.World.Life.{process_block_foreach}

pub empty-IsTree : IsTree empty_profile
empty-IsTree = record {
  parent_lt = λ n m lt e. absurd (omega (arith, lt));
  root = λ r h. absurd (Memᴰ.not-nil h);
  child = λ n c lt h. absurd (omega (arith, lt));
  first = λ n lt. absurd (omega (arith, lt));
}

pub empty-IsIndexed : IsIndexed empty_profile
unfolding lookup
empty-IsIndexed = record { chained = λ s. refl; table = tt }

abbrev sum_sizes : List Block → ℕ
sum_sizes [] = 0
sum_sizes (b ∷ blocks) = b.size + sum_sizes blocks

add_to_level-functions :
    (p : Profile) (level : Level) (m : ℕ) → (add_to_level p level m).functions ≡ p.functions
unfolding add_to_level
add_to_level-functions p top m = refl
add_to_level-functions p (under n) m = refl

match_at-functions :
    (p : Profile) (level : Level) (parent : Option ℕ) (seen : List ℕ) (symbol : ℕ)
    → (match_at p level parent seen symbol).0.functions ≡ p.functions
unfolding match_at new_profile_node
match_at-functions p level parent seen symbol =
    elim (Option-cases (find_match p.node (read_level p level) symbol)) [
      | inl missing ↦ rw (missing, match_at) (add_to_level-functions _ level p.used)
      | inr (m, found) ↦ rw (found, match_at) refl
    ]

trace_rounds-functions :
    (rest : List ℕ) (size : ℕ) (p : Profile) (level : Level) (parent : Option ℕ) (seen : List ℕ)
    → (trace_rounds rest size p level parent seen).functions ≡ p.functions
unfolding trace_rounds add_bytes
trace_rounds-functions [] size p level parent seen = refl
trace_rounds-functions (symbol ∷ rest) size p level parent seen =
    trace_rounds-functions rest size _ _ _ _ ∙ match_at-functions p level parent seen symbol

profile_build_tree-functions :
    (symbol_at text : ℕ → ℕ) (stash : StackStash) (skip : List ℕ) (blocks : List Block)
    (p : Profile)
    → (profile_build_tree symbol_at text stash skip blocks p).functions ≡ p.functions
unfolding profile_build_tree profile_add_stack_trace
profile_build_tree-functions symbol_at text stash skip [] p = refl
profile_build_tree-functions symbol_at text stash skip (b ∷ blocks) p =
    let stack = block_create_stack_list symbol_at text stash skip b in
    profile_build_tree-functions symbol_at text stash skip blocks
      (profile_add_stack_trace symbol_at text p stack b.size)
    ∙ trace_rounds-functions (map symbol_at stack) (wrap32 b.size) p top none []

-- An entry of the table is found under its key.
entries_found : (t : Table ℕ) → IsTable t → All (λ e. lookup e.0 t ≡ some e.1) t
unfolding lookup
entries_found [] distinct = tt
entries_found ((j, v) ∷ t) distinct = (
  rw (eq→== j j refl, lookup) refl,
  All-map (λ e. lookup e.0 t ≡ some e.1) (λ e. lookup e.0 ((j, v) ∷ t) ≡ some e.1) t
      (λ e found. elim (Bool-cases (j == e.0)) [
        | inl here ↦
            absurd
              (none-ne-some _ (sym distinct.0 ∙ ap (λ k. lookup k t) (==→eq j e.0 here) ∙ found))
        | inr other ↦ rw other found
      ])
      (entries_found t distinct.1),
)

-- What `add_function` makes of an entry.
abbrev entry_func : Profile → ℕ × ℕ → ProfileFunc
entry_func p e =
    add_function_loop p.used p.node (some e.1) (record { total = 0; self = 0; node = some e.1 })

add_functions-map :
    (t : Table ℕ) (p : Profile)
    → (add_functions t p).functions ≡ p.functions ++ map (entry_func p) t
unfolding add_functions add_function
add_functions-map [] p = sym (append-nil p.functions)
add_functions-map ((s, n) ∷ t) p =
    add_functions-map t (add_function p n)
    ∙ append_assoc p.functions (entry_func p (s, n) ∷ []) (map (entry_func p) t)

pub add_functions-rest :
    (t : Table ℕ) (p : Profile)
    → ((add_functions t p).nodes_by_symbol ≡ p.nodes_by_symbol)
      × ((add_functions t p).n_bytes ≡ p.n_bytes)
unfolding add_functions add_function
add_functions-rest [] p = (refl, refl)
add_functions-rest ((s, n) ∷ t) p = add_functions-rest t (add_function p n)

map-All : (f g : ℕ × ℕ → ProfileFunc) (t : Table ℕ) → All (λ e. f e ≡ g e) t → map f t ≡ map g t
map-All f g [] h = refl
map-All f g (e ∷ t) h = ap₂ (λ x y. x ∷ y) (h.0) (map-All f g t h.1)

sum_bytes-sum :
    (blocks : List Block) (n : ℕ) → n < u32_mod → sum_bytes blocks n ≡ wrap32 (n + sum_sizes blocks)
unfolding sum_bytes
sum_bytes-sum [] n lt = omega arith
sum_bytes-sum (b ∷ blocks) n lt = omega (arith, sum_bytes-sum blocks (add32 n b.size) (omega arith))

chain_of : (a x y z : ℕ) → a ≡ wrap32 (0 + x) → wrap32 x ≡ wrap32 (0 + y) → y ≡ z + 0 → a ≡ wrap32 z
chain_of a x y z p q r = omega (arith, p, q, r)

func_eq : (f g : ProfileFunc) → f.total ≡ g.total → f.self ≡ g.self → f.node ≡ g.node → f ≡ g
func_eq f g total self node = λ i. record { total = total i; self = self i; node = node i }

-- A function of the profile: `stack_of` walks the stack of a block from the innermost call outwards.
module _ (symbol_at : ℕ → ℕ) (text : ℕ → ℕ) (stash : StackStash) (skip : List ℕ) (h : Blocks)
    (table : Table ℕ) where
  abbrev pub stack_of : ℕ → List ℕ
  stack_of b = walk stash.used stash (h.cell b).stack

  -- The bytes of the blocks in the table whose stack has the function, and of those whose innermost
  -- call is in it, apart from the functions to be skipped.
  abbrev pub total_bytes : ℕ → ℕ
  total_bytes s =
      total (λ b. if calls symbol_at text skip s (stack_of b) then (h.cell b).size else 0) table

  abbrev pub self_bytes : ℕ → ℕ
  self_bytes s =
      total (λ b. if innermost symbol_at text skip s (stack_of b) then (h.cell b).size else 0) table

  abbrev pub all_bytes : ℕ
  all_bytes = total (λ b. (h.cell b).size) table

  abbrev pub func_report : ℕ × ℕ → ProfileFunc
  func_report (s, n) = record {
    total = wrap32 (total_bytes s);
    self = wrap32 (self_bytes s);
    node = some n;
  }

  blocks-total :
      (f : Block → ℕ) (g : List Block → ℕ) (t : Table ℕ) (blocks : List Block)
      → ((b : Block) (rest : List Block) → g (b ∷ rest) ≡ f b + g rest)
      → g (process_block_foreach (λ b bs. h.cell b ∷ bs) t blocks)
        ≡ total (λ b. f (h.cell b)) t + g blocks
  unfolding process_block_foreach total
  blocks-total f g [] blocks step = omega arith
  blocks-total f g ((k, b) ∷ t) blocks step =
      omega (arith, blocks-total f g t (h.cell b ∷ blocks) step, step (h.cell b) blocks)

  abbrev blocks : List Block
  blocks = blocks_list h table

  abbrev built : Profile
  built = profile_build_tree symbol_at text stash skip blocks empty_profile

  is_built : IsBuilt symbol_at text skip empty_profile stash blocks built
  is_built =
      profile_build_tree-IsBuilt symbol_at text skip stash blocks empty_profile empty-IsTree
        empty-IsIndexed

  abbrev created : Profile
  created = profile_create symbol_at text stash skip h table

  entry_report :
      (e : ℕ × ℕ) → lookup e.0 built.nodes_by_symbol ≡ some e.1 → entry_func built e ≡ func_report e
  unfolding blocks_list process_block_foreach
  entry_report e found =
      let chained =
        subst (Chained built.node e.0 built.used) found (is_built.indexed.chained e.0) in
      let loop =
        add_function_loop-sums built.node e.0 built.used built.used (some e.1)
          (record { total = 0; self = 0; node = some e.1 }) chained (omega arith) (omega arith)
          (omega arith) in
      let under =
        blocks-total
          (λ b. if calls symbol_at text skip e.0 (walk stash.used stash b.stack) then b.size else 0)
          (bytes_under symbol_at text skip stash e.0) table [] (λ b rest. refl) in
      let in_it =
        blocks-total
          (λ b.
            if innermost symbol_at text skip e.0 (walk stash.used stash b.stack) then b.size else 0)
          (bytes_in symbol_at text skip stash e.0) table [] (λ b rest. refl) in
      func_eq (entry_func built e) (func_report e)
        (chain_of _ _ _ (total_bytes e.0) loop.1 (is_built.totals e.0) under)
        (chain_of _ _ _ (self_bytes e.0) loop.0 (is_built.selfs e.0) in_it) loop.2

  all_sum : 0 + sum_sizes blocks ≡ all_bytes
  unfolding blocks_list
  all_sum = omega (arith, blocks-total (λ b. b.size) sum_sizes table [] (λ b rest. refl))

  -- The profile has one function for each symbol of its table, and no symbol is in the table twice.
  -- Modulo 2 ^ 32, as `guint` counts, the function's `total` is the sum of the sizes of the blocks in the
  -- table whose stack has the symbol, each block once however often it recurs, `self` is that of the
  -- blocks whose innermost call is in it (the functions to be skipped left out of the stacks), and
  -- `n_bytes` is the sum of all sizes.
  pub profile_create-functions :
      (created.functions ≡ map func_report created.nodes_by_symbol)
      × IsTable created.nodes_by_symbol
      × (created.n_bytes ≡ wrap32 all_bytes)
  unfolding profile_create
  profile_create-functions =
      let p = record built { n_bytes = sum_bytes blocks 0 } in
      let table_of = built.nodes_by_symbol in
      let rest = add_functions-rest table_of p in
      let listed = add_functions-map table_of p in
      let found = entries_found table_of is_built.indexed.table in
      let reported = map-All (entry_func built) func_report table_of (
        All-map (λ e. lookup e.0 table_of ≡ some e.1) (λ e. entry_func built e ≡ func_report e)
          table_of entry_report found) in
      (
        listed
            ∙ ap (λ fs. fs ++ map (entry_func built) table_of)
                (profile_build_tree-functions symbol_at text stash skip blocks empty_profile)
            ∙ reported
            ∙ ap (map func_report) (sym rest.0),
        subst IsTable (sym rest.0) is_built.indexed.table,
        rest.1 ∙ sum_bytes-sum blocks 0 (omega arith) ∙ ap wrap32 all_sum,
      )
