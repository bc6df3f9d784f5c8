-- ===== src/Profile/Known.antt =====
-- src/profile.c: which functions the profile has.
use mathlib.Core.Option.{some-injective}
use memprof.Profile.Trees.{Stands}
use memprof.Common.{
  map, Option-cases, Bool-cases, eq→==, ==→eq, if◌then◌else◌, ◌==◌, arith, ◌∷◌, [], List, some,
  none, Option, false, true, Bool, inr, inl, ◌∙◌, ap, refl, ◌≡◌, ◌<◌, suc, zero, ℕ, has,
}
use memprof.Common.Table.{Table, lookup, lookup-insert}
use memprof.Profile.Traces.{old-IsMatched, counted-IsTree, counted-Above}
use memprof.Profile.Rounds.{match_at-IsMatched, trace_rounds-sums}
use memprof.Profile.Chains.{
  Chained, match_at-IsIndexed, add_bytes-IsIndexed, new-table, IsIndexed, trace_rounds-IsIndexed,
}
use memprof.Profile.Stacks.{stack_list-has, calls}
use memprof.Profile.Functions.{add_functions-rest, empty-IsTree, empty-IsIndexed, stack_of}
use mathlib.Core.Path.{subst}
use memprof.Profile.{
  sum_bytes, empty_profile, profile_build_tree, blocks_list, stack_list, top, profile_create, under,
  Level, ProfileNode, match_at, trace_rounds, is_nil, find_match, read_level, add_bytes, Profile,
}
use memprof.Profile.Trees.{IsTree, Above}
use memprof.StackStash.{StackStash, walk}
use memprof.Block.{Blocks, Block}
use memprof.World.Life.{process_block_foreach}
use memprof.Common.Word.{wrap32}

abbrev pub is_some {ℓ} : {A : Type ℓ} → Option A → Bool
is_some none = false
is_some (some a) = true

Chained-some :
    (node : ℕ → ProfileNode) (s k m : ℕ) (o : Option ℕ)
    → Chained node s k o
    → m < k
    → (node m).symbol ≡ s
    → is_some o ≡ true
Chained-some node s zero m o c lt at = absurd (omega (arith, lt))
Chained-some node s (suc k) m o (inl (here, e, c)) lt at = ap is_some e
Chained-some node s (suc k) m o (inr (other, c)) lt at = elim (Bool-cases (m == k)) [
  | inl last ↦
      let same = subst (λ j. (node j).symbol ≡ s) (==→eq m k last) at in
      absurd (ground (arith, eq→== _ _ same, other))
  | inr before ↦ Chained-some node s k m o c (ground (arith, lt, before)) at
]

is_some_if :
    (b : Bool) (n : ℕ) (o : Option ℕ)
    → is_some (if b then some n else o) ≡ (if b then true else is_some o)
is_some_if true n o = refl
is_some_if false n o = refl

swap_bits :
    (x y z : Bool)
    → (if x then true else (if y then true else z)) ≡ (if (if y then true else x) then true else z)
swap_bits true true z = refl
swap_bits true false z = refl
swap_bits false true z = refl
swap_bits false false z = refl

module _ (s : ℕ) where
  abbrev known : Profile → Bool
  known p = is_some (lookup s p.nodes_by_symbol)

  match_at-known :
      (p : Profile) (level : Level) (parent : Option ℕ) (seen : List ℕ) (symbol : ℕ)
      → IsTree p
      → IsIndexed p
      → Stands p level parent
      → Above p.node parent seen
      → known (match_at p level parent seen symbol).0 ≡ (if symbol == s then true else known p)
  unfolding match_at
  match_at-known p level parent seen symbol tree indexed stands above =
      elim (Option-cases (find_match p.node (read_level p level) symbol)) [
        | inl missing ↦
            rw (missing, match_at)
              (ap (λ t. is_some (lookup s t)) (new-table p level parent seen symbol indexed)
                ∙ ap is_some (lookup-insert symbol s p.used p.nodes_by_symbol)
                ∙ is_some_if (symbol == s) p.used (lookup s p.nodes_by_symbol))
        | inr (m, found) ↦
            let matched = old-IsMatched p level parent seen symbol tree stands above m found in
            rw (found, match_at)
              (elim (Bool-cases (symbol == s)) [
                | inl here ↦ rw here (
                    Chained-some p.node s p.used m (lookup s p.nodes_by_symbol) (indexed.chained s)
                      matched.lt (matched.at ∙ ==→eq symbol s here))
                | inr other ↦ rw other refl
              ])
      ]

  trace_rounds-known :
      (rest : List ℕ) (size : ℕ) (p : Profile) (level : Level) (parent : Option ℕ) (seen : List ℕ)
      → IsTree p
      → IsIndexed p
      → Stands p level parent
      → Above p.node parent seen
      → known (trace_rounds rest size p level parent seen) ≡ (if has s rest then true else known p)
  unfolding trace_rounds add_bytes
  trace_rounds-known [] size p level parent seen tree indexed stands above = refl
  trace_rounds-known (symbol ∷ rest) size p level parent seen tree indexed stands above =
      let q = (match_at p level parent seen symbol).0 in
      let m = (match_at p level parent seen symbol).1 in
      let matched = match_at-IsMatched p level parent seen symbol tree stands above in
      let found = match_at-IsIndexed p level parent seen symbol indexed in
      let last = is_nil rest in
      let ih =
        trace_rounds-known rest size (add_bytes q m size last) (under m) (some m) (symbol ∷ seen)
          (counted-IsTree q m size last matched.tree) (add_bytes-IsIndexed q m size last found)
          (refl, matched.lt)
          (counted-Above q m size last matched.tree (some m) (symbol ∷ seen)
            (λ n e. subst (λ j. j < q.used) (some-injective _ _ e) matched.lt) matched.above) in
      ih
      ∙ ap (λ b. if has s rest then true else b)
          (match_at-known p level parent seen symbol tree indexed stands above)
      ∙ swap_bits (has s rest) (symbol == s) (known p)

bit : (x : Bool) → (if x then true else false) ≡ x
bit true = refl
bit false = refl

module _ (symbol_at : ℕ → ℕ) (text : ℕ → ℕ) (skip : List ℕ) (stash : StackStash) (s : ℕ) where
  abbrev any_calls : List Block → Bool
  any_calls [] = false
  any_calls (b ∷ blocks) =
      if calls symbol_at text skip s (walk stash.used stash b.stack) then true else any_calls blocks

  profile_build_tree-known :
      (blocks : List Block) (p : Profile)
      → IsTree p
      → IsIndexed p
      → known s (profile_build_tree symbol_at text stash skip blocks p)
        ≡ (if any_calls blocks then true else known s p)
  unfolding profile_build_tree
  profile_build_tree-known [] p tree indexed = refl
  profile_build_tree-known (b ∷ blocks) p tree indexed =
      let stack = walk stash.used stash b.stack in
      let symbols = map symbol_at (stack_list symbol_at text skip stack []) in
      let size = wrap32 b.size in
      let q = trace_rounds symbols size p top none [] in
      profile_build_tree-known blocks q
        (trace_rounds-sums symbols size p top none [] tree refl refl).0
        (trace_rounds-IsIndexed symbols size p top none [] indexed)
      ∙ ap (λ x. if any_calls blocks then true else x)
          (trace_rounds-known s symbols size p top none [] tree indexed refl refl)
      ∙ ap (λ x. if any_calls blocks then true else (if x then true else known s p))
          (stack_list-has symbol_at text skip s stack [] ∙ bit (calls symbol_at text skip s stack))
      ∙ swap_bits (any_calls blocks) (calls symbol_at text skip s stack) (known s p)

module _ (symbol_at : ℕ → ℕ) (text : ℕ → ℕ) (stash : StackStash) (skip : List ℕ) (h : Blocks)
    (table : Table ℕ) where
  -- Some block in the table has the function on its stack.
  abbrev pub is_called : ℕ → Table ℕ → Bool
  is_called s [] = false
  is_called s ((k, b) ∷ t) =
      if calls symbol_at text skip s (stack_of symbol_at text stash skip h table b)
      then true
      else is_called s t

  blocks-is_called :
      (s : ℕ) (t : Table ℕ) (blocks : List Block)
      → any_calls symbol_at text skip stash s
          (process_block_foreach (λ b bs. h.cell b ∷ bs) t blocks)
        ≡ (if is_called s t then true else any_calls symbol_at text skip stash s blocks)
  unfolding process_block_foreach
  blocks-is_called s [] blocks = refl
  blocks-is_called s ((k, b) ∷ t) blocks =
      blocks-is_called s t (h.cell b ∷ blocks)
      ∙ swap_bits (is_called s t) _ (any_calls symbol_at text skip stash s blocks)

  -- The profile has an entry for a symbol, and so a function, exactly if some block in the table has the
  -- symbol on its stack and the symbol is not to be skipped.
  pub profile_create-is_called :
      (s : ℕ)
      → is_some (lookup s (profile_create symbol_at text stash skip h table).nodes_by_symbol)
        ≡ is_called s table
  unfolding profile_create blocks_list lookup
  profile_create-is_called s =
      let blocks = blocks_list h table in
      let built = profile_build_tree symbol_at text stash skip blocks empty_profile in
      ap (λ t. is_some (lookup s t))
        (add_functions-rest built.nodes_by_symbol (record built { n_bytes = sum_bytes blocks 0 })).0
      ∙ profile_build_tree-known symbol_at text skip stash s blocks empty_profile empty-IsTree
          empty-IsIndexed
      ∙ ap (λ x. if x then true else false) (blocks-is_called s table [])
      ∙ bit (if is_called s table then true else false)
      ∙ bit (is_called s table)
