-- ===== src/Profile/Stacks.antt =====
-- src/profile.c: the stacks of the blocks, and the tree that `profile_build_tree` makes of them.
use memprof.Common.{
  ◌&&◌, ap, Bool-cases, if◌then◌else◌, ◌==◌, arith, map, ◌∷◌, [], List, none, false, true, Bool,
  inr, inl, ◌∙◌, refl, ◌≡◌, ◌+◌, ℕ, has,
}
use memprof.Profile.Rounds.{ends_in, trace_rounds-sums}
use memprof.Profile.Trees.{IsTree}
use memprof.Profile.Chains.{IsIndexed, trace_rounds-IsIndexed}
use memprof.Profile.{trace_rounds, top, profile_build_tree, stack_list, Profile}
use memprof.StackStash.{walk, StackStash}
use memprof.Block.{Block}
use memprof.Profile.Sums.{total_sum, self_sum}
use memprof.Common.Word.{wrap32}

either :
    (x y z : Bool)
    → (if x then true else (if y then true else z)) ≡ (if (if y then true else x) then true else z)
either true true z = refl
either true false z = refl
either false true z = refl
either false false z = refl

bit : (x : Bool) → (if x then true else false) ≡ x
bit true = refl
bit false = refl

and_true : (x : Bool) → (x && true) ≡ x
and_true true = refl
and_true false = refl

one_block :
    (a b c size rest : ℕ) (x : Bool)
    → wrap32 a ≡ wrap32 (b + (if x then wrap32 size else 0))
    → wrap32 c ≡ wrap32 (a + rest)
    → wrap32 c ≡ wrap32 (b + ((if x then size else 0) + rest))
one_block a b c size rest true e f = omega (arith, e, f)
one_block a b c size rest false e f = omega (arith, e, f)

module _ (symbol_at : ℕ → ℕ) (text : ℕ → ℕ) (skip : List ℕ) where
  -- On a walk from the innermost call outwards: whether the function is on it, and whether it is the
  -- innermost, apart from the functions to be skipped.
  abbrev pub calls : ℕ → List ℕ → Bool
  calls s [] = false
  calls s (a ∷ rest) =
      if has (text (symbol_at a)) skip
      then calls s rest
      else if symbol_at a == s
      then true
      else calls s rest

  abbrev pub innermost : ℕ → List ℕ → Bool
  innermost s [] = false
  innermost s (a ∷ rest) =
      if has (text (symbol_at a)) skip then innermost s rest else (symbol_at a == s)

  -- The bytes of the blocks whose stack has the function, and of those that it has allocated itself.
  abbrev pub bytes_under : StackStash → ℕ → List Block → ℕ
  bytes_under stash s [] = 0
  bytes_under stash s (b ∷ blocks) =
      (if calls s (walk stash.used stash b.stack) then b.size else 0) + bytes_under stash s blocks

  abbrev pub bytes_in : StackStash → ℕ → List Block → ℕ
  bytes_in stash s [] = 0
  bytes_in stash s (b ∷ blocks) =
      (if innermost s (walk stash.used stash b.stack) then b.size else 0) + bytes_in stash s blocks

  pub stack_list-has :
      (s : ℕ) (rest stack : List ℕ)
      → has s (map symbol_at (stack_list symbol_at text skip rest stack))
        ≡ (if calls s rest then true else has s (map symbol_at stack))
  unfolding stack_list
  stack_list-has s [] stack = refl
  stack_list-has s (a ∷ rest) stack = elim (Bool-cases (has (text (symbol_at a)) skip)) [
    | inl left_out ↦ rw left_out (stack_list-has s rest stack)
    | inr kept ↦
        rw kept (stack_list-has s rest (a ∷ stack) ∙ either (calls s rest) (symbol_at a == s) _)
  ]

  stack_list-ends_in :
      (s : ℕ) (rest : List ℕ) (a : ℕ) (stack : List ℕ)
      → ends_in s (map symbol_at (stack_list symbol_at text skip rest (a ∷ stack)))
        ≡ ends_in s (map symbol_at (a ∷ stack))
  unfolding stack_list
  stack_list-ends_in s [] a stack = refl
  stack_list-ends_in s (b ∷ rest) a stack = elim (Bool-cases (has (text (symbol_at b)) skip)) [
    | inl left_out ↦ rw left_out (stack_list-ends_in s rest a stack)
    | inr kept ↦ rw kept (stack_list-ends_in s rest b (a ∷ stack))
  ]

  stack_list-innermost :
      (s : ℕ) (rest : List ℕ)
      → ends_in s (map symbol_at (stack_list symbol_at text skip rest [])) ≡ innermost s rest
  unfolding stack_list
  stack_list-innermost s [] = refl
  stack_list-innermost s (a ∷ rest) = elim (Bool-cases (has (text (symbol_at a)) skip)) [
    | inl left_out ↦ rw left_out (stack_list-innermost s rest)
    | inr kept ↦ rw kept (stack_list-ends_in s rest a [])
  ]

  -- What `profile_build_tree` has made of the blocks so far.
  pub record IsBuilt (p : Profile) (stash : StackStash) (blocks : List Block) (q : Profile)
      : Type 0 where
    pub tree : IsTree q
    pub indexed : IsIndexed q
    pub totals :
        (s : ℕ) → wrap32 (total_sum s q) ≡ wrap32 (total_sum s p + bytes_under stash s blocks)
    pub selfs : (s : ℕ) → wrap32 (self_sum s q) ≡ wrap32 (self_sum s p + bytes_in stash s blocks)

  pub profile_build_tree-IsBuilt :
      (stash : StackStash) (blocks : List Block) (p : Profile)
      → IsTree p
      → IsIndexed p
      → IsBuilt p stash blocks (profile_build_tree symbol_at text stash skip blocks p)
  unfolding profile_build_tree
  profile_build_tree-IsBuilt stash [] p tree indexed = record {
    tree = tree;
    indexed = indexed;
    totals = λ s. omega arith;
    selfs = λ s. omega arith;
  }
  profile_build_tree-IsBuilt stash (b ∷ blocks) p tree indexed =
      let stack = walk stash.used stash b.stack in
      let symbols = map symbol_at (stack_list symbol_at text skip stack []) in
      let q = trace_rounds symbols (wrap32 b.size) p top none [] in
      let sums = trace_rounds-sums symbols (wrap32 b.size) p top none [] tree refl refl in
      let built =
        profile_build_tree-IsBuilt stash blocks q sums.0
          (trace_rounds-IsIndexed symbols (wrap32 b.size) p top none [] indexed) in
      let under_s : (s : ℕ) → has s symbols ≡ calls s stack =
        λ s. stack_list-has s stack [] ∙ bit (calls s stack) in
      record {
        tree = built.tree;
        indexed = built.indexed;
        totals = λ s.
            one_block (total_sum s q) (total_sum s p) _ b.size _ (calls s stack)
              ((sums.1 s).0
                ∙ ap (λ x. wrap32 (total_sum s p + (if x && true then wrap32 b.size else 0)))
                    (under_s s)
                ∙ ap (λ x. wrap32 (total_sum s p + (if x then wrap32 b.size else 0)))
                    (and_true (calls s stack)))
              (built.totals s);
        selfs = λ s.
            one_block (self_sum s q) (self_sum s p) _ b.size _ (innermost s stack)
              ((sums.1 s).1
                ∙ ap (λ x. wrap32 (self_sum s p + (if x then wrap32 b.size else 0)))
                    (stack_list-innermost s stack))
              (built.selfs s);
      }
