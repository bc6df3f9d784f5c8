-- ===== src/Leak/Search.antt =====
-- src/leakdetect.c: `find_block` finds exactly the block that an address points into.
use mathlib.Core.List.Memᴰ
use memprof.Common.{
  ◌↔◌, lt→ltb, get_or, length, if◌then◌else◌, ◌∷◌, [], List, ◌∙◌, ap, refl, Bool-cases, ==→eq,
  ltb→le, ltb→lt, ◌==◌, ltb, arith, some, none, Option, false, true, inr, inl, ◌⊎◌, sym, ◌≡◌, ◌<◌,
  ◌≤◌, ◌/◌, ◌-◌, ◌+◌, suc, zero, ℕ,
}
use mathlib.Core.Path.{subst}
use memprof.Leak.{size_of, addr_of, find_block, find_loop, find_index}
use memprof.Common.Word.{add32, sub32, u32_mod}
use mathlib.Core.List.{Memᴰ}
use memprof.Block.{Blocks}

-- `i` is a neighbour below `addr` of an index whose key is above it.
abbrev pub Between : (ℕ → ℕ) → ℕ → ℕ → ℕ → Type 0
Between key addr last i = (i < last) × (key i ≤ addr) × (addr < key (i + 1))

pub find_loop_stop :
    (f : ℕ) (key : ℕ → ℕ) (addr first last : ℕ)
    → ltb first (sub32 last 1) ≡ false
    → find_loop (suc f) key addr first last ≡ first
unfolding find_loop
find_loop_stop f key addr first last e = rw (e, find_loop)

pub find_loop_below :
    (f : ℕ) (key : ℕ → ℕ) (addr first last : ℕ)
    → ltb first (sub32 last 1) ≡ true
    → ltb addr (key (add32 first last / 2)) ≡ true
    → find_loop (suc f) key addr first last ≡ find_loop f key addr first (add32 first last / 2)
unfolding find_loop
find_loop_below f key addr first last e d = rw (e, d, find_loop)

pub find_loop_above :
    (f : ℕ) (key : ℕ → ℕ) (addr first last : ℕ)
    → ltb first (sub32 last 1) ≡ true
    → ltb addr (key (add32 first last / 2)) ≡ false
    → find_loop (suc f) key addr first last ≡ find_loop f key addr (add32 first last / 2) last
unfolding find_loop
find_loop_above f key addr first last e d = rw (e, d, find_loop)

-- With `key first ≤ addr < key last` the loop ends at neighbours, and stays between the two.
pub find_loop-Between :
    (f : ℕ) (key : ℕ → ℕ) (addr first last : ℕ)
    → first < last
    → last ≤ first + f
    → last + last < u32_mod
    → key first ≤ addr
    → addr < key last
    → Between key addr last (find_loop f key addr first last)
find_loop-Between zero key addr first last p q small lo hi = absurd (omega arith)
find_loop-Between (suc f) key addr first last p q small lo hi =
    let mid = add32 first last / 2 in
    elim (Bool-cases (ltb first (sub32 last 1))) [
      | inr stop ↦
          let e : last ≡ first + 1 = omega (arith, ltb→le _ _ stop) in
          subst (Between key addr last) (sym (find_loop_stop f key addr first last stop))
            (p, lo, subst (λ i. addr < key i) e hi)
      | inl go ↦
          let apart : first + 1 < last = omega (arith, ltb→lt _ _ go) in
          elim (Bool-cases (ltb addr (key mid))) [
            | inl below ↦
                let ih =
                  find_loop-Between f key addr first mid (omega arith) (omega arith) (omega arith)
                    lo (ltb→lt _ _ below) in
                subst (Between key addr last) (sym (find_loop_below f key addr first last go below))
                  (omega (arith, ih.0), ih.1, ih.2)
            | inr above ↦
                subst (Between key addr last) (sym (find_loop_above f key addr first last go above))
                  (find_loop-Between f key addr mid last (omega arith) (omega arith) small
                    (ltb→le _ _ above) hi)
          ]
    ]

-- What `find_index` says of `addr`: the last index whose key is not above it, or that there is none.
abbrev pub Locates : (ℕ → ℕ) → ℕ → ℕ → Option ℕ → Type 0
Locates key len addr none = (len ≡ 0) ⊎ (addr < key 0)
Locates key len addr (some i) = (i < len) × (key i ≤ addr) × ((i + 1 < len) → addr < key (i + 1))

pub first_below_last : (key : ℕ → ℕ) (addr last : ℕ) → key 0 ≤ addr → addr < key last → 0 < last
first_below_last key addr zero lo hi = absurd (omega arith)
first_below_last key addr (suc last) lo hi = omega arith

pub Locates-of_Between :
    (key : ℕ → ℕ) (len addr i : ℕ)
    → 0 < len
    → len < u32_mod
    → Between key addr (sub32 len 1) i
    → Locates key len addr (some i)
Locates-of_Between key len addr i pos small b = (omega (arith, b.0), b.1, λ _. b.2)

find_index-Locates :
    (key : ℕ → ℕ) (len addr : ℕ)
    → len + len < u32_mod
    → Locates key len addr (find_index key len addr)
unfolding find_index
find_index-Locates key len addr small = elim (Bool-cases (len == 0)) [
  | inl empty ↦ rw (empty, find_index) (inl (==→eq _ _ empty))
  | inr full ↦
      let pos : 0 < len = ground arith in
      let e : sub32 len 1 ≡ len - 1 = omega arith in
      elim (Bool-cases (ltb addr (key 0))) [
        | inl low ↦ rw (full, low, find_index) (inr (ltb→lt _ _ low))
        | inr above ↦ elim (Bool-cases (ltb addr (key (sub32 len 1)))) [
          | inr high ↦
              rw (full, above, high, find_index)
                (omega (arith, e), ltb→le _ _ high, λ h. absurd (omega (arith, e)))
          | inl inside ↦
              let lo = ltb→le _ _ above in
              let hi = ltb→lt _ _ inside in
              let room = first_below_last key addr (sub32 len 1) lo hi in
              rw (full, above, inside, find_index)
                (Locates-of_Between key len addr _ pos (omega arith) (
                  find_loop-Between len key addr 0 (sub32 len 1) room (omega (arith, e))
                    (omega (arith, e)) lo hi))
        ]
      ]
]

-- The address lies in the block.
abbrev pub Holds : Blocks → ℕ → ℕ → Type 0
Holds h b addr = (addr_of h b ≤ addr) × (addr < addr_of h b + size_of h b)

-- The blocks of the array stand in the order of their addresses, and none reaches into a later one.
abbrev pub IsDisjoint : Blocks → List ℕ → Type 0
IsDisjoint h arr =
    (i j : ℕ)
    → i < j
    → j < length arr
    → addr_of h (get_or arr i 0) + size_of h (get_or arr i 0) ≤ addr_of h (get_or arr j 0)

pub Memᴰ-get_or : (arr : List ℕ) (i : ℕ) → i < length arr → Memᴰ (get_or arr i 0) arr
Memᴰ-get_or [] i lt = absurd (omega arith)
Memᴰ-get_or (b ∷ arr) zero lt = Memᴰ.head refl
Memᴰ-get_or (b ∷ arr) (suc i) lt = Memᴰ.tail (Memᴰ-get_or arr i (omega arith))

index_of : (arr : List ℕ) (b : ℕ) → Memᴰ b arr → (i : ℕ) × (i < length arr) × (get_or arr i 0 ≡ b)
index_of [] b m = absurd (Memᴰ.not-nil m)
index_of (c ∷ arr) b (Memᴰ.head e) = (0, omega arith, sym e)
index_of (c ∷ arr) b (Memᴰ.tail m) =
    let (i, lt, e) = index_of arr b m in (suc i, omega (arith, lt), e)

compare_cases : (i j : ℕ) → (i < j) ⊎ ((i ≡ j) ⊎ (j < i))
compare_cases i j = grind arith

module _ (h : Blocks) (arr : List ℕ) (addr : ℕ) (small : length arr + length arr < u32_mod) where
  abbrev key : ℕ → ℕ
  key i = addr_of h (get_or arr i 0)

  abbrev size : ℕ → ℕ
  size i = size_of h (get_or arr i 0)

  pick : Option ℕ → Option ℕ
  pick none = none
  pick (some i) = if ltb addr (key i + size i) then some (get_or arr i 0) else none

  find_block-pick : find_block h arr addr ≡ pick (find_index key (length arr) addr)
  unfolding find_block pick
  find_block-pick = ground arith

  pick_sound :
      (o : Option ℕ) (b : ℕ)
      → Locates key (length arr) addr o
      → pick o ≡ some b
      → Memᴰ b arr × Holds h b addr
  unfolding pick
  pick_sound none b l e = cc
  pick_sound (some i) b l e = elim (Bool-cases (ltb addr (key i + size i))) [
    | inr outside ↦ cc (e, outside)
    | inl inside ↦
        let eb : get_or arr i 0 ≡ b = ground arith in
        subst (λ x. Memᴰ x arr × Holds h x addr) eb
          (Memᴰ-get_or arr i l.0, (l.1, ltb→lt _ _ inside))
  ]

  key_step : (i j : ℕ) → IsDisjoint h arr → i ≤ j → j < length arr → key i ≤ key j
  key_step i j disjoint le lt = elim (compare_cases i j) [
    | inl before ↦ omega (arith, disjoint i j before lt)
    | inr (inl same) ↦ subst (λ k. key i ≤ key k) same (omega arith)
    | inr (inr after) ↦ absurd (omega (arith, after))
  ]

  pick_complete :
      (o : Option ℕ) (i : ℕ)
      → IsDisjoint h arr
      → Locates key (length arr) addr o
      → i < length arr
      → Holds h (get_or arr i 0) addr
      → pick o ≡ some (get_or arr i 0)
  unfolding pick
  pick_complete none zero disjoint l lt holds = ground (arith, l, holds.0)
  pick_complete none (suc i) disjoint l lt holds = ground (arith, l, holds.0, disjoint 0 (suc i))
  pick_complete (some j) i disjoint l lt holds = elim (compare_cases i j) [
    | inl before ↦ absurd (omega (arith, disjoint i j before l.0, l.1, holds.1))
    | inr (inr after) ↦ absurd (
        omega (
          arith,
          l.2 (omega (arith, after, lt)),
          key_step (j + 1) i disjoint (omega (arith, after)) lt,
          holds.0,
        ))
    | inr (inl same) ↦
        let e : get_or arr j 0 ≡ get_or arr i 0 = ap (λ k. get_or arr k 0) (sym same) in
        let inside : ltb addr (key j + size j) ≡ true =
          lt→ltb _ _ (subst (λ b. addr < addr_of h b + size_of h b) (sym e) holds.1) in
        rw inside (ap some e)
  ]

  pub find_block_sound : (b : ℕ) → find_block h arr addr ≡ some b → Memᴰ b arr × Holds h b addr
  find_block_sound b e =
      pick_sound _ b (find_index-Locates key (length arr) addr small) (sym find_block-pick ∙ e)

  pub find_block_complete :
      (b : ℕ) → IsDisjoint h arr → Memᴰ b arr → Holds h b addr → find_block h arr addr ≡ some b
  find_block_complete b disjoint m holds =
      let (i, lt, e) = index_of arr b m in
      find_block-pick
      ∙ pick_complete _ i disjoint (find_index-Locates key (length arr) addr small) lt
          (subst (λ x. Holds h x addr) (sym e) holds)
      ∙ ap some e

  -- The array holds fewer than 2 ^ 31 blocks in the order of their addresses, none of which reaches
  -- into a later one. Then `find_block` returns a block exactly if it is in the array and the
  -- address lies in it, from its first byte to its last.
  pub find_block_iff :
      (b : ℕ) → IsDisjoint h arr → (find_block h arr addr ≡ some b) ↔ (Memᴰ b arr × Holds h b addr)
  find_block_iff b disjoint = (find_block_sound b, λ q. find_block_complete b disjoint q.0 q.1)
