-- ===== src/Symbols/Search.antt =====
-- src/process.c: the symbol that `process_locate_symbol` finds among those of a map.
use memprof.Leak.Search.{
  first_below_last, Locates-of_Between, find_loop_stop, find_loop_below, find_loop_above,
  find_loop-Between, Locates,
}
use memprof.Common.{
  Bool-cases, ltb→le, lt→ltb, ltb→lt, ltb, arith, some, false, true, inr, inl, ◌∙◌, ap, sym, refl,
  ◌≡◌, ◌<◌, ◌≤◌, ◌/◌, ◌-◌, ◌+◌, suc, zero, ℕ,
}
use memprof.Leak.{find_loop}
use memprof.Symbols.{symbol_index, symbol_loop}
use memprof.Common.Word.{u32_mod, add32, sub32}
use memprof.Common.Outcome.{done, out_of_fuel}

symbol_loop_stop :
    (f : ℕ) (key : ℕ → ℕ) (addr first last : ℕ)
    → ltb first (sub32 last 1) ≡ false
    → symbol_loop (suc f) key addr first last ≡ done first
unfolding symbol_loop
symbol_loop_stop f key addr first last e = rw (e, symbol_loop) refl

symbol_loop_below :
    (f : ℕ) (key : ℕ → ℕ) (addr first last : ℕ)
    → ltb first (sub32 last 1) ≡ true
    → ltb addr (key (add32 first last / 2)) ≡ true
    → symbol_loop (suc f) key addr first last ≡ symbol_loop f key addr first (add32 first last / 2)
unfolding symbol_loop
symbol_loop_below f key addr first last e d = rw (e, d, symbol_loop) refl

symbol_loop_above :
    (f : ℕ) (key : ℕ → ℕ) (addr first last : ℕ)
    → ltb first (sub32 last 1) ≡ true
    → ltb addr (key (add32 first last / 2)) ≡ false
    → symbol_loop (suc f) key addr first last ≡ symbol_loop f key addr (add32 first last / 2) last
unfolding symbol_loop
symbol_loop_above f key addr first last e d = rw (e, d, symbol_loop) refl

-- The loop is that of `find_block`, and ends.
symbol_loop-find_loop :
    (f : ℕ) (key : ℕ → ℕ) (addr first last : ℕ)
    → first < last
    → last ≤ first + f
    → last + last < u32_mod
    → symbol_loop f key addr first last ≡ done (find_loop f key addr first last)
symbol_loop-find_loop zero key addr first last p q small = absurd (omega arith)
symbol_loop-find_loop (suc f) key addr first last p q small =
    let mid = add32 first last / 2 in
    elim (Bool-cases (ltb first (sub32 last 1))) [
      | inr stop ↦
          symbol_loop_stop f key addr first last stop
          ∙ ap done (sym (find_loop_stop f key addr first last stop))
      | inl go ↦
          let apart : first + 1 < last = omega (arith, ltb→lt _ _ go) in
          elim (Bool-cases (ltb addr (key mid))) [
            | inl below ↦
                symbol_loop_below f key addr first last go below
                ∙ symbol_loop-find_loop f key addr first mid (omega arith) (omega arith)
                    (omega arith)
                ∙ ap done (sym (find_loop_below f key addr first last go below))
            | inr above ↦
                symbol_loop_above f key addr first last go above
                ∙ symbol_loop-find_loop f key addr mid last (omega arith) (omega arith) small
                ∙ ap done (sym (find_loop_above f key addr first last go above))
          ]
    ]

-- Where no key is at or below the address the loop goes down to the first index.
symbol_loop_low :
    (f : ℕ) (key : ℕ → ℕ) (addr last : ℕ)
    → 0 < last
    → last ≤ f
    → last + last < u32_mod
    → ((i : ℕ) → i < last → addr < key i)
    → symbol_loop f key addr 0 last ≡ done 0
symbol_loop_low zero key addr last p q small low = absurd (omega arith)
symbol_loop_low (suc f) key addr last p q small low =
    let mid = add32 0 last / 2 in
    elim (Bool-cases (ltb 0 (sub32 last 1))) [
      | inr stop ↦ symbol_loop_stop f key addr 0 last stop
      | inl go ↦
          let apart : 1 < last = omega (arith, ltb→lt _ _ go) in
          let small_mid : mid < last = omega arith in
          symbol_loop_below f key addr 0 last go (lt→ltb _ _ (low mid small_mid))
          ∙ symbol_loop_low f key addr mid (omega arith) (omega arith) (omega arith)
              (λ i l. low i (omega (arith, l)))
    ]

-- With first = last = 0 the test `first < last - 1` holds, since `last - 1` wraps around.
symbol_loop_stuck :
    (f : ℕ) (key : ℕ → ℕ) (addr : ℕ) → addr < key 0 → symbol_loop f key addr 0 0 ≡ out_of_fuel
unfolding symbol_loop
symbol_loop_stuck zero key addr low = refl
symbol_loop_stuck (suc f) key addr low =
    symbol_loop_below f key addr 0 0 refl (lt→ltb _ _ low) ∙ symbol_loop_stuck f key addr low

-- The index is that of the last key not above the address.
pub symbol_index-found :
    (f : ℕ) (key : ℕ → ℕ) (len addr : ℕ)
    → 0 < len
    → len ≤ f
    → len + len < u32_mod
    → key 0 ≤ addr
    → (i : ℕ) × (symbol_index f key len addr ≡ done i) × Locates key len addr (some i)
unfolding symbol_index
symbol_index-found f key len addr pos enough small lo =
    let last = sub32 len 1 in
    let e : sub32 len 1 ≡ len - 1 = omega arith in
    elim (Bool-cases (ltb addr (key last))) [
      | inr high ↦
          let top : Locates key len addr (some last) =
            (omega (arith, e), ltb→le _ _ high, λ h. absurd (omega (arith, e))) in
          (last, rw (high, symbol_index) refl, top)
      | inl inside ↦
          let hi = ltb→lt _ _ inside in
          let room = first_below_last key addr last lo hi in
          let b =
            find_loop-Between f key addr 0 last room (omega (arith, e)) (omega (arith, e)) lo hi in
          (
            find_loop f key addr 0 last,
            rw (inside, symbol_index)
                (symbol_loop-find_loop f key addr 0 last room (omega (arith, e))
                  (omega (arith, e))),
            Locates-of_Between key len addr _ pos (omega arith) b,
          )
    ]

-- Where every key is above the address, the index is the first.
pub symbol_index-low :
    (f : ℕ) (key : ℕ → ℕ) (len addr : ℕ)
    → 1 < len
    → len ≤ f
    → len + len < u32_mod
    → ((i : ℕ) → i < len → addr < key i)
    → symbol_index f key len addr ≡ done 0
unfolding symbol_index
symbol_index-low f key len addr pos enough small low =
    let e : sub32 len 1 ≡ len - 1 = omega arith in
    rw (lt→ltb addr (key (sub32 len 1)) (low _ (omega (arith, e))), symbol_index)
      (symbol_loop_low f key addr (sub32 len 1) (omega (arith, e)) (omega (arith, e))
        (omega (arith, e)) (λ i l. low i (omega (arith, e, l))))

pub symbol_index_stuck :
    (f : ℕ) (key : ℕ → ℕ) (addr : ℕ) → addr < key 0 → symbol_index f key 1 addr ≡ out_of_fuel
unfolding symbol_index
symbol_index_stuck f key addr low =
    rw (lt→ltb addr (key 0) low, symbol_index) (symbol_loop_stuck f key addr low)
