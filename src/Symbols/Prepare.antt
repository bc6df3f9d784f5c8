-- ===== src/Symbols/Prepare.antt =====
-- src/process.c: `prepare_map` leaves the function symbols of a map in the order of their addresses.
use mathlib.Core.List.Memᴰ
use mathlib.Core.List.{Mem, Memᴰ}
use mathlib.Core.List.Perm
use mathlib.Core.List.{Perm}
use memprof.Common.Sort.{IsSorted, sort_by, sort_by-IsSorted, sort_by-Perm}
use mathlib.Core.Logic.{∥∥₁_map, ⊎_elim}
use memprof.Common.{
  if◌then◌else◌, some, Option, false, true, inr, inl, ◌⊎◌, ◌↔◌, ◌∙◌, ap, get_or, length, arith, ◌∷◌,
  [], List, ◌&&◌, Bool, refl, ◌≡◌, ◌<◌, ◌≤◌, suc, zero, ℕ,
}
use memprof.Process.{AddressMap, MapSymbol}
use memprof.Symbols.{is_pie, prepare_map, BfdSymbol, compare_address, symbol_addr, function_symbols}
use memprof.Common.Sort.{sort_by}

abbrev pub NotAbove : MapSymbol → MapSymbol → Type 0
NotAbove s t = s.addr ≤ t.addr

pub sort_symbols-IsSorted :
    (symbols : List MapSymbol) → IsSorted NotAbove (sort_by compare_address symbols)
unfolding compare_address
sort_symbols-IsSorted symbols =
    sort_by-IsSorted compare_address NotAbove (λ x y z p q. omega (arith, p, q))
      (λ x y e. ground arith) (λ x y e. ground arith) symbols

-- The symbols of a list stand in order, at its indices too.
symbols-mem :
    (symbols : List MapSymbol) (s d : MapSymbol) (i : ℕ)
    → i < length symbols
    → Memᴰ (get_or symbols i d) symbols
symbols-mem [] s d i lt = absurd (omega arith)
symbols-mem (t ∷ symbols) s d zero lt = Memᴰ.head refl
symbols-mem (t ∷ symbols) s d (suc i) lt = Memᴰ.tail (symbols-mem symbols s d i (omega arith))

pub symbol_addr_first :
    (symbols : List MapSymbol) (i : ℕ)
    → IsSorted NotAbove symbols
    → i < length symbols
    → symbol_addr symbols 0 ≤ symbol_addr symbols i
symbol_addr_first [] i s lt = absurd (omega arith)
symbol_addr_first (t ∷ symbols) zero s lt = omega arith
symbol_addr_first (t ∷ symbols) (suc i) s lt = s.0 _ (symbols-mem symbols t _ i (omega arith))

abbrev pub is_text_function : BfdSymbol → Bool
is_text_function s = s.is_function && s.in_text

abbrev pub symbol_of : BfdSymbol → MapSymbol
symbol_of s = record { addr = s.value; size = 0; name = s.name }

-- A symbol comes from a function in .text among those of the file.
abbrev pub IsFunctionOf : List BfdSymbol → MapSymbol → Type 0
IsFunctionOf syms t =
    (s : BfdSymbol) × Memᴰ s syms × (is_text_function s ≡ true) × (t ≡ symbol_of s)

function_symbols_cases :
    (s : BfdSymbol) (syms : List BfdSymbol)
    → ((is_text_function s ≡ true)
        × (function_symbols (s ∷ syms) ≡ symbol_of s ∷ function_symbols syms))
      ⊎ ((is_text_function s ≡ false) × (function_symbols (s ∷ syms) ≡ function_symbols syms))
unfolding function_symbols
function_symbols_cases s syms = ground arith

mem-function_symbols :
    (t : MapSymbol) (syms : List BfdSymbol) → Memᴰ t (function_symbols syms) ↔ IsFunctionOf syms t
unfolding function_symbols
mem-function_symbols t [] = (λ m. absurd (Memᴰ.not-nil m), λ e. absurd (Memᴰ.not-nil (e.1)))
mem-function_symbols t (s ∷ syms) =
    let ih = mem-function_symbols t syms in
    let later : IsFunctionOf syms t → IsFunctionOf (s ∷ syms) t =
      λ e. (e.0, Memᴰ.tail (e.1), e.2, e.3) in
    elim (function_symbols_cases s syms) [
      | inl here ↦ rw (here.1) (
        λ m.
            ⊎_elim (λ e. (s, Memᴰ.head refl, here.0, e)) (λ old. later (ih.0 old))
              (Memᴰ.cases_cons m),
        λ e.
            ⊎_elim (λ same. Memᴰ.head (e.3 ∙ ap symbol_of same))
              (λ old. Memᴰ.tail (ih.1 (e.0, old, e.2, e.3))) (Memᴰ.cases_cons (e.1)),
      )
      | inr other ↦ rw (other.1) (
        λ m. later (ih.0 m),
        λ e. ⊎_elim (λ same. cc) (λ old. ih.1 (e.0, old, e.2, e.3)) (Memᴰ.cases_cons (e.1)),
      )
    ]

module _ (read_bfd : AddressMap → Option (List BfdSymbol)) (m : AddressMap) where
  abbrev prepared : List BfdSymbol → AddressMap
  prepared syms =
      let symbols = sort_by compare_address (function_symbols syms) in
      record m {
        prepared = true;
        symbols = some symbols;
        do_offset = if is_pie m symbols then true else m.do_offset;
      }

  pub prepare_map-read :
      (syms : List BfdSymbol)
      → m.prepared ≡ false
      → read_bfd m ≡ some syms
      → prepare_map read_bfd m ≡ prepared syms
  unfolding prepare_map
  prepare_map-read syms fresh read = ground arith

  -- A map that is not yet prepared, whose file the bfd library reads: `prepare_map` marks the map and
  -- leaves the functions of the .text section in the order of their addresses, each as often as the
  -- file has it. A symbol is among them exactly if it comes from such a function.
  pub prepare_map-IsSorted :
      (syms : List BfdSymbol)
      → m.prepared ≡ false
      → read_bfd m ≡ some syms
      → (symbols : List MapSymbol) × ((prepare_map read_bfd m).symbols ≡ some symbols)
        × ((prepare_map read_bfd m).prepared ≡ true)
        × IsSorted NotAbove symbols
        × Perm symbols (function_symbols syms)
        × ((t : MapSymbol) → Mem t symbols ↔ ∥ IsFunctionOf syms t ∥₁)
  prepare_map-IsSorted syms fresh read =
      let e = prepare_map-read syms fresh read in
      let perm = sort_by-Perm compare_address (function_symbols syms) in
      (
        sort_by compare_address (function_symbols syms),
        ap (λ q. q.symbols) e,
        ap (λ q. q.prepared) e,
        sort_symbols-IsSorted (function_symbols syms),
        perm,
        λ t. (
          λ n. ∥∥₁_map ((Perm.mem_iff perm).0 n) (mem-function_symbols t syms).0,
          λ n. (Perm.mem_iff perm).1 (∥∥₁_map n (mem-function_symbols t syms).1),
        ),
      )
