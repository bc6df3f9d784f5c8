-- ===== src/Symbols/Named.antt =====
-- src/process.c: the name that `process_locate_symbol` gives an address.
use memprof.Common.Sort.{IsSorted}
use memprof.Symbols.Locate.{IsLocated, IsOutside, locate_map-IsLocated}
use memprof.Leak.Search.{Locates}
use memprof.Symbols.Search.{symbol_index_stuck, symbol_index-found, symbol_index-low}
use memprof.Symbols.Prepare.{NotAbove, symbol_addr_first}
use memprof.Common.{
  All, get_elem?, ◌∷◌, [], Option, true, sym, ==→eq, ◌==◌, length, Option-cases, Bool-cases, ltb→le,
  ltb→lt, if◌then◌else◌, ltb, arith, List, some, none, inr, inl, ◌⊎◌, ◌≢◌, refl, ◌≡◌, ◌<◌, ◌-◌, ℕ,
}
use memprof.Process.{Process, AddressMap, MapSymbol}
use memprof.Symbols.{
  MapLine, function_symbols, unknown_map, process_locate_symbol, BfdSymbol, covers, of_map,
  of_symbol, symbol_in, symbol_index, symbol_addr, SymbolName, symbol_name,
}
use memprof.Common.Outcome.{◌>>=◌, out_of_fuel, done}
use memprof.Symbols.Locate.{IsFit, IsReady}
use mathlib.Core.Path.{subst}
use memprof.World.Server.{answer}

-- The address that the symbols of the map are searched for.
abbrev pub offset_in : AddressMap → ℕ → ℕ
offset_in m addr = if m.do_offset then addr - m.addr else addr

-- The last symbol at or below the address, or the first where all are above it.
abbrev pub IsChosen : List MapSymbol → ℕ → ℕ → Type 0
IsChosen symbols addr i =
    Locates (symbol_addr symbols) (length symbols) addr (some i)
    ⊎ ((i ≡ 0) × (addr < symbol_addr symbols 0))

abbrev pub IsNamed : AddressMap → ℕ → SymbolName → Type 0
IsNamed m addr s = elim m.symbols [
  | none ↦ s ≡ of_map m.name
  | some symbols ↦
      ((length symbols ≡ 0) × (s ≡ of_map m.name))
      ⊎ ((i : ℕ) × (s ≡ of_symbol (symbol_name symbols i)) × IsChosen symbols (offset_in m addr) i)
]

several : (n : ℕ) → 0 < n → n ≢ 1 → 1 < n
several n pos other = grind arith

symbol_index-IsChosen :
    (f : ℕ) (symbols : List MapSymbol) (addr : ℕ)
    → 0 < length symbols
    → IsSorted NotAbove symbols
    → IsFit f symbols
    → (i : ℕ) × (symbol_index f (symbol_addr symbols) (length symbols) addr ≡ done i)
      × IsChosen symbols addr i
symbol_index-IsChosen f symbols addr pos sorted fit =
    elim (Bool-cases (ltb addr (symbol_addr symbols 0))) [
      | inr above ↦
          let (i, e, chosen) =
            symbol_index-found f (symbol_addr symbols) (length symbols) addr pos fit.0 fit.1
              (ltb→le _ _ above) in
          (i, e, inl chosen)
      | inl below ↦
          let low = ltb→lt _ _ below in
          (
            0,
            symbol_index-low f (symbol_addr symbols) (length symbols) addr
                (several (length symbols) pos fit.2) fit.0 fit.1
                (λ i lt. omega (arith, low, symbol_addr_first symbols i sorted lt)),
            inr (refl, low),
          )
    ]

pub symbol_in-IsNamed :
    (f : ℕ) (m : AddressMap) (addr : ℕ)
    → IsReady f m
    → (s : SymbolName) × (symbol_in f m addr ≡ done s) × IsNamed m addr s
unfolding symbol_in
symbol_in-IsNamed f m addr ready = elim (Option-cases m.symbols) [
  | inl bare ↦ rw (bare, symbol_in) (of_map m.name, refl, refl)
  | inr (symbols, e) ↦
      let table =
        subst (λ o. elim o [ none ↦ Unit | some t ↦ IsSorted NotAbove t × IsFit f t ]) e ready in
      elim (Bool-cases (length symbols == 0)) [
        | inl empty ↦ rw (e, empty, symbol_in) (of_map m.name, refl, inl (==→eq _ _ empty, refl))
        | inr full ↦
            let (i, found, chosen) =
              symbol_index-IsChosen f symbols (offset_in m addr) (ground arith) table.0 table.1 in
            rw (e, full, found, symbol_in)
              (of_symbol (symbol_name symbols i), refl, inr (i, refl, chosen))
      ]
]

-- The search of `process_locate_symbol` does not end, whatever the fuel, where the map has one symbol and the address is below it:
-- `last - 1` wraps around at `last = 0`.
pub symbol_in_stuck :
    (f : ℕ) (m : AddressMap) (symbol : MapSymbol) (addr : ℕ)
    → m.symbols ≡ some (symbol ∷ [])
    → offset_in m addr < symbol.addr
    → symbol_in f m addr ≡ out_of_fuel
unfolding symbol_in
symbol_in_stuck f m symbol addr e below =
    rw (e, symbol_in, symbol_index_stuck f (symbol_addr (symbol ∷ [])) (offset_in m addr) below)
      refl

-- What `process_locate_symbol` returns, by what `locate_map` does.
abbrev pub IsAnswer : ℕ → ℕ → Process × SymbolName → Type 0
IsAnswer f addr (p, s) =
    (All (IsOutside addr) p.map_list × (s ≡ unknown_map))
    ⊎ ((m : AddressMap) × (covers m addr ≡ true)
        × ((i : ℕ) × (get_elem? p.map_list i ≡ some m))
        × IsNamed m addr s)

module _ (read_bfd : AddressMap → Option (List BfdSymbol)) (f : ℕ)
    (fits : (m : AddressMap) (syms : List BfdSymbol)
      → read_bfd m ≡ some syms
      → IsFit f (function_symbols syms)) where
  IsAnswer-of_located :
      (p : Process) (o : Option AddressMap) (addr : ℕ)
      → IsLocated f addr (p, o)
      → (r : Process × SymbolName) × ((elim o [
        | none ↦ done (p, unknown_map)
        | some m ↦ symbol_in f m addr >>= (λ s. done (p, s))
      ])
          ≡ done r)
        × (r.0 ≡ p)
        × IsAnswer f addr r
  IsAnswer-of_located p none addr located = ((p, unknown_map), refl, refl, inl (located.0, refl))
  IsAnswer-of_located p (some m) addr located =
      let (s, e, named) = symbol_in-IsNamed f m addr (located.2) in
      ((p, s), rw e refl, refl, inr (m, located.0, located.3, named))

  -- `prepare_map` reads tables of at most `f` symbols, fewer than 2 ^ 31 and not just one, the tables of
  -- the map list are in order, and /proc/PID/maps opens. Then `process_locate_symbol` ends and the tables
  -- stay in order. It returns "<unknown map>" only where no map covers the address. Else it returns, for
  -- a map of the list that covers the address, the map's name where the map has no symbols, and the name
  -- of the last symbol at or below the address (less the map's start where `do_offset` is set), or of
  -- the first symbol where all are above it.
  pub process_locate_symbol-IsAnswer :
      (lines : List MapLine) (p : Process) (addr : ℕ)
      → All (IsReady f) p.map_list
      → (r : Process × SymbolName) × (process_locate_symbol read_bfd f (some lines) p addr ≡ done r)
        × All (IsReady f) r.0.map_list
        × IsAnswer f addr r
  unfolding process_locate_symbol
  process_locate_symbol-IsAnswer lines p addr ready =
      let (q, e, kept, located) = locate_map-IsLocated read_bfd f fits lines p addr ready in
      let (r, e2, same, answer) = IsAnswer-of_located q.0 q.1 addr located in
      (
        r,
        rw (e, process_locate_symbol) e2,
        subst (λ x. All (IsReady f) x.map_list) (sym same) kept,
        answer,
      )
