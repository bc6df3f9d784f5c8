-- ===== src/Symbols/Locate.antt =====
-- src/process.c: `locate_map` finds the map of an address.
use mathlib.Core.Option.{none-ne-some, some-injective}
use memprof.Common.Sort.{IsSorted, length-sort_by}
use memprof.Symbols.Prepare.{sort_symbols-IsSorted, NotAbove, prepare_map-read}
use memprof.Common.{
  has, eq→==, ◌∙◌, Option-cases, arith, sym, refl, All, get_elem?, length, Bool-cases, ◌∷◌, [],
  List, some, none, Option, false, true, inr, inl, ◌≢◌, ap, ◌≡◌, ◌<◌, ◌≤◌, ◌+◌, suc, zero, ℕ,
}
use mathlib.Core.Path.{subst}
use memprof.Process.{Process, MapSymbol, AddressMap}
use memprof.Symbols.{
  after_reading, process_read_maps, locate_map, compare_address, prepared_at, function_symbols,
  prepare_map, BfdSymbol, MapLine, read_lines, covers, real_locate_map, new_map, update_map,
  page_of,
}
use memprof.Common.Word.{u32_mod}
use memprof.Common.Outcome.{done}

-- A table of symbols of a size that the search of `process_locate_symbol` ends on.
abbrev pub IsFit : ℕ → List MapSymbol → Type 0
IsFit f symbols =
    (length symbols ≤ f) × (length symbols + length symbols < u32_mod) × (length symbols ≢ 1)

-- The symbols of a map, where it has them, are in order.
abbrev pub IsReady : ℕ → AddressMap → Type 0
IsReady f m = elim m.symbols [
  | none ↦ Unit
  | some symbols ↦ IsSorted NotAbove symbols × IsFit f symbols
]

abbrev pub IsOutside : ℕ → AddressMap → Type 0
IsOutside addr m = covers m addr ≡ false

-- What `locate_map` says: a prepared map of the list that covers the address, or that none does and the
-- page of the address is on the list of bad pages.
abbrev pub IsLocated : ℕ → ℕ → Process × Option AddressMap → Type 0
IsLocated f addr (p, none) =
    All (IsOutside addr) p.map_list × (has (page_of addr) p.bad_pages ≡ true)
IsLocated f addr (p, some m) =
    (covers m addr ≡ true)
    × (m.prepared ≡ true)
    × IsReady f m
    × ((i : ℕ) × (get_elem? p.map_list i ≡ some m))

real_locate_map-some :
    (maps : List AddressMap) (addr i : ℕ)
    → real_locate_map maps addr ≡ some i
    → (m : AddressMap) × (get_elem? maps i ≡ some m) × (covers m addr ≡ true)
unfolding real_locate_map
real_locate_map-some [] addr i e = absurd (none-ne-some _ e)
real_locate_map-some (m ∷ maps) addr i e = elim (Bool-cases (covers m addr)) [
  | inl here ↦ let first : i ≡ 0 = ground arith in (m, rw first refl, here)
  | inr other ↦ elim (Option-cases (real_locate_map maps addr)) [
    | inl nowhere ↦ ground (arith, e, other, nowhere)
    | inr (j, found) ↦
        let (n, at, inside) = real_locate_map-some maps addr j found in
        let behind : i ≡ suc j = ground arith in (n, rw behind at, inside)
  ]
]

real_locate_map-none :
    (maps : List AddressMap) (addr : ℕ)
    → real_locate_map maps addr ≡ none
    → All (IsOutside addr) maps
unfolding real_locate_map
real_locate_map-none [] addr e = tt
real_locate_map-none (m ∷ maps) addr e = elim (Bool-cases (covers m addr)) [
  | inl here ↦ ground (arith, e, here)
  | inr other ↦ (other, real_locate_map-none maps addr (ground arith))
]

module _ (f : ℕ) where
  new_map-IsReady : (l : MapLine) → IsReady f (new_map l)
  unfolding new_map
  new_map-IsReady l = tt

  read_lines-IsReady :
      (lines : List MapLine) (maps : List AddressMap)
      → All (IsReady f) maps
      → All (IsReady f) (read_lines lines maps)
  unfolding read_lines
  read_lines-IsReady [] maps ready = ready
  read_lines-IsReady (l ∷ lines) maps ready = elim (Bool-cases l.executable) [
    | inl code ↦ rw code (read_lines-IsReady lines (new_map l ∷ maps) (new_map-IsReady l, ready))
    | inr other ↦ rw other (read_lines-IsReady lines maps ready)
  ]

update_map-All {κ} :
    {P : AddressMap → Type κ} (g : AddressMap → AddressMap) (i : ℕ) (maps : List AddressMap)
    → ((m : AddressMap) → P m → P (g m))
    → All P maps
    → All P (update_map g i maps)
unfolding update_map
update_map-All g i [] keep all = all
update_map-All g zero (m ∷ maps) keep all = (keep m all.0, all.1)
update_map-All g (suc i) (m ∷ maps) keep all = (all.0, update_map-All g i maps keep all.1)

get_elem?-update_map :
    (g : AddressMap → AddressMap) (i : ℕ) (maps : List AddressMap) (m : AddressMap)
    → get_elem? maps i ≡ some m
    → get_elem? (update_map g i maps) i ≡ some (g m)
unfolding update_map
get_elem?-update_map g i [] m e = absurd (none-ne-some _ e)
get_elem?-update_map g zero (n ∷ maps) m e = ap (λ x. some (g x)) (some-injective _ _ e)
get_elem?-update_map g (suc i) (n ∷ maps) m e = get_elem?-update_map g i maps m e

All-get_elem? {κ} :
    (P : AddressMap → Type κ) (maps : List AddressMap) (i : ℕ) (m : AddressMap)
    → All P maps
    → get_elem? maps i ≡ some m
    → P m
All-get_elem? P [] i m all e = absurd (none-ne-some _ e)
All-get_elem? P (n ∷ maps) zero m all e = subst P (some-injective _ _ e) all.0
All-get_elem? P (n ∷ maps) (suc i) m all e = All-get_elem? P maps i m all.1 e

has_first : (page : ℕ) (pages : List ℕ) → has page (page ∷ pages) ≡ true
has_first page pages = rw (eq→== page page refl, has) refl

-- `read_bfd` gives a file's symbols, and the section parameter `fits` bounds how many are functions.
module _ (read_bfd : AddressMap → Option (List BfdSymbol)) (f : ℕ)
    (fits : (m : AddressMap) (syms : List BfdSymbol)
      → read_bfd m ≡ some syms
      → IsFit f (function_symbols syms)) where
  prepare_map-IsReady : (m : AddressMap) → IsReady f m → IsReady f (prepare_map read_bfd m)
  unfolding prepare_map
  prepare_map-IsReady m ready = elim (Bool-cases m.prepared) [
    | inl before ↦ rw (before, prepare_map) ready
    | inr fresh ↦ elim (Option-cases (read_bfd m)) [
      | inl unread ↦ rw (unread, fresh, prepare_map) ready
      | inr (syms, read) ↦ subst (IsReady f) (sym (prepare_map-read read_bfd m syms fresh read)) (
        sort_symbols-IsSorted (function_symbols syms),
        subst (λ n. (n ≤ f) × (n + n < u32_mod) × (n ≢ 1))
            (sym (length-sort_by compare_address (function_symbols syms))) (fits m syms read),
      )
    ]
  ]

  prepare_map-prepared : (m : AddressMap) → (prepare_map read_bfd m).prepared ≡ true
  unfolding prepare_map
  prepare_map-prepared m = ground arith

  covers-prepare_map :
      (m : AddressMap) (addr : ℕ) → covers (prepare_map read_bfd m) addr ≡ covers m addr
  unfolding prepare_map
  covers-prepare_map m addr = ground arith

  prepared_at-IsLocated :
      (p : Process) (addr i : ℕ)
      → All (IsReady f) p.map_list
      → real_locate_map p.map_list addr ≡ some i
      → All (IsReady f) (prepared_at read_bfd p i).0.map_list
        × IsLocated f addr (prepared_at read_bfd p i)
  unfolding prepared_at
  prepared_at-IsLocated p addr i ready e =
      let (m, at, inside) = real_locate_map-some p.map_list addr i e in
      let there = get_elem?-update_map (prepare_map read_bfd) i p.map_list m at in
      let kept = update_map-All (prepare_map read_bfd) i p.map_list prepare_map-IsReady ready in
      rw there (
        kept,
        (
          covers-prepare_map m addr ∙ inside,
          prepare_map-prepared m,
          prepare_map-IsReady m (All-get_elem? (IsReady f) p.map_list i m ready at),
          (i, there),
        ),
      )

  abbrev reread : List MapLine → Process → Process
  reread lines p = record p { map_list = read_lines lines [] }

  locate_map-after_reading :
      (lines : List MapLine) (p : Process) (addr : ℕ)
      → real_locate_map p.map_list addr ≡ none
      → has (page_of addr) p.bad_pages ≡ false
      → locate_map read_bfd (some lines) p addr
        ≡ after_reading read_bfd (reread lines p) addr (real_locate_map (read_lines lines []) addr)
  unfolding locate_map process_read_maps
  locate_map-after_reading lines p addr unknown good =
      rw (unknown, good, locate_map, process_read_maps) refl

  pub locate_map-IsLocated :
      (lines : List MapLine) (p : Process) (addr : ℕ)
      → All (IsReady f) p.map_list
      → (r : Process × Option AddressMap) × (locate_map read_bfd (some lines) p addr ≡ done r)
        × All (IsReady f) r.0.map_list
        × IsLocated f addr r
  unfolding locate_map process_read_maps
  locate_map-IsLocated lines p addr ready = elim (Option-cases (real_locate_map p.map_list addr)) [
    | inr (i, found) ↦
        let known = prepared_at-IsLocated p addr i ready found in
        (prepared_at read_bfd p i, rw (found, locate_map) refl, known.0, known.1)
    | inl unknown ↦ elim (Bool-cases (has (page_of addr) p.bad_pages)) [
      | inl bad ↦ (
        (p, none),
        rw (unknown, bad, locate_map) refl,
        ready,
        (real_locate_map-none p.map_list addr unknown, bad),
      )
      | inr good ↦
          let q = reread lines p in
          let e = locate_map-after_reading lines p addr unknown good in
          let again = read_lines-IsReady f lines [] tt in
          elim (Option-cases (real_locate_map q.map_list addr)) [
            | inr (i, found) ↦
                let known = prepared_at-IsLocated q addr i again found in
                (
                  prepared_at read_bfd q i,
                  e ∙ ap (after_reading read_bfd q addr) found,
                  known.0,
                  known.1,
                )
            | inl nowhere ↦ (
              (record q { bad_pages = page_of addr ∷ q.bad_pages }, none),
              e ∙ ap (after_reading read_bfd q addr) nowhere,
              again,
              (real_locate_map-none q.map_list addr nowhere, has_first (page_of addr) q.bad_pages),
            )
          ]
    ]
  ]
