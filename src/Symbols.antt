-- ===== src/Symbols.antt =====
-- src/process.c: the maps of a process and the symbols of its addresses.
pub mod Search
pub mod Prepare
pub mod Locate
pub mod Named
pub mod Tests
use memprof.Common.{
  has, get_or, get_elem?, length, if◌then◌else◌, ◌==◌, leb, ltb, map, ◌∷◌, [], List, some, none,
  Option, ◌&&◌, not, false, true, Bool, ◌%◌, ◌/◌, ◌-◌, ◌+◌, suc, zero, ℕ,
}
use mathlib.Core.List.{flat_map}
use Prim.Native.Nat.{compare, Ordering}
use memprof.Process.{AddressMap, Process, MapSymbol}
use memprof.Common.Word.{add32, sub32}
use memprof.Common.Outcome.{aborted, out_of_fuel, ◌>>=◌, done, Outcome}
use memprof.Common.Sort.{sort_by}

-- An asymbol of the bfd library as `prepare_map` reads it: whether BSF_FUNCTION is set and the section
-- is .text, the value, and the demangled name.
pub record BfdSymbol : Type 0 where
  pub is_function : Bool
  pub in_text : Bool
  pub value : ℕ
  pub name : ℕ

-- A line of /proc/PID/maps with six fields or seven: whether the permissions are r-xp, the file of the
-- seventh field, what `locate_inode` finds, and whether the file is that of the program, or none if a
-- `stat` fails.
pub record MapLine : Type 0 where
  pub start : ℕ
  pub stop : ℕ
  pub executable : Bool
  pub file : Option ℕ
  pub inode_file : Option ℕ
  pub is_program : Option Bool

-- `compare_address`, as `qsort` uses it.
unfoldable pub compare_address : MapSymbol → MapSymbol → Ordering
compare_address a b = compare a.addr b.addr

-- The `for` loop of `prepare_map`.
unfoldable pub function_symbols : List BfdSymbol → List MapSymbol
function_symbols [] = []
function_symbols (s ∷ syms) =
    let rest = function_symbols syms in
    if s.is_function && s.in_text
    then record { addr = s.value; size = 0; name = s.name } ∷ rest
    else rest

abbrev pub symbol_addr : List MapSymbol → ℕ → ℕ
symbol_addr symbols i = (get_or symbols i (record { addr = 0; size = 0; name = 0 })).addr

abbrev pub symbol_name : List MapSymbol → ℕ → ℕ
symbol_name symbols i = (get_or symbols i (record { addr = 0; size = 0; name = 0 })).name

-- The test for a position independent executable.
unfoldable pub is_pie : AddressMap → List MapSymbol → Bool
is_pie m symbols =
    not m.do_offset
    && not (length symbols == 0)
    && ltb (symbol_addr symbols (length symbols - 1)) m.addr

-- `read_bfd` is the symbols of a file, or none (NULL).
module _ (read_bfd : AddressMap → Option (List BfdSymbol)) where
  -- `g_return_if_fail` returns where the map is prepared.
  unfoldable pub prepare_map : AddressMap → AddressMap
  unfolding compare_address function_symbols is_pie
  prepare_map m = if m.prepared then m else elim (read_bfd m) [
    | none ↦ record m { prepared = true }
    | some syms ↦
        let symbols = sort_by compare_address (function_symbols syms) in
        record m {
          prepared = true;
          symbols = some symbols;
          do_offset = if is_pie m symbols then true else m.do_offset;
        }
  ]

-- `!(st_ino and st_dev are equal)`, or TRUE where there is no name or a `stat` fails.
abbrev pub map_offset : Option ℕ → Option Bool → Bool
map_offset none program = true
map_offset (some name) none = true
map_offset (some name) (some same) = not same

unfoldable pub new_map : MapLine → AddressMap
new_map l =
    let name : Option ℕ = elim l.file [ none ↦ l.inode_file | some f ↦ some f ] in
    record {
      addr = l.start;
      size = l.stop - l.start;
      name = name;
      symbols = none;
      do_offset = map_offset name l.is_program;
      prepared = false;
    }

-- The `while` loop of `process_read_maps`.
unfoldable pub read_lines : List MapLine → List AddressMap → List AddressMap
unfolding new_map
read_lines [] maps = maps
read_lines (l ∷ lines) maps = read_lines lines (if l.executable then new_map l ∷ maps else maps)

-- Where /proc/PID/maps does not open, `fgets` reads from NULL.
unfoldable pub process_read_maps : Option (List MapLine) → Process → Outcome Process
unfolding read_lines
process_read_maps none p = aborted
process_read_maps (some lines) p = done (record p { map_list = read_lines lines [] })

abbrev pub covers : AddressMap → ℕ → Bool
covers m addr = leb m.addr addr && ltb addr (m.addr + m.size)

-- The position of the map in the list.
unfoldable pub real_locate_map : List AddressMap → ℕ → Option ℕ
real_locate_map [] addr = none
real_locate_map (m ∷ maps) addr =
    let rest = real_locate_map maps addr in
    if covers m addr then some 0 else elim rest [ none ↦ none | some i ↦ some (suc i) ]

abbrev pub mp_page_size : ℕ
mp_page_size = 4096

abbrev pub page_of : ℕ → ℕ
page_of addr = addr - addr % mp_page_size

unfoldable pub update_map : (AddressMap → AddressMap) → ℕ → List AddressMap → List AddressMap
update_map f i [] = []
update_map f zero (m ∷ maps) = f m ∷ maps
update_map f (suc i) (m ∷ maps) = m ∷ update_map f i maps

module _ (read_bfd : AddressMap → Option (List BfdSymbol)) where
  -- The end of `locate_map`: the map at a position, prepared.
  unfoldable pub prepared_at : Process → ℕ → Process × Option AddressMap
  unfolding prepare_map update_map
  prepared_at p i =
      let maps = update_map (prepare_map read_bfd) i p.map_list in
      (record p { map_list = maps }, get_elem? maps i)

  -- What follows the second search: NULL puts the page on the list of bad pages.
  unfoldable pub after_reading : Process → ℕ → Option ℕ → Outcome (Process × Option AddressMap)
  unfolding prepared_at
  after_reading q addr none = done (record q { bad_pages = page_of addr ∷ q.bad_pages }, none)
  after_reading q addr (some i) = done (prepared_at q i)

  -- `lines` is /proc/PID/maps at the time of the call.
  unfoldable pub locate_map :
      Option (List MapLine) → Process → ℕ → Outcome (Process × Option AddressMap)
  unfolding real_locate_map process_read_maps prepared_at after_reading
  locate_map lines p addr = elim (real_locate_map p.map_list addr) [
    | some i ↦ done (prepared_at p i)
    | none ↦
        if has (page_of addr) p.bad_pages
        then done (p, none)
        else process_read_maps lines p
          >>= (λ q. after_reading q addr (real_locate_map q.map_list addr))
  ]

-- The `while` loop of `process_locate_symbol`, on fuel.
unfoldable pub symbol_loop : ℕ → (ℕ → ℕ) → ℕ → ℕ → ℕ → Outcome ℕ
symbol_loop zero key addr first last = out_of_fuel
symbol_loop (suc f) key addr first last = elim (ltb first (sub32 last 1)) [
  | false ↦ done first
  | true ↦ elim (ltb addr (key (add32 first last / 2))) [
    | true ↦ symbol_loop f key addr first (add32 first last / 2)
    | false ↦ symbol_loop f key addr (add32 first last / 2) last
  ]
]

unfoldable pub symbol_index : ℕ → (ℕ → ℕ) → ℕ → ℕ → Outcome ℕ
unfolding symbol_loop
symbol_index f key len addr =
    let last = sub32 len 1 in
    if ltb addr (key last) then symbol_loop f key addr 0 last else done last

-- What `process_locate_symbol` returns: "<unknown map>", the name of a map, or that of a symbol.
pub data SymbolName : Type 0 where
  unknown_map : SymbolName
  of_map : Option ℕ → SymbolName
  of_symbol : ℕ → SymbolName

unfoldable pub symbol_in : ℕ → AddressMap → ℕ → Outcome SymbolName
unfolding symbol_index
symbol_in f m addr = elim m.symbols [
  | none ↦ done (of_map m.name)
  | some symbols ↦
      if length symbols == 0
      then done (of_map m.name)
      else symbol_index f (symbol_addr symbols) (length symbols)
          (if m.do_offset then addr - m.addr else addr)
        >>= (λ i. done (of_symbol (symbol_name symbols i)))
]

module _ (read_bfd : AddressMap → Option (List BfdSymbol)) where
  unfoldable pub process_locate_symbol :
      ℕ → Option (List MapLine) → Process → ℕ → Outcome (Process × SymbolName)
  unfolding locate_map symbol_in
  process_locate_symbol f lines p addr = locate_map read_bfd lines p addr >>= (λ r. elim r.1 [
    | none ↦ done (r.0, unknown_map)
    | some m ↦ symbol_in f m addr >>= (λ s. done (r.0, s))
  ])

  -- `find_line` of the bfd support: the file, the function and the line of an address.
  unfoldable pub process_find_line {ℓ} :
      {A : Type ℓ}
      → (AddressMap → ℕ → Option A)
      → Option (List MapLine)
      → Process
      → ℕ
      → Outcome (Process × Option A)
  unfolding locate_map
  process_find_line find_line lines p addr = locate_map read_bfd lines p addr >>= (λ r. elim r.1 [
    | none ↦ done (r.0, none)
    | some m ↦ done (r.0, find_line m (if m.do_offset then addr - m.addr else addr))
  ])

  -- `process_sections`: the maps are read again and prepared, and `sections` (of the bfd support) is
  -- what `process_map_sections` calls `func` with for a map.
  unfoldable pub process_sections :
      (AddressMap → List (ℕ × ℕ))
      → Option (List MapLine)
      → Process
      → Outcome (Process × List (ℕ × ℕ))
  unfolding process_read_maps prepare_map
  process_sections sections lines p = process_read_maps lines p >>= (λ q.
      let maps = map (prepare_map read_bfd) q.map_list in
      done (record q { map_list = maps }, flat_map sections maps))
