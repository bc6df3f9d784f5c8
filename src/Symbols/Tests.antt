-- ===== src/Symbols/Tests.antt =====
-- src/process.c: the maps and symbols of a small process.
use memprof.Symbols.Locate.{IsReady, IsFit}
use memprof.Symbols.Prepare.{NotAbove, IsFunctionOf, prepare_map-IsSorted}
use memprof.Symbols.Named.{IsAnswer, process_locate_symbol-IsAnswer, symbol_in_stuck}
use mathlib.Core.Option.{some-injective}
use memprof.Common.Sort.{sort_by, IsSorted}
use memprof.Common.{All, arith, ◌∷◌, [], List, some, none, Option, false, true, ◌↔◌, refl, ◌≡◌}
use mathlib.Core.List.{Perm, Mem}
use mathlib.Core.Path.{subst}
use memprof.Process.{mp_process_init, AddressMap, Process, MapSymbol}
use memprof.Symbols.{
  BfdSymbol, function_symbols, of_symbol, prepare_map, MapLine, unknown_map, symbol_in, SymbolName,
  process_locate_symbol,
}
use memprof.Common.Outcome.{done, out_of_fuel}

abbrev two_functions : List BfdSymbol
two_functions =
    record { is_function = true; in_text = true; value = 64; name = 2 }
    ∷ record { is_function = false; in_text = true; value = 16; name = 9 }
    ∷ record { is_function = true; in_text = true; value = 32; name = 1 }
    ∷ []

abbrev read_two : AddressMap → Option (List BfdSymbol)
read_two m = some two_functions

abbrev text_map : AddressMap
text_map = record {
  addr = 4096;
  size = 4096;
  name = some 7;
  symbols = none;
  do_offset = true;
  prepared = false;
}

abbrev text_line : MapLine
text_line = record {
  start = 4096;
  stop = 8192;
  executable = true;
  file = some 7;
  inode_file = none;
  is_program = some false;
}

-- A table with one symbol, at 32.
abbrev lone_map : AddressMap
lone_map = record text_map {
  symbols = some (record { addr = 32; size = 0; name = 1 } ∷ []);
  prepared = true;
}

read_two_fits :
    (m : AddressMap) (syms : List BfdSymbol)
    → read_two m ≡ some syms
    → IsFit 2 (function_symbols syms)
unfolding function_symbols
read_two_fits m syms e =
    subst (λ t. IsFit 2 (function_symbols t)) (some-injective _ _ e)
      (omega arith, omega arith, λ h. ground arith)

-- The second function of the map holds 4096 + 70, the first 4096 + 40; 64 is in no map.
named_inside :
    process_locate_symbol read_two 2 (some (text_line ∷ [])) mp_process_init 4166
    ≡ done (
      record mp_process_init {
        map_list = record (prepare_map read_two text_map) { name = some 7 } ∷ [];
      },
      of_symbol 2,
    )
unfolding process_locate_symbol prepare_map mp_process_init sort_by
named_inside = refl

named_outside :
    process_locate_symbol read_two 2 (some (text_line ∷ [])) mp_process_init 64
    ≡ done (record mp_process_init { map_list = text_map ∷ []; bad_pages = 0 ∷ [] }, unknown_map)
unfolding process_locate_symbol mp_process_init
named_outside = refl

prepare_map-IsSorted_example :
    (symbols : List MapSymbol) × ((prepare_map read_two text_map).symbols ≡ some symbols)
    × ((prepare_map read_two text_map).prepared ≡ true)
    × IsSorted NotAbove symbols
    × Perm symbols (function_symbols two_functions)
    × ((t : MapSymbol) → Mem t symbols ↔ ∥ IsFunctionOf two_functions t ∥₁)
prepare_map-IsSorted_example = prepare_map-IsSorted read_two text_map two_functions refl refl

process_locate_symbol-IsAnswer_example :
    (r : Process × SymbolName) × (process_locate_symbol read_two 2
        (some (text_line ∷ []))
        mp_process_init
        4166
      ≡ done r)
    × All (IsReady 2) r.0.map_list
    × IsAnswer 2 4166 r
unfolding mp_process_init
process_locate_symbol-IsAnswer_example =
    process_locate_symbol-IsAnswer read_two 2 read_two_fits (text_line ∷ []) mp_process_init 4166 tt

symbol_in_stuck_example : symbol_in 1000 lone_map 4100 ≡ out_of_fuel
symbol_in_stuck_example =
    symbol_in_stuck 1000 lone_map (record { addr = 32; size = 0; name = 1 }) 4100 refl (omega arith)
