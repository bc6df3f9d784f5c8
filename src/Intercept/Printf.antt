-- ===== src/Intercept/Printf.antt =====
-- lib/memintercept-utils.c: `mi_vprintf`. A string is the list of its bytes, without the 0 at its end.
use memprof.Common.{
  if◌then◌else◌, ◌==◌, ltb, ◌++◌, ◌∷◌, [], List, false, true, Bool, Option, none, some, ◌^◌, ◌-◌,
  ◌+◌, ◌||◌, ℕ,
}
use memprof.Common.Outcome.{◌>>=◌, aborted, done, Outcome}
use memprof.Intercept.Output.{write_unsigned, write_signed}

-- An argument of a call: the 32-bit pattern of an `int`, a `size_t`, a pointer, or a string that may
-- be NULL.
pub data Arg : Type 0 where
  int_arg : ℕ → Arg
  size_arg : ℕ → Arg
  pointer_arg : ℕ → Arg
  string_arg : Option (List ℕ) → Arg

-- The variables of `mi_vprintf` that outlive a round, and the arguments that `va` has not given yet.
pub record Locals : Type 0 where
  pub argl : ℕ
  pub args : Option (List ℕ)
  pub va : List Arg

-- An `int` as a `long`, both as bit patterns.
unfoldable pub sign_extend : ℕ → ℕ
sign_extend n = if ltb n (2 ^ 31) then n else 2 ^ 64 - 2 ^ 32 + n

-- `va_arg` at each type. What C leaves undefined, an argument of another type or none, is `aborted`.
unfoldable pub take_int : Locals → List Arg → Outcome Locals
unfolding sign_extend
take_int s (int_arg n ∷ va) = done (record s { argl = sign_extend n; va = va })
take_int s (size_arg n ∷ va) = aborted
take_int s (pointer_arg n ∷ va) = aborted
take_int s (string_arg t ∷ va) = aborted
take_int s [] = aborted

unfoldable pub take_size : Locals → List Arg → Outcome Locals
take_size s (size_arg n ∷ va) = done (record s { argl = n; va = va })
take_size s (int_arg n ∷ va) = aborted
take_size s (pointer_arg n ∷ va) = aborted
take_size s (string_arg t ∷ va) = aborted
take_size s [] = aborted

unfoldable pub take_pointer : Locals → List Arg → Outcome Locals
take_pointer s (pointer_arg n ∷ va) = done (record s { argl = n; va = va })
take_pointer s (int_arg n ∷ va) = aborted
take_pointer s (size_arg n ∷ va) = aborted
take_pointer s (string_arg t ∷ va) = aborted
take_pointer s [] = aborted

unfoldable pub take_string : Locals → List Arg → Outcome Locals
take_string s (string_arg t ∷ va) = done (record s { args = t; va = va })
take_string s (int_arg n ∷ va) = aborted
take_string s (size_arg n ∷ va) = aborted
take_string s (pointer_arg n ∷ va) = aborted
take_string s [] = aborted

-- The first `switch`, at a character that is not 'z': 'd', 'u', 'x', 'p' and 's' read an argument.
unfoldable pub read_arg : Bool → ℕ → Locals → Outcome Locals
unfolding take_int take_size take_pointer take_string
read_arg is_size c s =
    if c == 100 || c == 117 || c == 120
    then (if is_size then take_size s s.va else take_int s s.va)
    else if c == 112
    then take_pointer s s.va
    else if c == 115
    then take_string s s.va
    else done s

-- The string behind `%s`; NULL is "(null)".
unfoldable pub string_bytes : Option (List ℕ) → List ℕ
string_bytes none = 40 ∷ 110 ∷ 117 ∷ 108 ∷ 108 ∷ 41 ∷ []
string_bytes (some t) = t

-- The bytes that the second `switch` writes: '%', 'P', 'd', 'u', 'p' or 'x', and 's'. Another
-- character writes nothing.
unfoldable pub conversion_bytes : ℕ → ℕ → Locals → List ℕ
unfolding string_bytes write_signed write_unsigned
conversion_bytes pid c s =
    if c == 37
    then 37 ∷ []
    else if c == 80
    then write_signed pid 10
    else if c == 100
    then write_signed s.argl 10
    else if c == 117
    then write_unsigned s.argl 10
    else if c == 112 || c == 120
    then write_unsigned s.argl 16
    else if c == 115
    then string_bytes s.args
    else []

-- The rounds of the loop. The place is `none` in the text, and `some is_size` behind a '%'. The end of
-- the string behind a '%' writes nothing.
unfoldable pub vprintf_from : ℕ → Option Bool → List ℕ → Locals → Outcome (List ℕ)
unfolding read_arg conversion_bytes
vprintf_from pid place [] s = done []
vprintf_from pid none (c ∷ format) s = elim (c == 37) [
  | true ↦ vprintf_from pid (some false) format s
  | false ↦ vprintf_from pid none format s >>= (λ out. done ((c ∷ []) ++ out))
]
vprintf_from pid (some is_size) (c ∷ format) s = elim (c == 122) [
  | true ↦ vprintf_from pid (some true) format s
  | false ↦ read_arg is_size c s >>= (λ read.
      vprintf_from pid none format read >>= (λ out. done (conversion_bytes pid c read ++ out)))
]

-- The bytes that `mi_vprintf` writes for a format and its arguments, in a process `pid`.
unfoldable pub mi_vprintf : ℕ → List ℕ → List Arg → Outcome (List ℕ)
unfolding vprintf_from
mi_vprintf pid format va = vprintf_from pid none format (record { argl = 0; args = none; va = va })
