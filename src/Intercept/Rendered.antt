-- ===== src/Intercept/Rendered.antt =====
-- lib/memintercept-utils.c: what `mi_vprintf` writes for the parts of a format.
use memprof.Common.{if◌then◌else◌, ltb, ◌++◌, ◌∷◌, [], List, Option, ◌^◌, ◌-◌, ◌+◌, ◌<◌, ◌≢◌, ℕ}
use memprof.Common.Outcome.{Outcome}
use memprof.Intercept.Output.{write_unsigned, write_signed}
use memprof.Intercept.Printf.{Arg, int_arg, size_arg, pointer_arg, string_arg, string_bytes}

-- The parts of a format with their arguments: a byte that stands for itself, "%%", "%P", "%d", "%zd",
-- "%u", "%zu", "%x", "%zx", "%p" and "%s".
pub data Part : Type 0 where
  byte : ℕ → Part
  percent : Part
  process_id : Part
  int_d : ℕ → Part
  size_d : ℕ → Part
  int_u : ℕ → Part
  size_u : ℕ → Part
  int_x : ℕ → Part
  size_x : ℕ → Part
  pointer_p : ℕ → Part
  string_s : Option (List ℕ) → Part

-- A byte is no '%', and a number fits its type.
abbrev pub IsPart : Part → Type 0
IsPart (byte c) = c ≢ 37
IsPart percent = Unit
IsPart process_id = Unit
IsPart (int_d n) = n < 2 ^ 32
IsPart (size_d n) = n < 2 ^ 64
IsPart (int_u n) = n < 2 ^ 32
IsPart (size_u n) = n < 2 ^ 64
IsPart (int_x n) = n < 2 ^ 32
IsPart (size_x n) = n < 2 ^ 64
IsPart (pointer_p n) = n < 2 ^ 64
IsPart (string_s t) = Unit

-- The format, and the arguments, that the parts stand for.
unfoldable pub format_of : List Part → List ℕ
format_of [] = []
format_of (byte c ∷ parts) = c ∷ format_of parts
format_of (percent ∷ parts) = 37 ∷ 37 ∷ format_of parts
format_of (process_id ∷ parts) = 37 ∷ 80 ∷ format_of parts
format_of (int_d n ∷ parts) = 37 ∷ 100 ∷ format_of parts
format_of (size_d n ∷ parts) = 37 ∷ 122 ∷ 100 ∷ format_of parts
format_of (int_u n ∷ parts) = 37 ∷ 117 ∷ format_of parts
format_of (size_u n ∷ parts) = 37 ∷ 122 ∷ 117 ∷ format_of parts
format_of (int_x n ∷ parts) = 37 ∷ 120 ∷ format_of parts
format_of (size_x n ∷ parts) = 37 ∷ 122 ∷ 120 ∷ format_of parts
format_of (pointer_p n ∷ parts) = 37 ∷ 112 ∷ format_of parts
format_of (string_s t ∷ parts) = 37 ∷ 115 ∷ format_of parts

unfoldable pub args_of : List Part → List Arg
args_of [] = []
args_of (byte c ∷ parts) = args_of parts
args_of (percent ∷ parts) = args_of parts
args_of (process_id ∷ parts) = args_of parts
args_of (int_d n ∷ parts) = int_arg n ∷ args_of parts
args_of (size_d n ∷ parts) = size_arg n ∷ args_of parts
args_of (int_u n ∷ parts) = int_arg n ∷ args_of parts
args_of (size_u n ∷ parts) = size_arg n ∷ args_of parts
args_of (int_x n ∷ parts) = int_arg n ∷ args_of parts
args_of (size_x n ∷ parts) = size_arg n ∷ args_of parts
args_of (pointer_p n ∷ parts) = pointer_arg n ∷ args_of parts
args_of (string_s t ∷ parts) = string_arg t ∷ args_of parts

-- The signed number of a pattern of `whole` values, `half` of them not negative.
unfoldable pub signed_text : ℕ → ℕ → ℕ → List ℕ
signed_text half whole n =
    if ltb n half then write_unsigned n 10 else 45 ∷ write_unsigned (whole - n) 10

-- An unsigned number that is given as an `int`: from 2 ^ 31 on it is 2 ^ 64 - 2 ^ 32 too large.
unfoldable pub int_text : ℕ → ℕ → List ℕ
int_text radix n =
    if ltb n (2 ^ 31) then write_unsigned n radix else write_unsigned (2 ^ 64 - 2 ^ 32 + n) radix

-- What the parts mean.
unfoldable pub text_of : ℕ → Part → List ℕ
unfolding string_bytes signed_text int_text
text_of pid (byte c) = c ∷ []
text_of pid percent = 37 ∷ []
text_of pid process_id = write_signed pid 10
text_of pid (int_d n) = signed_text (2 ^ 31) (2 ^ 32) n
text_of pid (size_d n) = signed_text (2 ^ 63) (2 ^ 64) n
text_of pid (int_u n) = int_text 10 n
text_of pid (size_u n) = write_unsigned n 10
text_of pid (int_x n) = int_text 16 n
text_of pid (size_x n) = write_unsigned n 16
text_of pid (pointer_p n) = write_unsigned n 16
text_of pid (string_s t) = string_bytes t

unfoldable pub texts_of : ℕ → List Part → List ℕ
unfolding text_of
texts_of pid [] = []
texts_of pid (p ∷ parts) = text_of pid p ++ texts_of pid parts
