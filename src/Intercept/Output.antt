-- ===== src/Intercept/Output.antt =====
-- lib/memintercept-utils.c: writing bytes and numbers to a descriptor.
use memprof.Common.{
  take, if◌then◌else◌, ◌==◌, ltb, ◌++◌, ◌∷◌, [], List, false, true, Bool, ◌^◌, ◌%◌, ◌/◌, ◌-◌, ◌+◌,
  suc, zero, ℕ,
}
use memprof.Common.Word.{sub32, add32}
use memprof.Common.Outcome.{◌>>=◌, out_of_fuel, done, Outcome}

-- What one call of `write` or `send` gives: a count, EINTR, or another error.
pub data Reply : Type 0 where
  wrote : ℕ → Reply
  interrupted : Reply
  failed : Reply

abbrev pub drop : ℕ → List ℕ → List ℕ
drop zero xs = xs
drop (suc n) [] = []
drop (suc n) (x ∷ xs) = drop n xs

-- The loop of `write_all` and of `mi_write` on the bytes that are left, with the result and the
-- bytes that were written. A call writes a prefix of what it is given. Where no reply is left the
-- loop waits for the next one.
unfoldable pub write_all : List Reply → List ℕ → Outcome (Bool × List ℕ)
write_all replies [] = done (true, [])
write_all [] (b ∷ buf) = out_of_fuel
write_all (interrupted ∷ replies) (b ∷ buf) = write_all replies (b ∷ buf)
write_all (failed ∷ replies) (b ∷ buf) = done (false, [])
write_all (wrote zero ∷ replies) (b ∷ buf) = done (false, [])
write_all (wrote (suc n) ∷ replies) (b ∷ buf) =
    write_all replies (drop n buf) >>= (λ r. done (r.0, b ∷ take n buf ++ r.1))

-- The character of a digit: '0' is 48 and 'a' is 97.
unfoldable pub digit_char : ℕ → ℕ
digit_char c = if ltb c 10 then c + 48 else c + 87

-- The loop that fills the buffer from its end. `num` is an `unsigned long`, so that 64 rounds are
-- enough.
unfoldable pub fill_digits : ℕ → ℕ → ℕ → List ℕ → List ℕ
unfolding digit_char
fill_digits zero radix num buffer = buffer
fill_digits (suc f) radix num buffer = elim (num == 0) [
  | true ↦ buffer
  | false ↦ fill_digits f radix (num / radix) (digit_char (num % radix) ∷ buffer)
]

-- The prefix of a number that is not 0: "0x", or for octal "0" and the byte behind it.
unfoldable pub radix_prefix : ℕ → List ℕ
radix_prefix radix = if radix == 16 then 48 ∷ 120 ∷ [] else if radix == 8 then 48 ∷ 0 ∷ [] else []

-- The bytes that `write_unsigned` writes.
unfoldable pub write_unsigned : ℕ → ℕ → List ℕ
unfolding radix_prefix fill_digits
write_unsigned num radix =
    if num == 0 then 48 ∷ [] else radix_prefix radix ++ fill_digits 64 radix num []

-- `num` is the 64-bit pattern of a `long`.
unfoldable pub write_signed : ℕ → ℕ → List ℕ
unfolding write_unsigned
write_signed num radix =
    if ltb num (2 ^ 63)
    then write_unsigned num radix
    else 45 ∷ write_unsigned ((2 ^ 64 - num) % 2 ^ 64) radix

-- `xaddl` and `incl` on a counter: the new value, which is also returned.
abbrev pub mi_atomic_increment : ℕ → ℕ
mi_atomic_increment n = add32 n 1

abbrev pub mi_atomic_decrement : ℕ → ℕ
mi_atomic_decrement n = sub32 n 1
