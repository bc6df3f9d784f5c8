-- ===== src/Intercept/Frames.antt =====
-- lib/stack-frame.c: the stack of a call.
use memprof.Common.{
  take, length, if◌then◌else◌, ◌==◌, ltb, ◌∷◌, [], List, some, none, Option, false, true, Bool, ◌*◌,
  suc, zero, ℕ,
}
use memprof.Common.Outcome.{done, Outcome, out_of_fuel, ◌>>=◌}

-- `stack` is the true stack, of which `backtrace` gives the first entries that the buffer has room
-- for. `nested` is whether the thread is in `backtrace` already, so that nothing is read. The loop
-- at `again`, on fuel, with the entries of the buffer; its size is an `int` that does not overflow.
unfoldable pub read_backtrace : ℕ → Bool → ℕ → List ℕ → Outcome (List ℕ)
read_backtrace zero nested bufsiz stack = out_of_fuel
read_backtrace (suc f) nested bufsiz stack =
    let buf = if nested then [] else take bufsiz stack in
    elim (length buf == bufsiz) [
      | true ↦ read_backtrace f nested (bufsiz * 2) stack
      | false ↦ done buf
    ]

-- What the callback gets: `count - to_skip` frames, or none where that is negative.
unfoldable pub skip_frames : ℕ → List ℕ → Option (List ℕ)
skip_frames zero frames = some frames
skip_frames (suc n) [] = none
skip_frames (suc n) (a ∷ frames) = skip_frames n frames

-- With HAVE_BACKTRACE.
unfoldable pub mi_call_with_backtrace : ℕ → Bool → ℕ → List ℕ → Outcome (Option (List ℕ))
unfolding read_backtrace skip_frames
mi_call_with_backtrace f nested to_skip stack =
    read_backtrace f nested 128 stack >>= (λ frames. done (skip_frames to_skip frames))

-- A stack_frame in memory: `next` and `return_address`.
pub record StackFrame : Type 0 where
  pub next : ℕ
  pub return_address : ℕ

-- `mi_call_with_signal_backtrace`: the loop, on fuel, while the frame is above the stack pointer. The
-- array grows when it is full, so it holds all entries.
unfoldable pub signal_frames : ℕ → (ℕ → StackFrame) → ℕ → ℕ → Outcome (List ℕ)
signal_frames zero memory stack_bound frame = out_of_fuel
signal_frames (suc f) memory stack_bound frame = elim (ltb stack_bound frame) [
  | false ↦ done []
  | true ↦
      signal_frames f memory stack_bound (memory frame).next
      >>= (λ rest. done ((memory frame).return_address ∷ rest))
]

unfoldable pub mi_call_with_signal_backtrace : ℕ → (ℕ → StackFrame) → ℕ → ℕ → ℕ → Outcome (List ℕ)
unfolding signal_frames
mi_call_with_signal_backtrace f memory first_address second_frame stack_bound =
    signal_frames f memory stack_bound second_frame >>= (λ rest. done (first_address ∷ rest))
