-- ===== src/Intercept/Tests.antt =====
-- lib/memintercept-utils.c on short writes, and on a number in radix 16.
use mathlib.Core.List.Perm
use memprof.Common.{
  ◌^◌, ◌-◌, map, some, none, Option, ◌+◌, arith, ◌++◌, ◌∷◌, [], List, false, true, refl, ◌≡◌, ℕ,
}
use memprof.Intercept.Output.{
  write_signed, fill_digits, digit_char, failed, write_all, write_unsigned, radix_prefix, Reply,
  wrote,
}
use memprof.Intercept.Written.{write_all-prefix, write_all_complete}
use memprof.Common.Outcome.{aborted, out_of_fuel, Outcome, done}
use mathlib.Core.List.{Perm, reverse}
use memprof.Process.{Command, State, mi_free, mp_process_init, mi_malloc}
use memprof.Intercept.Agent.{
  send_stack, Sent, find_thread, Agent, System, mi_write_stack, initialized,
}
use memprof.Intercept.Numbers.{Call, run_calls-deliver, as_command, run_calls}
use memprof.Intercept.Calls.{message}
use memprof.Process.Order.{deliver, in_order}
use memprof.Intercept.Frames.{skip_frames, read_backtrace, mi_call_with_backtrace}
use memprof.Intercept.Rendered.{byte, string_s, size_d, percent, process_id, Part, texts_of, int_d}
use memprof.Intercept.Printf.{int_arg, mi_vprintf}

abbrev bytes : List ℕ
bytes = 10 ∷ 20 ∷ 30 ∷ []

abbrev replies : List Reply
replies = wrote 2 ∷ wrote 1 ∷ wrote 1 ∷ []

-- "0x1f"
hexadecimal : write_unsigned 31 16 ≡ 48 ∷ 120 ∷ 49 ∷ 102 ∷ []
unfolding write_unsigned fill_digits digit_char radix_prefix
hexadecimal = refl

write_all_complete_example : write_all replies bytes ≡ done (true, bytes)
write_all_complete_example =
    write_all_complete replies bytes ((1, refl), ((0, refl), ((0, refl), tt))) (omega arith)

short_write : write_all (wrote 2 ∷ failed ∷ []) bytes ≡ done (false, 10 ∷ 20 ∷ [])
unfolding write_all
short_write = refl

write_all-prefix_example :
    ((rest : List ℕ) × ((10 ∷ 20 ∷ []) ++ rest ≡ bytes)) × (false ≡ true → 10 ∷ 20 ∷ [] ≡ bytes)
write_all-prefix_example =
    write_all-prefix (wrote 2 ∷ failed ∷ []) bytes false (10 ∷ 20 ∷ []) short_write

-- Two threads; the second one takes its number later, and its message arrives first.
abbrev answers : System
answers = record { pid = 7; outfd = some 3; writes = true; response = some 1 }

abbrev agent : Agent
agent = record {
  phase = initialized;
  tracing = true;
  socket = true;
  seqno = 0;
  thread = λ t. record { pid = 7; outfd = 4 + t; clone_pid = 0 };
  hellos = [];
  sent = [];
  closed = [];
}

abbrev two_calls : List Call
two_calls =
    record { system = answers; thread = 0; frames = 500 ∷ []; info = message mi_malloc 0 8 4 }
    ∷ record { system = answers; thread = 1; frames = 600 ∷ []; info = message mi_free 8 0 0 }
    ∷ []

abbrev agent_of : Outcome Agent → Agent
agent_of (done a) = a
agent_of aborted = agent
agent_of out_of_fuel = agent

abbrev after_calls : Agent
after_calls = agent_of (run_calls two_calls agent)

abbrev no_stack : Sent → Option ℕ
no_stack m = none

abbrev commands : List Command
commands = map (as_command no_stack) (reverse after_calls.sent)

abbrev new_state : State
new_state = record {
  process = mp_process_init;
  blocks = record {
    cell = λ b. record {
      marked = false;
      is_root = false;
      addr = 0;
      size = 0;
      stack = none;
      refcount = 0;
    };
    freed = λ b. false;
    fresh = 0;
  };
  missing = [];
}

calls_done : run_calls two_calls agent ≡ done after_calls
unfolding run_calls mi_write_stack find_thread
calls_done = refl

commands-perm : Perm (reverse commands) commands
unfolding run_calls mi_write_stack find_thread send_stack
commands-perm = Perm.swap _ _ _

run_calls-deliver_example : deliver (reverse commands) new_state ≡ in_order commands new_state
unfolding mp_process_init
run_calls-deliver_example =
    run_calls-deliver no_stack two_calls agent after_calls new_state (reverse commands)
      ((omega arith, refl), ((omega arith, refl), tt)) (omega arith) calls_done refl refl refl
      commands-perm

-- A call within `backtrace` has no frames, and the callback gets a negative number.
nested_call : mi_call_with_backtrace 1 true 2 (1 ∷ 2 ∷ []) ≡ done none
unfolding mi_call_with_backtrace read_backtrace skip_frames
nested_call = refl

-- "%P: %zd%%", and NULL behind "%s".
abbrev parts : List Part
parts =
    process_id ∷ byte 58 ∷ size_d (2 ^ 64 - 5) ∷ percent ∷ int_d (2 ^ 32 - 7) ∷ string_s none ∷ []

-- 12, a colon, -5, '%', -7 and "(null)".
parts_text :
    texts_of 12 parts ≡ 49 ∷ 50 ∷ 58 ∷ 45 ∷ 53 ∷ 37 ∷ 45 ∷ 55 ∷ 40 ∷ 110 ∷ 117 ∷ 108 ∷ 108 ∷ 41 ∷ []
unfolding texts_of write_signed
parts_text = refl

-- 2 ^ 31 behind "%u".
int_text_large :
    mi_vprintf 12 (37 ∷ 117 ∷ []) (int_arg (2 ^ 31) ∷ [])
    ≡ done (write_unsigned (2 ^ 64 - 2 ^ 31) 10)
unfolding mi_vprintf
int_text_large = refl

-- A lone '%' at the end, and an unknown conversion.
unknown_text : mi_vprintf 12 (37 ∷ 107 ∷ 65 ∷ 37 ∷ []) [] ≡ done (65 ∷ [])
unfolding mi_vprintf
unknown_text = refl
