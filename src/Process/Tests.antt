-- ===== src/Process/Tests.antt =====
-- Runs of the commands, and the theorems at an input.
use mathlib.Core.List.Perm
use memprof.Common.{arith, ◌∷◌, [], List, none, false, refl, ◌≡◌, ℕ}
use mathlib.Core.List.{Perm}
use memprof.Process.{mi_free, Operation, mi_realloc, mi_malloc, mp_process_init, State, Command}
use memprof.Block.{Blocks}
use memprof.Process.Account.{deliver-IsAccounted, IsAccounted, mp_process_init-IsAccounted}
use memprof.Process.Live.{execute-live, effect, live}
use memprof.Process.Commands.{process_command, execute}
use memprof.Process.Order.{deliver-eq-in_order, in_order, deliver}
use memprof.Process.Total.{accept, process_command-eq-accept}
use memprof.Process.Queue.{queue_command, unqueue_command}
use memprof.Common.Outcome.{Ends, out_of_fuel, done, aborted, Outcome}

runs : Unit {0}
unfolding deliver in_order process_command execute queue_command unqueue_command mp_process_init
    live
runs = tt

abbrev empty_blocks : Blocks
empty_blocks = record {
  cell = λ _. record {
    marked = false;
    is_root = false;
    addr = 0;
    size = 0;
    stack = none;
    refcount = 0;
  };
  freed = λ _. false;
  fresh = 0;
}

abbrev start : State
start = record { process = mp_process_init; blocks = empty_blocks; missing = [] }

abbrev command : Operation → ℕ → ℕ → ℕ → ℕ → Command
command op n old new size = record {
  info = record {
    operation = op;
    pid = 7;
    seqno = n;
    old_ptr = old;
    new_ptr = new;
    size = size;
    stack_size = 0;
  };
  stack = none;
}

abbrev numbered : List Command
numbered =
    command mi_malloc 0 0 4096 16
    ∷ command mi_malloc 1 0 8192 100
    ∷ command mi_realloc 2 4096 12288 32
    ∷ command mi_free 3 8192 0 0
    ∷ []

-- The same messages as two threads may send them.
abbrev arrived : List Command
arrived =
    command mi_malloc 1 0 8192 100
    ∷ command mi_malloc 0 0 4096 16
    ∷ command mi_realloc 2 4096 12288 32
    ∷ command mi_free 3 8192 0 0
    ∷ []

abbrev used_after : Outcome State → ℕ × ℕ × ℕ
used_after (done t) = (t.process.bytes_used, t.process.n_allocations, t.process.seqno)
used_after _ = (0, 0, 0)

run_numbered : used_after (deliver numbered start) ≡ (32, 1, 4)
unfolding runs
run_numbered = refl

run_arrived : used_after (deliver arrived start) ≡ (32, 1, 4)
unfolding runs
run_arrived = refl

-- A block that is freed twice is reported and nothing else happens.
double_free : used_after (deliver (command mi_free 0 4096 0 0 ∷ []) start) ≡ (0, 0, 1)
unfolding runs
double_free = refl

process_command-eq-accept_example :
    (process_command 2 (command mi_malloc 0 0 4096 16) start
      ≡ accept (command mi_malloc 0 0 4096 16) start)
    × Ends (process_command 2 (command mi_malloc 0 0 4096 16) start)
unfolding mp_process_init
process_command-eq-accept_example =
    process_command-eq-accept 2 (command mi_malloc 0 0 4096 16) start (omega arith)

arrived-perm : Perm arrived numbered
arrived-perm = Perm.swap _ _ _

deliver-eq-in_order_example : deliver arrived start ≡ in_order numbered start
unfolding mp_process_init
deliver-eq-in_order_example =
    deliver-eq-in_order arrived numbered start arrived-perm (omega arith) (omega arith) refl

abbrev after_malloc : State
after_malloc = elim (execute (command mi_malloc 0 0 4096 16) start) [
  | done t ↦ t
  | aborted ↦ start
  | out_of_fuel ↦ start
]

deliver-IsAccounted_example : IsAccounted after_malloc.process after_malloc.blocks
unfolding runs
deliver-IsAccounted_example =
    deliver-IsAccounted (command mi_malloc 0 0 4096 16 ∷ []) start after_malloc
      (mp_process_init-IsAccounted empty_blocks) refl

execute-live_example :
    live after_malloc 4096 ≡ effect mi_malloc (command mi_malloc 0 0 4096 16) 1 (live start) 4096
unfolding runs
execute-live_example =
    execute-live (command mi_malloc 0 0 4096 16) start after_malloc 4096
      (mp_process_init-IsAccounted empty_blocks) refl
