-- ===== src/Process/Queue.antt =====
-- src/process.c: the queue of commands that came too early.
use memprof.Common.{if◌then◌else◌, ◌==◌, ◌∷◌, [], List, some, none, Option}
use memprof.Process.{Command, State}
use Prim.Native.Nat.{compare, Ordering}

unfoldable pub queue_compare : Command → Command → Ordering
queue_compare a b = compare a.info.seqno b.info.seqno

-- `g_list_insert_sorted`: before the first element that does not compare below the new one.
unfoldable pub insert_sorted : Command → List Command → List Command
unfolding queue_compare
insert_sorted c [] = c ∷ []
insert_sorted c (d ∷ q) = elim (queue_compare c d) [
  | Ordering.gt ↦ d ∷ insert_sorted c q
  | _ ↦ c ∷ d ∷ q
]

abbrev pub set_queue : List Command → State → State
set_queue q st = record st { process = record (st.process) { command_queue = q } }

unfoldable pub queue_command : Command → State → State
unfolding insert_sorted
queue_command c st = set_queue (insert_sorted c st.process.command_queue) st

-- `process->command_queue && unqueue_command (...)`: the first command and the state without it,
-- if its turn has come.
unfoldable pub unqueue_command : State → Option (Command × State)
unqueue_command st = elim st.process.command_queue [
  | [] ↦ none
  | c ∷ q ↦ if c.info.seqno == st.process.seqno then some (c, set_queue q st) else none
]
