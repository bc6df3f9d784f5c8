-- ===== src/Intercept/Agent.antt =====
-- lib/intercept.c: the state of the library in the profiled program, and its connections (with NPTL,
-- so that a thread has its own ThreadInfo).
use memprof.Common.{
  length, if◌then◌else◌, ◌==◌, ltb, ◌∷◌, [], List, some, none, Option, false, true, Bool, ℕ,
}
use memprof.Process.{Operation, mi_new, mi_exit, mi_clone, Info, mi_fork}
use memprof.Block.{set_cell}
use memprof.Common.Word.{add32}
use memprof.Common.Outcome.{aborted, ◌>>=◌, Outcome, done}

-- ThreadInfo; pid 0 marks a slot that is released.
pub record ThreadInfo : Type 0 where
  pub pid : ℕ
  pub outfd : ℕ
  pub clone_pid : ℕ

-- `initialized`: 0, -1 or 1.
pub data Phase : Type 0 where
  untouched initializing initialized : Phase

-- What the library has sent to a descriptor: a message, with the frames of its stack.
pub record Sent : Type 0 where
  pub fd : ℕ
  pub info : Info
  pub frames : List ℕ

-- The message of MI_NEW, MI_FORK and MI_CLONE on a new connection.
pub record Hello : Type 0 where
  pub fd : ℕ
  pub operation : Operation
  pub old_pid : ℕ
  pub new_pid : ℕ

-- The static variables, the ThreadInfo of each thread and what was sent, the last first. `socket` is
-- whether `socket_path` was read from the environment.
pub record Agent : Type 0 where
  pub phase : Phase
  pub tracing : Bool
  pub socket : Bool
  pub seqno : ℕ
  pub thread : ℕ → ThreadInfo
  pub hellos : List Hello
  pub sent : List Sent
  pub closed : List ℕ

-- The answers of the system to one call: the pid; the descriptor, or none if socket, connect or
-- fcntl fail; whether the messages can be written; the byte of a response, or none if `read` fails.
pub record System : Type 0 where
  pub pid : ℕ
  pub outfd : Option ℕ
  pub writes : Bool
  pub response : Option ℕ

abbrev set_thread : ℕ → ThreadInfo → Agent → Agent
set_thread t i a = record a { thread = set_cell a.thread t i }

unfoldable pub allocate_thread : System → ℕ → Agent → Agent
allocate_thread sys t a = set_thread t (record (a.thread t) { pid = sys.pid; clone_pid = 0 }) a

unfoldable pub release_thread : ℕ → Agent → Agent
release_thread t a = set_thread t (record (a.thread t) { pid = 0 }) a

unfoldable pub stop_tracing : ℕ → Agent → Agent
stop_tracing fd a = record a { tracing = false; closed = fd ∷ a.closed }

-- `if (count != 1 || !response)`
abbrev refused : Option ℕ → Bool
refused none = true
refused (some byte) = byte == 0

-- From the message on: a message that cannot be written stops the tracing twice, as in the source.
unfoldable pub say_hello : System → ℕ → Hello → Agent → Agent
unfolding stop_tracing
say_hello sys fd m a =
    if sys.writes
    then (let b = record a { hellos = m ∷ a.hellos } in
        if refused sys.response then stop_tracing fd b else b)
    else stop_tracing fd (stop_tracing fd a)

-- `_exit (1)` aborts. `known` says whether the caller gave a thread.
unfoldable pub new_process : System → Bool → ℕ → ℕ → Operation → Agent → Outcome Agent
unfolding allocate_thread say_hello
new_process sys known t old_pid op a = elim sys.outfd [
  | none ↦ aborted
  | some fd ↦
      let b = if known then a else allocate_thread sys t a in
      let c = set_thread t (record (b.thread t) { outfd = fd }) b in
      done (
        say_hello sys fd (record { fd = fd; operation = op; old_pid = old_pid; new_pid = sys.pid })
          c)
]

unfoldable pub find_thread : System → ℕ → Agent → Outcome Agent
unfolding new_process
find_thread sys t a =
    if (a.thread t).clone_pid == 0
    then done a
    else new_process sys true t (a.thread t).clone_pid mi_clone a
      >>= (λ b. done (set_thread t (record (b.thread t) { clone_pid = 0 }) b))

-- `path` is _MEMPROF_SOCKET: none if it is not set, and whether it is empty.
unfoldable pub memprof_init : System → ℕ → Option Bool → Agent → Outcome Agent
unfolding new_process
memprof_init sys t none a = aborted
memprof_init sys t (some true) a = done (record a { socket = true; tracing = false })
memprof_init sys t (some false) a = new_process sys false t 0 mi_new (record a { socket = true })

-- `mi_check_init`, with its result. The calls of `initialize` back into it return before it changes
-- anything.
unfoldable pub mi_check_init : System → ℕ → Option Bool → Agent → Outcome (Agent × Bool)
unfolding memprof_init
mi_check_init sys t path a = elim a.phase [
  | initializing ↦ done (a, false)
  | untouched ↦ elim a.socket [
    | true ↦ done (record a { phase = initialized }, true)
    | false ↦ memprof_init sys t path (record a { phase = initialized }) >>= (λ b. done (b, true))
  ]
  | initialized ↦ elim a.socket [
    | true ↦ done (a, true)
    | false ↦ memprof_init sys t path a >>= (λ b. done (b, true))
  ]
]

-- The two writes of `mi_write_stack` count as one.
unfoldable pub send_stack : System → ℕ → Info → List ℕ → Agent → Agent
unfolding stop_tracing
send_stack sys t info frames a =
    let fd = (a.thread t).outfd in
    if sys.writes
    then record a { sent = (record { fd = fd; info = info; frames = frames }) ∷ a.sent }
    else stop_tracing fd a

-- The frames are none where `n_frames` is negative. `mi_atomic_increment (&seqno) - 1` is the number
-- before the increment.
unfoldable pub mi_write_stack : System → ℕ → Option (List ℕ) → Info → Agent → Outcome Agent
unfolding find_thread send_stack
mi_write_stack sys t none info a = done a
mi_write_stack sys t (some frames) info a =
    if ltb 20000 (length frames)
    then done a
    else (let numbered = record info {
      stack_size = length frames;
      pid = sys.pid;
      seqno = a.seqno;
    } in
        find_thread sys t (record a { seqno = add32 a.seqno 1 })
        >>= (λ b. done (send_stack sys t numbered frames b)))

-- The child of a fork or vfork, in the memory that it has from its parent.
unfoldable pub fork_child : System → ℕ → ℕ → Agent → Outcome Agent
unfolding new_process
fork_child sys t old_pid a = new_process sys false t old_pid mi_fork a

-- The parent before it forks: `find_thread` registers it.
unfoldable pub fork_parent : System → ℕ → Agent → Outcome Agent
unfolding find_thread
fork_parent sys t a = if a.tracing then find_thread sys t a else done a

-- `clone_thunk` in the new thread, for a parent with this pid.
unfoldable pub clone_thunk : System → ℕ → ℕ → Agent → Agent
unfolding allocate_thread
clone_thunk sys t parent a =
    let b = allocate_thread sys t a in set_thread t (record (b.thread t) { clone_pid = parent }) b

-- `exit_wait`. If the message cannot be written there is no wait.
unfoldable pub exit_wait : System → ℕ → Agent → Outcome Agent
unfolding find_thread release_thread
exit_wait sys t a =
    let info : Info = record {
      operation = mi_exit;
      pid = sys.pid;
      seqno = a.seqno;
      old_ptr = 0;
      new_ptr = 0;
      size = 0;
      stack_size = 0;
    } in
    find_thread sys t (record a { seqno = add32 a.seqno 1 }) >>= (λ b.
      let fd = (b.thread t).outfd in
      let c =
        if sys.writes
        then record b { sent = (record { fd = fd; info = info; frames = [] }) ∷ b.sent }
        else b in
      done (release_thread t (record c { closed = fd ∷ c.closed })))

-- `atexit_trap`, and `_exit` in its tracing branch.
unfoldable pub atexit_trap : System → ℕ → Agent → Outcome Agent
unfolding exit_wait
atexit_trap sys t a =
    if a.tracing then exit_wait sys t a >>= (λ b. done (record b { tracing = false })) else done a
