-- ===== src/Intercept/Numbers.antt =====
-- lib/intercept.c with src/process.c: the numbers of the messages, and their order in the profiler.
use memprof.Common.{
  some, suc, All, map, Option, ◌<◌, ◌+◌, Option-cases, Bool-cases, if◌then◌else◌, ◌==◌, ltb, false,
  inr, inl, ◌∙◌, ap, sym, refl, length, arith, ◌∷◌, [], List, true, Bool, ◌≡◌, ◌≤◌, ℕ,
}
use memprof.Process.{Command, State, mi_clone, Operation, Info}
use memprof.Intercept.Agent.{
  new_process, Sent, say_hello, send_stack, find_thread, stop_tracing, allocate_thread, System,
  mi_write_stack, Agent, Hello,
}
use memprof.Common.Word.{u32_mod, add32}
use memprof.Common.Outcome.{done-injective, aborted, >>=-eq_done, ◌>>=◌, done, Outcome}
use memprof.Block.{set_cell}
use mathlib.Core.List.{reverse-reverse, reverse_aux, Perm, reverse}
use mathlib.Core.Path.{subst}
use memprof.Process.Order.{deliver, deliver-eq-in_order, in_order}
use memprof.Process.Arrival.{Numbered}

-- A call of `mi_write_stack` in a thread.
pub record Call : Type 0 where
  pub system : System
  pub thread : ℕ
  pub frames : List ℕ
  pub info : Info

-- The calls of all threads in the order in which they take their numbers.
unfoldable pub run_calls : List Call → Agent → Outcome Agent
run_calls [] a = done a
run_calls (c ∷ cs) a =
    mi_write_stack c.system c.thread (some c.frames) c.info a >>= (λ b. run_calls cs b)

say_hello-kept :
    (sys : System) (fd : ℕ) (m : Hello) (a : Agent)
    → ((say_hello sys fd m a).sent ≡ a.sent) × ((say_hello sys fd m a).seqno ≡ a.seqno)
unfolding say_hello stop_tracing
say_hello-kept sys fd m a = (ground arith, ground arith)

greet : System → Bool → ℕ → ℕ → Operation → ℕ → Agent → Agent
greet sys known t old_pid op fd a =
    let b = if known then a else allocate_thread sys t a in
    let c = record b { thread = set_cell b.thread t (record (b.thread t) { outfd = fd }) } in
    say_hello sys fd (record { fd = fd; operation = op; old_pid = old_pid; new_pid = sys.pid }) c

greet-kept :
    (sys : System) (known : Bool) (t old_pid : ℕ) (op : Operation) (fd : ℕ) (a : Agent)
    → ((greet sys known t old_pid op fd a).sent ≡ a.sent)
      × ((greet sys known t old_pid op fd a).seqno ≡ a.seqno)
unfolding greet allocate_thread
greet-kept sys true t old_pid op fd a = say_hello-kept sys fd _ _
greet-kept sys false t old_pid op fd a = say_hello-kept sys fd _ _

new_process-kept :
    (sys : System) (known : Bool) (t old_pid : ℕ) (op : Operation) (a b : Agent)
    → new_process sys known t old_pid op a ≡ done b
    → (b.sent ≡ a.sent) × (b.seqno ≡ a.seqno)
unfolding new_process allocate_thread greet
new_process-kept sys known t old_pid op a b e = elim (Option-cases sys.outfd) [
  | inl gone ↦
      let stop : new_process sys known t old_pid op a ≡ aborted = rw (gone, new_process) refl in
      absurd (cc (stop, e))
  | inr (fd, there) ↦
      let made : new_process sys known t old_pid op a ≡ done (greet sys known t old_pid op fd a) =
        simp (there, new_process, greet) in
      let same = done-injective (sym e ∙ made) in
      let kept = greet-kept sys known t old_pid op fd a in
      (ap (λ c. c.sent) same ∙ kept.0, ap (λ c. c.seqno) same ∙ kept.1)
]

abbrev settled : ℕ → Agent → Agent
settled t b = record b { thread = set_cell b.thread t (record (b.thread t) { clone_pid = 0 }) }

find_thread-kept :
    (sys : System) (t : ℕ) (a b : Agent)
    → find_thread sys t a ≡ done b
    → (b.sent ≡ a.sent) × (b.seqno ≡ a.seqno)
unfolding find_thread
find_thread-kept sys t a b e = elim (Bool-cases ((a.thread t).clone_pid == 0)) [
  | inl plain ↦
      let stay : find_thread sys t a ≡ done a = rw (plain, find_thread) refl in
      let same = done-injective (sym e ∙ stay) in (ap (λ c. c.sent) same, ap (λ c. c.seqno) same)
  | inr clone ↦
      let go : find_thread sys t a ≡ (
          new_process sys true t (a.thread t).clone_pid mi_clone a >>= (λ b. done (settled t b))) =
        rw (clone, find_thread) refl in
      let (c, made, last) =
        >>=-eq_done (new_process sys true t (a.thread t).clone_pid mi_clone a)
          (λ b. done (settled t b)) (sym go ∙ e) in
      let same = sym (done-injective last) in
      let kept = new_process-kept sys true t (a.thread t).clone_pid mi_clone a c made in
      (ap (λ c. c.sent) same ∙ kept.0, ap (λ c. c.seqno) same ∙ kept.1)
]

send_stack-sent :
    (sys : System) (t : ℕ) (info : Info) (frames : List ℕ) (a : Agent)
    → sys.writes ≡ true
    → ((send_stack sys t info frames a).sent
        ≡ record { fd = (a.thread t).outfd; info = info; frames = frames } ∷ a.sent)
      × ((send_stack sys t info frames a).seqno ≡ a.seqno)
unfolding send_stack
send_stack-sent sys t info frames a ok = rw (ok, send_stack) (refl, refl)

-- What one call adds.
mi_write_stack-sent :
    (sys : System) (t : ℕ) (frames : List ℕ) (info : Info) (a b : Agent)
    → length frames ≤ 20000
    → sys.writes ≡ true
    → mi_write_stack sys t (some frames) info a ≡ done b
    → (m : Sent) × (b.sent ≡ m ∷ a.sent) × (m.info.seqno ≡ a.seqno) × (b.seqno ≡ add32 a.seqno 1)
unfolding mi_write_stack send_stack
mi_write_stack-sent sys t frames info a b few ok e =
    let numbered : Info = record info {
      stack_size = length frames;
      pid = sys.pid;
      seqno = a.seqno;
    } in
    let next : Agent = record a { seqno = add32 a.seqno 1 } in
    let short : ltb 20000 (length frames) ≡ false = ground (arith, few) in
    let go : mi_write_stack sys t (some frames) info a
        ≡ (find_thread sys t next >>= (λ b. done (send_stack sys t numbered frames b))) =
      rw (short, mi_write_stack) refl in
    let (c, found, last) =
      >>=-eq_done (find_thread sys t next) (λ b. done (send_stack sys t numbered frames b))
        (sym go ∙ e) in
    let kept = find_thread-kept sys t next c found in
    let added = send_stack-sent sys t numbered frames c ok in
    let same = sym (done-injective last) in
    let m : Sent = record { fd = (c.thread t).outfd; info = numbered; frames = frames } in
    (
      m,
      ap (λ c. c.sent) same ∙ added.0 ∙ ap (λ s. m ∷ s) kept.0,
      refl,
      ap (λ c. c.seqno) same ∙ added.1 ∙ kept.1,
    )

-- A call whose message is written, with a stack that is not too long.
abbrev pub IsWritten : Call → Type 0
IsWritten c = (length c.frames ≤ 20000) × (c.system.writes ≡ true)

-- The command that the profiler makes of a message, with its handle of the stack.
abbrev pub as_command : (Sent → Option ℕ) → Sent → Command
as_command stack m = record { info = m.info; stack = stack m }

length-commands :
    (stack : Sent → Option ℕ) (new : List Sent) → length (map (as_command stack) new) ≡ length new
length-commands stack [] = refl
length-commands stack (m ∷ new) = ap suc (length-commands stack new)

run_calls-sent :
    (stack : Sent → Option ℕ) (cs : List Call) (a b : Agent)
    → All IsWritten cs
    → a.seqno + length cs < u32_mod
    → run_calls cs a ≡ done b
    → (new : List Sent) × (b.sent ≡ reverse_aux new a.sent)
      × Numbered a.seqno (map (as_command stack) new)
      × (length new ≡ length cs)
unfolding run_calls
run_calls-sent stack [] a b ok small e = ([], ap (λ c. c.sent) (sym (done-injective e)), tt, refl)
run_calls-sent stack (c ∷ cs) a b ok small e =
    let (d, first, rest) =
      >>=-eq_done (mi_write_stack c.system c.thread (some c.frames) c.info a) (λ b. run_calls cs b)
        e in
    let (m, sent, number, next) =
      mi_write_stack-sent c.system c.thread c.frames c.info a d ok.0.0 ok.0.1 first in
    let step : d.seqno ≡ a.seqno + 1 = omega (arith, next, small) in
    let (new, more, numbered, same) =
      run_calls-sent stack cs d b ok.1 (omega (arith, step, small)) rest in
    (
      m ∷ new,
      more ∙ ap (reverse_aux new) sent,
      (number, subst (λ n. Numbered n (map (as_command stack) new)) step numbered),
      ap suc same,
    )

-- The threads of a program send messages whose numbers were taken in the order of the calls. If all
-- are written and the numbers do not wrap, the profiler may receive them in any order: from the
-- process's next number and an empty queue, handing them to `process_command` as they arrive has the
-- effect of executing them in the order of the calls.
pub run_calls-deliver :
    (stack : Sent → Option ℕ) (cs : List Call) (a b : Agent) (st : State) (ms : List Command)
    → All IsWritten cs
    → a.seqno + length cs < u32_mod
    → run_calls cs a ≡ done b
    → a.sent ≡ []
    → st.process.seqno ≡ a.seqno
    → st.process.command_queue ≡ []
    → Perm ms (map (as_command stack) (reverse b.sent))
    → deliver ms st ≡ in_order (map (as_command stack) (reverse b.sent)) st
run_calls-deliver stack cs a b st ms ok small run fresh number empty arrive =
    let (new, sent, numbered, same) = run_calls-sent stack cs a b ok small run in
    let order : reverse b.sent ≡ new =
      ap reverse (sent ∙ ap (reverse_aux new) fresh) ∙ reverse-reverse new in
    let as_sent : map (as_command stack) (reverse b.sent) ≡ map (as_command stack) new =
      ap (map (as_command stack)) order in
    deliver-eq-in_order ms (map (as_command stack) (reverse b.sent)) st arrive
      (subst (Numbered st.process.seqno) (sym as_sent)
        (subst (λ n. Numbered n (map (as_command stack) new)) (sym number) numbered))
      (omega (arith, ap length as_sent, length-commands stack new, same, number, small)) empty
