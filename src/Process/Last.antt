-- ===== src/Process/Last.antt =====
-- src/process.c: which command `process_command` leaves in `info`.
use memprof.Common.{
  if◌then◌else◌, some, length, Bool-cases, none, inr, inl, ◌∙◌, ap, sym, refl, ◌<◌, ◌≤◌, ◌*◌, ◌+◌,
  suc, zero, ℕ, ◌==◌, arith, ◌∷◌, [], List, true, ◌≡◌,
}
use memprof.Process.{State, Command, Operation, Process}
use memprof.Process.Commands.{process_command, drain, execute, command_operation, drain_operation}
use memprof.Process.Drain.{
  catch_up_settled, drain_due, unqueue_command_empty, unqueue_command_cons, drain-eq-catch_up,
  process_command_due,
}
use memprof.Process.Queue.{unqueue_command, set_queue}
use memprof.Common.Word.{add32}
use memprof.Common.Outcome.{>>=-eq_done, done}

-- The commands at the front of a queue whose numbers follow one another from `seqno` on.
abbrev pub due : ℕ → List Command → List Command
due seqno [] = []
due seqno (c ∷ q) = if c.info.seqno == seqno then c ∷ due (add32 seqno 1) q else []

-- The operation of the last of them, or `op` if there is none.
abbrev pub last_operation : Operation → List Command → Operation
last_operation op [] = op
last_operation op (c ∷ q) = last_operation c.info.operation q

due_turn :
    (seqno : ℕ) (op : Operation) (c : Command) (q : List Command)
    → (c.info.seqno == seqno) ≡ true
    → done (last_operation op (due seqno (c ∷ q)))
      ≡ done (last_operation c.info.operation (due (add32 seqno 1) q))
due_turn seqno op c q turn = rw turn refl

execute_kept :
    (c : Command) (st t : State)
    → execute c st ≡ done t
    → (t.process.command_queue ≡ st.process.command_queue)
      × (t.process.seqno ≡ add32 st.process.seqno 1)
unfolding execute
execute_kept c st t e = (ground (arith, e), ground (arith, e))

drain_operation_settled :
    (f : ℕ) (op : Operation) (st : State)
    → unqueue_command st ≡ none
    → drain_operation (suc f) op st ≡ done op
unfolding drain_operation
drain_operation_settled f op st e = rw (e, drain_operation)

drain_operation_due :
    (f : ℕ) (op o : Operation) (c : Command) (st t u : State)
    → unqueue_command st ≡ some (c, t)
    → command_operation f c t ≡ done o
    → process_command f c t ≡ done u
    → drain_operation (suc f) op st ≡ drain_operation f o u
unfolding drain_operation
drain_operation_due f op o c st t u e first second = rw (e, first, second, drain_operation) refl

command_operation_due :
    (f : ℕ) (c : Command) (st t : State)
    → (c.info.seqno == st.process.seqno) ≡ true
    → execute c st ≡ done t
    → command_operation (suc f) c st ≡ drain_operation f c.info.operation t
unfolding command_operation
command_operation_due f c st t e run = rw (e, run, command_operation) refl

-- What is run from a queue leaves the operation of the last command of those that are due.
drain_operation-last :
    (f : ℕ) (st t : State) (q : List Command) (op : Operation)
    → st.process.command_queue ≡ q
    → 2 * length q < f
    → drain f st ≡ done t
    → drain_operation f op st ≡ done (last_operation op (due st.process.seqno q))
drain_operation-last zero st t q op e h run = absurd (omega arith)
drain_operation-last (suc f) st t [] op e h run =
    drain_operation_settled f op st (unqueue_command_empty st e)
drain_operation-last (suc zero) st t (c ∷ q) op e h run = absurd (omega arith)
drain_operation-last (suc (suc f)) st t (c ∷ q) op e h run =
    elim (Bool-cases (c.info.seqno == st.process.seqno)) [
      | inr early ↦
          rw early
            (drain_operation_settled (suc f) op st (unqueue_command_cons c q st e ∙ rw early))
      | inl turn ↦
          let next : unqueue_command st ≡ some (c, set_queue q st) =
            unqueue_command_cons c q st e ∙ rw turn in
          let (u, first, rest) =
            >>=-eq_done (process_command (suc f) c (set_queue q st)) (λ u. drain (suc f) u)
              (sym (drain_due (suc f) c st (set_queue q st) next) ∙ run) in
          let (v, ran, inner) =
            >>=-eq_done (execute c (set_queue q st)) (λ v. drain f v)
              (sym (process_command_due f c (set_queue q st) turn) ∙ first) in
          let (queue, seqno) = execute_kept c (set_queue q st) v ran in
          let enough : 2 * length q < f = omega (arith, h) in
          let settled : unqueue_command u ≡ none =
            catch_up_settled u q v (sym (drain-eq-catch_up f v q queue enough) ∙ inner) in
          let last =
            command_operation_due f c (set_queue q st) v turn ran
            ∙ drain_operation-last f v u q c.info.operation queue enough inner in
          drain_operation_due (suc f) op _ c st (set_queue q st) u next last first
          ∙ drain_operation_settled f _ u settled
          ∙ ap (λ k. done (last_operation c.info.operation (due k q))) seqno
          ∙ sym (due_turn st.process.seqno op c q turn)
    ]

-- The last command that a message makes `process_command` run, or the message itself if it is queued.
abbrev pub left_in_info : Command → Process → Operation
left_in_info c p =
    if c.info.seqno == p.seqno
    then last_operation c.info.operation (due (add32 p.seqno 1) p.command_queue)
    else c.info.operation

pub command_operation-left :
    (f : ℕ) (c : Command) (st t : State)
    → 2 * length st.process.command_queue + 2 ≤ f
    → process_command f c st ≡ done t
    → command_operation f c st ≡ done (left_in_info c st.process)
unfolding command_operation process_command
command_operation-left zero c st t h run = absurd (omega arith)
command_operation-left (suc f) c st t h run = elim (Bool-cases (c.info.seqno == st.process.seqno)) [
  | inr early ↦ rw (early, command_operation) refl
  | inl turn ↦
      let (v, ran, inner) =
        >>=-eq_done (execute c st) (λ v. drain f v) (sym (process_command_due f c st turn) ∙ run) in
      let (queue, seqno) = execute_kept c st v ran in
      command_operation_due f c st v turn ran
      ∙ drain_operation-last f v t st.process.command_queue c.info.operation queue
          (omega (arith, h)) inner
      ∙ ap (λ k. done (last_operation c.info.operation (due k st.process.command_queue))) seqno
      ∙ rw turn refl
]
