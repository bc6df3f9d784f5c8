-- ===== src/Process/Drain.antt =====
-- src/process.c: what `process_command` and its `while` do, without fuel.
use memprof.Common.{
  if◌then◌else◌, some, length, Bool-cases, none, inr, inl, ◌∙◌, ap, sym, refl, ◌<◌, ◌*◌, suc, zero,
  ℕ, ◌==◌, arith, ◌∷◌, [], List, false, true, ◌≡◌,
}
use memprof.Process.{State, Command}
use memprof.Process.Commands.{process_command, drain, execute}
use memprof.Process.Queue.{unqueue_command, set_queue}
use memprof.Common.Outcome.{
  >>=-return, >>=-assoc, aborted, out_of_fuel, >>=-cong, done, ◌>>=◌, Outcome,
}

-- The commands of a sorted queue whose turn has come are executed one after the other; the rest
-- stays queued.
unfoldable pub catch_up : List Command → State → Outcome State
catch_up [] st = done (set_queue [] st)
catch_up (c ∷ q) st = elim (c.info.seqno == st.process.seqno) [
  | true ↦ execute c st >>= (λ t. catch_up q t)
  | false ↦ done (set_queue (c ∷ q) st)
]

-- No command reads the queue.
pub execute-set_queue :
    (c : Command) (q : List Command) (st : State)
    → execute c (set_queue q st) ≡ (execute c st >>= (λ t. done (set_queue q t)))
unfolding execute
execute-set_queue c q st = ground arith

pub set_queue_self :
    (q : List Command) (st : State) → st.process.command_queue ≡ q → set_queue q st ≡ st
set_queue_self q st e = ap (λ p. set_queue p st) (sym e)

pub catch_up-set_queue :
    (q p : List Command) (st : State) → catch_up q (set_queue p st) ≡ catch_up q st
unfolding catch_up
catch_up-set_queue [] p st = refl
catch_up-set_queue (c ∷ q) p st = elim (Bool-cases (c.info.seqno == st.process.seqno)) [
  | inr early ↦ rw (early, catch_up)
  | inl due ↦
      rw (due, catch_up)
        (ap (λ m. m >>= (λ t. catch_up q t)) (execute-set_queue c p st)
          ∙ >>=-assoc (execute c st) (λ t. done (set_queue p t)) (λ t. catch_up q t)
          ∙ >>=-cong (execute c st) (λ t. catch_up-set_queue q p t))
]

pub unqueue_command_empty : (st : State) → st.process.command_queue ≡ [] → unqueue_command st ≡ none
unfolding unqueue_command
unqueue_command_empty st e = ground arith

pub unqueue_command_cons :
    (c : Command) (q : List Command) (st : State)
    → st.process.command_queue ≡ c ∷ q
    → unqueue_command st
      ≡ (if c.info.seqno == st.process.seqno then some (c, set_queue q st) else none)
unfolding unqueue_command
unqueue_command_cons c q st e = rw (e, unqueue_command)

-- At the end no queued command is due.
module _ (t : State) where
  after_command :
      (m : Outcome State) (f : State → Outcome State)
      → ((u : State) → f u ≡ done t → unqueue_command t ≡ none)
      → (m >>= f) ≡ done t
      → unqueue_command t ≡ none
  after_command (done u) f h e = h u e
  after_command aborted f h e = cc
  after_command out_of_fuel f h e = cc

  pub catch_up_settled :
      (q : List Command) (st : State) → catch_up q st ≡ done t → unqueue_command t ≡ none
  unfolding catch_up unqueue_command
  catch_up_settled [] st e = ground arith
  catch_up_settled (c ∷ q) st e = elim (Bool-cases (c.info.seqno == st.process.seqno)) [
    | inr early ↦ ground arith
    | inl due ↦
        after_command (execute c st) (λ u. catch_up q u) (catch_up_settled q)
          (rw (due, catch_up) at e)
  ]

pub drain_settled : (f : ℕ) (st : State) → unqueue_command st ≡ none → drain (suc f) st ≡ done st
unfolding drain
drain_settled f st e = rw (e, drain)

pub drain_due :
    (f : ℕ) (c : Command) (st t : State)
    → unqueue_command st ≡ some (c, t)
    → drain (suc f) st ≡ (process_command f c t >>= (λ u. drain f u))
unfolding drain
drain_due f c st t e = rw (e, drain)

pub process_command_due :
    (f : ℕ) (c : Command) (st : State)
    → (c.info.seqno == st.process.seqno) ≡ true
    → process_command (suc f) c st ≡ (execute c st >>= (λ t. drain f t))
unfolding process_command
process_command_due f c st e = rw (e, process_command)

-- The commands run from a queue, with the recursion flattened.
flatten_step :
    (f : ℕ) (c : Command) (q : List Command) (st : State)
    → ((u : State) → u.process.command_queue ≡ q → drain f u ≡ catch_up q u)
    → (c.info.seqno == st.process.seqno) ≡ true
    → (process_command (suc f) c (set_queue q st) >>= (λ u. drain (suc f) u))
      ≡ (execute c st >>= (λ t. catch_up q t))
flatten_step f c q st ih due =
    let inner : process_command (suc f) c (set_queue q st)
        ≡ (execute c st >>= (λ t. catch_up q t)) =
      process_command_due f c (set_queue q st) due
      ∙ ap (λ m. m >>= (λ t. drain f t)) (execute-set_queue c q st)
      ∙ >>=-assoc (execute c st) (λ t. done (set_queue q t)) (λ t. drain f t)
      ∙ >>=-cong (execute c st) (λ t. ih (set_queue q t) refl ∙ catch_up-set_queue q q t) in
    ap (λ m. m >>= (λ u. drain (suc f) u)) inner
    ∙ >>=-assoc (execute c st) (λ t. catch_up q t) (λ u. drain (suc f) u)
    ∙ >>=-cong (execute c st)
        (λ t. >>=-return (catch_up q t) (λ u e. drain_settled f u (catch_up_settled u q t e)))

pub catch_up_early :
    (c : Command) (q : List Command) (st : State)
    → (c.info.seqno == st.process.seqno) ≡ false
    → catch_up (c ∷ q) st ≡ done (set_queue (c ∷ q) st)
unfolding catch_up
catch_up_early c q st e = rw (e, catch_up)

pub catch_up_due :
    (c : Command) (q : List Command) (st : State)
    → (c.info.seqno == st.process.seqno) ≡ true
    → catch_up (c ∷ q) st ≡ (execute c st >>= (λ t. catch_up q t))
unfolding catch_up
catch_up_due c q st e = rw (e, catch_up)

pub drain-eq-catch_up :
    (f : ℕ) (st : State) (q : List Command)
    → st.process.command_queue ≡ q
    → 2 * length q < f
    → drain f st ≡ catch_up q st
unfolding catch_up
drain-eq-catch_up zero st q e h = absurd (omega arith)
drain-eq-catch_up (suc f) st [] e h =
    drain_settled f st (unqueue_command_empty st e) ∙ ap done (sym (set_queue_self [] st e))
drain-eq-catch_up (suc zero) st (c ∷ q) e h = absurd (omega arith)
drain-eq-catch_up (suc (suc f)) st (c ∷ q) e h =
    elim (Bool-cases (c.info.seqno == st.process.seqno)) [
      | inr early ↦
          drain_settled (suc f) st (unqueue_command_cons c q st e ∙ rw early)
          ∙ ap done (sym (set_queue_self (c ∷ q) st e))
          ∙ sym (catch_up_early c q st early)
      | inl due ↦
          drain_due (suc f) c st (set_queue q st) (unqueue_command_cons c q st e ∙ rw due)
          ∙ flatten_step f c q st (λ u eu. drain-eq-catch_up f u q eu (omega arith)) due
          ∙ sym (catch_up_due c q st due)
    ]
