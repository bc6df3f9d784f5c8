-- ===== src/Process/Total.antt =====
-- src/process.c: `process_command` ends, whatever is queued.
use memprof.Common.{
  length, Bool-cases, ◌==◌, arith, ◌∷◌, [], List, false, true, inr, inl, ◌≢◌, ◌∙◌, ap, sym, refl,
  ◌≡◌, ◌<◌, ◌*◌, ◌+◌, suc, zero, ℕ,
}
use mathlib.Core.Path.{subst}
use memprof.Process.{State, Command}
use memprof.Process.Drain.{
  catch_up-set_queue, catch_up, execute-set_queue, process_command_due, drain-eq-catch_up,
}
use memprof.Process.Commands.{execute, process_command, drain}
use memprof.Process.Queue.{queue_command, set_queue}
use memprof.Common.Outcome.{◌>>=◌, aborted, out_of_fuel, >>=-assoc, Outcome, Ends, done, >>=-cong}

execute_ends : (c : Command) (st : State) → execute c st ≢ out_of_fuel
unfolding execute
execute_ends c st = ground arith

pub bind-Ends :
    (m : Outcome State) (f : State → Outcome State)
    → Ends m
    → ((t : State) → Ends (f t))
    → Ends (m >>= f)
bind-Ends (done t) f h k = k t
bind-Ends aborted f h k = h
bind-Ends out_of_fuel f h k = h

catch_up-Ends : (q : List Command) (st : State) → Ends (catch_up q st)
unfolding catch_up
catch_up-Ends [] st = λ e. cc
catch_up-Ends (c ∷ q) st = elim (Bool-cases (c.info.seqno == st.process.seqno)) [
  | inr early ↦ rw (early, catch_up) (λ e. cc)
  | inl due ↦
      rw (due, catch_up)
        (bind-Ends (execute c st) (λ t. catch_up q t) (execute_ends c st) (catch_up-Ends q))
]

-- What `process_command` means: a command whose number is not the next one is queued; otherwise it
-- is executed, and after it the queued commands whose turn has come.
unfoldable pub accept : Command → State → Outcome State
accept c st = elim (c.info.seqno == st.process.seqno) [
  | false ↦ done (queue_command c st)
  | true ↦ execute c st >>= (λ t. catch_up st.process.command_queue t)
]

pub accept_due :
    (c : Command) (st : State)
    → (c.info.seqno == st.process.seqno) ≡ true
    → accept c st ≡ (execute c st >>= (λ t. catch_up st.process.command_queue t))
unfolding accept
accept_due c st e = rw (e, accept)

pub accept_early :
    (c : Command) (st : State)
    → (c.info.seqno == st.process.seqno) ≡ false
    → accept c st ≡ done (queue_command c st)
unfolding accept
accept_early c st e = rw (e, accept)

accept-Ends : (c : Command) (st : State) → Ends (accept c st)
unfolding accept
accept-Ends c st = elim (Bool-cases (c.info.seqno == st.process.seqno)) [
  | inr early ↦ rw (early, accept) (λ e. cc)
  | inl due ↦
      rw (due, accept)
        (bind-Ends (execute c st) (λ t. catch_up st.process.command_queue t) (execute_ends c st)
          (catch_up-Ends st.process.command_queue))
]

process_command_early :
    (f : ℕ) (c : Command) (st : State)
    → (c.info.seqno == st.process.seqno) ≡ false
    → process_command (suc f) c st ≡ done (queue_command c st)
unfolding process_command
process_command_early f c st e = rw (e, process_command)

-- With fuel for twice the queue and two rounds, `process_command` ends and is `accept`: the calls of
-- itself that it makes from its `while` loop execute the queued commands one by one in the order of
-- the queue, and stop at the first one whose turn has not come.
pub process_command-eq-accept :
    (f : ℕ) (c : Command) (st : State)
    → 2 * length st.process.command_queue + 1 < f
    → (process_command f c st ≡ accept c st) × Ends (process_command f c st)
process_command-eq-accept zero c st h = absurd (omega arith)
process_command-eq-accept (suc f) c st h =
    (agrees, subst (λ m. Ends m) (sym agrees) (accept-Ends c st))
  where
    q : List Command
    q = st.process.command_queue

    after : execute c st ≡ (execute c st >>= (λ t. done (set_queue q t)))
    after = execute-set_queue c q st

    executed : (execute c st >>= (λ t. drain f t)) ≡ (execute c st >>= (λ t. catch_up q t))
    executed =
        ap (λ m. m >>= (λ t. drain f t)) after
        ∙ >>=-assoc (execute c st) (λ t. done (set_queue q t)) (λ t. drain f t)
        ∙ >>=-cong (execute c st) (λ t.
          drain-eq-catch_up f (set_queue q t) q refl (omega arith) ∙ catch_up-set_queue q q t)

    agrees : process_command (suc f) c st ≡ accept c st
    agrees = elim (Bool-cases (c.info.seqno == st.process.seqno)) [
      | inr early ↦ process_command_early f c st early ∙ sym (accept_early c st early)
      | inl due ↦ process_command_due f c st due ∙ executed ∙ sym (accept_due c st due)
    ]
