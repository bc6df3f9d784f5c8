-- ===== src/Process/Kept.antt =====
-- src/process.c: an invariant that every executed command keeps is kept by the whole queue.
use memprof.Common.{
  length, Bool-cases, ◌==◌, arith, ◌∷◌, [], List, inr, inl, ◌∙◌, sym, ◌≡◌, ◌*◌, ◌+◌,
}
use mathlib.Core.Path.{subst}
use memprof.Process.{State, Command}
use memprof.Process.Drain.{catch_up, catch_up_due}
use memprof.Process.Commands.{process_command, execute}
use memprof.Process.Order.{deliver}
use memprof.Process.Total.{accept_early, accept, process_command-eq-accept, accept_due}
use memprof.Process.Queue.{queue_command, insert_sorted, set_queue}
use memprof.Common.Outcome.{done-injective, >>=-eq_done, done}

module _ {ℓ} (P : State → Type ℓ)
    (keeps : (c : Command) (st t : State) → P st → execute c st ≡ done t → P t)
    (queued : (q : List Command) (st : State) → P st → P (set_queue q st)) where
  catch_up_keeps : (q : List Command) (st t : State) → P st → catch_up q st ≡ done t → P t
  unfolding catch_up
  catch_up_keeps [] st t p e = subst P (done-injective e) (queued [] st p)
  catch_up_keeps (c ∷ q) st t p e = elim (Bool-cases (c.info.seqno == st.process.seqno)) [
    | inr early ↦ subst P (done-injective (rw (early, catch_up) at e)) (queued (c ∷ q) st p)
    | inl due ↦
        let (u, eu, et) =
          >>=-eq_done (execute c st) (λ t. catch_up q t) (sym (catch_up_due c q st due) ∙ e) in
        catch_up_keeps q u t (keeps c st u p eu) et
  ]

  accept_keeps : (c : Command) (st t : State) → P st → accept c st ≡ done t → P t
  unfolding queue_command
  accept_keeps c st t p e = elim (Bool-cases (c.info.seqno == st.process.seqno)) [
    | inr early ↦
        subst P (done-injective (sym (accept_early c st early) ∙ e))
          (queued (insert_sorted c st.process.command_queue) st p)
    | inl due ↦
        let (u, eu, et) =
          >>=-eq_done (execute c st) (λ t. catch_up st.process.command_queue t)
            (sym (accept_due c st due) ∙ e) in
        catch_up_keeps st.process.command_queue u t (keeps c st u p eu) et
  ]

  pub deliver_keeps : (ms : List Command) (st t : State) → P st → deliver ms st ≡ done t → P t
  unfolding deliver
  deliver_keeps [] st t p e = subst P (done-injective e) p
  deliver_keeps (c ∷ ms) st t p e =
      let f = 2 * length st.process.command_queue + 2 in
      let (u, eu, et) = >>=-eq_done (process_command f c st) (λ t. deliver ms t) e in
      deliver_keeps ms u t
        (accept_keeps c st u p (sym (process_command-eq-accept f c st (omega arith)).0 ∙ eu)) et
