-- ===== src/World/Answer.antt =====
-- src/server.c: every connection gets an answer.
use memprof.Common.{
  false, true, Bool, Bool-cases, refl, Option-cases, some, inr, inl, ◌∙◌, sym, ◌≡◌, ℕ,
}
use mathlib.Core.Path.{subst}
use mathlib.Core.Option.{some-injective}
use memprof.World.{World}
use memprof.World.Accept.{
  clone_refused, register_child-Known, IsAccepted, exec_process-Known, clone_taken, accept_new-none,
  fork_taken, exec_taken, fork_refused, register_clone-IsAccepted, accept_new-some, Known,
  set_running-IsAccepted,
}
use memprof.World.Served.{IsQuiet, IsQuiet-IsServed, IsServed}
use memprof.World.Server.{
  failed_read, short_read, received, Received, connect, control_func, accept_new, answer,
  exec_process, fork_process, mp_server_find_process, Connection, clone_process, find_or_fork,
}
use memprof.Common.Outcome.{>>=-eq_done, done-injective, done}
use memprof.Process.{
  mi_malloc, mi_time, mi_clone, mi_realloc, mi_new, mi_exec, mi_fork, Operation, mi_exit, mi_free,
}
use mathlib.Core.Logic.{⊎_elim}
use memprof.World.Replies.{
  answer-Served, Refused, Ignored, Answered, Refusal, Served, refused-Answered,
}
use memprof.World.Begun.{accept_new-Begun, Unknown, clone_process-Begun, accept_new-Unknown}

find_or_fork-Known :
    (c : Connection) (w : World) (r : World × ℕ)
    → IsServed w
    → find_or_fork c w ≡ some r
    → Known c.new_pid r
unfolding find_or_fork exec_process fork_process
find_or_fork-Known c w r s e = elim (Option-cases (mp_server_find_process c.new_pid w)) [
  | inr (n, there) ↦
      subst (Known c.new_pid) (cc (exec_taken c n w there, e))
        (exec_process-Known c.new_pid n w s there)
  | inl free ↦ elim (Option-cases (mp_server_find_process c.pid w)) [
    | inl gone ↦ absurd (cc (fork_refused c w free gone, e))
    | inr (parent, there) ↦
        subst (Known c.new_pid) (cc (fork_taken c parent w free there, e))
          (register_child-Known parent c.new_pid w s)
  ]
]

accept_new-IsAccepted :
    (c : Connection) (w : World) (r : World × ℕ)
    → IsServed w
    → accept_new c w ≡ some r
    → IsAccepted c r.0 r.1
unfolding accept_new
accept_new-IsAccepted c w r s e = elim (Option-cases (find_or_fork c w)) [
  | inl gone ↦ absurd (cc (accept_new-none c w gone, e))
  | inr (x, there) ↦
      let (served, known) = find_or_fork-Known c w x s there in
      subst (λ (y : World × ℕ). IsAccepted c y.0 y.1) (cc (accept_new-some c w x there, e))
        (set_running-IsAccepted c x.1 x.0 served known)
]

clone_process-IsAccepted :
    (c : Connection) (w : World) (r : World × ℕ)
    → IsServed w
    → clone_process c w ≡ done r
    → IsAccepted c r.0 r.1
clone_process-IsAccepted c w r s e = elim (Option-cases (mp_server_find_process c.pid w)) [
  | inl gone ↦ absurd (cc (clone_refused c w gone, e))
  | inr (parent, there) ↦
      subst (λ (y : World × ℕ). IsAccepted c y.0 y.1)
        (done-injective (sym (clone_taken c parent w there) ∙ e))
        (register_clone-IsAccepted c parent w s (s.found c.pid parent there).0)
]

Served-Answered :
    (tag fd : ℕ) (wrote : Bool) (R : Type 0) (c : Connection) (w u : World)
    → ¬ R
    → Served tag fd wrote c w u
    → Answered tag fd wrote R c w u
Served-Answered tag fd wrote R c w u taken s = (s.1.served, inl (taken, s))

accept_new-Answered :
    (tag fd : ℕ) (wrote : Bool) (R : Type 0) (c : Connection) (w : World)
    → IsServed w
    → (R → Unknown c w)
    → (Unknown c w → R)
    → Answered tag fd wrote R c w (answer tag fd wrote (accept_new c w) w)
unfolding answer
accept_new-Answered tag fd wrote R c w s only when = elim (Option-cases (accept_new c w)) [
  | inl gone ↦
      rw (gone, answer) (refused-Answered tag fd wrote R c w s (when (accept_new-Unknown c w gone)))
  | inr (r, there) ↦
      let (begun, known) = accept_new-Begun c w r there in
      subst (λ o. Answered tag fd wrote R c w (answer tag fd wrote o w)) (sym there)
        (Served-Answered tag fd wrote R c w _ (λ x. known (only x))
          (answer-Served tag fd wrote c w r (accept_new-IsAccepted c w r s there) begun))
]

-- A fork is refused where the parent is known and does not follow it, and is else as a new process.
fork-Answered :
    (tag fd : ℕ) (wrote : Bool) (c : Connection) (w u : World)
    → IsServed w
    → connect tag fd wrote c w mi_fork ≡ done u
    → Answered tag fd wrote (Refusal mi_fork c w) c w u
unfolding connect answer
fork-Answered tag fd wrote c w u s e = elim (Option-cases (mp_server_find_process c.pid w)) [
  | inl gone ↦ subst (Answered tag fd wrote _ c w) (done-injective (rw (gone, connect) at e)) (
      accept_new-Answered tag fd wrote _ c w s
        (λ r. ⊎_elim (λ i. absurd (cc (i.1, gone))) (λ x. x) r) inr)
  | inr (parent, there) ↦ elim (Bool-cases (w.process parent).follow_fork) [
    | inl follow ↦
        subst (Answered tag fd wrote _ c w) (done-injective (rw (there, follow, connect) at e)) (
          accept_new-Answered tag fd wrote _ c w s
            (λ r. ⊎_elim (λ i. absurd (follows parent there follow i)) (λ x. x) r) inr)
    | inr ignored ↦
        subst (Answered tag fd wrote _ c w) (done-injective (rw (there, ignored, connect) at e))
          (refused-Answered tag fd wrote _ c w s (inl (parent, there, ignored)))
  ]
]
  where
    follows :
        (parent : ℕ)
        → mp_server_find_process c.pid w ≡ some parent
        → (w.process parent).follow_fork ≡ true
        → ¬ Ignored c w
    follows parent there follow (other, found, ignored) =
        let same : other ≡ parent = some-injective _ _ (sym found ∙ there) in
        cc (follow, subst (λ n. (w.process n).follow_fork ≡ false) same ignored)

connect-Answered :
    (op : Operation) (tag fd : ℕ) (wrote : Bool) (c : Connection) (w u : World)
    → IsServed w
    → connect tag fd wrote c w op ≡ done u
    → Answered tag fd wrote (Refusal op c w) c w u
unfolding connect answer
connect-Answered mi_fork tag fd wrote c w u s e = fork-Answered tag fd wrote c w u s e
connect-Answered mi_new tag fd wrote c w u s e =
    subst (Answered tag fd wrote _ c w) (done-injective e)
      (accept_new-Answered tag fd wrote _ c w s (λ x. x) (λ x. x))
connect-Answered mi_clone tag fd wrote c w u s e =
    let (r, made, last) =
      >>=-eq_done (clone_process c w) (λ r. done (answer tag fd wrote (some r) w)) e in
    subst (Answered tag fd wrote ⊥ c w) (done-injective last) (
      Served-Answered tag fd wrote ⊥ c w _ (λ x. x)
        (answer-Served tag fd wrote c w r (clone_process-IsAccepted c w r s made)
          (clone_process-Begun c w r made)))
connect-Answered mi_malloc tag fd wrote c w u s e = cc
connect-Answered mi_realloc tag fd wrote c w u s e = cc
connect-Answered mi_free tag fd wrote c w u s e = cc
connect-Answered mi_time tag fd wrote c w u s e = cc
connect-Answered mi_exec tag fd wrote c w u s e = cc
connect-Answered mi_exit tag fd wrote c w u s e = cc

-- What becomes of a connection: one that sends too little is refused.
abbrev pub AnswerTo : ℕ → ℕ → Bool → Received → World → World → Type 0
AnswerTo tag fd wrote (received c) w u = Answered tag fd wrote (Refusal c.operation c w) c w u
AnswerTo tag fd wrote (failed_read c) w u = Answered tag fd wrote (Refusal c.operation c w) c w u
AnswerTo tag fd wrote short_read w u = IsServed u × Refused fd w u

-- A connection that is accepted gets one answer, if no assertion fails, and the table still names
-- processes by their pids with every clone after the process it belongs to. Byte 0 is written, the
-- descriptor is closed and nothing else changes exactly where less than a message was read, where
-- neither pid is known to MI_NEW or MI_FORK, or where the parent of MI_FORK does not follow forks.
-- Otherwise the server finds under `new_pid` a process that is running, whose channel is the
-- descriptor and whose watch is the new one; byte 1 is written, and if that fails the descriptor is
-- closed all the same. A read that fails is taken for a message.
pub control_func-Answered :
    (tag fd : ℕ) (wrote : Bool) (message : Received) (w u : World)
    → IsServed w
    → control_func tag (some fd) message wrote w ≡ done u
    → AnswerTo tag fd wrote message w u
unfolding control_func answer
control_func-Answered tag fd wrote (received c) w u s e =
    connect-Answered c.operation tag fd wrote c w u s e
control_func-Answered tag fd wrote (failed_read c) w u s e =
    connect-Answered c.operation tag fd wrote c w u s e
control_func-Answered tag fd wrote short_read w u s e =
    let same = done-injective e in
    (
      IsQuiet-IsServed w u
          (subst (IsQuiet w) same
            (record { table = refl; fresh = refl; pids = λ n. refl; clones = λ n. refl }))
          s,
      sym same,
    )
