-- ===== src/World/Accept.antt =====
-- src/server.c: what `control_func` does with a connection.
use memprof.Common.{
  if◌then◌else◌, none, false, Bool, ◌<◌, arith, true, refl, Bool-cases, some, inr, inl, ◌∙◌, ◌≡◌, ℕ,
}
use memprof.Process.{mp_process_init, defunct, Status, starting, init, detached, exiting, running}
use memprof.World.{set_process, emit, process_created, Event, World}
use memprof.World.Served.{
  IsQuiet, add-IsServed, HasNew, add-found, IsQuiet-IsServed, find-table,
  process_set_status-IsQuiet, process_exec_reset-IsQuiet, IsServed,
}
use memprof.World.Server.{
  accept_new, find_or_fork, register_clone, register_child, replace_process, mp_server_add_process,
  mp_server_find_process, exec_process, Connection, clone_process, fork_process,
}
use memprof.World.Life.{same_status, process_new, process_duplicate, process_set_status}
use memprof.Common.Outcome.{aborted, done}
use mathlib.Core.Path.{subst}

-- The process `n` that a connection got: running, and found under its pid.
pub record IsAccepted (c : Connection) (w : World) (n : ℕ) : Type 0 where
  pub served : IsServed w
  pub known : mp_server_find_process c.new_pid w ≡ some n
  pub running_now : (w.process n).status ≡ running

running_of_same : (s : Status) → same_status s running ≡ true → s ≡ running
running_of_same init e = cc
running_of_same starting e = cc
running_of_same running e = refl
running_of_same exiting e = cc
running_of_same defunct e = cc
running_of_same detached e = cc

set_running : (n : ℕ) (w : World) → ((process_set_status n running w).process n).status ≡ running
unfolding process_set_status
set_running n w = elim (Bool-cases (same_status (w.process n).status running)) [
  | inl same ↦ rw (same, process_set_status) (running_of_same (w.process n).status same)
  | inr other ↦ rw (other, process_set_status) (ground arith)
]

-- Setting the status of a process that is known.
pub set_running-IsAccepted :
    (c : Connection) (n : ℕ) (w : World)
    → IsServed w
    → mp_server_find_process c.new_pid w ≡ some n
    → IsAccepted c (process_set_status n running w) n
set_running-IsAccepted c n w s e =
    let q = process_set_status-IsQuiet n running w in
    record {
      served = IsQuiet-IsServed w _ q s;
      known = find-table c.new_pid w _ q.table ∙ e;
      running_now = set_running n w;
    }

abbrev pub Known : ℕ → World × ℕ → Type 0
Known pid r = IsServed r.0 × (mp_server_find_process pid r.0 ≡ some r.1)

-- A process that is registered under its pid.
add-Known :
    (e : Event) (pid : ℕ) (w u : World)
    → HasNew w u
    → IsServed w
    → (u.process w.fresh).pid ≡ pid
    → Known pid (emit e (mp_server_add_process w.fresh u), w.fresh)
add-Known e pid w u g s same =
    let added = mp_server_add_process w.fresh u in
    let q : IsQuiet added (emit e added) = record {
      table = refl;
      fresh = refl;
      pids = λ n. refl;
      clones = λ n. refl;
    } in
    (
      IsQuiet-IsServed added _ q (add-IsServed w u g s),
      find-table pid added _ q.table
          ∙ subst (λ k. mp_server_find_process k added ≡ some w.fresh) same (add-found w.fresh u),
    )

replace_process-Known :
    (pid n : ℕ) (w : World)
    → IsServed w
    → mp_server_find_process pid w ≡ some n
    → Known pid (replace_process n w, w.fresh)
unfolding replace_process process_new mp_process_init
replace_process-Known pid n w s e =
    add-Known (process_created w.fresh) pid w _
      (record {
        table = refl;
        fresh = refl;
        pids = λ m lt. ground (arith, lt);
        clones = λ m lt. ground (arith, lt);
        older = λ m f. absurd (ground (arith, f));
      })
      s (ground arith ∙ (s.found pid n e).1)

pub register_child-Known :
    (parent pid : ℕ) (w : World) → IsServed w → Known pid (register_child parent pid w, w.fresh)
unfolding register_child process_new process_duplicate mp_process_init
register_child-Known parent pid w s =
    add-Known (process_created w.fresh) pid w _
      (record {
        table = refl;
        fresh = refl;
        pids = λ m lt. ground (arith, lt);
        clones = λ m lt. ground (arith, lt);
        older = λ m f. absurd (ground (arith, f));
      })
      s (ground arith)

pub register_clone-IsAccepted :
    (c : Connection) (parent : ℕ) (w : World)
    → IsServed w
    → parent < w.fresh
    → IsAccepted c (register_clone parent c.new_pid w) w.fresh
unfolding register_clone process_new mp_process_init mp_server_add_process
register_clone-IsAccepted c parent w s lt =
    let u = process_set_status w.fresh running (process_new w) in
    let q = process_set_status-IsQuiet w.fresh running (process_new w) in
    let v =
      set_process w.fresh (record (u.process w.fresh) { clone_of = some parent; pid = c.new_pid })
        u in
    let g : HasNew w v = record {
      table = q.table;
      fresh = q.fresh;
      pids = λ m lt'. ground (arith, lt', q.pids m);
      clones = λ m lt'. ground (arith, lt', q.clones m);
      older = λ m f. ground (arith, f, lt);
    } in
    record {
      served = add-IsServed w v g s;
      known =
          subst (λ k. mp_server_find_process k (mp_server_add_process w.fresh v) ≡ some w.fresh)
            (ground arith) (add-found w.fresh v);
      running_now = ground (arith, set_running w.fresh (process_new w));
    }

pub exec_process-Known :
    (pid n : ℕ) (w : World)
    → IsServed w
    → mp_server_find_process pid w ≡ some n
    → Known pid (exec_process n w)
unfolding exec_process
exec_process-Known pid n w s e =
    if_rule (w.process n).follow_exec (replace_process-Known pid n w s e) (
      let q = process_exec_reset-IsQuiet n w in
      (IsQuiet-IsServed w _ q s, find-table pid w _ q.table ∙ e))
  where
    if_rule :
        (b : Bool) {x y : World × ℕ} → Known pid x → Known pid y → Known pid (if b then x else y)
    if_rule true p q = p
    if_rule false p q = q

-- What the branches of `control_func` return.
pub exec_taken :
    (c : Connection) (n : ℕ) (w : World)
    → mp_server_find_process c.new_pid w ≡ some n
    → find_or_fork c w ≡ some (exec_process n w)
unfolding find_or_fork
exec_taken c n w e = rw (e, find_or_fork)

pub fork_refused :
    (c : Connection) (w : World)
    → mp_server_find_process c.new_pid w ≡ none
    → mp_server_find_process c.pid w ≡ none
    → find_or_fork c w ≡ none
unfolding find_or_fork fork_process
fork_refused c w e f = rw (e, f, find_or_fork, fork_process)

pub fork_taken :
    (c : Connection) (parent : ℕ) (w : World)
    → mp_server_find_process c.new_pid w ≡ none
    → mp_server_find_process c.pid w ≡ some parent
    → find_or_fork c w ≡ some (register_child parent c.new_pid w, w.fresh)
unfolding find_or_fork fork_process
fork_taken c parent w e f = rw (e, f, find_or_fork, fork_process)

pub accept_new-none : (c : Connection) (w : World) → find_or_fork c w ≡ none → accept_new c w ≡ none
unfolding accept_new
accept_new-none c w e = rw (e, accept_new)

pub accept_new-some :
    (c : Connection) (w : World) (r : World × ℕ)
    → find_or_fork c w ≡ some r
    → accept_new c w ≡ some (process_set_status r.1 running r.0, r.1)
unfolding accept_new
accept_new-some c w r e = rw (e, accept_new)

pub clone_refused :
    (c : Connection) (w : World)
    → mp_server_find_process c.pid w ≡ none
    → clone_process c w ≡ aborted
unfolding clone_process
clone_refused c w e = rw (e, clone_process)

pub clone_taken :
    (c : Connection) (parent : ℕ) (w : World)
    → mp_server_find_process c.pid w ≡ some parent
    → clone_process c w ≡ done (register_clone parent c.new_pid w, w.fresh)
unfolding clone_process
clone_taken c parent w e = rw (e, clone_process)
