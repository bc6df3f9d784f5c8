-- ===== src/World/Begun.antt =====
-- src/server.c: the process of a connection is not read yet, and nothing is answered before the end.
use memprof.Common.{
  ◌⊎◌, none, Bool-cases, arith, refl, Option-cases, ◌∷◌, [], List, some, inr, inl, ◌∙◌, sym, ◌≡◌, ℕ,
}
use mathlib.Core.Path.{subst}
use mathlib.Core.Option.{some-injective}
use memprof.Process.{Status, running, mp_process_init}
use memprof.World.{
  World, Event, status_changed, was_reset, process_created, write_byte, close_fd, shutdown_channel,
  kill_term,
}
use memprof.World.Accept.{
  clone_refused, accept_new-none, fork_taken, exec_taken, fork_refused, accept_new-some,
  clone_taken,
}
use memprof.World.Server.{
  exec_process, replace_process, register_child, register_clone, mp_server_add_process,
  mp_server_find_process, Connection, clone_process, find_or_fork, accept_new,
}
use memprof.World.Life.{
  process_set_status, same_status, process_exec_reset, process_reinit, process_stop_input,
  process_new, process_duplicate,
}
use memprof.Common.Outcome.{done-injective, done}

-- The bytes that are written to descriptors and the descriptors that are closed, the last one first.
abbrev pub replies : List Event → List Event
replies [] = []
replies (write_byte fd b ∷ es) = write_byte fd b ∷ replies es
replies (close_fd fd ∷ es) = close_fd fd ∷ replies es
replies (status_changed n ∷ es) = replies es
replies (was_reset n ∷ es) = replies es
replies (process_created n ∷ es) = replies es
replies (shutdown_channel fd ∷ es) = replies es
replies (kill_term pid ∷ es) = replies es

-- `r` is a process without a watch, in a world where nothing was answered since `w`.
abbrev pub Begun : World → World × ℕ → Type 0
Begun w r = (replies r.0.events ≡ replies w.events) × ((r.0.process r.1).input_tag ≡ 0)

set_status-Begun :
    (s : Status) (n : ℕ) (w u : World) → Begun w (u, n) → Begun w (process_set_status n s u, n)
unfolding process_set_status
set_status-Begun s n w u b = elim (Bool-cases (same_status (u.process n).status s)) [
  | inl same ↦ rw (same, process_set_status) b
  | inr other ↦ rw (other, process_set_status) (b.0, ground (arith, b.1))
]

exec_process-Begun : (n : ℕ) (w : World) → Begun w (exec_process n w)
unfolding exec_process replace_process process_exec_reset process_reinit process_stop_input
    process_new mp_server_add_process mp_process_init
exec_process-Begun n w = elim (Bool-cases (w.process n).follow_exec) [
  | inl follow ↦ rw (follow, exec_process) (refl, ground arith)
  | inr same ↦ rw (same, exec_process) (refl, ground arith)
]

register_child-Begun : (parent pid : ℕ) (w : World) → Begun w (register_child parent pid w, w.fresh)
unfolding register_child process_duplicate process_new mp_server_add_process mp_process_init
register_child-Begun parent pid w = (refl, ground arith)

register_clone-Begun : (parent pid : ℕ) (w : World) → Begun w (register_clone parent pid w, w.fresh)
unfolding register_clone process_new mp_server_add_process mp_process_init
register_clone-Begun parent pid w =
    let b = set_status-Begun running w.fresh w (process_new w) (refl, ground arith) in
    (b.0, ground (arith, b.1))

-- Neither pid of a connection is known.
abbrev pub Unknown : Connection → World → Type 0
Unknown c w = (mp_server_find_process c.new_pid w ≡ none) × (mp_server_find_process c.pid w ≡ none)

-- A process is found or made exactly where a pid is known.
find_or_fork-cases :
    (c : Connection) (w : World)
    → ((find_or_fork c w ≡ none) × Unknown c w)
      ⊎ ((r : World × ℕ) × (find_or_fork c w ≡ some r) × Begun w r × ¬ Unknown c w)
find_or_fork-cases c w = elim (Option-cases (mp_server_find_process c.new_pid w)) [
  | inr (n, there) ↦
      inr (exec_process n w, exec_taken c n w there, exec_process-Begun n w, λ u. cc (u.0, there))
  | inl free ↦ elim (Option-cases (mp_server_find_process c.pid w)) [
    | inl gone ↦ inl (fork_refused c w free gone, (free, gone))
    | inr (parent, there) ↦ inr (
      (register_child parent c.new_pid w, w.fresh),
      fork_taken c parent w free there,
      register_child-Begun parent c.new_pid w,
      λ u. cc (u.1, there),
    )
  ]
]

pub accept_new-Begun :
    (c : Connection) (w : World) (r : World × ℕ)
    → accept_new c w ≡ some r
    → Begun w r × ¬ Unknown c w
accept_new-Begun c w r e = elim (find_or_fork-cases c w) [
  | inl (gone, unknown) ↦ absurd (cc (accept_new-none c w gone, e))
  | inr (x, there, begun, known) ↦
      let same : (process_set_status x.1 running x.0, x.1) ≡ r =
        some-injective _ _ (sym (accept_new-some c w x there) ∙ e) in
      (subst (Begun w) same (set_status-Begun running x.1 w x.0 begun), known)
]

pub accept_new-Unknown : (c : Connection) (w : World) → accept_new c w ≡ none → Unknown c w
accept_new-Unknown c w e = elim (find_or_fork-cases c w) [
  | inl (gone, unknown) ↦ unknown
  | inr (x, there, begun, known) ↦ absurd (cc (accept_new-some c w x there, e))
]

pub clone_process-Begun :
    (c : Connection) (w : World) (r : World × ℕ) → clone_process c w ≡ done r → Begun w r
clone_process-Begun c w r e = elim (Option-cases (mp_server_find_process c.pid w)) [
  | inl gone ↦ absurd (cc (clone_refused c w gone, e))
  | inr (parent, there) ↦
      subst (Begun w) (done-injective (sym (clone_taken c parent w there) ∙ e))
        (register_clone-Begun parent c.new_pid w)
]
