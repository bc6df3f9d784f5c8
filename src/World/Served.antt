-- ===== src/World/Served.antt =====
-- src/server.c: the table of processes names each process by its pid.
use memprof.Common.{
  eq→==, ==→eq, ltb→le, ltb→lt, ltb, Option-cases, [], Bool-cases, if◌then◌else◌, ◌==◌, arith, some,
  none, Option, inr, inl, ◌∙◌, ap, sym, refl, ◌≡◌, ◌<◌, ◌+◌, ℕ,
}
use mathlib.Core.Path.{subst}
use memprof.Process.{Process, Status}
use memprof.World.{set_process, World}
use memprof.World.Server.{open_pid_table, mp_server_find_process, mp_server_add_process}
use memprof.World.Life.{
  process_exec_reset, same_status, process_start_input, process_stop_input, process_reinit,
  process_set_status,
}
use memprof.Common.Table.{lookup-insert, Table, lookup}

pub record IsServed (w : World) : Type 0 where
  pub found :
      (pid n : ℕ)
      → mp_server_find_process pid w ≡ some n
      → (n < w.fresh) × ((w.process n).pid ≡ pid)
  pub older : (n m : ℕ) → n < w.fresh → (w.process n).clone_of ≡ some m → m < n

-- A change that concerns no pid, no clone and not the table.
pub record IsQuiet (w u : World) : Type 0 where
  pub table : u.pid_table ≡ w.pid_table
  pub fresh : u.fresh ≡ w.fresh
  pub pids : (n : ℕ) → (u.process n).pid ≡ (w.process n).pid
  pub clones : (n : ℕ) → (u.process n).clone_of ≡ (w.process n).clone_of

find_over : Option (Table ℕ) → ℕ → Option ℕ
find_over t pid = elim t [ none ↦ none | some t ↦ lookup pid t ]

pub find-table :
    (pid : ℕ) (w u : World)
    → u.pid_table ≡ w.pid_table
    → mp_server_find_process pid u ≡ mp_server_find_process pid w
unfolding mp_server_find_process find_over
find-table pid w u e = ap (λ t. find_over t pid) e

pub IsQuiet-IsServed : (w u : World) → IsQuiet w u → IsServed w → IsServed u
IsQuiet-IsServed w u q s = record {
  found = λ pid n e.
      let (lt, same) = s.found pid n (sym (find-table pid w u q.table) ∙ e) in
      (subst (λ k. n < k) (sym q.fresh) lt, q.pids n ∙ same);
  older = λ n m lt e. s.older n m (subst (λ k. n < k) q.fresh lt) (sym (q.clones n) ∙ e);
}

IsQuiet-refl : (w : World) → IsQuiet w w
IsQuiet-refl w = record { table = refl; fresh = refl; pids = λ n. refl; clones = λ n. refl }

pub IsQuiet-trans : {w u v : World} → IsQuiet w u → IsQuiet u v → IsQuiet w v
IsQuiet-trans p q = record {
  table = q.table ∙ p.table;
  fresh = q.fresh ∙ p.fresh;
  pids = λ n. q.pids n ∙ p.pids n;
  clones = λ n. q.clones n ∙ p.clones n;
}

pub set_process-IsQuiet :
    (n : ℕ) (p : Process) (w : World)
    → p.pid ≡ (w.process n).pid
    → p.clone_of ≡ (w.process n).clone_of
    → IsQuiet w (set_process n p w)
set_process-IsQuiet n p w e c = record {
  table = refl;
  fresh = refl;
  pids = λ m. ground (arith, e);
  clones = λ m. ground (arith, c);
}

pub process_set_status-IsQuiet :
    (n : ℕ) (s : Status) (w : World) → IsQuiet w (process_set_status n s w)
unfolding process_set_status
process_set_status-IsQuiet n s w = elim (Bool-cases (same_status (w.process n).status s)) [
  | inl same ↦
      rw (same, process_set_status)
        (record { table = refl; fresh = refl; pids = λ m. refl; clones = λ m. refl })
  | inr other ↦
      rw (other, process_set_status)
        (record {
          table = refl;
          fresh = refl;
          pids = λ m. ground arith;
          clones = λ m. ground arith;
        })
]

pub process_exec_reset-IsQuiet : (n : ℕ) (w : World) → IsQuiet w (process_exec_reset n w)
unfolding process_exec_reset process_reinit process_stop_input
process_exec_reset-IsQuiet n w = record {
  table = refl;
  fresh = refl;
  pids = λ m. ground arith;
  clones = λ m. ground arith;
}

pub process_start_input-IsQuiet : (tag n : ℕ) (w : World) → IsQuiet w (process_start_input tag n w)
unfolding process_start_input
process_start_input-IsQuiet tag n w = elim (Bool-cases ((w.process n).input_tag == 0)) [
  | inr watched ↦ rw (watched, process_start_input) (IsQuiet-refl w)
  | inl unwatched ↦ elim (Option-cases (w.process n).input_channel) [
    | inl closed ↦ rw (unwatched, closed, process_start_input) (IsQuiet-refl w)
    | inr (fd, there) ↦
        simp (unwatched, there, process_start_input)
          (set_process-IsQuiet n (record (w.process n) { input_tag = tag; input_channel = some fd })
            w refl refl)
  ]
]

-- `u` has one process more than `w`, the last one, which the table does not name.
pub record HasNew (w u : World) : Type 0 where
  pub table : u.pid_table ≡ w.pid_table
  pub fresh : u.fresh ≡ w.fresh + 1
  pub pids : (n : ℕ) → n < w.fresh → (u.process n).pid ≡ (w.process n).pid
  pub clones : (n : ℕ) → n < w.fresh → (u.process n).clone_of ≡ (w.process n).clone_of
  pub older : (m : ℕ) → (u.process w.fresh).clone_of ≡ some m → m < w.fresh

find_over-open :
    (t : Option (Table ℕ)) (pid : ℕ)
    → lookup pid (elim t [ none ↦ [] | some t ↦ t ]) ≡ find_over t pid
unfolding find_over lookup
find_over-open none pid = refl
find_over-open (some t) pid = refl

pub find-add :
    (pid n : ℕ) (w : World)
    → mp_server_find_process pid (mp_server_add_process n w)
      ≡ (if (w.process n).pid == pid then some n else mp_server_find_process pid w)
unfolding mp_server_find_process mp_server_add_process find_over
find-add pid n w =
    lookup-insert (w.process n).pid pid n (open_pid_table w)
    ∙ ap (λ x. if (w.process n).pid == pid then some n else x) (find_over-open w.pid_table pid)

pub add-IsServed :
    (w u : World) → HasNew w u → IsServed w → IsServed (mp_server_add_process w.fresh u)
unfolding mp_server_add_process
add-IsServed w u g s = record {
  found = λ pid n e. elim (Bool-cases ((u.process w.fresh).pid == pid)) [
    | inl same ↦
        let new : mp_server_find_process pid (mp_server_add_process w.fresh u) ≡ some w.fresh =
          find-add pid w.fresh u ∙ rw same refl in
        let here : w.fresh ≡ n = cc (new, e) in
        (
          subst (λ k. k < u.fresh) here (omega (arith, g.fresh)),
          ap (λ k. (u.process k).pid) (sym here) ∙ ==→eq _ _ same,
        )
    | inr other ↦
        let old : mp_server_find_process pid (mp_server_add_process w.fresh u)
            ≡ mp_server_find_process pid u =
          find-add pid w.fresh u ∙ rw other refl in
        let (lt, named) = s.found pid n (sym (find-table pid w u g.table) ∙ sym old ∙ e) in
        (omega (arith, lt, g.fresh), g.pids n lt ∙ named)
  ];
  older = λ n m lt e. elim (Bool-cases (ltb n w.fresh)) [
    | inl before ↦ let lt' = ltb→lt _ _ before in s.older n m lt' (sym (g.clones n lt') ∙ e)
    | inr after ↦
        let here : w.fresh ≡ n = omega (arith, ltb→le _ _ after, lt, g.fresh) in
        subst (λ k. m < k) here (g.older m (ap (λ k. (u.process k).clone_of) here ∙ e))
  ];
}

-- The new process is found under its pid.
pub add-found :
    (n : ℕ) (u : World)
    → mp_server_find_process (u.process n).pid (mp_server_add_process n u) ≡ some n
add-found n u = find-add (u.process n).pid n u ∙ rw (eq→== (u.process n).pid _ refl) refl
