-- ===== src/World/Replies.antt =====
-- src/server.c: the answers to a connection.
use memprof.World.Begun.{Begun, replies, Unknown}
use memprof.Common.{
  if◌then◌else◌, arith, ◌++◌, ◌∷◌, [], some, false, true, Bool, inr, ◌⊎◌, ◌∙◌, ap, refl, ◌≡◌, ℕ,
}
use memprof.Process.{mi_new, Operation, mi_fork}
use memprof.World.{emit, World, close_fd, write_byte, set_process, Event}
use memprof.World.Accept.{IsAccepted}
use memprof.World.Served.{
  find-table, set_process-IsQuiet, IsQuiet, process_start_input-IsQuiet, IsServed, IsQuiet-trans,
  IsQuiet-IsServed,
}
use memprof.World.Server.{answer, mp_server_find_process, Connection}
use memprof.World.Life.{process_start_input}

-- Byte 1 is written, and the descriptor closed if that fails; nothing else was answered. The process is

-- running and found under its pid, the descriptor is its channel, and `tag` is the watch that reads it.
abbrev pub Served : ℕ → ℕ → Bool → Connection → World → World → Type 0
Served tag fd wrote c w u =
    (n : ℕ) × IsAccepted c u n
    × ((u.process n).input_channel ≡ some fd)
    × ((u.process n).input_tag ≡ tag)
    × (replies u.events
        ≡ (if wrote then [] else close_fd fd ∷ []) ++ write_byte fd 1 ∷ replies w.events)

abbrev pub Refused : ℕ → World → World → Type 0
Refused fd w u = u ≡ emit (close_fd fd) (emit (write_byte fd 0) w)

-- The connections that are refused: neither pid is known, or a fork of a process that does not follow
-- its forks.
abbrev pub Ignored : Connection → World → Type 0
Ignored c w =
    (parent : ℕ) × (mp_server_find_process c.pid w ≡ some parent)
    × ((w.process parent).follow_fork ≡ false)

abbrev pub Refusal : Operation → Connection → World → Type 0
Refusal mi_fork c w = Ignored c w ⊎ Unknown c w
Refusal mi_new c w = Unknown c w
Refusal _ c w = ⊥

start_kept :
    (tag n : ℕ) (w : World)
    → (((process_start_input tag n w).process n).status ≡ (w.process n).status)
      × (((process_start_input tag n w).process n).input_channel ≡ (w.process n).input_channel)
      × ((process_start_input tag n w).events ≡ w.events)
unfolding process_start_input
start_kept tag n w = (ground arith, ground arith, ground arith)

start_watch :
    (tag n fd : ℕ) (w : World)
    → (w.process n).input_tag ≡ 0
    → (w.process n).input_channel ≡ some fd
    → ((process_start_input tag n w).process n).input_tag ≡ tag
unfolding process_start_input
start_watch tag n fd w unwatched here = ground (arith, unwatched, here)

emit-IsAccepted :
    (e : Event) (c : Connection) (w : World) (n : ℕ) → IsAccepted c w n → IsAccepted c (emit e w) n
emit-IsAccepted e c w n a =
    let q : IsQuiet w (emit e w) = record {
      table = refl;
      fresh = refl;
      pids = λ m. refl;
      clones = λ m. refl;
    } in
    record {
      served = IsQuiet-IsServed w _ q a.served;
      known = find-table c.new_pid w _ q.table ∙ a.known;
      running_now = a.running_now;
    }

-- The end of `control_func`, after byte 1 was written in `v`.
sent-Served :
    (tag fd : ℕ) (wrote : Bool) (c : Connection) (w v : World) (n : ℕ)
    → IsAccepted c v n
    → (v.process n).input_channel ≡ some fd
    → (v.process n).input_tag ≡ tag
    → replies v.events ≡ write_byte fd 1 ∷ replies w.events
    → Served tag fd wrote c w (if wrote then v else emit (close_fd fd) v)
sent-Served tag fd true c w v n a channel watch sent = (n, a, channel, watch, sent)
sent-Served tag fd false c w v n a channel watch sent =
    (n, emit-IsAccepted (close_fd fd) c v n a, channel, watch, ap (λ es. close_fd fd ∷ es) sent)

pub answer-Served :
    (tag fd : ℕ) (wrote : Bool) (c : Connection) (w : World) (r : World × ℕ)
    → IsAccepted c r.0 r.1
    → Begun w r
    → Served tag fd wrote c w (answer tag fd wrote (some r) w)
unfolding answer
answer-Served tag fd wrote c w (u, n) a b =
    let attached = set_process n (record (u.process n) { input_channel = some fd }) u in
    let begun = process_start_input tag n attached in
    let kept = start_kept tag n attached in
    let q : IsQuiet u begun =
      IsQuiet-trans (set_process-IsQuiet n _ u refl refl)
        (process_start_input-IsQuiet tag n attached) in
    let ready : IsAccepted c begun n = record {
      served = IsQuiet-IsServed u _ q a.served;
      known = find-table c.new_pid u _ q.table ∙ a.known;
      running_now = ground (arith, kept.0, a.running_now);
    } in
    let channel : (begun.process n).input_channel ≡ some fd = ground (arith, kept.1) in
    let watch : (begun.process n).input_tag ≡ tag =
      start_watch tag n fd attached (ground (arith, b.1)) (ground arith) in
    let before : replies begun.events ≡ replies w.events = ap replies kept.2 ∙ b.0 in
    sent-Served tag fd wrote c w (emit (write_byte fd 1) begun) n
      (emit-IsAccepted (write_byte fd 1) c begun n ready) channel watch
      (ap (λ es. write_byte fd 1 ∷ es) before)

abbrev pub Answered : ℕ → ℕ → Bool → Type 0 → Connection → World → World → Type 0
Answered tag fd wrote R c w u =
    IsServed u × ((¬ R × Served tag fd wrote c w u) ⊎ (R × Refused fd w u))

pub refused-Answered :
    (tag fd : ℕ) (wrote : Bool) (R : Type 0) (c : Connection) (w : World)
    → IsServed w
    → R
    → Answered tag fd wrote R c w (emit (close_fd fd) (emit (write_byte fd 0) w))
refused-Answered tag fd wrote R c w s r = (
  IsQuiet-IsServed w _ (record { table = refl; fresh = refl; pids = λ n. refl; clones = λ n. refl })
      s,
  inr (r, refl),
)
