-- ===== src/World/Total.antt =====
-- src/process.c: what reading a message of a thread does.
use memprof.Common.{ℕ}
use memprof.Process.{State}
use memprof.World.{World, set_process}
use memprof.World.Server.{clone_root}
use memprof.Common.Outcome.{Outcome}

abbrev root_of : World → ℕ → ℕ
root_of w n = clone_root w.fresh w n

-- The world after the process `n` and what it shares have changed.
abbrev pub with_state : World → ℕ → State → World
with_state w n t = record (set_process n t.process w) { blocks = t.blocks; missing = t.missing }
