-- ===== src/Conductor/Examples.antt =====
-- A new run, and the theorems on the process of `conductor` at it.
use ztrade_ares_7x.Runs.Start.{up, Ids}
use ztrade_ares_7x.Conductor.Drain.{Drained, run_rounds-Drained}
use ztrade_ares_7x.Conductor.Signals.{sighup, sigterm, Round, Process}
use ztrade_ares_7x.Base.{ℕ, refl, true, [], ◌∷◌, none, ◌+◌}
use ztrade_ares_7x.Db.{Db}
use ztrade_ares_7x.Locks.Examples.{empty}
use ztrade_ares_7x.Gates.{find_run}

abbrev five_ids : Ids
five_ids = record { run_id = 1; iter_id = 2; trace_id = 3; job_id = λ k. 10 + k }

-- a new run with its five queued jobs
abbrev new_run : Db
new_run = (up empty five_ids "goal" 100).0

-- a process that has just begun, and three rounds, of which one comes after the lease has expired
abbrev begins : Process ℕ
begins = record { db = new_run; running = true; policy = none; raised = none }

abbrev round_at : ℕ → Round
round_at now = record { roles_dir = none; worker = 7; now = now; signals = [] }

run_rounds-Drained_example : Drained 1 (round_at 105 ∷ (round_at 110 ∷ (round_at 900 ∷ []))) begins
unfolding up find_run
run_rounds-Drained_example =
    run_rounds-Drained 1 (round_at 105 ∷ (round_at 110 ∷ (round_at 900 ∷ []))) begins tt refl
      (refl, (refl, (refl, (refl, (refl, tt)))))

-- The process ends with the round in which it gets a SIGTERM.
abbrev last_round : Round
last_round = record (round_at 110) { signals = sighup ∷ (sigterm ∷ []) }
