-- ===== src/Runs/Examples.antt =====
-- The commands on runs, at a table with a running and a failed run.
use ztrade_ares_7x.Base.{find, ℕ, ◌+◌, ◌≡◌, ◌⊎◌, true, none, some, List, [], ◌∷◌}
use ztrade_ares_7x.Db.{RunStatus, Run, Db}
use ztrade_ares_7x.Locks.Examples.{empty}
use ztrade_ares_7x.Runs.{run_is_running, iter_next}
use ztrade_ares_7x.Runs.Status.{Command, pausing, resuming, halting}
use ztrade_ares_7x.Runs.Next.{iter_next_lem, IsNext}
use ztrade_ares_7x.Runs.Start.{Ids}

abbrev run : ℕ → RunStatus → Run
run id status = record {
  id = id;
  goal = "goal";
  status = status;
  created_at = 0;
  started_at = some 1;
  budget_cents = 5000;
  spent_cents = 0;
  stop_reason = "";
  config_hash = "";
  daily_budget_cents = 5000;
  consecutive_discards = 0;
  consecutive_blockeds = 0;
}

abbrev two_runs : Db
two_runs = record empty { runs = run 1 RunStatus.failed ∷ run 2 RunStatus.running ∷ [] }

abbrev typed : List Command
typed = pausing 10 ∷ resuming 20 ∷ halting "stop" true 30 ∷ resuming 40 ∷ []

iter_next_lem_example :
    (find run_is_running two_runs.runs ≡ none) × (iter_next two_runs 7 3 (λ k. k) 50 ≡ none)
    ⊎ ((r : Run) × (after : Db) × (find run_is_running two_runs.runs ≡ some r)
        × (iter_next two_runs 7 3 (λ k. k) 50 ≡ some after)
        × IsNext two_runs after r 7)
iter_next_lem_example = iter_next_lem two_runs 7 3 (λ k. k) 50

abbrev ids : ℕ → Ids
ids n = record { run_id = n; iter_id = n + 1; trace_id = n + 2; job_id = λ k. n + 3 + k }
