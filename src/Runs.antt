-- ===== src/Runs.antt =====
-- Runs: `create_run` and `start_run` of ar724/conductor.py, and the commands `pause`, `resume`,
-- `halt` and `iter next` of ar724/cli.py. Printing is left out, and so are the signal that `halt`
-- sends to the conductor and the circuit breaker's file, which nothing in the program reads.
pub mod Status
pub mod Next
pub mod Start
pub mod Watch
pub mod Examples
use ztrade_ares_7x.Base.{
  ◌==◌, select, update_where, find, count, ℕ, zero, suc, ◌+◌, max, String, Bool, true, false, not,
  Option, none, some, List, [], ◌∷◌, ◌++◌,
}
use ztrade_ares_7x.Db.{RunStatus, Run, Iteration, Event, Db}
use ztrade_ares_7x.Iterations.{create_iteration, enqueue_phase_jobs}
use ztrade_ares_7x.Events.{insert_event, run_event, global_event}

unfoldable pub create_run :
    Db
    → (run_id : ℕ) → (goal : String) → (budget_cents daily_budget_cents : ℕ)
    → (config_hash : String) → (now : ℕ) → Db
unfolding insert_event
create_run db run_id goal budget_cents daily_budget_cents config_hash now =
    insert_event
      (record db {
        runs =
            db.runs
            ++ record {
              id = run_id;
              goal = goal;
              status = RunStatus.created;
              created_at = now;
              started_at = none;
              budget_cents = budget_cents;
              spent_cents = 0;
              stop_reason = "";
              config_hash = config_hash;
              daily_budget_cents = daily_budget_cents;
              consecutive_discards = 0;
              consecutive_blockeds = 0;
            }
              ∷ [];
      })
      (run_event "run_created" "info" run_id now)

unfoldable pub start_run : Db → (run_id now : ℕ) → Db
unfolding insert_event
start_run db run_id now =
    insert_event
      (record db {
        runs =
            update_where (λ r. r.id == run_id)
              (λ r. record r { status = RunStatus.running; started_at = some now }) db.runs;
      })
      (run_event "run_started" "info" run_id now)

abbrev pub run_is_running : Run → Bool
run_is_running r = elim (r.status) [ RunStatus.running ↦ true | _ ↦ false ]

abbrev pub run_is_paused : Run → Bool
run_is_paused r = elim (r.status) [ RunStatus.paused ↦ true | _ ↦ false ]

abbrev pub with_status : RunStatus → Run → Run
with_status s r = record r { status = s }

-- an event only if the row count is not 0
abbrev pub log_change : Db → ℕ → Event → Db
log_change db zero e = db
log_change db (suc n) e = insert_event db e

unfoldable pub pause : Db → (now : ℕ) → Db
unfolding insert_event
pause db now =
    log_change
      (record db { runs = update_where run_is_running (with_status RunStatus.paused) db.runs })
      (count run_is_running db.runs) (global_event "run_paused" "info" now)

unfoldable pub resume : Db → (now : ℕ) → Db
unfolding insert_event
resume db now =
    log_change
      (record db { runs = update_where run_is_paused (with_status RunStatus.running) db.runs })
      (count run_is_paused db.runs) (global_event "run_resumed" "info" now)

-- without `--force` the command exits with status 2
unfoldable pub halt : Db → (reason : String) → (force : Bool) → (now : ℕ) → Option Db
unfolding insert_event
halt db reason false now = none
halt db reason true now = some (
    insert_event
      (record db {
        runs =
            update_where run_is_running
              (λ r. record r { status = RunStatus.failed; stop_reason = reason }) db.runs;
      })
      (global_event "run_halted" "critical" now))

-- `SELECT MAX("index")`, with `or 0`
abbrev pub max_index : List Iteration → ℕ
max_index [] = 0
max_index (i ∷ is) = max i.index (max_index is)

abbrev pub next_of : Db → Option Run → (iter_id trace_id : ℕ) → (ℕ → ℕ) → (now : ℕ) → Option Db
next_of db none iter_id trace_id job_id now = none
next_of db (some run) iter_id trace_id job_id now =
    let index = max_index (select (λ i. i.run_id == run.id) db.iterations) + 1 in
    some
      (enqueue_phase_jobs (create_iteration db iter_id trace_id run.id index "" now) job_id run.id
        iter_id now).0

-- `none` is the exit with status 1, when no run is running
unfoldable pub iter_next : Db → (iter_id trace_id : ℕ) → (ℕ → ℕ) → (now : ℕ) → Option Db
unfolding create_iteration enqueue_phase_jobs
iter_next db iter_id trace_id job_id now =
    next_of db (find run_is_running db.runs) iter_id trace_id job_id now
