-- ===== src/Events.antt =====
-- ar724/event_types.py, and `emit_event` and `record_eval_result` of ar724/observability.py
pub mod Log
use ztrade_ares_7x.Base.{
  ℕ, String, Bool, Option, none, some, List, [], ◌∷◌, ◌++◌, str_eq, any, if◌then◌else◌,
}
use ztrade_ares_7x.Base.Result.{Result, ok, err, value_error}
use ztrade_ares_7x.Db.{Db, Event, EvalResult}

abbrev run_lifecycle : List String
run_lifecycle =
    "run_created" ∷ "run_started" ∷ "run_paused" ∷ "run_resumed" ∷ "run_completed" ∷ "run_halted"
    ∷ "run_failed" ∷ "run_cancelled" ∷ []

abbrev iteration : List String
iteration =
    "iter_queued" ∷ "iter_started" ∷ "iter_completed" ∷ "iter_blocked" ∷ "iter_discarded"
    ∷ "iter_vetoed" ∷ []

abbrev phase_job : List String
phase_job =
    "phase_queued" ∷ "phase_claimed" ∷ "phase_started" ∷ "phase_completed" ∷ "phase_failed"
    ∷ "phase_retry" ∷ "phase_orphaned" ∷ []

abbrev worker : List String
worker = "worker_spawned" ∷ "worker_heartbeat" ∷ "worker_exited" ∷ "worker_force_killed" ∷ []

abbrev promotion : List String
promotion =
    "promotion_prepared" ∷ "promotion_applying" ∷ "promotion_committed" ∷ "promotion_failed"
    ∷ "promotion_reconciled" ∷ []

abbrev budget : List String
budget = "budget_warning" ∷ "budget_exceeded" ∷ "cost_anomaly" ∷ "cost_override" ∷ []

abbrev quality : List String
quality =
    "oscillation_detected" ∷ "consecutive_discard" ∷ "consecutive_blocked"
    ∷ "circuit_breaker_tripped" ∷ []

abbrev safety : List String
safety = "safety_policy_loaded" ∷ "safety_violation_blocked" ∷ "mcp_allowlist_changed" ∷ []

abbrev eval : List String
eval = "eval_run_started" ∷ "eval_run_completed" ∷ []

abbrev trace : List String
trace = "run_state_transition" ∷ "trace" ∷ "metric" ∷ []

abbrev pub all_event_types : List String
all_event_types =
    run_lifecycle
    ++ (iteration
        ++ (phase_job
            ++ (worker ++ (promotion ++ (budget ++ (quality ++ (safety ++ (eval ++ trace))))))))

abbrev pub severity_levels : List String
severity_levels = "info" ∷ "warn" ∷ "error" ∷ "critical" ∷ []

unfoldable pub is_valid_event_type : String → Bool
is_valid_event_type event_type = any (str_eq event_type) all_event_types

unfoldable pub is_valid_severity : String → Bool
is_valid_severity severity = any (str_eq severity) severity_levels

-- the INSERT of `emit_event`
unfoldable pub insert_event : Db → Event → Db
insert_event db e = record db { events = db.events ++ e ∷ [] }

-- `assert_valid_event_type`, the test of the severity, then the INSERT
unfoldable pub emit_event : Db → Event → Result Db
emit_event db e =
    if is_valid_event_type e.event_type
    then if is_valid_severity e.severity then ok (insert_event db e) else err value_error
    else err value_error

abbrev pub results : List String
results = "pass" ∷ "fail" ∷ "inconclusive" ∷ []

unfoldable pub record_eval_result : Db → EvalResult → Result Db
record_eval_result db r =
    if any (str_eq r.result) results
    then ok (record db { eval_results = db.eval_results ++ r ∷ [] })
    else err value_error

-- An event about a run, at severity `severity`.
abbrev pub run_event : String → String → ℕ → ℕ → Event
run_event event_type severity run_id now = record {
  event_type = event_type;
  severity = severity;
  run_id = some run_id;
  iteration_id = none;
  phase_job_id = none;
  created_at = now;
}

-- An event about no run.
abbrev pub global_event : String → String → ℕ → Event
global_event event_type severity now = record {
  event_type = event_type;
  severity = severity;
  run_id = none;
  iteration_id = none;
  phase_job_id = none;
  created_at = now;
}

abbrev pub iter_event : String → String → ℕ → ℕ → ℕ → Event
iter_event event_type severity run_id iteration_id now =
    record (run_event event_type severity run_id now) { iteration_id = some iteration_id }

abbrev pub job_event : String → String → ℕ → Option ℕ → ℕ → ℕ → Event
job_event event_type severity run_id iteration_id job_id now =
    record (run_event event_type severity run_id now) {
      iteration_id = iteration_id;
      phase_job_id = some job_id;
    }
