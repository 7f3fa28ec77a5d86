-- ===== src/Iterations.antt =====
-- `create_iteration` and `enqueue_phase_jobs` of ar724/conductor.py.
pub mod Enqueue
pub mod Logged
use ztrade_ares_7x.Base.{length, ℕ, suc, String, none, some, List, [], ◌∷◌, ◌++◌}
use ztrade_ares_7x.Db.{IterStatus, PhaseStatus, PhaseJob, Db}
use ztrade_ares_7x.Events.{insert_event, iter_event, job_event}

unfoldable pub create_iteration : Db → (iter_id trace_id run_id index : ℕ) → String → ℕ → Db
unfolding insert_event
create_iteration db iter_id trace_id run_id index parent_best_hash now =
    insert_event
      (record db {
        iterations =
            db.iterations
            ++ record {
              id = iter_id;
              run_id = run_id;
              index = index;
              status = IterStatus.queued;
              parent_best_hash = parent_best_hash;
              selected_candidate_hash = none;
              started_at = now;
              trace_id = trace_id;
            }
              ∷ [];
      })
      (iter_event "iter_queued" "info" run_id iter_id now)

abbrev pub queued_job : ℕ → ℕ → ℕ → String × String × String → PhaseJob
queued_job job_id run_id iteration_id (phase, role, slot) = record {
  id = job_id;
  run_id = run_id;
  iteration_id = iteration_id;
  phase = phase;
  role = role;
  status = PhaseStatus.queued;
  slot_name = slot;
  claimed_by = none;
  attempt = 0;
  lease_expires_at = none;
  last_heartbeat_at = none;
  error_class = "";
  error_message = "";
}

-- the phases of an iteration, with their roles and the names of their slots
abbrev pub phases : List (String × String × String)
phases =
    ("proposer", "factor_combiner", "slot_10")
    ∷ ("builder", "backtester", "slot_20")
    ∷ ("validator", "factor_validator", "slot_30")
    ∷ ("evaluator", "evaluator_runner", "slot_40")
    ∷ ("reviewer", "backtest_reviewer", "slot_50")
    ∷ []

-- The loop over the phases: `job_id k` is the uuid of the phase at place `k`.
enqueue : Db → (ℕ → ℕ) → ℕ → List (String × String × String) → (run_id iteration_id now : ℕ) → Db
unfolding insert_event
enqueue db job_id k [] run_id iteration_id now = db
enqueue db job_id k (p ∷ ps) run_id iteration_id now =
    enqueue
      (insert_event
        (record db {
          phase_jobs = db.phase_jobs ++ queued_job (job_id k) run_id iteration_id p ∷ [];
        })
        (job_event "phase_queued" "info" run_id (some iteration_id) (job_id k) now))
      job_id (suc k) ps run_id iteration_id now

unfoldable pub enqueue_phase_jobs : Db → (ℕ → ℕ) → (run_id iteration_id now : ℕ) → Db × ℕ
unfolding enqueue
enqueue_phase_jobs db job_id run_id iteration_id now =
    (enqueue db job_id 0 phases run_id iteration_id now, length phases)
