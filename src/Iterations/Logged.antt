-- ===== src/Iterations/Logged.antt =====
-- What `enqueue_phase_jobs` of ar724/conductor.py writes to the log.
use ztrade_ares_7x.Base.{ℕ, suc, String, ◌≡◌, refl, some, List, [], ◌∷◌, ◌++◌}
use ztrade_ares_7x.Db.{Db}
use ztrade_ares_7x.Events.{is_valid_event_type, is_valid_severity, insert_event, job_event}
use ztrade_ares_7x.Events.Log.{accepted, Extends-refl, Extends-one, Extends-trans, Extends}
use ztrade_ares_7x.Iterations.{queued_job, phases, enqueue_phase_jobs, enqueue}

enqueue-logged :
    (db : Db) (job_id : ℕ → ℕ) (k : ℕ) (ps : List (String × String × String))
    (run_id iteration_id now : ℕ)
    → let after = enqueue db job_id k ps run_id iteration_id now in
      (after.promotions ≡ db.promotions) × Extends db.events after.events
unfolding enqueue insert_event is_valid_event_type is_valid_severity
enqueue-logged db job_id k [] run_id iteration_id now = (refl, Extends-refl db.events)
enqueue-logged db job_id k (p ∷ ps) run_id iteration_id now =
    let e = job_event "phase_queued" "info" run_id (some iteration_id) (job_id k) now in
    let written = record db {
      phase_jobs = db.phase_jobs ++ queued_job (job_id k) run_id iteration_id p ∷ [];
      events = db.events ++ e ∷ [];
    } in
    let (same, log) = enqueue-logged written job_id (suc k) ps run_id iteration_id now in
    (
      same,
      Extends-trans db.events written.events _ (Extends-one db.events e (accepted e refl refl)) log,
    )

pub enqueue_phase_jobs-logged :
    (db : Db) (job_id : ℕ → ℕ) (run_id iteration_id now : ℕ)
    → let after = (enqueue_phase_jobs db job_id run_id iteration_id now).0 in
      (after.promotions ≡ db.promotions) × Extends db.events after.events
unfolding enqueue_phase_jobs
enqueue_phase_jobs-logged db job_id run_id iteration_id now =
    enqueue-logged db job_id 0 phases run_id iteration_id now
