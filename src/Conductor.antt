-- ===== src/Conductor.antt =====
-- `tick` and `_try_promote_latest_iter` of ar724/conductor.py.
pub mod Promote
pub mod Tick
pub mod Logged
pub mod Progress
pub mod Kept
pub mod Drain
pub mod Signals
pub mod Examples
use ztrade_ares_7x.Base.{
  ◌==◌, length, all, select, least, greatest, ℕ, String, Bool, true, false, not, ◌&&◌, Option, none,
  some, List, [], ◌∷◌, str_eq,
}
use ztrade_ares_7x.Base.Result.{Result, name_error, ok, err}
use ztrade_ares_7x.Db.{RunStatus, Run, Iteration, PhaseStatus, PhaseJob, Evaluation, Db}
use ztrade_ares_7x.Events.{insert_event, job_event}
use ztrade_ares_7x.Locks.{
  acquire_controller_lock, heartbeat_controller_lock, claim_promotion_lock, release_promotion_lock,
}
use ztrade_ares_7x.Jobs.{claim_next_phase_job, lease_timeout_seconds, reap_stale_phase_jobs}
use ztrade_ares_7x.Gates.{latest_evaluation, find_run}
use ztrade_ares_7x.Roles.{ids, validate_roles, RoleFile, Loaded}

abbrev pub latest_iteration : Db → ℕ → Option Iteration
latest_iteration db run_id =
    greatest (λ i. i.index) (select (λ i. i.run_id == run_id) db.iterations)

abbrev pub is_finished : PhaseStatus → Bool
is_finished PhaseStatus.queued = false
is_finished PhaseStatus.running = false
is_finished _ = true

abbrev pub is_completed : PhaseStatus → Bool
is_completed PhaseStatus.completed = true
is_completed _ = false

abbrev pub jobs_of : Db → ℕ → List PhaseJob
jobs_of db iteration_id = select (λ j. j.iteration_id == iteration_id) db.phase_jobs

-- `next((j for j in jobs if …), None)`, where the SELECT orders the jobs by id
abbrev pub reviewer_of : List PhaseJob → Option PhaseJob
reviewer_of jobs = least (λ j. j.id) (select (λ j. str_eq j.role "backtest_reviewer") jobs)

abbrev pub or_empty : Option String → String
or_empty none = ""
or_empty (some h) = h

-- a reviewer whose job is completed
abbrev approved : Option PhaseJob → Bool
approved none = false
approved (some r) = is_completed r.status

abbrev kept : Option Evaluation → Bool
kept none = false
kept (some e) = str_eq e.decision "KEEP"

abbrev some_job : List PhaseJob → Bool
some_job [] = false
some_job (j ∷ js) = true

-- The four early returns: there are jobs, none is in flight, the reviewer is done, and the
-- evaluator kept the candidate.
abbrev iteration_ready : Db → Option Iteration → Bool
iteration_ready db none = false
iteration_ready db (some i) =
    some_job (jobs_of db i.id)
    && (all (λ j. is_finished j.status) (jobs_of db i.id)
        && (approved (reviewer_of (jobs_of db i.id))
            && kept (latest_evaluation db (or_empty i.selected_candidate_hash))))

unfoldable pub ready_to_promote : Db → ℕ → Bool
ready_to_promote db run_id = iteration_ready db (latest_iteration db run_id)

-- The body of the `try`. The arguments of `run_all_gates` are evaluated in turn, and
-- `run["consecutive_discards"]` names no variable of the function or of the module: it raises
-- NameError, and nothing behind it is reached.
abbrev gate_arguments : Result (List Loaded) → Result (Unit {0})
gate_arguments (err e) = err e
gate_arguments (ok roles) = err name_error

-- `finally` releases the lock.
abbrev under_lock : Option (List RoleFile) → Bool × Db → Db × Result (Unit {0})
under_lock roles_dir (false, db) = (db, ok tt)
under_lock roles_dir (true, db) =
    (release_promotion_lock db, gate_arguments (validate_roles roles_dir))

abbrev try_if : Bool → Option (List RoleFile) → Db → (run_id now : ℕ) → Db × Result (Unit {0})
try_if false roles_dir db run_id now = (db, ok tt)
try_if true roles_dir db run_id now = under_lock roles_dir (claim_promotion_lock db run_id now)

unfoldable pub try_promote_latest_iter :
    Db → Option (List RoleFile) → (run_id now : ℕ) → Db × Result (Unit {0})
unfolding claim_promotion_lock release_promotion_lock
try_promote_latest_iter db roles_dir run_id now =
    try_if (ready_to_promote db run_id) roles_dir db run_id now

pub record TickResult : Type 0 where
  pub scheduled : ℕ
  pub completed : ℕ
  pub failed : ℕ
  pub promoted : ℕ
  pub reaped : ℕ
  pub events : ℕ

abbrev pub nothing_done : TickResult
nothing_done = record {
  scheduled = 0;
  completed = 0;
  failed = 0;
  promoted = 0;
  reaped = 0;
  events = 0;
}

abbrev pub is_active : RunStatus → Bool
is_active RunStatus.running = true
is_active _ = false

abbrev pub active : Option Run → Bool
active none = false
active (some run) = is_active run.status

abbrev pub returning : TickResult → Db × Result (Unit {0}) → Db × Result TickResult
returning r (db, ok _) = (db, ok r)
returning r (db, err e) = (db, err e)

-- step 5: `phase_started` for a claimed job
abbrev pub started : ℕ → ℕ → Db × Option PhaseJob → Db × ℕ
started run_id now (db, none) = (db, 0)
started run_id now (db, some job) = (
  insert_event db (job_event "phase_started" "info" run_id (some job.iteration_id) job.id now),
  1,
)

-- Steps 4 to 7, for a run that is running. The budget check of step 3 has no effect: the function
-- that is handed its result does not read it.
unfoldable pub work : Db → Option (List RoleFile) → (run_id worker now : ℕ) → Db × Result TickResult
unfolding insert_event
work db roles_dir run_id worker now =
    let r = reap_stale_phase_jobs db run_id lease_timeout_seconds now in
    let (after, scheduled) =
      started run_id now (claim_next_phase_job (r.db) run_id none worker now) in
    returning (record nothing_done { scheduled = scheduled; reaped = length r.ids })
      (try_promote_latest_iter after roles_dir run_id now)

abbrev pub if_active :
    Bool → Db → Option (List RoleFile) → (run_id worker now : ℕ) → Db × Result TickResult
if_active false db roles_dir run_id worker now = (db, ok nothing_done)
if_active true db roles_dir run_id worker now = work db roles_dir run_id worker now

-- steps 1 and 2
abbrev pub owned :
    Bool × Db → Option (List RoleFile) → (run_id worker now : ℕ) → Db × Result TickResult
owned (false, db) roles_dir run_id worker now = (db, ok nothing_done)
owned (true, db) roles_dir run_id worker now =
    let beaten = heartbeat_controller_lock db run_id now in
    if_active (active (find_run beaten run_id)) beaten roles_dir run_id worker now

unfoldable pub tick : Db → Option (List RoleFile) → (run_id worker now : ℕ) → Db × Result TickResult
unfolding work
tick db roles_dir run_id worker now =
    owned (acquire_controller_lock db run_id now) roles_dir run_id worker now
