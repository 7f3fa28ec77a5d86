-- ===== src/Conductor/Logged.antt =====
-- The events that `tick` of ar724/conductor.py writes.
use ztrade_ares_7x.Base.{
  Bool-cases, ℕ, ◌≡◌, refl, subst, inl, inr, Bool, true, false, Option, none, some, List, arith,
}
use ztrade_ares_7x.Base.Result.{Result, err, ok}
use ztrade_ares_7x.Db.{PhaseJob, Db}
use ztrade_ares_7x.Events.{is_valid_event_type, is_valid_severity, insert_event, job_event}
use ztrade_ares_7x.Events.Log.{accepted, Extends-refl, Extends-one, Extends-trans, Extends}
use ztrade_ares_7x.Locks.{acquire_controller_lock, heartbeat_controller_lock}
use ztrade_ares_7x.Jobs.{claim_next_phase_job, lease_timeout_seconds, reap_stale_phase_jobs}
use ztrade_ares_7x.Jobs.Logged.{claim-Extends, reap-Extends}
use ztrade_ares_7x.Gates.{find_run}
use ztrade_ares_7x.Roles.{RoleFile}
use ztrade_ares_7x.Conductor.{
  try_promote_latest_iter, active, returning, started, work, owned, tick, TickResult,
}

started-Extends :
    (run_id now : ℕ) (x : Db × Option PhaseJob) → Extends x.0.events (started run_id now x).0.events
unfolding insert_event is_valid_event_type is_valid_severity
started-Extends run_id now (db, none) = Extends-refl db.events
started-Extends run_id now (db, some job) =
    let e = job_event "phase_started" "info" run_id (some job.iteration_id) job.id now in
    Extends-one db.events e (accepted e refl refl)

try_promote-events :
    (db : Db) (roles_dir : Option (List RoleFile)) (run_id now : ℕ)
    → (try_promote_latest_iter db roles_dir run_id now).0.events ≡ db.events
unfolding try_promote_latest_iter
try_promote-events db roles_dir run_id now = ground arith

returning-events :
    (r : TickResult) (x : Db × Result (Unit {0})) → (returning r x).0.events ≡ x.0.events
returning-events r (db, ok _) = refl
returning-events r (db, err e) = refl

work-Extends :
    (db : Db) (roles_dir : Option (List RoleFile)) (run_id worker now : ℕ)
    → Extends db.events (work db roles_dir run_id worker now).0.events
unfolding work
work-Extends db roles_dir run_id worker now =
    let r = reap_stale_phase_jobs db run_id lease_timeout_seconds now in
    let claimed = claim_next_phase_job (r.db) run_id none worker now in
    let (after, scheduled) = started run_id now claimed in
    rw
      (
        returning-events _ (try_promote_latest_iter after roles_dir run_id now),
        try_promote-events after roles_dir run_id now,
      )
      (Extends-trans db.events r.db.events after.events
        (reap-Extends db run_id lease_timeout_seconds now)
        (Extends-trans r.db.events claimed.0.events after.events
          (claim-Extends (r.db) run_id none worker now) (started-Extends run_id now claimed)))

-- The table of events is a log: whatever a tick does, and also if it raises, it keeps the events
-- that were there and appends only events that `emit_event` takes.
pub tick-Extends :
    (db : Db) (roles_dir : Option (List RoleFile)) (run_id worker now : ℕ)
    → Extends db.events (tick db roles_dir run_id worker now).0.events
unfolding tick acquire_controller_lock heartbeat_controller_lock
tick-Extends db roles_dir run_id worker now = through (acquire_controller_lock db run_id now) refl
  where
    through :
        (x : Bool × Db)
        → x.1.events ≡ db.events
        → Extends db.events (owned x roles_dir run_id worker now).0.events
    through (false, d) e = rw e (Extends-refl db.events)
    through (true, d) e =
        let beaten = heartbeat_controller_lock d run_id now in
        elim (Bool-cases (active (find_run beaten run_id))) [
          | inl a ↦ rw a (
              subst (λ l. Extends l (work beaten roles_dir run_id worker now).0.events) e
                (work-Extends beaten roles_dir run_id worker now))
          | inr a ↦ rw (a, e) (Extends-refl db.events)
        ]
