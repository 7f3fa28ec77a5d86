-- ===== src/Conductor/Progress.antt =====
-- What one tick of ar724/conductor.py does to the number of queued jobs.
use ztrade_ares_7x.Base.{Unique, ℕ, ◌-◌, ◌≡◌, refl, ◌∙◌, ap, true, Option, none, some, List, arith}
use ztrade_ares_7x.Base.Result.{Result}
use ztrade_ares_7x.Db.{PhaseJob, Db}
use ztrade_ares_7x.Events.{insert_event}
use ztrade_ares_7x.Locks.{acquire_controller_lock, heartbeat_controller_lock}
use ztrade_ares_7x.Gates.{find_run}
use ztrade_ares_7x.Roles.{RoleFile}
use ztrade_ares_7x.Jobs.{claim_next_phase_job, lease_timeout_seconds, reap_stale_phase_jobs}
use ztrade_ares_7x.Jobs.Lifecycle.{perform-Evolves, Unique-Evolves, reap}
use ztrade_ares_7x.Jobs.Waiting.{waiting, reap-waiting, claim-waiting}
use ztrade_ares_7x.Conductor.{try_promote_latest_iter, active, started, work, tick, TickResult}
use ztrade_ares_7x.Conductor.Tick.{returning-db, owned-true}

started-phase_jobs :
    (run_id now : ℕ) (x : Db × Option PhaseJob)
    → (started run_id now x).0.phase_jobs ≡ x.0.phase_jobs
unfolding insert_event
started-phase_jobs run_id now (db, none) = refl
started-phase_jobs run_id now (db, some job) = refl

try_promote-phase_jobs :
    (db : Db) (roles_dir : Option (List RoleFile)) (run_id now : ℕ)
    → (try_promote_latest_iter db roles_dir run_id now).0.phase_jobs ≡ db.phase_jobs
unfolding try_promote_latest_iter
try_promote-phase_jobs db roles_dir run_id now = ground arith

pub work-phase_jobs :
    (db : Db) (roles_dir : Option (List RoleFile)) (run_id worker now : ℕ)
    → (work db roles_dir run_id worker now).0.phase_jobs
      ≡ (claim_next_phase_job
          ((reap_stale_phase_jobs db run_id lease_timeout_seconds now).db)
          run_id
          none
          worker
          now).0.phase_jobs
unfolding work
work-phase_jobs db roles_dir run_id worker now =
    let r = reap_stale_phase_jobs db run_id lease_timeout_seconds now in
    let claimed = claim_next_phase_job (r.db) run_id none worker now in
    let (after, scheduled) = started run_id now claimed in
    ap (λ (d : Db). d.phase_jobs)
      (returning-db _ (try_promote_latest_iter after roles_dir run_id now))
    ∙ try_promote-phase_jobs after roles_dir run_id now
    ∙ started-phase_jobs run_id now claimed

work-waiting :
    (db : Db) (roles_dir : Option (List RoleFile)) (run_id worker now : ℕ)
    → Unique (λ (j : PhaseJob). j.id) db.phase_jobs
    → waiting run_id (work db roles_dir run_id worker now).0.phase_jobs
      ≡ waiting run_id db.phase_jobs - 1
work-waiting db roles_dir run_id worker now u =
    let r = reap_stale_phase_jobs db run_id lease_timeout_seconds now in
    let u' =
      Unique-Evolves db.phase_jobs r.db.phase_jobs
        (perform-Evolves db (reap run_id lease_timeout_seconds now) u) u in
    ap (waiting run_id) (work-phase_jobs db roles_dir run_id worker now)
    ∙ claim-waiting (r.db) run_id worker now u'
    ∙ ap (λ n. n - 1) (reap-waiting db run_id run_id lease_timeout_seconds now u)

-- A tick of the controller that owns the lock, for a run that is running, starts one of the run's
-- queued jobs if there is one, also if the tick raises afterwards.
pub tick-waiting :
    (db : Db) (roles_dir : Option (List RoleFile)) (run_id worker now : ℕ)
    → (acquire_controller_lock db run_id now).0 ≡ true
    → active (find_run db run_id) ≡ true
    → Unique (λ (j : PhaseJob). j.id) db.phase_jobs
    → waiting run_id (tick db roles_dir run_id worker now).0.phase_jobs
      ≡ waiting run_id db.phase_jobs - 1
unfolding tick acquire_controller_lock heartbeat_controller_lock find_run
tick-waiting db roles_dir run_id worker now own run u =
    let beaten = heartbeat_controller_lock (acquire_controller_lock db run_id now).1 run_id now in
    ap (λ (x : Db × Result TickResult). waiting run_id x.0.phase_jobs)
      (owned-true (acquire_controller_lock db run_id now) roles_dir run_id worker now own)
    ∙ rw run (work-waiting beaten roles_dir run_id worker now u)
