-- ===== src/Conductor/Tick.antt =====
-- `tick` of ar724/conductor.py as a whole.
use ztrade_ares_7x.Base.{
  Bool-cases, ℕ, ◌≡◌, refl, ◌∙◌, ap, inl, inr, Bool, true, false, Option, none, some, List, arith,
}
use ztrade_ares_7x.Base.Result.{Result, name_error, ok, err}
use ztrade_ares_7x.Db.{PhaseJob, Db}
use ztrade_ares_7x.Events.{insert_event}
use ztrade_ares_7x.Locks.{acquire_controller_lock, heartbeat_controller_lock}
use ztrade_ares_7x.Gates.{latest_evaluation, find_run}
use ztrade_ares_7x.Roles.{validate_roles, RoleFile, Loaded}
use ztrade_ares_7x.Jobs.{claim_next_phase_job, lease_timeout_seconds, reap_stale_phase_jobs}
use ztrade_ares_7x.Jobs.Frame.{claim-promotions, reap-promotions, IsIdle, reap-idle, claim-idle}
use ztrade_ares_7x.Conductor.Promote.{try_promote-promotions, try_promote-name_error}
use ztrade_ares_7x.Conductor.{
  ready_to_promote, try_promote_latest_iter, nothing_done, active, returning, started, work, owned,
  tick, TickResult, if_active,
}

-- A tick that does not get the controller lock does nothing at all.
pub tick-not_owner :
    (db : Db) (roles_dir : Option (List RoleFile)) (run_id worker now : ℕ)
    → (acquire_controller_lock db run_id now).0 ≡ false
    → tick db roles_dir run_id worker now ≡ (db, ok nothing_done)
unfolding tick acquire_controller_lock
tick-not_owner db roles_dir run_id worker now h = ground arith

-- A tick for a run that does not exist or is not running writes to the controller lock only.
pub tick-inactive :
    (db : Db) (roles_dir : Option (List RoleFile)) (run_id worker now : ℕ)
    → active (find_run db run_id) ≡ false
    → tick db roles_dir run_id worker now ≡ (
      record db { controller_lock = (tick db roles_dir run_id worker now).0.controller_lock },
      ok nothing_done,
    )
unfolding tick acquire_controller_lock heartbeat_controller_lock find_run
tick-inactive db roles_dir run_id worker now h = ground arith

pub returning-db : (r : TickResult) (x : Db × Result (Unit {0})) → (returning r x).0 ≡ x.0
returning-db r (db, ok _) = refl
returning-db r (db, err e) = refl

started-promotions :
    (run_id now : ℕ) (x : Db × Option PhaseJob)
    → (started run_id now x).0.promotions ≡ x.0.promotions
unfolding insert_event
started-promotions run_id now (db, none) = refl
started-promotions run_id now (db, some job) = refl

work-promotions :
    (db : Db) (roles_dir : Option (List RoleFile)) (run_id worker now : ℕ)
    → (work db roles_dir run_id worker now).0.promotions ≡ db.promotions
unfolding work
work-promotions db roles_dir run_id worker now =
    let r = reap_stale_phase_jobs db run_id lease_timeout_seconds now in
    let claimed = claim_next_phase_job (r.db) run_id none worker now in
    let (after, scheduled) = started run_id now claimed in
    ap (λ (d : Db). d.promotions)
      (returning-db _ (try_promote_latest_iter after roles_dir run_id now))
    ∙ try_promote-promotions after roles_dir run_id now
    ∙ started-promotions run_id now claimed
    ∙ claim-promotions (r.db) run_id none worker now
    ∙ reap-promotions db run_id lease_timeout_seconds now

-- No tick ever promotes: whatever the database, the role files and the moment, a tick leaves the
-- table of promotions as it was.
pub tick-promotions :
    (db : Db) (roles_dir : Option (List RoleFile)) (run_id worker now : ℕ)
    → (tick db roles_dir run_id worker now).0.promotions ≡ db.promotions
unfolding tick acquire_controller_lock heartbeat_controller_lock
tick-promotions db roles_dir run_id worker now =
    through (acquire_controller_lock db run_id now) refl
  where
    through :
        (x : Bool × Db)
        → x.1.promotions ≡ db.promotions
        → (owned x roles_dir run_id worker now).0.promotions ≡ db.promotions
    through (false, d) e = e
    through (true, d) e =
        let beaten = heartbeat_controller_lock d run_id now in
        elim (Bool-cases (active (find_run beaten run_id))) [
          | inl a ↦ rw a (work-promotions beaten roles_dir run_id worker now ∙ e)
          | inr a ↦ rw a e
        ]

work-idle :
    (db : Db) (roles_dir : Option (List RoleFile)) (run_id worker now : ℕ)
    → IsIdle db run_id
    → work db roles_dir run_id worker now
      ≡ returning nothing_done (try_promote_latest_iter db roles_dir run_id now)
unfolding work
work-idle db roles_dir run_id worker now idle =
    rw (reap-idle db run_id lease_timeout_seconds now idle, claim-idle db run_id worker now idle)

pub owned-true :
    (x : Bool × Db) (roles_dir : Option (List RoleFile)) (run_id worker now : ℕ)
    → x.0 ≡ true
    → owned x roles_dir run_id worker now ≡ (
        let beaten = heartbeat_controller_lock x.1 run_id now in
        if_active (active (find_run beaten run_id)) beaten roles_dir run_id worker now)
owned-true (true, db) roles_dir run_id worker now e = refl
owned-true (false, db) roles_dir run_id worker now e = cc

active-name_error :
    (db : Db) (fs : List RoleFile) (roles : List Loaded) (run_id worker now : ℕ)
    → active (find_run db run_id) ≡ true
    → IsIdle db run_id
    → ready_to_promote db run_id ≡ true
    → validate_roles (some fs) ≡ ok roles
    → db.promotion_lock ≡ none
    → (if_active (active (find_run db run_id)) db (some fs) run_id worker now).1 ≡ err name_error
active-name_error db fs roles run_id worker now run idle ready valid free = rw (
  run,
  work-idle db (some fs) run_id worker now idle,
  try_promote-name_error db fs roles run_id now ready valid free,
)

-- The tick of the owner of a running run raises NameError as soon as its latest iteration is ready
-- to be promoted: the run has no open job left, the role files are valid, and the promotion lock
-- is free.
tick-name_error :
    (db : Db) (fs : List RoleFile) (roles : List Loaded) (run_id worker now : ℕ)
    → (acquire_controller_lock db run_id now).0 ≡ true
    → active (find_run db run_id) ≡ true
    → IsIdle db run_id
    → ready_to_promote db run_id ≡ true
    → validate_roles (some fs) ≡ ok roles
    → db.promotion_lock ≡ none
    → (tick db (some fs) run_id worker now).1 ≡ err name_error
unfolding tick acquire_controller_lock heartbeat_controller_lock find_run ready_to_promote
    latest_evaluation
tick-name_error db fs roles run_id worker now own run idle ready valid free =
    ap (λ (x : Db × Result TickResult). x.1)
      (owned-true (acquire_controller_lock db run_id now) (some fs) run_id worker now own)
    ∙ active-name_error
        (heartbeat_controller_lock (acquire_controller_lock db run_id now).1 run_id now) fs roles
        run_id worker now run idle ready valid free
