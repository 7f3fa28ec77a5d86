-- ===== src/Conductor/Kept.antt =====
-- What a tick of ar724/conductor.py leaves as it is.
use ztrade_ares_7x.Base.{ℕ, ◌≡◌, refl, ◌∙◌, ap, Option, none, some, List, arith}
use ztrade_ares_7x.Db.{PhaseJob, Event, Db}
use ztrade_ares_7x.Events.{insert_event}
use ztrade_ares_7x.Roles.{RoleFile}
use ztrade_ares_7x.Jobs.{claim_next_phase_job, lease_timeout_seconds, reap_stale_phase_jobs}
use ztrade_ares_7x.Jobs.Frame.{claim-view, reap-view}
use ztrade_ares_7x.Conductor.{try_promote_latest_iter, started, work}
use ztrade_ares_7x.Conductor.Tick.{returning-db}

-- What depends neither on the jobs nor on the events, and what the promotion step leaves as it is.
module _ {X : Type 0} (view : Db → X)
    (blind : (db : Db) (jobs : List PhaseJob) (events : List Event)
      → view (record db { phase_jobs = jobs; events = events }) ≡ view db)
    (kept : (db : Db) (roles_dir : Option (List RoleFile)) (run_id now : ℕ)
      → view (try_promote_latest_iter db roles_dir run_id now).0 ≡ view db) where
  started-view :
      (run_id now : ℕ) (x : Db × Option PhaseJob) → view (started run_id now x).0 ≡ view x.0
  unfolding insert_event
  started-view run_id now (db, none) = refl
  started-view run_id now (db, some job) = blind db db.phase_jobs _

  pub work-view :
      (db : Db) (roles_dir : Option (List RoleFile)) (run_id worker now : ℕ)
      → view (work db roles_dir run_id worker now).0 ≡ view db
  unfolding work
  work-view db roles_dir run_id worker now =
      let r = reap_stale_phase_jobs db run_id lease_timeout_seconds now in
      let claimed = claim_next_phase_job (r.db) run_id none worker now in
      let (after, scheduled) = started run_id now claimed in
      ap view (returning-db _ (try_promote_latest_iter after roles_dir run_id now))
      ∙ kept after roles_dir run_id now
      ∙ started-view run_id now claimed
      ∙ claim-view view blind (r.db) run_id none worker now
      ∙ reap-view view blind db run_id lease_timeout_seconds now

pub try_promote-lock :
    (db : Db) (roles_dir : Option (List RoleFile)) (run_id now : ℕ)
    → (try_promote_latest_iter db roles_dir run_id now).0.controller_lock ≡ db.controller_lock
unfolding try_promote_latest_iter
try_promote-lock db roles_dir run_id now = ground arith

pub try_promote-runs :
    (db : Db) (roles_dir : Option (List RoleFile)) (run_id now : ℕ)
    → (try_promote_latest_iter db roles_dir run_id now).0.runs ≡ db.runs
unfolding try_promote_latest_iter
try_promote-runs db roles_dir run_id now = ground arith
