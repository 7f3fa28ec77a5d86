-- ===== src/Jobs/Frame.antt =====
-- What `claim_next_phase_job` and `reap_stale_phase_jobs` of ar724/conductor.py leave alone.
use ztrade_ares_7x.Base.{
  ◌∙◌, ◌==◌, any, select, ℕ, zero, suc, ◌-◌, String, ◌≡◌, refl, false, ◌&&◌, Option, none, some,
  List, [], ◌∷◌, arith,
}
use ztrade_ares_7x.Base.Result.{Result, ok, err}
use ztrade_ares_7x.Db.{PhaseJob, Event, Db}
use ztrade_ares_7x.Events.{insert_event}
use ztrade_ares_7x.Jobs.{
  is_queued, cas_update, is_eligible, next_queued, claim_updates, settle_claim, claim_row,
  claim_found, claim_next_phase_job, is_stale, reap_one, reap_stale_phase_jobs, is_open, Reaped,
  reap_rows,
}

-- What does not depend on the jobs and the events stays the same.
module _ {X : Type 0} (view : Db → X)
    (blind : (db : Db) (jobs : List PhaseJob) (events : List Event)
      → view (record db { phase_jobs = jobs; events = events }) ≡ view db) where
  settle_claim-view :
      (db : Db) (row : PhaseJob) (worker run_id now : ℕ) (r : Result (List PhaseJob × ℕ))
      → view (settle_claim db row worker run_id now r).0 ≡ view db
  unfolding insert_event
  settle_claim-view db row worker run_id now (err e) = refl
  settle_claim-view db row worker run_id now (ok (rows, zero)) = blind db rows db.events
  settle_claim-view db row worker run_id now (ok (rows, suc n)) = blind db rows _

  claim_found-view :
      (db : Db) (o : Option PhaseJob) (worker run_id now : ℕ)
      → view (claim_found db o worker run_id now).0 ≡ view db
  unfolding claim_row
  claim_found-view db none worker run_id now = refl
  claim_found-view db (some row) worker run_id now = settle_claim-view db row worker run_id now (
      cas_update (λ j. j.id) (λ j. is_queued j.status) db.phase_jobs row.id
        (claim_updates row worker now))

  reap_rows-view :
      (run_id now : ℕ) (rows : List PhaseJob) (r : Reaped)
      → view (reap_rows run_id now rows r).db ≡ view r.db
  unfolding reap_rows insert_event
  reap_rows-view run_id now [] r = refl
  reap_rows-view run_id now (row ∷ rows) r =
      reap_rows-view run_id now rows (reap_one run_id now row r) ∙ blind r.db _ _

  pub claim-view :
      (db : Db) (run_id : ℕ) (role : Option String) (worker now : ℕ)
      → view (claim_next_phase_job db run_id role worker now).0 ≡ view db
  unfolding claim_next_phase_job
  claim-view db run_id role worker now =
      claim_found-view db (next_queued db.phase_jobs run_id role) worker run_id now

  pub reap-view :
      (db : Db) (run_id timeout now : ℕ)
      → view (reap_stale_phase_jobs db run_id timeout now).db ≡ view db
  unfolding reap_stale_phase_jobs
  reap-view db run_id timeout now =
      reap_rows-view run_id now (select (is_stale run_id (now - timeout)) db.phase_jobs)
        (record { db = db; ids = []; killed = [] })

pub claim-promotions :
    (db : Db) (run_id : ℕ) (role : Option String) (worker now : ℕ)
    → (claim_next_phase_job db run_id role worker now).0.promotions ≡ db.promotions
claim-promotions = claim-view (λ (d : Db). d.promotions) (λ db jobs events. refl)

pub reap-promotions :
    (db : Db) (run_id timeout now : ℕ)
    → (reap_stale_phase_jobs db run_id timeout now).db.promotions ≡ db.promotions
reap-promotions = reap-view (λ (d : Db). d.promotions) (λ db jobs events. refl)

-- The run has no queued and no running job.
abbrev pub IsIdle : Db → ℕ → Type 0
IsIdle db run_id = any (λ j. j.run_id == run_id && is_open j.status) db.phase_jobs ≡ false

idle-stale :
    (run_id cutoff : ℕ) (jobs : List PhaseJob)
    → any (λ j. j.run_id == run_id && is_open j.status) jobs ≡ false
    → select (is_stale run_id cutoff) jobs ≡ []
idle-stale run_id cutoff [] h = refl
idle-stale run_id cutoff (j ∷ js) h = ground (arith, idle-stale run_id cutoff js)

idle-eligible :
    (run_id : ℕ) (jobs : List PhaseJob)
    → any (λ j. j.run_id == run_id && is_open j.status) jobs ≡ false
    → select (is_eligible run_id none) jobs ≡ []
idle-eligible run_id [] h = refl
idle-eligible run_id (j ∷ js) h = ground (arith, idle-eligible run_id js)

-- Where the run has no open job, the reaper and a claim find nothing and change nothing.
pub reap-idle :
    (db : Db) (run_id timeout now : ℕ)
    → IsIdle db run_id
    → reap_stale_phase_jobs db run_id timeout now ≡ record { db = db; ids = []; killed = [] }
unfolding reap_stale_phase_jobs reap_rows
reap-idle db run_id timeout now idle = rw (idle-stale run_id (now - timeout) db.phase_jobs idle)

pub claim-idle :
    (db : Db) (run_id worker now : ℕ)
    → IsIdle db run_id
    → claim_next_phase_job db run_id none worker now ≡ (db, none)
unfolding claim_next_phase_job next_queued
claim-idle db run_id worker now idle = rw (idle-eligible run_id db.phase_jobs idle)
