-- ===== src/Jobs/Logged.antt =====
-- The events that `claim_next_phase_job` and `reap_stale_phase_jobs` of ar724/conductor.py write.
use ztrade_ares_7x.Base.{select, ℕ, zero, suc, ◌-◌, String, refl, Option, none, some, List, [], ◌∷◌}
use ztrade_ares_7x.Base.Result.{Result, err, ok}
use ztrade_ares_7x.Db.{PhaseJob, Db}
use ztrade_ares_7x.Events.{is_valid_event_type, is_valid_severity, insert_event, job_event}
use ztrade_ares_7x.Events.Log.{accepted, Extends-refl, Extends-one, Extends-trans, Extends}
use ztrade_ares_7x.Jobs.{
  is_queued, cas_update, next_queued, claim_updates, settle_claim, claim_row, claim_found,
  claim_next_phase_job, is_stale, reap_one, reap_stale_phase_jobs, Reaped,
}
use ztrade_ares_7x.Jobs.{reap_rows}

settle_claim-Extends :
    (db : Db) (row : PhaseJob) (worker run_id now : ℕ) (r : Result (List PhaseJob × ℕ))
    → Extends db.events (settle_claim db row worker run_id now r).0.events
unfolding insert_event is_valid_event_type is_valid_severity
settle_claim-Extends db row worker run_id now (err e) = Extends-refl db.events
settle_claim-Extends db row worker run_id now (ok (rows, zero)) = Extends-refl db.events
settle_claim-Extends db row worker run_id now (ok (rows, suc n)) =
    let e = job_event "phase_claimed" "info" run_id (some row.iteration_id) row.id now in
    Extends-one db.events e (accepted e refl refl)

claim_found-Extends :
    (db : Db) (o : Option PhaseJob) (worker run_id now : ℕ)
    → Extends db.events (claim_found db o worker run_id now).0.events
unfolding claim_row
claim_found-Extends db none worker run_id now = Extends-refl db.events
claim_found-Extends db (some row) worker run_id now =
    settle_claim-Extends db row worker run_id now (
      cas_update (λ j. j.id) (λ j. is_queued j.status) db.phase_jobs row.id
        (claim_updates row worker now))

pub claim-Extends :
    (db : Db) (run_id : ℕ) (role : Option String) (worker now : ℕ)
    → Extends db.events (claim_next_phase_job db run_id role worker now).0.events
unfolding claim_next_phase_job
claim-Extends db run_id role worker now =
    claim_found-Extends db (next_queued db.phase_jobs run_id role) worker run_id now

reap_rows-Extends :
    (run_id now : ℕ) (rows : List PhaseJob) (r : Reaped)
    → Extends r.db.events (reap_rows run_id now rows r).db.events
unfolding reap_rows insert_event is_valid_event_type is_valid_severity
reap_rows-Extends run_id now [] r = Extends-refl r.db.events
reap_rows-Extends run_id now (row ∷ rows) r =
    let e = job_event "phase_orphaned" "warn" run_id none row.id now in
    Extends-trans r.db.events (reap_one run_id now row r).db.events
      (reap_rows run_id now rows (reap_one run_id now row r)).db.events
      (Extends-one r.db.events e (accepted e refl refl))
      (reap_rows-Extends run_id now rows (reap_one run_id now row r))

pub reap-Extends :
    (db : Db) (run_id timeout now : ℕ)
    → Extends db.events (reap_stale_phase_jobs db run_id timeout now).db.events
unfolding reap_stale_phase_jobs
reap-Extends db run_id timeout now =
    reap_rows-Extends run_id now (select (is_stale run_id (now - timeout)) db.phase_jobs)
      (record { db = db; ids = []; killed = [] })
