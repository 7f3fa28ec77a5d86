-- ===== src/Jobs/Cas.antt =====
-- Two workers that race for one job, and `cas_update` of ar724/db.py, which decides between them.
use ztrade_ares_7x.Base.{
  ◌==◌, all, update_where, update_where-none, count-zero, any-count, ℕ, zero, suc, ◌≡◌, refl, Bool,
  true, not, ◌&&◌, none, List, [], ◌∷◌, arith,
}
use ztrade_ares_7x.Base.Result.{ok}
use ztrade_ares_7x.Db.{PhaseJob, Db}
use ztrade_ares_7x.Events.{insert_event}
use ztrade_ares_7x.Jobs.{is_queued, assign, claim_updates, settle_claim, claim_row}

-- A successful CAS leaves no queued row under the id that it named.
pub claim_updates-unqueued :
    (row : PhaseJob) (worker now : ℕ) (rows : List PhaseJob)
    → all
        (λ j. not (j.id == row.id && is_queued j.status))
        (update_where
          (λ j. j.id == row.id && is_queued j.status)
          (assign (claim_updates row worker now))
          rows)
      ≡ true
claim_updates-unqueued row worker now [] = refl
claim_updates-unqueued row worker now (j ∷ js) =
    ground (arith, claim_updates-unqueued row worker now js)

pub settle_claim-table :
    (db : Db) (row : PhaseJob) (worker run_id now : ℕ) (rows : List PhaseJob) (n : ℕ)
    → (settle_claim db row worker run_id now (ok (rows, n))).0.phase_jobs ≡ rows
unfolding insert_event
settle_claim-table db row worker run_id now rows zero = refl
settle_claim-table db row worker run_id now rows (suc n) = refl

claim_row-unqueued :
    (db : Db) (row : PhaseJob) (worker run_id now : ℕ)
    → all
        (λ j. not (j.id == row.id && is_queued j.status))
        (claim_row db row worker run_id now).0.phase_jobs
      ≡ true
unfolding claim_row
claim_row-unqueued db row worker run_id now =
    rw (settle_claim-table db row worker run_id now _ _)
      (claim_updates-unqueued row worker now db.phase_jobs)

-- A CAS on a row that is no longer queued.
claim_row-miss :
    (db : Db) (row : PhaseJob) (worker run_id now : ℕ)
    → all (λ j. not (j.id == row.id && is_queued j.status)) db.phase_jobs ≡ true
    → ((claim_row db row worker run_id now).1 ≡ none)
      × ((claim_row db row worker run_id now).0.phase_jobs ≡ db.phase_jobs)
unfolding claim_row
claim_row-miss db row worker run_id now h =
    let test : PhaseJob → Bool = λ j. j.id == row.id && is_queued j.status in
    let zero_rows = count-zero test db.phase_jobs h in
    (
      rw zero_rows,
      rw zero_rows (
          update_where-none test (assign (claim_updates row worker now)) db.phase_jobs
            (any-count test db.phase_jobs zero_rows)),
    )

-- Two workers that both selected `row` before either wrote: after the first one's CAS, whatever
-- it did, the second one gets nothing and leaves the table as it is.
pub claim_row-second_loses :
    (db : Db) (row : PhaseJob) (worker worker' run_id now now' : ℕ)
    → ((claim_row (claim_row db row worker run_id now).0 row worker' run_id now').1 ≡ none)
      × ((claim_row (claim_row db row worker run_id now).0 row worker' run_id now').0.phase_jobs
          ≡ (claim_row db row worker run_id now).0.phase_jobs)
claim_row-second_loses db row worker worker' run_id now now' =
    claim_row-miss (claim_row db row worker run_id now).0 row worker' run_id now'
      (claim_row-unqueued db row worker run_id now)
