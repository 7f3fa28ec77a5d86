-- ===== src/Jobs/Claim.antt =====
-- What `claim_next_phase_job` of ar724/conductor.py hands out.
use mathlib.Core.Path.{ap}
use ztrade_ares_7x.Base.{
  ◌==◌, Option-cases, any, In, all→In, In→any, select, update_where, In-select, select-In, least-In,
  least-none, least-le, count-pos, select-nil_iff, ℕ, ◌≤◌, String, ◌≡◌, refl, sym, ◌∙◌, subst, ◌≢◌,
  ◌↔◌, inl, inr, true, false, not, ◌&&◌, Option, none, some, List, [], arith,
}
use ztrade_ares_7x.Db.{PhaseStatus, PhaseJob, Db}
use ztrade_ares_7x.Jobs.Cas.{claim_updates-unqueued}
use ztrade_ares_7x.Jobs.{
  is_queued, assign, is_eligible, next_queued, claim_updates, claim_row, claim_found,
  claim_next_phase_job,
}

-- If the SELECT found a row, the CAS of the same database takes it.
claim_row_lem :
    (db : Db) (row : PhaseJob) (worker run_id now : ℕ)
    → In row db.phase_jobs
    → is_queued row.status ≡ true
    → ((claim_row db row worker run_id now).1
        ≡ some (record row { claimed_by = some worker; status = PhaseStatus.running }))
      × ((claim_row db row worker run_id now).0.phase_jobs
          ≡ update_where
              (λ j. j.id == row.id && is_queued j.status)
              (assign (claim_updates row worker now))
              db.phase_jobs)
unfolding claim_row
claim_row_lem db row worker run_id now m q =
    let (n, e) =
      count-pos (λ (j : PhaseJob). j.id == row.id && is_queued j.status) row db.phase_jobs m
        (ground arith) in
    (rw e, rw e)

pub next_queued_lem :
    (jobs : List PhaseJob) (run_id : ℕ) (role : Option String) {row : PhaseJob}
    → next_queued jobs run_id role ≡ some row
    → In row jobs
      × (is_eligible run_id role row ≡ true)
      × ((other : PhaseJob)
          → In other jobs
          → is_eligible run_id role other ≡ true
          → row.id ≤ other.id)
unfolding next_queued
next_queued_lem jobs run_id role {row} e =
    let key : PhaseJob → ℕ = λ j. j.id in
    let (listed, fits) =
      select-In (is_eligible run_id role) row jobs
        (least-In key (select (is_eligible run_id role) jobs) e) in
    (
      listed,
      fits,
      λ other m f.
          least-le key (select (is_eligible run_id role) jobs) e other
            (In-select (is_eligible run_id role) other jobs m f),
    )

next_queued-none :
    (jobs : List PhaseJob) (run_id : ℕ) (role : Option String)
    → next_queued jobs run_id role ≡ none
    → select (is_eligible run_id role) jobs ≡ []
unfolding next_queued
next_queued-none jobs run_id role e =
    least-none (λ j. j.id) (select (is_eligible run_id role) jobs) e

claim-eq_found :
    (db : Db) (run_id : ℕ) (role : Option String) (worker now : ℕ)
    → claim_next_phase_job db run_id role worker now
      ≡ claim_found db (next_queued db.phase_jobs run_id role) worker run_id now
unfolding claim_next_phase_job
claim-eq_found db run_id role worker now = refl

-- A claim is the CAS on the row that the SELECT found.
pub claim_cases :
    (db : Db) (run_id : ℕ) (role : Option String) (worker now : ℕ) {j : PhaseJob}
    → (claim_next_phase_job db run_id role worker now).1 ≡ some j
    → (row : PhaseJob) × (next_queued db.phase_jobs run_id role ≡ some row)
      × (j ≡ record row { claimed_by = some worker; status = PhaseStatus.running })
      × ((claim_next_phase_job db run_id role worker now).0.phase_jobs
          ≡ update_where
              (λ k. k.id == row.id && is_queued k.status)
              (assign (claim_updates row worker now))
              db.phase_jobs)
claim_cases db run_id role worker now {j} h =
    elim (Option-cases (next_queued db.phase_jobs run_id role)) [
      | inl e ↦
          cc (
            claim-eq_found db run_id role worker now,
            ap (λ o. claim_found db o worker run_id now) e,
          )
      | inr (row, e) ↦
          let (listed, fits, _) = next_queued_lem db.phase_jobs run_id role {row = row} e in
          let (result, table) = claim_row_lem db row worker run_id now listed (ground arith) in
          let same =
            claim-eq_found db run_id role worker now
            ∙ ap (λ o. claim_found db o worker run_id now) e in
          (row, e, cc (same, result), cc (same, table))
    ]

-- A claim that returns None writes nothing.
pub claim-none :
    (db : Db) (run_id : ℕ) (role : Option String) (worker now : ℕ)
    → (claim_next_phase_job db run_id role worker now).1 ≡ none
    → claim_next_phase_job db run_id role worker now ≡ (db, none)
claim-none db run_id role worker now h =
    let same = claim-eq_found db run_id role worker now in
    elim (Option-cases (next_queued db.phase_jobs run_id role)) [
      | inl e ↦ same ∙ ap (λ o. claim_found db o worker run_id now) e
      | inr (row, e) ↦
          let (listed, fits, _) = next_queued_lem db.phase_jobs run_id role {row = row} e in
          let (result, _) = claim_row_lem db row worker run_id now listed (ground arith) in
          absurd (cc (same, ap (λ o. claim_found db o worker run_id now) e, result, h))
    ]

-- A claim returns None exactly if the run has no queued job of the role.
pub claim-none_iff :
    (db : Db) (run_id : ℕ) (role : Option String) (worker now : ℕ)
    → ((claim_next_phase_job db run_id role worker now).1 ≡ none)
      ↔ (any (is_eligible run_id role) db.phase_jobs ≡ false)
claim-none_iff db run_id role worker now =
    let same = claim-eq_found db run_id role worker now in
    elim (Option-cases (next_queued db.phase_jobs run_id role)) [
      | inl e ↦ (
        λ h.
            (select-nil_iff (is_eligible run_id role) db.phase_jobs).0
              (next_queued-none db.phase_jobs run_id role e),
        λ h. cc (same, ap (λ o. claim_found db o worker run_id now) e),
      )
      | inr (row, e) ↦
          let (listed, fits, _) = next_queued_lem db.phase_jobs run_id role {row = row} e in
          let (result, _) = claim_row_lem db row worker run_id now listed (ground arith) in
          (
            λ h. cc (same, ap (λ o. claim_found db o worker run_id now) e, result),
            λ h. cc (In→any (is_eligible run_id role) row db.phase_jobs listed fits),
          )
    ]

-- The job that a claim returns was queued in this run, fits the role, and has the least id among
-- the jobs of which this holds.
claim-least :
    (db : Db) (run_id : ℕ) (role : Option String) (worker now : ℕ) {j : PhaseJob}
    → (claim_next_phase_job db run_id role worker now).1 ≡ some j
    → (row : PhaseJob) × In row db.phase_jobs
      × (is_eligible run_id role row ≡ true)
      × (j ≡ record row { claimed_by = some worker; status = PhaseStatus.running })
      × ((other : PhaseJob)
          → In other db.phase_jobs
          → is_eligible run_id role other ≡ true
          → j.id ≤ other.id)
claim-least db run_id role worker now {j} h =
    let (row, e, shape, _) = claim_cases db run_id role worker now {j = j} h in
    let (listed, fits, first) = next_queued_lem db.phase_jobs run_id role {row = row} e in
    (row, listed, fits, shape, λ other m f. rw shape (first other m f))

-- No job is handed out twice: from the database that a claim leaves, a later claim, by whichever
-- run and role, returns another id.
pub claim-fresh :
    (db : Db) (run_id run_id' : ℕ) (role role' : Option String) (worker worker' now now' : ℕ)
    {j k : PhaseJob}
    → (claim_next_phase_job db run_id role worker now).1 ≡ some j
    → (claim_next_phase_job
        (claim_next_phase_job db run_id role worker now).0
        run_id'
        role'
        worker'
        now').1
      ≡ some k
    → j.id ≢ k.id
claim-fresh db run_id run_id' role role' worker worker' now now' {j} {k} h h' same =
    let (row, _, shape, table) = claim_cases db run_id role worker now {j = j} h in
    let after = (claim_next_phase_job db run_id role worker now).0 in
    let (row', e', shape', _) = claim_cases after run_id' role' worker' now' {j = k} h' in
    let (listed, fits, _) = next_queued_lem after.phase_jobs run_id' role' {row = row'} e' in
    let free =
      all→In (λ (i : PhaseJob). not (i.id == row.id && is_queued i.status))
        (update_where (λ (i : PhaseJob). i.id == row.id && is_queued i.status)
          (assign (claim_updates row worker now)) db.phase_jobs)
        (claim_updates-unqueued row worker now db.phase_jobs) row' (subst (In row') table listed) in
    let ids : row'.id ≡ row.id =
      sym (ap (λ (i : PhaseJob). i.id) shape') ∙ sym same ∙ ap (λ (i : PhaseJob). i.id) shape in
    ground arith
