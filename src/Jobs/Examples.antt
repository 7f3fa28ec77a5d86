-- ===== src/Jobs/Examples.antt =====
-- The theorems on phase jobs at a small table.
use ztrade_ares_7x.Base.{
  In, update_where, Unique, ℕ, ◌+◌, ◌<◌, String, ◌≡◌, refl, ◌≢◌, inl, true, none, some, [], ◌∷◌,
}
use ztrade_ares_7x.Db.{PhaseStatus, PhaseJob, Db}
use ztrade_ares_7x.Iterations.{queued_job}
use ztrade_ares_7x.Locks.Examples.{empty}
use ztrade_ares_7x.Jobs.{
  is_running, claim_row, claim_next_phase_job, lease_timeout_seconds, is_stale, orphaned,
  reap_stale_phase_jobs,
}
use ztrade_ares_7x.Jobs.Cas.{claim_row-second_loses}
use ztrade_ares_7x.Jobs.Claim.{claim-fresh}
use ztrade_ares_7x.Jobs.Reap.{reap-table, reap-claimed_late}
use ztrade_ares_7x.Jobs.Lifecycle.{
  Evolves, perform_all, perform_all-Evolves, claim, reap, heartbeat,
}

abbrev job : ℕ → String → PhaseJob
job id role = queued_job id 1 7 ("phase", role, "slot_10")

abbrev pub two_jobs : Db
two_jobs = record empty { phase_jobs = job 4 "factor_combiner" ∷ job 2 "backtester" ∷ [] }

abbrev claimed : PhaseJob → ℕ → PhaseJob
claimed j worker = record j { claimed_by = some worker; status = PhaseStatus.running }

first_claim :
    (claim_next_phase_job two_jobs 1 none 10 100).1 ≡ some (claimed (job 2 "backtester") 10)
unfolding claim_next_phase_job
first_claim = refl

second_claim :
    (claim_next_phase_job (claim_next_phase_job two_jobs 1 none 10 100).0 1 none 11 101).1
    ≡ some (claimed (job 4 "factor_combiner") 11)
unfolding claim_next_phase_job
second_claim = refl

claim-fresh_example :
    (claimed (job 2 "backtester") 10).id ≢ (claimed (job 4 "factor_combiner") 11).id
claim-fresh_example = claim-fresh two_jobs 1 1 none none 10 11 100 101 first_claim second_claim

claim_row-second_loses_example :
    ((claim_row
        (claim_row two_jobs (job 2 "backtester") 10 1 100).0
        (job 2 "backtester")
        11
        1
        101).1
      ≡ none)
    × ((claim_row
          (claim_row two_jobs (job 2 "backtester") 10 1 100).0
          (job 2 "backtester")
          11
          1
          101).0.phase_jobs
        ≡ (claim_row two_jobs (job 2 "backtester") 10 1 100).0.phase_jobs)
claim_row-second_loses_example =
    claim_row-second_loses two_jobs (job 2 "backtester") 10 11 1 100 101

abbrev leased_job : PhaseJob
leased_job = record (claimed (job 2 "backtester") 10) { lease_expires_at = some 280 }

abbrev one_leased : Db
one_leased = record empty { phase_jobs = job 4 "factor_combiner" ∷ leased_job ∷ [] }

one_leased-Unique : Unique (λ (j : PhaseJob). j.id) one_leased.phase_jobs
one_leased-Unique = (refl, (refl, tt))

perform_all-Evolves_example :
    Evolves one_leased.phase_jobs
      (perform_all one_leased
        (claim 1 none 11 200 ∷ heartbeat 2 210 ∷ reap 1 180 500 ∷ [])).phase_jobs
perform_all-Evolves_example =
    perform_all-Evolves one_leased (claim 1 none 11 200 ∷ heartbeat 2 210 ∷ reap 1 180 500 ∷ [])
      one_leased-Unique

reap-table_example :
    (reap_stale_phase_jobs one_leased 1 180 500).db.phase_jobs
    ≡ update_where (is_stale 1 320) orphaned one_leased.phase_jobs
reap-table_example = reap-table one_leased 1 180 500 one_leased-Unique

reaped_two : In 2 (reap_stale_phase_jobs one_leased 1 lease_timeout_seconds 500).ids
unfolding reap_stale_phase_jobs
reaped_two = inl refl

reap-claimed_late_example :
    (j : PhaseJob) × In j one_leased.phase_jobs
    × (j.id ≡ 2)
    × (is_running j.status ≡ true)
    × ((lease : ℕ) × (j.lease_expires_at ≡ some lease) × (lease + 180 < 500))
reap-claimed_late_example = reap-claimed_late one_leased 1 500 2 reaped_two
