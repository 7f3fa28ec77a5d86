-- ===== src/Iterations/Enqueue.antt =====
-- What `enqueue_phase_jobs` of ar724/conductor.py appends.
use mathlib.Core.List.{append-nil, append_assoc}
use ztrade_ares_7x.Base.{
  length, All, ℕ, suc, String, ◌≡◌, refl, sym, ◌∙◌, ap, some, List, [], ◌∷◌, ◌++◌,
}
use ztrade_ares_7x.Db.{PhaseStatus, PhaseJob, Db}
use ztrade_ares_7x.Events.{insert_event, job_event}
use ztrade_ares_7x.Iterations.{enqueue}
use ztrade_ares_7x.Iterations.{queued_job, phases, enqueue_phase_jobs}

enqueue-jobs :
    (db : Db) (job_id : ℕ → ℕ) (k : ℕ) (ps : List (String × String × String))
    (run_id iteration_id now : ℕ)
    → (jobs : List PhaseJob) × ((enqueue db job_id k ps run_id iteration_id now).phase_jobs
        ≡ db.phase_jobs ++ jobs)
      × (length jobs ≡ length ps)
      × All (λ j. (j.status ≡ PhaseStatus.queued) × (j.iteration_id ≡ iteration_id)) jobs
unfolding enqueue insert_event
enqueue-jobs db job_id k [] run_id iteration_id now = ([], sym (append-nil db.phase_jobs), refl, tt)
enqueue-jobs db job_id k (p ∷ ps) run_id iteration_id now =
    let new = queued_job (job_id k) run_id iteration_id p in
    let (jobs, e, n, all_queued) =
      enqueue-jobs
        (insert_event (record db { phase_jobs = db.phase_jobs ++ new ∷ [] })
          (job_event "phase_queued" "info" run_id (some iteration_id) (job_id k) now))
        job_id (suc k) ps run_id iteration_id now in
    (
      new ∷ jobs,
      e ∙ append_assoc db.phase_jobs (new ∷ []) jobs,
      ap suc n,
      ((refl, refl), all_queued),
    )

enqueue-iterations :
    (db : Db) (job_id : ℕ → ℕ) (k : ℕ) (ps : List (String × String × String))
    (run_id iteration_id now : ℕ)
    → (enqueue db job_id k ps run_id iteration_id now).iterations ≡ db.iterations
unfolding enqueue insert_event
enqueue-iterations db job_id k [] run_id iteration_id now = refl
enqueue-iterations db job_id k (p ∷ ps) run_id iteration_id now =
    enqueue-iterations _ job_id (suc k) ps run_id iteration_id now

enqueue-runs :
    (db : Db) (job_id : ℕ → ℕ) (k : ℕ) (ps : List (String × String × String))
    (run_id iteration_id now : ℕ)
    → (enqueue db job_id k ps run_id iteration_id now).runs ≡ db.runs
unfolding enqueue insert_event
enqueue-runs db job_id k [] run_id iteration_id now = refl
enqueue-runs db job_id k (p ∷ ps) run_id iteration_id now =
    enqueue-runs _ job_id (suc k) ps run_id iteration_id now

pub enqueue_phase_jobs-jobs :
    (db : Db) (job_id : ℕ → ℕ) (run_id iteration_id now : ℕ)
    → (jobs : List PhaseJob) × ((enqueue_phase_jobs db job_id run_id iteration_id now).0.phase_jobs
        ≡ db.phase_jobs ++ jobs)
      × (length jobs ≡ 5)
      × All (λ j. (j.status ≡ PhaseStatus.queued) × (j.iteration_id ≡ iteration_id)) jobs
unfolding enqueue_phase_jobs
enqueue_phase_jobs-jobs db job_id run_id iteration_id now =
    enqueue-jobs db job_id 0 phases run_id iteration_id now

pub enqueue_phase_jobs-iterations :
    (db : Db) (job_id : ℕ → ℕ) (run_id iteration_id now : ℕ)
    → (enqueue_phase_jobs db job_id run_id iteration_id now).0.iterations ≡ db.iterations
unfolding enqueue_phase_jobs
enqueue_phase_jobs-iterations db job_id run_id iteration_id now =
    enqueue-iterations db job_id 0 phases run_id iteration_id now

pub enqueue_phase_jobs-runs :
    (db : Db) (job_id : ℕ → ℕ) (run_id iteration_id now : ℕ)
    → (enqueue_phase_jobs db job_id run_id iteration_id now).0.runs ≡ db.runs
unfolding enqueue_phase_jobs
enqueue_phase_jobs-runs db job_id run_id iteration_id now =
    enqueue-runs db job_id 0 phases run_id iteration_id now
