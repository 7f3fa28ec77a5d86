-- ===== src/Runs/Next.antt =====
-- `iter next` of ar724/cli.py.
use ztrade_ares_7x.Base.{
  ◌==◌, Option-cases, length, All, In, select, find, In-select, ℕ, ◌+◌, ◌≤◌, ◌<◌, ◌≡◌, refl, sym,
  ◌∙◌, ap, ◌⊎◌, inl, inr, none, some, List, [], ◌∷◌, ◌++◌, arith,
}
use ztrade_ares_7x.Db.{Run, IterStatus, Iteration, PhaseStatus, PhaseJob, Db}
use ztrade_ares_7x.Iterations.{create_iteration, enqueue_phase_jobs}
use ztrade_ares_7x.Events.{insert_event}
use ztrade_ares_7x.Iterations.Enqueue.{enqueue_phase_jobs-jobs, enqueue_phase_jobs-iterations}
use ztrade_ares_7x.Runs.{run_is_running, max_index, next_of, iter_next}

max_index-le : (is : List Iteration) (i : Iteration) → In i is → i.index ≤ max_index is
max_index-le [] i m = absurd m
max_index-le (x ∷ xs) i (inl e) = let q = ap (λ (k : Iteration). k.index) e in omega arith
max_index-le (x ∷ xs) i (inr m) = omega (arith, max_index-le xs i m)

-- What `iter next` does for the run `run`: one iteration of it behind the others, and five jobs.
pub record IsNext (db after : Db) (run : Run) (iter_id : ℕ) : Type 0 where
  pub new : Iteration
  pub jobs : List PhaseJob
  pub appended : after.iterations ≡ db.iterations ++ new ∷ []
  pub own : (new.id ≡ iter_id) × (new.run_id ≡ run.id) × (new.status ≡ IterStatus.queued)
  pub behind :
      (old : Iteration) → In old db.iterations → old.run_id ≡ run.id → old.index < new.index
  pub queued : after.phase_jobs ≡ db.phase_jobs ++ jobs
  pub five : length jobs ≡ 5
  pub waiting : All (λ j. (j.status ≡ PhaseStatus.queued) × (j.iteration_id ≡ iter_id)) jobs

abbrev row : Db → Run → (iter_id trace_id now : ℕ) → Iteration
row db run iter_id trace_id now = record {
  id = iter_id;
  run_id = run.id;
  index = max_index (select (λ i. i.run_id == run.id) db.iterations) + 1;
  status = IterStatus.queued;
  parent_best_hash = "";
  selected_candidate_hash = none;
  started_at = now;
  trace_id = trace_id;
}

next_of-IsNext :
    (db : Db) (run : Run) (iter_id trace_id : ℕ) (job_id : ℕ → ℕ) (now : ℕ) {after : Db}
    → next_of db (some run) iter_id trace_id job_id now ≡ some after
    → IsNext db after run iter_id
unfolding create_iteration insert_event
next_of-IsNext db run iter_id trace_id job_id now {after} h =
    let index = max_index (select (λ i. i.run_id == run.id) db.iterations) + 1 in
    let made = create_iteration db iter_id trace_id run.id index "" now in
    let (jobs, queued, five, waiting) = enqueue_phase_jobs-jobs made job_id run.id iter_id now in
    let kept = enqueue_phase_jobs-iterations made job_id run.id iter_id now in
    let same : (enqueue_phase_jobs made job_id run.id iter_id now).0 ≡ after = ground arith in
    record {
      new = row db run iter_id trace_id now;
      jobs = jobs;
      appended = sym (ap (λ (d : Db). d.iterations) same) ∙ kept;
      own = (refl, refl, refl);
      behind = λ old m e.
          let mine = In-select (λ i. i.run_id == run.id) old db.iterations m (ground arith) in
          omega (arith, max_index-le (select (λ i. i.run_id == run.id) db.iterations) old mine);
      queued = sym (ap (λ (d : Db). d.phase_jobs) same) ∙ queued;
      five = five;
      waiting = waiting;
    }

-- `iter next` exits with an error if no run is running. Otherwise it appends one queued iteration
-- to a running run, with an index above all those of the run, and five queued jobs of that
-- iteration, and keeps the rows that were there.
pub iter_next_lem :
    (db : Db) (iter_id trace_id : ℕ) (job_id : ℕ → ℕ) (now : ℕ)
    → (find run_is_running db.runs ≡ none) × (iter_next db iter_id trace_id job_id now ≡ none)
      ⊎ ((run : Run) × (after : Db) × (find run_is_running db.runs ≡ some run)
          × (iter_next db iter_id trace_id job_id now ≡ some after)
          × IsNext db after run iter_id)
unfolding iter_next
iter_next_lem db iter_id trace_id job_id now = elim (Option-cases (find run_is_running db.runs)) [
  | inl e ↦ inl (e, rw e)
  | inr (run, e) ↦
      rw e (inr (run, _, refl, refl, next_of-IsNext db run iter_id trace_id job_id now refl))
]
