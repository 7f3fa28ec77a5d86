-- ===== src/Runs/Start.antt =====
-- `up` of ar724/cli.py. The tmux session is left out.
use ztrade_ares_7x.Events.{insert_event}
use ztrade_ares_7x.Iterations.Enqueue.{enqueue_phase_jobs-runs}
use ztrade_ares_7x.Base.{
  ◌==◌, Bool-cases, update_where, find, ℕ, String, ◌≡◌, refl, ◌∙◌, ap, inl, inr, Option, none, some,
  List, [], ◌∷◌, ◌++◌, arith,
}
use ztrade_ares_7x.Db.{RunStatus, Run, Db}
use ztrade_ares_7x.Iterations.{create_iteration, enqueue_phase_jobs}
use ztrade_ares_7x.Runs.{create_run, start_run, run_is_running}

-- the ids that the command makes
pub record Ids : Type 0 where
  pub run_id : ℕ
  pub iter_id : ℕ
  pub trace_id : ℕ
  pub job_id : ℕ → ℕ

pub data Started : Type 0 where
  already_running : ℕ → Started
  newly_started : ℕ → Started

-- the defaults of `create_run`
abbrev pub default_budget_cents : ℕ
default_budget_cents = 5000

abbrev pub start_with : Db → Option Run → Ids → (goal : String) → (now : ℕ) → Db × Started
start_with db (some existing) ids goal now = (db, already_running existing.id)
start_with db none ids goal now =
    let created = create_run db ids.run_id goal default_budget_cents default_budget_cents "" now in
    let started = start_run created ids.run_id now in
    let queued = create_iteration started ids.iter_id ids.trace_id ids.run_id 1 "" now in
    ((enqueue_phase_jobs queued ids.job_id ids.run_id ids.iter_id now).0, newly_started ids.run_id)

unfoldable pub up : Db → Ids → (goal : String) → (now : ℕ) → Db × Started
unfolding create_run start_run create_iteration enqueue_phase_jobs
up db ids goal now = start_with db (find run_is_running db.runs) ids goal now

abbrev start_at : ℕ → Run → Run
start_at now r = record r { status = RunStatus.running; started_at = some now }

start-found :
    (i now : ℕ) (new : Run) (rs : List Run)
    → new.id ≡ i
    → find run_is_running rs ≡ none
    → (r : Run) × (find run_is_running
          (update_where (λ x. x.id == i) (start_at now) (rs ++ new ∷ []))
        ≡ some r)
      × (r.id ≡ i)
start-found i now new [] e h = (start_at now new, ground arith, e)
start-found i now new (x ∷ xs) e h = elim (Bool-cases (x.id == i)) [
  | inl here ↦ (start_at now x, ground arith, ground arith)
  | inr other ↦
      let (r, found, own) = start-found i now new xs e (ground arith) in (r, ground arith, own)
]

abbrev pub run_of : Started → ℕ
run_of (already_running i) = i
run_of (newly_started i) = i

start_with-found :
    (db : Db) (o : Option Run) (ids : Ids) (goal : String) (now : ℕ)
    → find run_is_running db.runs ≡ o
    → (r : Run) × (find run_is_running (start_with db o ids goal now).0.runs ≡ some r)
      × (r.id ≡ run_of (start_with db o ids goal now).1)
unfolding create_run start_run create_iteration insert_event
start_with-found db (some existing) ids goal now h = (existing, h, refl)
start_with-found db none ids goal now h =
    let (r, found, own) = start-found ids.run_id now _ db.runs refl h in
    (
      r,
      ap (find run_is_running) (enqueue_phase_jobs-runs _ ids.job_id ids.run_id ids.iter_id now)
          ∙ found,
      own,
    )

-- `up` starts one run at most: once it has run, whether it found a running run or started one,
-- every later call reports that run and changes nothing.
pub up-again :
    (db : Db) (ids ids' : Ids) (goal goal' : String) (now later : ℕ)
    → up (up db ids goal now).0 ids' goal' later
      ≡ ((up db ids goal now).0, already_running (run_of (up db ids goal now).1))
unfolding up
up-again db ids ids' goal goal' now later =
    let (r, found, own) = start_with-found db (find run_is_running db.runs) ids goal now refl in
    rw found (ap (λ i. ((up db ids goal now).0, already_running i)) own)

pub up-newly :
    (db : Db) (ids : Ids) (goal : String) (now : ℕ)
    → find run_is_running db.runs ≡ none
    → (up db ids goal now).1 ≡ newly_started ids.run_id
unfolding up
up-newly db ids goal now idle = rw idle
