-- ===== src/Jobs.antt =====
-- Phase jobs: `claim_next_phase_job`, `reap_stale_phase_jobs` of ar724/conductor.py, `cas_update`
-- of ar724/db.py, `_beat` of ar724/heartbeat.py and `iter cancel` of ar724/cli.py.
-- A uuid4 is an argument, and an operation reads the clock once.
pub mod Cas
pub mod Claim
pub mod Reap
pub mod Frame
pub mod Logged
pub mod Lifecycle
pub mod Waiting
pub mod Examples
use ztrade_ares_7x.Base.{
  ltb, ◌==◌, if◌then◌else◌, select, update_where, count, least, greatest, ℕ, zero, suc, ◌+◌, ◌-◌,
  ◌<◌, String, Bool, true, false, not, ◌&&◌, ◌||◌, Option, none, some, List, [], ◌∷◌, ◌++◌, str_eq,
}
use ztrade_ares_7x.Base.Result.{Result, value_error, err, ok}
use ztrade_ares_7x.Db.{IterStatus, Iteration, PhaseStatus, PhaseJob, Db}
use ztrade_ares_7x.Events.{insert_event, job_event}
use ztrade_ares_7x.Locks.{lock_lease_seconds}

abbrev pub is_queued : PhaseStatus → Bool
is_queued PhaseStatus.queued = true
is_queued _ = false

abbrev pub is_running : PhaseStatus → Bool
is_running PhaseStatus.running = true
is_running _ = false

abbrev pub assign : {A : Type 0} → List (A → A) → A → A
assign [] a = a
assign (f ∷ fs) a = assign fs (f a)

-- `Database.cas_update` on a table whose rows have the id `id`: `holds` is the test
-- `status = :expected_status`, and `updates` are the assignments. The number is the row count.
unfoldable pub cas_update :
    {A : Type 0} → (A → ℕ) → (A → Bool) → List A → ℕ → List (A → A) → Result (List A × ℕ)
cas_update id holds rows i [] = err value_error
cas_update id holds rows i (f ∷ fs) = ok (
  update_where (λ r. id r == i && holds r) (assign (f ∷ fs)) rows,
  count (λ r. id r == i && holds r) rows,
)

-- an absent role and the empty text are alike
abbrev pub role_fits : Option String → PhaseJob → Bool
role_fits none j = true
role_fits (some role) j = if str_eq role "" then true else str_eq j.role role

abbrev pub is_eligible : ℕ → Option String → PhaseJob → Bool
is_eligible run_id role j = j.run_id == run_id && is_queued j.status && role_fits role j

-- SELECT … ORDER BY id LIMIT 1
unfoldable pub next_queued : List PhaseJob → ℕ → Option String → Option PhaseJob
next_queued jobs run_id role = least (λ j. j.id) (select (is_eligible run_id role) jobs)

-- the five assignments of a claim
abbrev pub claim_updates : PhaseJob → ℕ → ℕ → List (PhaseJob → PhaseJob)
claim_updates row worker now =
    (λ j. record j { status = PhaseStatus.running })
    ∷ (λ j. record j { claimed_by = some worker })
    ∷ (λ j. record j { lease_expires_at = some (now + lock_lease_seconds) })
    ∷ (λ j. record j { last_heartbeat_at = some now })
    ∷ (λ j. record j { attempt = row.attempt + 1 })
    ∷ []

-- The rest of a claim, from the row count on.
abbrev pub settle_claim :
    Db → PhaseJob → (worker run_id now : ℕ) → Result (List PhaseJob × ℕ) → Db × Option PhaseJob
settle_claim db row worker run_id now (err e) = (db, none)
settle_claim db row worker run_id now (ok (rows, zero)) = (record db { phase_jobs = rows }, none)
settle_claim db row worker run_id now (ok (rows, suc n)) = (
  insert_event (record db { phase_jobs = rows })
      (job_event "phase_claimed" "info" run_id (some row.iteration_id) row.id now),
  some (record row { claimed_by = some worker; status = PhaseStatus.running }),
)

-- The CAS on the row that the SELECT found; the database may have changed since.
unfoldable pub claim_row : Db → PhaseJob → (worker run_id now : ℕ) → Db × Option PhaseJob
unfolding cas_update insert_event
claim_row db row worker run_id now = settle_claim db row worker run_id now (
    cas_update (λ j. j.id) (λ j. is_queued j.status) db.phase_jobs row.id
      (claim_updates row worker now))

abbrev pub claim_found : Db → Option PhaseJob → (worker run_id now : ℕ) → Db × Option PhaseJob
claim_found db none worker run_id now = (db, none)
claim_found db (some row) worker run_id now = claim_row db row worker run_id now

unfoldable pub claim_next_phase_job :
    Db → ℕ → Option String → (worker now : ℕ) → Db × Option PhaseJob
unfolding next_queued claim_row
claim_next_phase_job db run_id role worker now =
    claim_found db (next_queued db.phase_jobs run_id role) worker run_id now

abbrev pub lease_timeout_seconds : ℕ
lease_timeout_seconds = 180

-- `lease_expires_at < cutoff`, where NULL is not smaller than anything
abbrev lease_before : Option ℕ → ℕ → Bool
lease_before none cutoff = false
lease_before (some lease) cutoff = ltb lease cutoff

abbrev pub is_stale : ℕ → ℕ → PhaseJob → Bool
is_stale run_id cutoff j =
    j.run_id == run_id && is_running j.status && lease_before j.lease_expires_at cutoff

abbrev pub orphaned : PhaseJob → PhaseJob
orphaned j = record j {
  status = PhaseStatus.failed;
  error_class = "orphaned_process";
  error_message = "lease expired";
}

-- What a reaping leaves: the database, the ids reaped, and the tmux windows killed, each by the
-- run and the slot that name it.
pub record Reaped : Type 0 where
  pub db : Db
  pub ids : List ℕ
  pub killed : List (ℕ × String)

abbrev pub reap_one : ℕ → ℕ → PhaseJob → Reaped → Reaped
reap_one run_id now row r = record {
  db =
      insert_event
        (record (r.db) { phase_jobs = update_where (λ j. j.id == row.id) orphaned r.db.phase_jobs })
        (job_event "phase_orphaned" "warn" run_id none row.id now);
  ids = r.ids ++ row.id ∷ [];
  killed = if str_eq row.slot_name "" then r.killed else r.killed ++ (run_id, row.slot_name) ∷ [];
}

reap_rows : ℕ → ℕ → List PhaseJob → Reaped → Reaped
reap_rows run_id now [] r = r
reap_rows run_id now (row ∷ rows) r = reap_rows run_id now rows (reap_one run_id now row r)

unfoldable pub reap_stale_phase_jobs : Db → (run_id timeout now : ℕ) → Reaped
unfolding reap_rows insert_event
reap_stale_phase_jobs db run_id timeout now =
    reap_rows run_id now (select (is_stale run_id (now - timeout)) db.phase_jobs)
      (record { db = db; ids = []; killed = [] })

-- the UPDATE of `HeartbeatTimer._beat`
unfoldable pub beat : Db → (phase_job_id now : ℕ) → Db
beat db phase_job_id now = record db {
  phase_jobs =
      update_where (λ j. j.id == phase_job_id && is_running j.status)
        (λ j. record j { last_heartbeat_at = some now }) db.phase_jobs;
}

abbrev pub in_flight : IterStatus → Bool
in_flight IterStatus.queued = true
in_flight IterStatus.running = true
in_flight _ = false

abbrev pub is_open : PhaseStatus → Bool
is_open s = is_queued s || is_running s

abbrev pub cancel_found : Db → Option Iteration → Option Db
cancel_found db none = none
cancel_found db (some last) = some (record db {
  iterations =
      update_where (λ i. i.id == last.id) (λ i. record i { status = IterStatus.cancelled })
        db.iterations;
  phase_jobs =
      update_where (λ j. j.iteration_id == last.id && is_open j.status)
        (λ j. record j { status = PhaseStatus.failed; error_class = "iter_cancelled" })
        db.phase_jobs;
})

-- `ar724 iter cancel`; `none` is the exit with status 1
unfoldable pub iter_cancel : Db → Option Db
iter_cancel db =
    cancel_found db (greatest (λ i. i.index) (select (λ i. in_flight i.status) db.iterations))
