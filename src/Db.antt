-- ===== src/Db.antt =====
-- The tables of ar724/db.py, SCHEMA_SQL, and `Database.cas_update`.
-- A row is a record and a table the list of its rows. Ids made by uuid4 are numbers: under one
-- prefix the texts have one length, so their order is that of the numbers. A time stamp is its
-- second, and its text has a fixed width, so texts compare as seconds do.
-- Left out are the tables that no modelled code reads or writes (`worker_slots`, `reviews`), columns
-- of which the same holds (`completed_at`, `summary`, paths and hashes of files, `metrics`), and
-- the foreign keys: a row is inserted for a run and an iteration that exist.

use ztrade_ares_7x.Base.{ℕ, String, Option, List}
use ztrade_ares_7x.Base.Int.{ℤ}

pub data RunStatus : Type 0 where
  created running paused waiting_approval completed failed cancelled scheduled_retry : RunStatus

pub record Run : Type 0 where
  pub id : ℕ
  pub goal : String
  pub status : RunStatus
  pub created_at : ℕ
  pub started_at : Option ℕ
  pub budget_cents : ℕ
  pub spent_cents : ℕ
  pub stop_reason : String
  pub config_hash : String
  pub daily_budget_cents : ℕ
  pub consecutive_discards : ℕ
  pub consecutive_blockeds : ℕ

-- `iterations.status` is free text: these are the values that the program writes or reads.
pub data IterStatus : Type 0 where
  queued running completed cancelled : IterStatus

pub record Iteration : Type 0 where
  pub id : ℕ
  pub run_id : ℕ
  pub index : ℕ
  pub status : IterStatus
  pub parent_best_hash : String
  pub selected_candidate_hash : Option String
  pub started_at : ℕ
  pub trace_id : ℕ

pub data PhaseStatus : Type 0 where
  queued running completed failed blocked vetoed discarded : PhaseStatus

pub record PhaseJob : Type 0 where
  pub id : ℕ
  pub run_id : ℕ
  pub iteration_id : ℕ
  pub phase : String
  pub role : String
  pub status : PhaseStatus
  pub slot_name : String
  pub claimed_by : Option ℕ
  pub attempt : ℕ
  pub lease_expires_at : Option ℕ
  pub last_heartbeat_at : Option ℕ
  pub error_class : String
  pub error_message : String

pub record Candidate : Type 0 where
  pub hash : String
  pub mutable_path : Option String
  pub created_at : ℕ

-- `score` is a whole number of a fixed unit.
pub record Evaluation : Type 0 where
  pub id : ℕ
  pub candidate_hash : String
  pub decision : String
  pub score : ℤ
  pub error_message : String
  pub created_at : ℕ

pub data PromotionStatus : Type 0 where
  prepared applying committed failed : PromotionStatus

pub record Promotion : Type 0 where
  pub id : ℕ
  pub run_id : ℕ
  pub iteration_id : ℕ
  pub candidate_hash : String
  pub old_best_hash : Option String
  pub new_best_hash : String
  pub idempotency_key : String
  pub status : PromotionStatus
  pub git_commit : Option String
  pub promoted_at : ℕ

pub record Approval : Type 0 where
  pub id : ℕ
  pub requested_by : String
  pub reason : String
  pub risk_tier : String
  pub status : String
  pub created_at : ℕ

-- The id and the payload of an event are left out: nothing in the program reads them.
pub record Event : Type 0 where
  pub event_type : String
  pub severity : String
  pub run_id : Option ℕ
  pub iteration_id : Option ℕ
  pub phase_job_id : Option ℕ
  pub created_at : ℕ

pub record CostEvent : Type 0 where
  pub id : ℕ
  pub run_id : Option ℕ
  pub phase_job_id : Option ℕ
  pub provider : String
  pub model : String
  pub input_tokens : ℕ
  pub output_tokens : ℕ
  pub cache_read_tokens : ℕ
  pub cache_write_tokens : ℕ
  pub cost_cents : ℕ
  pub created_at : ℕ

-- A row of `service_locks`. Its holder text is "controller:" before a run id: the run id is kept.
pub record Lock : Type 0 where
  pub holder : ℕ
  pub lease_expires_at : ℕ
  pub last_heartbeat_at : ℕ

pub record EvalResult : Type 0 where
  pub id : ℕ
  pub run_id : Option ℕ
  pub name : String
  pub result : String
  pub created_at : ℕ

-- `service_locks` has the name as primary key, and the program uses two names.
pub record Db : Type 0 where
  pub runs : List Run
  pub iterations : List Iteration
  pub phase_jobs : List PhaseJob
  pub candidates : List Candidate
  pub evaluations : List Evaluation
  pub promotions : List Promotion
  pub approvals : List Approval
  pub events : List Event
  pub cost_events : List CostEvent
  pub controller_lock : Option Lock
  pub promotion_lock : Option Lock
  pub eval_results : List EvalResult
