-- ===== src/System.antt =====
-- The processes of the program on one database: in any order, each takes a step. The commands are
-- those of ar724/cli.py; `tick` and the claims of jobs are of ar724/conductor.py.
pub mod Frame
pub mod Reach
pub mod Examples
use ztrade_ares_7x.Base.{any, ℕ, String, ◌≡◌, true, Option, some, List}
use ztrade_ares_7x.Base.Result.{ok}
use ztrade_ares_7x.Db.{EvalResult, Db}
use ztrade_ares_7x.Events.{record_eval_result}
use ztrade_ares_7x.Files.{Files, World}
use ztrade_ares_7x.Settings.{change, Answers, Json, Setting}
use ztrade_ares_7x.Approvals.{promotion_set_baseline, mcp_allowlist, safety_policy_reload, Action}
use ztrade_ares_7x.Jobs.{beat, iter_cancel}
use ztrade_ares_7x.Runs.{pause, resume, halt, iter_next}
use ztrade_ares_7x.Runs.Start.{up, Ids}
use ztrade_ares_7x.Runs.Watch.{cron_tick}
use ztrade_ares_7x.Evaluator.{run_evaluator, CandidateFile, RunDir, Ran, EvaluatorResult}
use ztrade_ares_7x.Budget.Cost.{record_cost, Config, Usage}
use ztrade_ares_7x.Roles.{RoleFile}
use ztrade_ares_7x.Conductor.{tick}

-- One call of one process. A tick that raises has written what it had written until then; a
-- command that exits with an error writes nothing.
pub data Step (db : Db) : Db → Type 0 where
  ticked :
      (roles_dir : Option (List RoleFile))
      → (run_id worker now : ℕ) → Step db (tick db roles_dir run_id worker now).0
  beaten : (phase_job_id now : ℕ) → Step db (beat db phase_job_id now)
  upped : (ids : Ids) → (goal : String) → (now : ℕ) → Step db (up db ids goal now).0
  paused : (now : ℕ) → Step db (pause db now)
  resumed : (now : ℕ) → Step db (resume db now)
  halted :
      (reason : String)
      → (now : ℕ) → (after : Db) → halt db reason true now ≡ some after
      → Step db after
  nexted :
      (iter_id trace_id : ℕ)
      → (job_id : ℕ → ℕ) → (now : ℕ) → (after : Db)
      → iter_next db iter_id trace_id job_id now ≡ some after
      → Step db after
  cancelled : (after : Db) → iter_cancel db ≡ some after → Step db after
  watched : (now : ℕ) → Step db (cron_tick db now)
  evaluated :
      (hash : String)
      → (file : Option CandidateFile) → (script : RunDir → Ran) → (dir : RunDir) → (id now : ℕ)
      → (after : Db) → (result : EvaluatorResult)
      → (run_evaluator db hash file script dir id now).1 ≡ ok (after, result)
      → Step db after
  charged :
      (c : Config)
      → (scale : ℕ) → (u : Usage) → (id now : ℕ) → Step db (record_cost c scale db u id now).0
  graded : (row : EvalResult) → (after : Db) → record_eval_result db row ≡ ok after → Step db after
  configured :
      (json : Json)
      → (w : World) → (a : Answers) → (files : Files) → (env : Option String) → (setting : Setting)
      → (now : ℕ) → (after : Db) → (change json w a files env db setting now).1 ≡ ok after
      → Step db after
  rebased :
      (id : ℕ)
      → (iter_tag : String) → (now : ℕ) → Step db (promotion_set_baseline db id iter_tag now)
  allowed :
      (id : ℕ)
      → (action : Action) → (server : Option String) → (now : ℕ) → (after : Db)
      → mcp_allowlist db id action server now ≡ some after
      → Step db after
  reloaded :
      (cache : Option String) → (id now : ℕ) → Step db (safety_policy_reload db cache id now).0

-- Any number of steps.
pub data Steps (db : Db) : Db → Type 0 where
  nothing : Steps db db
  followed : {mid after : Db} → Steps db mid → Step mid after → Steps db after
