-- ===== src/System/Reach.antt =====
-- What holds of the database after any steps.
use ztrade_ares_7x.Base.{
  Bool-cases, any, select, find, greatest, ℕ, String, ◌≡◌, refl, sym, ◌∙◌, subst, inl, inr, Option,
  none, some, str_eq,
}
use ztrade_ares_7x.Base.Result.{>>=-eq-ok, Result, err, ok}
use ztrade_ares_7x.Db.{Iteration, EvalResult, Db}
use ztrade_ares_7x.Events.{
  emit_event, is_valid_event_type, is_valid_severity, results, record_eval_result,
}
use ztrade_ares_7x.Files.{Files}
use ztrade_ares_7x.Settings.{audit, change, prepared, Answers, LoopConfig, Setting}
use ztrade_ares_7x.Settings.Changes.{audited, audit-ok}
use ztrade_ares_7x.Approvals.{
  promotion_set_baseline, allowlist_for, mcp_allowlist, safety_policy_reload, Action, adding,
  removing, listing,
}
use ztrade_ares_7x.Jobs.{beat, in_flight, cancel_found, iter_cancel}
use ztrade_ares_7x.Runs.{run_is_running, iter_next}
use ztrade_ares_7x.Runs.Start.{up}
use ztrade_ares_7x.Evaluator.{
  write_inputs, record_evaluator, read_outputs, settle, run_evaluator, Ran, EvaluatorResult,
}
use ztrade_ares_7x.Budget.Cost.{record_cost}
use ztrade_ares_7x.Conductor.Tick.{tick-promotions}
use ztrade_ares_7x.Conductor.Logged.{tick-Extends}
use ztrade_ares_7x.System.{
  Step, Steps, ticked, beaten, upped, paused, resumed, halted, nexted, cancelled, watched,
  evaluated, charged, graded, configured, rebased, allowed, reloaded, nothing, followed,
}
use ztrade_ares_7x.System.Frame.{
  Frame-refl, Frame-trans, some-inj, ok-inj, insert-Frame, quiet-Frame, pause-Frame, resume-Frame,
  halt-Frame, cron_tick-Frame, start_with-Frame, next_of-Frame, Frame,
}

cancel_found-Frame :
    (db : Db) (last : Option Iteration) (after : Db)
    → cancel_found db last ≡ some after
    → Frame db after
cancel_found-Frame db none after h = absurd cc
cancel_found-Frame db (some last) after h =
    subst (Frame db) (some-inj _ after h) (quiet-Frame db _ refl refl)

db_of : Db → Result (Db × EvaluatorResult) → Db
db_of db (err e) = db
db_of db (ok (after, result)) = after

settle-Frame :
    (db : Db) (hash : String) (id now : ℕ) (ran : Ran) (code : Option ℕ) (after : Db)
    (result : EvaluatorResult)
    → settle db hash id now ran code ≡ ok (after, result)
    → Frame db after
unfolding record_evaluator db_of
settle-Frame db hash id now ran none after result h =
    subst (λ x. Frame db (db_of db x)) h (quiet-Frame db _ refl refl)
settle-Frame db hash id now ran (some code) after result h =
    let (read, _, e) = >>=-eq-ok (read_outputs ran.dir.metrics ran.dir.status) _ h in
    subst (λ x. Frame db (db_of db x)) e (quiet-Frame db _ refl refl)

record_eval_result-Frame :
    (db : Db) (row : EvalResult) (after : Db)
    → record_eval_result db row ≡ ok after
    → Frame db after
unfolding record_eval_result
record_eval_result-Frame db row after h = elim (Bool-cases (any (str_eq row.result) results)) [
  | inl e ↦ subst (Frame db) (ok-inj _ after (rw e at h)) (quiet-Frame db _ refl refl)
  | inr e ↦ absurd (cc (rw e at h))
]

audit-Frame :
    (db : Db) (a : Answers) (old : LoopConfig) (setting : Setting) (now : ℕ)
    (r : Files × Result (Unit {0})) (after : Db)
    → (audit db a old setting now r).1 ≡ ok after
    → Frame db after
unfolding is_valid_event_type is_valid_severity
audit-Frame db a old setting now (files, err e) after h = absurd cc
audit-Frame db a old setting now (files, ok u) after h =
    let (_, _, emitted) =
      >>=-eq-ok (prepared a setting old) (λ _. emit_event db (audited setting now)) h in
    subst (Frame db) (ok-inj _ after (sym (audit-ok db setting now) ∙ emitted))
      (insert-Frame db db (audited setting now) refl refl (λ other. audit-ok other setting now))

allowlist_for-Frame :
    (db : Db) (id : ℕ) (action : Action) (server : Option String) (now : ℕ) (after : Db)
    → allowlist_for db id action server now ≡ some after
    → Frame db after
allowlist_for-Frame db id action none now after h = absurd cc
allowlist_for-Frame db id action (some server) now after h = elim (Bool-cases (str_eq server "")) [
  | inl e ↦ absurd (cc (rw e at h))
  | inr e ↦ subst (Frame db) (some-inj _ after (rw e at h)) (quiet-Frame db _ refl refl)
]

mcp_allowlist-Frame :
    (db : Db) (id : ℕ) (action : Action) (server : Option String) (now : ℕ) (after : Db)
    → mcp_allowlist db id action server now ≡ some after
    → Frame db after
unfolding mcp_allowlist
mcp_allowlist-Frame db id listing server now after h =
    subst (Frame db) (some-inj db after h) (Frame-refl db)
mcp_allowlist-Frame db id adding server now after h =
    allowlist_for-Frame db id adding server now after h
mcp_allowlist-Frame db id removing server now after h =
    allowlist_for-Frame db id removing server now after h

step-Frame : (db after : Db) → Step db after → Frame db after
unfolding promotion_set_baseline safety_policy_reload up change iter_next iter_cancel run_evaluator
    beat record_cost
step-Frame db after (ticked roles_dir run_id worker now) = record {
  promotions = tick-promotions db roles_dir run_id worker now;
  events = tick-Extends db roles_dir run_id worker now;
}
step-Frame db after (beaten phase_job_id now) = quiet-Frame db _ refl refl
step-Frame db after (upped ids goal now) =
    start_with-Frame db (find run_is_running db.runs) ids goal now
step-Frame db after (paused now) = pause-Frame db now
step-Frame db after (resumed now) = resume-Frame db now
step-Frame db after (halted reason now _ h) = halt-Frame db reason now after h
step-Frame db after (nexted iter_id trace_id job_id now _ h) =
    next_of-Frame db (find run_is_running db.runs) iter_id trace_id job_id now after h
step-Frame db after (cancelled _ h) =
    cancel_found-Frame db (greatest (λ i. i.index) (select (λ i. in_flight i.status) db.iterations))
      after h
step-Frame db after (watched now) = cron_tick-Frame db now
step-Frame db after (evaluated hash file script dir id now _ result h) =
    let ran = script (write_inputs file dir) in
    settle-Frame db hash id now ran ran.code after result h
step-Frame db after (graded row _ h) = record_eval_result-Frame db row after h
step-Frame db after (configured json w a files env setting now _ h) =
    audit-Frame db a _ setting now _ after h
step-Frame db after (rebased id iter_tag now) = quiet-Frame db _ refl refl
step-Frame db after (allowed id action server now _ h) =
    mcp_allowlist-Frame db id action server now after h
step-Frame db after (reloaded cache id now) = quiet-Frame db _ refl refl
step-Frame db after (charged c scale u id now) = quiet-Frame db _ refl refl

-- Whatever the processes do, in whichever order and however often: the table of promotions stays
-- as it was, so that no candidate is ever promoted, and the table of events is only appended to,
-- with events that `emit_event` takes.
pub Steps-Frame : (db after : Db) → Steps db after → Frame db after
Steps-Frame db after nothing = Frame-refl db
Steps-Frame db after (followed {mid} before step) =
    Frame-trans db mid after (Steps-Frame db mid before) (step-Frame mid after step)
