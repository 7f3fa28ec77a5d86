-- ===== src/System/Frame.antt =====
-- The table of promotions and the log, command by command.
use ztrade_ares_7x.Base.{
  if◌then◌else◌, Bool-cases, All, select, count, ℕ, zero, suc, String, ◌≡◌, refl, sym, ◌∙◌, subst,
  inl, inr, true, Option, none, some, List, [], ◌∷◌, ◌++◌, map,
}
use ztrade_ares_7x.Base.Result.{ok}
use ztrade_ares_7x.Db.{Run, Event, Db}
use ztrade_ares_7x.Events.{
  is_valid_event_type, is_valid_severity, insert_event, run_event, global_event, iter_event,
}
use ztrade_ares_7x.Events.Log.{
  IsAccepted, accepted, Extends-refl, Extends-one, Extends-trans, Extends,
}
use ztrade_ares_7x.Settings.{changed}
use ztrade_ares_7x.Iterations.{create_iteration, enqueue_phase_jobs}
use ztrade_ares_7x.Iterations.Logged.{enqueue_phase_jobs-logged}
use ztrade_ares_7x.Runs.{
  create_run, start_run, run_is_running, run_is_paused, log_change, pause, resume, halt, next_of,
}
use ztrade_ares_7x.Runs.Start.{default_budget_cents, start_with, Ids}
use ztrade_ares_7x.Runs.Watch.{tripped, unheld, cron_tick, cron_tick_lem}

-- The promotions are the same, and the events are a log.
pub record Frame (before after : Db) : Type 0 where
  pub promotions : after.promotions ≡ before.promotions
  pub events : Extends before.events after.events

pub Frame-refl : (db : Db) → Frame db db
Frame-refl db = record { promotions = refl; events = Extends-refl db.events }

pub Frame-trans : (a b c : Db) → Frame a b → Frame b c → Frame a c
Frame-trans a b c h k = record {
  promotions = k.promotions ∙ h.promotions;
  events = Extends-trans a.events b.events c.events h.events k.events;
}

pub some-inj : (a b : Db) → some a ≡ some b → a ≡ b
some-inj a b h = cc

pub ok-inj : (a b : Db) → ok a ≡ ok b → a ≡ b
ok-inj a b h = cc

-- One event is written, and tables other than those of the two are changed at will.
pub insert-Frame :
    (before changed : Db) (e : Event)
    → changed.promotions ≡ before.promotions
    → changed.events ≡ before.events
    → IsAccepted e
    → Frame before (insert_event changed e)
unfolding insert_event
insert-Frame before changed e p l h = record {
  promotions = p;
  events =
      subst (λ log. Extends before.events (log ++ e ∷ [])) (sym l) (Extends-one before.events e h);
}

pub quiet-Frame :
    (before after : Db)
    → after.promotions ≡ before.promotions
    → after.events ≡ before.events
    → Frame before after
quiet-Frame before after p l = record {
  promotions = p;
  events = subst (Extends before.events) (sym l) (Extends-refl before.events);
}

log_change-Frame :
    (before changed : Db) (n : ℕ) (e : Event)
    → changed.promotions ≡ before.promotions
    → changed.events ≡ before.events
    → IsAccepted e
    → Frame before (log_change changed n e)
log_change-Frame before changed zero e p l h = quiet-Frame before changed p l
log_change-Frame before changed (suc n) e p l h = insert-Frame before changed e p l h

create_iteration-Frame :
    (db : Db) (iter_id trace_id run_id index : ℕ) (best : String) (now : ℕ)
    → Frame db (create_iteration db iter_id trace_id run_id index best now)
unfolding create_iteration is_valid_event_type is_valid_severity
create_iteration-Frame db iter_id trace_id run_id index best now =
    insert-Frame db _ (iter_event "iter_queued" "info" run_id iter_id now) refl refl
      (accepted _ refl refl)

enqueue-Frame :
    (db : Db) (job_id : ℕ → ℕ) (run_id iteration_id now : ℕ)
    → Frame db (enqueue_phase_jobs db job_id run_id iteration_id now).0
enqueue-Frame db job_id run_id iteration_id now =
    let (same, log) = enqueue_phase_jobs-logged db job_id run_id iteration_id now in
    record { promotions = same; events = log }

pub pause-Frame : (db : Db) (now : ℕ) → Frame db (pause db now)
unfolding pause is_valid_event_type is_valid_severity
pause-Frame db now =
    log_change-Frame db _ (count run_is_running db.runs) (global_event "run_paused" "info" now) refl
      refl (accepted _ refl refl)

pub resume-Frame : (db : Db) (now : ℕ) → Frame db (resume db now)
unfolding resume is_valid_event_type is_valid_severity
resume-Frame db now =
    log_change-Frame db _ (count run_is_paused db.runs) (global_event "run_resumed" "info" now) refl
      refl (accepted _ refl refl)

pub halt-Frame :
    (db : Db) (reason : String) (now : ℕ) (after : Db)
    → halt db reason true now ≡ some after
    → Frame db after
unfolding halt is_valid_event_type is_valid_severity
halt-Frame db reason now after h =
    subst (Frame db) (some-inj _ after h) (
      insert-Frame db _ (global_event "run_halted" "critical" now) refl refl (accepted _ refl refl))

pub cron_tick-Frame : (db : Db) (now : ℕ) → Frame db (cron_tick db now)
unfolding is_valid_event_type is_valid_severity
cron_tick-Frame db now =
    subst (Frame db) (sym (cron_tick_lem db now))
      (record { promotions = refl; events = tripped_all })
  where
    rows : List Run
    rows = select run_is_running db.runs

    all_tripped : (rs : List Run) → All IsAccepted (map (tripped now) rs)
    all_tripped [] = tt
    all_tripped (r ∷ rs) = (accepted (tripped now r) refl refl, all_tripped rs)

    tripped_all :
        Extends db.events
          (db.events ++ (if unheld db.controller_lock now then map (tripped now) rows else []))
    tripped_all = elim (Bool-cases (unheld db.controller_lock now)) [
      | inl e ↦ rw e (record {
        new = map (tripped now) rows;
        appended = refl;
        all_accepted = all_tripped rows;
      })
      | inr e ↦ rw e (record { new = []; appended = refl; all_accepted = tt })
    ]

create_run-Frame :
    (db : Db) (run_id : ℕ) (goal : String) (budget daily : ℕ) (hash : String) (now : ℕ)
    → Frame db (create_run db run_id goal budget daily hash now)
unfolding create_run is_valid_event_type is_valid_severity
create_run-Frame db run_id goal budget daily hash now =
    insert-Frame db _ (run_event "run_created" "info" run_id now) refl refl (accepted _ refl refl)

start_run-Frame : (db : Db) (run_id now : ℕ) → Frame db (start_run db run_id now)
unfolding start_run is_valid_event_type is_valid_severity
start_run-Frame db run_id now =
    insert-Frame db _ (run_event "run_started" "info" run_id now) refl refl (accepted _ refl refl)

-- A new iteration and its jobs.
iteration-Frame :
    (db : Db) (job_id : ℕ → ℕ) (iter_id trace_id run_id index now : ℕ)
    → Frame db
        (enqueue_phase_jobs
          (create_iteration db iter_id trace_id run_id index "" now)
          job_id
          run_id
          iter_id
          now).0
iteration-Frame db job_id iter_id trace_id run_id index now =
    let created = create_iteration db iter_id trace_id run_id index "" now in
    Frame-trans db created _ (create_iteration-Frame db iter_id trace_id run_id index "" now)
      (enqueue-Frame created job_id run_id iter_id now)

pub start_with-Frame :
    (db : Db) (running : Option Run) (ids : Ids) (goal : String) (now : ℕ)
    → Frame db (start_with db running ids goal now).0
start_with-Frame db (some existing) ids goal now = Frame-refl db
start_with-Frame db none ids goal now =
    let created = create_run db ids.run_id goal default_budget_cents default_budget_cents "" now in
    let started = start_run created ids.run_id now in
    Frame-trans db created _
      (create_run-Frame db ids.run_id goal default_budget_cents default_budget_cents "" now)
      (Frame-trans created started _ (start_run-Frame created ids.run_id now)
        (iteration-Frame started ids.job_id ids.iter_id ids.trace_id ids.run_id 1 now))

pub next_of-Frame :
    (db : Db) (run : Option Run) (iter_id trace_id : ℕ) (job_id : ℕ → ℕ) (now : ℕ) (after : Db)
    → next_of db run iter_id trace_id job_id now ≡ some after
    → Frame db after
next_of-Frame db none iter_id trace_id job_id now after h = absurd cc
next_of-Frame db (some run) iter_id trace_id job_id now after h =
    subst (Frame db) (some-inj _ after h) (iteration-Frame db job_id iter_id trace_id run.id _ now)
