-- ===== src/Runs/Status.antt =====
-- The status of runs under the commands `pause`, `resume` and `halt` of ar724/cli.py.
use ztrade_ares_7x.Base.{
  Bool-cases, any, In, update_where, count, ℕ, zero, suc, String, ◌≡◌, refl, ◌∙◌, ap, inl, inr,
  Bool, true, false, Option, none, some, List, [], ◌∷◌, arith,
}
use ztrade_ares_7x.Db.{RunStatus, Run, Event, Db}
use ztrade_ares_7x.Events.{insert_event, global_event}
use ztrade_ares_7x.Runs.{
  run_is_running, run_is_paused, with_status, log_change, pause, resume, halt,
}

-- What an operator may type.
pub data Command : Type 0 where
  pausing resuming : (now : ℕ) → Command
  halting : String → Bool → (now : ℕ) → Command

abbrev or_same : Db → Option Db → Db
or_same db none = db
or_same db (some after) = after

abbrev pub command : Db → Command → Db
command db (pausing now) = pause db now
command db (resuming now) = resume db now
command db (halting reason force now) = or_same db (halt db reason force now)

abbrev pub commands : Db → List Command → Db
commands db [] = db
commands db (c ∷ cs) = commands (command db c) cs

log_change-runs : (db : Db) (n : ℕ) (e : Event) → (log_change db n e).runs ≡ db.runs
unfolding insert_event
log_change-runs db zero e = refl
log_change-runs db (suc n) e = refl

abbrev pub is_failed : Run → Bool
is_failed r = elim (r.status) [ RunStatus.failed ↦ true | _ ↦ false ]

-- The failed runs of the old table are in the new one, as they were.
abbrev pub Keeps : List Run → List Run → Type 0
Keeps old new = (r : Run) → In r old → is_failed r ≡ true → In r new

Keeps-update_where :
    (p : Run → Bool) (f : Run → Run)
    → ((r : Run) → p r ≡ true → is_failed r ≡ false)
    → (rs : List Run) → Keeps rs (update_where p f rs)
Keeps-update_where p f ne [] r m h = m
Keeps-update_where p f ne (x ∷ xs) r (inl e) h = elim (Bool-cases (p x)) [
  | inl t ↦ cc (ne x t, h, e)
  | inr t ↦ rw t (inl e)
]
Keeps-update_where p f ne (x ∷ xs) r (inr m) h = inr (Keeps-update_where p f ne xs r m h)

running_not_failed : (r : Run) → run_is_running r ≡ true → is_failed r ≡ false
running_not_failed r h = ground arith

paused_not_failed : (r : Run) → run_is_paused r ≡ true → is_failed r ≡ false
paused_not_failed r h = ground arith

command-Keeps : (db : Db) (c : Command) → Keeps db.runs (command db c).runs
unfolding pause resume halt insert_event
command-Keeps db (pausing now) =
    rw (log_change-runs _ (count run_is_running db.runs) (global_event "run_paused" "info" now))
      (Keeps-update_where run_is_running (with_status RunStatus.paused) running_not_failed db.runs)
command-Keeps db (resuming now) =
    rw (log_change-runs _ (count run_is_paused db.runs) (global_event "run_resumed" "info" now))
      (Keeps-update_where run_is_paused (with_status RunStatus.running) paused_not_failed db.runs)
command-Keeps db (halting reason false now) = λ r m h. m
command-Keeps db (halting reason true now) =
    Keeps-update_where run_is_running
      (λ r. record r { status = RunStatus.failed; stop_reason = reason }) running_not_failed db.runs

-- A failed run, such as a halted one, stays in the table as it is under whatever sequence of
-- pauses, resumptions and halts: no resumption brings it back.
commands-failed :
    (db : Db) (cs : List Command) (r : Run)
    → In r db.runs
    → is_failed r ≡ true
    → In r (commands db cs).runs
commands-failed db [] r m h = m
commands-failed db (c ∷ cs) r m h = commands-failed (command db c) cs r (command-Keeps db c r m h) h

paused_resumed :
    (rs : List Run)
    → any run_is_paused rs ≡ false
    → update_where run_is_paused
        (with_status RunStatus.running)
        (update_where run_is_running (with_status RunStatus.paused) rs)
      ≡ rs
paused_resumed [] h = refl
paused_resumed (r ∷ rs) h = ground (arith, paused_resumed rs)

-- A pause and then a resumption give back the table of runs, if none was paused before.
resume-pause :
    (db : Db) (now later : ℕ)
    → any run_is_paused db.runs ≡ false
    → (resume (pause db now) later).runs ≡ db.runs
unfolding pause resume insert_event
resume-pause db now later h =
    log_change-runs _ _ (global_event "run_resumed" "info" later)
    ∙ ap (update_where run_is_paused (with_status RunStatus.running))
        (log_change-runs _ (count run_is_running db.runs) (global_event "run_paused" "info" now))
    ∙ paused_resumed db.runs h
