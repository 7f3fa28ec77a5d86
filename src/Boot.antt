-- ===== src/Boot.antt =====
-- `up` of ar724/cli.py with its tmux session.
pub mod Failing
pub mod Init
pub mod Snapshots
pub mod Examples
use ztrade_ares_7x.Base.{ℕ, String, Bool, true, false}
use ztrade_ares_7x.Base.Result.{Result, Exception, ok, err, runtime_error, called_process_error}
use ztrade_ares_7x.Base.Texts.{Text, codes}
use ztrade_ares_7x.Db.{Db}
use ztrade_ares_7x.Runs.Start.{up, Ids, Started, already_running, newly_started}
use ztrade_ares_7x.Tmux.{Action, pure, ◌>>◌, call, create_session, Host}

-- `no_state` is the exit with status 1 where there is no .ares/state.db.
pub data Outcome : Type 0 where
  no_state : Outcome
  reported : Started → Outcome

module _ (H : Host) (id_text : ℕ → Text) (working_dir : Text) where
  -- the call of `create_session`, with its defaults, for a run that was started
  abbrev session_for : ℕ → Action H.State Text
  session_for run_id =
      create_session H (id_text run_id) working_dir (codes "ar724 conductor") (codes "ar724 board")
        (codes "tail -f .ares/events.jsonl") (codes "ar724 cron-tick")

  abbrev with_session : Started → Action H.State Outcome
  with_session (already_running run_id) = pure (reported (already_running run_id))
  with_session (newly_started run_id) = session_for run_id >> pure (reported (newly_started run_id))

  -- The database and tmux behind a call, which may have raised.
  unfoldable pub up_command :
      (has_state : Bool)
      → Db
      → Ids
      → (goal : String) → (now : ℕ) → H.State
      → Db × (Result Outcome × H.State)
  unfolding up create_session
  up_command false db ids goal now s = (db, (ok no_state, s))
  up_command true db ids goal now s =
      let (after, started) = up db ids goal now in (after, with_session started s)
