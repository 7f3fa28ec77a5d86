-- ===== src/Boot/Failing.antt =====
-- What `up` of ar724/cli.py leaves where its tmux session cannot be made.
use ztrade_ares_7x.Base.{find, ℕ, String, ◌≡◌, Bool, true, Option, none, List}
use ztrade_ares_7x.Base.Result.{ok, err, runtime_error}
use ztrade_ares_7x.Base.Texts.{Text, codes}
use ztrade_ares_7x.Db.{Db}
use ztrade_ares_7x.Runs.{run_is_running}
use ztrade_ares_7x.Runs.Start.{up, up-again, up-newly, Ids, already_running, newly_started}
use ztrade_ares_7x.Tmux.{session_name, Host}
use ztrade_ares_7x.Tmux.Laws.{IsTmux}
use ztrade_ares_7x.Tmux.Create.{create_session-fresh}
use ztrade_ares_7x.Boot.{up_command, reported, with_session}

module _ (H : Host) (exe : Text) (windows : H.State → Text → Option (List Text))
    (is_name : Text → Bool) (T : IsTmux H exe windows is_name) (id_text : ℕ → Text)
    (working_dir : Text) where
  -- Where tmux is as IsTmux has it, no run is running, and the session's name of the new run is a
  -- proper one that no session has, `up` raises RuntimeError and leaves no such session; but the run
  -- is in the database as running, so that every later `up`, whatever its arguments and the state of
  -- tmux, reports that it is running and does nothing.
  pub up_command-stuck :
      (db : Db) (ids : Ids) (goal : String) (now : ℕ) (s : H.State)
      → find run_is_running db.runs ≡ none
      → is_name (session_name (id_text ids.run_id)) ≡ true
      → windows s (session_name (id_text ids.run_id)) ≡ none
      → (after : Db) × (s' : H.State) × (up_command H id_text working_dir true db ids goal now s
          ≡ (after, (err runtime_error, s')))
        × (windows s' (session_name (id_text ids.run_id)) ≡ none)
        × ((ids' : Ids) (goal' : String) (later : ℕ) (s'' : H.State)
            → up_command H id_text working_dir true after ids' goal' later s''
              ≡ (after, (ok (reported (already_running ids.run_id)), s'')))
  unfolding up_command
  up_command-stuck db ids goal now s idle proper fresh =
      let (s', raised, gone) =
        create_session-fresh H exe windows is_name T (id_text ids.run_id) working_dir
          (codes "ar724 conductor") (codes "ar724 board") (codes "tail -f .ares/events.jsonl")
          (codes "ar724 cron-tick") s proper fresh in
      let new = up-newly db ids goal now idle in
      let after = (up db ids goal now).0 in
      let failed : with_session H id_text working_dir (newly_started ids.run_id) s
          ≡ (err runtime_error, s') =
        rw raised in
      (
        after,
        s',
        rw (new, failed),
        gone,
        λ ids' goal' later s''. rw (up-again db ids ids' goal goal' now later, new),
      )
