-- ===== src/Boot/Examples.antt =====
-- The first `up` of a project, on a machine whose tmux has no session.
use ztrade_ares_7x.Base.{ℕ, ◌+◌, String, ◌≡◌, refl, true, none, [], ◌∷◌}
use ztrade_ares_7x.Base.Result.{ok, err, runtime_error}
use ztrade_ares_7x.Base.Texts.{Text, codes}
use ztrade_ares_7x.Db.{Db}
use ztrade_ares_7x.Locks.Examples.{empty}
use ztrade_ares_7x.Runs.Start.{Ids, already_running}
use ztrade_ares_7x.Tmux.{session_name}
use ztrade_ares_7x.Tmux.Server.{Sessions, windows_of, no_colon, exe, server, server-IsTmux}
use ztrade_ares_7x.Boot.{up_command, reported}
use ztrade_ares_7x.Boot.Failing.{up_command-stuck}

abbrev ids : Ids
ids = record { run_id = 4; iter_id = 5; trace_id = 6; job_id = λ k. 7 + k }

abbrev id_text : ℕ → Text
id_text n = (48 + n) ∷ []

up_command-stuck_example :
    (after : Db) × (s' : Sessions) × (up_command server id_text
        (codes "/work")
        true
        empty
        ids
        "goal"
        100
        []
      ≡ (after, (err runtime_error, s')))
    × (windows_of s' (session_name (id_text 4)) ≡ none)
    × ((ids' : Ids) (goal' : String) (later : ℕ) (s'' : Sessions)
        → up_command server id_text (codes "/work") true after ids' goal' later s''
          ≡ (after, (ok (reported (already_running 4)), s'')))
unfolding session_name
up_command-stuck_example =
    up_command-stuck server exe windows_of no_colon server-IsTmux id_text (codes "/work") empty ids
      "goal" 100 [] refl refl refl
