-- ===== src/Spawner/Examples.antt =====
-- The theorems on the texts of ar724/spawner.py at values with quotes.
use ztrade_ares_7x.Base.{◌≡◌, refl, Bool, some, List, [], ◌∷◌, ◌++◌}
use ztrade_ares_7x.Base.Result.{ok}
use ztrade_ares_7x.Base.Texts.{Text, codes}
use ztrade_ares_7x.Spawner.{quote, removal, write_env_file, keepalive_loop, build_keepalive_script}
use ztrade_ares_7x.Spawner.Shell.{is_name, read, Assigns, bare}
use ztrade_ares_7x.Spawner.Words.{Chain}
use ztrade_ares_7x.Spawner.Scripts.{write_env_file-Assigns, build_keepalive_script-Assigns}
use ztrade_ares_7x.Spawner.Launch.{
  spawn_worker, typed, launch_commands, spawn_worker-Chain, SpawnResult,
}
use ztrade_ares_7x.Tmux.{target, panes_format}
use ztrade_ares_7x.Tmux.Server.{Sessions, exe, server}

-- `str.isidentifier`, for names in ASCII
abbrev anything : Text → Bool
anything name = is_name name

-- a value with both quotes, a dollar sign and a blank
abbrev vars : List (Text × Text)
vars = (codes "KEY", codes "it's $5 \"now\"") ∷ ((codes "MODE", codes "live") ∷ [])

write_env_file-Assigns_example :
    Assigns
      (codes "export ")
      (write_env_file anything (codes "/tmp/ares-env-1.sh") vars)
      vars
      (removal (codes "/tmp/ares-env-1.sh"))
    × (read bare (quote (codes "/tmp/ares-env-1.sh") ++ 10 ∷ [])
        ≡ some (codes "/tmp/ares-env-1.sh", []))
write_env_file-Assigns_example =
    write_env_file-Assigns anything (codes "/tmp/ares-env-1.sh") vars ((λ h. h), ((λ h. h), tt))

build_keepalive_script-Assigns_example :
    Assigns []
      (build_keepalive_script (codes "builder") (codes "claude -p 'go'") (codes "claude"))
      ((codes "__ct_agent", codes "builder")
        ∷ ((codes "__ct_cmd", codes "claude -p 'go'")
            ∷ ((codes "__ct_resume", codes "claude") ∷ [])))
      keepalive_loop
build_keepalive_script-Assigns_example =
    build_keepalive_script-Assigns (codes "builder") (codes "claude -p 'go'") (codes "claude") refl
      refl

spawn_worker-Chain_example :
    (result : SpawnResult) × (s' : Sessions) × (spawn_worker server
        (codes "s")
        (codes "builder")
        (codes "claude")
        (codes "/tmp/e f")
        (some (codes "/my work"))
        (codes "claude")
        []
      ≡ (ok result, s'))
    × (result.tmux_target ≡ codes "s:builder")
    × (s'
        ≡ (server.run (exe ∷ panes_format (target (codes "s") (codes "builder"))) (
            typed server exe
              (target (codes "s") (codes "builder"))
              result.keepalive_cmd
              (typed server exe (target (codes "s") (codes "builder")) (codes "clear") []))).1)
    × Chain
        (result.keepalive_cmd ++ 10 ∷ [])
        (launch_commands
          (some (codes "/my work"))
          (codes "/tmp/e f")
          (build_keepalive_script (codes "builder") (codes "claude") (codes "claude")))
        []
spawn_worker-Chain_example =
    spawn_worker-Chain server exe (codes "s") (codes "builder") (codes "claude") (codes "/tmp/e f")
      (codes "claude") (some (codes "/my work")) [] [] refl (λ args s. refl)
