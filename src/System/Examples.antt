-- ===== src/System/Examples.antt =====
-- The theorem on the processes of the program at three steps from an empty database.
use ztrade_ares_7x.Base.{◌+◌, none}
use ztrade_ares_7x.Db.{Db}
use ztrade_ares_7x.Locks.Examples.{empty}
use ztrade_ares_7x.Runs.{pause}
use ztrade_ares_7x.Runs.Start.{up, Ids}
use ztrade_ares_7x.Conductor.{tick}
use ztrade_ares_7x.System.{Steps, ticked, upped, paused, nothing, followed}
use ztrade_ares_7x.System.Frame.{Frame}
use ztrade_ares_7x.System.Reach.{Steps-Frame}

abbrev first_run : Ids
first_run = record { run_id = 1; iter_id = 2; trace_id = 3; job_id = λ k. 10 + k }

-- a run is started, its controller ticks, and the run is paused
abbrev paused_run : Db
paused_run = pause (tick (up empty first_run "goal" 100).0 none 1 7 105).0 110

three-Steps : Steps empty paused_run
three-Steps =
    followed (followed (followed nothing (upped first_run "goal" 100)) (ticked none 1 7 105))
      (paused 110)

Steps-Frame_example : Frame empty paused_run
Steps-Frame_example = Steps-Frame empty paused_run three-Steps
