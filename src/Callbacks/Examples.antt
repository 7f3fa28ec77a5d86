-- ===== src/Callbacks/Examples.antt =====
-- An event of the severity `error`, and a callback that raises before the board's.
use ztrade_ares_7x.Base.{if◌then◌else◌, ◌≡◌, true, not, ◌&&◌, none, some, [], ◌∷◌, ◌++◌, str_eq}
use ztrade_ares_7x.Base.Result.{value_error, err, ok}
use ztrade_ares_7x.Callbacks.{
  Callback, dispatch, get_or, is_high, alert_of, status_of, tmux_status, live_callbacks, Event,
  World,
}
use ztrade_ares_7x.Callbacks.Dispatch.{dispatch-calls, dispatch_live}

abbrev halted : Event
halted = record {
  event_type = some "run_halted";
  severity = some "error";
  run_id = some "run-1";
  iteration_id = none;
  phase_job_id = none;
  created_at = some "2026-01-01T00:00:00Z";
}

abbrev world : World
world = record {
  webhook = "https://alerts";
  post_succeeds = true;
  posted = [];
  mkdir_succeeds = true;
  open_succeeds = true;
  board = none;
}

abbrev raising : Callback
raising event w = (err value_error, w)

dispatch_live_test :
    let after = (dispatch live_callbacks halted world).1 in
    (after.posted ≡ (
      if is_high (get_or "info" halted.severity)
        && not (str_eq world.webhook "")
        && world.post_succeeds
      then world.posted ++ alert_of halted world ∷ []
      else world.posted))
    × (after.board ≡ (
        if world.mkdir_succeeds && world.open_succeeds
        then some (status_of halted)
        else world.board))
dispatch_live_test = dispatch_live halted world

dispatch-calls_test :
    (dispatch ((("r", raising) ∷ []) ++ ("board", tmux_status) ∷ []) halted world).0 ≡ ok tt
dispatch-calls_test = (dispatch-calls (("r", raising) ∷ []) [] "board" tmux_status halted world).0
