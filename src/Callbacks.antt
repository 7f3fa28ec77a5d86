-- ===== src/Callbacks.antt =====
-- ar724/live_callbacks/__init__.py: the registry, `dispatch` and the two callbacks. An alert is kept
-- as its parts, without the layout of the card. Of the outside there are the environment, whether
-- a call of the operating system succeeds, what was posted, and the board's file.
pub mod Dispatch
pub mod Examples
use ztrade_ares_7x.Base.{
  if◌then◌else◌, absent, String, Bool, not, ◌||◌, Option, none, some, List, [], ◌∷◌, ◌++◌, str_eq,
}
use ztrade_ares_7x.Base.Result.{Result, os_error, err, ok}

-- a dictionary: none for a key that is absent
pub record Event : Type 0 where
  pub event_type : Option String
  pub severity : Option String
  pub run_id : Option String
  pub iteration_id : Option String
  pub phase_job_id : Option String
  pub created_at : Option String

pub record Alert : Type 0 where
  pub webhook : String
  pub title : String
  pub template : String
  pub severity : String
  pub run_id : String

pub record Status : Type 0 where
  pub last_event_type : Option String
  pub last_severity : Option String
  pub last_run_id : Option String
  pub last_iteration_id : Option String
  pub last_phase_job_id : Option String
  pub updated_at : Option String

-- `webhook` is ARES_FEISHU_WEBHOOK, empty if it is not set
pub record World : Type 0 where
  pub webhook : String
  pub post_succeeds : Bool
  pub posted : List Alert
  pub mkdir_succeeds : Bool
  pub open_succeeds : Bool
  pub board : Option Status

abbrev pub Callback : Type 0
Callback = Event → World → Result (Unit {0}) × World

abbrev pub Registry : Type 0
Registry = List (String × Callback)

-- A name that is there keeps its place.
abbrev pub register : String → Callback → Registry → Registry
register name callback [] = (name, callback) ∷ []
register name callback ((n, cb) ∷ entries) =
    if str_eq n name then (n, callback) ∷ entries else (n, cb) ∷ register name callback entries

-- `except Exception: pass`
abbrev pub swallow : Result (Unit {0}) × World → World
swallow (ok value, w) = w
swallow (err e, w) = w

unfoldable pub dispatch : Registry → Event → World → Result (Unit {0}) × World
dispatch [] event w = (ok tt, w)
dispatch ((name, cb) ∷ entries) event w = dispatch entries event (swallow (cb event w))

-- `event.get(key, default)`
abbrev pub get_or : String → Option String → String
get_or default none = default
get_or default (some value) = value

abbrev pub is_high : String → Bool
is_high severity = str_eq severity "warn" || str_eq severity "error" || str_eq severity "critical"

abbrev pub alert_of : Event → World → Alert
alert_of event w = record {
  webhook = w.webhook;
  title = get_or "event" event.event_type;
  template = if str_eq (get_or "info" event.severity) "critical" then "red" else "orange";
  severity = get_or "info" event.severity;
  run_id = get_or "?" event.run_id;
}

unfoldable pub feishu_alert : Callback
feishu_alert event w =
    if not (is_high (get_or "info" event.severity))
    then (ok tt, w)
    else if str_eq w.webhook ""
    then (ok tt, w)
    else if w.post_succeeds
    then (ok tt, record w { posted = w.posted ++ alert_of event w ∷ [] })
    else (ok tt, w)

abbrev pub status_of : Event → Status
status_of event = record {
  last_event_type = event.event_type;
  last_severity = event.severity;
  last_run_id = event.run_id;
  last_iteration_id = event.iteration_id;
  last_phase_job_id = event.phase_job_id;
  updated_at = event.created_at;
}

-- the `mkdir` stands before the `try`
unfoldable pub tmux_status : Callback
tmux_status event w =
    if not w.mkdir_succeeds
    then (err os_error, w)
    else if w.open_succeeds
    then (ok tt, record w { board = some (status_of event) })
    else (ok tt, w)

abbrev pub live_callbacks : Registry
live_callbacks = register "tmux_status" tmux_status (register "feishu_alert" feishu_alert [])
