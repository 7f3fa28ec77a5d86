-- ===== src/Settings.antt =====
-- `goal set`, `budget set`, `scope set` and `oscillation set-policy` of ar724/cli.py, with
-- get_loop_config of ar724/config_loader.py. Of the configuration there are the members that the
-- commands write, where the members that are objects are so; budgets are in cents. `json.dumps` and
-- `json.loads` are arguments.
pub mod Changes
pub mod Policy
pub mod Examples
use ztrade_ares_7x.Base.{if◌then◌else◌, ℕ, String, Option, none, some, str_eq}
use ztrade_ares_7x.Base.Result.{◌>>=◌, ◌>>◌, Result, type_error, err, ok}
use ztrade_ares_7x.Db.{Db, Event}
use ztrade_ares_7x.Events.{emit_event, global_event}
use ztrade_ares_7x.Files.{Files, config_path, write_loop_config, World}

-- the goal: it is missing, or null, a number or a truth value, or a text
pub data Goal : Type 0 where
  absent no_text : Goal
  words : String → Goal

pub record LoopConfig : Type 0 where
  pub goal : Goal
  pub max_daily_token : Option ℕ
  pub max_iter_runtime_minutes : Option ℕ
  pub max_run_budget_cents : Option ℕ
  pub selection_method : Option String
  pub oscillation_policy : Option String

-- `{}`
abbrev pub no_config : LoopConfig
no_config = record {
  goal = absent;
  max_daily_token = none;
  max_iter_runtime_minutes = none;
  max_run_budget_cents = none;
  selection_method = none;
  oscillation_policy = none;
}

pub record Json : Type 0 where
  pub dumps : LoopConfig → String
  pub loads : String → LoopConfig

pub data Setting : Type 0 where
  goal_set : (text : String) → Setting
  budget_set : (daily iter_runtime run_budget : Option ℕ) → Setting
  scope_set : (method : Option String) → Setting
  oscillation_set_policy : (policy : String) → Setting

-- an option that is given replaces the member
abbrev pub given : Option ℕ → Option ℕ → Option ℕ
given none old = old
given (some new) old = some new

-- `if selection_method`: an empty text changes nothing
abbrev pub method_of : Option String → Option String → Option String
method_of none old = old
method_of (some new) old = if str_eq new "" then old else some new

abbrev pub goal_changed : String → LoopConfig → LoopConfig
goal_changed text c = record c { goal = words text }

abbrev pub budget_changed : (daily iter_runtime run_budget : Option ℕ) → LoopConfig → LoopConfig
budget_changed daily iter_runtime run_budget c = record c {
  max_daily_token = given daily c.max_daily_token;
  max_iter_runtime_minutes = given iter_runtime c.max_iter_runtime_minutes;
  max_run_budget_cents = given run_budget c.max_run_budget_cents;
}

abbrev pub scope_changed : Option String → LoopConfig → LoopConfig
scope_changed method c = record c { selection_method = method_of method c.selection_method }

abbrev pub policy_changed : String → LoopConfig → LoopConfig
policy_changed policy c = record c { oscillation_policy = some policy }

abbrev pub changed : Setting → LoopConfig → LoopConfig
changed (goal_set text) c = goal_changed text c
changed (budget_set daily iter_runtime run_budget) c =
    budget_changed daily iter_runtime run_budget c
changed (scope_set method) c = scope_changed method c
changed (oscillation_set_policy policy) c = policy_changed policy c

abbrev pub severity_of : Setting → String
severity_of (oscillation_set_policy policy) = if str_eq policy "halt" then "warn" else "info"
severity_of _ = "info"

abbrev pub config_of : Json → Option String → LoopConfig
config_of json none = no_config
config_of json (some text) = json.loads text

unfoldable pub get_loop_config : Json → Files → (path env : Option String) → LoopConfig
get_loop_config json files path env = config_of json (files (config_path path env))

-- What sqlite answers when the database is opened and when the row is written.
pub record Answers : Type 0 where
  pub opened : Result (Unit {0})
  pub inserted : Result (Unit {0})

-- `old[:80]`
abbrev pub sliced : Goal → Result (Unit {0})
sliced no_text = err type_error
sliced _ = ok tt

-- the payload of the row, from the configuration that was read
abbrev pub payload_of : Setting → LoopConfig → Result (Unit {0})
payload_of (goal_set text) old = sliced old.goal
payload_of _ old = ok tt

-- what comes before the row is written
abbrev pub prepared : Answers → Setting → LoopConfig → Result (Unit {0})
prepared a setting old = a.opened >> payload_of setting old >> a.inserted

-- the row for the audit, after the file
abbrev pub audit :
    Db → Answers → LoopConfig → Setting → (now : ℕ) → Files × Result (Unit {0}) → Files × Result Db
audit db a old setting now (files, err e) = (files, err e)
audit db a old setting now (files, ok _) = (
  files,
  prepared a setting old
      >> emit_event db (global_event "safety_violation_blocked" (severity_of setting) now),
)

-- One of the commands: an error leaves the database as it is.
unfoldable pub change :
    Json → World → Answers → Files → Option String → Db → Setting → (now : ℕ) → Files × Result Db
unfolding get_loop_config write_loop_config emit_event
change json w a files env db setting now =
    let old = get_loop_config json files none env in
    audit db a old setting now (write_loop_config json.dumps w files none env (changed setting old))
