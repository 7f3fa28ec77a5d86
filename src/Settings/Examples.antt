-- ===== src/Settings/Examples.antt =====
-- The theorem on the commands of ar724/cli.py that change the configuration, at `budget set`.
use ztrade_ares_7x.Base.{if◌then◌else◌, ℕ, zero, suc, ◌≡◌, refl, none, some, str_eq}
use ztrade_ares_7x.Base.Result.{ok, err, type_error}
use ztrade_ares_7x.Locks.Examples.{empty}
use ztrade_ares_7x.Files.{
  Files, Answer, World, replaced, transient, removed, write_loop_config, atomic_write,
  replace_with_retry,
}
use ztrade_ares_7x.Settings.{
  no_config, get_loop_config, change, LoopConfig, Json, Setting, budget_set, words, no_text,
  Answers, goal_set,
}
use ztrade_ares_7x.Settings.Policy.{get_safety_policy, Process}

abbrev stored : LoopConfig
stored = record no_config { goal = words "alpha"; max_daily_token = some 500 }

abbrev new : LoopConfig
new = record no_config {
  goal = words "alpha";
  max_daily_token = some 900;
  max_iter_runtime_minutes = some 30;
}

-- two configurations, each by a name
abbrev json : Json
json = record {
  dumps = λ c. elim c.max_iter_runtime_minutes [ none ↦ "stored" | some n ↦ "new" ];
  loads = λ text. if str_eq text "new" then new else stored;
}

abbrev files : Files
files x = if str_eq x ".ares/loop_config.json" then some "stored" else none

-- The second attempt replaces the file.
abbrev busy_once : ℕ → Answer
busy_once zero = transient
busy_once (suc n) = replaced

abbrev world : World
world = record {
  temporary = ".ares/loop_config.json.1.tmp";
  broken_write = none;
  answers = busy_once;
  unlinked = removed;
}

abbrev raise_budget : Setting
raise_budget = budget_set (some 900) (some 30) none

abbrev works : Answers
works = record { opened = ok tt; inserted = ok tt }

-- a goal of null: the file is written, and then TypeError is raised
abbrev json_null : Json
json_null = record { dumps = λ c. "new"; loads = λ text. record no_config { goal = no_text } }

null_goal :
    let r = change json_null world works files none empty (goal_set "beta") 50 in
    (r.0 ".ares/loop_config.json" ≡ some "new") × (r.1 ≡ err type_error)
unfolding change get_loop_config write_loop_config atomic_write replace_with_retry
null_goal = (refl, refl)

-- the policy that was read is kept while its file is edited
abbrev process : Process ℕ
process = record { env_file = none; default_file = some (ok 3); cache = none }

first_read : (get_safety_policy 0 process).0 ≡ ok 3
unfolding get_safety_policy
first_read = refl
