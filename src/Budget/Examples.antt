-- ===== src/Budget/Examples.antt =====
-- The theorems on costs at a run that has spent 40 of its 100 cents.
use ztrade_ares_7x.Base.{ℕ, ◌≤◌, ◌≡◌, ◌↔◌, ◌⊎◌, none, some, [], ◌∷◌}
use ztrade_ares_7x.Db.{RunStatus, Run, CostEvent, Db}
use ztrade_ares_7x.Locks.Examples.{empty}
use ztrade_ares_7x.Budget.{check_budget, allowed}
use ztrade_ares_7x.Budget.Check.{account, account_of_day, check_budget-allowed_iff}
use ztrade_ares_7x.Budget.Cost.{Profile, Config, Usage}

abbrev run : Run
run = record {
  id = 1;
  goal = "goal";
  status = RunStatus.running;
  created_at = 0;
  started_at = some 1;
  budget_cents = 100;
  spent_cents = 0;
  stop_reason = "";
  config_hash = "";
  daily_budget_cents = 50;
  consecutive_discards = 0;
  consecutive_blockeds = 0;
}

abbrev cost : ℕ → ℕ → CostEvent
cost id cents = record {
  id = id;
  run_id = some 1;
  phase_job_id = none;
  provider = "anthropic";
  model = "sonnet";
  input_tokens = 1000;
  output_tokens = 100;
  cache_read_tokens = 0;
  cache_write_tokens = 0;
  cost_cents = cents;
  created_at = 90000;
}

abbrev spending : Db
spending = record empty { runs = run ∷ []; cost_events = cost 1 40 ∷ [] }

check_budget-allowed_iff_example : (check_budget spending run 90000 ≡ allowed) ↔ (
    ((run.budget_cents ≡ 0) ⊎ (account 1 spending.cost_events ≤ 100))
    × ((run.daily_budget_cents ≡ 0) ⊎ (account_of_day 1 1 spending.cost_events ≤ 50)))
check_budget-allowed_iff_example = check_budget-allowed_iff spending run 90000

abbrev sonnet : Profile
sonnet = record {
  max_tokens_per_call = 100;
  pricing_per_1k_input = 300;
  pricing_per_1k_output = 1500;
  pricing_per_1k_cache_read = 30;
  pricing_per_1k_cache_write = 375;
}

abbrev config : Config
config = record { default_profile = λ role. some "sonnet"; profiles = λ name. some sonnet }

abbrev usage : Usage
usage = record {
  run_id = some 1;
  phase_job_id = none;
  provider = "anthropic";
  model = "sonnet";
  input_tokens = 10000;
  output_tokens = 2000;
  cache_read_tokens = 0;
  cache_write_tokens = 0;
}
