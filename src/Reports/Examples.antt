-- ===== src/Reports/Examples.antt =====
-- The costs of ar724/cli.py at three events of two models.
use ztrade_ares_7x.Base.{ℕ, String, none, some, [], ◌∷◌}
use ztrade_ares_7x.Db.{CostEvent, Db}
use ztrade_ares_7x.Locks.Examples.{empty}

abbrev cost_of : String → (cents created_at : ℕ) → CostEvent
cost_of model cents created_at = record {
  id = 1;
  run_id = some 1;
  phase_job_id = none;
  provider = "anthropic";
  model = model;
  input_tokens = 1000;
  output_tokens = 100;
  cache_read_tokens = 0;
  cache_write_tokens = 0;
  cost_cents = cents;
  created_at = created_at;
}

abbrev three_costs : Db
three_costs = record empty {
  cost_events = cost_of "opus" 40 90000 ∷ (cost_of "haiku" 3 90000 ∷ (cost_of "opus" 5 10 ∷ []));
}
