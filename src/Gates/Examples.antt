-- ===== src/Gates/Examples.antt =====
-- A candidate that passes the gates, and the theorems of this folder at it.
use Prim.Native.Nat.{◌^◌}
use ztrade_ares_7x.Base.{if◌then◌else◌, String, ◌≡◌, refl, false, some, [], ◌∷◌, str_eq, ◌*◌}
use ztrade_ares_7x.Base.Int.{pos}
use ztrade_ares_7x.Base.Result.{ok}
use ztrade_ares_7x.Db.{RunStatus, Db}
use ztrade_ares_7x.Budget.{spent, daily_spent, check_budget}
use ztrade_ares_7x.Locks.Examples.{empty}
use ztrade_ares_7x.Gates.{
  gate_scope, gate_candidate_hash, latest_evaluation, gate_stale_artifact,
  gate_deterministic_evaluation, gate_metric, gate_reviewer_independence, find_run, gate_budget,
  gate_loop, gate_promotion_lock, run_all_gates, SchemaFile, GateInput, not_json, accepts,
  regressed,
}
use ztrade_ares_7x.Gates.Report.{clean}

abbrev schemas : String → SchemaFile
schemas path = if str_eq path "builder.json" then accepts else not_json

abbrev evaluated : Db
evaluated = record empty {
  runs =
      record {
        id = 1;
        goal = "goal";
        status = RunStatus.running;
        created_at = 0;
        started_at = some 1;
        budget_cents = 5000;
        spent_cents = 0;
        stop_reason = "";
        config_hash = "";
        daily_budget_cents = 5000;
        consecutive_discards = 0;
        consecutive_blockeds = 0;
      }
      ∷ [];
  evaluations =
      record {
        id = 1;
        candidate_hash = "abc";
        decision = "KEEP";
        score = pos 10;
        error_message = "";
        created_at = 50;
      }
      ∷ [];
  promotion_lock = some (record { holder = 1; lease_expires_at = 700; last_heartbeat_at = 100 });
}

abbrev input : GateInput
input = record {
  run_id = 1;
  candidate_hash = "abc";
  iteration_id = 7;
  output_schema_path = "builder.json";
  write_paths = "autoresearch/mutable/candidate.json" ∷ [];
  eval_decision = some "KEEP";
  candidate_score = pos 10;
  best_score = pos 9;
  reviewer = some 5;
  builder = some 2;
  evaluator = some 4;
  consecutive_discards = 0;
  consecutive_blockeds = 0;
  oscillation_fired = false;
  allowed_paths = "autoresearch/" ∷ [];
}

-- the gates run at it, and pass
passes : run_all_gates schemas evaluated input 100 ≡ ok clean
unfolding run_all_gates gate_scope gate_candidate_hash latest_evaluation gate_stale_artifact
    gate_deterministic_evaluation gate_metric gate_reviewer_independence gate_budget find_run
    check_budget spent daily_spent gate_loop gate_promotion_lock
passes = refl

-- 0.09 is below what Python's `0.1 * 0.9` is
tenth :
    gate_metric (pos (6485183463413514 * 2 ^ 1018)) (pos (7205759403792794 * 2 ^ 1018))
    ≡ some regressed
unfolding gate_metric
tenth = refl
