-- ===== src/Gates/Report.antt =====
-- What a passing report of `run_all_gates` means: ar724/promotion_gate.py
use ztrade_ares_7x.Base.{
  all, All, ℕ, ◌≤◌, ◌<◌, String, ◌≡◌, ◌≢◌, true, false, Option, none, some, List, [], arith, eq_iff,
  suc,
}
use ztrade_ares_7x.Base.Int.{pos}
use ztrade_ares_7x.Base.Floats.{below_ratio}
use ztrade_ares_7x.Base.Result.{Result, attribute_error, err}
use ztrade_ares_7x.Db.{Run, Lock, Db}
use ztrade_ares_7x.Budget.{check_budget, allowed}
use ztrade_ares_7x.Gates.{
  in_scope, find_run, run_all_gates, Failure, SchemaFile, GateInput, GateReport, not_json, accepts,
}
use ztrade_ares_7x.Gates.Each.{Evaluated, Independent}

-- What the gates ask of a candidate, one by one. The fourth asks only for an evaluation of the
-- candidate, of whichever iteration; the sixth compares with the float that `best_score * 0.9` is.
pub record IsPromotable (files : String → SchemaFile) (db : Db) (g : GateInput) (now : ℕ)
    : Type 0 where
  pub schema : (g.output_schema_path ≢ "") × (files g.output_schema_path ≡ accepts)
  pub scope : all (in_scope g.allowed_paths) g.write_paths ≡ true
  pub evaluated : (g.candidate_hash ≢ "") × Evaluated db g.candidate_hash
  pub decided : g.eval_decision ≡ some "KEEP"
  pub metric : (b : ℕ) → g.best_score ≡ pos (suc b) → below_ratio g.candidate_score (suc b) ≡ false
  pub reviewed : Independent g.reviewer g.builder g.evaluator
  pub budget : (run : Run) × (find_run db g.run_id ≡ some run) × (check_budget db run now ≡ allowed)
  pub loop :
      (g.consecutive_discards < 5) × (g.consecutive_blockeds < 3) × (g.oscillation_fired ≡ false)
  pub lock :
      (l : Lock) × (db.promotion_lock ≡ some l) × (l.holder ≡ g.run_id) × (now ≤ l.lease_expires_at)

abbrev pub clean : GateReport
clean = record { passed = true; failures = [] }

abbrev AllNone : List (Option Failure) → Type 0
AllNone = All (λ o. o ≡ none)

-- A schema file that is no JSON makes the gates raise AttributeError in place of a report, for
-- every candidate whose role names that file.
run_all_gates-not_json :
    (files : String → SchemaFile) (db : Db) (g : GateInput) (now : ℕ)
    → g.output_schema_path ≢ ""
    → files g.output_schema_path ≡ not_json
    → run_all_gates files db g now ≡ err attribute_error
unfolding run_all_gates
run_all_gates-not_json files db g now named bad = ground (arith, eq_iff g.output_schema_path "")
