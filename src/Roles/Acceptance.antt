-- ===== src/Roles/Acceptance.antt =====
-- `check_acceptance` of ar724/role_loader.py and its ten checks.
use ztrade_ares_7x.Base.{
  leb, if◌then◌else◌, any, ◌+◌, ◌-◌, String, Bool, true, false, ◌&&◌, Option, none, some, List, [],
  ◌∷◌, str_eq,
}
use ztrade_ares_7x.Base.Int.{pos, negsuc}
use ztrade_ares_7x.Base.Floats.{one, thousandth}
use ztrade_ares_7x.Base.Result.{◌>>=◌, Result, Exception, value_error, type_error, err, ok}
use ztrade_ares_7x.Roles.{Role}
use ztrade_ares_7x.Roles.Output.{
  get, has, is_truthy, float_values, Value, Members, Floats, Float, array, object, text, member,
}

-- Python's floats, and whether the parent of the path that a value spells exists.
pub record System : Type 0 where
  pub floats : Floats
  pub parent_exists : Option Value → Bool

unfoldable pub check_min_3_factors : Members → Bool
check_min_3_factors output = elim (get output "factor_inclusion") [
  | some (array n) ↦ leb 3 n
  | _ ↦ false
]

unfoldable pub check_correlation_matrix : Members → Bool
check_correlation_matrix output = has output "factor_correlation_matrix_summary"

-- `abs(total - 1.0) <= 0.001`: the difference of two floats that are so near is exact
abbrev pub near_one : Float → Bool
near_one none = false
near_one (some (negsuc n)) = false
near_one (some (pos n)) = leb (one - thousandth) n && leb n (one + thousandth)

abbrev pub sums_to_one : Floats → Option Value → Result Bool
sums_to_one fs (some (object (member k v rest))) = do
  weights ← float_values fs (member k v rest)
  ok (near_one (fs.sum weights))
sums_to_one fs _ = ok false

unfoldable pub check_weights_sum_to_one : System → Members → Result Bool
unfolding float_values
check_weights_sum_to_one sys output = sums_to_one sys.floats (get output "weights")

abbrev pub valid_proposal : Option Value → Bool
valid_proposal none = true
valid_proposal (some Value.null) = true
valid_proposal (some (object ms)) = has ms "selection_method" && has ms "mcap_band"
valid_proposal (some _) = false

unfoldable pub check_universe_proposal : Members → Bool
check_universe_proposal output = valid_proposal (get output "universe_proposal")

unfoldable pub check_results_tsv_path : Members → Bool
check_results_tsv_path output = is_truthy (get output "results_tsv_path")

unfoldable pub check_metrics_above_floor : Members → Bool
check_metrics_above_floor output = elim (get output "metrics") [
  | some (object ms) ↦
      has ms "mean_annual_return_pct" && (has ms "sharpe" && has ms "max_drawdown_pct")
  | _ ↦ false
]

unfoldable pub check_risk_flags : Members → Bool
check_risk_flags output = has output "risk_flags"

unfoldable pub check_candidate_hash : Members → Bool
check_candidate_hash output = is_truthy (get output "candidate_hash")

abbrev pub verdicts : List String
verdicts = "KEEP" ∷ "VETO" ∷ "REVISE" ∷ "NEEDS_MORE_EVIDENCE" ∷ []

-- an array or an object has no hash, and looking it up in a set raises
abbrev known : Option Value → Result Bool
known none = ok false
known (some (text s)) = ok (any (str_eq s) verdicts)
known (some (array n)) = err type_error
known (some (object ms)) = err type_error
known (some _) = ok false

unfoldable pub check_reviewer_verdict_known : Members → Result Bool
check_reviewer_verdict_known output = known (get output "verdict")

unfoldable pub check_rationale_path : System → Members → Bool
check_rationale_path sys output =
    is_truthy (get output "rationale_path") && sys.parent_exists (get output "rationale_path")

-- ACCEPTANCE_CHECKS, at `sys` and `output`
abbrev pub acceptance_checks : System → Members → List (String × Result Bool)
acceptance_checks sys output =
    ("factor_combiner.min_3_factors", ok (check_min_3_factors output))
    ∷ ("factor_combiner.correlation_matrix_present", ok (check_correlation_matrix output))
    ∷ ("factor_combiner.weights_sum_to_one", check_weights_sum_to_one sys output)
    ∷ ("factor_combiner.universe_validates", ok (check_universe_proposal output))
    ∷ ("backtester.results_tsv_path_present", ok (check_results_tsv_path output))
    ∷ ("backtester.metrics_above_floor", ok (check_metrics_above_floor output))
    ∷ ("factor_validator.risk_flags_present", ok (check_risk_flags output))
    ∷ ("factor_validator.candidate_hash_present", ok (check_candidate_hash output))
    ∷ ("backtest_reviewer.verdict_known", check_reviewer_verdict_known output)
    ∷ ("backtest_reviewer.rationale_path_present", ok (check_rationale_path sys output))
    ∷ []

unfoldable pub lookup : String → List (String × Result Bool) → Option (Result Bool)
lookup criterion [] = none
lookup criterion ((name, check) ∷ rest) =
    let later = lookup criterion rest in if str_eq name criterion then some check else later

-- `except (KeyError, TypeError, ValueError)`
abbrev pub caught : Exception → Bool
caught type_error = true
caught value_error = true
caught _ = false

-- `ok`, False where the check raises what is caught; an unknown criterion is passed over
abbrev pub outcome : Option (Result Bool) → Result Bool
outcome none = ok true
outcome (some (err e)) = if caught e then ok false else err e
outcome (some (ok b)) = ok b

unfoldable pub meets : System → Members → String → Result Bool
unfolding lookup
meets sys output criterion = outcome (lookup criterion (acceptance_checks sys output))

-- the loop over the criteria
unfoldable pub failed_criteria : System → Members → List String → Result (List String)
unfolding meets
failed_criteria sys output [] = ok []
failed_criteria sys output (c ∷ cs) = do
  met ← meets sys output c
  rest ← failed_criteria sys output cs
  ok (if met then rest else c ∷ rest)

abbrev pub is_nil : List String → Bool
is_nil [] = true
is_nil (c ∷ cs) = false

unfoldable pub check_acceptance : System → Role → Members → Result (Bool × List String)
unfolding failed_criteria
check_acceptance sys role output = do
  failed ← failed_criteria sys output role.acceptance
  ok (is_nil failed, failed)
