-- ===== src/Roles/Examples.antt =====
-- Four role files that are valid, and an output that is accepted.
use Prim.Native.Nat.{◌^◌}
use ztrade_ares_7x.Base.{
  ℕ, ◌+◌, ◌*◌, String, ◌≡◌, refl, true, none, some, List, [], ◌∷◌, map, false,
}
use ztrade_ares_7x.Base.Result.{overflow_error, ok, err}
use ztrade_ares_7x.Roles.{required_fields, validate_roles, Role, RoleFile, Loaded}
use ztrade_ares_7x.Roles.Valid.{validate_roles-IsValid, IsValid}
use ztrade_ares_7x.Base.Int.{pos}
use ztrade_ares_7x.Roles.Output.{Value, Members, Float, member, array, object, float, integer}
use ztrade_ares_7x.Roles.Acceptance.{
  check_min_3_factors, check_correlation_matrix, check_weights_sum_to_one, check_universe_proposal,
  check_acceptance, near_one, System,
}
use ztrade_ares_7x.Roles.Accepted.{proposal_criteria}

abbrev role : String → Role
role id = record { id = some id; keys = required_fields; acceptance = [] }

abbrev file : String → RoleFile
file id = record { stem = id; content = some (role id) }

abbrev loaded : String → Loaded
loaded id = record { id = id; role = role id }

abbrev role_files : List RoleFile
role_files =
    map file ("backtest_reviewer" ∷ "backtester" ∷ "factor_combiner" ∷ "factor_validator" ∷ [])

abbrev loaded_roles : List Loaded
loaded_roles =
    map loaded ("backtest_reviewer" ∷ "backtester" ∷ "factor_combiner" ∷ "factor_validator" ∷ [])

role_files-loaded : validate_roles (some role_files) ≡ ok loaded_roles
unfolding validate_roles
role_files-loaded = refl

validate_roles-IsValid_example : IsValid role_files loaded_roles
validate_roles-IsValid_example = validate_roles-IsValid role_files loaded_roles role_files-loaded

-- floats whose sum needs no rounding
abbrev exact_sum : List Float → ℕ
exact_sum [] = 0
exact_sum (some (pos n) ∷ xs) = n + exact_sum xs
exact_sum (_ ∷ xs) = exact_sum xs

abbrev system : System
system = record {
  floats = record { parse = λ s. none; of_int = λ n. none; sum = λ xs. some (pos (exact_sum xs)) };
  parent_exists = λ v. true;
}

abbrev combiner : Role
combiner = record (role "factor_combiner") { acceptance = proposal_criteria }

abbrev proposal : Value → Members
proposal weight = member "factor_inclusion" (array 4) (
    member "factor_correlation_matrix_summary" Value.null (
      member "weights"
        (object
          (member "value" (float (some (pos (2 ^ 1073)))) (member "momentum" weight Members.end)))
        Members.end))

abbrev half : Value
half = float (some (pos (2 ^ 1073)))

proposal-accepted : check_acceptance system combiner (proposal half) ≡ ok (true, [])
unfolding check_acceptance check_min_3_factors check_correlation_matrix check_weights_sum_to_one
    check_universe_proposal
proposal-accepted = refl

-- an int that is too great for a float
overflow : check_acceptance system combiner (proposal (integer (pos 1))) ≡ err overflow_error
unfolding check_acceptance check_min_3_factors check_correlation_matrix check_weights_sum_to_one
    check_universe_proposal
overflow = refl

-- 0.999 and 0.001 apart from 1.0, as floats
near : near_one (some (pos (8998192055486251 * 2 ^ 1021))) ≡ false
near = refl
