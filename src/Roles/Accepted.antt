-- ===== src/Roles/Accepted.antt =====
-- What an accepted proposal of the factor combiner is: ar724/role_loader.py, `check_acceptance`.
use ztrade_ares_7x.Roles.Acceptance.{meets, System}
use ztrade_ares_7x.Base.{
  ℕ, ◌+◌, ◌-◌, ◌≤◌, String, ◌≡◌, ◌⊎◌, true, Option, none, some, List, [], ◌∷◌,
}
use ztrade_ares_7x.Base.Int.{pos}
use ztrade_ares_7x.Base.Floats.{one, thousandth}
use ztrade_ares_7x.Base.Result.{ok, Result}
use ztrade_ares_7x.Roles.Output.{
  get, has, float_values, Value, Members, Floats, Float, object, array, member,
}

-- The criteria that the loader knows for a proposal.
abbrev pub proposal_criteria : List String
proposal_criteria =
    "factor_combiner.min_3_factors" ∷ "factor_combiner.correlation_matrix_present"
    ∷ "factor_combiner.weights_sum_to_one" ∷ "factor_combiner.universe_validates" ∷ []

-- at least three factors
abbrev pub HasFactors : Option Value → Type 0
HasFactors v = (n : ℕ) × (v ≡ some (array n)) × (3 ≤ n)

-- weights of which each is read as a float, with a sum that is a float within 0.001 of 1.0
abbrev pub HasWeights : Floats → Option Value → Type 0
HasWeights fs v =
    (k : String) × (w : Value) × (rest : Members) × (weights : List Float) × (total : ℕ) × (v
      ≡ some (object (member k w rest)))
    × (float_values fs (member k w rest) ≡ ok weights)
    × (fs.sum weights ≡ some (pos total))
    × (one - thousandth ≤ total)
    × (total ≤ one + thousandth)

-- no universe, or one with a method and a band
abbrev pub HasUniverse : Option Value → Type 0
HasUniverse v =
    (v ≡ none)
    ⊎ (v ≡ some Value.null)
    ⊎ ((ms : Members) × (v ≡ some (object ms))
        × (has ms "selection_method" ≡ true)
        × (has ms "mcap_band" ≡ true))

pub record IsProposal (sys : System) (output : Members) : Type 0 where
  pub factors : HasFactors (get output "factor_inclusion")
  pub correlations : has output "factor_correlation_matrix_summary" ≡ true
  pub weights : HasWeights sys.floats (get output "weights")
  pub universe : HasUniverse (get output "universe_proposal")

-- Each criterion is met.
abbrev pub AllMet : System → Members → List String → Type 0
AllMet sys output [] = Unit
AllMet sys output (c ∷ cs) = (meets sys output c ≡ ok true) × AllMet sys output cs
