-- ===== src/Budget/Cost.antt =====
-- `estimate_call` and `record_cost` of ar724/budget.py. The profiles and the routing come from
-- YAML files: they are arguments. A text is its length in characters.
use ztrade_ares_7x.Base.{
  ltb, ◌==◌, if◌then◌else◌, Option-cases, select, sum_by, ℕ, ◌+◌, ◌*◌, ◌/◌, ◌<◌, max, String, ◌≡◌,
  refl, ◌∙◌, ap, ◌↔◌, ◌⊎◌, inl, inr, Bool, true, false, Option, none, some, List, [], ◌∷◌, ◌++◌,
  arith,
}
use ztrade_ares_7x.Db.{CostEvent, Db}
use ztrade_ares_7x.Budget.{of_run, spent}

-- A model profile, each price per 1000 tokens.
pub record Profile : Type 0 where
  pub max_tokens_per_call : ℕ
  pub pricing_per_1k_input : ℕ
  pub pricing_per_1k_output : ℕ
  pub pricing_per_1k_cache_read : ℕ
  pub pricing_per_1k_cache_write : ℕ

pub record Config : Type 0 where
  -- `default_profile` of a role, if it has a non-empty one
  pub default_profile : String → Option String
  pub profiles : String → Option Profile

pub data Reason : Type 0 where
  deterministic profile_not_found input_too_long within_limits : Reason

-- `cost` is 1000 times the dollars times the unit of the prices.
pub record PreCallEstimate : Type 0 where
  pub profile : Option String
  pub input_tokens : ℕ
  pub expected_output_tokens : ℕ
  pub cost : ℕ
  pub allowed : Bool
  pub reason : Reason

abbrev estimate_with : String → ℕ → ℕ → Option Profile → PreCallEstimate
estimate_with name input_tokens expected none = record {
  profile = some name;
  input_tokens = 0;
  expected_output_tokens = 0;
  cost = 0;
  allowed = false;
  reason = profile_not_found;
}
estimate_with name input_tokens expected (some p) =
    if ltb p.max_tokens_per_call input_tokens
    then record {
      profile = some name;
      input_tokens = input_tokens;
      expected_output_tokens = expected;
      cost = 0;
      allowed = false;
      reason = input_too_long;
    }
    else record {
      profile = some name;
      input_tokens = input_tokens;
      expected_output_tokens = expected;
      cost = input_tokens * p.pricing_per_1k_input + expected * p.pricing_per_1k_output;
      allowed = true;
      reason = within_limits;
    }

abbrev estimate_for : Config → ℕ → ℕ → Option String → PreCallEstimate
estimate_for c input_tokens expected none = record {
  profile = none;
  input_tokens = 0;
  expected_output_tokens = 0;
  cost = 0;
  allowed = true;
  reason = deterministic;
}
estimate_for c input_tokens expected (some name) =
    estimate_with name input_tokens expected (c.profiles name)

-- a token is about four characters, and there is at least one
unfoldable pub estimate_call :
    Config → String → (input_length expected_output_tokens : ℕ) → PreCallEstimate
estimate_call c role input_length expected =
    estimate_for c (max 1 (input_length / 4)) expected (c.default_profile role)

pub record Usage : Type 0 where
  pub run_id : Option ℕ
  pub phase_job_id : Option ℕ
  pub provider : String
  pub model : String
  pub input_tokens : ℕ
  pub output_tokens : ℕ
  pub cache_read_tokens : ℕ
  pub cache_write_tokens : ℕ

-- `scale` units of price are a cent; `int` cuts the fraction off, and 1000 tokens are priced at once.
abbrev cents_of : ℕ → Usage → Option Profile → ℕ
cents_of scale u none = 0
cents_of scale u (some p) =
    (u.input_tokens * p.pricing_per_1k_input
      + u.output_tokens * p.pricing_per_1k_output
      + u.cache_read_tokens * p.pricing_per_1k_cache_read
      + u.cache_write_tokens * p.pricing_per_1k_cache_write)
    / (1000 * scale)

abbrev cost_row : Config → ℕ → Usage → (id now : ℕ) → CostEvent
cost_row c scale u id now = record {
  id = id;
  run_id = u.run_id;
  phase_job_id = u.phase_job_id;
  provider = u.provider;
  model = u.model;
  input_tokens = u.input_tokens;
  output_tokens = u.output_tokens;
  cache_read_tokens = u.cache_read_tokens;
  cache_write_tokens = u.cache_write_tokens;
  cost_cents = cents_of scale u (c.profiles u.model);
  created_at = now;
}

unfoldable pub record_cost : Config → ℕ → Db → Usage → (id now : ℕ) → Db × ℕ
record_cost c scale db u id now = (
  record db { cost_events = db.cost_events ++ cost_row c scale u id now ∷ [] },
  cents_of scale u (c.profiles u.model),
)

-- The profile that the role names is missing, or its limit is below the tokens of the input.
abbrev pub IsRefused : Config → String → ℕ → Type 0
IsRefused c role input_length =
    (name : String) × (c.default_profile role ≡ some name)
    × ((c.profiles name ≡ none)
        ⊎ ((p : Profile) × (c.profiles name ≡ some p)
            × (p.max_tokens_per_call < max 1 (input_length / 4))))

-- A call is refused exactly if its role names a profile that does not exist, or one whose limit of
-- tokens the input passes.
pub estimate_call-IsRefused_iff :
    (c : Config) (role : String) (input_length expected : ℕ)
    → ((estimate_call c role input_length expected).allowed ≡ false) ↔ IsRefused c role input_length
unfolding estimate_call
estimate_call-IsRefused_iff c role input_length expected =
    elim (Option-cases (c.default_profile role)) [
      | inl e ↦ (λ h. ground arith, λ r. cc (r.1, e))
      | inr (name, e) ↦ elim (Option-cases (c.profiles name)) [
        | inl q ↦ (λ h. (name, e, inl q), λ r. ground arith)
        | inr (p, q) ↦ (λ h. (name, e, inr (p, q, ground arith)), λ r. refused p e q r)
      ]
    ]
  where
    refused :
        (p : Profile) {name : String}
        → c.default_profile role ≡ some name
        → c.profiles name ≡ some p
        → IsRefused c role input_length
        → (estimate_call c role input_length expected).allowed ≡ false
    refused p e q (other, e', inl absent) = ground arith
    refused p e q (other, e', inr (p', q', over)) = ground arith

select-append :
    (p : CostEvent → Bool) (xs : List CostEvent) (e : CostEvent)
    → select p (xs ++ e ∷ []) ≡ select p xs ++ (if p e then e ∷ [] else [])
select-append p [] e = refl
select-append p (x ∷ xs) e = ground (arith, select-append p xs e)

sum_by-append :
    (xs ys : List CostEvent)
    → sum_by (λ c. c.cost_cents) (xs ++ ys)
      ≡ sum_by (λ c. c.cost_cents) xs + sum_by (λ c. c.cost_cents) ys
sum_by-append [] ys = omega arith
sum_by-append (x ∷ xs) ys = omega (arith, sum_by-append xs ys)

spent-append :
    (db : Db) (run_id : ℕ) (e : CostEvent)
    → spent (record db { cost_events = db.cost_events ++ e ∷ [] }) run_id
      ≡ spent db run_id + (if of_run run_id e then e.cost_cents else 0)
unfolding spent
spent-append db run_id e = rw (select-append (of_run run_id) db.cost_events e) (
    sum_by-append (select (of_run run_id) db.cost_events) _
    ∙ ap (λ n. sum_by (λ c. c.cost_cents) (select (of_run run_id) db.cost_events) + n)
        (ground arith))

charged :
    (run_id n : ℕ) (o : Option ℕ)
    → o ≡ some run_id
    → (if elim o [ none ↦ false | some r ↦ r == run_id ] then n else 0) ≡ n
charged run_id n none e = cc
charged run_id n (some r) e = ground arith

-- What is recorded is what the budget check counts: the spending of the run that a cost names grows
-- by the cents returned.
spent-record_cost :
    (c : Config) (scale : ℕ) (db : Db) (u : Usage) (id now run_id : ℕ)
    → u.run_id ≡ some run_id
    → spent (record_cost c scale db u id now).0 run_id
      ≡ spent db run_id + (record_cost c scale db u id now).1
unfolding record_cost
spent-record_cost c scale db u id now run_id e =
    spent-append db run_id (cost_row c scale u id now)
    ∙ ap (λ n. spent db run_id + n)
        (charged run_id (cents_of scale u (c.profiles u.model)) u.run_id e)
