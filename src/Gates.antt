-- ===== src/Gates.antt =====
-- The ten gates of ar724/promotion_gate.py and `run_all_gates`. A failure is named for the branch
-- that reports it.
mod Each
pub mod Report
pub mod Stale
pub mod Examples
use mathlib.Core.Option
use ztrade_ares_7x.Base.{
  ltb, leb, ◌==◌, if◌then◌else◌, any, select, find, greatest, ℕ, String, Bool, true, false, not,
  ◌&&◌, ◌||◌, Option, none, some, List, [], ◌∷◌, map, str_eq, starts_with,
}
use ztrade_ares_7x.Base.Int.{ℤ}
use ztrade_ares_7x.Base.Floats.{regresses}
use ztrade_ares_7x.Base.Result.{Result, ok, err, attribute_error, ◌>>=◌}
use ztrade_ares_7x.Db.{Run, Evaluation, Lock, Db}
use ztrade_ares_7x.Budget.{Verdict, allowed, check_budget}

pub data Failure : Type 0 where
  no_schema_path schema_not_found schema_invalid : Failure
  outside_scope : String → Failure
  no_evaluation hash_mismatch stale_missing stale_other : Failure
  no_decision not_keep : Failure
  regressed : Failure
  no_reviewer reviewer_not_independent : Failure
  run_not_found : Failure
  over_budget : Verdict → Failure
  discard_limit blocked_limit oscillating : Failure
  lock_not_held lock_expired : Failure

-- What a path leads to: no file, a file that is no JSON, or a schema that jsonschema finds the
-- worker's output to violate or to meet.
pub data SchemaFile : Type 0 where
  missing not_json rejects accepts : SchemaFile

-- The handler reads `e.message`, which a JSONDecodeError does not have.
abbrev schema_file : SchemaFile → Result (Option Failure)
schema_file missing = ok (some schema_not_found)
schema_file not_json = err attribute_error
schema_file rejects = ok (some schema_invalid)
schema_file accepts = ok none

-- An absent `output_schema_path` is the empty text.
unfoldable pub gate_schema : String → (String → SchemaFile) → Result (Option Failure)
gate_schema schema_path files =
    if str_eq schema_path "" then ok (some no_schema_path) else schema_file (files schema_path)

abbrev pub in_scope : List String → String → Bool
in_scope allowed_paths p = any (λ scope. starts_with p scope) allowed_paths

unfoldable pub gate_scope : List String → List String → Option Failure
gate_scope [] allowed_paths = none
gate_scope (p ∷ ps) allowed_paths =
    let rest = gate_scope ps allowed_paths in
    if in_scope allowed_paths p then rest else some (outside_scope p)

abbrev compare_hash : String → Option String → Option Failure
compare_hash candidate_hash none = some no_evaluation
compare_hash candidate_hash (some h) =
    if str_eq h ""
    then some no_evaluation
    else if str_eq candidate_hash h
    then none
    else some hash_mismatch

unfoldable pub gate_candidate_hash : String → Option String → Option Failure
gate_candidate_hash candidate_hash evaluated = compare_hash candidate_hash evaluated

-- SELECT … WHERE candidate_hash = ? ORDER BY created_at DESC LIMIT 1
unfoldable pub latest_evaluation : Db → String → Option Evaluation
latest_evaluation db candidate_hash =
    greatest (λ e. e.created_at)
      (select (λ e. str_eq e.candidate_hash candidate_hash) db.evaluations)

abbrev compare_stale : String → Option Evaluation → Option Failure
compare_stale candidate_hash none = some stale_missing
compare_stale candidate_hash (some row) =
    if str_eq row.candidate_hash candidate_hash then none else some stale_other

unfoldable pub gate_stale_artifact : String → ℕ → Db → Option Failure
gate_stale_artifact candidate_hash iteration_id db =
    compare_stale candidate_hash (latest_evaluation db candidate_hash)

abbrev decisions : List String
decisions = "KEEP" ∷ "DISCARD" ∷ "BLOCKED" ∷ []

abbrev decide : Option String → Option Failure
decide none = some no_decision
decide (some d) =
    if any (str_eq d) decisions
    then if str_eq d "KEEP" then none else some not_keep
    else some no_decision

unfoldable pub gate_deterministic_evaluation : Option String → Option Failure
gate_deterministic_evaluation d = decide d

-- The ratio is 0.9; a score is a finite float.
unfoldable pub gate_metric : ℤ → ℤ → Option Failure
gate_metric candidate_score best_score =
    if regresses candidate_score best_score then some regressed else none

abbrev pub is_job : ℕ → Option ℕ → Bool
is_job i none = false
is_job i (some j) = i == j

abbrev independent : Option ℕ → Option ℕ → Option ℕ → Option Failure
independent none builder evaluator = some no_reviewer
independent (some r) builder evaluator =
    if is_job r builder || is_job r evaluator then some reviewer_not_independent else none

unfoldable pub gate_reviewer_independence : Option ℕ → Option ℕ → Option ℕ → Option Failure
gate_reviewer_independence reviewer builder evaluator = independent reviewer builder evaluator

abbrev refusal : Verdict → Option Failure
refusal allowed = none
refusal v = some (over_budget v)

unfoldable pub find_run : Db → ℕ → Option Run
find_run db run_id = find (λ r. r.id == run_id) db.runs

abbrev budget_of : Db → ℕ → Option Run → Option Failure
budget_of db now none = some run_not_found
budget_of db now (some run) = refusal (check_budget db run now)

unfoldable pub gate_budget : Db → ℕ → ℕ → Option Failure
gate_budget db run_id now = budget_of db now (find_run db run_id)

unfoldable pub gate_loop : (consecutive_discards consecutive_blockeds : ℕ) → Bool → Option Failure
gate_loop discards blockeds oscillation_fired =
    if leb 5 discards
    then some discard_limit
    else if leb 3 blockeds
    then some blocked_limit
    else if oscillation_fired
    then some oscillating
    else none

abbrev lock_of : ℕ → ℕ → Option Lock → Option Failure
lock_of run_id now none = some lock_not_held
lock_of run_id now (some l) =
    if l.holder == run_id
    then if ltb l.lease_expires_at now then some lock_expired else none
    else some lock_not_held

unfoldable pub gate_promotion_lock : Db → ℕ → ℕ → Option Failure
gate_promotion_lock db run_id now = lock_of run_id now db.promotion_lock

-- the keyword arguments of `run_all_gates`
pub record GateInput : Type 0 where
  pub run_id : ℕ
  pub candidate_hash : String
  pub iteration_id : ℕ
  pub output_schema_path : String
  pub write_paths : List String
  pub eval_decision : Option String
  pub candidate_score : ℤ
  pub best_score : ℤ
  pub reviewer : Option ℕ
  pub builder : Option ℕ
  pub evaluator : Option ℕ
  pub consecutive_discards : ℕ
  pub consecutive_blockeds : ℕ
  pub oscillation_fired : Bool
  pub allowed_paths : List String

pub record GateReport : Type 0 where
  pub passed : Bool
  pub failures : List Failure

-- the failures among the results, in the order of the gates
abbrev pub collect : List (Option Failure) → List Failure
collect [] = []
collect (none ∷ rs) = collect rs
collect (some f ∷ rs) = f ∷ collect rs

abbrev pub is_nil : List Failure → Bool
is_nil [] = true
is_nil (f ∷ fs) = false

-- the results of the gates behind the first
unfoldable pub later_gates : Db → GateInput → ℕ → List (Option Failure)
later_gates db g now =
    gate_scope g.write_paths g.allowed_paths
    ∷ gate_candidate_hash g.candidate_hash
        (Option.map (λ e. e.candidate_hash) (latest_evaluation db g.candidate_hash))
    ∷ gate_stale_artifact g.candidate_hash g.iteration_id db
    ∷ gate_deterministic_evaluation g.eval_decision
    ∷ gate_metric g.candidate_score g.best_score
    ∷ gate_reviewer_independence g.reviewer g.builder g.evaluator
    ∷ gate_budget db g.run_id now
    ∷ gate_loop g.consecutive_discards g.consecutive_blockeds g.oscillation_fired
    ∷ gate_promotion_lock db g.run_id now
    ∷ []

abbrev pub report : List (Option Failure) → GateReport
report results = record { passed = is_nil (collect results); failures = collect results }

unfoldable pub run_all_gates : (String → SchemaFile) → Db → GateInput → ℕ → Result GateReport
unfolding gate_schema later_gates
run_all_gates files db g now = do
  schema ← gate_schema g.output_schema_path files
  ok (report (schema ∷ later_gates db g now))
