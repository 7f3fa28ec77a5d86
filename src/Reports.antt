-- ===== src/Reports.antt =====
-- The commands of ar724/cli.py that read and print: status, trace, explain, costs, list-runs and
-- mcp approvals, as the data that they print. Their texts are left out, and so is the table of
-- reviews, which nothing writes. Where two rows have one time stamp, the earlier row comes first.
pub mod Costs
pub mod Examples
use ztrade_ares_7x.Base.{
  leb, ◌==◌, if◌then◌else◌, select, find, count, ℕ, ◌+◌, ◌*◌, ◌/◌, String, Bool, true, false, ◌&&◌,
  Option, none, some, List, [], ◌∷◌, str_eq,
}
use ztrade_ares_7x.Db.{
  RunStatus, Run, Iteration, PhaseStatus, PhaseJob, Candidate, Evaluation, Promotion, Approval,
  Event, CostEvent, Db,
}
use ztrade_ares_7x.Observability.{day_seconds, stamped_since, order_desc, Metrics}

-- ORDER BY … LIMIT 1
abbrev pub first_row : {A : Type 0} → List A → Option A
first_row [] = none
first_row (x ∷ xs) = some x

abbrev newest : {A : Type 0} → (A → ℕ) → List A → Option A
newest key rows = first_row (order_desc key rows)

abbrev is_current : Run → Bool
is_current r = elim (r.status) [
  | RunStatus.running ↦ true
  | RunStatus.paused ↦ true
  | RunStatus.waiting_approval ↦ true
  | _ ↦ false
]

abbrev job_runs : PhaseJob → Bool
job_runs j = elim (j.status) [ PhaseStatus.running ↦ true | _ ↦ false ]

-- a column that may be NULL, and a value
abbrev pub holds : Option ℕ → ℕ → Bool
holds none n = false
holds (some m) n = m == n

pub data Format : Type 0 where
  human json last_candidate_hash : Format

-- the current iteration with the number of its running jobs, and the last event
pub record Progress : Type 0 where
  pub current : Option (Iteration × ℕ)
  pub last_event : Option Event

pub data StatusReport : Type 0 where
  no_active_run : StatusReport
  as_json : Run → Metrics → StatusReport
  hash_of : Option Candidate → StatusReport
  for_people : Run → Progress → Option Metrics → StatusReport

abbrev with_jobs : Db → Option Iteration → Option (Iteration × ℕ)
with_jobs db none = none
with_jobs db (some i) = some (i, count (λ j. (j.iteration_id == i.id) && job_runs j) db.phase_jobs)

abbrev progress_of : Db → Run → Progress
progress_of db run = record {
  current = with_jobs db (newest (λ i. i.index) (select (λ i. i.run_id == run.id) db.iterations));
  last_event = newest (λ e. e.created_at) (select (λ e. holds e.run_id run.id) db.events);
}

abbrev report_run : Db → Metrics → Format → (verbose : Bool) → Run → StatusReport
report_run db metrics json verbose run = as_json run metrics
report_run db metrics last_candidate_hash verbose run =
    hash_of (newest (λ c. c.created_at) db.candidates)
report_run db metrics human verbose run =
    for_people run (progress_of db run) (if verbose then some metrics else none)

abbrev report_if : Db → Metrics → Format → (verbose : Bool) → Option Run → StatusReport
report_if db metrics format verbose none = no_active_run
report_if db metrics format verbose (some run) = report_run db metrics format verbose run

unfoldable pub status : Db → Metrics → Format → (verbose : Bool) → StatusReport
status db metrics format verbose =
    report_if db metrics format verbose (newest (λ r. r.created_at) (select is_current db.runs))

-- ORDER BY created_at
abbrev insert_by : Event → List Event → List Event
insert_by e [] = e ∷ []
insert_by e (x ∷ xs) = if leb e.created_at x.created_at then e ∷ (x ∷ xs) else x ∷ insert_by e xs

abbrev pub order_by_created : List Event → List Event
order_by_created [] = []
order_by_created (e ∷ es) = insert_by e (order_by_created es)

abbrev trace_of : Db → Option Iteration → Option (Iteration × List Event)
trace_of db none = none
trace_of db (some i) =
    some (i, order_by_created (select (λ e. holds e.iteration_id i.id) db.events))

-- `none` is the exit with status 1
unfoldable pub trace : Db → (trace_id : ℕ) → Option (Iteration × List Event)
trace db trace_id = trace_of db (find (λ i. i.trace_id == trace_id) db.iterations)

pub record Explanation : Type 0 where
  pub candidate : Candidate
  pub evaluation : Option Evaluation
  pub promotion : Option Promotion

abbrev explanation_of : Db → Option Candidate → Option Explanation
explanation_of db none = none
explanation_of db (some c) = some (record {
  candidate = c;
  evaluation =
      newest (λ e. e.created_at) (select (λ e. str_eq e.candidate_hash c.hash) db.evaluations);
  promotion =
      newest (λ p. p.promoted_at) (select (λ p. str_eq p.candidate_hash c.hash) db.promotions);
})

unfoldable pub explain : Db → (candidate_hash : String) → Option Explanation
explain db candidate_hash =
    explanation_of db (find (λ c. str_eq c.hash candidate_hash) db.candidates)

unfoldable pub list_runs : Db → List Run
list_runs db = order_desc (λ r. r.created_at) db.runs

unfoldable pub mcp_approvals : Db → List Approval
mcp_approvals db =
    order_desc (λ a. a.created_at) (select (λ a. str_eq a.status "pending") db.approvals)

-- a row of `costs`
pub record Spend : Type 0 where
  pub model : String
  pub cents : ℕ
  pub in_tok : ℕ
  pub out_tok : ℕ

abbrev pub spend_of : CostEvent → Spend
spend_of e = record {
  model = e.model;
  cents = e.cost_cents;
  in_tok = e.input_tokens;
  out_tok = e.output_tokens;
}

abbrev pub add_spend : CostEvent → Spend → Spend
add_spend e s = record s {
  cents = e.cost_cents + s.cents;
  in_tok = e.input_tokens + s.in_tok;
  out_tok = e.output_tokens + s.out_tok;
}

-- GROUP BY model, with the sums; SQLite may give the groups in another order
abbrev pub add_to : CostEvent → List Spend → List Spend
add_to e [] = spend_of e ∷ []
add_to e (s ∷ rows) = if str_eq s.model e.model then add_spend e s ∷ rows else s ∷ add_to e rows

abbrev pub group_by_model : List CostEvent → List Spend
group_by_model [] = []
group_by_model (e ∷ es) = add_to e (group_by_model es)

abbrev pub counted : (today : Bool) (now : ℕ) → List CostEvent → List CostEvent
counted true now events =
    select (λ e. stamped_since e.created_at (now / day_seconds * day_seconds)) events
counted false now events = events

unfoldable pub costs : Db → (today : Bool) (now : ℕ) → List Spend
costs db today now = group_by_model (counted today now db.cost_events)
