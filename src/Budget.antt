-- ===== src/Budget.antt =====
-- ar724/budget.py. Prices are whole numbers of hundred-thousandths of a dollar per 1000 tokens,
-- so that tokens times price over 1000 is in thousandths of a cent; Python's floats round the
-- same products.
pub mod Check
pub mod Spikes
pub mod Cost
pub mod Examples
use ztrade_ares_7x.Base.{
  ltb, ◌==◌, if◌then◌else◌, length, drop, select, sum_by, ℕ, ◌+◌, ◌-◌, ◌*◌, ◌/◌, Bool, true, false,
  not, ◌&&◌, Option, none, some, List, [], ◌∷◌, ◌++◌,
}
use ztrade_ares_7x.Db.{Run, CostEvent, Db}

abbrev pub day : ℕ → ℕ
day now = now / 86400

pub data Verdict : Type 0 where
  allowed run_exceeded daily_exceeded : Verdict

-- the WHERE of the SELECT, `run_id = ?`
abbrev pub of_run : ℕ → CostEvent → Bool
of_run run_id e = elim (e.run_id) [ none ↦ false | some r ↦ r == run_id ]

-- `created_at.startswith(today_prefix)`
abbrev pub on_day : ℕ → CostEvent → Bool
on_day now e = day e.created_at == day now

unfoldable pub spent : Db → ℕ → ℕ
spent db run_id = sum_by (λ e. e.cost_cents) (select (of_run run_id) db.cost_events)

unfoldable pub daily_spent : Db → ℕ → ℕ → ℕ
daily_spent db run_id now =
    sum_by (λ e. e.cost_cents) (select (on_day now) (select (of_run run_id) db.cost_events))

-- a limit of 0 is no limit
abbrev exceeds : ℕ → ℕ → Bool
exceeds total limit = not (limit == 0) && ltb limit total

unfoldable pub check_budget : Db → Run → ℕ → Verdict
check_budget db run now =
    if exceeds (spent db run.id) run.budget_cents
    then run_exceeded
    else if exceeds (daily_spent db run.id now) run.daily_budget_cents
    then daily_exceeded
    else allowed

abbrev pub is_allowed : Verdict → Bool
is_allowed allowed = true
is_allowed _ = false

-- `collections.deque(maxlen=window)`: an append drops the oldest entries that do not fit.
abbrev pub append_bounded {ℓ} : {A : Type ℓ} → ℕ → List A → A → List A
append_bounded window xs x = drop (length xs + 1 - window) (xs ++ x ∷ [])

pub record AnomalyDetector : Type 0 where
  pub window : ℕ
  pub recent_per_call : List ℕ
  pub recent_daily : List ℕ
  pub recent_per_iter : List ℕ

abbrev pub new_detector : ℕ → AnomalyDetector
new_detector window = record {
  window = window;
  recent_per_call = [];
  recent_daily = [];
  recent_per_iter = [];
}

pub data Anomaly : Type 0 where
  single_call_spike daily_spike per_iter_spike : Anomaly

-- `avg > 0 and cost > factor * avg` for the average of `recent`, multiplied out; 0 if it is empty
unfoldable pub spikes : ℕ → List ℕ → ℕ → Bool
spikes factor recent cost =
    ltb 0 (sum_by (λ c. c) recent) && ltb (factor * sum_by (λ c. c) recent) (cost * length recent)

abbrev when : Bool → Anomaly → Option Anomaly
when b a = if b then some a else none

unfoldable pub observe_call : AnomalyDetector → ℕ → AnomalyDetector × Option Anomaly
observe_call d cost = (
  record d { recent_per_call = append_bounded d.window d.recent_per_call cost },
  when (spikes 3 d.recent_per_call cost) single_call_spike,
)

abbrev pub days_kept : ℕ
days_kept = 7

unfoldable pub observe_daily : AnomalyDetector → ℕ → AnomalyDetector × Option Anomaly
observe_daily d cost = (
  record d { recent_daily = append_bounded days_kept d.recent_daily cost },
  when (spikes 2 d.recent_daily cost) daily_spike,
)

unfoldable pub observe_iter : AnomalyDetector → ℕ → AnomalyDetector × Option Anomaly
observe_iter d cost = (
  record d { recent_per_iter = append_bounded d.window d.recent_per_iter cost },
  when (spikes 2 d.recent_per_iter cost) per_iter_spike,
)
