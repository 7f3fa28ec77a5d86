-- ===== src/Budget/Check.antt =====
-- `check_budget` of ar724/budget.py
use ztrade_ares_7x.Base.{
  ◌==◌, if◌then◌else◌, Bool-cases, select, sum_by, ℕ, ◌+◌, ◌/◌, ◌≤◌, ◌≡◌, refl, ap, ◌↔◌, ◌⊎◌, inl,
  inr, Bool, Option, none, some, List, [], ◌∷◌, ◌++◌, arith,
}
use ztrade_ares_7x.Db.{Run, CostEvent, Db}
use ztrade_ares_7x.Budget.{spent, daily_spent, check_budget, allowed, of_run, on_day}

-- what a row of the ledger adds to the account of a run
abbrev pub share : (run_id : ℕ) → CostEvent → ℕ
share run_id e = elim (e.run_id) [ none ↦ 0 | some r ↦ if r == run_id then e.cost_cents else 0 ]

-- what all rows add to it, and what those of one day do
abbrev pub account : (run_id : ℕ) → List CostEvent → ℕ
account run_id [] = 0
account run_id (e ∷ es) = share run_id e + account run_id es

abbrev pub account_of_day : (run_id day : ℕ) → List CostEvent → ℕ
account_of_day run_id day [] = 0
account_of_day run_id day (e ∷ es) =
    (if e.created_at / 86400 == day then share run_id e else 0) + account_of_day run_id day es

row-account :
    (run_id n : ℕ) (e : CostEvent) (es : List CostEvent) (r : Option ℕ)
    → e.run_id ≡ r
    → sum_by (λ e. e.cost_cents) (select (of_run run_id) es) ≡ n
    → sum_by (λ e. e.cost_cents) (select (of_run run_id) (e ∷ es)) ≡ share run_id e + n
row-account run_id n e es none h ih = rw h (ground (arith, ih))
row-account run_id n e es (some r) h ih = elim (Bool-cases (r == run_id)) [
  | inl q ↦ rw (h, q) (ap (λ k. e.cost_cents + k) ih)
  | inr q ↦ rw (h, q) (ground (arith, ih))
]

select-account :
    (run_id : ℕ) (es : List CostEvent)
    → sum_by (λ e. e.cost_cents) (select (of_run run_id) es) ≡ account run_id es
select-account run_id [] = refl
select-account run_id (e ∷ es) =
    row-account run_id (account run_id es) e es e.run_id refl (select-account run_id es)

row-account_of_day :
    (run_id now n : ℕ) (e : CostEvent) (es : List CostEvent) (r : Option ℕ)
    → e.run_id ≡ r
    → sum_by (λ e. e.cost_cents) (select (on_day now) (select (of_run run_id) es)) ≡ n
    → sum_by (λ e. e.cost_cents) (select (on_day now) (select (of_run run_id) (e ∷ es)))
      ≡ (if e.created_at / 86400 == now / 86400 then share run_id e else 0) + n
row-account_of_day run_id now n e es none h ih = rw h (ground (arith, ih))
row-account_of_day run_id now n e es (some r) h ih = elim (Bool-cases (r == run_id)) [
  | inl q ↦ rw (h, q) (ground (arith, ih))
  | inr q ↦ rw (h, q) (ground (arith, ih))
]

select-account_of_day :
    (run_id now : ℕ) (es : List CostEvent)
    → sum_by (λ e. e.cost_cents) (select (on_day now) (select (of_run run_id) es))
      ≡ account_of_day run_id (now / 86400) es
select-account_of_day run_id now [] = refl
select-account_of_day run_id now (e ∷ es) =
    row-account_of_day run_id now (account_of_day run_id (now / 86400) es) e es e.run_id refl
      (select-account_of_day run_id now es)

-- A run is within its budget exactly if each limit that is not 0 is at least its account: what the
-- rows of the ledger that are the run's add up to, in all, and over the rows of the current day.
-- Rows of other runs, or of none, are charged to neither.
pub check_budget-allowed_iff :
    (db : Db) (run : Run) (now : ℕ)
    → (check_budget db run now ≡ allowed) ↔ (
        ((run.budget_cents ≡ 0) ⊎ (account run.id db.cost_events ≤ run.budget_cents))
        × ((run.daily_budget_cents ≡ 0)
            ⊎ (account_of_day run.id (now / 86400) db.cost_events ≤ run.daily_budget_cents)))
unfolding check_budget spent daily_spent
check_budget-allowed_iff db run now =
    let all = select-account run.id db.cost_events in
    let today = select-account_of_day run.id now db.cost_events in
    (λ h. ground (arith, all, today), λ h. ground (arith, all, today))

abbrev cents : CostEvent → ℕ
cents e = e.cost_cents

spent-append :
    (p : CostEvent → Bool) (xs : List CostEvent) (e : CostEvent)
    → sum_by cents (select p xs) ≤ sum_by cents (select p (xs ++ e ∷ []))
spent-append p [] e = omega arith
spent-append p (x ∷ xs) e = ground (arith, spent-append p xs e)

daily-append :
    (p q : CostEvent → Bool) (xs : List CostEvent) (e : CostEvent)
    → sum_by cents (select p (select q xs)) ≤ sum_by cents (select p (select q (xs ++ e ∷ [])))
daily-append p q [] e = omega arith
daily-append p q (x ∷ xs) e = ground (arith, daily-append p q xs e)

-- Recording a cost never turns a refusal into a permission: whatever the new event costs and
-- whichever run it belongs to, a run that is within its budget with it is so without it.
check_budget-monotone :
    (db : Db) (run : Run) (now : ℕ) (e : CostEvent)
    → check_budget (record db { cost_events = db.cost_events ++ e ∷ [] }) run now ≡ allowed
    → check_budget db run now ≡ allowed
unfolding check_budget spent daily_spent
check_budget-monotone db run now e h = ground (
  arith,
  spent-append (of_run run.id) db.cost_events e,
  daily-append (on_day now) (of_run run.id) db.cost_events e,
)
