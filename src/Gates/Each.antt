-- ===== src/Gates/Each.antt =====
-- When each gate of ar724/promotion_gate.py passes.
use mathlib.Core.Option
use ztrade_ares_7x.Base.{
  zero, suc, if◌then◌else◌, Bool-cases, Option-cases, all, In, In-select, select-In, greatest-In,
  greatest-none, ℕ, ◌≤◌, ◌<◌, String, ◌≡◌, refl, ap, subst, ◌≢◌, ◌↔◌, inl, inr, Bool, true, false,
  Option, none, some, List, [], ◌∷◌, arith, str_eq, eq_iff, suc,
}
use ztrade_ares_7x.Base.Int.{ℤ, pos, negsuc}
use ztrade_ares_7x.Base.Floats.{below_ratio, regresses}
use ztrade_ares_7x.Base.Result.{ok}
use ztrade_ares_7x.Db.{Run, Evaluation, Lock, Db}
use ztrade_ares_7x.Budget.{check_budget, allowed}
use ztrade_ares_7x.Gates.{
  gate_schema, in_scope, gate_scope, gate_candidate_hash, latest_evaluation, gate_stale_artifact,
  gate_deterministic_evaluation, gate_metric, gate_reviewer_independence, find_run, gate_budget,
  gate_loop, gate_promotion_lock, SchemaFile, accepts, regressed,
}

pub gate_schema_iff :
    (path : String) (files : String → SchemaFile)
    → (gate_schema path files ≡ ok none) ↔ ((path ≢ "") × (files path ≡ accepts))
unfolding gate_schema
gate_schema_iff path files =
    (λ h. ground (arith, eq_iff path ""), λ h. ground (arith, eq_iff path ""))

pub gate_scope_iff :
    (paths allowed_paths : List String)
    → (gate_scope paths allowed_paths ≡ none) ↔ (all (in_scope allowed_paths) paths ≡ true)
unfolding gate_scope
gate_scope_iff [] allowed_paths = (λ h. refl, λ h. refl)
gate_scope_iff (p ∷ ps) allowed_paths =
    let (there, back) = gate_scope_iff ps allowed_paths in
    elim (Bool-cases (in_scope allowed_paths p)) [
      | inl e ↦ rw e (there, back)
      | inr e ↦ (λ h. ground arith, λ h. ground arith)
    ]

-- There is an evaluation of the candidate.
abbrev pub Evaluated : Db → String → Type 0
Evaluated db hash = (e : Evaluation) × In e db.evaluations × (e.candidate_hash ≡ hash)

pub latest_evaluation-some :
    (db : Db) (hash : String) {e : Evaluation}
    → latest_evaluation db hash ≡ some e
    → In e db.evaluations × (e.candidate_hash ≡ hash)
unfolding latest_evaluation
latest_evaluation-some db hash {e} h =
    let (listed, same) =
      select-In (λ (r : Evaluation). str_eq r.candidate_hash hash) e db.evaluations
        (greatest-In (λ (r : Evaluation). r.created_at) _ h) in
    (listed, (eq_iff e.candidate_hash hash).0 same)

pub latest_evaluation-none :
    (db : Db) (hash : String) → latest_evaluation db hash ≡ none → ¬ Evaluated db hash
unfolding latest_evaluation
latest_evaluation-none db hash h (e, listed, same) =
    subst (In e) (greatest-none (λ (r : Evaluation). r.created_at) _ h) (
      In-select (λ (r : Evaluation). str_eq r.candidate_hash hash) e db.evaluations listed
        ((eq_iff e.candidate_hash hash).1 same))

pub gate_candidate_hash_iff :
    (db : Db) (hash : String)
    → (gate_candidate_hash hash (Option.map (λ e. e.candidate_hash) (latest_evaluation db hash))
        ≡ none)
      ↔ ((hash ≢ "") × Evaluated db hash)
unfolding gate_candidate_hash
gate_candidate_hash_iff db hash = elim (Option-cases (latest_evaluation db hash)) [
  | inl e ↦ rw e (λ h. cc, λ h. absurd (latest_evaluation-none db hash e h.1))
  | inr (row, e) ↦
      let (listed, same) = latest_evaluation-some db hash {e = row} e in
      rw e (
        λ h. (
          ground (arith, eq_iff row.candidate_hash "", eq_iff hash row.candidate_hash),
          (row, listed, same),
        ),
        λ h. ground (arith, eq_iff row.candidate_hash "", eq_iff hash row.candidate_hash),
      )
]

pub gate_stale_artifact_iff :
    (db : Db) (hash : String) (iteration_id : ℕ)
    → (gate_stale_artifact hash iteration_id db ≡ none) ↔ Evaluated db hash
unfolding gate_stale_artifact
gate_stale_artifact_iff db hash iteration_id = elim (Option-cases (latest_evaluation db hash)) [
  | inl e ↦ rw e (λ h. cc, λ h. absurd (latest_evaluation-none db hash e h))
  | inr (row, e) ↦
      let (listed, same) = latest_evaluation-some db hash {e = row} e in
      rw e (λ h. (row, listed, same), λ h. ground (arith, eq_iff row.candidate_hash hash))
]

pub gate_deterministic_evaluation_iff :
    (d : Option String) → (gate_deterministic_evaluation d ≡ none) ↔ (d ≡ some "KEEP")
unfolding gate_deterministic_evaluation
gate_deterministic_evaluation_iff none = (λ h. cc, λ h. cc)
gate_deterministic_evaluation_iff (some d) = (
  λ h. ap some ((eq_iff d "KEEP").0 (ground arith)),
  λ h. ground (arith, eq_iff d "KEEP", eq_iff d "DISCARD", eq_iff d "BLOCKED"),
)

pub gate_metric_iff :
    (candidate best : ℤ)
    → (gate_metric candidate best ≡ none)
      ↔ ((b : ℕ) → best ≡ pos (suc b) → below_ratio candidate (suc b) ≡ false)
unfolding gate_metric
gate_metric_iff candidate (pos zero) = (λ h b e. absurd cc, λ h. refl)
gate_metric_iff candidate (negsuc n) = (λ h b e. absurd cc, λ h. refl)
gate_metric_iff candidate (pos (suc n)) = (
  λ h b e.
      subst (λ z. regresses candidate z ≡ false) e (passed (regresses candidate (pos (suc n))) h),
  λ h. rw (h n refl),
)
  where
    passed : (x : Bool) → (if x then some regressed else none) ≡ none → x ≡ false
    passed true h = absurd cc
    passed false h = refl

-- The reviewer's job is there, and is neither the builder's nor the evaluator's.
abbrev pub Independent : Option ℕ → Option ℕ → Option ℕ → Type 0
Independent reviewer builder evaluator =
    (r : ℕ) × (reviewer ≡ some r) × (builder ≢ some r) × (evaluator ≢ some r)

pub gate_reviewer_independence_iff :
    (reviewer builder evaluator : Option ℕ)
    → (gate_reviewer_independence reviewer builder evaluator ≡ none)
      ↔ Independent reviewer builder evaluator
unfolding gate_reviewer_independence
gate_reviewer_independence_iff none builder evaluator = (λ h. cc, λ h. cc (h.1))
gate_reviewer_independence_iff (some r) builder evaluator =
    (λ h. (r, refl, λ b. ground arith, λ e. ground arith), λ h. ground (arith, h.2, h.3))

pub gate_budget_iff :
    (db : Db) (run_id now : ℕ)
    → (gate_budget db run_id now ≡ none)
      ↔ ((run : Run) × (find_run db run_id ≡ some run) × (check_budget db run now ≡ allowed))
unfolding gate_budget
gate_budget_iff db run_id now = elim (Option-cases (find_run db run_id)) [
  | inl e ↦ (λ h. ground arith, λ h. cc (h.1))
  | inr (run, e) ↦ (λ h. (run, e, ground arith), λ h. ground arith)
]

pub gate_loop_iff :
    (discards blockeds : ℕ) (fired : Bool)
    → (gate_loop discards blockeds fired ≡ none)
      ↔ ((discards < 5) × (blockeds < 3) × (fired ≡ false))
unfolding gate_loop
gate_loop_iff discards blockeds fired = (λ h. ground arith, λ h. ground arith)

pub gate_promotion_lock_iff :
    (db : Db) (run_id now : ℕ)
    → (gate_promotion_lock db run_id now ≡ none) ↔ (
        (l : Lock) × (db.promotion_lock ≡ some l)
        × (l.holder ≡ run_id)
        × (now ≤ l.lease_expires_at))
unfolding gate_promotion_lock
gate_promotion_lock_iff db run_id now = elim (Option-cases (db.promotion_lock)) [
  | inl e ↦ (λ h. ground arith, λ h. cc (h.1))
  | inr (l, e) ↦ (λ h. (l, e, ground arith, ground arith), λ h. ground arith)
]
