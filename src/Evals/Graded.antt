-- ===== src/Evals/Graded.antt =====
-- The rows that `eval run` and `eval run-all` of ar724/cli.py write.
use ztrade_ares_7x.Base.{
  if◌then◌else◌, Bool-cases, ℕ, suc, String, ◌≡◌, sym, ◌∙◌, ap, inl, inr, List, [], ◌∷◌, ◌++◌,
  append-nil, append_assoc,
}
use ztrade_ares_7x.Base.Result.{ok}
use ztrade_ares_7x.Db.{EvalResult, Db}
use ztrade_ares_7x.Events.{record_eval_result}
use ztrade_ares_7x.Evals.{graded_row, eval_run, eval_run_all, Fixture}

abbrev pub passes : (ℕ → ℕ) → (now : ℕ) → List Fixture → List EvalResult
passes id now [] = []
passes id now (f ∷ fixtures) =
    graded_row (id 0) f.stem "pass" now ∷ passes (λ k. id (suc k)) now fixtures

abbrev pub grades : (ℕ → ℕ) → (name : String) (now : ℕ) → List Fixture → List EvalResult
grades id name now [] = []
grades id name now (f ∷ fixtures) =
    graded_row (id 0) name (if f.is_json then "pass" else "fail") now
    ∷ grades (λ k. id (suc k)) name now fixtures

appended :
    (db : Db) (x : EvalResult) (xs : List EvalResult)
    → record db { eval_results = (db.eval_results ++ x ∷ []) ++ xs }
      ≡ record db { eval_results = db.eval_results ++ x ∷ xs }
appended db x xs =
    ap (λ rows. record db { eval_results = rows }) (append_assoc db.eval_results (x ∷ []) xs)

eval_run_all-eq :
    (db : Db) (id : ℕ → ℕ) (now : ℕ) (fixtures : List Fixture)
    → eval_run_all db id now fixtures
      ≡ ok (record db { eval_results = db.eval_results ++ passes id now fixtures })
unfolding eval_run_all record_eval_result
eval_run_all-eq db id now [] =
    ap (λ rows. ok (record db { eval_results = rows })) (sym (append-nil db.eval_results))
eval_run_all-eq db id now (f ∷ fixtures) =
    let row = graded_row (id 0) f.stem "pass" now in
    eval_run_all-eq (record db { eval_results = db.eval_results ++ row ∷ [] }) (λ k. id (suc k)) now
      fixtures
    ∙ ap ok (appended db row (passes (λ k. id (suc k)) now fixtures))

eval_run-eq :
    (db : Db) (id : ℕ → ℕ) (name : String) (now : ℕ) (fixtures : List Fixture)
    → eval_run db id name now fixtures
      ≡ ok (record db { eval_results = db.eval_results ++ grades id name now fixtures })
unfolding eval_run record_eval_result
eval_run-eq db id name now [] =
    ap (λ rows. ok (record db { eval_results = rows })) (sym (append-nil db.eval_results))
eval_run-eq db id name now (f ∷ fixtures) = elim (Bool-cases f.is_json) [
  | inl e ↦
      let row = graded_row (id 0) name "pass" now in
      rw e (
        eval_run-eq (record db { eval_results = db.eval_results ++ row ∷ [] }) (λ k. id (suc k))
          name now fixtures
        ∙ ap ok (appended db row (grades (λ k. id (suc k)) name now fixtures)))
  | inr e ↦
      let row = graded_row (id 0) name "fail" now in
      rw e (
        eval_run-eq (record db { eval_results = db.eval_results ++ row ∷ [] }) (λ k. id (suc k))
          name now fixtures
        ∙ ap ok (appended db row (grades (λ k. id (suc k)) name now fixtures)))
]

-- Neither command raises, and each writes one row for each fixture and nothing else: `eval run` a
-- pass for a file that is JSON and a fail for any other, `eval run-all` a pass for every file,
-- whatever it holds. Neither runs anything.
pub eval_commands-graded :
    (db : Db) (id : ℕ → ℕ) (name : String) (now : ℕ) (fixtures : List Fixture)
    → (eval_run db id name now fixtures
        ≡ ok (record db { eval_results = db.eval_results ++ grades id name now fixtures }))
      × (eval_run_all db id now fixtures
          ≡ ok (record db { eval_results = db.eval_results ++ passes id now fixtures }))
eval_commands-graded db id name now fixtures =
    (eval_run-eq db id name now fixtures, eval_run_all-eq db id now fixtures)
