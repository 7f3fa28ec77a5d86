-- ===== src/Evals.antt =====
-- `eval run` and `eval run-all` of ar724/cli.py, and `_parse_since`, which `events --since` uses.
-- The fixtures are given in the order in which the file system or `sorted` has them.
pub mod Graded
pub mod Since
pub mod Examples
use ztrade_ares_7x.Base.{if◌then◌else◌, ℕ, suc, String, Bool, none, List, [], ◌∷◌}
use ztrade_ares_7x.Base.Result.{◌>>=◌, ◌>>◌, Result, value_error, err, ok}
use ztrade_ares_7x.Db.{EvalResult, Db}
use ztrade_ares_7x.Events.{record_eval_result}

-- `is_json` says whether `json.loads` takes the text of the file
pub record Fixture : Type 0 where
  pub stem : String
  pub is_json : Bool

abbrev pub graded_row : (id : ℕ) (name result : String) (now : ℕ) → EvalResult
graded_row id name result now = record {
  id = id;
  run_id = none;
  name = name;
  result = result;
  created_at = now;
}

-- `except Exception`: a second row, `fail`; what raises in it raises
abbrev pub or_fail : Db → (fail_id : ℕ) (name : String) (now : ℕ) → Result Db → Result Db
or_fail db fail_id name now (ok after) = ok after
or_fail db fail_id name now (err e) = record_eval_result db (graded_row fail_id name "fail" now)

abbrev pub read_fixture : Fixture → Result (Unit {0})
read_fixture f = if f.is_json then ok tt else err value_error

abbrev pub grade_one : Db → (id : ℕ) (name : String) (now : ℕ) → Fixture → Result Db
grade_one db id name now f =
    or_fail db id name now (read_fixture f >> record_eval_result db (graded_row id name "pass" now))

-- `eval run`: the file is read, and `id k` is the uuid for the file at place `k`
unfoldable pub eval_run : Db → (ℕ → ℕ) → (name : String) (now : ℕ) → List Fixture → Result Db
unfolding record_eval_result
eval_run db id name now [] = ok db
eval_run db id name now (f ∷ fixtures) =
    grade_one db (id 0) name now f >>= λ after. eval_run after (λ k. id (suc k)) name now fixtures

-- `eval run-all`: no file is read
unfoldable pub eval_run_all : Db → (ℕ → ℕ) → (now : ℕ) → List Fixture → Result Db
unfolding record_eval_result
eval_run_all db id now [] = ok db
eval_run_all db id now (f ∷ fixtures) =
    or_fail db (id 0) f.stem now (record_eval_result db (graded_row (id 0) f.stem "pass" now))
    >>= λ after. eval_run_all after (λ k. id (suc k)) now fixtures
