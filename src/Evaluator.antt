-- ===== src/Evaluator.antt =====
-- ar724/evaluator_runner.py. A score is in tenths, in which the script's `0.1 * n + 0.5` is a whole
-- number; the elapsed time and the metrics but the score are left out. A file is what `json.loads`
-- makes of it.
pub mod Stub
pub mod Examples
use ztrade_ares_7x.Base.{
  leb, ◌==◌, if◌then◌else◌, is_some, ℕ, ◌+◌, ◌*◌, min, String, Bool, true, false, not, ◌&&◌, ◌||◌,
  Option, none, some, [], ◌∷◌, ◌++◌, str_eq,
}
use ztrade_ares_7x.Base.Int.{ℤ, pos}
use ztrade_ares_7x.Base.Result.{◌>>=◌, ◌>>◌, Result, value_error, ok, err}
use ztrade_ares_7x.Db.{Evaluation, Db}

-- A member: `some n` for a list of n entries, none for what is no list.
abbrev pub Listed : Type 0
Listed = Option ℕ

-- The members of a candidate that the script reads. `weights_summable` is false if summing the
-- weights raises: they have no `values`, or one of the values is no number.
pub record Fields : Type 0 where
  pub factor_inclusion : Option Listed
  pub factors : Option Listed
  pub weights_summable : Bool

pub data CandidateFile : Type 0 where
  not_json not_dict : CandidateFile
  dict : Fields → CandidateFile

-- run_status.json: no mapping, or the texts under `status` and `decision`, each if it is there.
-- What is no mapping raises, a JSONDecodeError or an AttributeError: one exception stands for both.
pub data StatusFile : Type 0 where
  bad_status : StatusFile
  status_of : (status decision : Option String) → StatusFile

-- metrics.json: no mapping, or one without a number as `score`, or with it
pub data MetricsFile : Type 0 where
  bad_metrics unscored : MetricsFile
  score_of : ℤ → MetricsFile

-- The run directory of a candidate. It is kept from one run to the next.
pub record RunDir : Type 0 where
  pub candidate : Option CandidateFile
  pub metrics : Option MetricsFile
  pub status : Option StatusFile

-- What a script leaves: the directory, and its exit code if it ended in time.
pub record Ran : Type 0 where
  pub dir : RunDir
  pub code : Option ℕ

abbrev factor_list : Fields → Listed
factor_list f = elim (f.factor_inclusion) [
  | some l ↦ l
  | none ↦ elim (f.factors) [ some l ↦ l | none ↦ some 0 ]
]

abbrev pub factor_count : Fields → ℕ
factor_count f = elim (factor_list f) [ some n ↦ n | none ↦ 0 ]

abbrev pub score : Fields → ℕ
score f = min 10 (factor_count f + 5)

abbrev blocked : RunDir → Ran
blocked dir = record {
  dir = record dir { status = some (status_of (some "BLOCKED") none) };
  code = some 2;
}

abbrev scored : ℕ → RunDir → Fields → Ran
scored floor dir f = record {
  dir = record dir {
    metrics = some (score_of (pos (score f)));
    status =
        some
          (status_of (some "DECIDED") (some (if leb floor (score f) then "KEEP" else "DISCARD")));
  };
  code = some 0;
}

abbrev evaluate : ℕ → RunDir → Option CandidateFile → Ran
evaluate floor dir none = blocked dir
evaluate floor dir (some not_json) = blocked dir
evaluate floor dir (some not_dict) = blocked dir
evaluate floor dir (some (dict f)) =
    if f.weights_summable then scored floor dir f else record { dir = dir; code = some 1 }

-- The default script. An exception that it does not catch ends it with code 1.
unfoldable pub default_script : ℕ → RunDir → Ran
default_script floor dir = evaluate floor dir dir.candidate

-- `_write_inputs`: a candidate file that does not exist leaves the staged one as it is.
abbrev pub write_inputs : Option CandidateFile → RunDir → RunDir
write_inputs none dir = dir
write_inputs (some c) dir = record dir { candidate = some c }

-- the staged file that the script reads
abbrev pub staged : Option CandidateFile → RunDir → Option CandidateFile
staged candidate_mutable dir = (write_inputs candidate_mutable dir).candidate

pub record EvaluatorResult : Type 0 where
  pub candidate_hash : String
  pub decision : String
  pub score : ℤ
  pub failed : Bool

-- `failed`: the error message is not empty
abbrev pub evaluation_row : (hash decision : String) → ℤ → Bool → (id now : ℕ) → Evaluation
evaluation_row hash decision score failed id now = record {
  id = id;
  candidate_hash = hash;
  decision = decision;
  score = score;
  error_message = if failed then "failed" else "";
  created_at = now;
}

unfoldable pub record_evaluator :
    Db → (hash decision : String) → ℤ → Bool → (id now : ℕ) → Db × EvaluatorResult
record_evaluator db hash decision score failed id now = (
  record db {
    evaluations = db.evaluations ++ evaluation_row hash decision score failed id now ∷ [];
  },
  record { candidate_hash = hash; decision = decision; score = score; failed = failed },
)

abbrev pub metrics_score : MetricsFile → Result ℤ
metrics_score bad_metrics = err value_error
metrics_score unscored = ok (pos 0)
metrics_score (score_of s) = ok s

-- `status.get("decision", "DISCARD")`, and BLOCKED if that is the status
abbrev pub decision_of : Option String → Option String → String
decision_of (some status) decision =
    if str_eq status "BLOCKED" then "BLOCKED" else elim decision [ some d ↦ d | none ↦ "DISCARD" ]
decision_of none decision = elim decision [ some d ↦ d | none ↦ "DISCARD" ]

abbrev pub read_outputs : Option MetricsFile → Option StatusFile → Result (String × ℤ)
read_outputs none status = ok ("BLOCKED", pos 0)
read_outputs (some m) none = ok ("BLOCKED", pos 0)
read_outputs (some m) (some bad_status) = err value_error
read_outputs (some m) (some (status_of s d)) = do
  score ← metrics_score m
  ok (decision_of s d, score)

abbrev pub missing_output : RunDir → Bool
missing_output dir = not (is_some dir.metrics && is_some dir.status)

abbrev pub settle : Db → String → (id now : ℕ) → Ran → Option ℕ → Result (Db × EvaluatorResult)
settle db hash id now ran none = ok (record_evaluator db hash "BLOCKED" (pos 0) true id now)
settle db hash id now ran (some code) = do
  read ← read_outputs ran.dir.metrics ran.dir.status
  ok (record_evaluator db hash read.0 read.1 (missing_output ran.dir || not (code == 0)) id now)

-- The result with the database, and the directory that is left in every case.
unfoldable pub run_evaluator :
    Db
    → (hash : String) → Option CandidateFile
    → (RunDir → Ran)
    → RunDir
    → (id now : ℕ) → RunDir × Result (Db × EvaluatorResult)
unfolding record_evaluator
run_evaluator db hash candidate_mutable script dir id now =
    let ran = script (write_inputs candidate_mutable dir) in
    (ran.dir, settle db hash id now ran ran.code)
