-- ===== src/Evaluator/Stub.antt =====
-- What a run of the default script decides: ar724/evaluator_runner.py
use ztrade_ares_7x.Base.{
  leb, if◌then◌else◌, Bool-cases, ℕ, ◌+◌, ◌≤◌, min, String, ◌≡◌, refl, sym, ◌∙◌, ap, ◌↔◌, inl, inr,
  Bool, true, false, Option, none, some, [], ◌∷◌, ◌++◌, arith,
}
use ztrade_ares_7x.Base.Int.{ℤ, pos}
use ztrade_ares_7x.Base.Result.{Result, ok}
use ztrade_ares_7x.Db.{Evaluation, Db}
use ztrade_ares_7x.Evaluator.{
  factor_count, score, default_script, write_inputs, staged, run_evaluator, Fields, CandidateFile,
  RunDir, EvaluatorResult, not_json, not_dict, dict, status_of, score_of, record_evaluator, settle,
  evaluate,
}

-- a directory without outputs of an earlier run
abbrev pub IsFresh : RunDir → Type 0
IsFresh dir = (dir.metrics ≡ none) × (dir.status ≡ none)

-- What the evaluator is to decide of a candidate file.
abbrev pub verdict : ℕ → Option CandidateFile → String
verdict floor (some (dict f)) =
    if f.weights_summable then if leb floor (score f) then "KEEP" else "DISCARD" else "BLOCKED"
verdict floor _ = "BLOCKED"

abbrev pub score_or_zero : Option CandidateFile → ℤ
score_or_zero (some (dict f)) = if f.weights_summable then pos (score f) else pos 0
score_or_zero _ = pos 0

abbrev pub IsVerdict :
    Db → String → ℕ → Option CandidateFile → Result (Db × EvaluatorResult) → Type 0
IsVerdict db hash floor c r =
    (result : EvaluatorResult) × (row : Evaluation) × (r
      ≡ ok (record db { evaluations = db.evaluations ++ row ∷ [] }, result))
    × (result.decision ≡ verdict floor c)
    × (row.decision ≡ verdict floor c)
    × (row.candidate_hash ≡ hash)
    × (row.score ≡ score_or_zero c)

settle-IsVerdict :
    (db : Db) (hash : String) (floor : ℕ) (dir : RunDir) (id now : ℕ) (c : Option CandidateFile)
    → IsFresh dir
    → IsVerdict db hash floor c
        (settle db hash id now (evaluate floor dir c) (evaluate floor dir c).code)
unfolding record_evaluator
settle-IsVerdict db hash floor dir id now none (m, s) = rw m (_, _, refl, refl, refl, refl, refl)
settle-IsVerdict db hash floor dir id now (some not_json) (m, s) =
    rw m (_, _, refl, refl, refl, refl, refl)
settle-IsVerdict db hash floor dir id now (some not_dict) (m, s) =
    rw m (_, _, refl, refl, refl, refl, refl)
settle-IsVerdict db hash floor dir id now (some (dict f)) (m, s) =
    elim (Bool-cases f.weights_summable) [
      | inl e ↦ rw e (_, _, refl, refl, refl, refl, refl)
      | inr e ↦ rw (e, m) (_, _, refl, refl, refl, refl, refl)
    ]

write_inputs-IsFresh :
    (c : Option CandidateFile) (dir : RunDir) → IsFresh dir → IsFresh (write_inputs c dir)
write_inputs-IsFresh none dir h = h
write_inputs-IsFresh (some c) dir h = h

-- In a directory without old outputs the default script always gives a result: one evaluation of
-- the candidate is added, with the verdict that its staged file deserves and its score.
pub run_evaluator-IsVerdict :
    (db : Db) (hash : String) (floor : ℕ) (candidate_mutable : Option CandidateFile) (dir : RunDir)
    (id now : ℕ)
    → IsFresh dir
    → IsVerdict db hash floor
        (staged candidate_mutable dir)
        (run_evaluator db hash candidate_mutable (default_script floor) dir id now).1
unfolding run_evaluator default_script
run_evaluator-IsVerdict db hash floor candidate_mutable dir id now fresh =
    settle-IsVerdict db hash floor (write_inputs candidate_mutable dir) id now
      (staged candidate_mutable dir) (write_inputs-IsFresh candidate_mutable dir fresh)

-- Old outputs outlive a failing script: if the weights of the candidate do not sum, the script
-- writes nothing, and the evaluation takes decision and score from the files of an earlier run.
run_evaluator-stale :
    (db : Db) (hash : String) (floor : ℕ) (f : Fields) (dir : RunDir) (id now : ℕ) (s : ℤ)
    → f.weights_summable ≡ false
    → dir.metrics ≡ some (score_of s)
    → dir.status ≡ some (status_of (some "DECIDED") (some "KEEP"))
    → (run_evaluator db hash (some (dict f)) (default_script floor) dir id now).1
      ≡ ok (record_evaluator db hash "KEEP" s true id now)
unfolding run_evaluator default_script
run_evaluator-stale db hash floor f dir id now s bad metrics status = rw (bad, metrics, status)

chosen :
    (b : Bool) (n : ℕ)
    → (◌≡◌ {A = String}
        (if b then if leb 9 (min 10 (n + 5)) then "KEEP" else "DISCARD" else "BLOCKED")
        "KEEP")
      ↔ ((b ≡ true) × (4 ≤ n))
chosen false n = (λ h. cc, λ h. cc (h.0))
chosen true n = elim (Bool-cases (leb 9 (min 10 (n + 5)))) [
  | inl e ↦ (λ h. (refl, ground arith), λ h. rw e)
  | inr e ↦ (λ h. discarded (rw e at h), λ h. ground arith)
]
  where
    discarded : {A : Type 0} → ◌≡◌ {A = String} "DISCARD" "KEEP" → A
    discarded h = cc

verdict-keep_iff :
    (f : Fields)
    → (verdict 9 (some (dict f)) ≡ "KEEP") ↔ ((f.weights_summable ≡ true) × (4 ≤ factor_count f))
verdict-keep_iff f = chosen f.weights_summable (factor_count f)

-- At the default floor of 0.9, in a directory without old outputs, a candidate with members is
-- kept exactly if its weights sum and it has at least four factors.
run_evaluator-keep_iff :
    (db : Db) (hash : String) (f : Fields) (dir : RunDir) (id now : ℕ)
    → IsFresh dir
    → ((after : Db) × (result : EvaluatorResult) × ((run_evaluator db hash
            (some (dict f))
            (default_script 9)
            dir
            id
            now).1
          ≡ ok (after, result))
        × (result.decision ≡ "KEEP"))
      ↔ ((f.weights_summable ≡ true) × (4 ≤ factor_count f))
run_evaluator-keep_iff db hash f dir id now fresh =
    let (result, row, e, decided, _, _, _) =
      run_evaluator-IsVerdict db hash 9 (some (dict f)) dir id now fresh in
    (
      λ (after, other, e', kept).
          let one : result ≡ other = ok-inj (sym e ∙ e') in
          (verdict-keep_iff f).0
            (sym decided ∙ ap (λ (r : EvaluatorResult). r.decision) one ∙ kept),
      λ h. (_, result, e, decided ∙ (verdict-keep_iff f).1 h),
    )
  where
    ok-inj : {a b : Db × EvaluatorResult} → ok a ≡ ok b → a.1 ≡ b.1
    ok-inj e = cc e
