-- ===== src/Evals/Examples.antt =====
-- Two fixtures, of which one is not JSON.
use ztrade_ares_7x.Base.{ℕ, ◌+◌, ◌≡◌, true, false, List, [], ◌∷◌}
use ztrade_ares_7x.Base.Result.{ok}
use ztrade_ares_7x.Locks.Examples.{empty}
use ztrade_ares_7x.Evals.{eval_run, eval_run_all, Fixture}
use ztrade_ares_7x.Evals.Graded.{passes, grades, eval_commands-graded}

abbrev fixtures : List Fixture
fixtures = record { stem = "a"; is_json = true } ∷ (record { stem = "b"; is_json = false } ∷ [])

abbrev ids : ℕ → ℕ
ids k = 50 + k

eval_commands-graded_test :
    (eval_run empty ids "a" 9 fixtures
      ≡ ok (record empty { eval_results = grades ids "a" 9 fixtures }))
    × (eval_run_all empty ids 9 fixtures
        ≡ ok (record empty { eval_results = passes ids 9 fixtures }))
eval_commands-graded_test = eval_commands-graded empty ids "a" 9 fixtures
