-- ===== src/Evaluator/Examples.antt =====
-- The default script at a candidate with five factors.
use ztrade_ares_7x.Base.{refl, true, none, some}
use ztrade_ares_7x.Locks.Examples.{empty}
use ztrade_ares_7x.Evaluator.{default_script, run_evaluator, Fields, RunDir, dict}
use ztrade_ares_7x.Evaluator.Stub.{IsVerdict, run_evaluator-IsVerdict}

abbrev five : Fields
five = record { factor_inclusion = some (some 5); factors = none; weights_summable = true }

abbrev new_dir : RunDir
new_dir = record { candidate = none; metrics = none; status = none }

run_evaluator-IsVerdict_example :
    IsVerdict empty "abc" 9
      (some (dict five))
      (run_evaluator empty "abc" (some (dict five)) (default_script 9) new_dir 1 100).1
run_evaluator-IsVerdict_example =
    run_evaluator-IsVerdict empty "abc" 9 (some (dict five)) new_dir 1 100 (refl, refl)
