-- ===== src/Promotion/Examples.antt =====
-- Promotions into a small table: one that commits, and one whose `git add` fails.
use ztrade_ares_7x.Base.{ℕ, ◌≡◌, refl, true, false, none, some, [], ◌∷◌, arith}
use ztrade_ares_7x.Base.Result.{called_process_error, ok, err}
use ztrade_ares_7x.Db.{PromotionStatus, Promotion, Db}
use ztrade_ares_7x.Locks.Examples.{empty}
use ztrade_ares_7x.Promotion.{
  perform_promotion, Workspace, Request, already_committed, newly_committed,
}
use ztrade_ares_7x.Promotion.Idempotent.{perform_promotion-idempotent}
use ztrade_ares_7x.Promotion.Failing.{
  KeysUnique, perform_promotion-KeysUnique, committed_rows, perform_promotion-err,
}
use ztrade_ares_7x.Promotion.Rollback.{
  promotion_rollback, promotion_rollback-perform_promotion, IsReverted, reverted,
}

abbrev healthy : Workspace
healthy = record {
  candidate_file = ok "f00";
  copy = ok tt;
  paths_exist = true;
  add_code = 0;
  commit_code = 0;
  nothing_to_commit = false;
  head = "c0ffee";
}

abbrev failing : Workspace
failing = record healthy { add_code = 128 }

abbrev request : Request
request = record {
  run_id = 1;
  iteration_id = 7;
  candidate_hash = "abc";
  old_best_hash = none;
  idempotency_key = "1:7:abc";
}

committed : (perform_promotion empty request healthy 30 100).1 ≡ ok (newly_committed "c0ffee" "f00")
unfolding perform_promotion
committed = refl

perform_promotion-idempotent_example :
    perform_promotion (perform_promotion empty request healthy 30 100).0 request failing 31 200
    ≡ ((perform_promotion empty request healthy 30 100).0, ok (already_committed (some "c0ffee")))
perform_promotion-idempotent_example =
    perform_promotion-idempotent empty request request healthy failing 30 31 100 200 "c0ffee" "f00"
      committed refl

perform_promotion-KeysUnique_example :
    KeysUnique (perform_promotion empty request failing 30 100).0.promotions
perform_promotion-KeysUnique_example =
    perform_promotion-KeysUnique empty request failing 30 100 (λ key. omega arith)

add_fails : (perform_promotion empty request failing 30 100).1 ≡ err called_process_error
unfolding perform_promotion
add_fails = refl

perform_promotion-err_example :
    committed_rows (perform_promotion empty request failing 30 100).0.promotions ≡ []
perform_promotion-err_example = perform_promotion-err empty request failing 30 100 tt add_fails

abbrev promoted_row : Promotion
promoted_row = record {
  id = 30;
  run_id = 1;
  iteration_id = 7;
  candidate_hash = "abc";
  old_best_hash = none;
  new_best_hash = "f00";
  idempotency_key = "1:7:abc";
  status = PromotionStatus.committed;
  git_commit = some "c0ffee";
  promoted_at = 100;
}

abbrev promoted : Db
promoted = record empty { promotions = promoted_row ∷ [] }

rolled_back : (promotion_rollback promoted 7 (λ sha. true)).1 ≡ "c0ffee" ∷ []
unfolding promotion_rollback
rolled_back = refl

promotion_rollback-perform_promotion_example :
    (p : Promotion) × IsReverted promoted 7 "c0ffee" p
    × (promotion_rollback promoted 7 (λ sha. true) ≡ (reverted p.id "c0ffee", "c0ffee" ∷ []))
    × ((q : Request) (w : Workspace) (id now : ℕ)
        → q.idempotency_key ≡ p.idempotency_key
        → perform_promotion promoted q w id now
          ≡ (promoted, ok (already_committed (some "c0ffee"))))
promotion_rollback-perform_promotion_example =
    promotion_rollback-perform_promotion promoted 7 (λ sha. true) "c0ffee" [] (λ key. ground arith)
      rolled_back
