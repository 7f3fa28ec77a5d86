-- ===== src/Promotion.antt =====
-- The promotion transaction of ar724/promotion_gate.py: `perform_promotion` and `_git_commit`.
-- What the file system and git answer during one call is an argument.
pub mod Idempotent
pub mod Failing
pub mod Rollback
pub mod Examples
use ztrade_ares_7x.Base.{
  ◌==◌, if◌then◌else◌, update_where, find, ℕ, String, Bool, true, false, not, ◌&&◌, Option, none,
  some, List, [], ◌∷◌, ◌++◌, str_eq,
}
use ztrade_ares_7x.Base.Result.{◌>>◌, Result, runtime_error, called_process_error, ok, err}
use ztrade_ares_7x.Db.{PromotionStatus, Promotion, Db}

-- The answers of the file system and of git: the hash of the candidate file or the error of
-- reading it, the copy into best/, whether one of the three paths exists, the exit codes of
-- `git add` and `git commit`, whether the latter said "nothing to commit", and HEAD after it.
pub record Workspace : Type 0 where
  pub candidate_file : Result String
  pub copy : Result (Unit {0})
  pub paths_exist : Bool
  pub add_code : ℕ
  pub commit_code : ℕ
  pub nothing_to_commit : Bool
  pub head : String

unfoldable pub git_commit : Workspace → Result String
git_commit w =
    if not w.paths_exist
    then ok ""
    else if not (w.add_code == 0)
    then err called_process_error
    else if not (w.commit_code == 0) && not w.nothing_to_commit
    then err runtime_error
    else ok w.head

-- the keyword arguments, with the idempotency key given or derived
pub record Request : Type 0 where
  pub run_id : ℕ
  pub iteration_id : ℕ
  pub candidate_hash : String
  pub old_best_hash : Option String
  pub idempotency_key : String

pub data Outcome : Type 0 where
  already_committed : Option String → Outcome
  newly_committed : (git_commit new_best_hash : String) → Outcome

abbrev pub has_key : String → Promotion → Bool
has_key key p = str_eq p.idempotency_key key

abbrev pub set_status : PromotionStatus → Promotion → Promotion
set_status s p = record p { status = s }

abbrev pub prepared_row : Request → String → (id now : ℕ) → Promotion
prepared_row q new_best_hash id now = record {
  id = id;
  run_id = q.run_id;
  iteration_id = q.iteration_id;
  candidate_hash = q.candidate_hash;
  old_best_hash = q.old_best_hash;
  new_best_hash = new_best_hash;
  idempotency_key = q.idempotency_key;
  status = PromotionStatus.prepared;
  git_commit = none;
  promoted_at = now;
}

-- The INSERT of a new row, or the UPDATE of the one that is there to `applying`; with the row's id.
abbrev pub stage : List Promotion → Option Promotion → Promotion → List Promotion × ℕ
stage rows none fresh = (rows ++ fresh ∷ [], fresh.id)
stage rows (some old) fresh =
    (update_where (λ p. p.id == old.id) (set_status PromotionStatus.applying) rows, old.id)

abbrev pub committed_row : String → ℕ → Promotion → Promotion
committed_row sha now p = record p {
  status = PromotionStatus.committed;
  git_commit = some sha;
  promoted_at = now;
}

-- The last UPDATE, if the copy and git succeeded; what was written before stays written.
abbrev pub conclude :
    List Promotion → ℕ → ℕ → String → Result String → List Promotion × Result Outcome
conclude rows id now new_best_hash (err e) = (rows, err e)
conclude rows id now new_best_hash (ok sha) = (
  update_where (λ p. p.id == id) (committed_row sha now) rows,
  ok (newly_committed sha new_best_hash),
)

abbrev pub apply :
    List Promotion
    → Option Promotion
    → Request
    → Workspace
    → (id now : ℕ) → Result String
    → List Promotion × Result Outcome
apply rows existing q w id now (err e) = (rows, err e)
apply rows existing q w id now (ok new_best_hash) =
    let (staged, promotion_id) = stage rows existing (prepared_row q new_best_hash id now) in
    conclude staged promotion_id now new_best_hash (w.copy >> git_commit w)

abbrev pub is_committed : PromotionStatus → Bool
is_committed PromotionStatus.committed = true
is_committed _ = false

abbrev pub promote_rows :
    List Promotion
    → Option Promotion
    → Request
    → Workspace
    → (id now : ℕ) → List Promotion × Result Outcome
promote_rows rows none q w id now = apply rows none q w id now w.candidate_file
promote_rows rows (some old) q w id now =
    if is_committed old.status
    then (rows, ok (already_committed old.git_commit))
    else apply rows (some old) q w id now w.candidate_file

unfoldable pub perform_promotion : Db → Request → Workspace → (id now : ℕ) → Db × Result Outcome
unfolding git_commit
perform_promotion db q w id now =
    let (rows, outcome) =
      promote_rows db.promotions (find (has_key q.idempotency_key) db.promotions) q w id now in
    (record db { promotions = rows }, outcome)
