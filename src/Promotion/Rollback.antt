-- ===== src/Promotion/Rollback.antt =====
-- `promotion rollback` of ar724/cli.py, and a promotion after it. `revert` says of a commit whether
-- `git revert` succeeds on it.
use ztrade_ares_7x.Base.{
  ◌==◌, if◌then◌else◌, ==_iff, Bool-cases, In, select, find, count, In-select, select-In, count-pos,
  ℕ, ◌≤◌, String, ◌≡◌, refl, sym, ap, subst, inl, inr, Bool, true, Option, none, some, List, [],
  ◌∷◌, arith, str_eq, eq_iff,
}
use ztrade_ares_7x.Base.Result.{ok}
use ztrade_ares_7x.Db.{PromotionStatus, Promotion, Db}
use ztrade_ares_7x.Observability.{order_desc}
use ztrade_ares_7x.Observability.Tail.{
  order_desc-In, In-order_desc, Descending, order_desc-Descending,
}
use ztrade_ares_7x.Promotion.{
  has_key, is_committed, perform_promotion, Workspace, Request, already_committed,
}
use ztrade_ares_7x.Promotion.Failing.{KeysUnique}

-- `exited` is the exit with status 1
pub data RollbackOutcome : Type 0 where
  exited : RollbackOutcome
  reverted : (promotion_id : ℕ) (sha : String) → RollbackOutcome

-- The outcome, and the commits on which `git revert` was run.
abbrev pub revert_commit : (String → Bool) → ℕ → Option String → RollbackOutcome × List String
revert_commit revert id none = (exited, [])
revert_commit revert id (some sha) =
    if str_eq sha ""
    then (exited, [])
    else (if revert sha then reverted id sha else exited, sha ∷ [])

abbrev pub rollback_last : (String → Bool) → List Promotion → RollbackOutcome × List String
rollback_last revert [] = (exited, [])
rollback_last revert (p ∷ rows) =
    if is_committed p.status then revert_commit revert p.id p.git_commit else (exited, [])

-- It writes nothing to the database.
unfoldable pub promotion_rollback :
    Db → (iteration_id : ℕ) → (String → Bool) → RollbackOutcome × List String
promotion_rollback db iteration_id revert =
    rollback_last revert
      (order_desc (λ p. p.promoted_at) (select (λ p. p.iteration_id == iteration_id) db.promotions))

-- the latest promotion of the iteration, which is committed with this commit
pub record IsReverted (db : Db) (iteration_id : ℕ) (sha : String) (p : Promotion) : Type 0 where
  pub listed : In p db.promotions
  pub own : p.iteration_id ≡ iteration_id
  pub latest :
      (q : Promotion)
      → In q db.promotions
      → q.iteration_id ≡ iteration_id
      → q.promoted_at ≤ p.promoted_at
  pub committed : p.status ≡ PromotionStatus.committed
  pub commit : p.git_commit ≡ some sha

revert_commit-run :
    (revert : String → Bool) (id : ℕ) (o : Option String) {sha : String} {rest : List String}
    → (revert_commit revert id o).1 ≡ sha ∷ rest
    → (o ≡ some sha)
      × (revert_commit revert id o ≡ ((if revert sha then reverted id sha else exited), sha ∷ []))
revert_commit-run revert id none {sha} h = absurd cc
revert_commit-run revert id (some s) {sha} h = elim (Bool-cases (str_eq s "")) [
  | inl e ↦ absurd (cc (rw e at h))
  | inr e ↦ let same : s ≡ sha = cc (rw e at h) in (ap some same, rw e (rw same refl))
]

head-latest :
    (it : ℕ) (rows : List Promotion) (p : Promotion) (rest : List Promotion)
    → order_desc (λ p. p.promoted_at) (select (λ p. p.iteration_id == it) rows) ≡ p ∷ rest
    → In p rows
      × (p.iteration_id ≡ it)
      × ((q : Promotion) → In q rows → q.iteration_id ≡ it → q.promoted_at ≤ p.promoted_at)
head-latest it rows p rest e =
    let mine = λ (p : Promotion). p.iteration_id == it in
    let key = λ (p : Promotion). p.promoted_at in
    let found = select mine rows in
    let (m, own) =
      select-In mine p rows (order_desc-In key p found (subst (In p) (sym e) (inl refl))) in
    let sorted = subst (Descending key) e (order_desc-Descending key found) in
    (
      m,
      (==_iff p.iteration_id it).0 own,
      λ q i o. first_of q sorted (
          subst (In q) e
            (In-order_desc key q found (In-select mine q rows i ((==_iff q.iteration_id it).1 o)))),
    )
  where
    first_of :
        (q : Promotion)
        → Descending (λ p. p.promoted_at) (p ∷ rest)
        → In q (p ∷ rest)
        → q.promoted_at ≤ p.promoted_at
    first_of q d (inl same) = rw same (omega arith)
    first_of q d (inr m) = d.0 q m

-- The one row that passes a test is the one that is found.
find-only :
    {A : Type 0} (test : A → Bool) (x : A) (rows : List A)
    → count test rows ≤ 1
    → In x rows
    → test x ≡ true
    → find test rows ≡ some x
find-only test x [] h m t = absurd m
find-only test x (y ∷ rows) h (inl e) t = rw (subst (λ z. test z ≡ true) e t) (ap some (sym e))
find-only test x (y ∷ rows) h (inr m) t = elim (Bool-cases (test y)) [
  | inl e ↦ let (n, q) = count-pos test x rows m t in absurd (ground arith)
  | inr e ↦ rw e (find-only test x rows (ground arith) m t)
]

committed_of : (s : PromotionStatus) → is_committed s ≡ true → s ≡ PromotionStatus.committed
committed_of PromotionStatus.committed h = refl
committed_of PromotionStatus.prepared h = absurd cc
committed_of PromotionStatus.applying h = absurd cc
committed_of PromotionStatus.failed h = absurd cc

perform_promotion-committed :
    (db : Db) (p : Promotion) (sha : String) (q : Request) (w : Workspace) (id now : ℕ)
    → find (has_key q.idempotency_key) db.promotions ≡ some p
    → is_committed p.status ≡ true
    → p.git_commit ≡ some sha
    → perform_promotion db q w id now ≡ (db, ok (already_committed (some sha)))
unfolding perform_promotion
perform_promotion-committed db p sha q w id now found done commit = rw (found, done, commit)

repeat_changes_nothing :
    (db : Db) (p : Promotion) (sha : String) (q : Request) (w : Workspace) (id now : ℕ)
    → KeysUnique db.promotions
    → In p db.promotions
    → is_committed p.status ≡ true
    → p.git_commit ≡ some sha
    → q.idempotency_key ≡ p.idempotency_key
    → perform_promotion db q w id now ≡ (db, ok (already_committed (some sha)))
repeat_changes_nothing db p sha q w id now u m done commit same =
    perform_promotion-committed db p sha q w id now
      (find-only (has_key q.idempotency_key) p db.promotions (u q.idempotency_key) m
        ((eq_iff p.idempotency_key q.idempotency_key).1 (sym same)))
      done commit

-- Where no two promotions have one key, a `promotion rollback` that runs git does so once, on the
-- commit of the latest promotion of the iteration, which is committed, and it succeeds exactly if
-- `git revert` does. The row stays committed: whether or not the commit was reverted, a promotion
-- with the key of this row changes nothing and reports the commit as the one that is in place.
pub promotion_rollback-perform_promotion :
    (db : Db) (iteration_id : ℕ) (revert : String → Bool) (sha : String) (rest : List String)
    → KeysUnique db.promotions
    → (promotion_rollback db iteration_id revert).1 ≡ sha ∷ rest
    → (p : Promotion) × IsReverted db iteration_id sha p
      × (promotion_rollback db iteration_id revert
          ≡ ((if revert sha then reverted p.id sha else exited), sha ∷ []))
      × ((q : Request) (w : Workspace) (id now : ℕ)
          → q.idempotency_key ≡ p.idempotency_key
          → perform_promotion db q w id now ≡ (db, ok (already_committed (some sha))))
unfolding promotion_rollback
promotion_rollback-perform_promotion db it revert sha rest u h =
    from_rows (order_desc (λ p. p.promoted_at) (select (λ p. p.iteration_id == it) db.promotions))
      refl h
  where
    from_rows :
        (rows : List Promotion)
        → order_desc (λ p. p.promoted_at) (select (λ p. p.iteration_id == it) db.promotions) ≡ rows
        → (rollback_last revert rows).1 ≡ sha ∷ rest
        → (p : Promotion) × IsReverted db it sha p
          × (rollback_last revert rows
              ≡ ((if revert sha then reverted p.id sha else exited), sha ∷ []))
          × ((q : Request) (w : Workspace) (id now : ℕ)
              → q.idempotency_key ≡ p.idempotency_key
              → perform_promotion db q w id now ≡ (db, ok (already_committed (some sha))))
    from_rows [] e r = absurd cc
    from_rows (p ∷ others) e r = elim (Bool-cases (is_committed p.status)) [
      | inl done ↦
          let (m, own, latest) = head-latest it db.promotions p others e in
          let (commit, outcome) = revert_commit-run revert p.id p.git_commit (rw done at r) in
          (
            p,
            record {
              listed = m;
              own = own;
              latest = latest;
              committed = committed_of p.status done;
              commit = commit;
            },
            rw done outcome,
            λ q w id now same. repeat_changes_nothing db p sha q w id now u m done commit same,
          )
      | inr open_row ↦ absurd (cc (rw open_row at r))
    ]
