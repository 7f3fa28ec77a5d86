-- ===== src/Promotion/Failing.antt =====
-- Promotions that fail half way, and the uniqueness of keys: ar724/promotion_gate.py.
use ztrade_ares_7x.Base.{
  ◌==◌, if◌then◌else◌, Bool-cases, In, select, update_where, find, count, find-some, Unique,
  Unique-eq, ℕ, ◌+◌, ◌≤◌, String, ◌≡◌, refl, ◌∙◌, ap, subst, inl, inr, Bool, false, Option, none,
  some, List, [], ◌∷◌, ◌++◌, arith, eq_iff,
}
use ztrade_ares_7x.Base.Result.{◌>>◌, Exception, Result, ok, err}
use ztrade_ares_7x.Db.{PromotionStatus, Promotion, Db}
use ztrade_ares_7x.Promotion.{
  git_commit, has_key, set_status, prepared_row, committed_row, conclude, apply, is_committed,
  promote_rows, perform_promotion, Workspace, Request,
}

count-update_where :
    (key : String) (test : Promotion → Bool) (f : Promotion → Promotion)
    → ((p : Promotion) → (f p).idempotency_key ≡ p.idempotency_key)
    → (rows : List Promotion)
    → count (has_key key) (update_where test f rows) ≡ count (has_key key) rows
count-update_where key test f keeps [] = refl
count-update_where key test f keeps (p ∷ ps) =
    ground (arith, keeps p, count-update_where key test f keeps ps)

count-append :
    (key : String) (rows : List Promotion) (p : Promotion)
    → count (has_key key) (rows ++ p ∷ [])
      ≡ count (has_key key) rows + (if has_key key p then 1 else 0)
count-append key [] p = ground arith
count-append key (r ∷ rs) p = ground (arith, count-append key rs p)

count-find-none :
    (key : String) (rows : List Promotion)
    → find (has_key key) rows ≡ none
    → count (has_key key) rows ≡ 0
count-find-none key [] h = refl
count-find-none key (p ∷ ps) h = ground (arith, count-find-none key ps)

-- The UNIQUE constraint of `promotions.idempotency_key`.
abbrev pub KeysUnique : List Promotion → Type 0
KeysUnique rows = (key : String) → count (has_key key) rows ≤ 1

conclude-KeysUnique :
    (rows : List Promotion) (id now : ℕ) (new : String) (r : Result String)
    → KeysUnique rows
    → KeysUnique (conclude rows id now new r).0
conclude-KeysUnique rows id now new (err e) u key = u key
conclude-KeysUnique rows id now new (ok sha) u key =
    rw (count-update_where key (λ p. p.id == id) (committed_row sha now) (λ p. refl) rows) (u key)

prepared-KeysUnique :
    (rows : List Promotion) (p : Promotion)
    → find (has_key p.idempotency_key) rows ≡ none
    → KeysUnique rows
    → KeysUnique (rows ++ p ∷ [])
prepared-KeysUnique rows p absent u key =
    rw (count-append key rows p) (elim (Bool-cases (has_key key p)) [
      | inl e ↦
          let same : p.idempotency_key ≡ key = (eq_iff p.idempotency_key key).0 e in
          rw e (
            omega (
              arith,
              count-find-none key rows (subst (λ k. find (has_key k) rows ≡ none) same absent),
            ))
      | inr e ↦ rw e (omega (arith, u key))
    ])

apply-KeysUnique :
    (rows : List Promotion) (o : Option Promotion) (q : Request) (w : Workspace) (id now : ℕ)
    (file : Result String)
    → find (has_key q.idempotency_key) rows ≡ o
    → KeysUnique rows
    → KeysUnique (apply rows o q w id now file).0
apply-KeysUnique rows o q w id now (err e) at u = u
apply-KeysUnique rows none q w id now (ok new) at u =
    conclude-KeysUnique (rows ++ prepared_row q new id now ∷ []) id now new (w.copy >> git_commit w)
      (prepared-KeysUnique rows (prepared_row q new id now) at u)
apply-KeysUnique rows (some old) q w id now (ok new) at u =
    conclude-KeysUnique
      (update_where (λ p. p.id == old.id) (set_status PromotionStatus.applying) rows) old.id now new
      (w.copy >> git_commit w)
      (λ key.
        rw
          (count-update_where key (λ p. p.id == old.id) (set_status PromotionStatus.applying)
            (λ p. refl) rows)
          (u key))

-- No promotion, whether it succeeds, fails half way or is repeated, makes a second row for a key.
pub perform_promotion-KeysUnique :
    (db : Db) (q : Request) (w : Workspace) (id now : ℕ)
    → KeysUnique db.promotions
    → KeysUnique (perform_promotion db q w id now).0.promotions
unfolding perform_promotion
perform_promotion-KeysUnique db q w id now u =
    keep (find (has_key q.idempotency_key) db.promotions) refl
  where
    keep :
        (o : Option Promotion)
        → find (has_key q.idempotency_key) db.promotions ≡ o
        → KeysUnique (promote_rows db.promotions o q w id now).0
    keep none at = apply-KeysUnique db.promotions none q w id now w.candidate_file at u
    keep (some old) at = elim (Bool-cases (is_committed old.status)) [
      | inl e ↦ rw e u
      | inr e ↦ rw e (apply-KeysUnique db.promotions (some old) q w id now w.candidate_file at u)
    ]

abbrev pub committed_rows : List Promotion → List Promotion
committed_rows rows = select (λ p. is_committed p.status) rows

committed_rows-append :
    (rows : List Promotion) (p : Promotion)
    → is_committed p.status ≡ false
    → committed_rows (rows ++ p ∷ []) ≡ committed_rows rows
committed_rows-append [] p h = ground arith
committed_rows-append (r ∷ rs) p h = ground (arith, committed_rows-append rs p)

committed_rows-applying :
    (i : ℕ) (rows : List Promotion)
    → ((p : Promotion) → In p rows → p.id ≡ i → is_committed p.status ≡ false)
    → committed_rows (update_where (λ p. p.id == i) (set_status PromotionStatus.applying) rows)
      ≡ committed_rows rows
committed_rows-applying i [] h = refl
committed_rows-applying i (p ∷ ps) h =
    ground (arith, h p (inl refl), committed_rows-applying i ps (λ r m. h r (inr m)))

conclude-err :
    (rows : List Promotion) (id now : ℕ) (new : String) (r : Result String) {e : Exception}
    → (conclude rows id now new r).1 ≡ err e
    → (conclude rows id now new r).0 ≡ rows
conclude-err rows id now new (err e) h = refl
conclude-err rows id now new (ok sha) h = cc

apply-err :
    (rows : List Promotion) (o : Option Promotion) (q : Request) (w : Workspace) (id now : ℕ)
    (file : Result String) {e : Exception}
    → Unique (λ (p : Promotion). p.id) rows
    → find (has_key q.idempotency_key) rows ≡ o
    → ((p : Promotion) → o ≡ some p → is_committed p.status ≡ false)
    → (apply rows o q w id now file).1 ≡ err e
    → committed_rows (apply rows o q w id now file).0 ≡ committed_rows rows
apply-err rows o q w id now (err e') u at free h = refl
apply-err rows none q w id now (ok new) {e} u at free h =
    ap committed_rows (
      conclude-err (rows ++ prepared_row q new id now ∷ []) id now new (w.copy >> git_commit w)
        {e = e} h)
    ∙ committed_rows-append rows (prepared_row q new id now) refl
apply-err rows (some old) q w id now (ok new) {e} u at free h =
    ap committed_rows (
      conclude-err (update_where (λ p. p.id == old.id) (set_status PromotionStatus.applying) rows)
        old.id now new (w.copy >> git_commit w) {e = e} h)
    ∙ committed_rows-applying old.id rows (λ p m same.
      let (there, _) = find-some (has_key q.idempotency_key) rows {x = old} at in
      let one = Unique-eq (λ (r : Promotion). r.id) p old rows u m there same in
      ap (λ (r : Promotion). is_committed r.status) one ∙ free old refl)

-- A promotion that raises, wherever it does, commits nothing: the committed rows are those that
-- were committed before; ids are supposed to be unique.
pub perform_promotion-err :
    (db : Db) (q : Request) (w : Workspace) (id now : ℕ) {e : Exception}
    → Unique (λ (p : Promotion). p.id) db.promotions
    → (perform_promotion db q w id now).1 ≡ err e
    → committed_rows (perform_promotion db q w id now).0.promotions ≡ committed_rows db.promotions
unfolding perform_promotion
perform_promotion-err db q w id now {e} u h =
    keep (find (has_key q.idempotency_key) db.promotions) refl h
  where
    keep :
        (o : Option Promotion)
        → find (has_key q.idempotency_key) db.promotions ≡ o
        → (promote_rows db.promotions o q w id now).1 ≡ err e
        → committed_rows (promote_rows db.promotions o q w id now).0 ≡ committed_rows db.promotions
    keep none at raised =
        apply-err db.promotions none q w id now w.candidate_file {e = e} u at (λ p x. cc) raised
    keep (some old) at raised = elim (Bool-cases (is_committed old.status)) [
      | inl c ↦ rw c
      | inr c ↦ rw c (
          apply-err db.promotions (some old) q w id now w.candidate_file {e = e} u at
            (λ p x. ground arith) (rw c at raised))
    ]
