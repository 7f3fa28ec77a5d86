-- ===== src/Promotion/Idempotent.antt =====
-- A promotion is made once for its key: ar724/promotion_gate.py, `perform_promotion`.
use mathlib.Core.Option
use ztrade_ares_7x.Base.{
  ◌==◌, if◌then◌else◌, Bool-cases, update_where, find, ℕ, String, ◌≡◌, refl, ◌∙◌, ap, inl, inr,
  Bool, Option, none, some, List, [], ◌∷◌, ◌++◌, arith, eq_iff,
}
use ztrade_ares_7x.Base.Result.{◌>>◌, Result, ok, err}
use ztrade_ares_7x.Db.{PromotionStatus, Promotion, Db}
use ztrade_ares_7x.Promotion.{
  git_commit, has_key, set_status, prepared_row, committed_row, conclude, apply, is_committed,
  promote_rows, perform_promotion, Workspace, Request, already_committed, newly_committed,
}

-- An update that keeps the keys acts on the row that the key finds.
find-update_where :
    (key : String) (test : Promotion → Bool) (f : Promotion → Promotion)
    → ((p : Promotion) → (f p).idempotency_key ≡ p.idempotency_key)
    → (rows : List Promotion)
    → find (has_key key) (update_where test f rows)
      ≡ Option.map (λ p. if test p then f p else p) (find (has_key key) rows)
find-update_where key test f keeps [] = refl
find-update_where key test f keeps (p ∷ ps) =
    ground (arith, keeps p, find-update_where key test f keeps ps)

find-append :
    (key : String) (rows : List Promotion) (p : Promotion)
    → find (has_key key) rows ≡ none
    → p.idempotency_key ≡ key
    → find (has_key key) (rows ++ p ∷ []) ≡ some p
find-append key [] p h e = ground (arith, eq_iff p.idempotency_key key)
find-append key (r ∷ rs) p h e = ground (arith, find-append key rs p)

-- A row of this key that is committed with this commit.
abbrev Committed : String → String → List Promotion → Type 0
Committed key sha rows =
    (p : Promotion) × (find (has_key key) rows ≡ some p)
    × (p.status ≡ PromotionStatus.committed)
    × (p.git_commit ≡ some sha)

conclude-Committed :
    (rows : List Promotion) (p : Promotion) (now : ℕ) (key hash sha : String)
    → find (has_key key) rows ≡ some p
    → Committed key sha (conclude rows p.id now hash (ok sha)).0
conclude-Committed rows p now key hash sha e = (
  committed_row sha now p,
  find-update_where key (λ r. r.id == p.id) (committed_row sha now) (λ r. refl) rows
      ∙ ap (Option.map (λ r. if r.id == p.id then committed_row sha now r else r)) e
      ∙ ground arith,
  refl,
  refl,
)

conclude-committed :
    (rows : List Promotion) (id now : ℕ) (new sha hash : String) (r : Result String)
    → (conclude rows id now new r).1 ≡ ok (newly_committed sha hash)
    → r ≡ ok sha
conclude-committed rows id now new sha hash (err e) h = cc
conclude-committed rows id now new sha hash (ok s) h = ground arith

conclude-step :
    (rows : List Promotion) (p : Promotion) (now : ℕ) (key new sha hash : String)
    (r : Result String)
    → find (has_key key) rows ≡ some p
    → (conclude rows p.id now new r).1 ≡ ok (newly_committed sha hash)
    → Committed key sha (conclude rows p.id now new r).0
conclude-step rows p now key new sha hash r e h =
    rw (conclude-committed rows p.id now new sha hash r h)
      (conclude-Committed rows p now key new sha e)

apply-Committed :
    (rows : List Promotion) (o : Option Promotion) (q : Request) (w : Workspace) (id now : ℕ)
    (sha hash : String) (file : Result String)
    → find (has_key q.idempotency_key) rows ≡ o
    → (apply rows o q w id now file).1 ≡ ok (newly_committed sha hash)
    → Committed q.idempotency_key sha (apply rows o q w id now file).0
apply-Committed rows o q w id now sha hash (err e) at h = cc
apply-Committed rows none q w id now sha hash (ok new) at h =
    conclude-step (rows ++ prepared_row q new id now ∷ []) (prepared_row q new id now) now
      q.idempotency_key new sha hash (w.copy >> git_commit w)
      (find-append q.idempotency_key rows (prepared_row q new id now) at refl) h
apply-Committed rows (some old) q w id now sha hash (ok new) at h =
    conclude-step (update_where (λ p. p.id == old.id) (set_status PromotionStatus.applying) rows)
      (set_status PromotionStatus.applying old) now q.idempotency_key new sha hash
      (w.copy >> git_commit w)
      (find-update_where q.idempotency_key (λ p. p.id == old.id)
          (set_status PromotionStatus.applying) (λ r. refl) rows
        ∙ ap (Option.map (λ p. if p.id == old.id then set_status PromotionStatus.applying p else p))
            at
        ∙ ground arith)
      h

promote_rows-Committed :
    (rows : List Promotion) (o : Option Promotion) (q : Request) (w : Workspace) (id now : ℕ)
    (sha hash : String)
    → find (has_key q.idempotency_key) rows ≡ o
    → (promote_rows rows o q w id now).1 ≡ ok (newly_committed sha hash)
    → Committed q.idempotency_key sha (promote_rows rows o q w id now).0
promote_rows-Committed rows none q w id now sha hash at h =
    apply-Committed rows none q w id now sha hash w.candidate_file at h
promote_rows-Committed rows (some old) q w id now sha hash at h =
    elim (Bool-cases (is_committed old.status)) [
      | inl e ↦ ground arith
      | inr e ↦
          rw e (apply-Committed rows (some old) q w id now sha hash w.candidate_file at (rw e at h))
    ]

-- Once a call has committed a promotion, every later call with the same key, whatever the file
-- system and git would answer, returns `already_committed` with the same commit and changes
-- nothing.
pub perform_promotion-idempotent :
    (db : Db) (q q' : Request) (w w' : Workspace) (id id' now now' : ℕ) (sha hash : String)
    → (perform_promotion db q w id now).1 ≡ ok (newly_committed sha hash)
    → q'.idempotency_key ≡ q.idempotency_key
    → perform_promotion (perform_promotion db q w id now).0 q' w' id' now'
      ≡ ((perform_promotion db q w id now).0, ok (already_committed (some sha)))
unfolding perform_promotion
perform_promotion-idempotent db q q' w w' id id' now now' sha hash h same =
    let rows = db.promotions in
    let (p, at, done, commit) =
      promote_rows-Committed rows (find (has_key q.idempotency_key) rows) q w id now sha hash refl
        h in
    rw (same, at) (ground arith)
