-- ===== src/Jobs/Waiting.antt =====
-- How many jobs of a run wait for a worker: what ar724/conductor.py's claims and reapings make of it.
use ztrade_ares_7x.Base.{
  ◌==◌, Bool-cases, Option-cases, any, In, update_where, count, Unique, key-ne, ℕ, ◌+◌, ◌-◌, ◌≡◌,
  refl, sym, ◌∙◌, ap, subst, inl, inr, Bool, true, false, ◌&&◌, Option, none, List, [], ◌∷◌, arith,
}
use ztrade_ares_7x.Db.{PhaseStatus, PhaseJob, Db}
use ztrade_ares_7x.Jobs.{
  is_queued, is_running, assign, is_eligible, claim_updates, claim_next_phase_job, is_stale,
  orphaned, reap_stale_phase_jobs,
}
use ztrade_ares_7x.Jobs.Claim.{next_queued_lem, claim_cases, claim-none, claim-none_iff}
use ztrade_ares_7x.Jobs.Reap.{reap-table}

-- the jobs of the run that are queued
abbrev pub waiting : ℕ → List PhaseJob → ℕ
waiting run_id jobs = count (is_eligible run_id none) jobs

module _ {A : Type 0} where
  count-update_same :
      (p q : A → Bool) (f : A → A)
      → ((x : A) → q x ≡ true → p (f x) ≡ p x)
      → (xs : List A) → count p (update_where q f xs) ≡ count p xs
  count-update_same p q f h [] = refl
  count-update_same p q f h (x ∷ xs) = elim (Bool-cases (q x)) [
    | inl e ↦ let same = h x e in ground (arith, count-update_same p q f h xs, same, e)
    | inr e ↦ ground (arith, count-update_same p q f h xs, e)
  ]

  update_where-absent :
      (q : A → Bool) (f : A → A) (xs : List A)
      → ((x : A) → In x xs → q x ≡ false)
      → update_where q f xs ≡ xs
  update_where-absent q f [] h = refl
  update_where-absent q f (x ∷ xs) h =
      rw (h x (inl refl)) (ap (λ ys. x ∷ ys) (update_where-absent q f xs (λ y m. h y (inr m))))

  -- An update that reaches one row by its key, and makes `p` false of it.
  count-update_one :
      (key : A → ℕ) (p q : A → Bool) (f : A → A) (row : A) (xs : List A)
      → Unique key xs
      → In row xs
      → q row ≡ true
      → p row ≡ true
      → p (f row) ≡ false
      → ((x : A) → q x ≡ true → key x ≡ key row)
      → count p (update_where q f xs) + 1 ≡ count p xs
  count-update_one key p q f row [] u m hq hp hf named = absurd m
  count-update_one key p q f row (y ∷ ys) u (inl e) hq hp hf named =
      let others = update_where-absent q f ys (λ x m. other x m) in
      let hy = subst (λ x. q x ≡ true) e hq in
      let py = subst (λ x. p x ≡ true) e hp in
      let fy = subst (λ x. p (f x) ≡ false) e hf in rw (hy, py, fy, others) (omega arith)
    where
      other : (x : A) → In x ys → q x ≡ false
      other x m = elim (Bool-cases (q x)) [
        | inl t ↦ absurd (key-ne key y x ys u.0 m (named x t ∙ ap key e))
        | inr t ↦ t
      ]
  count-update_one key p q f row (y ∷ ys) u (inr m) hq hp hf named =
      let rest = count-update_one key p q f row ys u.1 m hq hp hf named in
      elim (Bool-cases (q y)) [
        | inl e ↦ absurd (key-ne key y row ys u.0 m (sym (named y e)))
        | inr e ↦ rw e (omega (arith, rest))
      ]

running-unqueued : (s : PhaseStatus) → is_running s ≡ true → is_queued s ≡ false
running-unqueued PhaseStatus.queued h = absurd cc
running-unqueued _ h = refl

pub reap-waiting :
    (db : Db) (run_id other timeout now : ℕ)
    → Unique (λ (j : PhaseJob). j.id) db.phase_jobs
    → waiting other (reap_stale_phase_jobs db run_id timeout now).db.phase_jobs
      ≡ waiting other db.phase_jobs
reap-waiting db run_id other timeout now u =
    ap (waiting other) (reap-table db run_id timeout now u)
    ∙ count-update_same (is_eligible other none) (is_stale run_id (now - timeout)) orphaned
        (λ j stale. let idle = running-unqueued j.status (ground arith) in ground arith)
        db.phase_jobs

count-unmet : {A : Type 0} (p : A → Bool) (xs : List A) → any p xs ≡ false → count p xs ≡ 0
count-unmet p [] h = refl
count-unmet p (x ∷ xs) h = ground (arith, count-unmet p xs)

-- A claim takes one of the jobs that wait, if there is one.
pub claim-waiting :
    (db : Db) (run_id worker now : ℕ)
    → Unique (λ (j : PhaseJob). j.id) db.phase_jobs
    → waiting run_id (claim_next_phase_job db run_id none worker now).0.phase_jobs
      ≡ waiting run_id db.phase_jobs - 1
claim-waiting db run_id worker now u =
    elim (Option-cases ((claim_next_phase_job db run_id none worker now).1)) [
      | inl e ↦
          let idle = (claim-none_iff db run_id none worker now).0 e in
          let unchanged =
            ap (λ (x : Db × Option PhaseJob). waiting run_id x.0.phase_jobs)
              (claim-none db run_id none worker now e) in
          omega (arith, unchanged, count-unmet (is_eligible run_id none) db.phase_jobs idle)
      | inr (j, e) ↦
          let (row, found, shape, table) = claim_cases db run_id none worker now {j = j} e in
          let (listed, fits, _) = next_queued_lem db.phase_jobs run_id none {row = row} found in
          let taken =
            count-update_one (λ (k : PhaseJob). k.id) (is_eligible run_id none)
              (λ k. k.id == row.id && is_queued k.status) (assign (claim_updates row worker now))
              row db.phase_jobs u listed (ground arith) fits (ground arith) (λ k h. ground arith) in
          omega (arith, ap (waiting run_id) table, taken)
    ]
