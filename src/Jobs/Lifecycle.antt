-- ===== src/Jobs/Lifecycle.antt =====
-- The states that a phase job goes through, whichever operations act on the table in whichever
-- order: ar724/conductor.py, ar724/heartbeat.py, and `iter cancel` of ar724/cli.py.
use ztrade_ares_7x.Base.{
  ◌==◌, Bool-cases, all, update_where, Unique, ℕ, ◌-◌, String, ◌≡◌, refl, sym, ◌∙◌, inl, inr, Bool,
  true, false, not, ◌&&◌, Option, none, some, List, [], ◌∷◌, arith,
}
use ztrade_ares_7x.Db.{Iteration, PhaseStatus, PhaseJob, Db}
use ztrade_ares_7x.Jobs.{
  is_queued, is_running, assign, next_queued, claim_updates, claim_row, claim_found,
  claim_next_phase_job, is_stale, orphaned, reap_stale_phase_jobs, beat, is_open, iter_cancel,
  cancel_found,
}
use ztrade_ares_7x.Jobs.Cas.{settle_claim-table}
use ztrade_ares_7x.Jobs.Reap.{reap-table}

-- The state diagram, closed under composition: queued → running → failed, and queued → failed.
abbrev pub moves : PhaseStatus → PhaseStatus → Bool
moves PhaseStatus.queued PhaseStatus.queued = true
moves PhaseStatus.queued PhaseStatus.running = true
moves PhaseStatus.queued PhaseStatus.failed = true
moves PhaseStatus.running PhaseStatus.running = true
moves PhaseStatus.running PhaseStatus.failed = true
moves PhaseStatus.completed PhaseStatus.completed = true
moves PhaseStatus.failed PhaseStatus.failed = true
moves PhaseStatus.blocked PhaseStatus.blocked = true
moves PhaseStatus.vetoed PhaseStatus.vetoed = true
moves PhaseStatus.discarded PhaseStatus.discarded = true
moves _ _ = false

moves_refl : (s : PhaseStatus) → moves s s ≡ true
moves_refl PhaseStatus.queued = refl
moves_refl _ = refl

moves_trans : (a b c : PhaseStatus) → moves a b ≡ true → moves b c ≡ true → moves a c ≡ true
moves_trans a b c h k = ground arith

-- Row by row, the new table has the same jobs, each moved along the diagram.
abbrev pub Evolves : List PhaseJob → List PhaseJob → Type 0
Evolves [] [] = Unit
Evolves [] (y ∷ ys) = ⊥
Evolves (x ∷ xs) [] = ⊥
Evolves (x ∷ xs) (y ∷ ys) = (x.id ≡ y.id) × (moves x.status y.status ≡ true) × Evolves xs ys

Evolves-refl : (xs : List PhaseJob) → Evolves xs xs
Evolves-refl [] = tt
Evolves-refl (x ∷ xs) = (refl, moves_refl x.status, Evolves-refl xs)

Evolves-trans : (xs ys zs : List PhaseJob) → Evolves xs ys → Evolves ys zs → Evolves xs zs
Evolves-trans [] [] [] h k = tt
Evolves-trans [] [] (z ∷ zs) h k = elim k [ ]
Evolves-trans [] (y ∷ ys) zs h k = elim h [ ]
Evolves-trans (x ∷ xs) [] zs h k = elim h [ ]
Evolves-trans (x ∷ xs) (y ∷ ys) [] h k = elim k [ ]
Evolves-trans (x ∷ xs) (y ∷ ys) (z ∷ zs) h k =
    (h.0 ∙ k.0, moves_trans x.status y.status z.status h.1 k.1, Evolves-trans xs ys zs h.2 k.2)

Evolves-update_where :
    (p : PhaseJob → Bool) (f : PhaseJob → PhaseJob)
    → ((j : PhaseJob) → p j ≡ true → ((f j).id ≡ j.id) × (moves j.status (f j).status ≡ true))
    → (xs : List PhaseJob) → Evolves xs (update_where p f xs)
Evolves-update_where p f keep [] = tt
Evolves-update_where p f keep (x ∷ xs) = elim (Bool-cases (p x)) [
  | inl e ↦ rw e (sym (keep x e).0, (keep x e).1, Evolves-update_where p f keep xs)
  | inr e ↦ rw e (refl, moves_refl x.status, Evolves-update_where p f keep xs)
]

-- Operations on the jobs of an iteration, by any process.
pub data Op : Type 0 where
  claim : (run_id : ℕ) → Option String → (worker now : ℕ) → Op
  reap : (run_id timeout now : ℕ) → Op
  heartbeat : (job now : ℕ) → Op
  cancel : Op

abbrev or_same : Db → Option Db → Db
or_same db none = db
or_same db (some after) = after

abbrev pub perform : Db → Op → Db
perform db (claim run_id role worker now) = (claim_next_phase_job db run_id role worker now).0
perform db (reap run_id timeout now) = (reap_stale_phase_jobs db run_id timeout now).db
perform db (heartbeat job now) = beat db job now
perform db cancel = or_same db (iter_cancel db)

abbrev pub perform_all : Db → List Op → Db
perform_all db [] = db
perform_all db (op ∷ ops) = perform_all (perform db op) ops

claim_found-Evolves :
    (db : Db) (o : Option PhaseJob) (worker run_id now : ℕ)
    → Evolves db.phase_jobs (claim_found db o worker run_id now).0.phase_jobs
unfolding claim_row
claim_found-Evolves db none worker run_id now = Evolves-refl db.phase_jobs
claim_found-Evolves db (some row) worker run_id now =
    rw (settle_claim-table db row worker run_id now _ _) (
      Evolves-update_where (λ j. j.id == row.id && is_queued j.status)
        (assign (claim_updates row worker now)) (λ j e. (refl, ground arith)) db.phase_jobs)

cancel_found-Evolves :
    (db : Db) (o : Option Iteration)
    → Evolves db.phase_jobs (or_same db (cancel_found db o)).phase_jobs
cancel_found-Evolves db none = Evolves-refl db.phase_jobs
cancel_found-Evolves db (some last) =
    Evolves-update_where (λ j. j.iteration_id == last.id && is_open j.status)
      (λ j. record j { status = PhaseStatus.failed; error_class = "iter_cancelled" })
      (λ j e. (refl, ground arith)) db.phase_jobs

pub perform-Evolves :
    (db : Db) (op : Op)
    → Unique (λ (j : PhaseJob). j.id) db.phase_jobs
    → Evolves db.phase_jobs (perform db op).phase_jobs
unfolding claim_next_phase_job beat iter_cancel
perform-Evolves db (claim run_id role worker now) u =
    claim_found-Evolves db (next_queued db.phase_jobs run_id role) worker run_id now
perform-Evolves db (reap run_id timeout now) u = rw (reap-table db run_id timeout now u) (
    Evolves-update_where (is_stale run_id (now - timeout)) orphaned (λ j e. (refl, ground arith))
      db.phase_jobs)
perform-Evolves db (heartbeat job now) u =
    Evolves-update_where (λ j. j.id == job && is_running j.status)
      (λ j. record j { last_heartbeat_at = some now }) (λ j e. (refl, moves_refl j.status))
      db.phase_jobs
perform-Evolves db cancel u = cancel_found-Evolves db _

other_ids :
    (x : ℕ) (ys zs : List PhaseJob)
    → Evolves ys zs
    → all (λ (y : PhaseJob). not (y.id == x)) ys ≡ true
    → all (λ (y : PhaseJob). not (y.id == x)) zs ≡ true
other_ids x [] [] h e = refl
other_ids x [] (z ∷ zs) h e = elim h [ ]
other_ids x (y ∷ ys) [] h e = elim h [ ]
other_ids x (y ∷ ys) (z ∷ zs) h e = ground (arith, other_ids x ys zs h.2)

pub Unique-Evolves :
    (xs ys : List PhaseJob)
    → Evolves xs ys
    → Unique (λ (j : PhaseJob). j.id) xs
    → Unique (λ (j : PhaseJob). j.id) ys
Unique-Evolves [] [] h u = tt
Unique-Evolves [] (y ∷ ys) h u = elim h [ ]
Unique-Evolves (x ∷ xs) [] h u = elim h [ ]
Unique-Evolves (x ∷ xs) (y ∷ ys) h u =
    (rw (← h.0) (other_ids x.id xs ys h.2 u.0), Unique-Evolves xs ys h.2 u.1)

-- Whatever claims, reapings, heartbeats and cancellations follow one another, the table keeps its
-- jobs in their order, with their ids, and each job only moves along the state diagram; the ids
-- are supposed to be unique at the start.
pub perform_all-Evolves :
    (db : Db) (ops : List Op)
    → Unique (λ (j : PhaseJob). j.id) db.phase_jobs
    → Evolves db.phase_jobs (perform_all db ops).phase_jobs
perform_all-Evolves db [] u = Evolves-refl db.phase_jobs
perform_all-Evolves db (op ∷ ops) u =
    let once = perform-Evolves db op u in
    Evolves-trans db.phase_jobs (perform db op).phase_jobs
      (perform_all (perform db op) ops).phase_jobs once
      (perform_all-Evolves (perform db op) ops
        (Unique-Evolves db.phase_jobs (perform db op).phase_jobs once u))
