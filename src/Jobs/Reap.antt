-- ===== src/Jobs/Reap.antt =====
-- `reap_stale_phase_jobs` of ar724/conductor.py, and what a heartbeat does for its victims.
use ztrade_ares_7x.Base.{
  ◌==◌, Bool-cases, Option-cases, any, In, In→any, any→In, any-never, In-map, select, update_where,
  In-select, select-In, update_where-none, update_where-congr, Unique, Unique-eq, ℕ, ◌+◌, ◌-◌, ◌<◌,
  ◌≡◌, refl, sym, ◌∙◌, ap, subst, inl, inr, Bool, true, ◌&&◌, some, List, [], ◌∷◌, ◌++◌, map, arith,
}
use mathlib.Core.List.{append-nil, append_assoc}
use ztrade_ares_7x.Db.{PhaseJob, Db}
use ztrade_ares_7x.Events.{insert_event}
use ztrade_ares_7x.Jobs.{
  is_running, lease_timeout_seconds, is_stale, orphaned, reap_one, reap_stale_phase_jobs, beat,
  Reaped, reap_rows,
}

abbrev named : List PhaseJob → PhaseJob → Bool
named rows j = any (λ (row : PhaseJob). j.id == row.id) rows

orphaned_twice :
    (row : PhaseJob) (rows jobs : List PhaseJob)
    → update_where (named rows) orphaned (update_where (λ j. j.id == row.id) orphaned jobs)
      ≡ update_where (named (row ∷ rows)) orphaned jobs
orphaned_twice row rows [] = refl
orphaned_twice row rows (j ∷ js) = ground (arith, orphaned_twice row rows js)

-- The loop marks the rows that its list names, and no other.
reap_rows-table :
    (run_id now : ℕ) (rows : List PhaseJob) (r : Reaped)
    → (reap_rows run_id now rows r).db.phase_jobs
      ≡ update_where (named rows) orphaned r.db.phase_jobs
unfolding reap_rows insert_event
reap_rows-table run_id now [] r =
    sym (update_where-none (named []) orphaned r.db.phase_jobs (any-never r.db.phase_jobs))
reap_rows-table run_id now (row ∷ rows) r =
    reap_rows-table run_id now rows (reap_one run_id now row r)
    ∙ orphaned_twice row rows r.db.phase_jobs

reap_rows-ids :
    (run_id now : ℕ) (rows : List PhaseJob) (r : Reaped)
    → (reap_rows run_id now rows r).ids ≡ r.ids ++ map (λ (j : PhaseJob). j.id) rows
unfolding reap_rows insert_event
reap_rows-ids run_id now [] r = sym (append-nil r.ids)
reap_rows-ids run_id now (row ∷ rows) r =
    reap_rows-ids run_id now rows (reap_one run_id now row r)
    ∙ append_assoc r.ids (row.id ∷ []) (map (λ (j : PhaseJob). j.id) rows)

-- The ids returned are those of the run's jobs that are running and whose lease lies before the
-- cutoff, in the order of the table.
pub reap-ids :
    (db : Db) (run_id timeout now : ℕ)
    → (reap_stale_phase_jobs db run_id timeout now).ids
      ≡ map (λ (j : PhaseJob). j.id) (select (is_stale run_id (now - timeout)) db.phase_jobs)
unfolding reap_stale_phase_jobs
reap-ids db run_id timeout now =
    reap_rows-ids run_id now (select (is_stale run_id (now - timeout)) db.phase_jobs)
      (record { db = db; ids = []; killed = [] })

named-eq_stale :
    (run_id cutoff : ℕ) (jobs : List PhaseJob) (j : PhaseJob)
    → Unique (λ (k : PhaseJob). k.id) jobs
    → In j jobs
    → named (select (is_stale run_id cutoff) jobs) j ≡ is_stale run_id cutoff j
named-eq_stale run_id cutoff jobs j u m = elim (Bool-cases (is_stale run_id cutoff j)) [
  | inl stale ↦ rw stale (
      In→any (λ (row : PhaseJob). j.id == row.id) j (select (is_stale run_id cutoff) jobs)
        (In-select (is_stale run_id cutoff) j jobs m stale) (ground arith))
  | inr fresh ↦ elim (Bool-cases (named (select (is_stale run_id cutoff) jobs) j)) [
    | inl found ↦
        let (row, listed, same) =
          any→In (λ (row : PhaseJob). j.id == row.id) (select (is_stale run_id cutoff) jobs)
            found in
        let (there, stale) = select-In (is_stale run_id cutoff) row jobs listed in
        let one : j ≡ row =
          Unique-eq (λ (k : PhaseJob). k.id) j row jobs u m there (ground arith) in
        cc (stale, ap (is_stale run_id cutoff) one)
    | inr absent ↦ rw fresh absent
  ]
]

-- With unique ids, the table after a reaping is the old one with exactly the run's running jobs
-- whose lease lies before the cutoff failed as orphaned.
pub reap-table :
    (db : Db) (run_id timeout now : ℕ)
    → Unique (λ (j : PhaseJob). j.id) db.phase_jobs
    → (reap_stale_phase_jobs db run_id timeout now).db.phase_jobs
      ≡ update_where (is_stale run_id (now - timeout)) orphaned db.phase_jobs
unfolding reap_stale_phase_jobs
reap-table db run_id timeout now u =
    let stale = select (is_stale run_id (now - timeout)) db.phase_jobs in
    reap_rows-table run_id now stale (record { db = db; ids = []; killed = [] })
    ∙ update_where-congr (named stale) (is_stale run_id (now - timeout)) orphaned db.phase_jobs
        (λ j m. named-eq_stale run_id (now - timeout) db.phase_jobs j u m)

stale-beat :
    (run_id cutoff job now : ℕ) (jobs : List PhaseJob)
    → map
        (λ (j : PhaseJob). j.id)
        (select (is_stale run_id cutoff) (
          update_where
            (λ j. j.id == job && is_running j.status)
            (λ j. record j { last_heartbeat_at = some now })
            jobs))
      ≡ map (λ (j : PhaseJob). j.id) (select (is_stale run_id cutoff) jobs)
stale-beat run_id cutoff job now [] = refl
stale-beat run_id cutoff job now (j ∷ js) = ground (arith, stale-beat run_id cutoff job now js)

-- A heartbeat saves no job: whichever job it is for, the reaper takes the same jobs as without it.
reap-beat :
    (db : Db) (job beat_now run_id timeout now : ℕ)
    → (reap_stale_phase_jobs (beat db job beat_now) run_id timeout now).ids
      ≡ (reap_stale_phase_jobs db run_id timeout now).ids
unfolding beat
reap-beat db job beat_now run_id timeout now =
    reap-ids (beat db job beat_now) run_id timeout now
    ∙ stale-beat run_id (now - timeout) job beat_now db.phase_jobs
    ∙ sym (reap-ids db run_id timeout now)

-- At the timeout of the tick, an id is reaped only if it is that of a running job whose lease ended
-- more than 180 seconds ago, and not already when the lease ends.
pub reap-claimed_late :
    (db : Db) (run_id now : ℕ) (i : ℕ)
    → In i (reap_stale_phase_jobs db run_id lease_timeout_seconds now).ids
    → (j : PhaseJob) × In j db.phase_jobs
      × (j.id ≡ i)
      × (is_running j.status ≡ true)
      × ((lease : ℕ) × (j.lease_expires_at ≡ some lease) × (lease + 180 < now))
reap-claimed_late db run_id now i m =
    let cutoff = now - lease_timeout_seconds in
    let (j, taken, e) =
      In-map (λ (k : PhaseJob). k.id) i (select (is_stale run_id cutoff) db.phase_jobs)
        (subst (In i) (reap-ids db run_id lease_timeout_seconds now) m) in
    let (listed, stale) = select-In (is_stale run_id cutoff) j db.phase_jobs taken in
    elim (Option-cases (j.lease_expires_at)) [
      | inl none_yet ↦ absurd (ground arith)
      | inr (lease, q) ↦ (j, listed, e, ground arith, (lease, q, ground arith))
    ]
