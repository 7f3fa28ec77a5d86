-- ===== src/Conductor/Drain.antt =====
-- The process of `conductor` of ar724/cli.py: the jobs of its run over several rounds.
use ztrade_ares_7x.Base.{
  zero, suc, ◌==◌, Bool-cases, if◌then◌else◌, ◌+◌, false, ◌⊎◌, length, find, Unique, ℕ, ◌-◌, ◌≡◌,
  refl, sym, ◌∙◌, ap, subst, inl, inr, true, Option, none, some, List, [], ◌∷◌, arith,
}
use ztrade_ares_7x.Base.Result.{Result, ok, err}
use ztrade_ares_7x.Db.{Run, PhaseJob, Lock, Db}
use ztrade_ares_7x.Locks.{
  lock_lease_seconds, controller_plan, leased, apply_plan, controller_write,
  acquire_controller_lock, refreshed, heartbeat_controller_lock,
}
use ztrade_ares_7x.Gates.{find_run}
use ztrade_ares_7x.Roles.{RoleFile}
use ztrade_ares_7x.Jobs.{claim_next_phase_job, lease_timeout_seconds, reap_stale_phase_jobs}
use ztrade_ares_7x.Jobs.Lifecycle.{perform-Evolves, Unique-Evolves, claim, reap}
use ztrade_ares_7x.Jobs.Waiting.{waiting}
use ztrade_ares_7x.Conductor.{active, work, tick, TickResult}
use ztrade_ares_7x.Conductor.Signals.{
  run_round, run_rounds, behind_tick, handle_signals, stopped-stays, Round, Process, Signal, sighup,
  sigterm,
}
use ztrade_ares_7x.Conductor.Tick.{owned-true}
use ztrade_ares_7x.Conductor.Progress.{work-phase_jobs, tick-waiting}
use ztrade_ares_7x.Conductor.Kept.{work-view, try_promote-lock, try_promote-runs}

-- No other run holds the controller lock.
abbrev pub IsOurs : ℕ → Option Lock → Type 0
IsOurs run_id none = Unit
IsOurs run_id (some l) = l.holder ≡ run_id

acquire-IsOurs :
    (db : Db) (run_id now : ℕ)
    → IsOurs run_id db.controller_lock
    → ((acquire_controller_lock db run_id now).0 ≡ true)
      × ((acquire_controller_lock db run_id now).1.controller_lock
          ≡ some (leased run_id now lock_lease_seconds))
unfolding acquire_controller_lock controller_plan controller_write apply_plan
acquire-IsOurs db run_id now ours = held db.controller_lock ours
  where
    held :
        (lock : Option Lock)
        → IsOurs run_id lock
        → ((apply_plan
              (controller_plan lock run_id now)
              (leased run_id now lock_lease_seconds)
              lock).0
            ≡ true)
          × ((apply_plan
                (controller_plan lock run_id now)
                (leased run_id now lock_lease_seconds)
                lock).1
              ≡ some (leased run_id now lock_lease_seconds))
    held none h = (refl, refl)
    held (some l) h =
        let same : (l.holder == run_id) ≡ true = ground arith in
        (ground (arith, same), ground (arith, same))

refreshed-IsOurs :
    (run_id now : ℕ) (lock : Option Lock)
    → IsOurs run_id lock
    → IsOurs run_id (refreshed run_id now lock)
refreshed-IsOurs run_id now none h = tt
refreshed-IsOurs run_id now (some l) h = elim (Bool-cases (l.holder == run_id)) [
  | inl e ↦ rw e h
  | inr e ↦ rw e h
]

record Serving (run_id : ℕ) (db : Db) : Type 0 where
  ours : IsOurs run_id db.controller_lock
  running : active (find_run db run_id) ≡ true
  unique : Unique (λ (j : PhaseJob). j.id) db.phase_jobs

work-Serving :
    (db : Db) (roles_dir : Option (List RoleFile)) (run_id worker now : ℕ)
    → Serving run_id db
    → Serving run_id (work db roles_dir run_id worker now).0
unfolding find_run
work-Serving db roles_dir run_id worker now s = record {
  ours =
      subst (IsOurs run_id)
        (sym (
          work-view (λ (d : Db). d.controller_lock) (λ d jobs events. refl) try_promote-lock db
            roles_dir run_id worker now))
        s.ours;
  running =
      ap (λ (rs : List Run). active (find (λ r. r.id == run_id) rs))
        (work-view (λ (d : Db). d.runs) (λ d jobs events. refl) try_promote-runs db roles_dir run_id
          worker now)
      ∙ s.running;
  unique =
      subst (Unique (λ (j : PhaseJob). j.id)) (sym (work-phase_jobs db roles_dir run_id worker now))
        claimed;
}
  where
    reaped : Db
    reaped = (reap_stale_phase_jobs db run_id lease_timeout_seconds now).db

    after_reap : Unique (λ (j : PhaseJob). j.id) reaped.phase_jobs
    after_reap =
        Unique-Evolves db.phase_jobs reaped.phase_jobs
          (perform-Evolves db (reap run_id lease_timeout_seconds now) s.unique) s.unique

    claimed :
        Unique
          (λ (j : PhaseJob). j.id)
          (claim_next_phase_job reaped run_id none worker now).0.phase_jobs
    claimed =
        Unique-Evolves reaped.phase_jobs _
          (perform-Evolves reaped (claim run_id none worker now) after_reap) after_reap

tick-eq_work :
    (db : Db) (roles_dir : Option (List RoleFile)) (run_id worker now : ℕ)
    → (acquire_controller_lock db run_id now).0 ≡ true
    → active (find_run db run_id) ≡ true
    → tick db roles_dir run_id worker now
      ≡ work
          (heartbeat_controller_lock (acquire_controller_lock db run_id now).1 run_id now)
          roles_dir
          run_id
          worker
          now
unfolding tick acquire_controller_lock heartbeat_controller_lock find_run
tick-eq_work db roles_dir run_id worker now own run =
    owned-true (acquire_controller_lock db run_id now) roles_dir run_id worker now own ∙ rw run

beaten-Serving :
    (db : Db) (run_id now : ℕ)
    → Serving run_id db
    → Serving run_id
        (heartbeat_controller_lock (acquire_controller_lock db run_id now).1 run_id now)
unfolding heartbeat_controller_lock acquire_controller_lock find_run
beaten-Serving db run_id now s =
    let held = (acquire-IsOurs db run_id now s.ours).1 in
    record {
      ours =
          refreshed-IsOurs run_id now (acquire_controller_lock db run_id now).1.controller_lock
            (subst (IsOurs run_id) (sym held) refl);
      running = s.running;
      unique = s.unique;
    }

tick-Serving :
    (db : Db) (roles_dir : Option (List RoleFile)) (run_id worker now : ℕ)
    → Serving run_id db
    → Serving run_id (tick db roles_dir run_id worker now).0
tick-Serving db roles_dir run_id worker now s =
    let own = (acquire-IsOurs db run_id now s.ours).0 in
    let beaten = heartbeat_controller_lock (acquire_controller_lock db run_id now).1 run_id now in
    subst (λ (x : Db × Result TickResult). Serving run_id x.0)
      (sym (tick-eq_work db roles_dir run_id worker now own s.running))
      (work-Serving beaten roles_dir run_id worker now (beaten-Serving db run_id now s))

handle_signals-db :
    {A : Type 0} (signals : List Signal) (p : Process A) → (handle_signals signals p).db ≡ p.db
handle_signals-db [] p = refl
handle_signals-db (sighup ∷ signals) p = handle_signals-db signals (record p { policy = none })
handle_signals-db (sigterm ∷ signals) p = handle_signals-db signals (record p { running = false })

behind_tick-db :
    {A : Type 0} (signals : List Signal) (p : Process A) (t : Db × Result TickResult)
    → (behind_tick signals p t).db ≡ t.0
behind_tick-db signals p (db, ok result) = handle_signals-db signals (record p { db = db })
behind_tick-db signals p (db, err e) = refl

run_round-db :
    {A : Type 0} (run_id : ℕ) (r : Round) (p : Process A)
    → p.running ≡ true
    → (run_round run_id r p).db ≡ (tick p.db r.roles_dir run_id r.worker r.now).0
unfolding run_round
run_round-db run_id r p on =
    let t = tick p.db r.roles_dir run_id r.worker r.now in
    ap (λ b. (if b then behind_tick r.signals p t else p).db) on ∙ behind_tick-db r.signals p t

-- How many rounds the process begins.
abbrev pub begun : {A : Type 0} → (run_id : ℕ) → List Round → Process A → ℕ
begun run_id [] p = 0
begun run_id (r ∷ rounds) p =
    (if p.running then 1 else 0) + begun run_id rounds (run_round run_id r p)

begun-stopped :
    {A : Type 0} (run_id : ℕ) (rounds : List Round) (p : Process A)
    → p.running ≡ false
    → begun run_id rounds p ≡ 0
unfolding run_round
begun-stopped run_id [] p off = refl
begun-stopped run_id (r ∷ rounds) p off =
    let same : run_round run_id r p ≡ p = rw off refl in
    let count : (if p.running then 1 else 0) ≡ 0 = ap (λ b. if b then suc zero else zero) off in
    let rest = ap (λ q. begun run_id rounds q) same ∙ begun-stopped run_id rounds p off in
    omega (arith, count, rest)

-- How a process that serves its run ends, by the rounds that it begins.
abbrev pub Drained : {A : Type 0} → (run_id : ℕ) → List Round → Process A → Type 0
Drained run_id rounds p =
    (waiting run_id (run_rounds run_id rounds p).db.phase_jobs
      ≡ waiting run_id p.db.phase_jobs - begun run_id rounds p)
    × ((begun run_id rounds p ≡ length rounds) ⊎ ((run_rounds run_id rounds p).running ≡ false))

Serving-waiting :
    {A : Type 0} (run_id : ℕ) (rounds : List Round) (p : Process A)
    → Serving run_id p.db
    → Drained run_id rounds p
unfolding run_rounds
Serving-waiting run_id [] p s = (omega arith, inl refl)
Serving-waiting run_id (r ∷ rounds) p s = elim (Bool-cases p.running) [
  | inr off ↦ (
    ap (λ q. waiting run_id q.db.phase_jobs) (stopped-stays run_id (r ∷ rounds) p off)
        ∙ omega (arith, begun-stopped run_id (r ∷ rounds) p off),
    inr (ap (λ q. q.running) (stopped-stays run_id (r ∷ rounds) p off) ∙ off),
  )
  | inl on ↦
      let own = (acquire-IsOurs p.db run_id r.now s.ours).0 in
      let first = tick-waiting p.db r.roles_dir run_id r.worker r.now own s.running s.unique in
      let after = run_round-db run_id r p on in
      let (rest, ending) = Serving-waiting run_id rounds (run_round run_id r p) (
        subst (Serving run_id) (sym after)
          (tick-Serving p.db r.roles_dir run_id r.worker r.now s)) in
      let left = ap (λ db. waiting run_id db.phase_jobs) after in
      let one : (if p.running then 1 else 0) ≡ 1 = ap (λ b. if b then suc zero else zero) on in
      (
        rest ∙ omega (arith, first, left, one),
        elim ending [ inl all ↦ inl (omega (arith, all, one)) | inr ended ↦ inr ended ],
      )
]

-- The process of `conductor` starts a queued job of its run in every round that it begins, also in
-- one whose tick raises: if no other run holds the controller lock, the run is running, and the ids
-- of the jobs are unique, then the number of queued jobs falls by the number of rounds begun, or to
-- 0, at whichever moments the rounds come. It begins all of them, unless it has ended: by an
-- exception, by a signal, or before the first.
pub run_rounds-Drained :
    {A : Type 0} (run_id : ℕ) (rounds : List Round) (p : Process A)
    → IsOurs run_id p.db.controller_lock
    → active (find_run p.db run_id) ≡ true
    → Unique (λ (j : PhaseJob). j.id) p.db.phase_jobs
    → Drained run_id rounds p
run_rounds-Drained run_id rounds p ours running unique =
    Serving-waiting run_id rounds p (record { ours = ours; running = running; unique = unique })
