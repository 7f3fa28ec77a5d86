-- ===== src/Runs/Watch.antt =====
-- `cron-tick` of ar724/cli.py. The circuit breaker's file is left out.
use mathlib.Core.List.{append-nil, append_assoc}
use ztrade_ares_7x.Base.{
  ltb, if◌then◌else◌, Bool-cases, select, ℕ, ◌≡◌, sym, ◌∙◌, ap, inl, inr, Bool, true, Option, none,
  some, List, [], ◌∷◌, ◌++◌, map, arith,
}
use ztrade_ares_7x.Db.{Run, Event, Lock, Db}
use ztrade_ares_7x.Events.{insert_event, run_event}
use ztrade_ares_7x.Runs.{run_is_running}

abbrev pub tripped : ℕ → Run → Event
tripped now r = run_event "circuit_breaker_tripped" "critical" r.id now

-- `holder_row is None or holder_row["lease_expires_at"] < now`
abbrev pub unheld : Option Lock → ℕ → Bool
unheld none now = true
unheld (some l) now = ltb l.lease_expires_at now

trip_all : Db → List Run → ℕ → Db
unfolding insert_event
trip_all db [] now = db
trip_all db (r ∷ rs) now =
    trip_all (if unheld db.controller_lock now then insert_event db (tripped now r) else db) rs now

-- The SELECT excludes the runs whose id is the holder of a live lock. A holder is the text
-- "controller:" before a run id, which is the id of no run, so that every running run remains.
unfoldable pub cron_tick : Db → (now : ℕ) → Db
unfolding trip_all
cron_tick db now = trip_all db (select run_is_running db.runs) now

trip_all_lem :
    (db : Db) (rs : List Run) (now : ℕ)
    → trip_all db rs now ≡ record db {
      events = db.events ++ (if unheld db.controller_lock now then map (tripped now) rs else []);
    }
unfolding trip_all insert_event
trip_all_lem db [] now =
    ap (λ l. record db { events = l })
      (sym (append-nil db.events) ∙ ap (λ l. db.events ++ l) (ground arith))
trip_all_lem db (r ∷ rs) now = elim (Bool-cases (unheld db.controller_lock now)) [
  | inl e ↦
      let next = trip_all_lem (record db { events = db.events ++ tripped now r ∷ [] }) rs now in
      rw e (
        rw e at next
        ∙ ap (λ l. record db { events = l })
            (append_assoc db.events (tripped now r ∷ []) (map (tripped now) rs)))
  | inr e ↦ rw e (rw e at (trip_all_lem db rs now))
]

-- The watchdog only logs. If the controller lock is free or has expired it appends one critical
-- event for each running run; if the lock is held, by whichever run, it appends none. In neither
-- case does it change a run.
pub cron_tick_lem :
    (db : Db) (now : ℕ)
    → cron_tick db now ≡ record db {
      events =
          db.events
          ++ (if unheld db.controller_lock now
              then map (tripped now) (select run_is_running db.runs)
              else []);
    }
unfolding cron_tick
cron_tick_lem db now = trip_all_lem db (select run_is_running db.runs) now
