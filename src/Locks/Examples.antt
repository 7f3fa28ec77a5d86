-- ===== src/Locks/Examples.antt =====
-- Small databases and the theorems of this folder at them.
use ztrade_ares_7x.Base.{◌≡◌, refl, true, false, none, some, [], arith}
use ztrade_ares_7x.Db.{Lock, Db}
use ztrade_ares_7x.Locks.{acquire_controller_lock}
use ztrade_ares_7x.Locks.Controller.{acquire-exclusive}
use ztrade_ares_7x.Locks.Race.{overlapped, HeldBy, overlapped-both_acquire}

abbrev pub empty : Db
empty = record {
  runs = [];
  iterations = [];
  phase_jobs = [];
  candidates = [];
  evaluations = [];
  promotions = [];
  approvals = [];
  events = [];
  cost_events = [];
  controller_lock = none;
  promotion_lock = none;
  eval_results = [];
}

abbrev old_lock : Lock
old_lock = record { holder = 9; lease_expires_at = 100; last_heartbeat_at = 0 }

abbrev expired : Db
expired = record empty { controller_lock = some old_lock; promotion_lock = some old_lock }

acquire_expired : (acquire_controller_lock expired 1 200).0 ≡ true
unfolding acquire_controller_lock
acquire_expired = refl

acquire-exclusive_example :
    acquire_controller_lock (acquire_controller_lock expired 1 200).1 2 380
    ≡ (false, (acquire_controller_lock expired 1 200).1)
acquire-exclusive_example =
    acquire-exclusive expired 1 2 200 380 acquire_expired (omega arith) (omega arith)

overlapped-both_acquire_example :
    ((overlapped expired 1 200 2 201).0 ≡ true)
    × ((overlapped expired 1 200 2 201).1 ≡ true)
    × HeldBy 2 (overlapped expired 1 200 2 201).2
overlapped-both_acquire_example =
    overlapped-both_acquire expired 1 200 2 201 old_lock refl (omega arith) (omega arith)
