-- ===== src/Locks.antt =====
-- `service_locks`: the controller lock of ar724/conductor.py and the promotion lock of
-- ar724/promotion_gate.py. Each acquisition is a SELECT and then a write that its result chose;
-- the two are kept apart, since another process may run between them.
pub mod Controller
pub mod Race
pub mod Promoting
pub mod Examples
use ztrade_ares_7x.Base.{
  ℕ, ◌+◌, Bool, true, false, not, ◌&&◌, ◌||◌, Option, none, some, ltb, ◌==◌, if◌then◌else◌,
}
use ztrade_ares_7x.Db.{Db, Lock}

abbrev pub lock_lease_seconds : ℕ
lock_lease_seconds = 180

abbrev pub promotion_lease_seconds : ℕ
promotion_lease_seconds = 600

-- what the SELECT leads to: INSERT, UPDATE, or `return b` without a write
pub data Plan : Type 0 where
  insert update : Plan
  answer : Bool → Plan

unfoldable pub controller_plan : Option Lock → ℕ → ℕ → Plan
controller_plan none run_id now = insert
controller_plan (some existing) run_id now =
    if ltb existing.lease_expires_at now || existing.holder == run_id then update else answer false

abbrev pub leased : ℕ → ℕ → ℕ → Lock
leased run_id now seconds = record {
  holder = run_id;
  lease_expires_at = now + seconds;
  last_heartbeat_at = now;
}

-- The write. INSERT into an occupied name raises, and the handler returns False; UPDATE of a
-- missing name touches no row, and True is returned all the same.
unfoldable pub apply_plan : Plan → Lock → Option Lock → Bool × Option Lock
apply_plan insert mine none = (true, some mine)
apply_plan insert mine (some other) = (false, some other)
apply_plan update mine none = (true, none)
apply_plan update mine (some other) = (true, some mine)
apply_plan (answer b) mine row = (b, row)

unfoldable pub controller_write : Plan → ℕ → ℕ → Db → Bool × Db
unfolding apply_plan
controller_write plan run_id now db =
    let (acquired, row) =
      apply_plan plan (leased run_id now lock_lease_seconds) db.controller_lock in
    (acquired, record db { controller_lock = row })

unfoldable pub acquire_controller_lock : Db → ℕ → ℕ → Bool × Db
unfolding controller_plan controller_write
acquire_controller_lock db run_id now =
    controller_write (controller_plan db.controller_lock run_id now) run_id now db

abbrev pub refreshed : ℕ → ℕ → Option Lock → Option Lock
refreshed run_id now none = none
refreshed run_id now (some l) =
    if l.holder == run_id
    then some (record l { lease_expires_at = now + lock_lease_seconds; last_heartbeat_at = now })
    else some l

unfoldable pub heartbeat_controller_lock : Db → ℕ → ℕ → Db
heartbeat_controller_lock db run_id now = record db {
  controller_lock = refreshed run_id now db.controller_lock;
}

unfoldable pub promotion_plan : Option Lock → ℕ → ℕ → Plan
promotion_plan none run_id now = insert
promotion_plan (some existing) run_id now =
    if ltb existing.lease_expires_at now then update else answer (existing.holder == run_id)

unfoldable pub claim_promotion_lock : Db → ℕ → ℕ → Bool × Db
unfolding promotion_plan apply_plan
claim_promotion_lock db run_id now =
    let (claimed, row) =
      apply_plan (promotion_plan db.promotion_lock run_id now)
        (leased run_id now promotion_lease_seconds) db.promotion_lock in
    (claimed, record db { promotion_lock = row })

unfoldable pub release_promotion_lock : Db → Db
release_promotion_lock db = record db { promotion_lock = none }

abbrev held : Option Lock → ℕ → ℕ → Bool
held none run_id now = false
held (some l) run_id now = l.holder == run_id && not (ltb l.lease_expires_at now)

-- `gate_promotion_lock`, as a test: the run holds the lock, and its lease has not expired
unfoldable pub promotion_lock_held : Db → ℕ → ℕ → Bool
promotion_lock_held db run_id now = held db.promotion_lock run_id now
