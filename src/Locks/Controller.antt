-- ===== src/Locks/Controller.antt =====
-- The controller lock, when acquisitions do not overlap.
use ztrade_ares_7x.Base.{
  ℕ, ◌+◌, ◌≤◌, ◌<◌, ◌≡◌, ◌≢◌, ◌↔◌, ◌⊎◌, true, false, some, arith, Option-cases, inl, inr,
}
use ztrade_ares_7x.Db.{Db, Lock}
use ztrade_ares_7x.Locks.{lock_lease_seconds, acquire_controller_lock, heartbeat_controller_lock}

-- A controller that acquired the lock at `now` keeps every other run out up to and including the
-- last second of its lease: the other's attempt returns False and changes nothing.
pub acquire-exclusive :
    (db : Db) (r s now later : ℕ)
    → (acquire_controller_lock db r now).0 ≡ true
    → r ≢ s
    → later ≤ now + lock_lease_seconds
    → acquire_controller_lock (acquire_controller_lock db r now).1 s later
      ≡ (false, (acquire_controller_lock db r now).1)
unfolding acquire_controller_lock
acquire-exclusive db r s now later h ne le = ground arith

-- The lock is granted exactly if it is free, has expired, or is the caller's own.
pub acquire_iff :
    (db : Db) (r now : ℕ)
    → ((acquire_controller_lock db r now).0 ≡ true)
      ↔ ((l : Lock) → db.controller_lock ≡ some l → (l.lease_expires_at < now) ⊎ (l.holder ≡ r))
unfolding acquire_controller_lock
acquire_iff db r now = (
  λ h l e. ground arith,
  λ all. elim (Option-cases db.controller_lock) [
    | inl e ↦ ground arith
    | inr (l, e) ↦ ground (arith, all l e)
  ],
)

-- After a heartbeat the holder still keeps every other run out for a whole lease from then on.
pub heartbeat-exclusive :
    (db : Db) (r s beat later : ℕ) (l : Lock)
    → db.controller_lock ≡ some l
    → l.holder ≡ r
    → r ≢ s
    → later ≤ beat + lock_lease_seconds
    → (acquire_controller_lock (heartbeat_controller_lock db r beat) s later).0 ≡ false
unfolding acquire_controller_lock heartbeat_controller_lock
heartbeat-exclusive db r s beat later l e own ne le = ground arith
