-- ===== src/Locks/Promoting.antt =====
-- The promotion lock: ar724/promotion_gate.py, `claim_promotion_lock`, `release_promotion_lock`
-- and `gate_promotion_lock`.
use ztrade_ares_7x.Base.{ℕ, ◌+◌, ◌≤◌, ◌<◌, ◌≡◌, ◌≢◌, true, false, none, some, arith}
use ztrade_ares_7x.Db.{Db, Lock}
use ztrade_ares_7x.Locks.{
  promotion_lease_seconds, claim_promotion_lock, release_promotion_lock, promotion_lock_held,
}

-- A claim by a run that does not hold the lock yet is good for one lease: all that time the run
-- passes the lock gate, no other run does, and no other run can claim the lock.
claim-exclusive :
    (db : Db) (r s now later : ℕ)
    → db.promotion_lock ≡ none
    → r ≢ s
    → now ≤ later
    → later ≤ now + promotion_lease_seconds
    → (promotion_lock_held (claim_promotion_lock db r now).1 r later ≡ true)
      × (promotion_lock_held (claim_promotion_lock db r now).1 s later ≡ false)
      × ((claim_promotion_lock (claim_promotion_lock db r now).1 s later).0 ≡ false)
unfolding claim_promotion_lock promotion_lock_held
claim-exclusive db r s now later free ne after le = ground arith

-- Whenever a claim returns True, the lock gate passes for that run at that moment.
pub claim-held :
    (db : Db) (r now : ℕ)
    → (claim_promotion_lock db r now).0 ≡ true
    → promotion_lock_held (claim_promotion_lock db r now).1 r now ≡ true
unfolding claim_promotion_lock promotion_lock_held
claim-held db r now h = ground arith

-- A run whose lease ran out while it was promoting, and whose lock another run `s` then took over,
-- releases the lock of `s`: a third run can claim it while `s` still has its whole lease.
release-frees_other :
    (db : Db) (l : Lock) (s t now : ℕ)
    → db.promotion_lock ≡ some l
    → l.lease_expires_at < now
    → ((claim_promotion_lock db s now).0 ≡ true)
      × ((claim_promotion_lock (release_promotion_lock (claim_promotion_lock db s now).1) t now).0
          ≡ true)
unfolding claim_promotion_lock release_promotion_lock
release-frees_other db l s t now e old = ground arith
