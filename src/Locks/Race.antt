-- ===== src/Locks/Race.antt =====
-- Two controllers between whose SELECT and write the other one runs: ar724/conductor.py,
-- `acquire_controller_lock`.
use ztrade_ares_7x.Base.{ℕ, ◌<◌, ◌≡◌, Bool, true, false, Option, none, some, arith}
use ztrade_ares_7x.Db.{Db, Lock}
use ztrade_ares_7x.Locks.{controller_plan, controller_write}

-- Runs `r` and `s` both read the lock, and then write one after the other.
unfoldable pub overlapped : Db → (r r_now s s_now : ℕ) → Bool × Bool × Option Lock
unfolding controller_plan controller_write
overlapped db r r_now s s_now =
    let (first, after) = controller_write (controller_plan db.controller_lock r r_now) r r_now db in
    let (second, last) =
      controller_write (controller_plan db.controller_lock s s_now) s s_now after in
    (first, second, last.controller_lock)

abbrev pub HeldBy : ℕ → Option Lock → Type 0
HeldBy r none = ⊥
HeldBy r (some l) = l.holder ≡ r

-- If the lock has expired when both read it, both acquisitions return True, and the row names
-- only the one that wrote last.
pub overlapped-both_acquire :
    (db : Db) (r r_now s s_now : ℕ) (l : Lock)
    → db.controller_lock ≡ some l
    → l.lease_expires_at < r_now
    → l.lease_expires_at < s_now
    → ((overlapped db r r_now s s_now).0 ≡ true)
      × ((overlapped db r r_now s s_now).1 ≡ true)
      × HeldBy s (overlapped db r r_now s s_now).2
unfolding overlapped
overlapped-both_acquire db r r_now s s_now l e old_r old_s = ground arith

-- If there is no row, the primary key decides: the first writer has the lock, the second returns
-- False.
pub overlapped-insert :
    (db : Db) (r r_now s s_now : ℕ)
    → db.controller_lock ≡ none
    → ((overlapped db r r_now s s_now).0 ≡ true)
      × ((overlapped db r r_now s s_now).1 ≡ false)
      × HeldBy r (overlapped db r r_now s s_now).2
unfolding overlapped
overlapped-insert db r r_now s s_now e = ground arith
