-- ===== src/Files/Examples.antt =====
-- The theorems on atomic_write of ar724/db.py at a write that needs two attempts.
use ztrade_ares_7x.Base.{if◌then◌else◌, ℕ, zero, suc, ◌≤◌, ◌≡◌, refl, none, some, str_eq}
use ztrade_ares_7x.Files.{
  replace_with_retry, Files, atomic_write, Answer, World, replaced, transient, done, kept,
}
use ztrade_ares_7x.Files.Retry.{settled, ending_of, replace_with_retry_lem}
use ztrade_ares_7x.Files.Atomic.{verdict, Stored, atomic_write-Stored}

-- The first attempt fails for a moment.
abbrev busy_once : ℕ → Answer
busy_once zero = transient
busy_once (suc n) = replaced

abbrev world : World
world = record {
  temporary = "config.json.x1.tmp";
  broken_write = none;
  answers = busy_once;
  unlinked = kept;
}

abbrev before : Files
before x = if str_eq x "config.json" then some "old" else none

busy_once-run : replace_with_retry busy_once ≡ record { ending = done; calls = 2; slept = 25 }
unfolding replace_with_retry
busy_once-run = refl

replace_with_retry_lem_example :
    ((replace_with_retry busy_once).ending ≡ ending_of (settled busy_once 0 6))
    × ((replace_with_retry busy_once).calls ≤ 6)
    × ((replace_with_retry busy_once).slept ≤ 775)
replace_with_retry_lem_example = replace_with_retry_lem busy_once

atomic_write-Stored_example :
    Stored world before "config.json" "new"
      (verdict world)
      (atomic_write world before "config.json" "new")
atomic_write-Stored_example = atomic_write-Stored world before "config.json" "new" refl refl
