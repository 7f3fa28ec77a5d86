-- ===== src/Files/Retry.antt =====
-- What `replace_with_retry` of ar724/db.py does with the answers of os.replace.
use ztrade_ares_7x.Base.{ltb, ℕ, zero, suc, ◌+◌, ◌≤◌, ◌≡◌, refl, true, some, arith}
use ztrade_ares_7x.Files.{
  replace_backoff, get_elem?, respond, replace_from, replace_with_retry, Answer, Ending, Tried,
  replaced, transient, refused, done, raised,
}

abbrev pub unless_transient : Answer → Answer → Answer
unless_transient later transient = later
unless_transient later a = a

-- The first answer that is not transient, among so many from an attempt on.
abbrev pub settled : (ℕ → Answer) → ℕ → ℕ → Answer
settled answers attempt zero = transient
settled answers attempt (suc left) =
    unless_transient (settled answers (suc attempt) left) (answers attempt)

abbrev pub ending_of : Answer → Ending
ending_of replaced = done
ending_of _ = raised

module _ (answers : ℕ → Answer) where
  -- From an attempt on the loop ends as it should, within so much sleep.
  abbrev Ends : ℕ → ℕ → ℕ → Type 0
  Ends attempt left sleep =
      let run = replace_from answers attempt left in
      (run.ending ≡ ending_of (settled answers attempt left))
      × (run.calls ≤ left)
      × (run.slept ≤ sleep)

  last-Ends : Ends 5 1 0
  last-Ends = respond-last (answers 5)
    where
      respond-last :
          (a : Answer)
          → let run = respond 5 (replace_from answers 6 0) a in
            (run.ending ≡ ending_of (unless_transient transient a))
            × (run.calls ≤ 1)
            × (run.slept ≤ 0)
      respond-last replaced = (refl, omega arith, omega arith)
      respond-last transient = (refl, omega arith, omega arith)
      respond-last refused = (refl, omega arith, omega arith)

  step-Ends :
      (attempt left sleep pause : ℕ)
      → get_elem? replace_backoff attempt ≡ some pause
      → ltb attempt 5 ≡ true
      → Ends (suc attempt) left sleep
      → Ends attempt (suc left) (pause + sleep)
  step-Ends attempt left sleep pause p early (e, c, s) = respond-next (answers attempt)
    where
      later : Tried
      later = replace_from answers (suc attempt) left

      respond-next :
          (a : Answer)
          → let run = respond attempt later a in
            (run.ending ≡ ending_of (unless_transient (settled answers (suc attempt) left) a))
            × (run.calls ≤ suc left)
            × (run.slept ≤ pause + sleep)
      respond-next replaced = (refl, omega arith, omega arith)
      respond-next transient = rw (early, p) (e, omega (arith, c), omega (arith, s))
      respond-next refused = (refl, omega arith, omega arith)

-- `replace_with_retry` ends as the first answer says that is not transient, within the first six
-- answers; it raises if all six are transient. It calls os.replace at most six times, sleeps at
-- most 775 milliseconds, and never returns without having replaced.
pub replace_with_retry_lem :
    (answers : ℕ → Answer)
    → ((replace_with_retry answers).ending ≡ ending_of (settled answers 0 6))
      × ((replace_with_retry answers).calls ≤ 6)
      × ((replace_with_retry answers).slept ≤ 775)
unfolding replace_with_retry
replace_with_retry_lem answers = step-Ends answers 0 5 750 25 refl refl (
    step-Ends answers 1 4 700 50 refl refl (
      step-Ends answers 2 3 600 100 refl refl (
        step-Ends answers 3 2 400 200 refl refl
          (step-Ends answers 4 1 0 400 refl refl (last-Ends answers)))))
