-- ===== src/Files.antt =====
-- replace_with_retry and atomic_write of ar724/db.py, and write_loop_config of
-- ar724/config_loader.py. Times are in milliseconds. What the operating system answers to each call
-- is an argument.
pub mod Retry
pub mod Atomic
pub mod Examples
use ztrade_ares_7x.Base.{
  ltb, if◌then◌else◌, ℕ, zero, suc, ◌+◌, ◌-◌, String, not, Option, none, some, List, [], ◌∷◌,
  str_eq,
}
use ztrade_ares_7x.Base.Result.{Result, os_error, err, ok}

-- What `os.replace` does: it replaces, or it raises an OSError, with one of _TRANSIENT_WINERRORS
-- or without.
pub data Answer : Type 0 where
  replaced transient refused : Answer

abbrev pub replace_attempts : ℕ
replace_attempts = 6

abbrev pub replace_backoff : List ℕ
replace_backoff = 25 ∷ (50 ∷ (100 ∷ (200 ∷ (400 ∷ []))))

abbrev pub get_elem? : List ℕ → ℕ → Option ℕ
get_elem? [] n = none
get_elem? (x ∷ xs) zero = some x
get_elem? (x ∷ xs) (suc n) = get_elem? xs n

-- How a call of `replace_with_retry` went. A loop that comes to its end returns, and nothing is
-- replaced.
pub data Ending : Type 0 where
  done raised not_replaced : Ending

pub record Tried : Type 0 where
  pub ending : Ending
  pub calls : ℕ
  pub slept : ℕ

-- `time.sleep` and `continue`; an index out of range raises
abbrev pub again : Tried → Option ℕ → Tried
again later none = record { ending = raised; calls = 1; slept = 0 }
again later (some pause) = record {
  ending = later.ending;
  calls = suc later.calls;
  slept = pause + later.slept;
}

-- what an attempt makes of its answer, where `later` is how the loop goes on
abbrev pub respond : ℕ → Tried → Answer → Tried
respond attempt later replaced = record { ending = done; calls = 1; slept = 0 }
respond attempt later refused = record { ending = raised; calls = 1; slept = 0 }
respond attempt later transient =
    if ltb attempt (replace_attempts - 1)
    then again later (get_elem? replace_backoff attempt)
    else record { ending = raised; calls = 1; slept = 0 }

-- the loop from an attempt on, with the number of attempts that are left
abbrev pub replace_from : (ℕ → Answer) → ℕ → ℕ → Tried
replace_from answers attempt zero = record { ending = not_replaced; calls = 0; slept = 0 }
replace_from answers attempt (suc left) =
    respond attempt (replace_from answers (suc attempt) left) (answers attempt)

unfoldable pub replace_with_retry : (ℕ → Answer) → Tried
replace_with_retry answers = replace_from answers 0 replace_attempts

-- The contents of the files, by their paths.
abbrev pub Files : Type 0
Files = String → Option String

abbrev pub put : Files → String → Option String → Files
put files path contents x = if str_eq path x then contents else files x

-- What `os.unlink` does: it removes the file, or raises FileNotFoundError, or another OSError.
pub data Unlinked : Type 0 where
  removed missing kept : Unlinked

-- What the calls of `atomic_write` meet: the name that mkstemp finds, what stands in that file if
-- writing to it raises, the answers to os.replace, and that to os.unlink.
pub record World : Type 0 where
  pub temporary : String
  pub broken_write : Option String
  pub answers : ℕ → Answer
  pub unlinked : Unlinked

-- `os.replace(tmp, target)`, where it replaces
abbrev pub move : Files → String → String → Files
move files tmp target = put (put files target (files tmp)) tmp none

-- The `except` block: it raises the OSError it has caught, or that of os.unlink. A file that os.unlink
-- does not find is not there.
abbrev pub clean_up : Unlinked → Files → String → Files × Result (Unit {0})
clean_up removed files tmp = (put files tmp none, err os_error)
clean_up missing files tmp = (put files tmp none, err os_error)
clean_up kept files tmp = (files, err os_error)

-- what follows `replace_with_retry`
abbrev pub after_replace : Unlinked → Ending → Files → String → String → Files × Result (Unit {0})
after_replace unlinked raised files tmp target = clean_up unlinked files tmp
after_replace unlinked done files tmp target = (move files tmp target, ok tt)
after_replace unlinked not_replaced files tmp target = (files, ok tt)

-- what follows the write, with what it left in the file if it raised
abbrev pub after_write : Option String → World → Files → String → String → Files × Result (Unit {0})
after_write (some part) w files target contents =
    clean_up w.unlinked (put files w.temporary (some part)) w.temporary
after_write none w files target contents =
    after_replace w.unlinked ((replace_with_retry w.answers).ending)
      (put files w.temporary (some contents)) w.temporary target

-- With the directory in place.
unfoldable pub atomic_write : World → Files → String → String → Files × Result (Unit {0})
unfolding replace_with_retry
atomic_write w files target contents = after_write w.broken_write w files target contents

-- The path that is given, or else that of a variable of the environment that is not empty, or else
-- the default.
abbrev pub config_path : Option String → Option String → String
config_path (some path) env = path
config_path none none = ".ares/loop_config.json"
config_path none (some env) = if str_eq env "" then ".ares/loop_config.json" else env

-- `json.dumps` is an argument.
unfoldable pub write_loop_config :
    {A : Type 0}
    → (A → String)
    → World
    → Files
    → Option String
    → Option String
    → A
    → Files × Result (Unit {0})
unfolding atomic_write
write_loop_config dumps w files path env config =
    atomic_write w files (config_path path env) (dumps config)
