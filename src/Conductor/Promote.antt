-- ===== src/Conductor/Promote.antt =====
-- The promotion step of ar724/conductor.py.
use ztrade_ares_7x.Base.{ℕ, ◌≡◌, true, Option, none, some, List, arith}
use ztrade_ares_7x.Base.Result.{name_error, ok, err}
use ztrade_ares_7x.Db.{Db}
use ztrade_ares_7x.Roles.{validate_roles, RoleFile, Loaded}
use ztrade_ares_7x.Conductor.{ready_to_promote, try_promote_latest_iter}

-- When the latest iteration is ready, the role files are valid and the promotion lock is free,
-- the step raises NameError; it leaves the lock free and every table as it was.
pub try_promote-name_error :
    (db : Db) (fs : List RoleFile) (roles : List Loaded) (run_id now : ℕ)
    → ready_to_promote db run_id ≡ true
    → validate_roles (some fs) ≡ ok roles
    → db.promotion_lock ≡ none
    → try_promote_latest_iter db (some fs) run_id now ≡ (db, err name_error)
unfolding try_promote_latest_iter
try_promote-name_error db fs roles run_id now ready valid free = rw ready (ground arith)

-- Whatever the database and the role files, the step changes no table: the candidates that are
-- ready are never promoted.
pub try_promote-promotions :
    (db : Db) (roles_dir : Option (List RoleFile)) (run_id now : ℕ)
    → (try_promote_latest_iter db roles_dir run_id now).0.promotions ≡ db.promotions
unfolding try_promote_latest_iter
try_promote-promotions db roles_dir run_id now = ground arith
