-- ===== src/Conductor/Signals.antt =====
-- The process of `conductor` of ar724/cli.py: its loop, and the signals that come while a round of
-- it runs. SIGINT is handled as SIGTERM is. What the process prints is left out.
use ztrade_ares_7x.Base.{
  if◌then◌else◌, ℕ, ◌≡◌, refl, ◌∙◌, ap, Bool, false, Option, none, some, List, [], ◌∷◌,
}
use ztrade_ares_7x.Base.Result.{Result, Exception, ok, err}
use ztrade_ares_7x.Db.{Db}
use ztrade_ares_7x.Roles.{RoleFile}
use ztrade_ares_7x.Conductor.{tick, TickResult}

pub data Signal : Type 0 where
  sighup sigterm : Signal

-- a round: a tick and the pause behind it, with what comes from outside
pub record Round : Type 0 where
  pub roles_dir : Option (List RoleFile)
  pub worker : ℕ
  pub now : ℕ
  pub signals : List Signal

-- `policy` is the cache of get_safety_policy; `raised` is the exception that ended the process
pub record Process (A : Type 0) : Type 0 where
  pub db : Db
  pub running : Bool
  pub policy : Option A
  pub raised : Option Exception

abbrev pub handle_signal : {A : Type 0} → Signal → Process A → Process A
handle_signal sighup p = record p { policy = none }
handle_signal sigterm p = record p { running = false }

abbrev pub handle_signals : {A : Type 0} → List Signal → Process A → Process A
handle_signals [] p = p
handle_signals (s ∷ signals) p = handle_signals signals (handle_signal s p)

-- behind the tick: an exception ends the process
abbrev pub behind_tick : {A : Type 0} → List Signal → Process A → Db × Result TickResult → Process A
behind_tick signals p (db, ok result) = handle_signals signals (record p { db = db })
behind_tick signals p (db, err e) = record p { db = db; running = false; raised = some e }

unfoldable pub run_round : {A : Type 0} → (run_id : ℕ) → Round → Process A → Process A
unfolding tick
run_round run_id r p =
    if p.running then behind_tick r.signals p (tick p.db r.roles_dir run_id r.worker r.now) else p

unfoldable pub run_rounds : {A : Type 0} → (run_id : ℕ) → List Round → Process A → Process A
unfolding run_round
run_rounds run_id [] p = p
run_rounds run_id (r ∷ rounds) p = run_rounds run_id rounds (run_round run_id r p)

pub stopped-stays :
    {A : Type 0} (run_id : ℕ) (rounds : List Round) (p : Process A)
    → p.running ≡ false
    → run_rounds run_id rounds p ≡ p
unfolding run_rounds
stopped-stays run_id [] p h = refl
stopped-stays run_id (r ∷ rounds) p h =
    let same : run_round run_id r p ≡ p = rw h refl in
    ap (run_rounds run_id rounds) same ∙ stopped-stays run_id rounds p h
