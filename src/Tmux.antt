-- ===== src/Tmux.antt =====
-- ar724/tmux_manager.py. `Host` is what the code calls outside: tmux and the kernel, with a state
-- of their own, and three functions of Python's library.
pub mod Laws
pub mod Server
pub mod Windows
pub mod Create
pub mod Down
pub mod Examples
use ztrade_ares_7x.Base.{
  leb, ◌==◌, if◌then◌else◌, any, select, ℕ, suc, Bool, true, false, not, ◌&&◌, ◌||◌, Option, none,
  some, List, [], ◌∷◌, ◌++◌, map,
}
use ztrade_ares_7x.Base.Int.{ℤ, pos}
use ztrade_ares_7x.Base.Result.{Result, Exception, ok, err, runtime_error, called_process_error}
use ztrade_ares_7x.Base.Texts.{Text, codes, text_eq, begins, contains}

-- a `CompletedProcess`
pub record Completed : Type 0 where
  pub returncode : ℕ
  pub stdout : Text
  pub stderr : Text

-- `which` is what shutil.which("tmux") gives, `run` is subprocess.run, `alive` is os.kill(pid, 0),
-- false where that raises; `int` gives none for a ValueError.
pub record Host : Type 1 where
  pub State : Type 0
  pub which : Option Text
  pub run : List Text → State → Completed × State
  pub alive : ℤ → State → Bool
  pub splitlines : Text → List Text
  pub strip : Text → Text
  pub int : Text → Option ℤ

-- A call that may raise; what tmux has done before stays done.
abbrev pub Action : Type 0 → Type 0 → Type 0
Action S A = S → Result A × S

abbrev pub pure : {S A : Type 0} → A → Action S A
pure a s = (ok a, s)

abbrev pub raise : {S A : Type 0} → Exception → Action S A
raise e s = (err e, s)

abbrev pub follow : {S A B : Type 0} → (A → Action S B) → Result A × S → Result B × S
follow f (ok a, s) = f a s
follow f (err e, s) = (err e, s)

infixl 5 ◌>>=◌ ◌>>◌
abbrev pub ◌>>=◌ : {S A B : Type 0} → Action S A → (A → Action S B) → Action S B
◌>>=◌ m f s = follow f (m s)

abbrev pub ◌>>◌ : {S A B : Type 0} → Action S A → Action S B → Action S B
m >> k = m >>= λ _. k

-- an ASCII letter or digit, `_` or `-`
abbrev pub is_safe : ℕ → Bool
is_safe c =
    (leb 65 c && leb c 90)
    || (leb 97 c && leb c 122)
    || (leb 48 c && leb c 57)
    || (c == 95)
    || (c == 45)

abbrev pub sanitize : Text → Text
sanitize [] = []
sanitize (c ∷ cs) = (if is_safe c then c else 45) ∷ sanitize cs

abbrev pub session_prefix : Text
session_prefix = codes "ar7x24-"

unfoldable pub session_name : Text → Text
session_name run_id = session_prefix ++ sanitize run_id

unfoldable pub attach_command : Text → Text
unfolding session_name
attach_command run_id = codes "tmux attach -t " ++ session_name run_id

-- `session:name`
abbrev pub target : Text → Text → Text
target session name = session ++ 58 ∷ name

abbrev pub has_session : Text → List Text
has_session name = codes "has-session" ∷ (codes "-t" ∷ (name ∷ []))

abbrev pub sessions_format : List Text
sessions_format = codes "list-sessions" ∷ (codes "-F" ∷ (codes "#{session_name}" ∷ []))

abbrev pub end_session : Text → List Text
end_session name = codes "kill-session" ∷ (codes "-t" ∷ (name ∷ []))

abbrev pub windows_format : Text → List Text
windows_format session =
    codes "list-windows" ∷ (codes "-t" ∷ (session ∷ (codes "-F" ∷ (codes "#{window_name}" ∷ []))))

abbrev pub end_window : Text → List Text
end_window tmux_target = codes "kill-window" ∷ (codes "-t" ∷ (tmux_target ∷ []))

abbrev pub with_command : Text → List Text
with_command [] = []
with_command (c ∷ cs) = codes "-P" ∷ (codes "-F" ∷ (codes "#{window_id}" ∷ ((c ∷ cs) ∷ [])))

abbrev pub add_window : (session name command : Text) → List Text
add_window session name command =
    codes "new-window"
    ∷ (codes "-d" ∷ (codes "-t" ∷ (session ∷ (codes "-n" ∷ (name ∷ with_command command)))))

abbrev pub add_session : (name working_dir : Text) → List Text
add_session name working_dir =
    codes "new-session"
    ∷ (codes "-d"
        ∷ (codes "-s"
            ∷ (name ∷ (codes "-n" ∷ (codes "control" ∷ (codes "-c" ∷ (working_dir ∷ [])))))))

abbrev pub panes_format : Text → List Text
panes_format tmux_target =
    codes "list-panes" ∷ (codes "-t" ∷ (tmux_target ∷ (codes "-F" ∷ (codes "#{pane_pid}" ∷ []))))

abbrev pub some_text : Text → Bool
some_text [] = false
some_text (c ∷ cs) = true

abbrev pub listed : List Text → Text → Bool
listed names name = any (text_eq name) names

abbrev pub worker_slots : List Text
worker_slots = codes "proposer" ∷ (codes "builder" ∷ (codes "validator" ∷ (codes "reviewer" ∷ [])))

-- the six windows, then one for each worker slot
abbrev pub layout : (controller_cmd board_cmd events_cmd reaper_cmd : Text) → List (Text × Text)
layout controller_cmd board_cmd events_cmd reaper_cmd =
    (codes "control", controller_cmd)
    ∷ ((codes "board", board_cmd)
        ∷ ((codes "events", events_cmd)
            ∷ ((codes "reaper", reaper_cmd)
                ∷ ((codes "evaluator", codes "ar724 evaluator --watch")
                    ∷ ((codes "shell", codes "bash")
                        ∷ map (λ slot. (slot, codes "bash -i")) worker_slots)))))

module _ (H : Host) where
  unfoldable pub tmux_exe : Action H.State Text
  tmux_exe s = elim (H.which) [ none ↦ (err runtime_error, s) | some exe ↦ (ok exe, s) ]

  -- `subprocess.run([tmux_exe(), *args])`
  unfoldable pub call : List Text → Action H.State Completed
  unfolding tmux_exe
  call args = tmux_exe >>= λ exe s. let (out, s') = H.run (exe ∷ args) s in (ok out, s')

  -- with `check=True`
  unfoldable pub call_checked : List Text → Action H.State (Unit {0})
  unfolding call
  call_checked args = do
    out ← call args
    if out.returncode == 0 then pure tt else raise called_process_error

  unfoldable pub session_exists : Text → Action H.State Bool
  unfolding call
  session_exists name = do out ← call (has_session name); pure (out.returncode == 0)

  abbrev pub own_sessions : Completed → List Text
  own_sessions out =
      if out.returncode == 0 then select (begins session_prefix) (H.splitlines out.stdout) else []

  unfoldable pub list_sessions : Action H.State (List Text)
  unfolding call
  list_sessions = do out ← call sessions_format; pure (own_sessions out)

  unfoldable pub kill_session : Text → Action H.State (Unit {0})
  unfolding session_exists call
  kill_session name = do
    exists ← session_exists name
    if exists then call (end_session name) >> pure tt else pure tt

  abbrev window_names : Completed → List Text
  window_names out = if out.returncode == 0 then select some_text (H.splitlines out.stdout) else []

  unfoldable pub list_windows : Text → Action H.State (List Text)
  unfolding session_exists call
  list_windows session = do
    exists ← session_exists session
    (if exists then call (windows_format session) >>= (λ out. pure (window_names out)) else pure [])

  abbrev pub created : (session name : Text) → Completed → Action H.State Text
  created session name out =
      if not (out.returncode == 0) && not (contains (codes "duplicate window") out.stderr)
      then raise runtime_error
      else pure (target session name)

  unfoldable pub new_window : (session name command : Text) → Action H.State Text
  unfolding list_windows call
  new_window session name command = do
    tmux_exe
    names ← list_windows session
    (if listed names name then call (end_window (target session name)) >> pure tt else pure tt)
    out ← call (add_window session name command)
    created session name out

  unfoldable pub send_keys : Text → List Text → Action H.State (Unit {0})
  unfolding call_checked
  send_keys tmux_target [] = pure tt
  send_keys tmux_target (key ∷ keys) =
      call_checked (codes "send-keys" ∷ (codes "-t" ∷ (tmux_target ∷ (key ∷ keys))))

  unfoldable pub send_command : (tmux_target command : Text) → Action H.State (Unit {0})
  unfolding send_keys
  send_command tmux_target command = send_keys tmux_target (command ∷ (codes "C-m" ∷ []))

  unfoldable pub kill_window : Text → Action H.State (Unit {0})
  unfolding call
  kill_window [] = pure tt
  kill_window (c ∷ cs) =
      if any (λ d. d == 58) (c ∷ cs) then call (end_window (c ∷ cs)) >> pure tt else pure tt

  abbrev pub first_int : List Text → Option ℤ
  first_int [] = none
  first_int (line ∷ lines) = H.int line

  unfoldable pub pane_pid : Text → Action H.State (Option ℤ)
  unfolding call
  pane_pid tmux_target = do
    out ← call (panes_format tmux_target)
    pure (if out.returncode == 0 then first_int (H.splitlines (H.strip out.stdout)) else none)

  unfoldable pub is_pid_alive : Option ℤ → H.State → Bool
  is_pid_alive none s = false
  is_pid_alive (some (pos (suc n))) s = H.alive (pos (suc n)) s
  is_pid_alive (some _) s = false

  unfoldable pub new_windows : Text → List (Text × Text) → Action H.State (Unit {0})
  unfolding new_window
  new_windows session [] = pure tt
  new_windows session ((name, command) ∷ rest) =
      new_window session name command >> new_windows session rest

  unfoldable pub create_session :
      (run_id working_dir controller_cmd board_cmd events_cmd reaper_cmd : Text)
      → Action H.State Text
  unfolding session_exists call_checked new_windows session_name
  create_session run_id working_dir controller_cmd board_cmd events_cmd reaper_cmd =
      let name = session_name run_id in
      do
        exists ← session_exists name
        (if exists then pure tt else call_checked (add_session name working_dir))
        new_windows name (layout controller_cmd board_cmd events_cmd reaper_cmd)
        pure name
