-- ===== src/Tmux/Laws.antt =====
-- What ar724/tmux_manager.py relies on of tmux, as its manual has it. `windows s n` are the windows
-- of the session `n` in the state `s`, none if there is no such session. tmux takes a target also as
-- the beginning of a name or as a pattern, and parts it at a colon: `is_name` says of a text that it
-- is a session's name as a whole and begins no other, as the names of the program's runs, whose ids
-- have one length. A window stays until it is killed: a command that ends, and so closes its window,
-- is not followed.
use ztrade_ares_7x.Base.{
  ◌==◌, if◌then◌else◌, is_some, any, all, select, count, ℕ, ◌+◌, ◌<◌, ◌≡◌, Bool, true, false, ◌&&◌,
  Option, none, some, List, [], ◌∷◌,
}
use ztrade_ares_7x.Base.Texts.{Text, codes, text_eq, begins, contains}
use ztrade_ares_7x.Tmux.{
  session_prefix, target, has_session, sessions_format, end_session, windows_format, end_window,
  add_window, add_session, Host,
}

-- how often a name is in a list
abbrev pub occurs : Text → List Text → ℕ
occurs name names = count (text_eq name) names

pub record IsTmux (H : Host) (exe : Text) (windows : H.State → Text → Option (List Text))
    (is_name : Text → Bool) : Type 0 where
  pub installed : H.which ≡ some exe
  pub has :
      (s : H.State) (n : Text)
      → is_name n ≡ true
      → (((H.run (exe ∷ has_session n) s).0.returncode == 0) ≡ is_some (windows s n))
        × ((H.run (exe ∷ has_session n) s).1 ≡ s)
  pub lists :
      (s : H.State) (n : Text) (ws : List Text)
      → is_name n ≡ true
      → windows s n ≡ some ws
      → let r = H.run (exe ∷ windows_format n) s in
        (r.0.returncode ≡ 0) × (H.splitlines r.0.stdout ≡ ws) × (r.1 ≡ s)
  -- a new session has the one window that it is given
  pub begun :
      (s : H.State) (n dir : Text)
      → is_name n ≡ true
      → windows s n ≡ none
      → let r = H.run (exe ∷ add_session n dir) s in
        (r.0.returncode ≡ 0) × (windows r.1 n ≡ some (codes "control" ∷ []))
  -- a session ends with its last window
  pub last_killed :
      (s : H.State) (n w : Text)
      → is_name n ≡ true
      → windows s n ≡ some (w ∷ [])
      → windows (H.run (exe ∷ end_window (target n w)) s).1 n ≡ none
  pub killed :
      (s : H.State) (n w v : Text) (ws : List Text)
      → is_name n ≡ true
      → windows s n ≡ some ws
      → occurs w ws ≡ 1
      → text_eq v w ≡ false
      → 0 < occurs v ws
      → (rest : List Text) × (windows (H.run (exe ∷ end_window (target n w)) s).1 n ≡ some rest)
        × ((u : Text) → occurs u rest ≡ (if text_eq u w then 0 else occurs u ws))
  pub added :
      (s : H.State) (n w command : Text) (ws : List Text)
      → is_name n ≡ true
      → windows s n ≡ some ws
      → let r = H.run (exe ∷ add_window n w command) s in
        (r.0.returncode ≡ 0)
        × ((more : List Text) × (windows r.1 n ≡ some more)
            × ((u : Text) → occurs u more ≡ (if text_eq u w then 1 else 0) + occurs u ws))
  -- there is no window without a session; the message is another than that of a duplicate
  pub missing :
      (s : H.State) (n w command : Text)
      → is_name n ≡ true
      → windows s n ≡ none
      → let r = H.run (exe ∷ add_window n w command) s in
        ((r.0.returncode == 0) ≡ false)
        × (contains (codes "duplicate window") r.0.stderr ≡ false)
        × (windows r.1 n ≡ none)
  pub ended :
      (s : H.State) (n m : Text)
      → is_name n ≡ true
      → is_name m ≡ true
      → windows (H.run (exe ∷ end_session n) s).1 m ≡ (if text_eq m n then none else windows s m)
  pub sessions :
      (s : H.State)
      → let r = H.run (exe ∷ sessions_format) s in
        ((n : Text)
          → is_name n ≡ true
          → is_some (windows s n)
            ≡ ((r.0.returncode == 0) && any (text_eq n) (H.splitlines r.0.stdout)))
        × (all is_name (select (begins session_prefix) (H.splitlines r.0.stdout)) ≡ true)
        × (r.1 ≡ s)
