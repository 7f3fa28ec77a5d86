-- ===== src/Tmux/Windows.antt =====
-- `new_window` of ar724/tmux_manager.py, step by step.
use ztrade_ares_7x.Base.{
  ◌==◌, if◌then◌else◌, Bool-cases, is_some, select, ◌≤◌, ◌<◌, ◌≡◌, refl, ◌∙◌, inl, inr, Bool, true,
  false, not, Option, none, some, List, [], ◌∷◌, arith,
}
use ztrade_ares_7x.Base.Result.{Result, ok, err, runtime_error}
use ztrade_ares_7x.Base.Texts.{Text, text_eq, text_eq_refl, text_eq_iff}
use ztrade_ares_7x.Tmux.{
  Action, pure, ◌>>◌, target, has_session, windows_format, end_window, add_window, some_text,
  listed, tmux_exe, call, session_exists, list_windows, created, new_window, Host,
}
use ztrade_ares_7x.Tmux.Laws.{occurs, IsTmux}

listed-occurs :
    (w : Text) (ws : List Text)
    → some_text w ≡ true
    → listed (select some_text ws) w ≡ not (occurs w ws == 0)
listed-occurs w [] h = refl
listed-occurs w ([] ∷ ws) h = ground (arith, listed-occurs w ws h, text_eq_iff w [])
listed-occurs w ((c ∷ cs) ∷ ws) h = ground (arith, listed-occurs w ws h)

module _ (H : Host) (exe : Text) (windows : H.State → Text → Option (List Text))
    (is_name : Text → Bool) (T : IsTmux H exe windows is_name) where
  tmux_exe_lem : (s : H.State) → tmux_exe H s ≡ (ok exe, s)
  unfolding tmux_exe
  tmux_exe_lem s = rw T.installed

  -- With tmux installed a call is a run.
  pub call_lem :
      (args : List Text) (s : H.State)
      → call H args s ≡ (ok (H.run (exe ∷ args) s).0, (H.run (exe ∷ args) s).1)
  unfolding call
  call_lem args s = rw (tmux_exe_lem s)

module _ (H : Host) (exe : Text) (windows : H.State → Text → Option (List Text))
    (is_name : Text → Bool) (T : IsTmux H exe windows is_name) (n : Text)
    (proper : is_name n ≡ true) where
  pub session_exists_lem : (s : H.State) → session_exists H n s ≡ (ok (is_some (windows s n)), s)
  unfolding session_exists
  session_exists_lem s = rw (
    call_lem H exe windows is_name T (has_session n) s,
    (T.has s n proper).0,
    (T.has s n proper).1,
  )

  pub list_windows_lem :
      (s : H.State) (ws : List Text)
      → windows s n ≡ some ws
      → list_windows H n s ≡ (ok (select some_text ws), s)
  unfolding list_windows
  list_windows_lem s ws e =
      let (code, lines, same) = T.lists s n ws proper e in
      rw (
        session_exists_lem s,
        e,
        call_lem H exe windows is_name T (windows_format n) s,
        code,
        lines,
        same,
      )

  list_windows_missing : (s : H.State) → windows s n ≡ none → list_windows H n s ≡ (ok [], s)
  unfolding list_windows
  list_windows_missing s e = rw (session_exists_lem s, e)

  abbrev discard : Bool → Text → Action H.State (Unit {0})
  discard there tmux_target = if there then call H (end_window tmux_target) >> pure tt else pure tt

  -- the state once a window of the name, if there was one, is killed
  abbrev pub cleared : Bool → Text → H.State → H.State
  cleared there tmux_target s = if there then (H.run (exe ∷ end_window tmux_target) s).1 else s

  discard_lem :
      (there : Bool) (t : Text) (s : H.State) → discard there t s ≡ (ok tt, cleared there t s)
  discard_lem true t s = rw (call_lem H exe windows is_name T (end_window t) s)
  discard_lem false t s = refl

  abbrev pub after_add : (w command : Text) → H.State → Result Text × H.State
  after_add w command s = let r = H.run (exe ∷ add_window n w command) s in created H n w r.0 r.1

  -- what `new_window` does once it knows the windows of the session
  new_window_found :
      (w command : Text) (s : H.State) (names : List Text)
      → list_windows H n s ≡ (ok names, s)
      → new_window H n w command s ≡ after_add w command (cleared (listed names w) (target n w) s)
  unfolding new_window
  new_window_found w command s names e = rw (
    tmux_exe_lem H exe windows is_name T s,
    e,
    discard_lem (listed names w) (target n w) s,
    call_lem H exe windows is_name T (add_window n w command)
        (cleared (listed names w) (target n w) s),
  )

  -- Without a session `new_window` raises, and there is none behind it.
  after_add-missing :
      (w command : Text) (s : H.State)
      → windows s n ≡ none
      → (s' : H.State) × (after_add w command s ≡ (err runtime_error, s')) × (windows s' n ≡ none)
  after_add-missing w command s e =
      let (code, message, gone) = T.missing s n w command proper e in
      ((H.run (exe ∷ add_window n w command) s).1, rw (code, message) refl, gone)

  -- The only window is killed, and its session with it.
  pub new_window-only :
      (w command : Text) (s : H.State)
      → some_text w ≡ true
      → windows s n ≡ some (w ∷ [])
      → (s' : H.State) × (new_window H n w command s ≡ (err runtime_error, s'))
        × (windows s' n ≡ none)
  new_window-only w command s named e =
      let there : listed (select some_text (w ∷ [])) w ≡ true = rw (named, text_eq_refl w) refl in
      let found =
        new_window_found w command s (select some_text (w ∷ [])) (list_windows_lem s (w ∷ []) e) in
      let (s', raised, gone) =
        after_add-missing w command (H.run (exe ∷ end_window (target n w)) s).1
          (T.last_killed s n w proper e) in
      (s', found ∙ rw there raised, gone)

  -- What new_window makes of a session that has another window too, and at most one of the name.
  abbrev pub Renewed : (w : Text) → List Text → Result Text × H.State → Type 0
  Renewed w ws r =
      (more : List Text) × (r.0 ≡ ok (target n w))
      × (windows r.1 n ≡ some more)
      × ((u : Text) → occurs u more ≡ (if text_eq u w then 1 else occurs u ws))

  after_add-Renewed :
      (w command : Text) (s : H.State) (before ws : List Text)
      → windows s n ≡ some before
      → ((u : Text) → occurs u before ≡ (if text_eq u w then 0 else occurs u ws))
      → Renewed w ws (after_add w command s)
  after_add-Renewed w command s before ws e counts =
      let (code, (more, there, sums)) = T.added s n w command before proper e in
      (more, rw code, rw code there, λ u. ground (arith, sums u, counts u))

  pub new_window-Renewed :
      (w v command : Text) (s : H.State) (ws : List Text)
      → some_text w ≡ true
      → windows s n ≡ some ws
      → occurs w ws ≤ 1
      → text_eq v w ≡ false
      → 0 < occurs v ws
      → Renewed w ws (new_window H n w command s)
  new_window-Renewed w v command s ws named e once other present =
      let found = new_window_found w command s (select some_text ws) (list_windows_lem s ws e) in
      let seen = listed-occurs w ws named in
      elim (Bool-cases (occurs w ws == 0)) [
        | inl new ↦
            rw (found, seen, new)
              (after_add-Renewed w command s ws ws e (λ u. ground (arith, text_eq_iff u w)))
        | inr there ↦
            let one : occurs w ws ≡ 1 = ground arith in
            let (rest, left, counts) = T.killed s n w v ws proper e one other present in
            rw (found, seen, there)
              (after_add-Renewed w command (H.run (exe ∷ end_window (target n w)) s).1 rest ws left
                counts)
      ]
