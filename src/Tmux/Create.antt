-- ===== src/Tmux/Create.antt =====
-- `create_session` of ar724/tmux_manager.py.
use ztrade_ares_7x.Base.{
  if◌then◌else◌, all, ◌≤◌, ◌<◌, ◌≡◌, refl, ◌∙◌, ap, Bool, true, false, Option, none, some, List, [],
  ◌∷◌, map, arith,
}
use ztrade_ares_7x.Base.Result.{ok, err, runtime_error}
use ztrade_ares_7x.Base.Texts.{Text, codes, text_eq, text_eq_refl, text_eq_iff}
use ztrade_ares_7x.Tmux.{
  follow, session_name, target, add_session, some_text, listed, layout, call_checked, new_window,
  new_windows, create_session, Host,
}
use ztrade_ares_7x.Tmux.Laws.{occurs, IsTmux}
use ztrade_ares_7x.Tmux.Windows.{call_lem, session_exists_lem, new_window-only, new_window-Renewed}

abbrev pub names_of : List (Text × Text) → List Text
names_of pairs = map (λ p. p.0) pairs

module _ (H : Host) (exe : Text) (windows : H.State → Text → Option (List Text))
    (is_name : Text → Bool) (T : IsTmux H exe windows is_name) where
  begun_lem :
      (n dir : Text) (s : H.State)
      → is_name n ≡ true
      → windows s n ≡ none
      → call_checked H (add_session n dir) s ≡ (ok tt, (H.run (exe ∷ add_session n dir) s).1)
  unfolding call_checked
  begun_lem n dir s proper e =
      rw (call_lem H exe windows is_name T (add_session n dir) s, (T.begun s n dir proper e).0)

  -- On a machine with tmux, for a run that has no session yet, create_session raises RuntimeError
  -- and leaves no session behind: it kills the window of the new session in order to make it again,
  -- and the session ends with its only window.
  pub create_session-fresh :
      (run_id working_dir controller_cmd board_cmd events_cmd reaper_cmd : Text) (s : H.State)
      → is_name (session_name run_id) ≡ true
      → windows s (session_name run_id) ≡ none
      → (s' : H.State) × (create_session H run_id working_dir controller_cmd board_cmd events_cmd
            reaper_cmd s
          ≡ (err runtime_error, s'))
        × (windows s' (session_name run_id) ≡ none)
  unfolding create_session new_windows
  create_session-fresh run_id working_dir controller_cmd board_cmd events_cmd reaper_cmd s proper
        e =
      let name = session_name run_id in
      let s1 = (H.run (exe ∷ add_session name working_dir) s).1 in
      let (s2, raised, gone) =
        new_window-only H exe windows is_name T name proper (codes "control") controller_cmd s1 refl
          (T.begun s name working_dir proper e).1 in
      (
        s2,
        rw
            (
              session_exists_lem H exe windows is_name T name proper s,
              e,
              begun_lem name working_dir s proper e,
              raised,
            )
            refl,
        gone,
      )

  -- Each of the named windows is there once, and all others as often as before.
  abbrev pub AllRenewed : (n : Text) → (names ws : List Text) → H.State → Type 0
  AllRenewed n names ws s =
      (more : List Text) × (windows s n ≡ some more)
      × ((u : Text) → occurs u more ≡ (if listed names u then 1 else occurs u ws))

  abbrev other : (a b w : Text) → Text
  other a b w = if text_eq a w then b else a

  other-ne : (a b w : Text) → text_eq a b ≡ false → text_eq (other a b w) w ≡ false
  other-ne a b w h = ground (arith, text_eq_iff a w, text_eq_iff b w, text_eq_iff a b)

  new_windows-AllRenewed :
      (n a b : Text) (pairs : List (Text × Text)) (s : H.State) (ws : List Text)
      → is_name n ≡ true
      → all some_text (names_of pairs) ≡ true
      → windows s n ≡ some ws
      → ((u : Text) → listed (names_of pairs) u ≡ true → occurs u ws ≤ 1)
      → text_eq a b ≡ false
      → 0 < occurs a ws
      → 0 < occurs b ws
      → (s' : H.State) × (new_windows H n pairs s ≡ (ok tt, s'))
        × AllRenewed n (names_of pairs) ws s'
  unfolding new_windows
  new_windows-AllRenewed n a b [] s ws proper named e once ne pa pb = (s, refl, (ws, e, λ u. refl))
  new_windows-AllRenewed n a b ((w, command) ∷ pairs) s ws proper named e once ne pa pb =
      let (more, made, there, counts) =
        new_window-Renewed H exe windows is_name T n proper w (other a b w) command s ws
          (ground arith) e (once w (ground (arith, text_eq_refl w))) (other-ne a b w ne)
          (ground arith) in
      let (s', done, (all_more, all_there, all_counts)) =
        new_windows-AllRenewed n a b pairs (new_window H n w command s).1 more proper (ground arith)
          there (λ u h. ground (arith, counts u, once u)) ne (ground (arith, counts a))
          (ground (arith, counts b)) in
      let stepped : new_window H n w command s ≡ (ok (target n w), (new_window H n w command s).1) =
        λ i. (made i, (new_window H n w command s).1) in
      (
        s',
        ap (follow (λ _. new_windows H n pairs)) stepped ∙ done,
        (all_more, all_there, λ u. ground (arith, all_counts u, counts u)),
      )

  -- For a session that is there with two windows of different names, and with no name of the
  -- layout more than once, create_session returns the name of the session. Then each window of the
  -- layout is there once, and every other window as it was.
  pub create_session-AllRenewed :
      (run_id working_dir controller_cmd board_cmd events_cmd reaper_cmd a b : Text) (s : H.State)
      (ws : List Text)
      → is_name (session_name run_id) ≡ true
      → windows s (session_name run_id) ≡ some ws
      → ((u : Text)
          → listed (names_of (layout controller_cmd board_cmd events_cmd reaper_cmd)) u ≡ true
          → occurs u ws ≤ 1)
      → text_eq a b ≡ false
      → 0 < occurs a ws
      → 0 < occurs b ws
      → (s' : H.State) × (create_session H run_id working_dir controller_cmd board_cmd events_cmd
            reaper_cmd s
          ≡ (ok (session_name run_id), s'))
        × AllRenewed
            (session_name run_id)
            (names_of (layout controller_cmd board_cmd events_cmd reaper_cmd))
            ws
            s'
  unfolding create_session
  create_session-AllRenewed run_id working_dir controller_cmd board_cmd events_cmd reaper_cmd a b s
        ws proper e once ne pa pb =
      let name = session_name run_id in
      let (s', done, renewed) =
        new_windows-AllRenewed name a b (layout controller_cmd board_cmd events_cmd reaper_cmd) s ws
          proper refl e once ne pa pb in
      (s', rw (session_exists_lem H exe windows is_name T name proper s, e, done) refl, renewed)
