-- ===== src/Tmux/Down.antt =====
-- `list_sessions` and `kill_session` of ar724/tmux_manager.py, and what `down` of ar724/cli.py makes
-- of them. The signal to the conductor is left out.
use ztrade_ares_7x.Base.{
  if◌then◌else◌, Bool-cases, Option-cases, any, all, select, ◌≡◌, refl, ◌∙◌, ap, inl, inr, Bool,
  true, ◌&&◌, Option, none, List, [], ◌∷◌, arith,
}
use ztrade_ares_7x.Base.Result.{Result, ok}
use ztrade_ares_7x.Base.Texts.{Text, text_eq, text_eq_refl, text_eq→eq, begins}
use ztrade_ares_7x.Tmux.{
  Action, pure, follow, ◌>>=◌, ◌>>◌, session_prefix, sessions_format, end_session, own_sessions,
  list_sessions, kill_session, Host,
}
use ztrade_ares_7x.Tmux.Laws.{IsTmux}
use ztrade_ares_7x.Tmux.Windows.{call_lem, session_exists_lem}

unfoldable pub kill_sessions : (H : Host) → List Text → Action H.State (Unit {0})
unfolding kill_session
kill_sessions H [] = pure tt
kill_sessions H (name ∷ names) = kill_session H name >> kill_sessions H names

unfoldable pub down : (H : Host) → Action H.State (Unit {0})
unfolding list_sessions kill_sessions
down H = do names ← list_sessions H; kill_sessions H names

any-select :
    (p : Text → Bool) (m : Text) (names : List Text)
    → any (text_eq m) (select p names) ≡ (p m && any (text_eq m) names)
any-select p m [] = ground arith
any-select p m (n ∷ names) = elim (Bool-cases (text_eq m n)) [
  | inl e ↦ rw (text_eq→eq m n e) (ground (arith, any-select p n names, text_eq_refl n))
  | inr e ↦ ground (arith, any-select p m names)
]

module _ (H : Host) (exe : Text) (windows : H.State → Text → Option (List Text))
    (is_name : Text → Bool) (T : IsTmux H exe windows is_name) where
  abbrev pub Gone : (Text → Bool) → H.State → Result (Unit {0}) × H.State → Type 0
  Gone p s r =
      (r.0 ≡ ok tt)
      × ((m : Text) → is_name m ≡ true → windows r.1 m ≡ (if p m then none else windows s m))

  kill_session-Gone :
      (n : Text) (s : H.State) → is_name n ≡ true → Gone (λ m. text_eq m n) s (kill_session H n s)
  unfolding kill_session
  kill_session-Gone n s proper = elim (Option-cases (windows s n)) [
    | inl e ↦
        let same : kill_session H n s ≡ (ok tt, s) =
          rw (session_exists_lem H exe windows is_name T n proper s, e) in
        rw same (refl, λ m _. missing m e)
    | inr (ws, e) ↦
        let ran : kill_session H n s ≡ (ok tt, (H.run (exe ∷ end_session n) s).1) = rw (
          session_exists_lem H exe windows is_name T n proper s,
          e,
          call_lem H exe windows is_name T (end_session n) s,
        ) in
        rw ran (refl, λ m q. T.ended s n m proper q)
  ]
    where
      missing :
          (m : Text)
          → windows s n ≡ none
          → windows s m ≡ (if text_eq m n then none else windows s m)
      missing m e = elim (Bool-cases (text_eq m n)) [
        | inl same ↦ rw same (ap (windows s) (text_eq→eq m n same) ∙ e)
        | inr apart ↦ rw apart
      ]

  kill_sessions-Gone :
      (names : List Text) (s : H.State)
      → all is_name names ≡ true
      → Gone (λ m. any (text_eq m) names) s (kill_sessions H names s)
  unfolding kill_sessions
  kill_sessions-Gone [] s proper = (refl, λ m q. refl)
  kill_sessions-Gone (n ∷ names) s proper =
      let (done, gone) = kill_session-Gone n s (ground arith) in
      let s1 = (kill_session H n s).1 in
      let (all_done, all_gone) = kill_sessions-Gone names s1 (ground arith) in
      let first : kill_session H n s ≡ (ok tt, s1) = λ i. (done i, s1) in
      let whole : kill_sessions H (n ∷ names) s ≡ kill_sessions H names s1 =
        ap (follow (λ _. kill_sessions H names)) first in
      rw whole (all_done, λ m q. all_gone m q ∙ ground (arith, gone m q))

  list_sessions_lem :
      (s : H.State)
      → list_sessions H s ≡ (ok (own_sessions H (H.run (exe ∷ sessions_format) s).0), s)
  unfolding list_sessions
  list_sessions_lem s = rw (call_lem H exe windows is_name T sessions_format s, (T.sessions s).2)

  found-names :
      (s : H.State) → all is_name (own_sessions H (H.run (exe ∷ sessions_format) s).0) ≡ true
  found-names s = ground (arith, (T.sessions s).1)

  -- what is listed, and is there at all
  found-windows :
      (s : H.State) (m : Text)
      → is_name m ≡ true
      → (if any (text_eq m) (own_sessions H (H.run (exe ∷ sessions_format) s).0)
          then none
          else windows s m)
        ≡ (if begins session_prefix m then none else windows s m)
  found-windows s m q =
      let out = (H.run (exe ∷ sessions_format) s).0 in
      ground (
        arith,
        (T.sessions s).0 m q,
        any-select (begins session_prefix) m (H.splitlines out.stdout),
      )

  -- Where tmux is as IsTmux has it, `down` returns, and of the proper names of sessions it ends every
  -- session whose name begins with ar7x24-, of whatever run and project it is, and leaves every
  -- other session as it was.
  pub down-Gone : (s : H.State) → Gone (begins session_prefix) s (down H s)
  unfolding down
  down-Gone s =
      let names = own_sessions H (H.run (exe ∷ sessions_format) s).0 in
      let (done, gone) = kill_sessions-Gone names s (found-names s) in
      rw (list_sessions_lem s) (done, λ m q. gone m q ∙ found-windows s m q)
