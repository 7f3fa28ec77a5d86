-- ===== src/Spawner/Launch.antt =====
-- `spawn_worker` and `force_kill_worker` of ar724/spawner.py. The name of the temporary file that
-- write_env_file makes is an argument.
use ztrade_ares_7x.Base.{
  ◌==◌, if◌then◌else◌, ◌≡◌, refl, Option, none, some, List, [], ◌∷◌, ◌++◌, append_assoc,
}
use ztrade_ares_7x.Base.Int.{ℤ}
use ztrade_ares_7x.Base.Result.{ok}
use ztrade_ares_7x.Base.Texts.{Text, codes}
use ztrade_ares_7x.Spawner.{quote, build_keepalive_script}
use ztrade_ares_7x.Spawner.Words.{first_word-quote, Words, Chain, last, next, only, also}
use ztrade_ares_7x.Tmux.{
  Action, pure, ◌>>=◌, ◌>>◌, target, panes_format, tmux_exe, call, call_checked, send_keys,
  send_command, kill_window, first_int, pane_pid, Host,
}

pub record SpawnResult : Type 0 where
  pub tmux_target : Text
  pub env_file : Text
  pub keepalive_cmd : Text
  pub pid : Option ℤ

-- `. {env} && bash -c {script}`
abbrev pub source_and_run : (env_file script : Text) → Text
source_and_run env_file script =
    codes ". " ++ (quote env_file ++ (codes " && " ++ (codes "bash -c " ++ quote script)))

-- with `cd {workdir} && ` before it, if there is a work directory
abbrev pub full_command : Option Text → (env_file script : Text) → Text
full_command none env_file script = source_and_run env_file script
full_command (some workdir) env_file script =
    codes "cd " ++ (quote workdir ++ (codes " && " ++ source_and_run env_file script))

module _ (H : Host) where
  unfoldable pub spawn_worker :
      (session slot initial_cmd env_file : Text)
      → Option Text
      → (resume_cmd : Text) → Action H.State SpawnResult
  unfolding send_command pane_pid build_keepalive_script
  spawn_worker session slot initial_cmd env_file workdir resume_cmd =
      let full =
        full_command workdir env_file (build_keepalive_script slot initial_cmd resume_cmd) in
      do
        send_command H (target session slot) (codes "clear")
        send_command H (target session slot) full
        pid ← pane_pid H (target session slot)
        pure (record {
          tmux_target = target session slot;
          env_file = env_file;
          keepalive_cmd = full;
          pid = pid;
        })

  unfoldable pub force_kill_worker : (session slot : Text) → Action H.State (Unit {0})
  unfolding kill_window
  force_kill_worker session slot = kill_window H (target session slot)

-- the words of the line
abbrev pub launch_commands : Option Text → (env_file script : Text) → List (List Text)
launch_commands none env_file script =
    (codes "." ∷ (env_file ∷ [])) ∷ ((codes "bash" ∷ (codes "-c" ∷ (script ∷ []))) ∷ [])
launch_commands (some workdir) env_file script =
    (codes "cd" ∷ (workdir ∷ []))
    ∷ ((codes "." ∷ (env_file ∷ [])) ∷ ((codes "bash" ∷ (codes "-c" ∷ (script ∷ []))) ∷ []))

bash-Words :
    (script rest : Text)
    → Words
        (10 ∷ [])
        (codes "bash -c " ++ (quote script ++ 10 ∷ rest))
        (codes "bash" ∷ (codes "-c" ∷ (script ∷ [])))
        rest
bash-Words script rest =
    next (codes "bash -c " ++ (quote script ++ 10 ∷ rest)) (codes "bash") _ refl (
      next (codes "-c " ++ (quote script ++ 10 ∷ rest)) (codes "-c") _ refl
        (last (quote script ++ 10 ∷ rest) script (first_word-quote script (10 ∷ rest) refl)))

source_and_run-Chain :
    (env_file script rest : Text)
    → Chain
        (source_and_run env_file script ++ 10 ∷ rest)
        (launch_commands none env_file script)
        rest
source_and_run-Chain env_file script rest =
    let runs = codes "bash -c " ++ (quote script ++ 10 ∷ rest) in
    rw
      (append_assoc (quote env_file) (codes " && " ++ (codes "bash -c " ++ quote script))
        (10 ∷ rest))
      (also runs
        (next (codes ". " ++ (quote env_file ++ (codes " && " ++ runs))) (codes ".") _ refl (
          last (quote env_file ++ (codes " && " ++ runs)) env_file
            (first_word-quote env_file (codes " && " ++ runs) refl)))
        (only (bash-Words script rest)))

full_command-Chain :
    (workdir : Option Text) (env_file script rest : Text)
    → Chain
        (full_command workdir env_file script ++ 10 ∷ rest)
        (launch_commands workdir env_file script)
        rest
full_command-Chain none env_file script rest = source_and_run-Chain env_file script rest
full_command-Chain (some workdir) env_file script rest =
    let runs = source_and_run env_file script ++ 10 ∷ rest in
    rw (append_assoc (quote workdir) (codes " && " ++ source_and_run env_file script) (10 ∷ rest)) (
      also runs
        (next (codes "cd " ++ (quote workdir ++ (codes " && " ++ runs))) (codes "cd") _ refl (
          last (quote workdir ++ (codes " && " ++ runs)) workdir
            (first_word-quote workdir (codes " && " ++ runs) refl)))
        (source_and_run-Chain env_file script rest))

module _ (H : Host) (exe : Text) where
  abbrev spawned : Option Text → (session slot env_file script : Text) → Option ℤ → SpawnResult
  spawned workdir session slot env_file script pid = record {
    tmux_target = target session slot;
    env_file = env_file;
    keepalive_cmd = full_command workdir env_file script;
    pid = pid;
  }

  -- tmux is told to type this text and Enter into the pane
  abbrev pub typed : (t text : Text) → H.State → H.State
  typed t text s =
      (H.run (exe ∷ (codes "send-keys" ∷ (codes "-t" ∷ (t ∷ (text ∷ (codes "C-m" ∷ [])))))) s).1

  send_keys-typed :
      (t text : Text) (s : H.State)
      → H.which ≡ some exe
      → ((args : List Text) (s : H.State)
          → (H.run (exe ∷ (codes "send-keys" ∷ args)) s).0.returncode ≡ 0)
      → send_keys H t (text ∷ (codes "C-m" ∷ [])) s ≡ (ok tt, typed t text s)
  unfolding send_keys call_checked call tmux_exe
  send_keys-typed t text s installed takes =
      rw (installed, takes (codes "-t" ∷ (t ∷ (text ∷ (codes "C-m" ∷ [])))) s)

  pane_pid-found :
      (t : Text) (s : H.State)
      → H.which ≡ some exe
      → (pid : Option ℤ) × (pane_pid H t s ≡ (ok pid, (H.run (exe ∷ panes_format t) s).1))
  unfolding pane_pid call tmux_exe
  pane_pid-found t s installed =
      let out = (H.run (exe ∷ panes_format t) s).0 in
      (
        if out.returncode == 0 then first_int H (H.splitlines (H.strip out.stdout)) else none,
        rw installed refl,
      )

  -- On a machine with tmux, where each send-keys succeeds, spawn_worker returns. It types `clear`
  -- into the pane of the slot, then the line that its result holds, then asks for the processes of
  -- the pane, and calls tmux for nothing else. The line is, to a shell, a chain of commands: `cd`
  -- with the work directory, if there is one, `.` with the file of the variables, and `bash -c` with
  -- the keepalive script; each of these texts is one word, whatever characters are in it.
  pub spawn_worker-Chain :
      (session slot initial_cmd env_file resume_cmd : Text) (workdir : Option Text) (rest : Text)
      (s : H.State)
      → H.which ≡ some exe
      → ((args : List Text) (s : H.State)
          → (H.run (exe ∷ (codes "send-keys" ∷ args)) s).0.returncode ≡ 0)
      → (result : SpawnResult) × (s' : H.State) × (spawn_worker H session slot initial_cmd env_file
            workdir resume_cmd s
          ≡ (ok result, s'))
        × (result.tmux_target ≡ target session slot)
        × (s'
            ≡ (H.run (exe ∷ panes_format (target session slot)) (
                typed
                  (target session slot)
                  result.keepalive_cmd
                  (typed (target session slot) (codes "clear") s))).1)
        × Chain
            (result.keepalive_cmd ++ 10 ∷ rest)
            (launch_commands workdir env_file (build_keepalive_script slot initial_cmd resume_cmd))
            rest
  unfolding spawn_worker send_command
  spawn_worker-Chain session slot initial_cmd env_file resume_cmd workdir rest s installed takes =
      let script = build_keepalive_script slot initial_cmd resume_cmd in
      let t = target session slot in
      let full = full_command workdir env_file script in
      let s1 = typed t (codes "clear") s in
      let (pid, read_pid) = pane_pid-found t (typed t full s1) installed in
      (
        spawned workdir session slot env_file script pid,
        (H.run (exe ∷ panes_format t) (typed t full s1)).1,
        rw (
          send_keys-typed t (codes "clear") s installed takes,
          send_keys-typed t full s1 installed takes,
          read_pid,
        ),
        refl,
        refl,
        full_command-Chain workdir env_file script rest,
      )
