-- ===== src/Tmux/Examples.antt =====
-- tmux with a session of a run and one of the user, and what the commands make of it.
use ztrade_ares_7x.Base.{◌≤◌, ◌≡◌, refl, List, [], ◌∷◌, arith}
use ztrade_ares_7x.Base.Result.{ok}
use ztrade_ares_7x.Base.Texts.{Text, codes, text_eq_iff, begins}
use ztrade_ares_7x.Tmux.{session_prefix, session_name, layout, create_session}
use ztrade_ares_7x.Tmux.Laws.{occurs}
use ztrade_ares_7x.Tmux.Create.{names_of, AllRenewed, create_session-AllRenewed}
use ztrade_ares_7x.Tmux.Down.{down, Gone, down-Gone}
use ztrade_ares_7x.Tmux.Server.{Sessions, windows_of, no_colon, exe, server, server-IsTmux}

abbrev run_id : Text
run_id = codes "run.1"

abbrev board_window : Text
board_window = codes "board"

abbrev notes : Text
notes = codes "notes"

abbrev present : List Text
present = board_window ∷ (notes ∷ [])

abbrev before : Sessions
before = (session_name run_id, present) ∷ ((notes, notes ∷ []) ∷ [])

name_test : session_name run_id ≡ codes "ar7x24-run-1"
unfolding session_name
name_test = refl

at_most_once : (u : Text) → occurs u present ≤ 1
at_most_once u = ground (arith, text_eq_iff u board_window, text_eq_iff u notes)

create_session-AllRenewed_test :
    (s' : Sessions) × (create_session server run_id (codes "/work") notes notes notes notes before
      ≡ (ok (session_name run_id), s'))
    × AllRenewed server exe windows_of no_colon server-IsTmux
        (session_name run_id)
        (names_of (layout notes notes notes notes))
        present
        s'
unfolding session_name
create_session-AllRenewed_test =
    create_session-AllRenewed server exe windows_of no_colon server-IsTmux run_id (codes "/work")
      notes notes notes notes board_window notes before present refl refl (λ u _. at_most_once u)
      refl (omega arith) (omega arith)

down-Gone_example :
    Gone server exe windows_of no_colon server-IsTmux
      (begins session_prefix)
      before
      (down server before)
down-Gone_example = down-Gone server exe windows_of no_colon server-IsTmux before
