-- ===== src/Tmux/Server.antt =====
-- A small tmux: its state are the sessions with the names of their windows. In its output a
-- character is its number plus one, and 0 ends a line.
use ztrade_ares_7x.Base.{
  ◌==◌, if◌then◌else◌, Option-cases, is_some, any, all, select, delete_where, ℕ, zero, suc, ◌<◌,
  ◌≡◌, refl, sym, ◌∙◌, ap, inl, inr, Bool, true, false, not, Option, none, some, List, [], ◌∷◌,
  ◌++◌, map, arith,
}
use ztrade_ares_7x.Base.Texts.{Text, codes, text_eq, text_eq_refl, text_eq_iff, begins}
use ztrade_ares_7x.Tmux.{session_prefix, target, Completed, Host}
use ztrade_ares_7x.Tmux.Laws.{occurs, IsTmux}

abbrev pub Sessions : Type 0
Sessions = List (Text × List Text)

abbrev pub windows_of : Sessions → Text → Option (List Text)
windows_of [] n = none
windows_of ((m, ws) ∷ s) n = let rest = windows_of s n in if text_eq m n then some ws else rest

abbrev without : Text → Sessions → Sessions
without n s = delete_where (λ p. text_eq p.0 n) s

abbrev store : Text → List Text → Sessions → Sessions
store n [] s = without n s
store n (w ∷ ws) s = (n, w ∷ ws) ∷ s

abbrev print : List Text → Text
print [] = []
print (line ∷ lines) = map suc line ++ 0 ∷ print lines

abbrev put_char : ℕ → List Text → List Text
put_char c [] = (c ∷ []) ∷ []
put_char c (line ∷ lines) = (c ∷ line) ∷ lines

abbrev lines_of : Text → List Text
lines_of [] = []
lines_of (zero ∷ cs) = [] ∷ lines_of cs
lines_of (suc c ∷ cs) = put_char c (lines_of cs)

abbrev before_colon : Text → Text
before_colon [] = []
before_colon (c ∷ cs) = let rest = before_colon cs in if c == 58 then [] else c ∷ rest

abbrev after_colon : Text → Text
after_colon [] = []
after_colon (c ∷ cs) = let rest = after_colon cs in if c == 58 then cs else rest

abbrev pub no_colon : Text → Bool
no_colon n = all (λ c. not (c == 58)) n

abbrev arg : ℕ → List Text → Text
arg k [] = []
arg zero (a ∷ rest) = a
arg (suc k) (a ∷ rest) = arg k rest

abbrev answer : (code : ℕ) → (out error : Text) → Sessions → Completed × Sessions
answer code out error s = (record { returncode = code; stdout = out; stderr = error }, s)

abbrev listing : Sessions → List Text
listing s = select no_colon (map (λ p. p.0) s)

abbrev refused : Text
refused = codes "can't find session"

abbrev on_session :
    Option (List Text) → Sessions → (List Text → Completed × Sessions) → Completed × Sessions
on_session none s f = answer 1 [] refused s
on_session (some ws) s f = f ws

abbrev serve : Text → List Text → Sessions → Completed × Sessions
serve verb args s =
    if text_eq verb (codes "has-session")
    then on_session (windows_of s (arg 1 args)) s (λ ws. answer 0 [] [] s)
    else if text_eq verb (codes "list-sessions")
    then answer 0 (print (listing s)) [] s
    else if text_eq verb (codes "kill-session")
    then answer 0 [] [] (without (arg 1 args) s)
    else if text_eq verb (codes "list-windows")
    then on_session (windows_of s (arg 1 args)) s (λ ws. answer 0 (print ws) [] s)
    else if text_eq verb (codes "new-session")
    then answer 0 [] [] (store (arg 2 args) (arg 4 args ∷ []) s)
    else if text_eq verb (codes "new-window")
    then on_session (windows_of s (arg 2 args)) s
        (λ ws. answer 0 [] [] (store (arg 2 args) (arg 4 args ∷ ws) s))
    else if text_eq verb (codes "kill-window")
    then on_session (windows_of s (before_colon (arg 1 args))) s (λ ws.
      answer 0 [] [] (
        store (before_colon (arg 1 args)) (delete_where (text_eq (after_colon (arg 1 args))) ws) s))
    else answer 0 [] [] s

abbrev run : List Text → Sessions → Completed × Sessions
run (exe ∷ (verb ∷ args)) s = serve verb args s
run _ s = answer 1 [] [] s

abbrev pub exe : Text
exe = codes "/usr/bin/tmux"

abbrev pub server : Host
server = record {
  State = Sessions;
  which = some exe;
  run = run;
  alive = λ pid s. true;
  splitlines = lines_of;
  strip = λ t. t;
  int = λ t. none;
}

windows_of-without :
    (n m : Text) (s : Sessions)
    → windows_of (without n s) m ≡ (if text_eq m n then none else windows_of s m)
windows_of-without n m [] = ground arith
windows_of-without n m ((k, ws) ∷ s) = ground (
  arith,
  windows_of-without n m s,
  text_eq_iff k n,
  text_eq_iff k m,
  text_eq_iff m n,
  text_eq_refl n,
)

windows_of-store :
    (n w : Text) (ws : List Text) (s : Sessions) → windows_of (store n (w ∷ ws) s) n ≡ some (w ∷ ws)
windows_of-store n w ws s = rw (text_eq_refl n)

windows_of-store_nil : (n : Text) (s : Sessions) → windows_of (store n [] s) n ≡ none
windows_of-store_nil n s = windows_of-without n n s ∙ rw (text_eq_refl n)

put_line : (line rest : Text) → lines_of (map suc line ++ 0 ∷ rest) ≡ line ∷ lines_of rest
put_line [] rest = refl
put_line (c ∷ line) rest = ap (put_char c) (put_line line rest)

lines_of-print : (lines : List Text) → lines_of (print lines) ≡ lines
lines_of-print [] = refl
lines_of-print (line ∷ lines) =
    put_line line (print lines) ∙ ap (λ r. line ∷ r) (lines_of-print lines)

before_colon-target : (n w : Text) → no_colon n ≡ true → before_colon (target n w) ≡ n
before_colon-target [] w h = refl
before_colon-target (c ∷ n) w h = ground (arith, before_colon-target n w)

after_colon-target : (n w : Text) → no_colon n ≡ true → after_colon (target n w) ≡ w
after_colon-target [] w h = refl
after_colon-target (c ∷ n) w h = ground (arith, after_colon-target n w)

occurs-delete :
    (w u : Text) (ws : List Text)
    → occurs u (delete_where (text_eq w) ws) ≡ (if text_eq u w then 0 else occurs u ws)
occurs-delete w u [] = ground arith
occurs-delete w u (x ∷ ws) =
    ground (
      arith,
      occurs-delete w u ws,
      text_eq_iff w x,
      text_eq_iff u x,
      text_eq_iff u w,
      text_eq_refl w,
    )

listed-windows :
    (s : Sessions) (n : Text)
    → no_colon n ≡ true
    → is_some (windows_of s n) ≡ any (text_eq n) (select no_colon (map (λ p. p.0) s))
listed-windows [] n h = refl
listed-windows ((m, ws) ∷ s) n h =
    ground (arith, listed-windows s n h, text_eq_iff m n, text_eq_iff n m, text_eq_refl n)

all-select : (p q : Text → Bool) (xs : List Text) → all p (select q (select p xs)) ≡ true
all-select p q [] = refl
all-select p q (x ∷ xs) = ground (arith, all-select p q xs)

killed_rest :
    (n w v : Text) (ws : List Text) (s : Sessions)
    → text_eq v w ≡ false
    → 0 < occurs v ws
    → windows_of (store n (delete_where (text_eq w) ws) s) n ≡ some (delete_where (text_eq w) ws)
killed_rest n w v ws s ne pos =
    stored (delete_where (text_eq w) ws) (ground (arith, occurs-delete w v ws))
  where
    stored : (rest : List Text) → 0 < occurs v rest → windows_of (store n rest s) n ≡ some rest
    stored [] h = absurd (omega arith)
    stored (x ∷ rest) h = windows_of-store n x rest s

-- What ar724/tmux_manager.py relies on can be had.
pub server-IsTmux : IsTmux server exe windows_of no_colon
server-IsTmux = record {
  installed = refl;
  has = λ s n h. elim (Option-cases (windows_of s n)) [
    | inl e ↦ (rw e refl, rw e refl)
    | inr (ws, e) ↦ (rw e refl, rw e refl)
  ];
  lists = λ s n ws h e. (rw e refl, rw e (lines_of-print ws), rw e refl);
  begun = λ s n dir h e. (refl, windows_of-store n (codes "control") [] s);
  last_killed = λ s n w h e.
      rw (before_colon-target n w h, after_colon-target n w h, e, text_eq_refl w)
        (windows_of-store_nil n s);
  killed = λ s n w v ws h e once ne pos. (
    delete_where (text_eq w) ws,
    rw (before_colon-target n w h, after_colon-target n w h, e) (killed_rest n w v ws s ne pos),
    λ u. occurs-delete w u ws,
  );
  added = λ s n w command ws h e.
      (rw e refl, (w ∷ ws, rw e (windows_of-store n w ws s), λ u. ground arith));
  missing = λ s n w command h e. (rw e refl, rw e refl, rw e e);
  ended = λ s n m h q. windows_of-without n m s;
  sessions = λ s. (
    λ n h. listed-windows s n h ∙ ap (any (text_eq n)) (sym (lines_of-print (listing s))),
    rw (lines_of-print (listing s))
        (all-select no_colon (begins session_prefix) (map (λ p. p.0) s)),
    refl,
  );
}
