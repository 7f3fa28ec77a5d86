-- ===== src/Spawner/Shell.antt =====
-- How a POSIX shell reads the value of an assignment, as far as the texts of ar724/spawner.py need it.
use ztrade_ares_7x.Base.{
  leb, all, Bool, false, ◌&&◌, ◌==◌, if◌then◌else◌, ℕ, ◌≡◌, ◌||◌, Option, none, some, List, [], ◌∷◌,
  ◌++◌, true,
}
use ztrade_ares_7x.Spawner.{is_plain}
use ztrade_ares_7x.Base.Texts.{Text}

pub data Mode : Type 0 where
  bare escaped single double : Mode

-- a character of the value, in front of what is read behind it
abbrev pub keep : ℕ → Option (Text × Text) → Option (Text × Text)
keep c none = none
keep c (some (value, rest)) = some (c ∷ value, rest)

-- what a character does: it ends the line, may be read in another way, is a quote, or is taken
pub data Move : Type 0 where
  stop unclear : Move
  shift take : Mode → Move

abbrev pub move : Mode → ℕ → Move
move bare c =
    if c == 10
    then stop
    else if c == 39
    then shift single
    else if c == 34
    then shift double
    else if c == 92
    then shift escaped
    else if is_plain c
    then take bare
    else unclear
move escaped c = if c == 10 then unclear else take bare
move single c = if c == 39 then shift bare else take single
move double c =
    if c == 34
    then shift bare
    else if (c == 36) || (c == 92) || (c == 96)
    then unclear
    else take double

abbrev pub mode_after : Move → Mode
mode_after (shift mode) = mode
mode_after (take mode) = mode
mode_after _ = bare

abbrev pub apply_move : Move → ℕ → Text → Option (Text × Text) → Option (Text × Text)
apply_move stop c cs later = some ([], cs)
apply_move unclear c cs later = none
apply_move (shift mode) c cs later = later
apply_move (take mode) c cs later = keep c later

-- The value up to the end of its line, without its quotes, and what follows the line. None for a
-- text that does not end so, or that has a character which a shell may read in another way.
abbrev pub read : Mode → Text → Option (Text × Text)
read mode [] = none
read mode (c ∷ cs) = apply_move (move mode c) c cs (read (mode_after (move mode c)) cs)

-- a name: ASCII letters, digits and underscores, with no digit in front
abbrev pub is_letter : ℕ → Bool
is_letter c = (leb 65 c && leb c 90) || (leb 97 c && leb c 122) || (c == 95)

abbrev pub is_name : Text → Bool
is_name [] = false
is_name (c ∷ cs) = is_letter c && all (λ d. is_letter d || (leb 48 d && leb d 57)) cs

-- `Assigns word text vars rest`: the text begins with lines, each `word` and an assignment, which
-- give the variables these values, and the variables have names; `rest` is behind them.
pub data Assigns (word : Text) : Text → List (Text × Text) → Text → Type 0 where
  finish : {rest : Text} → Assigns word rest [] rest
  line :
      {rest : Text} {vars : List (Text × Text)} (name value text behind : Text)
      → is_name name ≡ true
      → read bare text ≡ some (value, behind)
      → Assigns word behind vars rest
      → Assigns word (word ++ (name ++ 61 ∷ text)) ((name, value) ∷ vars) rest
