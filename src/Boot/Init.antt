-- ===== src/Boot/Init.antt =====
-- `init` of ar724/cli.py, on the files that it makes. The text of the configuration is an argument
-- that takes the goal, and so is the text of env.sh.
use ztrade_ares_7x.Base.{
  if◌then◌else◌, Bool-cases, ◌≡◌, refl, inl, inr, Bool, true, Option, none, some, [], ◌∷◌, ◌++◌,
  arith,
}
use ztrade_ares_7x.Base.Texts.{Text, codes, contains}

-- a file that is not there is none; `has_state` says whether .ares/state.db is there
pub record Project : Type 0 where
  pub has_state : Bool
  pub loop_config : Option Text
  pub env_file : Option Text
  pub gitignore : Option Text

abbrev ignored_line : Text
ignored_line = codes "\n.ares/\n"

abbrev if_missing : Option Text → Text → Option Text
if_missing none text = some text
if_missing (some old) text = some old

abbrev ignoring : Option Text → Option Text
ignoring none = none
ignoring (some old) = some (if contains (codes ".ares/") old then old else old ++ ignored_line)

abbrev pub goal_or : Option Text → Text
goal_or none = codes "Tighten the v47 momentum weights."
goal_or (some []) = codes "Tighten the v47 momentum weights."
goal_or (some (c ∷ cs)) = c ∷ cs

unfoldable pub init :
    (config_text : Text → Text) (env_text : Text) → Option Text → Project → Project
init config_text env_text goal_text p = record {
  has_state = true;
  loop_config = if_missing p.loop_config (config_text (goal_or goal_text));
  env_file = if_missing p.env_file env_text;
  gitignore = ignoring p.gitignore;
}

contains-append : (part t u : Text) → contains part u ≡ true → contains part (t ++ u) ≡ true
contains-append part [] u h = h
contains-append part (c ∷ t) u h = ground (arith, contains-append part t u h)

ignoring-ignoring : (o : Option Text) → ignoring (ignoring o) ≡ ignoring o
ignoring-ignoring none = refl
ignoring-ignoring (some old) = elim (Bool-cases (contains (codes ".ares/") old)) [
  | inl e ↦ rw e (rw e refl)
  | inr e ↦ rw e (rw (contains-append (codes ".ares/") old ignored_line refl) refl)
]

if_missing_twice : (o : Option Text) (t u : Text) → if_missing (if_missing o t) u ≡ if_missing o t
if_missing_twice none t u = refl
if_missing_twice (some old) t u = refl

-- An `init` behind another changes nothing, also with another goal.
init-init :
    (config_text : Text → Text) (env_text : Text) (goal later : Option Text) (p : Project)
    → init config_text env_text later (init config_text env_text goal p)
      ≡ init config_text env_text goal p
unfolding init
init-init config_text env_text goal later p = λ i. record {
  has_state = true;
  loop_config =
      if_missing_twice p.loop_config (config_text (goal_or goal)) (config_text (goal_or later)) i;
  env_file = if_missing_twice p.env_file env_text env_text i;
  gitignore = ignoring-ignoring p.gitignore i;
}
