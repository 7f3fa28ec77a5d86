-- ===== src/Spawner.antt =====
-- write_env_file and build_keepalive_script of ar724/spawner.py: the texts that a shell will read.
-- A character is its code point. Of Python's library, `str.isidentifier` is an argument.
pub mod Shell
pub mod Quoting
pub mod Words
pub mod Launch
pub mod Scripts
pub mod Examples
use ztrade_ares_7x.Base.{
  leb, ◌==◌, if◌then◌else◌, all, ℕ, Bool, true, ◌&&◌, ◌||◌, List, [], ◌∷◌, ◌++◌,
}
use ztrade_ares_7x.Base.Texts.{Text, codes}

-- the characters that `shlex.quote` leaves bare: ASCII letters, digits and _@%+=:,./-
abbrev pub is_plain : ℕ → Bool
is_plain c =
    (leb 48 c && leb c 58)
    || (leb 64 c && leb c 90)
    || (leb 97 c && leb c 122)
    || (c == 95)
    || (c == 37)
    || (c == 43)
    || (c == 61)
    || (leb 44 c && leb c 47)

-- `shlex.quote` in quotes: each `'` becomes `'"'"'`
abbrev pub requote : Text → Text
requote [] = []
requote (c ∷ cs) =
    let rest = requote cs in if c == 39 then 39 ∷ (34 ∷ (39 ∷ (34 ∷ (39 ∷ rest)))) else c ∷ rest

abbrev pub quote : Text → Text
quote [] = 39 ∷ (39 ∷ [])
quote (c ∷ cs) = if all is_plain (c ∷ cs) then c ∷ cs else 39 ∷ (requote (c ∷ cs) ++ 39 ∷ [])

-- the lines of the variables, and the line that removes the file
abbrev pub export_lines : (Text → Bool) → List (Text × Text) → Text → Text
export_lines is_identifier [] last = last
export_lines is_identifier ((k, v) ∷ vars) last =
    let rest = export_lines is_identifier vars last in
    if is_identifier k then codes "export " ++ (k ++ 61 ∷ (quote v ++ 10 ∷ rest)) else rest

abbrev pub removal : Text → Text
removal name = codes "rm -f " ++ (quote name ++ 10 ∷ [])

unfoldable pub write_env_file : (Text → Bool) → Text → List (Text × Text) → Text
write_env_file is_identifier name vars = export_lines is_identifier vars (removal name)

-- `initial_cmd.replace("'", "'\\''")`
abbrev pub escape : Text → Text
escape [] = []
escape (c ∷ cs) =
    let rest = escape cs in if c == 39 then 39 ∷ (92 ∷ (39 ∷ (39 ∷ rest))) else c ∷ rest

-- `KEEPALIVE_TEMPLATE` behind the three assignments
abbrev pub keepalive_loop : Text
keepalive_loop =
    codes
      "trap '__ct_status=$?; ares on-exit \"$__ct_agent\" $__ct_status' EXIT\nwhile true; do\n  eval \"$__ct_cmd\"\n  __ct_status=$?\n  if [ $__ct_status -eq 0 ] && ares lifecycle should-keepalive \"$__ct_agent\"; then\n    __ct_cmd=\"$__ct_resume\"\n    sleep 2\n    continue\n  fi\n  break\ndone\n"

-- a line `name='value'`
abbrev pub assignment : Text → Text → Text → Text
assignment name value rest = name ++ 61 ∷ (39 ∷ (value ++ 39 ∷ (10 ∷ rest)))

unfoldable pub build_keepalive_script : (agent_name initial_cmd resume_cmd : Text) → Text
build_keepalive_script agent_name initial_cmd resume_cmd =
    assignment (codes "__ct_agent") agent_name (
      assignment (codes "__ct_cmd") (escape initial_cmd)
        (assignment (codes "__ct_resume") resume_cmd keepalive_loop))
