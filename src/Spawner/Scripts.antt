-- ===== src/Spawner/Scripts.antt =====
-- What a shell takes from the two texts of ar724/spawner.py.
use ztrade_ares_7x.Base.{
  refl, ◌==◌, Bool-cases, all, select, ◌≡◌, inl, inr, Bool, true, not, some, List, [], ◌∷◌, ◌++◌,
}
use ztrade_ares_7x.Spawner.{
  quote, export_lines, removal, write_env_file, escape, keepalive_loop, assignment,
  build_keepalive_script,
}
use ztrade_ares_7x.Base.Texts.{Text, codes}
use ztrade_ares_7x.Spawner.Shell.{is_name, read, Assigns, bare, finish, line}
use ztrade_ares_7x.Spawner.Quoting.{read-escape, read-lacking, read-quote}

-- The names that Python takes for identifiers are names to a shell.
abbrev pub AllNames : (Text → Bool) → List (Text × Text) → Type 0
AllNames is_identifier [] = Unit
AllNames is_identifier ((k, v) ∷ vars) =
    (is_identifier k ≡ true → is_name k ≡ true) × AllNames is_identifier vars

export_lines-Assigns :
    (is_identifier : Text → Bool) (vars : List (Text × Text)) (last : Text)
    → AllNames is_identifier vars
    → Assigns
        (codes "export ")
        (export_lines is_identifier vars last)
        (select (λ v. is_identifier v.0) vars)
        last
export_lines-Assigns is_identifier [] last names = finish
export_lines-Assigns is_identifier ((k, v) ∷ vars) last names =
    elim (Bool-cases (is_identifier k)) [
      | inl e ↦ rw e (
          line k v _ (export_lines is_identifier vars last) (names.0 e)
            (read-quote v (export_lines is_identifier vars last))
            (export_lines-Assigns is_identifier vars last names.1))
      | inr e ↦ rw e (export_lines-Assigns is_identifier vars last names.1)
    ]

-- If the names that Python takes for identifiers are ASCII, and so names to a shell too, a shell
-- that sources the file of `write_env_file` exports exactly the variables with these names, in
-- their order and with their values, whatever characters these have; then comes the line that
-- removes the file, with the file's name as its word.
pub write_env_file-Assigns :
    (is_identifier : Text → Bool) (name : Text) (vars : List (Text × Text))
    → AllNames is_identifier vars
    → Assigns
        (codes "export ")
        (write_env_file is_identifier name vars)
        (select (λ v. is_identifier v.0) vars)
        (removal name)
      × (read bare (quote name ++ 10 ∷ []) ≡ some (name, []))
unfolding write_env_file
write_env_file-Assigns is_identifier name vars names =
    (export_lines-Assigns is_identifier vars (removal name) names, read-quote name [])

-- The script of `build_keepalive_script` gives its three variables the agent's name, the first
-- command and the command to resume with, if there is no quote in the first and the last of
-- these; the loop follows.
pub build_keepalive_script-Assigns :
    (agent_name initial_cmd resume_cmd : Text)
    → all (λ c. not (c == 39)) agent_name ≡ true
    → all (λ c. not (c == 39)) resume_cmd ≡ true
    → Assigns []
        (build_keepalive_script agent_name initial_cmd resume_cmd)
        ((codes "__ct_agent", agent_name)
          ∷ ((codes "__ct_cmd", initial_cmd) ∷ ((codes "__ct_resume", resume_cmd) ∷ [])))
        keepalive_loop
unfolding build_keepalive_script
build_keepalive_script-Assigns agent_name initial_cmd resume_cmd clean_agent clean_resume =
    let resumes = assignment (codes "__ct_resume") resume_cmd keepalive_loop in
    let commands = assignment (codes "__ct_cmd") (escape initial_cmd) resumes in
    line (codes "__ct_agent") agent_name _ commands refl
      (read-lacking agent_name commands clean_agent)
      (line (codes "__ct_cmd") initial_cmd _ resumes refl (read-escape initial_cmd resumes) (
        line (codes "__ct_resume") resume_cmd _ keepalive_loop refl
          (read-lacking resume_cmd keepalive_loop clean_resume) finish))
