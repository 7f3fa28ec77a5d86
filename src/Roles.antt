-- ===== src/Roles.antt =====
-- `load_role_yaml` and `validate_roles` of ar724/role_loader.py. The directory is the list of its
-- YAML files in the order of their names; a file is what the YAML parser makes of it.
pub mod Valid
pub mod Output
pub mod Acceptance
pub mod Accepted
pub mod Examples
use ztrade_ares_7x.Base.{
  if◌then◌else◌, any, all, String, Bool, not, ◌&&◌, Option, none, some, List, [], ◌∷◌, map, str_eq,
}
use ztrade_ares_7x.Base.Result.{◌>>=◌, ◌>>◌, Result, value_error, ok, err}

-- A mapping, by its `id` if it has one, its keys and its acceptance criteria.
pub record Role : Type 0 where
  pub id : Option String
  pub keys : List String
  pub acceptance : List String

-- `content` is none if the top level is no mapping.
pub record RoleFile : Type 0 where
  pub stem : String
  pub content : Option Role

abbrev pub required_fields : List String
required_fields =
    "id" ∷ "title" ∷ "description" ∷ "system_prompt" ∷ "tools" ∷ "skills" ∷ "acceptance" ∷ []

abbrev pub required_role_ids : List String
required_role_ids = "factor_combiner" ∷ "backtester" ∷ "factor_validator" ∷ "backtest_reviewer" ∷ []

abbrev pub contains : List String → String → Bool
contains xs x = any (str_eq x) xs

-- each is in the other, as sets
abbrev pub same_set : List String → List String → Bool
same_set xs ys = all (contains ys) xs && all (contains xs) ys

-- A role that was loaded: its id, and the mapping.
pub record Loaded : Type 0 where
  pub id : String
  pub role : Role

abbrev with_id : Role → Option String → Result Loaded
with_id role none = err value_error
with_id role (some i) = ok (record { id = i; role = role })

abbrev from_content : Option Role → Result Loaded
from_content none = err value_error
from_content (some role) = with_id role role.id

unfoldable pub load_role_yaml : RoleFile → Result Loaded
load_role_yaml f = from_content f.content

-- what the loop does with one file, `seen` being the ids so far
unfoldable pub accept : List String → Loaded → Result Loaded
accept seen l =
    if contains seen l.id
    then err value_error
    else if all (contains l.role.keys) required_fields
    then ok l
    else err value_error

-- The loop over the files. Its results are in the order of the files.
unfoldable pub load_all : List String → List RoleFile → Result (List Loaded)
unfolding load_role_yaml accept
load_all seen [] = ok []
load_all seen (f ∷ fs) = do
  l ← load_role_yaml f
  l' ← accept seen l
  rest ← load_all (l'.id ∷ seen) fs
  ok (l' ∷ rest)

abbrev pub ids : List Loaded → List String
ids ls = map (λ l. l.id) ls

abbrev pub stems : List RoleFile → List String
stems fs = map (λ f. f.stem) fs

abbrev pub check_ids : List RoleFile → List Loaded → Result (List Loaded)
check_ids fs roles =
    if not (same_set (ids roles) required_role_ids)
    then err value_error
    else if all (contains (stems fs)) required_role_ids
    then ok roles
    else err value_error

-- `none` is a path that is no directory
unfoldable pub validate_roles : Option (List RoleFile) → Result (List Loaded)
unfolding load_all
validate_roles none = err value_error
validate_roles (some fs) = do roles ← load_all [] fs; check_ids fs roles
