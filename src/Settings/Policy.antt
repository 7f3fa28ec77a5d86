-- ===== src/Settings/Policy.antt =====
-- The readers of ar724/config_loader.py: `_load_yaml`, the cached `get_safety_policy`, and the three
-- that take a member of what they read. What `yaml.safe_load` makes of a file, with an empty one
-- as `{}`, is an argument; the clearing is that of SIGHUP and of policy-reload in ar724/cli.py.
use ztrade_ares_7x.Base.{◌≡◌, refl, ◌∙◌, ap, Option, none, some, List, [], ◌∷◌}
use ztrade_ares_7x.Base.Result.{Result, os_error, err, ok}

-- A file that is there, as it is read; none if there is no such file.
abbrev pub Yaml : Type 0 → Type 0
Yaml A = Option (Result A)

unfoldable pub load_yaml : {A : Type 0} → A → Yaml A → Result A
load_yaml empty none = ok empty
load_yaml empty (some parsed) = parsed

-- `Path(env).open()` raises for a file that is not there
abbrev pub open_yaml : {A : Type 0} → Yaml A → Result A
open_yaml none = err os_error
open_yaml (some parsed) = parsed

-- `env_file` is the file that AR724_SAFETY_PATH names, if it is set
pub record Process (A : Type 0) : Type 0 where
  pub env_file : Option (Yaml A)
  pub default_file : Yaml A
  pub cache : Option A

abbrev pub load_policy : {A : Type 0} → A → Option (Yaml A) → Yaml A → Result A
load_policy empty none default_file = load_yaml empty default_file
load_policy empty (some file) default_file = open_yaml file

-- an exception is not cached
abbrev pub remember : {A : Type 0} → Process A → Result A → Result A × Process A
remember p (ok policy) = (ok policy, record p { cache = some policy })
remember p (err e) = (err e, p)

abbrev pub cached_or : {A : Type 0} → A → Process A → Option A → Result A × Process A
cached_or empty p (some policy) = (ok policy, p)
cached_or empty p none = remember p (load_policy empty p.env_file p.default_file)

unfoldable pub get_safety_policy : {A : Type 0} → A → Process A → Result A × Process A
unfolding load_yaml
get_safety_policy empty p = cached_or empty p p.cache

-- `cache_clear()`
unfoldable pub cache_clear : {A : Type 0} → Process A → Process A
cache_clear p = record p { cache = none }

-- `data.get(member, default)`
abbrev pub member_or : {A B : Type 0} → (A → Option B) → B → Result A → Result B
member_or member default (err e) = err e
member_or member default (ok policy) = elim (member policy) [ none ↦ ok default | some b ↦ ok b ]

unfoldable pub get_model_profiles :
    {A B : Type 0} → A → (profiles : A → Option B) → B → Yaml A → Result B
unfolding load_yaml
get_model_profiles empty profiles default file = member_or profiles default (load_yaml empty file)

unfoldable pub get_role_routing :
    {A B : Type 0} → A → (routing : A → Option B) → B → Yaml A → Result B
unfolding load_yaml
get_role_routing empty routing default file = member_or routing default (load_yaml empty file)

unfoldable pub get_mcp_allowlist :
    {A B : Type 0} → A → (mcp_allowlist : A → Option B) → B → Process A → Result B × Process A
unfolding get_safety_policy
get_mcp_allowlist empty mcp_allowlist default p =
    let (policy, p') = get_safety_policy empty p in (member_or mcp_allowlist default policy, p')

-- What happens between two reads: the files are edited, the environment is set, another read.
pub data Change (A : Type 0) : Type 0 where
  edit_default : Yaml A → Change A
  set_env : Option (Yaml A) → Change A
  read_again : Change A

abbrev pub change_one : {A : Type 0} → A → Change A → Process A → Process A
change_one empty (edit_default file) p = record p { default_file = file }
change_one empty (set_env file) p = record p { env_file = file }
change_one empty read_again p = (get_safety_policy empty p).1

abbrev pub change_all : {A : Type 0} → A → List (Change A) → Process A → Process A
change_all empty [] p = p
change_all empty (c ∷ cs) p = change_all empty cs (change_one empty c p)

abbrev pub CachedAs : {A : Type 0} → A → Process A → Type 0
CachedAs policy p = p.cache ≡ some policy

get_safety_policy-cached :
    {A : Type 0} (empty policy : A) (p : Process A)
    → CachedAs policy p
    → get_safety_policy empty p ≡ (ok policy, p)
unfolding get_safety_policy
get_safety_policy-cached empty policy p h = rw h

change_all-CachedAs :
    {A : Type 0} (empty policy : A) (cs : List (Change A)) (p : Process A)
    → CachedAs policy p
    → CachedAs policy (change_all empty cs p)
change_all-CachedAs empty policy [] p h = h
change_all-CachedAs empty policy (edit_default file ∷ cs) p h =
    change_all-CachedAs empty policy cs (record p { default_file = file }) h
change_all-CachedAs empty policy (set_env file ∷ cs) p h =
    change_all-CachedAs empty policy cs (record p { env_file = file }) h
change_all-CachedAs empty policy (read_again ∷ cs) p h =
    change_all-CachedAs empty policy cs (get_safety_policy empty p).1
      (ap (λ r. r.1.cache) (get_safety_policy-cached empty policy p h) ∙ h)

remember-CachedAs :
    {A : Type 0} (policy : A) (p : Process A) (r : Result A)
    → (remember p r).0 ≡ ok policy
    → CachedAs policy (remember p r).1
remember-CachedAs policy p (ok read) h = cc h
remember-CachedAs policy p (err e) h = absurd cc

cached_or-CachedAs :
    {A : Type 0} (empty policy : A) (p : Process A) (o : Option A)
    → p.cache ≡ o
    → (cached_or empty p o).0 ≡ ok policy
    → CachedAs policy (cached_or empty p o).1
cached_or-CachedAs empty policy p (some read) e h = cc (e, h)
cached_or-CachedAs empty policy p none e h =
    remember-CachedAs policy p (load_policy empty p.env_file p.default_file) h

remember_result : {A : Type 0} (p : Process A) (r : Result A) → (remember p r).0 ≡ r
remember_result p (ok policy) = refl
remember_result p (err e) = refl

-- Once get_safety_policy has given a policy, it gives the same one whatever is done to the files and
-- the environment; after cache_clear, as SIGHUP and policy-reload call it, it gives what the files
-- and the environment are then.
get_safety_policy-stale :
    {A : Type 0} (empty policy : A) (p : Process A) (changes : List (Change A))
    → (get_safety_policy empty p).0 ≡ ok policy
    → let q = change_all empty changes (get_safety_policy empty p).1 in
      ((get_safety_policy empty q).0 ≡ ok policy)
      × ((get_safety_policy empty (cache_clear q)).0 ≡ load_policy empty q.env_file q.default_file)
unfolding get_safety_policy cache_clear
get_safety_policy-stale empty policy p changes h =
    let first = cached_or-CachedAs empty policy p p.cache refl h in
    let q = change_all empty changes (get_safety_policy empty p).1 in
    let kept = change_all-CachedAs empty policy changes (get_safety_policy empty p).1 first in
    (
      ap (λ r. r.0) (get_safety_policy-cached empty policy q kept),
      remember_result (record q { cache = none }) (load_policy empty q.env_file q.default_file),
    )
