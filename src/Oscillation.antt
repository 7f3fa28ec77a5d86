-- ===== src/Oscillation.antt =====
-- ar724/oscillation.py. A parameter's value is given in its two bucketed texts: by 3 decimals, as
-- `_structural_hash` has it, and by `bucket_decimals`, as `observe` has it. SHA-256 over the
-- sorted parameters is the argument `digest`.
pub mod Window
pub mod Patterns
pub mod Checking
pub mod Examples
use ztrade_ares_7x.Base.{
  leb, ◌==◌, if◌then◌else◌, length, drop, any, count, ℕ, ◌+◌, ◌-◌, String, Bool, true, false, not,
  ◌&&◌, List, [], ◌∷◌, ◌++◌, map, str_eq,
}
use ztrade_ares_7x.Budget.{append_bounded}

pub record Param : Type 0 where
  pub name : String
  pub structural : String
  pub bucketed : String

pub record Detector : Type 0 where
  pub window : ℕ
  pub per_param_threshold : ℕ
  pub joint_max_unique : ℕ
  pub history : List String
  pub param_history : List (String × List String)

-- the defaults of `__init__`
abbrev pub default_detector : Detector
default_detector = record {
  window = 6;
  per_param_threshold = 4;
  joint_max_unique = 2;
  history = [];
  param_history = [];
}

-- `len(set(xs))`
unfoldable pub unique_count : List String → ℕ
unique_count [] = 0
unique_count (x ∷ xs) = (if any (str_eq x) xs then 0 else 1) + unique_count xs

-- `xs.count(xs[-1])`; 0 if there is no last entry
abbrev last_or : String → List String → String
last_or d [] = d
last_or d (x ∷ xs) = last_or x xs

unfoldable pub count_last : List String → ℕ
count_last [] = 0
count_last (x ∷ xs) = count (str_eq (last_or x xs)) (x ∷ xs)

pub data Trigger : Type 0 where
  joint_structural : ℕ → Trigger
  per_param : String → ℕ → Trigger

-- `list(history)[-window:]`
abbrev pub recent : ℕ → List String → List String
recent window xs = drop (length xs - window) xs

unfoldable pub joint_signal : Detector → List String → List Trigger
unfolding unique_count
joint_signal d history =
    if leb d.window (length history)
      && leb (unique_count (recent d.window history)) d.joint_max_unique
    then joint_structural (unique_count (recent d.window history)) ∷ []
    else []

unfoldable pub param_signal : Detector → String → List String → List Trigger
unfolding unique_count count_last
param_signal d name values =
    if leb d.window (length values)
      && (leb (unique_count (recent d.window values)) 2
          && leb d.per_param_threshold (count_last (recent d.window values)))
    then per_param name (count_last (recent d.window values)) ∷ []
    else []

-- a name that is not there yet has an empty deque
unfoldable pub values_of : String → List (String × List String) → List String
values_of name [] = []
values_of name ((n, vs) ∷ rest) = if str_eq n name then vs else values_of name rest

unfoldable pub put_values :
    String → List String → List (String × List String) → List (String × List String)
put_values name values [] = (name, values) ∷ []
put_values name values ((n, vs) ∷ rest) =
    if str_eq n name then (n, values) ∷ rest else (n, vs) ∷ put_values name values rest

abbrev observe_param : Detector → Param → Detector × List Trigger
observe_param d p =
    let values = append_bounded d.window (values_of p.name d.param_history) p.bucketed in
    (
      record d { param_history = put_values p.name values d.param_history },
      param_signal d p.name values,
    )

-- the loop over `candidate_params.items()`
observe_params : Detector → List Param → Detector × List Trigger
observe_params d [] = (d, [])
observe_params d (p ∷ ps) =
    let (d', now) = observe_param d p in
    let (d'', later) = observe_params d' ps in (d'', now ++ later)

module _ (digest : List (String × String) → String) where
  unfoldable pub structural_hash : List Param → String
  structural_hash params = digest (map (λ p. (p.name, p.structural)) params)

  unfoldable pub observe : Detector → List Param → Detector × List Trigger
  unfolding observe_params values_of put_values joint_signal param_signal structural_hash
  observe d params =
      let history = append_bounded d.window d.history (structural_hash params) in
      let (d', triggered) = observe_params (record d { history = history }) params in
      (d', joint_signal d history ++ triggered)

unfoldable pub reset : Detector → Detector
reset d = record d { history = []; param_history = [] }

abbrev is_nil {ℓ} : {A : Type ℓ} → List A → Bool
is_nil [] = true
is_nil (x ∷ xs) = false

unfoldable pub is_empty : Detector → Bool
is_empty d = length d.history == 0 && is_nil d.param_history
