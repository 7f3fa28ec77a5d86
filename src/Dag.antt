-- ===== src/Dag.antt =====
-- ar724/dag.py. A dict is the function that looks a key up, and where its order matters the list
-- of its keys. The order in which Python walks through a set of texts is an argument, `visits`.
pub mod Resolve
pub mod Graph
pub mod Colors
pub mod Search
pub mod Validate
pub mod Counting
pub mod Relax
pub mod Spent
pub mod Loop
pub mod Rounds
pub mod Repeats
pub mod Layers
pub mod Faults
pub mod Marks
pub mod Annotate
pub mod Examples
use ztrade_ares_7x.Base.{
  ◌==◌, if◌then◌else◌, length, all, select, among, ℕ, zero, suc, ◌+◌, String, Bool, true, false,
  not, Option, none, some, List, [], ◌∷◌, ◌++◌, map, str_eq,
}
use ztrade_ares_7x.Base.Int.{ℤ, pos, negsuc}

pub record Task : Type 0 where
  pub id : String
  pub depends_on : List String
  pub layer : ℕ

-- What the ValueErrors say. The last is not the program's: a loop ran out of fuel.
pub data Fault : Type 0 where
  unknown_dependency : (task dep : String) → Fault
  cycle_detected : List String → Fault
  incomplete : (processed total : ℕ) → Fault
  out_of_fuel : Fault

pub data Checked {ℓ} (A : Type ℓ) : Type ℓ where
  raised : Fault → Checked A
  returned : A → Checked A

infixl 5 ◌>>=◌
abbrev pub ◌>>=◌ {ℓ κ} : {A : Type ℓ} {B : Type κ} → Checked A → (A → Checked B) → Checked B
raised fault >>= next = raised fault
returned value >>= next = next value

abbrev pub ids : List Task → List String
ids tasks = map (λ t. t.id) tasks

-- `{t.id: list(t.depends_on) for t in tasks}`: the last task of an id counts, and `.get` gives an
-- empty list for no task's id
abbrev pub graph : List Task → String → List String
graph [] x = []
graph (t ∷ ts) x =
    let later = graph ts x in
    if among (ids ts) x then later else if str_eq t.id x then t.depends_on else []

-- the first dependency of a task that is no id
abbrev pub first_unknown : List String → List String → Option String
first_unknown all_ids [] = none
first_unknown all_ids (d ∷ ds) =
    let later = first_unknown all_ids ds in if among all_ids d then later else some d

abbrev pub put : List (String × List String) → String → List String → List (String × List String)
put [] k v = (k, v) ∷ []
put ((k', v') ∷ rest) k v = if str_eq k' k then (k', v) ∷ rest else (k', v') ∷ put rest k v

-- the loop of `resolve_dependencies`, with the dict so far
resolve_all :
    List String → List Task → List (String × List String) → Checked (List (String × List String))
resolve_all all_ids [] so_far = returned so_far
resolve_all all_ids (t ∷ ts) so_far = elim (first_unknown all_ids t.depends_on) [
  | some dep ↦ raised (unknown_dependency t.id dep)
  | none ↦ resolve_all all_ids ts (put so_far t.id t.depends_on)
]

unfoldable pub resolve_dependencies : List Task → Checked (List (String × List String))
unfolding resolve_all
resolve_dependencies tasks = resolve_all (ids tasks) tasks []

pub data Color : Type 0 where
  white gray black : Color

abbrev pub is_white : Color → Bool
is_white white = true
is_white _ = false

abbrev pub Colors : Type 0
Colors = String → Color

-- `color[node] = c`
abbrev pub paint : Colors → String → Color → Colors
paint color node c x = if str_eq node x then c else color x

-- `path[path.index(x):]`
abbrev pub from : String → List String → List String
from x [] = []
from x (y ∷ ys) = let later = from x ys in if str_eq y x then y ∷ ys else later

-- the loop over the neighbors of `node`, where `visit` is the recursive call
unfoldable pub visit_all :
    List String
    → (String → List String → Colors → Checked Colors)
    → String
    → List String
    → Colors
    → List String
    → Checked Colors
visit_all all_ids visit node path color [] = returned color
visit_all all_ids visit node path color (n ∷ ns) = elim (among all_ids n) [
  | false ↦ raised (unknown_dependency node n)
  | true ↦ elim (color n) [
    | gray ↦ raised (cycle_detected (from n path ++ n ∷ []))
    | white ↦ visit n path color >>= λ c. visit_all all_ids visit node path c ns
    | black ↦ visit_all all_ids visit node path color ns
  ]
]

unfoldable pub dfs :
    List String → (String → List String) → ℕ → String → List String → Colors → Checked Colors
unfolding visit_all
dfs all_ids g zero node path color = raised out_of_fuel
dfs all_ids g (suc fuel) node path color =
    visit_all all_ids (dfs all_ids g fuel) node (path ++ node ∷ []) (paint color node gray) (g node)
    >>= λ c. returned (paint c node black)

-- the loop over the set of all ids
unfoldable pub search_all :
    List String → (String → List String) → ℕ → Colors → List String → Checked Colors
unfolding dfs
search_all all_ids g fuel color [] = returned color
search_all all_ids g fuel color (tid ∷ tids) = elim (color tid) [
  | white ↦ dfs all_ids g fuel tid [] color >>= λ c. search_all all_ids g fuel c tids
  | _ ↦ search_all all_ids g fuel color tids
]

abbrev unpainted : Colors
unpainted x = white

unfoldable pub validate_dag : List String → List Task → Checked (Unit {0})
unfolding search_all
validate_dag visits tasks =
    search_all (ids tasks) (graph tasks) (length tasks) unpainted visits >>= λ _. returned tt

-- the keys of a dict in the order of their first insertion
abbrev pub keys_from : List String → List String → List String
keys_from so_far [] = so_far
keys_from so_far (x ∷ xs) = keys_from (if among so_far x then so_far else so_far ++ x ∷ []) xs

abbrev pub dec : ℤ → ℤ
dec (pos zero) = negsuc 0
dec (pos (suc n)) = pos n
dec (negsuc n) = negsuc (suc n)

abbrev pub is_zero : ℤ → Bool
is_zero (pos zero) = true
is_zero _ = false

abbrev pub Degrees : Type 0
Degrees = String → ℤ

-- `in_degree` after the first loop
abbrev pub in_degree : List Task → Degrees
in_degree tasks x = pos (length (graph tasks x))

-- `x` for each time that `tid` occurs in the list
abbrev pub once_each : String → String → List String → List String
once_each x tid [] = []
once_each x tid (d ∷ ds) = if str_eq d tid then x ∷ once_each x tid ds else once_each x tid ds

-- `dependents[tid]`
abbrev pub dependents : List Task → String → List String
dependents [] tid = []
dependents (t ∷ ts) tid = once_each t.id tid t.depends_on ++ dependents ts tid

-- what the two inner loops go through for a layer
abbrev pub downstream : List Task → List String → List String
downstream tasks [] = []
downstream tasks (tid ∷ tids) = dependents tasks tid ++ downstream tasks tids

abbrev pub lower : Degrees → String → Degrees
lower deg d x = if str_eq d x then dec (deg d) else deg x

-- The body of the inner loop, for each of them: the counters, and the queue for the next round.
unfoldable pub relax : Degrees → List String → List String → Degrees × List String
relax deg queue [] = (deg, queue)
relax deg queue (d ∷ ds) =
    relax (lower deg d) (if is_zero (dec (deg d)) then queue ++ d ∷ [] else queue) ds

-- the `while` loop
unfoldable pub rounds : List Task → ℕ → Degrees → List String → Checked (List (List String))
unfolding relax
rounds tasks fuel deg [] = returned []
rounds tasks zero deg (q ∷ qs) = raised out_of_fuel
rounds tasks (suc fuel) deg (q ∷ qs) =
    let (deg', next) = relax deg [] (downstream tasks (q ∷ qs)) in
    rounds tasks fuel deg' next >>= λ layers. returned ((q ∷ qs) ∷ layers)

abbrev pub total : List (List String) → ℕ
total [] = 0
total (l ∷ ls) = length l + total ls

abbrev pub start_queue : List Task → List String
start_queue tasks = select (λ x. is_zero (in_degree tasks x)) (keys_from [] (ids tasks))

abbrev pub check_total : List Task → List (List String) → Checked (List (List String))
check_total tasks layers =
    if total layers == length tasks
    then returned layers
    else raised (incomplete (total layers) (length tasks))

unfoldable pub topological_layers : List String → List Task → Checked (List (List String))
unfolding validate_dag rounds
topological_layers visits tasks = validate_dag visits tasks >>= λ _.
    (rounds tasks (length tasks) (in_degree tasks) (start_queue tasks) >>= check_total tasks)

-- the innermost loop of `annotate_layers`, up to its `break`
abbrev pub set_layer : String → ℕ → List Task → List Task
set_layer tid index [] = []
set_layer tid index (t ∷ ts) =
    if str_eq t.id tid then record t { layer = index } ∷ ts else t ∷ set_layer tid index ts

abbrev pub set_layers : List String → ℕ → List Task → List Task
set_layers [] index tasks = tasks
set_layers (tid ∷ tids) index tasks = set_layers tids index (set_layer tid index tasks)

abbrev pub annotate_from : ℕ → List (List String) → List Task → List Task
annotate_from index [] tasks = tasks
annotate_from index (l ∷ ls) tasks = annotate_from (suc index) ls (set_layers l index tasks)

unfoldable pub annotate_layers : List String → List Task → Checked (List Task)
unfolding topological_layers
annotate_layers visits tasks =
    topological_layers visits tasks >>= λ layers. returned (annotate_from 0 layers tasks)

-- the tasks of one iteration
abbrev pub phase_job_dag_for_roles : List Task
phase_job_dag_for_roles =
    let task : String → List String → Task =
      λ name needs. record { id = name; depends_on = needs; layer = 0 } in
    task "proposer" []
    ∷ (task "builder" ("proposer" ∷ [])
        ∷ (task "validator" ("builder" ∷ [])
            ∷ (task "evaluator" ("validator" ∷ [])
                ∷ (task "reviewer" ("evaluator" ∷ []) ∷ (task "promoter" ("reviewer" ∷ []) ∷ [])))))
