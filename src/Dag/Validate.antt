-- ===== src/Dag/Validate.antt =====
-- What `validate_dag` of ar724/dag.py decides.
use mathlib.Core.WellFounded.{Acc}
use ztrade_ares_7x.Base.{
  Bool-cases, length, In, count, among, among→In, In→among, absent, ℕ, suc, ◌≤◌, String, ◌≡◌, refl,
  sym, ap, subst, ◌≢◌, ◌↔◌, ◌⊎◌, inl, inr, Bool, true, List, [], ◌∷◌, arith, str_eq, eq_iff,
}
use ztrade_ares_7x.Dag.{
  ◌>>=◌, ids, graph, Colors, dfs, search_all, validate_dag, Task, Fault, Checked,
  unknown_dependency, cycle_detected, incomplete, out_of_fuel, raised, returned, gray, black,
  unpainted,
}
use ztrade_ares_7x.Dag.Graph.{Depends, IsTrue, IsCycle-Reaches, Acc-Reaches, Reaches, direct, over}
use ztrade_ares_7x.Dag.Colors.{
  Color-cases, whites, Sound, After-refl, After-whites, Good, Good-bind, Good-from,
}
use ztrade_ares_7x.Dag.Search.{dfs-Good}

module _ (all_ids : List String) (g : String → List String) where
  Blackened : List String → Colors → Type 0
  Blackened tids c = (t : String) → In t tids → c t ≡ black

  search_all-Good :
      (fuel : ℕ) (color : Colors) (tids : List String)
      → Sound all_ids g color
      → ((x : String) → color x ≢ gray)
      → whites all_ids g color ≤ fuel
      → ((t : String) → In t tids → In t all_ids)
      → Good all_ids g color (Blackened tids) (search_all all_ids g fuel color tids)
  unfolding search_all Blackened
  search_all-Good fuel color [] s clean enough sub = (After-refl all_ids g color s, λ t m. absurd m)
  search_all-Good fuel color (tid ∷ tids) s clean enough sub = elim (Color-cases (color tid)) [
    | inr (inl c) ↦ absurd (clean tid c)
    | inr (inr c) ↦
        rw (c, search_all)
          (Good-from all_ids g (Blackened tids) (Blackened (tid ∷ tids)) color color _
            (After-refl all_ids g color s)
            (search_all-Good fuel color tids s clean enough (λ t m. sub t (inr m)))
            (λ c' aft h. first tid tids c' (aft.blacks tid c) h))
    | inl c ↦
        rw (c, search_all)
          (Good-bind all_ids g (λ c'. c' tid ≡ black) (Blackened (tid ∷ tids)) color
            (dfs all_ids g fuel tid [] color) _
            (dfs-Good all_ids g fuel tid [] color
              (record { sound = s; listed = sub tid (inl refl); chain = tt; enough = enough }) c
              (λ x e. absurd (clean x e)))
            (λ c' aft now.
              Good-from all_ids g (Blackened tids) (Blackened (tid ∷ tids)) color c' _ aft
                (search_all-Good fuel c' tids aft.sound (λ x e. clean x (aft.grays x e))
                  (omega (arith, After-whites all_ids g color c' aft)) (λ t m. sub t (inr m)))
                (λ c'' aft' h. first tid tids c'' (aft'.blacks tid now) h)))
  ]
    where
      first :
          (t : String) (ts : List String) (c : Colors)
          → c t ≡ black
          → ((x : String) → In x ts → c x ≡ black)
          → (x : String) → In x (t ∷ ts)
          → c x ≡ black
      first t ts c b h x (inl e) = subst (λ z. c z ≡ black) (sym e) b
      first t ts c b h x (inr m) = h x m

count-le-length : (p : String → Bool) (xs : List String) → count p xs ≤ length xs
count-le-length p [] = omega arith
count-le-length p (x ∷ xs) = ground (arith, count-le-length p xs)

pub length-ids : (tasks : List Task) → length (ids tasks) ≡ length tasks
length-ids [] = refl
length-ids (t ∷ ts) = ap suc (length-ids ts)

-- The order in which the set of ids is walked through: it has the ids, in any order.
abbrev pub IsOrder : List String → List Task → Type 0
IsOrder visits tasks = (x : String) → In x visits ↔ In x (ids tasks)

searched :
    (visits : List String) (tasks : List Task)
    → IsOrder visits tasks
    → Good
        (ids tasks)
        (graph tasks)
        unpainted
        (Blackened (ids tasks) (graph tasks) visits)
        (search_all (ids tasks) (graph tasks) (length tasks) unpainted visits)
searched visits tasks order =
    search_all-Good (ids tasks) (graph tasks) (length tasks) unpainted visits (λ x e. cc)
      (λ x e. cc) (omega (arith, count-le-length (λ x. true) (ids tasks), length-ids tasks))
      (λ t m. (order t).0 m)

-- Each id depends on ids only, and no chain of dependencies from it goes on for ever.
abbrev pub IsSettled : List Task → Type 0
IsSettled tasks =
    (x : String)
    → In x (ids tasks)
    → Acc (Depends (graph tasks)) x × ((d : String) → In d (graph tasks x) → In d (ids tasks))

Outcome : List Task → Checked (Unit {0}) → Type 0
Outcome tasks (raised fault) = IsTrue (ids tasks) (graph tasks) fault
Outcome tasks (returned u) = IsSettled tasks

validate_dag-Outcome :
    (visits : List String) (tasks : List Task)
    → IsOrder visits tasks
    → Outcome tasks (validate_dag visits tasks)
unfolding validate_dag Outcome Blackened
validate_dag-Outcome visits tasks order =
    conclude (search_all (ids tasks) (graph tasks) (length tasks) unpainted visits)
      (searched visits tasks order)
  where
    conclude :
        (m : Checked Colors)
        → Good (ids tasks) (graph tasks) unpainted (Blackened (ids tasks) (graph tasks) visits) m
        → Outcome tasks (m >>= λ _. returned tt)
    conclude (raised fault) h = h
    conclude (returned c) (aft, all_black) = λ x m. aft.sound x (all_black x ((order x).1 m))

pub graph-In : (tasks : List Task) (x d : String) → In d (graph tasks x) → In x (ids tasks)
graph-In [] x d m = absurd m
graph-In (t ∷ ts) x d m = elim (Bool-cases (among (ids ts) x)) [
  | inl e ↦ inr (among→In (ids ts) x e)
  | inr e ↦ elim (Bool-cases (str_eq t.id x)) [
    | inl same ↦ inl (sym ((eq_iff t.id x).0 same))
    | inr other ↦ absurd (rw (e, other) at m)
  ]
]

-- Every dependency is the id of a task.
abbrev pub IsKnown : List Task → Type 0
IsKnown tasks = (x d : String) → In d (graph tasks x) → In d (ids tasks)

-- No task depends on itself, at once or over others.
abbrev pub IsAcyclic : List Task → Type 0
IsAcyclic tasks = (x : String) → ¬ Reaches (graph tasks) x x

Reaches-In : (tasks : List Task) (x z : String) → Reaches (graph tasks) x z → In x (ids tasks)
Reaches-In tasks x z (direct m) = graph-In tasks x z m
Reaches-In tasks x z (over y m r) = graph-In tasks x y m

-- If `validate_dag` raises, what it says is true: the dependency that it names is one of a task
-- and unknown, or the path that it shows is a cycle. So it always ends, with the fuel of the model.
pub validate_dag-IsTrue :
    (visits : List String) (tasks : List Task) (fault : Fault)
    → IsOrder visits tasks
    → validate_dag visits tasks ≡ raised fault
    → IsTrue (ids tasks) (graph tasks) fault
unfolding Outcome
validate_dag-IsTrue visits tasks fault order h =
    subst (Outcome tasks) h (validate_dag-Outcome visits tasks order)

pub validate_dag-IsSettled :
    (visits : List String) (tasks : List Task) (u : Unit {0})
    → IsOrder visits tasks
    → validate_dag visits tasks ≡ returned u
    → IsSettled tasks
unfolding Outcome
validate_dag-IsSettled visits tasks u order h =
    subst (Outcome tasks) h (validate_dag-Outcome visits tasks order)

pub Checked-cases :
    {A : Type 0} (m : Checked A) → ((f : Fault) × (m ≡ raised f)) ⊎ ((a : A) × (m ≡ returned a))
Checked-cases (raised f) = inl (f, refl)
Checked-cases (returned a) = inr (a, refl)

pub returned-inj : {A : Type 0} (a b : A) → returned a ≡ returned b → a ≡ b
returned-inj a b h = cc

untrue :
    (tasks : List Task) (fault : Fault)
    → IsKnown tasks
    → IsAcyclic tasks
    → ¬ IsTrue (ids tasks) (graph tasks) fault
untrue tasks (unknown_dependency task dep) known acyclic (_, edge, absent) =
    absurd (cc (absent, In→among (ids tasks) dep (known task dep edge)))
untrue tasks (cycle_detected p) known acyclic h =
    let (x, r) = IsCycle-Reaches (graph tasks) p h in acyclic x r
untrue tasks (incomplete processed n) known acyclic h = h
untrue tasks out_of_fuel known acyclic h = h

-- The validation passes exactly if every dependency is known and there is no cycle, in whichever
-- order the set of ids is walked through.
pub validate_dag_iff :
    (visits : List String) (tasks : List Task)
    → IsOrder visits tasks
    → (validate_dag visits tasks ≡ returned tt) ↔ (IsKnown tasks × IsAcyclic tasks)
validate_dag_iff visits tasks order = (
  λ h.
      let settled = validate_dag-IsSettled visits tasks tt order h in
      (
        λ x d m. (settled x (graph-In tasks x d m)).1 d m,
        λ x r. Acc-Reaches (graph tasks) x (settled x (Reaches-In tasks x x r)).0 r,
      ),
  λ (known, acyclic). elim (Checked-cases (validate_dag visits tasks)) [
    | inr (tt, e) ↦ e
    | inl (f, e) ↦
        absurd (untrue tasks f known acyclic (validate_dag-IsTrue visits tasks f order e))
  ],
)
