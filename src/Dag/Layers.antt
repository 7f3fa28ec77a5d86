-- ===== src/Dag/Layers.antt =====
-- What the layers of `topological_layers` and `annotate_layers` in ar724/dag.py are.
use mathlib.Core.WellFounded.{Acc}
use ztrade_ares_7x.Base.{
  length, In, In-append_left, In-select, select-In, among, Distinct, Distinct-le, absent,
  Distinct-left, Distinct-Apart, Distinct-select, String, ◌≡◌, refl, sym, ◌∙◌, ap, subst, ◌↔◌, inl,
  inr, Bool, true, false, List, [], ◌∷◌, ◌++◌, append-nil, append_assoc, arith,
}
use ztrade_ares_7x.Base.Int.{pos}
use ztrade_ares_7x.Dag.{
  ◌>>=◌, ids, graph, validate_dag, keys_from, is_zero, Degrees, in_degree, rounds, total,
  start_queue, check_total, topological_layers, Task, Checked, returned,
}
use ztrade_ares_7x.Dag.Graph.{Depends}
use ztrade_ares_7x.Dag.Validate.{
  length-ids, IsOrder, IsSettled, IsKnown, IsAcyclic, validate_dag-IsSettled, Checked-cases,
  returned-inj, validate_dag_iff,
}
use ztrade_ares_7x.Dag.Counting.{hits-all}
use ztrade_ares_7x.Dag.Loop.{flatten, total-flatten, Layerwise, rounds_rule}
use ztrade_ares_7x.Dag.Rounds.{IsMet, Round-Invariant, Round}
use ztrade_ares_7x.Dag.Repeats.{check_total-Distinct}

keys-append :
    (so_far xs : List String) → Distinct (so_far ++ xs) → keys_from so_far xs ≡ so_far ++ xs
keys-append so_far [] d = sym (append-nil so_far)
keys-append so_far (x ∷ xs) d =
    let new : among so_far x ≡ false =
      absent x so_far (λ i. Distinct-Apart so_far (x ∷ xs) d x i (inl refl)) in
    let split = append_assoc so_far (x ∷ []) xs in
    rw new (keys-append (so_far ++ x ∷ []) xs (subst Distinct (sym split) d) ∙ split)

start-Round :
    (tasks : List Task)
    → Distinct (ids tasks)
    → Round tasks [] (start_queue tasks) (in_degree tasks)
start-Round tasks once = record {
  once = Distinct-select first (keys_from [] (ids tasks)) (subst Distinct (sym keys) once);
  listed = λ x m. subst (In x) keys (select-In first x (keys_from [] (ids tasks)) m).0;
  degrees = λ x. (length (graph tasks x), refl, omega arith);
  met = λ x m e.
      In-select first x (keys_from [] (ids tasks)) (subst (In x) (sym keys) m) (ap is_zero e);
  ready = λ x m d i.
      absurd (none_in (graph tasks x) (select-In first x (keys_from [] (ids tasks)) m).1 d i);
}
  where
    first : String → Bool
    first x = is_zero (in_degree tasks x)

    keys : keys_from [] (ids tasks) ≡ ids tasks
    keys = keys-append [] (ids tasks) once

    none_in : (ds : List String) → is_zero (pos (length ds)) ≡ true → (d : String) → ¬ In d ds
    none_in [] e d m = m
    none_in (y ∷ ds) e d m = cc

-- Every task once, and after everything that it depends on.
pub record IsSchedule (tasks : List Task) (layers : List (List String)) : Type 0 where
  pub once : Distinct (flatten layers)
  pub every : (x : String) → In x (flatten layers) ↔ In x (ids tasks)
  pub ordered : Layerwise (IsMet tasks) [] layers

reached :
    (tasks : List Task) (done : List String) (deg : Degrees)
    → Round tasks done [] deg
    → IsSettled tasks
    → (x : String) → Acc (Depends (graph tasks)) x
    → In x (ids tasks)
    → In x done
reached tasks done deg r settled x (Acc.intro _ below) m =
    let (n, e, balance) = r.degrees x in
    let all_done : (d : String) → In d (graph tasks x) → In d done =
      λ d i. reached tasks done deg r settled d (below d i) ((settled x m).1 d i) in
    let full = hits-all done (graph tasks x) (Distinct-left done [] r.once) all_done in
    subst (In x) (append-nil done) (r.met x m (e ∙ ap pos (omega (arith, full, balance))))

-- The loop of a validated graph ends with all tasks processed.
pub rounds-IsSchedule :
    (tasks : List Task)
    → Distinct (ids tasks)
    → IsSettled tasks
    → (layers : List (List String)) × (rounds tasks
          (length tasks)
          (in_degree tasks)
          (start_queue tasks)
        ≡ returned layers)
      × IsSchedule tasks layers
      × (total layers ≡ length tasks)
rounds-IsSchedule tasks once settled =
    let (layers, e, ordered, deg, r) =
      rounds_rule tasks (IsMet tasks) (Round tasks) (Round-Invariant tasks once) (length tasks) []
        (start_queue tasks) (in_degree tasks) (start-Round tasks once)
        (omega (arith, length-ids tasks)) in
    let distinct = Distinct-left (flatten layers) [] r.once in
    let sub : (x : String) → In x (flatten layers) → In x (ids tasks) =
      λ x m. r.listed x (In-append_left x (flatten layers) [] m) in
    let sup : (x : String) → In x (ids tasks) → In x (flatten layers) =
      λ x m. reached tasks (flatten layers) deg r settled x (settled x m).0 m in
    (
      layers,
      e,
      record { once = distinct; every = λ x. (sub x, sup x); ordered = ordered },
      omega (
        arith,
        total-flatten layers,
        length-ids tasks,
        Distinct-le (flatten layers) (ids tasks) distinct sub,
        Distinct-le (ids tasks) (flatten layers) once sup,
      ),
    )

validated :
    (visits : List String) (tasks : List Task)
    → Distinct (ids tasks)
    → validate_dag visits tasks ≡ returned tt
    → IsSettled tasks
    → (layers : List (List String)) × (topological_layers visits tasks ≡ returned layers)
      × IsSchedule tasks layers
unfolding topological_layers
validated visits tasks once v settled =
    let (layers, e, schedule, all_of) = rounds-IsSchedule tasks once settled in
    let whole : check_total tasks layers ≡ returned layers = ground (arith, all_of) in
    let ran = ap (λ m. m >>= check_total tasks) e ∙ whole in
    let after : Unit {0} → Checked (List (List String)) = λ _.
      rounds tasks (length tasks) (in_degree tasks) (start_queue tasks) >>= check_total tasks in
    (layers, ap (λ m. m >>= after) v ∙ ran, schedule)

-- Layers are only returned for a graph that was validated, and where all ids are different.
passed :
    (visits : List String) (tasks : List Task) (layers : List (List String))
    → topological_layers visits tasks ≡ returned layers
    → (validate_dag visits tasks ≡ returned tt) × Distinct (ids tasks)
unfolding topological_layers
passed visits tasks layers h = elim (Checked-cases (validate_dag visits tasks)) [
  | inr (tt, e) ↦ (e, check_total-Distinct tasks layers (sym (ap (λ m. m >>= after) e) ∙ h))
  | inl (f, e) ↦ absurd (cc (h, e))
]
  where
    after : Unit {0} → Checked (List (List String))
    after _ =
        rounds tasks (length tasks) (in_degree tasks) (start_queue tasks) >>= check_total tasks

-- The layers that `topological_layers` returns, in whichever order it walks through the set of
-- ids, are a schedule: each task is in one layer and once, and all that it depends on is in
-- earlier layers.
pub topological_layers-IsSchedule :
    (visits : List String) (tasks : List Task) (layers : List (List String))
    → IsOrder visits tasks
    → topological_layers visits tasks ≡ returned layers
    → IsSchedule tasks layers
topological_layers-IsSchedule visits tasks layers order h =
    let (v, once) = passed visits tasks layers h in
    let (found, e, schedule) =
      validated visits tasks once v (validate_dag-IsSettled visits tasks tt order v) in
    subst (IsSchedule tasks) (returned-inj found layers (sym e ∙ h)) schedule

-- In whichever order the set of ids is walked through, layers are returned exactly if all ids are
-- different, every dependency is known and there is no cycle.
pub topological_layers_iff :
    (visits : List String) (tasks : List Task)
    → IsOrder visits tasks
    → ((layers : List (List String)) × (topological_layers visits tasks ≡ returned layers))
      ↔ (Distinct (ids tasks) × IsKnown tasks × IsAcyclic tasks)
topological_layers_iff visits tasks order = (
  λ (layers, h).
      let (v, once) = passed visits tasks layers h in
      let (known, acyclic) = (validate_dag_iff visits tasks order).0 v in (once, known, acyclic),
  λ (once, known, acyclic).
      let v = (validate_dag_iff visits tasks order).1 (known, acyclic) in
      let (layers, e, _) =
        validated visits tasks once v (validate_dag-IsSettled visits tasks tt order v) in
      (layers, e),
)

-- The order in which the set of ids is walked through has no effect on the layers.
pub topological_layers-visits :
    (visits visits' : List String) (tasks : List Task) (layers : List (List String))
    → IsOrder visits tasks
    → IsOrder visits' tasks
    → topological_layers visits tasks ≡ returned layers
    → topological_layers visits' tasks ≡ returned layers
unfolding topological_layers
topological_layers-visits visits visits' tasks layers order order' h =
    let v = (passed visits tasks layers h).0 in
    let v' =
      (validate_dag_iff visits' tasks order').1 ((validate_dag_iff visits tasks order).0 v) in
    ap
      (λ m. m >>= λ _.
        (rounds tasks (length tasks) (in_degree tasks) (start_queue tasks) >>= check_total tasks))
      (v' ∙ sym v)
    ∙ h
