-- ===== src/Dag/Faults.antt =====
-- What the faults that `topological_layers` of ar724/dag.py raises say.
use ztrade_ares_7x.Base.{
  length, Distinct, Distinct-le, ◌<◌, String, ◌≡◌, sym, ◌∙◌, ap, subst, ◌≢◌, inl, inr, List, arith,
}
use ztrade_ares_7x.Dag.{
  ◌>>=◌, ids, graph, validate_dag, in_degree, rounds, total, start_queue, check_total,
  topological_layers, Task, Fault, Checked, unknown_dependency, cycle_detected, incomplete,
  out_of_fuel, raised,
}
use ztrade_ares_7x.Dag.Graph.{IsTrue}
use ztrade_ares_7x.Dag.Validate.{
  length-ids, IsOrder, IsSettled, IsAcyclic, validate_dag-IsTrue, validate_dag-IsSettled,
  Checked-cases, returned-inj, validate_dag_iff,
}
use ztrade_ares_7x.Dag.Loop.{flatten, total-flatten}
use ztrade_ares_7x.Dag.Repeats.{all_rounds}
use ztrade_ares_7x.Dag.Layers.{rounds-IsSchedule}

-- What is true of the tasks if `topological_layers` raises the fault.
abbrev pub Explains : List Task → Fault → Type 0
Explains tasks (incomplete processed n) = (¬ Distinct (ids tasks)) × IsAcyclic tasks × processed < n
Explains tasks fault = IsTrue (ids tasks) (graph tasks) fault

IsTrue-Explains :
    (tasks : List Task) (fault : Fault)
    → IsTrue (ids tasks) (graph tasks) fault
    → Explains tasks fault
IsTrue-Explains tasks (unknown_dependency task dep) h = h
IsTrue-Explains tasks (cycle_detected p) h = h
IsTrue-Explains tasks (incomplete processed n) h = absurd h
IsTrue-Explains tasks out_of_fuel h = absurd h

check_total-raised :
    (tasks : List Task) (layers : List (List String)) (fault : Fault)
    → check_total tasks layers ≡ raised fault
    → (total layers ≢ length tasks) × (incomplete (total layers) (length tasks) ≡ fault)
check_total-raised tasks layers fault h = (λ same. ground (arith, same), ground arith)

-- What the test of the total raises in a validated graph.
incomplete-Explains :
    (tasks : List Task) (fault : Fault)
    → IsSettled tasks
    → IsAcyclic tasks
    → (rounds tasks (length tasks) (in_degree tasks) (start_queue tasks) >>= check_total tasks)
      ≡ raised fault
    → Explains tasks fault
incomplete-Explains tasks fault settled acyclic h =
    let (layers, e, once, listed) = all_rounds tasks in
    let (apart, same) =
      check_total-raised tasks layers fault (sym (ap (λ m. m >>= check_total tasks) e) ∙ h) in
    let repeated : ¬ Distinct (ids tasks) = λ d.
      let (layers', e', _, all_of) = rounds-IsSchedule tasks d settled in
      apart (ap total (returned-inj layers layers' (sym e ∙ e')) ∙ all_of) in
    let fits = Distinct-le (flatten layers) (ids tasks) once listed in
    let fewer : total layers < length tasks =
      ground (arith, apart, fits, total-flatten layers, length-ids tasks) in
    subst (Explains tasks) same (repeated, acyclic, fewer)

-- If `topological_layers` raises, in whichever order it walks through the set of ids, either the
-- fault of `validate_dag` is true, or two tasks have
-- one id, although there is no cycle, and fewer ids than tasks were processed. So both loops end:
-- the fuel of the model is enough.
pub topological_layers-Explains :
    (visits : List String) (tasks : List Task) (fault : Fault)
    → IsOrder visits tasks
    → topological_layers visits tasks ≡ raised fault
    → Explains tasks fault
unfolding topological_layers
topological_layers-Explains visits tasks fault order h =
    elim (Checked-cases (validate_dag visits tasks)) [
      | inl (f, e) ↦
          let named = sym (ap (λ m. m >>= after) e) ∙ h in
          let same : f ≡ fault = cc named in
          subst (Explains tasks) same
            (IsTrue-Explains tasks f (validate_dag-IsTrue visits tasks f order e))
      | inr (tt, e) ↦
          let settled = validate_dag-IsSettled visits tasks tt order e in
          let (_, acyclic) = (validate_dag_iff visits tasks order).0 e in
          incomplete-Explains tasks fault settled acyclic (sym (ap (λ m. m >>= after) e) ∙ h)
    ]
  where
    after : Unit {0} → Checked (List (List String))
    after _ =
        rounds tasks (length tasks) (in_degree tasks) (start_queue tasks) >>= check_total tasks
