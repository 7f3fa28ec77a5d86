-- ===== src/Dag/Examples.antt =====
-- The theorems on ar724/dag.py at the tasks of a diamond, at a cycle and at two tasks of one id.
use ztrade_ares_7x.Base.{Distinct, String, ◌≡◌, refl, ◌↔◌, List, [], ◌∷◌}
use ztrade_ares_7x.Dag.{
  ids, validate_dag, topological_layers, annotate_layers, phase_job_dag_for_roles, Task,
  cycle_detected, incomplete, raised, returned,
}
use ztrade_ares_7x.Dag.Validate.{IsOrder, IsKnown, IsAcyclic, validate_dag_iff}
use ztrade_ares_7x.Dag.Layers.{topological_layers-IsSchedule, topological_layers_iff, IsSchedule}
use ztrade_ares_7x.Dag.Faults.{Explains, topological_layers-Explains}

abbrev task : String → List String → Task
task name deps = record { id = name; depends_on = deps; layer = 0 }

abbrev diamond : List Task
diamond =
    task "C" ("B1" ∷ ("B2" ∷ []))
    ∷ (task "A" [] ∷ (task "B1" ("A" ∷ []) ∷ (task "B2" ("A" ∷ []) ∷ [])))

abbrev looped : List Task
looped = task "A" ("B" ∷ []) ∷ (task "B" ("A" ∷ []) ∷ [])

abbrev doubled : List Task
doubled = task "A" [] ∷ (task "A" [] ∷ [])

ids-IsOrder : (tasks : List Task) → IsOrder (ids tasks) tasks
ids-IsOrder tasks x = (λ m. m, λ m. m)

abbrev diamond_layers : List (List String)
diamond_layers = ("A" ∷ []) ∷ (("B1" ∷ ("B2" ∷ [])) ∷ (("C" ∷ []) ∷ []))

diamond-layers : topological_layers (ids diamond) diamond ≡ returned diamond_layers
unfolding topological_layers
diamond-layers = refl

doubled-fault : topological_layers (ids doubled) doubled ≡ raised (incomplete 1 2)
unfolding topological_layers
doubled-fault = refl

looped-fault : validate_dag (ids looped) looped ≡ raised (cycle_detected ("A" ∷ ("B" ∷ ("A" ∷ []))))
unfolding validate_dag
looped-fault = refl

-- Each of the phases is a layer of its own.
phases-layers :
    topological_layers (ids phase_job_dag_for_roles) phase_job_dag_for_roles
    ≡ returned (
        ("proposer" ∷ [])
        ∷ (("builder" ∷ [])
            ∷ (("validator" ∷ [])
                ∷ (("evaluator" ∷ []) ∷ (("reviewer" ∷ []) ∷ (("promoter" ∷ []) ∷ []))))))
unfolding topological_layers
phases-layers = refl

abbrev annotated : List Task
annotated =
    record { id = "C"; depends_on = "B1" ∷ ("B2" ∷ []); layer = 2 }
    ∷ (task "A" []
        ∷ (record { id = "B1"; depends_on = "A" ∷ []; layer = 1 }
            ∷ (record { id = "B2"; depends_on = "A" ∷ []; layer = 1 } ∷ [])))

diamond-annotated : annotate_layers (ids diamond) diamond ≡ returned annotated
unfolding annotate_layers
diamond-annotated = refl

validate_dag_iff_example :
    (validate_dag (ids diamond) diamond ≡ returned tt) ↔ (IsKnown diamond × IsAcyclic diamond)
validate_dag_iff_example = validate_dag_iff (ids diamond) diamond (ids-IsOrder diamond)

topological_layers-IsSchedule_example : IsSchedule diamond diamond_layers
topological_layers-IsSchedule_example =
    topological_layers-IsSchedule (ids diamond) diamond diamond_layers (ids-IsOrder diamond)
      diamond-layers

topological_layers_iff_example :
    ((layers : List (List String)) × (topological_layers (ids diamond) diamond ≡ returned layers))
    ↔ (Distinct (ids diamond) × IsKnown diamond × IsAcyclic diamond)
topological_layers_iff_example = topological_layers_iff (ids diamond) diamond (ids-IsOrder diamond)

topological_layers-Explains_example : Explains doubled (incomplete 1 2)
topological_layers-Explains_example =
    topological_layers-Explains (ids doubled) doubled (incomplete 1 2) (ids-IsOrder doubled)
      doubled-fault
