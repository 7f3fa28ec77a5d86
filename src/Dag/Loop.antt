-- ===== src/Dag/Loop.antt =====
-- The `while` loop of `topological_layers` in ar724/dag.py, for an invariant of its rounds.
use ztrade_ares_7x.Base.{
  length, length-append, In, Distinct, Distinct-le, ℕ, zero, suc, ◌+◌, ◌≤◌, String, ◌≡◌, refl, sym,
  ◌∙◌, ap, subst, List, [], ◌∷◌, ◌++◌, append-nil, append_assoc, arith,
}
use ztrade_ares_7x.Dag.{◌>>=◌, ids, Degrees, downstream, relax, rounds, total, Task, returned}
use ztrade_ares_7x.Dag.Relax.{fresh, relax-queue}

abbrev pub flatten : List (List String) → List String
flatten [] = []
flatten (l ∷ ls) = l ++ flatten ls

pub total-flatten : (layers : List (List String)) → total layers ≡ length (flatten layers)
total-flatten [] = refl
total-flatten (l ∷ ls) = omega (arith, total-flatten ls, length-append l (flatten ls))

-- `R` holds of each layer and what stands before it.
abbrev pub Layerwise :
    (List String → List String → Type 0) → List String → List (List String) → Type 0
Layerwise R done [] = Unit
Layerwise R done (l ∷ ls) = R done l × Layerwise R (done ++ l) ls

-- An invariant of the tasks done, the queue and the counters, which every round keeps. Under it no
-- id is queued twice and the ids are those of tasks, and `R` holds of what is done and the queue.
pub record Invariant (tasks : List Task) (R : List String → List String → Type 0)
    (P : List String → List String → Degrees → Type 0) : Type 0 where
  pub once :
      (done layer : List String) (deg : Degrees) → P done layer deg → Distinct (done ++ layer)
  pub listed :
      (done layer : List String) (deg : Degrees)
      → P done layer deg
      → (x : String) → In x (done ++ layer)
      → In x (ids tasks)
  pub holds : (done layer : List String) (deg : Degrees) → P done layer deg → R done layer
  pub kept :
      (done layer : List String) (deg : Degrees)
      → P done layer deg
      → P
          (done ++ layer)
          (fresh deg (downstream tasks layer))
          (relax deg [] (downstream tasks layer)).0

module _ (tasks : List Task) (R : List String → List String → Type 0)
    (P : List String → List String → Degrees → Type 0) (inv : Invariant tasks R P) where
  -- The loop ends: each round processes a task that was not processed before.
  pub rounds_rule :
      (fuel : ℕ) (done layer : List String) (deg : Degrees)
      → P done layer deg
      → length (ids tasks) ≤ fuel + length done
      → (layers : List (List String)) × (rounds tasks fuel deg layer ≡ returned layers)
        × Layerwise R done layers
        × (deg' : Degrees) × P (done ++ flatten layers) [] deg'
  unfolding rounds
  rounds_rule fuel done [] deg p enough =
      ([], refl, tt, deg, subst (λ ps. P ps [] deg) (sym (append-nil done)) p)
  rounds_rule zero done (q ∷ qs) deg p enough =
      let fits =
        Distinct-le (done ++ q ∷ qs) (ids tasks) (inv.once done (q ∷ qs) deg p)
          (inv.listed done (q ∷ qs) deg p) in
      absurd (omega (arith, fits, length-append done (q ∷ qs)))
  rounds_rule (suc fuel) done (q ∷ qs) deg p enough =
      let ds = downstream tasks (q ∷ qs) in
      let deg' = (relax deg [] ds).0 in
      let (layers, e, each, last, end) =
        rounds_rule fuel (done ++ q ∷ qs) (fresh deg ds) deg' (inv.kept done (q ∷ qs) deg p)
          (omega (arith, length-append done (q ∷ qs))) in
      let ran = ap (λ next. rounds tasks fuel deg' next) (relax-queue deg [] ds) ∙ e in
      (
        (q ∷ qs) ∷ layers,
        ap (λ m. m >>= λ ls. returned ((q ∷ qs) ∷ ls)) ran,
        (inv.holds done (q ∷ qs) deg p, each),
        last,
        subst (λ ps. P ps [] last) (append_assoc done (q ∷ qs) (flatten layers)) end,
      )
