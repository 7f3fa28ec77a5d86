-- ===== src/Dag/Rounds.antt =====
-- The `while` loop of `topological_layers` in ar724/dag.py: what holds before each round.
use ztrade_ares_7x.Base.{
  length, In, In-append_left, In-append_right, In-append, Distinct, Apart, Distinct-append,
  Distinct-left, ℕ, ◌+◌, ◌-◌, ◌≤◌, ◌<◌, String, ◌≡◌, refl, sym, ◌∙◌, ap, ◌⊎◌, inl, inr, List, [],
  ◌∷◌, ◌++◌, arith,
}
use ztrade_ares_7x.Base.Int.{pos}
use ztrade_ares_7x.Dag.{ids, graph, Degrees, downstream, relax, Task}
use ztrade_ares_7x.Dag.Validate.{graph-In}
use ztrade_ares_7x.Dag.Counting.{
  occurrences, hits, hits-append, hits-le, hits-full, hits-all, downstream-hits,
}
use ztrade_ares_7x.Dag.Relax.{fresh, relax-degree, fresh-lost, zero-cases, lost-fresh}
use ztrade_ares_7x.Dag.Spent.{fresh-Distinct}
use ztrade_ares_7x.Dag.Loop.{Invariant}

-- Before a round: `done` are the tasks of the earlier layers and `layer` is the queue. A counter
-- says how many entries of the task's `depends_on` are not done.
pub record Round (tasks : List Task) (done layer : List String) (deg : Degrees) : Type 0 where
  pub once : Distinct (done ++ layer)
  pub listed : (x : String) → In x (done ++ layer) → In x (ids tasks)
  pub degrees :
      (x : String)
      → (n : ℕ) × (deg x ≡ pos n) × (n + hits done (graph tasks x) ≡ length (graph tasks x))
  pub met : (x : String) → In x (ids tasks) → deg x ≡ pos 0 → In x (done ++ layer)
  pub ready : (x : String) → In x (done ++ layer) → (d : String) → In d (graph tasks x) → In d done

pos-inj : (m n : ℕ) → pos m ≡ pos n → m ≡ n
pos-inj m n e = cc

some-In : (xs : List String) → 0 < length xs → (x : String) × In x xs
some-In [] h = absurd (omega arith)
some-In (x ∷ xs) h = (x, inl refl)

module _ (tasks : List Task) (ids_once : Distinct (ids tasks)) where
  module _ (done layer : List String) (deg : Degrees) (r : Round tasks done layer deg) where
    -- What a task loses in the round is what the layer has of its dependencies.
    losses :
        (x : String)
        → (n : ℕ) × (deg x ≡ pos n)
          × (occurrences x (downstream tasks layer) ≤ n)
          × (n + hits done (graph tasks x) ≡ length (graph tasks x))
          × (occurrences x (downstream tasks layer) ≡ hits layer (graph tasks x))
    losses x =
        let (n, e, balance) = r.degrees x in
        let lost = downstream-hits tasks x layer ids_once in
        let bound = hits-le (done ++ layer) (graph tasks x) r.once in
        (
          n,
          e,
          omega (arith, balance, lost, bound, hits-append done layer (graph tasks x)),
          balance,
          lost,
        )

    abbrev next : List String
    next = fresh deg (downstream tasks layer)

    -- A queued task had dependencies left, and the round met them all.
    next-lost :
        (x : String)
        → In x next
        → (n : ℕ) × (0 < n)
          × (deg x ≡ pos n)
          × (n ≡ hits layer (graph tasks x))
          × (n + hits done (graph tasks x) ≡ length (graph tasks x))
    next-lost x m =
        let (n, e, le, balance, lost) = losses x in
        let (all_of, some_of) = fresh-lost deg (downstream tasks layer) x n e le m in
        (n, some_of, e, all_of ∙ lost, balance)

    next-Apart : Apart (done ++ layer) next
    next-Apart x m i =
        let (n, some_of, e, lost, balance) = next-lost x i in
        let full = hits-all done (graph tasks x) (Distinct-left done layer r.once) (r.ready x m) in
        absurd (omega (arith, some_of, balance, full))

    next-Round : Round tasks (done ++ layer) next (relax deg [] (downstream tasks layer)).0
    next-Round = record {
      once =
          Distinct-append (done ++ layer) next r.once (fresh-Distinct deg (downstream tasks layer))
            next-Apart;
      listed = λ x m. listed x (In-append x (done ++ layer) next m);
      degrees = lowered;
      met = met;
      ready = λ x m. ready x (In-append x (done ++ layer) next m);
    }
      where
        listed : (x : String) → In x (done ++ layer) ⊎ In x next → In x (ids tasks)
        listed x (inl m) = r.listed x m
        listed x (inr m) =
            let (n, some_of, e, lost, balance) = next-lost x m in
            let (d, i) = some-In (graph tasks x) (omega (arith, some_of, balance)) in
            graph-In tasks x d i

        lowered :
            (x : String)
            → (n : ℕ) × ((relax deg [] (downstream tasks layer)).0 x ≡ pos n)
              × (n + hits (done ++ layer) (graph tasks x) ≡ length (graph tasks x))
        lowered x =
            let (n, e, le, balance, lost) = losses x in
            (
              n - occurrences x (downstream tasks layer),
              relax-degree deg [] (downstream tasks layer) x n e le,
              omega (arith, le, balance, lost, hits-append done layer (graph tasks x)),
            )

        met :
            (x : String)
            → In x (ids tasks)
            → (relax deg [] (downstream tasks layer)).0 x ≡ pos 0
            → In x ((done ++ layer) ++ next)
        met x m e =
            let (n, before, le, balance, lost) = losses x in
            let after = relax-degree deg [] (downstream tasks layer) x n before le in
            let left = pos-inj (n - occurrences x (downstream tasks layer)) 0 (sym after ∙ e) in
            elim (zero-cases n) [
              | inl none_left ↦
                  In-append_left x (done ++ layer) next (r.met x m (before ∙ ap pos none_left))
              | inr some_left ↦
                  let all_lost : n ≡ occurrences x (downstream tasks layer) =
                    omega (arith, le, left) in
                  In-append_right x (done ++ layer) next (
                    lost-fresh deg (downstream tasks layer) x (before ∙ ap pos all_lost)
                      (omega (arith, some_left, all_lost)))
            ]

        ready :
            (x : String)
            → In x (done ++ layer) ⊎ In x next
            → (d : String) → In d (graph tasks x)
            → In d (done ++ layer)
        ready x (inl m) d i = In-append_left d done layer (r.ready x m d i)
        ready x (inr m) d i =
            let (n, some_of, e, lost, balance) = next-lost x m in
            hits-full (done ++ layer) (graph tasks x) r.once
              (omega (arith, lost, balance, hits-append done layer (graph tasks x))) d i

-- All that the tasks of a layer depend on is done.
abbrev pub IsMet : List Task → List String → List String → Type 0
IsMet tasks done l = (x : String) → In x l → (d : String) → In d (graph tasks x) → In d done

pub Round-Invariant :
    (tasks : List Task) → Distinct (ids tasks) → Invariant tasks (IsMet tasks) (Round tasks)
Round-Invariant tasks once = record {
  once = λ done layer deg r. r.once;
  listed = λ done layer deg r. r.listed;
  holds = λ done layer deg r x m. r.ready x (In-append_right x done layer m);
  kept = next-Round tasks once;
}
