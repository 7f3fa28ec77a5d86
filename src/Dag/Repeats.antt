-- ===== src/Dag/Repeats.antt =====
-- `topological_layers` of ar724/dag.py where several tasks may have one id.
use ztrade_ares_7x.Base.{
  if◌then◌else◌, Bool-cases, length, In, In-append_left, In-append, select-In, among, Distinct,
  Apart, absent-In, Distinct-append, Distinct-left, Distinct-select, Distinct-full, String, ◌≡◌,
  refl, sym, ◌∙◌, ap, subst, ◌⊎◌, inl, inr, Bool, false, List, [], ◌∷◌, ◌++◌, arith, str_eq,
}
use ztrade_ares_7x.Dag.{
  ◌>>=◌, ids, keys_from, is_zero, Degrees, in_degree, once_each, dependents, downstream, relax,
  rounds, total, start_queue, check_total, Task, returned,
}
use ztrade_ares_7x.Dag.Validate.{length-ids}
use ztrade_ares_7x.Dag.Relax.{fresh}
use ztrade_ares_7x.Dag.Spent.{
  IsSpent, is_zero-IsSpent, relax-IsSpent, fresh-unspent, fresh-Distinct,
}
use ztrade_ares_7x.Dag.Loop.{flatten, total-flatten, rounds_rule, Invariant}

-- No id was queued twice so far, and no counter of a queued id will come to zero again.
record Unrepeated (tasks : List Task) (done layer : List String) (deg : Degrees) : Type 0 where
  once : Distinct (done ++ layer)
  listed : (x : String) → In x (done ++ layer) → In x (ids tasks)
  spent : (x : String) → In x (done ++ layer) → IsSpent (deg x)

once_each-In : (x t tid : String) (ds : List String) → In x (once_each t tid ds) → x ≡ t
once_each-In x t tid [] m = absurd m
once_each-In x t tid (d ∷ ds) m = elim (Bool-cases (str_eq d tid)) [
  | inl e ↦ elim (rw e at m) as (λ _. x ≡ t) [ inl same ↦ same | inr i ↦ once_each-In x t tid ds i ]
  | inr e ↦ once_each-In x t tid ds (rw e at m)
]

dependents-In :
    (tasks : List Task) (tid x : String) → In x (dependents tasks tid) → In x (ids tasks)
dependents-In [] tid x m = absurd m
dependents-In (t ∷ ts) tid x m =
    elim (In-append x (once_each t.id tid t.depends_on) (dependents ts tid) m) [
      | inl i ↦ inl (once_each-In x t.id tid t.depends_on i)
      | inr i ↦ inr (dependents-In ts tid x i)
    ]

downstream-In :
    (tasks : List Task) (layer : List String) (x : String)
    → In x (downstream tasks layer)
    → In x (ids tasks)
downstream-In tasks [] x m = absurd m
downstream-In tasks (tid ∷ tids) x m =
    elim (In-append x (dependents tasks tid) (downstream tasks tids) m) [
      | inl i ↦ dependents-In tasks tid x i
      | inr i ↦ downstream-In tasks tids x i
    ]

next-Unrepeated :
    (tasks : List Task) (done layer : List String) (deg : Degrees)
    → Unrepeated tasks done layer deg
    → Unrepeated tasks
        (done ++ layer)
        (fresh deg (downstream tasks layer))
        (relax deg [] (downstream tasks layer)).0
next-Unrepeated tasks done layer deg u = record {
  once =
      Distinct-append (done ++ layer) next u.once (fresh-Distinct deg ds)
        (λ x m i. (fresh-unspent deg [] ds x i).1 (u.spent x m));
  listed = λ x m. elim (In-append x (done ++ layer) next m) [
    | inl i ↦ u.listed x i
    | inr i ↦ downstream-In tasks layer x (fresh-unspent deg [] ds x i).0
  ];
  spent = λ x m. elim (In-append x (done ++ layer) next m) [
    | inl i ↦ relax-IsSpent deg [] ds x (u.spent x i)
    | inr i ↦ (fresh-unspent deg [] ds x i).2
  ];
}
  where
    ds : List String
    ds = downstream tasks layer

    next : List String
    next = fresh deg ds

keys-Distinct : (so_far xs : List String) → Distinct so_far → Distinct (keys_from so_far xs)
keys-Distinct so_far [] d = d
keys-Distinct so_far (x ∷ xs) d = elim (Bool-cases (among so_far x)) [
  | inl e ↦ rw e (keys-Distinct so_far xs d)
  | inr e ↦
      rw e (
        keys-Distinct (so_far ++ x ∷ []) xs
          (Distinct-append so_far (x ∷ []) d (refl, tt) (apart e)))
]
  where
    apart : among so_far x ≡ false → Apart so_far (x ∷ [])
    apart e y m (inl same) = absent-In x so_far e (subst (λ z. In z so_far) same m)
    apart e y m (inr i) = i

keys-In :
    (so_far xs : List String) (y : String) → In y (keys_from so_far xs) → In y so_far ⊎ In y xs
keys-In so_far [] y m = inl m
keys-In so_far (x ∷ xs) y m =
    elim (keys-In (if among so_far x then so_far else so_far ++ x ∷ []) xs y m) [
      | inr i ↦ inr (inr i)
      | inl i ↦ elim (Bool-cases (among so_far x)) [
        | inl e ↦ inl (rw e at i)
        | inr e ↦ elim (In-append y so_far (x ∷ []) (rw e at i)) [
          | inl j ↦ inl j
          | inr (inl same) ↦ inr (inl same)
          | inr (inr j) ↦ absurd j
        ]
      ]
    ]

start-Unrepeated : (tasks : List Task) → Unrepeated tasks [] (start_queue tasks) (in_degree tasks)
start-Unrepeated tasks = record {
  once = Distinct-select first keys (keys-Distinct [] (ids tasks) tt);
  listed = λ x m. listed x (keys-In [] (ids tasks) x (select-In first x keys m).0);
  spent = λ x m. is_zero-IsSpent (in_degree tasks x) (select-In first x keys m).1;
}
  where
    first : String → Bool
    first x = is_zero (in_degree tasks x)

    keys : List String
    keys = keys_from [] (ids tasks)

    listed : (x : String) → In x [] ⊎ In x (ids tasks) → In x (ids tasks)
    listed x (inl i) = absurd i
    listed x (inr i) = i

Unrepeated-Invariant : (tasks : List Task) → Invariant tasks (λ done layer. Unit) (Unrepeated tasks)
Unrepeated-Invariant tasks = record {
  once = λ done layer deg u. u.once;
  listed = λ done layer deg u. u.listed;
  holds = λ done layer deg u. tt;
  kept = next-Unrepeated tasks;
}

-- The loop of `topological_layers`, for any tasks.
pub all_rounds :
    (tasks : List Task)
    → (layers : List (List String)) × (rounds tasks
          (length tasks)
          (in_degree tasks)
          (start_queue tasks)
        ≡ returned layers)
      × Distinct (flatten layers)
      × ((x : String) → In x (flatten layers) → In x (ids tasks))
all_rounds tasks =
    let (layers, e, _, deg, u) =
      rounds_rule tasks (λ done layer. Unit) (Unrepeated tasks) (Unrepeated-Invariant tasks)
        (length tasks) [] (start_queue tasks) (in_degree tasks) (start-Unrepeated tasks)
        (omega (arith, length-ids tasks)) in
    (
      layers,
      e,
      Distinct-left (flatten layers) [] u.once,
      λ x m. u.listed x (In-append_left x (flatten layers) [] m),
    )

check_total-eq :
    (tasks : List Task) (layers result : List (List String))
    → check_total tasks layers ≡ returned result
    → (total layers ≡ length tasks) × (layers ≡ result)
check_total-eq tasks layers result h = ground arith

-- The test of the total passes only where all ids are different.
pub check_total-Distinct :
    (tasks : List Task) (layers : List (List String))
    → (rounds tasks (length tasks) (in_degree tasks) (start_queue tasks) >>= check_total tasks)
      ≡ returned layers
    → Distinct (ids tasks)
check_total-Distinct tasks layers h =
    let (found, e, once, listed) = all_rounds tasks in
    let (all_of, _) =
      check_total-eq tasks found layers (sym (ap (λ m. m >>= check_total tasks) e) ∙ h) in
    Distinct-full (ids tasks) (flatten found) once listed
      (omega (arith, all_of, total-flatten found, length-ids tasks))
