-- ===== src/Dag/Resolve.antt =====
-- What `resolve_dependencies` of ar724/dag.py returns.
use ztrade_ares_7x.Base.{
  if◌then◌else◌, Bool-cases, In, among, among→In, In→among, String, ◌≡◌, refl, sym, ◌∙◌, ap, subst,
  ◌↔◌, ◌⊎◌, inl, inr, false, Option, none, some, List, [], ◌∷◌, arith, str_eq, eq_iff,
}
use ztrade_ares_7x.Dag.{
  ids, graph, first_unknown, put, resolve_dependencies, Task, returned, resolve_all,
}
use ztrade_ares_7x.Dag.Validate.{returned-inj}

-- `dict.get(x, [])`
abbrev pub get : List (String × List String) → String → List String
get [] x = []
get ((k, v) ∷ rest) x = if str_eq k x then v else get rest x

get-put :
    (dict : List (String × List String)) (k : String) (v : List String) (x : String)
    → get (put dict k v) x ≡ (if str_eq k x then v else get dict x)
get-put [] k v x = refl
get-put ((k', v') ∷ rest) k v x =
    ground (arith, eq_iff k x, eq_iff k' x, eq_iff k' k, get-put rest k v x)

first_unknown-In :
    (all_ids ds : List String)
    → first_unknown all_ids ds ≡ none
    → (d : String) → In d ds
    → In d all_ids
first_unknown-In all_ids [] h d m = absurd m
first_unknown-In all_ids (y ∷ ds) h d m = elim (Bool-cases (among all_ids y)) [
  | inl e ↦ elim m as (λ _. In d all_ids) [
    | inl same ↦ subst (λ z. In z all_ids) (sym same) (among→In all_ids y e)
    | inr i ↦ first_unknown-In all_ids ds (rw e at h) d i
  ]
  | inr e ↦ absurd (cc (rw e at h))
]

In-first_unknown :
    (all_ids ds : List String)
    → ((d : String) → In d ds → In d all_ids)
    → first_unknown all_ids ds ≡ none
In-first_unknown all_ids [] h = refl
In-first_unknown all_ids (y ∷ ds) h =
    rw (In→among all_ids y (h y (inl refl))) (In-first_unknown all_ids ds (λ d m. h d (inr m)))

Option-cases : {A : Type 0} (o : Option A) → (o ≡ none) ⊎ ((a : A) × (o ≡ some a))
Option-cases none = inl refl
Option-cases (some a) = inr (a, refl)

-- What the loop adds to the dict: an entry for each task, the last of an id counting.
resolve_all-graph :
    (all_ids : List String) (tasks : List Task) (so_far dict : List (String × List String))
    → resolve_all all_ids tasks so_far ≡ returned dict
    → ((x : String) → get dict x ≡ (if among (ids tasks) x then graph tasks x else get so_far x))
      × ((t : Task) → In t tasks → (d : String) → In d t.depends_on → In d all_ids)
unfolding resolve_all
resolve_all-graph all_ids [] so_far dict h =
    (λ x. ap (λ d. get d x) (sym (returned-inj so_far dict h)), λ t m. absurd m)
resolve_all-graph all_ids (t ∷ ts) so_far dict h =
    elim (Option-cases (first_unknown all_ids t.depends_on)) [
      | inr (dep, e) ↦ absurd (cc (rw (e, resolve_all) at h))
      | inl e ↦
          let (contents, known) =
            resolve_all-graph all_ids ts (put so_far t.id t.depends_on) dict
              (rw (e, resolve_all) at h) in
          (λ x. contents x ∙ later x, known_all e known)
    ]
  where
    later :
        (x : String)
        → (if among (ids ts) x then graph ts x else get (put so_far t.id t.depends_on) x)
          ≡ (if among (ids (t ∷ ts)) x then graph (t ∷ ts) x else get so_far x)
    later x = ground (arith, get-put so_far t.id t.depends_on x, eq_iff x t.id, eq_iff t.id x)

    known_all :
        first_unknown all_ids t.depends_on ≡ none
        → ((s : Task) → In s ts → (d : String) → In d s.depends_on → In d all_ids)
        → (s : Task) → In s (t ∷ ts)
        → (d : String) → In d s.depends_on
        → In d all_ids
    known_all e known s (inl same) =
        λ d i. first_unknown-In all_ids t.depends_on e d (subst (λ u. In d u.depends_on) same i)
    known_all e known s (inr m) = known s m

resolve_all-returned :
    (all_ids : List String) (tasks : List Task) (so_far : List (String × List String))
    → ((t : Task) → In t tasks → (d : String) → In d t.depends_on → In d all_ids)
    → (dict : List (String × List String)) × (resolve_all all_ids tasks so_far ≡ returned dict)
unfolding resolve_all
resolve_all-returned all_ids [] so_far known = (so_far, refl)
resolve_all-returned all_ids (t ∷ ts) so_far known =
    rw (In-first_unknown all_ids t.depends_on (known t (inl refl)), resolve_all)
      (resolve_all-returned all_ids ts (put so_far t.id t.depends_on) (λ s m. known s (inr m)))

graph-absent : (tasks : List Task) (x : String) → among (ids tasks) x ≡ false → graph tasks x ≡ []
graph-absent [] x h = refl
graph-absent (t ∷ ts) x h = ground (arith, eq_iff x t.id, eq_iff t.id x)

-- The dict that `resolve_dependencies` returns has for each id what its last task depends on, and
-- nothing for other texts.
pub resolve_dependencies-graph :
    (tasks : List Task) (dict : List (String × List String)) (x : String)
    → resolve_dependencies tasks ≡ returned dict
    → get dict x ≡ graph tasks x
unfolding resolve_dependencies
resolve_dependencies-graph tasks dict x h =
    (resolve_all-graph (ids tasks) tasks [] dict h).0 x ∙ whole
  where
    whole : (if among (ids tasks) x then graph tasks x else []) ≡ graph tasks x
    whole = elim (Bool-cases (among (ids tasks) x)) [
      | inl e ↦ rw e
      | inr e ↦ rw e (sym (graph-absent tasks x e))
    ]

-- `resolve_dependencies` returns a dict exactly if every dependency of every task is an id.
resolve_dependencies_iff :
    (tasks : List Task)
    → ((dict : List (String × List String)) × (resolve_dependencies tasks ≡ returned dict))
      ↔ ((t : Task) → In t tasks → (d : String) → In d t.depends_on → In d (ids tasks))
unfolding resolve_dependencies
resolve_dependencies_iff tasks = (
  λ (dict, h). (resolve_all-graph (ids tasks) tasks [] dict h).1,
  resolve_all-returned (ids tasks) tasks [],
)
