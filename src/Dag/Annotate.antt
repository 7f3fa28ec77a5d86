-- ===== src/Dag/Annotate.antt =====
-- What `annotate_layers` in ar724/dag.py writes into the tasks.
use ztrade_ares_7x.Base.{
  Bool-cases, In, In-append_left, In-append_right, In-append, In-map, map-In, among, among→In,
  In→among, Distinct, Apart, absent, Distinct-right, Distinct-Apart, ℕ, suc, ◌<◌, String, ◌≡◌, refl,
  sym, ◌∙◌, ap, subst, ◌⊎◌, inl, inr, List, [], ◌∷◌, ◌++◌, map, append_assoc, arith, eq_iff,
}
use ztrade_ares_7x.Dag.{
  ◌>>=◌, ids, graph, topological_layers, annotate_from, annotate_layers, Task, returned,
}
use ztrade_ares_7x.Dag.Validate.{IsOrder, Checked-cases, returned-inj}
use ztrade_ares_7x.Dag.Loop.{flatten, Layerwise}
use ztrade_ares_7x.Dag.Rounds.{IsMet}
use ztrade_ares_7x.Dag.Layers.{topological_layers-IsSchedule, topological_layers_iff, IsSchedule}
use ztrade_ares_7x.Dag.Marks.{
  mark, relayer, mark-id, annotate_from-relayer, relayer-other, relayer-keeps,
}

-- Either the task has its layer, which is below `index`, or one of the layers to come has it.
abbrev IsPlaced : ℕ → List String → List String → Task → Type 0
IsPlaced index done later u = (In u.id done × u.layer < index) ⊎ In u.id later

-- Where the layers are in order, a task's layer is after that of a task that it depends on.
relayer-before :
    (tasks : List Task) (t u : Task) (index : ℕ) (done : List String) (layers : List (List String))
    → Layerwise (IsMet tasks) done layers
    → Distinct (done ++ flatten layers)
    → In u.id (graph tasks t.id)
    → In t.id (flatten layers)
    → IsPlaced index done (flatten layers) u
    → (relayer index layers u).layer < (relayer index layers t).layer
relayer-before tasks t u index done [] o d dep m b = absurd m
relayer-before tasks t u index done (l ∷ ls) o d dep m b = elim (In-append t.id l (flatten ls) m) [
  | inl now ↦
      let dep_done = o.0 t.id now u.id dep in
      let t_now : (relayer index (l ∷ ls) t).layer ≡ index =
        rw (relayer, In→among l t.id now)
          (relayer-other (suc index) ls (record t { layer = index }) (apart t.id now)) in
      let u_keeps =
        relayer-other index (l ∷ ls) u (Distinct-Apart done (l ++ flatten ls) d u.id dep_done) in
      omega (arith, t_now, u_keeps, u_before dep_done b)
  | inr later ↦
      let outside = absent t.id l (λ i. apart t.id i later) in
      let rest =
        relayer-before tasks t (mark l index u) (suc index) (done ++ l) ls o.1
          (subst Distinct (sym (append_assoc done l (flatten ls))) d)
          (subst (λ x. In x (graph tasks t.id)) (sym (mark-id l index u)) dep) later (u_next b) in
      let t_same : (relayer index (l ∷ ls) t).layer ≡ (relayer (suc index) ls t).layer =
        rw (relayer, outside) refl in
      subst (λ n. (relayer index (l ∷ ls) u).layer < n) (sym t_same) rest
]
  where
    apart : Apart l (flatten ls)
    apart = Distinct-Apart l (flatten ls) (Distinct-right done (l ++ flatten ls) d)

    u_before : In u.id done → IsPlaced index done (l ++ flatten ls) u → u.layer < index
    u_before i (inl (_, lt)) = lt
    u_before i (inr j) = absurd (Distinct-Apart done (l ++ flatten ls) d u.id i j)

    u_next :
        IsPlaced index done (l ++ flatten ls) u
        → IsPlaced (suc index) (done ++ l) (flatten ls) (mark l index u)
    u_next (inl (i, lt)) =
        let outside = absent u.id l (λ j.
          Distinct-Apart done (l ++ flatten ls) d u.id i (In-append_left u.id l (flatten ls) j)) in
        rw (mark, outside) (inl (In-append_left u.id done l i, omega arith))
    u_next (inr j) = elim (Bool-cases (among l u.id)) [
      | inl e ↦ rw (mark, e) (inl (In-append_right u.id done l (among→In l u.id e), omega arith))
      | inr e ↦ elim (In-append u.id l (flatten ls) j) [
        | inl k ↦ absurd (cc (e, In→among l u.id k))
        | inr k ↦ rw (mark, e) (inr k)
      ]
    ]

graph-own :
    (tasks : List Task) (t : Task)
    → Distinct (ids tasks)
    → In t tasks
    → graph tasks t.id ≡ t.depends_on
graph-own [] t d m = absurd m
graph-own (s ∷ ss) t d (inl e) =
    subst (λ u. graph (s ∷ ss) u.id ≡ u.depends_on) (sym e) (rw (d.0, (eq_iff s.id s.id).1 refl))
graph-own (s ∷ ss) t d (inr m) =
    rw (In→among (ids ss) t.id (map-In (λ u. u.id) t ss m)) (graph-own ss t d.1 m)

map-same :
    {B : Type 0} (f : Task → B) (h : Task → Task)
    → ((t : Task) → f (h t) ≡ f t)
    → (tasks : List Task) → map f (map h tasks) ≡ map f tasks
map-same f h e [] = refl
map-same f h e (t ∷ ts) =
    ap (λ b. b ∷ map f (map h ts)) (e t) ∙ ap (λ bs. f t ∷ bs) (map-same f h e ts)

-- What `annotate_layers` makes of the tasks: it sets their layers and nothing else, and a task's
-- layer is after the layers of all that it depends on.
pub record IsAnnotated (tasks result : List Task) : Type 0 where
  pub same_ids : ids result ≡ ids tasks
  pub same_dependencies : map (λ t. t.depends_on) result ≡ map (λ t. t.depends_on) tasks
  pub after : (t u : Task) → In t result → In u result → In u.id t.depends_on → u.layer < t.layer

relayer-IsAnnotated :
    (tasks : List Task) (layers : List (List String))
    → Distinct (ids tasks)
    → IsSchedule tasks layers
    → IsAnnotated tasks (map (relayer 0 layers) tasks)
relayer-IsAnnotated tasks layers once schedule = record {
  same_ids = map-same (λ t. t.id) (relayer 0 layers) (λ t. (relayer-keeps 0 layers t).0) tasks;
  same_dependencies =
      map-same (λ t. t.depends_on) (relayer 0 layers) (λ t. (relayer-keeps 0 layers t).1) tasks;
  after = λ t u m n.
      let (t', mt, et) = In-map (relayer 0 layers) t tasks m in
      let (u', mu, eu) = In-map (relayer 0 layers) u tasks n in
      subst (λ t. In u.id t.depends_on → u.layer < t.layer) et
        (subst
          (λ u. In u.id (relayer 0 layers t').depends_on → u.layer < (relayer 0 layers t').layer) eu
          (later t' u' mt mu));
}
  where
    placed : (t : Task) → In t tasks → In t.id (flatten layers)
    placed t m = (schedule.every t.id).1 (map-In (λ u. u.id) t tasks m)

    later :
        (t u : Task)
        → In t tasks
        → In u tasks
        → In (relayer 0 layers u).id (relayer 0 layers t).depends_on
        → (relayer 0 layers u).layer < (relayer 0 layers t).layer
    later t u mt mu i =
        let own = graph-own tasks t once mt in
        let named =
          subst (λ x. In x (relayer 0 layers t).depends_on) (relayer-keeps 0 layers u).0 i in
        let dep = subst (In u.id) ((relayer-keeps 0 layers t).1 ∙ sym own) named in
        relayer-before tasks t u 0 [] layers schedule.ordered schedule.once dep (placed t mt)
          (inr (placed u mu))

-- What `annotate_layers` returns, in whichever order the set of ids is walked through, is
-- annotated: the layers are set so that a task's is after those
-- of all that it depends on, and nothing else is changed.
annotate_layers-IsAnnotated :
    (visits : List String) (tasks result : List Task)
    → IsOrder visits tasks
    → annotate_layers visits tasks ≡ returned result
    → IsAnnotated tasks result
unfolding annotate_layers
annotate_layers-IsAnnotated visits tasks result order h =
    elim (Checked-cases (topological_layers visits tasks)) [
      | inl (f, e) ↦ absurd (cc (h, e))
      | inr (layers, e) ↦
          let once = ((topological_layers_iff visits tasks order).0 (layers, e)).0 in
          let schedule = topological_layers-IsSchedule visits tasks layers order e in
          let written = ap (λ m. m >>= λ ls. returned (annotate_from 0 ls tasks)) e in
          let both =
            sym (annotate_from-relayer 0 layers tasks once)
            ∙ returned-inj _ result (sym written ∙ h) in
          subst (IsAnnotated tasks) both (relayer-IsAnnotated tasks layers once schedule)
    ]
