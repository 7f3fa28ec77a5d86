-- ===== src/Dag/Marks.antt =====
-- The loops of `annotate_layers` in ar724/dag.py, seen from one task.
use ztrade_ares_7x.Base.{
  if◌then◌else◌, Bool-cases, In, In-append_left, In-append_right, among, Distinct, absent, ℕ, suc,
  String, ◌≡◌, refl, sym, ◌∙◌, ap, subst, inl, inr, false, List, [], ◌∷◌, map, arith, str_eq,
  eq_iff,
}
use ztrade_ares_7x.Dag.{ids, set_layer, set_layers, annotate_from, Task}
use ztrade_ares_7x.Dag.Loop.{flatten}

-- Writing one layer's index into a task.
abbrev pub mark : List String → ℕ → Task → Task
mark l index t = if among l t.id then record t { layer = index } else t

-- Writing all of them, one after the other.
abbrev pub relayer : ℕ → List (List String) → Task → Task
relayer index [] t = t
relayer index (l ∷ ls) t = relayer (suc index) ls (mark l index t)

pub mark-id : (l : List String) (index : ℕ) (t : Task) → (mark l index t).id ≡ t.id
mark-id l index t = ground arith

ids-mark :
    (l : List String) (index : ℕ) (tasks : List Task) → ids (map (mark l index) tasks) ≡ ids tasks
ids-mark l index [] = refl
ids-mark l index (t ∷ ts) = ground (arith, mark-id l index t, ids-mark l index ts)

unmarked :
    (x : String) (index : ℕ) (tasks : List Task)
    → among (ids tasks) x ≡ false
    → map (mark (x ∷ []) index) tasks ≡ tasks
unmarked x index [] h = refl
unmarked x index (t ∷ ts) h = ground (arith, unmarked x index ts, eq_iff x t.id, eq_iff t.id x)

set_layer-mark :
    (x : String) (index : ℕ) (tasks : List Task)
    → Distinct (ids tasks)
    → set_layer x index tasks ≡ map (mark (x ∷ []) index) tasks
set_layer-mark x index [] d = refl
set_layer-mark x index (t ∷ ts) d = elim (Bool-cases (str_eq t.id x)) [
  | inl e ↦
      let others =
        unmarked x index ts (subst (λ z. among (ids ts) z ≡ false) ((eq_iff t.id x).0 e) d.0) in
      rw e (ap (λ us. record t { layer = index } ∷ us) (sym others))
  | inr e ↦ rw e (ap (λ us. t ∷ us) (set_layer-mark x index ts d.1))
]

mark-mark :
    (x : String) (l : List String) (index : ℕ) (tasks : List Task)
    → map (mark l index) (map (mark (x ∷ []) index) tasks) ≡ map (mark (x ∷ l) index) tasks
mark-mark x l index [] = refl
mark-mark x l index (t ∷ ts) =
    ap (λ us. here ∷ us) (mark-mark x l index ts) ∙ ap (λ u. u ∷ map (mark (x ∷ l) index) ts) both
  where
    here : Task
    here = mark l index (mark (x ∷ []) index t)

    both : here ≡ mark (x ∷ l) index t
    both = elim (Bool-cases (str_eq t.id x)) [
      | inl e ↦ rw e (elim (Bool-cases (among l t.id)) [ inl f ↦ rw f | inr f ↦ rw f ])
      | inr e ↦ rw e
    ]

unmark : (index : ℕ) (tasks : List Task) → map (mark [] index) tasks ≡ tasks
unmark index [] = refl
unmark index (t ∷ ts) = ap (λ us. t ∷ us) (unmark index ts)

set_layers-mark :
    (l : List String) (index : ℕ) (tasks : List Task)
    → Distinct (ids tasks)
    → set_layers l index tasks ≡ map (mark l index) tasks
set_layers-mark [] index tasks d = sym (unmark index tasks)
set_layers-mark (x ∷ l) index tasks d =
    let marked = map (mark (x ∷ []) index) tasks in
    ap (set_layers l index) (set_layer-mark x index tasks d)
    ∙ set_layers-mark l index marked (subst Distinct (sym (ids-mark (x ∷ []) index tasks)) d)
    ∙ mark-mark x l index tasks

relayer-map :
    (index : ℕ) (layers : List (List String)) (l : List String) (tasks : List Task)
    → map (relayer (suc index) layers) (map (mark l index) tasks)
      ≡ map (relayer index (l ∷ layers)) tasks
relayer-map index layers l [] = refl
relayer-map index layers l (t ∷ ts) =
    ap (λ us. relayer index (l ∷ layers) t ∷ us) (relayer-map index layers l ts)

relayer-nil : (index : ℕ) (tasks : List Task) → map (relayer index []) tasks ≡ tasks
relayer-nil index [] = refl
relayer-nil index (t ∷ ts) = ap (λ us. t ∷ us) (relayer-nil index ts)

-- For different ids the nested loops write into each task the index of the layer that has it.
pub annotate_from-relayer :
    (index : ℕ) (layers : List (List String)) (tasks : List Task)
    → Distinct (ids tasks)
    → annotate_from index layers tasks ≡ map (relayer index layers) tasks
annotate_from-relayer index [] tasks d = sym (relayer-nil index tasks)
annotate_from-relayer index (l ∷ ls) tasks d =
    ap (annotate_from (suc index) ls) (set_layers-mark l index tasks d)
    ∙ annotate_from-relayer (suc index) ls (map (mark l index) tasks)
        (subst Distinct (sym (ids-mark l index tasks)) d)
    ∙ relayer-map index ls l tasks

-- A task of no layer keeps the value that it has.
pub relayer-other :
    (index : ℕ) (layers : List (List String)) (t : Task)
    → ¬ In t.id (flatten layers)
    → (relayer index layers t).layer ≡ t.layer
relayer-other index [] t h = refl
relayer-other index (l ∷ ls) t h =
    let outside = absent t.id l (λ m. h (In-append_left t.id l (flatten ls) m)) in
    rw (relayer, outside)
      (relayer-other (suc index) ls t (λ m. h (In-append_right t.id l (flatten ls) m)))

pub relayer-keeps :
    (index : ℕ) (layers : List (List String)) (t : Task)
    → ((relayer index layers t).id ≡ t.id) × ((relayer index layers t).depends_on ≡ t.depends_on)
relayer-keeps index [] t = (refl, refl)
relayer-keeps index (l ∷ ls) t = elim (Bool-cases (among l t.id)) [
  | inl e ↦ rw (relayer, e) (relayer-keeps (suc index) ls (record t { layer = index }))
  | inr e ↦ rw (relayer, e) (relayer-keeps (suc index) ls t)
]
