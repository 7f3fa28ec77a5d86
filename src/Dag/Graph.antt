-- ===== src/Dag/Graph.antt =====
-- Dependencies as a relation, chains of them, and what the faults of ar724/dag.py claim.
use mathlib.Core.WellFounded.{Acc}
use ztrade_ares_7x.Base.{
  Bool-cases, In, among, String, ◌≡◌, sym, ap, subst, inl, inr, false, List, [], ◌∷◌, ◌++◌, str_eq,
  eq_iff,
}
use ztrade_ares_7x.Dag.{
  from, total, Fault, unknown_dependency, cycle_detected, incomplete, out_of_fuel,
}

-- `Depends g y x`: the task `x` depends on `y`.
abbrev pub Depends : (String → List String) → String → String → Type 0
Depends g y x = In y (g x)

-- From `x` some dependencies, one at least, lead to `z`.
pub data Reaches (g : String → List String) : String → String → Type 0 where
  direct : {x z : String} → In z (g x) → Reaches g x z
  over : {x z : String} → (y : String) → In y (g x) → Reaches g y z → Reaches g x z

-- Each entry depends on the next one.
abbrev pub IsChain : (String → List String) → List String → Type 0
IsChain g [] = Unit
IsChain g (x ∷ []) = Unit
IsChain g (x ∷ (y ∷ rest)) = In y (g x) × IsChain g (y ∷ rest)

-- A chain of two entries at least that ends where it starts.
abbrev pub IsCycle : (String → List String) → List String → Type 0
IsCycle g p = (x : String) × (mid : List String) × (p ≡ x ∷ (mid ++ x ∷ [])) × IsChain g p

-- What is true of the graph if the fault is raised.
abbrev pub IsTrue : List String → (String → List String) → Fault → Type 0
IsTrue all_ids g (unknown_dependency task dep) =
    In task all_ids × In dep (g task) × (among all_ids dep ≡ false)
IsTrue all_ids g (cycle_detected p) = IsCycle g p
IsTrue all_ids g (incomplete processed total) = ⊥
IsTrue all_ids g out_of_fuel = ⊥

pub IsChain-snoc :
    (g : String → List String) (p : List String) (y z : String)
    → IsChain g (p ++ y ∷ [])
    → In z (g y)
    → IsChain g ((p ++ y ∷ []) ++ z ∷ [])
IsChain-snoc g [] y z h m = (m, tt)
IsChain-snoc g (x ∷ []) y z h m = (h.0, (m, tt))
IsChain-snoc g (x ∷ (x' ∷ p)) y z h m = (h.0, IsChain-snoc g (x' ∷ p) y z h.1 m)

IsChain-tail :
    (g : String → List String) (x : String) (p : List String) → IsChain g (x ∷ p) → IsChain g p
IsChain-tail g x [] h = tt
IsChain-tail g x (y ∷ p) h = h.1

-- The part of a chain from an entry on is a chain with the same end.
pub from-IsChain :
    (g : String → List String) (x : String) (p : List String) (y : String)
    → In x (p ++ y ∷ [])
    → IsChain g (p ++ y ∷ [])
    → (q : List String) × (r : List String) × (from x (p ++ y ∷ []) ≡ q ++ y ∷ [])
      × (q ++ y ∷ [] ≡ x ∷ r)
      × IsChain g (q ++ y ∷ [])
from-IsChain g x [] y (inl e) h =
    ([], [], rw ((eq_iff y x).1 (sym e)), ap (λ z. z ∷ []) (sym e), tt)
from-IsChain g x [] y (inr m) h = absurd m
from-IsChain g x (z ∷ p) y m h = elim (Bool-cases (str_eq z x)) [
  | inl e ↦ (z ∷ p, p ++ y ∷ [], rw e, ap (λ w. w ∷ (p ++ y ∷ [])) ((eq_iff z x).0 e), h)
  | inr e ↦
      let (q, r, f, s, c) = from-IsChain g x p y (later e m) (IsChain-tail g z (p ++ y ∷ []) h) in
      (q, r, rw e f, s, c)
]
  where
    later : str_eq z x ≡ false → In x (z ∷ (p ++ y ∷ [])) → In x (p ++ y ∷ [])
    later e (inl same) = absurd (cc (e, (eq_iff z x).1 (sym same)))
    later e (inr i) = i

-- A cycle leads from its first entry back to it.
chain-Reaches :
    (g : String → List String) (x z : String) (mid : List String)
    → IsChain g (x ∷ (mid ++ z ∷ []))
    → Reaches g x z
chain-Reaches g x z [] h = direct h.0
chain-Reaches g x z (y ∷ mid) h = over y h.0 (chain-Reaches g y z mid h.1)

pub IsCycle-Reaches :
    (g : String → List String) (p : List String) → IsCycle g p → (x : String) × Reaches g x x
IsCycle-Reaches g p (x, mid, e, h) = (x, chain-Reaches g x x mid (subst (IsChain g) e h))

Reaches-snoc :
    (g : String → List String) {x y : String} (z : String)
    → Reaches g x y
    → In z (g y)
    → Reaches g x z
Reaches-snoc g {x} {y} z (direct m) n = over y m (direct n)
Reaches-snoc g {x} z (over w m r) n = over w m (Reaches-snoc g z r n)

-- Where every chain of dependencies ends, none comes back.
pub Acc-Reaches : (g : String → List String) (x : String) → Acc (Depends g) x → Reaches g x x → ⊥
Acc-Reaches g x (Acc.intro _ below) (direct m) = Acc-Reaches g x (below x m) (direct m)
Acc-Reaches g x (Acc.intro _ below) (over y m r) =
    Acc-Reaches g y (below y m) (Reaches-snoc g y r m)
