-- ===== src/Dag/Spent.antt =====
-- Counters of ar724/dag.py that are zero or below.
use ztrade_ares_7x.Base.{
  Bool-cases, In, Distinct, absent, zero, suc, String, ◌≡◌, refl, sym, subst, ◌⊎◌, inl, inr, true,
  List, [], ◌∷◌, str_eq, eq_iff,
}
use ztrade_ares_7x.Base.Int.{ℤ, pos, negsuc}
use ztrade_ares_7x.Dag.{dec, is_zero, Degrees, lower, relax}
use ztrade_ares_7x.Dag.Relax.{fresh}

-- The counter will not come to zero any more.
abbrev pub IsSpent : ℤ → Type 0
IsSpent (pos zero) = Unit
IsSpent (pos (suc n)) = ⊥
IsSpent (negsuc n) = Unit

dec-IsSpent : (z : ℤ) → IsSpent z → IsSpent (dec z)
dec-IsSpent (pos zero) h = tt
dec-IsSpent (pos (suc n)) h = absurd h
dec-IsSpent (negsuc n) h = tt

dec-unspent : (z : ℤ) → is_zero (dec z) ≡ true → ¬ IsSpent z
dec-unspent (pos zero) e h = cc
dec-unspent (pos (suc n)) e h = h
dec-unspent (negsuc n) e h = cc

pub is_zero-IsSpent : (z : ℤ) → is_zero z ≡ true → IsSpent z
is_zero-IsSpent (pos zero) e = tt
is_zero-IsSpent (pos (suc n)) e = absurd cc
is_zero-IsSpent (negsuc n) e = tt

lower-IsSpent : (deg : Degrees) (d x : String) → IsSpent (deg x) → IsSpent (lower deg d x)
lower-IsSpent deg d x h = elim (Bool-cases (str_eq d x)) [
  | inl e ↦ rw e (dec-IsSpent (deg d) (subst (λ z. IsSpent (deg z)) (sym ((eq_iff d x).0 e)) h))
  | inr e ↦ rw e h
]

pub relax-IsSpent :
    (deg : Degrees) (queue ds : List String) (x : String)
    → IsSpent (deg x)
    → IsSpent ((relax deg queue ds).0 x)
unfolding relax
relax-IsSpent deg queue [] x h = h
relax-IsSpent deg queue (d ∷ ds) x h = relax-IsSpent (lower deg d) _ ds x (lower-IsSpent deg d x h)

lower-zero : (deg : Degrees) (d : String) → is_zero (dec (deg d)) ≡ true → IsSpent (lower deg d d)
lower-zero deg d e = rw ((eq_iff d d).1 refl) (is_zero-IsSpent (dec (deg d)) e)

fresh-cases :
    (deg : Degrees) (d : String) (ds : List String) (x : String)
    → In x (fresh deg (d ∷ ds))
    → (is_zero (dec (deg d)) ≡ true × x ≡ d) ⊎ In x (fresh (lower deg d) ds)
fresh-cases deg d ds x m = elim (Bool-cases (is_zero (dec (deg d)))) [
  | inl e ↦
      elim (rw e at m)
        as (λ _. (is_zero (dec (deg d)) ≡ true × x ≡ d) ⊎ In x (fresh (lower deg d) ds)) [
          | inl same ↦ inl (e, same)
          | inr i ↦ inr i
        ]
  | inr e ↦ inr (rw e at m)
]

-- Only a task whose counter is not spent is queued, and it is spent then.
pub fresh-unspent :
    (deg : Degrees) (queue ds : List String) (x : String)
    → In x (fresh deg ds)
    → In x ds × (¬ IsSpent (deg x)) × IsSpent ((relax deg queue ds).0 x)
unfolding relax
fresh-unspent deg queue [] x m = absurd m
fresh-unspent deg queue (d ∷ ds) x m = elim (fresh-cases deg d ds x m) [
  | inl (z, same) ↦ (
    inl same,
    subst (λ y. ¬ IsSpent (deg y)) (sym same) (dec-unspent (deg d) z),
    relax-IsSpent (lower deg d) _ ds x
        (subst (λ y. IsSpent (lower deg d y)) (sym same) (lower-zero deg d z)),
  )
  | inr i ↦
      let (j, high, spent) = fresh-unspent (lower deg d) _ ds x i in
      (inr j, λ h. high (lower-IsSpent deg d x h), spent)
]

pub fresh-Distinct : (deg : Degrees) (ds : List String) → Distinct (fresh deg ds)
fresh-Distinct deg [] = tt
fresh-Distinct deg (d ∷ ds) = elim (Bool-cases (is_zero (dec (deg d)))) [
  | inl z ↦
      let once_only =
        absent d (fresh (lower deg d) ds)
          (λ m. (fresh-unspent (lower deg d) [] ds d m).1 (lower-zero deg d z)) in
      rw z (once_only, fresh-Distinct (lower deg d) ds)
  | inr z ↦ rw z (fresh-Distinct (lower deg d) ds)
]
