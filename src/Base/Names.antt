-- ===== src/Base/Names.antt =====
-- Lists of names: membership as a test, no name twice, and how often a name occurs.
use Prim.Native.Nat.{suc, ◌≤◌}
use Prim.Native.String.{String}
use mathlib.Core.Path.{◌≡◌, refl, sym, ap, subst}
use mathlib.Core.Logic.{inl, inr}
use mathlib.Core.Bool.{Bool, true, false}
use mathlib.Core.List.{List, [], ◌∷◌, ◌++◌}
use native.Mathlib.Omega.{arith}
use text.Mathlib.Text.{◌==◌ as str_eq}
use text.Mathlib.TextEquality.{eq_iff}
use ztrade_ares_7x.Base.Tests.{if◌then◌else◌, Bool-cases}
use ztrade_ares_7x.Base.Lists.{
  length, any, In, In→any, any→In, In-append, In-append_left, In-append_right,
}
use ztrade_ares_7x.Base.Rows.{select, select-In}

-- `x in xs`
abbrev pub among : List String → String → Bool
among xs x = any (str_eq x) xs

pub among→In : (xs : List String) (x : String) → among xs x ≡ true → In x xs
among→In xs x h =
    let (y, m, e) = any→In (str_eq x) xs h in subst (λ z. In z xs) (sym ((eq_iff x y).0 e)) m

pub In→among : (xs : List String) (x : String) → In x xs → among xs x ≡ true
In→among xs x m = In→any (str_eq x) x xs m ((eq_iff x x).1 refl)

abbrev pub Distinct : List String → Type 0
Distinct [] = Unit
Distinct (x ∷ xs) = (among xs x ≡ false) × Distinct xs

abbrev pub remove : String → List String → List String
remove x [] = []
remove x (y ∷ ys) = if str_eq y x then ys else y ∷ remove x ys

pub length-remove :
    (x : String) (ys : List String) → In x ys → length ys ≡ suc (length (remove x ys))
length-remove x [] m = absurd m
length-remove x (y ∷ ys) (inl e) = rw ((eq_iff y x).1 (sym e))
length-remove x (y ∷ ys) (inr m) = ground (arith, length-remove x ys m)

pub In-remove :
    (x z : String) (ys : List String) → In z ys → str_eq x z ≡ false → In z (remove x ys)
In-remove x z [] m ne = absurd m
In-remove x z (y ∷ ys) (inl e) ne =
    let other : str_eq y x ≡ false = ground (arith, eq_iff x z, eq_iff y x) in rw other (inl e)
In-remove x z (y ∷ ys) (inr m) ne = elim (Bool-cases (str_eq y x)) [
  | inl e ↦ rw e m
  | inr e ↦ rw e (inr (In-remove x z ys m ne))
]

-- Names that are not twice in one list fit into another that has them all.
pub Distinct-le :
    (xs ys : List String) → Distinct xs → ((x : String) → In x xs → In x ys) → length xs ≤ length ys
Distinct-le [] ys d sub = omega arith
Distinct-le (x ∷ xs) ys d sub =
    let shorter =
      Distinct-le xs (remove x ys) d.1 (λ z m. In-remove x z ys (sub z (inr m)) (apart z m)) in
    omega (arith, shorter, length-remove x ys (sub x (inl refl)))
  where
    apart : (z : String) → In z xs → str_eq x z ≡ false
    apart z m = elim (Bool-cases (str_eq x z)) [
      | inl e ↦ let listed = In→among xs z m in cc (d.0, listed, ap (among xs) ((eq_iff x z).0 e))
      | inr e ↦ e
    ]

-- No entry of the one list is in the other.
abbrev pub Apart : List String → List String → Type 0
Apart xs ys = (x : String) → In x xs → ¬ In x ys

pub absent : (x : String) (xs : List String) → ¬ In x xs → among xs x ≡ false
absent x xs h = elim (Bool-cases (among xs x)) [ inl e ↦ absurd (h (among→In xs x e)) | inr e ↦ e ]

pub absent-In : (x : String) (xs : List String) → among xs x ≡ false → ¬ In x xs
absent-In x xs h m = absurd (cc (h, In→among xs x m))

pub Distinct-append :
    (xs ys : List String) → Distinct xs → Distinct ys → Apart xs ys → Distinct (xs ++ ys)
Distinct-append [] ys d d' h = d'
Distinct-append (x ∷ xs) ys d d' h =
    (absent x (xs ++ ys) neither, Distinct-append xs ys d.1 d' (λ z m. h z (inr m)))
  where
    neither : ¬ In x (xs ++ ys)
    neither m = elim (In-append x xs ys m) [
      | inl i ↦ absent-In x xs d.0 i
      | inr i ↦ h x (inl refl) i
    ]

pub Distinct-left : (xs ys : List String) → Distinct (xs ++ ys) → Distinct xs
Distinct-left [] ys d = tt
Distinct-left (x ∷ xs) ys d = (
  absent x xs (λ m. absent-In x (xs ++ ys) d.0 (In-append_left x xs ys m)),
  Distinct-left xs ys d.1,
)

pub Distinct-right : (xs ys : List String) → Distinct (xs ++ ys) → Distinct ys
Distinct-right [] ys d = d
Distinct-right (x ∷ xs) ys d = Distinct-right xs ys d.1

pub Distinct-Apart : (xs ys : List String) → Distinct (xs ++ ys) → Apart xs ys
Distinct-Apart [] ys d x m i = absurd m
Distinct-Apart (y ∷ xs) ys d x (inl e) i =
    absent-In y (xs ++ ys) d.0 (In-append_right y xs ys (subst (λ z. In z ys) e i))
Distinct-Apart (y ∷ xs) ys d x (inr m) i = Distinct-Apart xs ys d.1 x m i

pub Distinct-select : (p : String → Bool) (xs : List String) → Distinct xs → Distinct (select p xs)
Distinct-select p [] d = tt
Distinct-select p (x ∷ xs) d = elim (Bool-cases (p x)) [
  | inl e ↦ rw e (
    absent x (select p xs) (λ m. absent-In x xs d.0 (select-In p x xs m).0),
    Distinct-select p xs d.1,
  )
  | inr e ↦ rw e (Distinct-select p xs d.1)
]

length-remove_le : (x : String) (ys : List String) → length ys ≤ suc (length (remove x ys))
length-remove_le x [] = omega arith
length-remove_le x (y ∷ ys) = ground (arith, length-remove_le x ys)

In-remove_back : (x z : String) (ys : List String) → In z (remove x ys) → In z ys
In-remove_back x z [] m = m
In-remove_back x z (y ∷ ys) m = elim (Bool-cases (str_eq y x)) [
  | inl e ↦ inr (rw e at m)
  | inr e ↦ elim (rw e at m) as (λ _. In z (y ∷ ys)) [
    | inl same ↦ inl same
    | inr i ↦ inr (In-remove_back x z ys i)
  ]
]

Distinct-remove :
    (x : String) (ys : List String) → Distinct ys → Distinct (remove x ys) × ¬ In x (remove x ys)
Distinct-remove x [] d = (tt, λ m. m)
Distinct-remove x (y ∷ ys) d = elim (Bool-cases (str_eq y x)) [
  | inl e ↦ rw e (d.1, absent-In x ys (subst (λ z. among ys z ≡ false) ((eq_iff y x).0 e) d.0))
  | inr e ↦
      let (rest, gone) = Distinct-remove x ys d.1 in
      rw e (
        (absent y (remove x ys) (λ m. absent-In y ys d.0 (In-remove_back x y ys m)), rest),
        neither e gone,
      )
]
  where
    neither : str_eq y x ≡ false → ¬ In x (remove x ys) → ¬ In x (y ∷ remove x ys)
    neither e gone (inl same) = absurd (cc (e, (eq_iff y x).1 (sym same)))
    neither e gone (inr m) = gone m

-- A list that is no longer than distinct names that it has all has none of them twice.
pub Distinct-full :
    (ys xs : List String)
    → Distinct xs
    → ((x : String) → In x xs → In x ys)
    → length ys ≤ length xs
    → Distinct ys
Distinct-full [] xs d sub h = tt
Distinct-full (y ∷ ys) xs d sub h = elim (Bool-cases (among ys y)) [
  | inl twice ↦ absurd (omega (arith, Distinct-le xs ys d (λ x m. again x twice (sub x m))))
  | inr new ↦ (
    new,
    Distinct-full ys (remove y xs) (Distinct-remove y xs d).0 others (omega (arith, shrinks)),
  )
]
  where
    again : (x : String) → among ys y ≡ true → In x (y ∷ ys) → In x ys
    again x twice (inl e) = subst (λ z. In z ys) (sym e) (among→In ys y twice)
    again x twice (inr m) = m

    others : (x : String) → In x (remove y xs) → In x ys
    others x m = elim (sub x (In-remove_back y x xs m)) [
      | inl e ↦ absurd ((Distinct-remove y xs d).1 (subst (λ z. In z (remove y xs)) e m))
      | inr i ↦ i
    ]

    shrinks : length xs ≤ suc (length (remove y xs))
    shrinks = length-remove_le y xs
