-- ===== src/Base/Rows.antt =====
-- What the SQL statements of the program do with the rows of a table.
use Prim.Native.Nat.{ℕ, suc, ◌+◌, ◌≤◌}
use mathlib.Core.Path.{◌≡◌, refl, ap, sym, subst}
use mathlib.Core.Logic.{◌⊎◌, inl, inr, ◌↔◌}
use mathlib.Core.Bool.{Bool, true, false, not}
use mathlib.Core.Option.{Option, none, some}
use mathlib.Core.List.{List, [], ◌∷◌}
use native.Mathlib.Nat.{le_trans}
use native.Mathlib.Omega.{arith}
use ztrade_ares_7x.Base.Tests.{if◌then◌else◌, Bool-cases, Option-cases, leb}
use ztrade_ares_7x.Base.Lists.{In, All, any, all, length}

module _ {ℓ} {A : Type ℓ} where
  -- SELECT … WHERE p
  abbrev pub select : (A → Bool) → List A → List A
  select p [] = []
  select p (x ∷ xs) = let rest = select p xs in if p x then x ∷ rest else rest

  -- UPDATE … SET f WHERE p
  abbrev pub update_where : (A → Bool) → (A → A) → List A → List A
  update_where p f [] = []
  update_where p f (x ∷ xs) = (if p x then f x else x) ∷ update_where p f xs

  -- DELETE … WHERE p
  abbrev pub delete_where : (A → Bool) → List A → List A
  delete_where p [] = []
  delete_where p (x ∷ xs) = let rest = delete_where p xs in if p x then rest else x ∷ rest

  -- the first row that satisfies `p`
  abbrev pub find : (A → Bool) → List A → Option A
  find p [] = none
  find p (x ∷ xs) = let rest = find p xs in if p x then some x else rest

  abbrev pub count : (A → Bool) → List A → ℕ
  count p [] = 0
  count p (x ∷ xs) = (if p x then 1 else 0) + count p xs

  abbrev better_least : (A → ℕ) → A → Option A → Option A
  better_least key x none = some x
  better_least key x (some y) = if leb (key x) (key y) then some x else some y

  -- ORDER BY key LIMIT 1
  abbrev pub least : (A → ℕ) → List A → Option A
  least key [] = none
  least key (x ∷ xs) = better_least key x (least key xs)

  abbrev better_greatest : (A → ℕ) → A → Option A → Option A
  better_greatest key x none = some x
  better_greatest key x (some y) = if leb (key y) (key x) then some x else some y

  -- ORDER BY key DESC LIMIT 1
  abbrev pub greatest : (A → ℕ) → List A → Option A
  greatest key [] = none
  greatest key (x ∷ xs) = better_greatest key x (greatest key xs)

  -- SELECT SUM(key)
  abbrev pub sum_by : (A → ℕ) → List A → ℕ
  sum_by key [] = 0
  sum_by key (x ∷ xs) = key x + sum_by key xs

module _ {A : Type 0} where
  pub In-select : (p : A → Bool) (x : A) (xs : List A) → In x xs → p x ≡ true → In x (select p xs)
  In-select p x [] m h = absurd m
  In-select p x (y ∷ ys) (inl e) h = rw (subst (λ z. p z ≡ true) e h) (inl e)
  In-select p x (y ∷ ys) (inr m) h = elim (Bool-cases (p y)) [
    | inl e ↦ rw e (inr (In-select p x ys m h))
    | inr e ↦ rw e (In-select p x ys m h)
  ]

  In-if :
      (b : Bool) (x y : A) (ys : List A)
      → In x (if b then y ∷ ys else ys)
      → (b ≡ true) × (x ≡ y) ⊎ In x ys
  In-if true x y ys (inl e) = inl (refl, e)
  In-if true x y ys (inr m) = inr m
  In-if false x y ys m = inr m

  pub select-In : (p : A → Bool) (x : A) (xs : List A) → In x (select p xs) → In x xs × (p x ≡ true)
  select-In p x [] m = absurd m
  select-In p x (y ∷ ys) m = elim (In-if (p y) x y (select p ys) m) [
    | inl (h, e) ↦ (inl e, subst (λ z. p z ≡ true) (sym e) h)
    | inr r ↦ let (i, h) = select-In p x ys r in (inr i, h)
  ]

  pub find-some : (p : A → Bool) (xs : List A) {x : A} → find p xs ≡ some x → In x xs × (p x ≡ true)
  find-some p [] h = cc
  find-some p (y ∷ ys) {x} h = elim (Bool-cases (p y)) [
    | inl e ↦ let q : y ≡ x = ground arith in (inl (sym q), subst (λ z. p z ≡ true) q e)
    | inr e ↦ let (i, hp) = find-some p ys {x = x} (ground arith) in (inr i, hp)
  ]

  pub find-none : (p : A → Bool) (xs : List A) → find p xs ≡ none → (x : A) → In x xs → p x ≡ false
  find-none p [] h x m = absurd m
  find-none p (y ∷ ys) h x (inl e) = subst (λ z. p z ≡ false) (sym e) (ground arith)
  find-none p (y ∷ ys) h x (inr m) = find-none p ys (ground arith) x m

  pub least-In : (key : A → ℕ) (xs : List A) {x : A} → least key xs ≡ some x → In x xs
  least-In key [] h = cc
  least-In key (y ∷ ys) {x} h = elim (Option-cases (least key ys)) [
    | inl e ↦ inl (ground arith)
    | inr (z, e) ↦ elim (Bool-cases (leb (key y) (key z))) [
      | inl t ↦ inl (ground arith)
      | inr f ↦ inr (least-In key ys {x = x} (ground arith))
    ]
  ]

  pub least-none : (key : A → ℕ) (xs : List A) → least key xs ≡ none → xs ≡ []
  least-none key [] h = refl
  least-none key (y ∷ ys) h = ground arith

  least_step :
      (key : A → ℕ) (z : A) (o : Option A) {x : A}
      → better_least key z o ≡ some x
      → (key x ≤ key z) × ((w : A) → o ≡ some w → key x ≤ key w)
  least_step key z none h = (ground arith, λ w e. cc)
  least_step key z (some v) h = (ground arith, λ w e. ground arith)

  pub least-le :
      (key : A → ℕ) (xs : List A) {x : A}
      → least key xs ≡ some x
      → (y : A) → In y xs
      → key x ≤ key y
  least-le key [] h y m = absurd m
  least-le key (z ∷ zs) {x} h y (inl e) =
      subst (λ v. key x ≤ key v) (sym e) (least_step key z (least key zs) h).0
  least-le key (z ∷ zs) {x} h y (inr m) = elim (Option-cases (least key zs)) [
    | inl e ↦ absurd (subst (In y) (least-none key zs e) m)
    | inr (w, e) ↦
        le_trans ((least_step key z (least key zs) h).1 w e) (least-le key zs {x = w} e y m)
  ]

  -- An update that finds no row leaves the table as it was.
  pub update_where-none :
      (p : A → Bool) (f : A → A) (xs : List A) → any p xs ≡ false → update_where p f xs ≡ xs
  update_where-none p f [] h = refl
  update_where-none p f (x ∷ xs) h = ground (arith, update_where-none p f xs)

  pub length-update_where :
      (p : A → Bool) (f : A → A) (xs : List A) → length (update_where p f xs) ≡ length xs
  length-update_where p f [] = refl
  length-update_where p f (x ∷ xs) = ap suc (length-update_where p f xs)

  -- A predicate that the update keeps holds of every row after it.
  pub All-update_where :
      (P : A → Type 0) (p : A → Bool) (f : A → A)
      → ((x : A) → p x ≡ true → P x → P (f x))
      → (xs : List A) → All P xs
      → All P (update_where p f xs)
  All-update_where P p f keep [] h = tt
  All-update_where P p f keep (x ∷ xs) h = elim (Bool-cases (p x)) [
    | inl e ↦ (rw e (keep x e h.0), All-update_where P p f keep xs h.1)
    | inr e ↦ (rw e h.0, All-update_where P p f keep xs h.1)
  ]

  pub count-pos :
      (p : A → Bool) (x : A) (xs : List A) → In x xs → p x ≡ true → (n : ℕ) × (count p xs ≡ suc n)
  count-pos p x [] m h = absurd m
  count-pos p x (y ∷ ys) (inl e) h =
      let hy = subst (λ z. p z ≡ true) e h in (count p ys, rw hy (omega arith))
  count-pos p x (y ∷ ys) (inr m) h = elim (Bool-cases (p y)) [
    | inl e ↦ (count p ys, rw e (omega arith))
    | inr e ↦ let (n, q) = count-pos p x ys m h in (n, rw e (omega arith))
  ]

  pub select-nil_iff : (p : A → Bool) (xs : List A) → (select p xs ≡ []) ↔ (any p xs ≡ false)
  select-nil_iff p [] = (λ e. refl, λ e. refl)
  select-nil_iff p (x ∷ xs) = elim (Bool-cases (p x)) [
    | inl e ↦ (λ h. ground arith, λ h. ground arith)
    | inr e ↦ rw e (select-nil_iff p xs)
  ]

  pub update_where-congr :
      (p q : A → Bool) (f : A → A) (xs : List A)
      → ((x : A) → In x xs → p x ≡ q x)
      → update_where p f xs ≡ update_where q f xs
  update_where-congr p q f [] h = refl
  update_where-congr p q f (x ∷ xs) h =
      let here : p x ≡ q x = h x (inl refl) in
      let rest = update_where-congr p q f xs (λ y m. h y (inr m)) in ground arith

  pub count-zero : (p : A → Bool) (xs : List A) → all (λ x. not (p x)) xs ≡ true → count p xs ≡ 0
  count-zero p [] h = refl
  count-zero p (x ∷ xs) h = ground (arith, count-zero p xs)

  pub any-count : (p : A → Bool) (xs : List A) → count p xs ≡ 0 → any p xs ≡ false
  any-count p [] h = refl
  any-count p (x ∷ xs) h = ground (arith, any-count p xs)

  pub greatest-In : (key : A → ℕ) (xs : List A) {x : A} → greatest key xs ≡ some x → In x xs
  greatest-In key [] h = cc
  greatest-In key (y ∷ ys) {x} h = elim (Option-cases (greatest key ys)) [
    | inl e ↦ inl (ground arith)
    | inr (z, e) ↦ elim (Bool-cases (leb (key z) (key y))) [
      | inl t ↦ inl (ground arith)
      | inr f ↦ inr (greatest-In key ys {x = x} (ground arith))
    ]
  ]

  pub greatest-none : (key : A → ℕ) (xs : List A) → greatest key xs ≡ none → xs ≡ []
  greatest-none key [] h = refl
  greatest-none key (y ∷ ys) h = ground arith
