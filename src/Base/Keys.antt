-- ===== src/Base/Keys.antt =====
-- A primary key: no two rows of a table have the same one.
use Prim.Native.Nat.{ℕ}
use mathlib.Core.Path.{◌≡◌, sym, ◌∙◌, ap}
use mathlib.Core.Logic.{inl, inr}
use mathlib.Core.Bool.{true, not}
use mathlib.Core.List.{List, [], ◌∷◌}
use native.Mathlib.Omega.{arith}
use ztrade_ares_7x.Base.Tests.{◌==◌}
use ztrade_ares_7x.Base.Lists.{In, all, all→In}

module _ {A : Type 0} where
  abbrev pub Unique : (A → ℕ) → List A → Type 0
  Unique key [] = Unit
  Unique key (x ∷ xs) = (all (λ y. not (key y == key x)) xs ≡ true) × Unique key xs

  pub key-ne :
      (key : A → ℕ) (x y : A) (xs : List A)
      → all (λ z. not (key z == key x)) xs ≡ true
      → In y xs
      → key y ≡ key x
      → ⊥
  key-ne key x y xs h m e = let ne = all→In (λ z. not (key z == key x)) xs h y m in ground arith

  -- Rows with one key are one row.
  pub Unique-eq :
      (key : A → ℕ) (x y : A) (xs : List A)
      → Unique key xs
      → In x xs
      → In y xs
      → key x ≡ key y
      → x ≡ y
  Unique-eq key x y [] u m n e = absurd m
  Unique-eq key x y (z ∷ zs) u (inl p) (inl q) e = p ∙ sym q
  Unique-eq key x y (z ∷ zs) u (inl p) (inr n) e =
      absurd (key-ne key z y zs u.0 n (sym e ∙ ap key p))
  Unique-eq key x y (z ∷ zs) u (inr m) (inl q) e = absurd (key-ne key z x zs u.0 m (e ∙ ap key q))
  Unique-eq key x y (z ∷ zs) u (inr m) (inr n) e = Unique-eq key x y zs u.1 m n e
