-- ===== src/Base/Prefixes.antt =====
-- Texts that cannot begin the same path.
use Prim.Native.String.append
use Prim.Native.Char.{code}
use Prim.Native.Nat.{ℕ}
use Prim.Native.String.{String, [], ◌∷◌, ◌++◌ as ◌++ˢ◌}
use mathlib.Core.Path.{◌≡◌, refl, sym, ◌∙◌, ap}
use mathlib.Core.Logic.{inl, inr}
use mathlib.Core.Bool.{Bool, true, false, not, ◌&&◌, ◌||◌}
use mathlib.Core.List.{[], ◌∷◌, ◌++◌, append-nil}
use native.Mathlib.Omega.{arith}
use text.Mathlib.Text.{◌==◌ as str_eq, starts_with}
use text.Mathlib.TextEquality.{eq_iff, starts_with_iff}
use ztrade_ares_7x.Base.Tests.{◌==◌, Bool-cases}
use ztrade_ares_7x.Base.Texts.{Text, codes}

-- The two texts differ at a place that both have.
abbrev pub clash : Text → Text → Bool
clash [] ds = false
clash (c ∷ cs) [] = false
clash (c ∷ cs) (d ∷ ds) = not (c == d) || clash cs ds

clash-append : (p q u v : Text) → clash p q ≡ true → p ++ u ≡ q ++ v → ⊥
clash-append [] q u v h e = absurd cc
clash-append (c ∷ cs) [] u v h e = absurd cc
clash-append (c ∷ cs) (d ∷ ds) u v h e =
    clash-append cs ds u v (ground (arith, ap first_of e)) (ap rest_of e)
  where
    first_of : Text → ℕ
    first_of [] = 0
    first_of (x ∷ xs) = x

    rest_of : Text → Text
    rest_of [] = []
    rest_of (x ∷ xs) = xs

codes-append : (s t : String) → codes (s ++ˢ t) ≡ codes s ++ codes t
codes-append [] t = ap codes (append.nil t)
codes-append (c ∷ s) t = ap codes (append.cons c s t) ∙ ap (λ r. code c ∷ r) (codes-append s t)

-- A path that begins with one text does not begin with another that differs from it.
pub starts_with-apart :
    (posix p q : String)
    → clash (codes p) (codes q) ≡ true
    → starts_with posix p ≡ true
    → starts_with posix q ≡ false
starts_with-apart posix p q h below = elim (Bool-cases (starts_with posix q)) [
  | inr e ↦ e
  | inl e ↦
      let (u, pu) = (starts_with_iff posix p).0 below in
      let (v, qv) = (starts_with_iff posix q).0 e in
      absurd (
        clash-append (codes p) (codes q) (codes u) (codes v) h
          (sym (codes-append p u) ∙ ap codes (pu ∙ sym qv) ∙ codes-append q v))
]

pub eq-apart :
    (posix p q : String)
    → clash (codes p) (codes q) ≡ true
    → starts_with posix p ≡ true
    → str_eq posix q ≡ false
eq-apart posix p q h below = elim (Bool-cases (str_eq posix q)) [
  | inr e ↦ e
  | inl e ↦
      let (u, pu) = (starts_with_iff posix p).0 below in
      absurd (
        clash-append (codes p) (codes q) (codes u) [] h (
          sym (codes-append p u)
          ∙ ap codes (pu ∙ (eq_iff posix q).0 e)
          ∙ sym (append-nil (codes q))))
]

pub and_parts : (a b : Bool) → (a && b) ≡ true → (a ≡ true) × (b ≡ true)
and_parts true b h = (refl, h)
and_parts false b h = absurd cc
