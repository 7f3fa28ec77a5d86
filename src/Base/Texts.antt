-- ===== src/Base/Texts.antt =====
-- Texts as lists of code points.
use Prim.Native.Nat.{ℕ}
use Prim.Native.Char.{code}
use Prim.Native.String.{String, [], ◌∷◌}
use mathlib.Core.Path.{◌≡◌, refl}
use mathlib.Core.Logic.{◌↔◌}
use mathlib.Core.Bool.{Bool, true, false, ◌&&◌, ◌||◌}
use mathlib.Core.List.{List, [], ◌∷◌, ◌++◌}
use native.Mathlib.Omega.{arith}
use ztrade_ares_7x.Base.Tests.{◌==◌}

abbrev pub Text : Type 0
Text = List ℕ

abbrev pub codes : String → Text
codes [] = []
codes (c ∷ s) = code c ∷ codes s

abbrev pub text_eq : Text → Text → Bool
text_eq [] [] = true
text_eq [] (d ∷ ds) = false
text_eq (c ∷ cs) [] = false
text_eq (c ∷ cs) (d ∷ ds) = c == d && text_eq cs ds

pub text_eq_refl : (t : Text) → text_eq t t ≡ true
text_eq_refl [] = refl
text_eq_refl (c ∷ cs) = ground (arith, text_eq_refl cs)

pub text_eq→eq : (t u : Text) → text_eq t u ≡ true → t ≡ u
text_eq→eq [] [] h = refl
text_eq→eq [] (d ∷ ds) h = cc
text_eq→eq (c ∷ cs) [] h = cc
text_eq→eq (c ∷ cs) (d ∷ ds) h = ground (arith, text_eq→eq cs ds)

pub text_eq_iff : (t u : Text) → (text_eq t u ≡ true) ↔ (t ≡ u)
text_eq_iff t u = (text_eq→eq t u, λ e. rw e (text_eq_refl u))

-- `text.startswith(prefix)`
abbrev pub begins : Text → Text → Bool
begins [] text = true
begins (p ∷ ps) [] = false
begins (p ∷ ps) (c ∷ cs) = c == p && begins ps cs

-- `part in text`
abbrev pub contains : Text → Text → Bool
contains part [] = begins part []
contains part (c ∷ cs) = begins part (c ∷ cs) || contains part cs

pub begins-append : (prefix text : Text) → begins prefix (prefix ++ text) ≡ true
begins-append [] text = refl
begins-append (p ∷ ps) text = ground (arith, begins-append ps text)
