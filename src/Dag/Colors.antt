-- ===== src/Dag/Colors.antt =====
-- What a call of the depth-first search of ar724/dag.py may do to the colors.
use mathlib.Core.WellFounded.{Acc}
use ztrade_ares_7x.Base.{
  In, count, ℕ, ◌≤◌, ◌<◌, String, ◌≡◌, refl, ap, subst, ◌⊎◌, inl, inr, Bool, true, false, List, [],
  ◌∷◌, arith,
}
use ztrade_ares_7x.Dag.{
  ◌>>=◌, is_white, Colors, Checked, Color, raised, returned, white, gray, black,
}
use ztrade_ares_7x.Dag.Graph.{Depends, IsTrue}

pub Color-cases : (c : Color) → (c ≡ white) ⊎ ((c ≡ gray) ⊎ (c ≡ black))
Color-cases white = inl refl
Color-cases gray = inr (inl refl)
Color-cases black = inr (inr refl)

count-le :
    (p q : String → Bool) (xs : List String)
    → ((x : String) → p x ≡ true → q x ≡ true)
    → count p xs ≤ count q xs
count-le p q [] h = omega arith
count-le p q (x ∷ xs) h = ground (arith, h x, count-le p q xs h)

pub count-lt :
    (p q : String → Bool) (y : String) (xs : List String)
    → ((x : String) → p x ≡ true → q x ≡ true)
    → In y xs
    → p y ≡ false
    → q y ≡ true
    → count p xs < count q xs
count-lt p q y [] h m a b = absurd m
count-lt p q y (x ∷ xs) h (inl e) a b =
    let a' : p x ≡ false = subst (λ z. p z ≡ false) e a in
    let b' : q x ≡ true = subst (λ z. q z ≡ true) e b in ground (arith, count-le p q xs h)
count-lt p q y (x ∷ xs) h (inr m) a b = ground (arith, h x, count-lt p q y xs h m a b)

pub white_test : (c : Color) → is_white c ≡ true → c ≡ white
white_test white h = refl
white_test gray h = cc
white_test black h = cc

module _ (all_ids : List String) (g : String → List String) where
  abbrev pub whites : Colors → ℕ
  whites color = count (λ x. is_white (color x)) all_ids

  -- A black task depends on ids only, and every chain of dependencies from it ends.
  abbrev pub Sound : Colors → Type 0
  Sound color =
      (x : String)
      → color x ≡ black
      → Acc (Depends g) x × ((y : String) → In y (g x) → In y all_ids)

  -- What a call may change: tasks turn black, and none turns gray or white for good.
  pub record After (before after : Colors) : Type 0 where
    pub sound : Sound after
    pub blacks : (x : String) → before x ≡ black → after x ≡ black
    pub grays : (x : String) → after x ≡ gray → before x ≡ gray
    pub whites_kept : (x : String) → after x ≡ white → before x ≡ white

  pub After-refl : (color : Colors) → Sound color → After color color
  After-refl color s = record {
    sound = s;
    blacks = λ x h. h;
    grays = λ x h. h;
    whites_kept = λ x h. h;
  }

  pub After-trans : (a b c : Colors) → After a b → After b c → After a c
  After-trans a b c h k = record {
    sound = k.sound;
    blacks = λ x e. k.blacks x (h.blacks x e);
    grays = λ x e. h.grays x (k.grays x e);
    whites_kept = λ x e. h.whites_kept x (k.whites_kept x e);
  }

  pub After-whites : (a b : Colors) → After a b → whites b ≤ whites a
  After-whites a b h =
      count-le (λ x. is_white (b x)) (λ x. is_white (a x)) all_ids
        (λ x e. ap is_white (h.whites_kept x (white_test (b x) e)))

  -- A result that is right, or a fault that is true.
  abbrev pub Good : Colors → (Colors → Type 0) → Checked Colors → Type 0
  Good before Post (raised fault) = IsTrue all_ids g fault
  Good before Post (returned after) = After before after × Post after

  pub Good-bind :
      (P Q : Colors → Type 0) (before : Colors) (m : Checked Colors) (k : Colors → Checked Colors)
      → Good before P m
      → ((c : Colors) → After before c → P c → Good before Q (k c))
      → Good before Q (m >>= k)
  Good-bind P Q before (raised fault) k h next = h
  Good-bind P Q before (returned c) k h next = next c h.0 h.1

  pub Good-from :
      (P Q : Colors → Type 0) (a b : Colors) (m : Checked Colors)
      → After a b
      → Good b P m
      → ((c : Colors) → After b c → P c → Q c)
      → Good a Q m
  Good-from P Q a b (raised fault) h k weaker = k
  Good-from P Q a b (returned c) h k weaker = (After-trans a b c h k.0, weaker c k.0 k.1)
