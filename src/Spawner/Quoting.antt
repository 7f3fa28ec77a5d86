-- ===== src/Spawner/Quoting.antt =====
-- How a shell reads what ar724/spawner.py has quoted.
use ztrade_ares_7x.Base.{
  ◌==◌, Bool-cases, all, ℕ, ◌≡◌, refl, ◌∙◌, ap, inl, inr, Bool, true, false, not, ◌&&◌, Option,
  some, [], ◌∷◌, ◌++◌, append_assoc, arith,
}
use ztrade_ares_7x.Spawner.{is_plain, requote, quote, escape}
use ztrade_ares_7x.Base.Texts.{Text}
use ztrade_ares_7x.Spawner.Shell.{
  keep, move, apply_move, read, Mode, Move, bare, single, take, mode_after,
}

read-move :
    (mode : Mode) (c : ℕ) (cs : Text) (m : Move)
    → move mode c ≡ m
    → read mode (c ∷ cs) ≡ apply_move m c cs (read (mode_after m) cs)
read-move mode c cs m e = ap (λ n. apply_move n c cs (read (mode_after n) cs)) e

single-keep :
    (c : ℕ) (cs : Text) → (c == 39) ≡ false → read single (c ∷ cs) ≡ keep c (read single cs)
single-keep c cs e = read-move single c cs (take single) (rw e)

-- The quote in a value, read back as the number that it was.
pub quote-back :
    (c : ℕ) (cs rest : Text) (later : Option (Text × Text))
    → (c == 39) ≡ true
    → later ≡ some (cs, rest)
    → keep 39 later ≡ some (c ∷ cs, rest)
quote-back c cs rest later e h =
    let same : 39 ≡ c = ground arith in ap (keep 39) h ∙ ap (λ z. some (z ∷ cs, rest)) same

-- `escape`, between quotes
pub read-escape :
    (value rest : Text) → read single (escape value ++ 39 ∷ (10 ∷ rest)) ≡ some (value, rest)
read-escape [] rest = refl
read-escape (c ∷ cs) rest = elim (Bool-cases (c == 39)) [
  | inl e ↦
      rw e
        (quote-back c cs rest (read single (escape cs ++ 39 ∷ (10 ∷ rest))) e (read-escape cs rest))
  | inr e ↦
      rw e (single-keep c (escape cs ++ 39 ∷ (10 ∷ rest)) e ∙ ap (keep c) (read-escape cs rest))
]

read-requote :
    (value rest : Text) → read single (requote value ++ 39 ∷ (10 ∷ rest)) ≡ some (value, rest)
read-requote [] rest = refl
read-requote (c ∷ cs) rest = elim (Bool-cases (c == 39)) [
  | inl e ↦
      rw e (
        quote-back c cs rest (read single (requote cs ++ 39 ∷ (10 ∷ rest))) e
          (read-requote cs rest))
  | inr e ↦
      rw e (single-keep c (requote cs ++ 39 ∷ (10 ∷ rest)) e ∙ ap (keep c) (read-requote cs rest))
]

-- A text without quotes needs none of this.
pub read-lacking :
    (value rest : Text)
    → all (λ c. not (c == 39)) value ≡ true
    → read single (value ++ 39 ∷ (10 ∷ rest)) ≡ some (value, rest)
read-lacking [] rest h = refl
read-lacking (c ∷ cs) rest h =
    let other : (c == 39) ≡ false = ground arith in
    let others : all (λ c. not (c == 39)) cs ≡ true = ground arith in
    single-keep c (cs ++ 39 ∷ (10 ∷ rest)) other ∙ ap (keep c) (read-lacking cs rest others)

pub and_true : (a b : Bool) → (a && b) ≡ true → (a ≡ true) × (b ≡ true)
and_true true b h = (refl, h)
and_true false b h = absurd cc

plain-move : (c : ℕ) → is_plain c ≡ true → move bare c ≡ take bare
plain-move c h = ground arith

read-plain :
    (value rest : Text)
    → all is_plain value ≡ true
    → read bare (value ++ 10 ∷ rest) ≡ some (value, rest)
read-plain [] rest h = refl
read-plain (c ∷ cs) rest h =
    let first : is_plain c ≡ true = (and_true (is_plain c) (all is_plain cs) h).0 in
    let others : all is_plain cs ≡ true = (and_true (is_plain c) (all is_plain cs) h).1 in
    read-move bare c (cs ++ 10 ∷ rest) (take bare) (plain-move c first)
    ∙ ap (keep c) (read-plain cs rest others)

-- `shlex.quote`
pub read-quote : (value rest : Text) → read bare (quote value ++ 10 ∷ rest) ≡ some (value, rest)
read-quote [] rest = refl
read-quote (c ∷ cs) rest = elim (Bool-cases (all is_plain (c ∷ cs))) [
  | inl e ↦ rw e (read-plain (c ∷ cs) rest e)
  | inr e ↦
      let split = append_assoc (requote (c ∷ cs)) (39 ∷ []) (10 ∷ rest) in
      let quoted : quote (c ∷ cs) ≡ 39 ∷ (requote (c ∷ cs) ++ 39 ∷ []) = rw e in
      ap (λ t. read bare (t ++ 10 ∷ rest)) quoted
      ∙ ap (read single) split
      ∙ read-requote (c ∷ cs) rest
]
