-- ===== src/Evals/Since.antt =====
-- `_parse_since` of ar724/cli.py. Python's `int` of a text is an argument, none for a ValueError.
use ztrade_ares_7x.Base.{
  ◌==◌, if◌then◌else◌, ℕ, ◌+◌, ◌-◌, ◌*◌, ◌≡◌, refl, Option, none, some, [], ◌∷◌, ◌++◌,
}
use ztrade_ares_7x.Base.Int.{ℤ, pos, negsuc}
use ztrade_ares_7x.Base.Result.{Result, value_error, err, ok}
use ztrade_ares_7x.Base.Texts.{Text}

-- the seconds of the unit: s, m, h and d, and 1 for any other character
abbrev pub unit_seconds : ℕ → ℕ
unit_seconds c =
    if c == 115
    then 1
    else if c == 109
    then 60
    else if c == 104
    then 3600
    else if c == 100
    then 86400
    else 1

abbrev pub times : ℕ → ℤ → ℤ
times k (pos n) = pos (k * n)
times k (negsuc n) = negsuc (k * (n + 1) - 1)

-- all but the last character, and the last
abbrev pub part_last : ℕ → Text → Text × ℕ
part_last c [] = ([], c)
part_last c (d ∷ ds) = let (front, unit) = part_last d ds in (c ∷ front, unit)

abbrev pub in_units : ℕ → Option ℤ → Result ℤ
in_units unit none = err value_error
in_units unit (some n) = ok (times (unit_seconds unit) n)

-- a BadParameter is a value_error here
unfoldable pub parse_since : (Text → Option ℤ) → Text → Result ℤ
parse_since int [] = ok (pos 0)
parse_since int (c ∷ cs) = let (front, unit) = part_last c cs in in_units unit (int front)

part_last-append : (c : ℕ) (cs : Text) (unit : ℕ) → part_last c (cs ++ unit ∷ []) ≡ (c ∷ cs, unit)
part_last-append c [] unit = refl
part_last-append c (d ∷ ds) unit = rw (part_last-append d ds unit)

-- A text without a unit loses its last character: "30" is three seconds.
parse_since-unit :
    (int : Text → Option ℤ) (front : Text) (unit : ℕ)
    → parse_since int (front ++ unit ∷ []) ≡ in_units unit (int front)
unfolding parse_since
parse_since-unit int [] unit = refl
parse_since-unit int (c ∷ cs) unit = rw (part_last-append c cs unit)
