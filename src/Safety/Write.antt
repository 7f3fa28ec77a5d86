-- ===== src/Safety/Write.antt =====
-- Which paths a worker may write: ar724/safety.py, `validate_path_write`.
use ztrade_ares_7x.Base.Prefixes.{clash, starts_with-apart, eq-apart, and_parts}
use ztrade_ares_7x.Base.Texts.{codes}
use ztrade_ares_7x.Base.{
  In, In→any, ◌||◌, ◌⊎◌, List, [], ◌∷◌, all, any, starts_with, Bool-cases, String, ◌≡◌, refl, ◌↔◌,
  inl, inr, Bool, true, false, not, ◌&&◌, arith, str_eq, eq_iff,
}
use ztrade_ares_7x.Base.Result.{Result, safety_violation, ok, err}
use ztrade_ares_7x.Safety.{
  allowed_write_prefixes, denied_write_prefixes, is_absolute, is_denied, in_mutable, is_allowed,
  validate_path_write,
}

-- The path begins with this folder.
abbrev pub Below : (folder posix : String) → Type 0
Below folder posix = starts_with posix folder ≡ true

-- What the policy permits: a path that begins with one of three folders, and for the backtester
-- also with a fourth.
abbrev pub IsPermitted : (posix role : String) → Type 0
IsPermitted posix role =
    Below "autoresearch/candidates/" posix
    ⊎ Below "autoresearch/reports/" posix
    ⊎ Below "autoresearch/protocol/" posix
    ⊎ (Below "autoresearch/mutable/" posix × (role ≡ "backtester"))

-- The text clashes with each denied prefix, with or without its slashes, and with `/`.
abbrev is_apart : String → Bool
is_apart p =
    clash (codes p) (codes "/")
    && all (λ (prefix, bare). clash (codes p) (codes prefix) && clash (codes p) (codes bare))
        denied_write_prefixes

-- The checks of the validation, one by one.
record Passes (posix role : String) : Type 0 where
  pub relative : is_absolute posix ≡ false
  pub not_denied : is_denied posix ≡ false
  pub below : is_allowed posix ≡ true
  pub mutable : in_mutable posix ≡ true → role ≡ "backtester"

not_backtester :
    (i : Bool) (role : String)
    → (i && not (str_eq role "backtester")) ≡ true
    → (i ≡ true → role ≡ "backtester")
    → ⊥
not_backtester false role h own = cc
not_backtester true role h own = ground (arith, eq_iff role "backtester", own refl)

own_mutable :
    (i : Bool) (role : String)
    → (i && not (str_eq role "backtester")) ≡ false
    → i ≡ true
    → role ≡ "backtester"
own_mutable false role h e = cc
own_mutable true role h e = (eq_iff role "backtester").0 (ground arith)

validate_path_write-Passes :
    (posix role : String)
    → ((validate_path_write posix role ≡ ok posix) ↔ Passes posix role)
      × ((validate_path_write posix role ≡ err safety_violation) ↔ (¬ Passes posix role))
unfolding validate_path_write
validate_path_write-Passes posix role = elim (Bool-cases (is_absolute posix)) [
  | inl a ↦ rw a (denied (λ h. cc (a, h.relative)))
  | inr a ↦ elim (Bool-cases (is_denied posix)) [
    | inl d ↦ rw (a, d) (denied (λ h. cc (d, h.not_denied)))
    | inr d ↦ elim (Bool-cases (in_mutable posix && not (str_eq role "backtester"))) [
      | inl m ↦ rw (a, d, m) (denied (λ h. not_backtester (in_mutable posix) role m h.mutable))
      | inr m ↦ elim (Bool-cases (is_allowed posix)) [
        | inl b ↦
            rw (a, d, m, b)
              (granted (record {
                relative = a;
                not_denied = d;
                below = b;
                mutable = own_mutable (in_mutable posix) role m;
              }))
        | inr b ↦ rw (a, d, m, b) (denied (λ h. cc (b, h.below)))
      ]
    ]
  ]
]
  where
    denied :
        ¬ Passes posix role
        → ((err safety_violation ≡ ok posix) ↔ Passes posix role)
          × ((◌≡◌ {A = Result String} (err safety_violation) (err safety_violation))
              ↔ (¬ Passes posix role))
    denied n = ((λ h. cc, λ h. absurd (n h)), (λ _. n, λ _. refl))

    granted :
        Passes posix role
        → ((ok posix ≡ ok posix) ↔ Passes posix role)
          × ((ok posix ≡ err safety_violation) ↔ (¬ Passes posix role))
    granted h = ((λ _. h, λ _. refl), (λ e. cc, λ n. absurd (n h)))

denied-apart :
    (posix p : String) (ds : List (String × String))
    → all (λ (prefix, bare). clash (codes p) (codes prefix) && clash (codes p) (codes bare)) ds
      ≡ true
    → starts_with posix p ≡ true
    → any (λ (prefix, bare). starts_with posix prefix || str_eq posix bare) ds ≡ false
denied-apart posix p [] h below = refl
denied-apart posix p ((prefix, bare) ∷ ds) h below =
    let (first, later) =
      and_parts (clash (codes p) (codes prefix) && clash (codes p) (codes bare)) _ h in
    let (long, short) =
      and_parts (clash (codes p) (codes prefix)) (clash (codes p) (codes bare)) first in
    rw
      (
        starts_with-apart posix p prefix long below,
        eq-apart posix p bare short below,
        denied-apart posix p ds later below,
      )
      refl

begins-Passes :
    (posix role p : String)
    → is_apart p ≡ true
    → starts_with posix p ≡ true
    → In p allowed_write_prefixes
    → (in_mutable posix ≡ true → role ≡ "backtester")
    → Passes posix role
begins-Passes posix role p h below listed own =
    let (slash, denied) = and_parts (clash (codes p) (codes "/")) _ h in
    record {
      relative = starts_with-apart posix p "/" slash below;
      not_denied = denied-apart posix p denied_write_prefixes denied below;
      below = In→any (starts_with posix) p allowed_write_prefixes listed below;
      mutable = own;
    }

-- A path below another folder is not below the mutable one.
elsewhere :
    (posix role p : String)
    → clash (codes p) (codes "autoresearch/mutable/") ≡ true
    → starts_with posix p ≡ true
    → in_mutable posix ≡ true
    → role ≡ "backtester"
elsewhere posix role p h below m =
    absurd (cc (m, starts_with-apart posix p "autoresearch/mutable/" h below))

or_parts :
    (a b c d : Bool)
    → (a || (b || (c || (d || false)))) ≡ true
    → (a ≡ true) ⊎ (c ≡ true) ⊎ (d ≡ true) ⊎ (b ≡ true)
or_parts true b c d h = inl refl
or_parts false true c d h = inr (inr (inr refl))
or_parts false false true d h = inr (inl refl)
or_parts false false false true h = inr (inr (inl refl))
or_parts false false false false h = absurd cc

Passes-IsPermitted : (posix role : String) → Passes posix role → IsPermitted posix role
Passes-IsPermitted posix role h =
    elim (or_parts (starts_with posix "autoresearch/candidates/")
      (starts_with posix "autoresearch/mutable/") (starts_with posix "autoresearch/reports/")
      (starts_with posix "autoresearch/protocol/") h.below) [
        | inl c ↦ inl c
        | inr r ↦ elim r as (λ _. IsPermitted posix role) [
          | inl c ↦ inr (inl c)
          | inr q ↦ elim q as (λ _. IsPermitted posix role) [
            | inl c ↦ inr (inr (inl c))
            | inr m ↦ inr (inr (inr (m, h.mutable m)))
          ]
        ]
      ]

IsPermitted-Passes : (posix role : String) → IsPermitted posix role → Passes posix role
IsPermitted-Passes posix role (inl c) =
    begins-Passes posix role "autoresearch/candidates/" refl c (inl refl)
      (elsewhere posix role "autoresearch/candidates/" refl c)
IsPermitted-Passes posix role (inr (inl c)) =
    begins-Passes posix role "autoresearch/reports/" refl c (inr (inr (inl refl)))
      (elsewhere posix role "autoresearch/reports/" refl c)
IsPermitted-Passes posix role (inr (inr (inl c))) =
    begins-Passes posix role "autoresearch/protocol/" refl c (inr (inr (inr (inl refl))))
      (elsewhere posix role "autoresearch/protocol/" refl c)
IsPermitted-Passes posix role (inr (inr (inr (c, own)))) =
    begins-Passes posix role "autoresearch/mutable/" refl c (inr (inl refl)) (λ _. own)

-- The validation returns the path unchanged exactly if the policy permits it, and raises
-- SafetyViolation in every other case. A path is what `as_posix` gives, with its dots.
pub validate_path_write_iff :
    (posix role : String)
    → ((validate_path_write posix role ≡ ok posix) ↔ IsPermitted posix role)
      × ((validate_path_write posix role ≡ err safety_violation) ↔ (¬ IsPermitted posix role))
validate_path_write_iff posix role =
    let (returns, raises) = validate_path_write-Passes posix role in
    let there = Passes-IsPermitted posix role in
    let back = IsPermitted-Passes posix role in
    (
      (λ h. there (returns.0 h), λ h. returns.1 (back h)),
      (λ h n. raises.0 h (back n), λ n. raises.1 (λ p. n (there p))),
    )
