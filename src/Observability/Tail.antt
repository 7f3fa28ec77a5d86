-- ===== src/Observability/Tail.antt =====
-- What `tail_events` of ar724/observability.py selects, and in which order.
use ztrade_ares_7x.Base.{
  leb, leb→le, le→leb, Bool-cases, length, ap, In, select, In-select, select-In, ℕ, zero, suc, ◌-◌,
  ◌/◌, ◌≤◌, String, ◌≡◌, refl, sym, ◌∙◌, ◌↔◌, ◌⊎◌, inl, inr, Bool, true, false, ◌&&◌, Option, none,
  some, List, [], ◌∷◌, arith, str_eq, eq_iff,
}
use ztrade_ares_7x.Observability.{
  day_seconds, stamped_since, insert_desc, order_desc, take, severity_fits, recent, is_wanted,
  tail_events, Event, Db,
}

-- The comparison of the texts sees the date only: the T is behind the blank.
pub stamped_since-day :
    (created_at cutoff : ℕ)
    → stamped_since created_at cutoff ≡ leb (cutoff / day_seconds) (created_at / day_seconds)
stamped_since-day created_at cutoff = ground arith

module _ {A : Type 0} (key : A → ℕ) where
  insert_desc-In : (x y : A) (xs : List A) → In x (insert_desc key y xs) → (x ≡ y) ⊎ In x xs
  insert_desc-In x y [] m = m
  insert_desc-In x y (z ∷ zs) m = elim (Bool-cases (leb (key z) (key y))) [
    | inl e ↦ rw e at m
    | inr e ↦ elim (rw e at m) as (λ _. (x ≡ y) ⊎ In x (z ∷ zs)) [
      | inl q ↦ inr (inl q)
      | inr q ↦ elim (insert_desc-In x y zs q) [ inl r ↦ inl r | inr r ↦ inr (inr r) ]
    ]
  ]

  In-insert_desc : (x y : A) (xs : List A) → (x ≡ y) ⊎ In x xs → In x (insert_desc key y xs)
  In-insert_desc x y [] m = m
  In-insert_desc x y (z ∷ zs) m = elim (Bool-cases (leb (key z) (key y))) [
    | inl e ↦ rw e m
    | inr e ↦ rw e (elim m as (λ _. (x ≡ z) ⊎ In x (insert_desc key y zs)) [
      | inl q ↦ inr (In-insert_desc x y zs (inl q))
      | inr q ↦ elim q as (λ _. (x ≡ z) ⊎ In x (insert_desc key y zs)) [
        | inl r ↦ inl r
        | inr r ↦ inr (In-insert_desc x y zs (inr r))
      ]
    ])
  ]

  pub order_desc-In : (x : A) (xs : List A) → In x (order_desc key xs) → In x xs
  order_desc-In x [] m = m
  order_desc-In x (y ∷ ys) m = elim (insert_desc-In x y (order_desc key ys) m) [
    | inl q ↦ inl q
    | inr q ↦ inr (order_desc-In x ys q)
  ]

  pub In-order_desc : (x : A) (xs : List A) → In x xs → In x (order_desc key xs)
  In-order_desc x (y ∷ ys) (inl q) = In-insert_desc x y (order_desc key ys) (inl q)
  In-order_desc x (y ∷ ys) (inr q) =
      In-insert_desc x y (order_desc key ys) (inr (In-order_desc x ys q))
  In-order_desc x [] m = m

  -- Each entry is not below any entry behind it.
  abbrev pub Descending : List A → Type 0
  Descending [] = Unit
  Descending (x ∷ xs) = ((y : A) → In y xs → key y ≤ key x) × Descending xs

  insert_desc-Descending : (x : A) (xs : List A) → Descending xs → Descending (insert_desc key x xs)
  insert_desc-Descending x [] d = ((λ y m. absurd m), tt)
  insert_desc-Descending x (z ∷ zs) d = elim (Bool-cases (leb (key z) (key x))) [
    | inl e ↦ rw e (below e, d)
    | inr e ↦ rw e (above e, insert_desc-Descending x zs d.1)
  ]
    where
      below : leb (key z) (key x) ≡ true → (y : A) → In y (z ∷ zs) → key y ≤ key x
      below e y (inl q) = rw q (leb→le (key z) (key x) e)
      below e y (inr q) = omega (arith, leb→le (key z) (key x) e, d.0 y q)

      above : leb (key z) (key x) ≡ false → (y : A) → In y (insert_desc key x zs) → key y ≤ key z
      above e y m = elim (insert_desc-In y x zs m) [ inl q ↦ rw q (ground arith) | inr q ↦ d.0 y q ]

  pub order_desc-Descending : (xs : List A) → Descending (order_desc key xs)
  order_desc-Descending [] = tt
  order_desc-Descending (x ∷ xs) =
      insert_desc-Descending x (order_desc key xs) (order_desc-Descending xs)

  take-In : (n : ℕ) (x : A) (xs : List A) → In x (take n xs) → In x xs
  take-In (suc n) x (y ∷ ys) (inl q) = inl q
  take-In (suc n) x (y ∷ ys) (inr q) = inr (take-In n x ys q)
  take-In zero x xs m = absurd m
  take-In (suc n) x [] m = absurd m

  take-Descending : (n : ℕ) (xs : List A) → Descending xs → Descending (take n xs)
  take-Descending zero xs d = tt
  take-Descending (suc n) [] d = tt
  take-Descending (suc n) (x ∷ xs) d = ((λ y m. d.0 y (take-In n y xs m)), take-Descending n xs d.1)

  length-take : (n : ℕ) (xs : List A) → length (take n xs) ≤ n
  length-take zero xs = omega arith
  length-take (suc n) [] = omega arith
  length-take (suc n) (x ∷ xs) = omega (arith, length-take n xs)

  -- Where something is not taken, as many are taken as may be, and it is not above any of them.
  take-first :
      (n : ℕ) (y : A) (xs : List A)
      → Descending xs
      → In y xs
      → In y (take n xs) ⊎ ((length (take n xs) ≡ n) × ((x : A) → In x (take n xs) → key y ≤ key x))
  take-first zero y xs d i = inr (refl, λ x m. absurd m)
  take-first (suc n) y [] d i = absurd i
  take-first (suc n) y (z ∷ zs) d (inl q) = inl (inl q)
  take-first (suc n) y (z ∷ zs) d (inr q) = elim (take-first n y zs d.1 q) [
    | inl r ↦ inl (inr r)
    | inr r ↦ inr (ap suc r.0, above r.1)
  ]
    where
      above :
          ((x : A) → In x (take n zs) → key y ≤ key x)
          → (x : A) → In x (z ∷ take n zs)
          → key y ≤ key x
      above h x (inl p) = rw p (d.0 y q)
      above h x (inr m) = h x m

-- the events from the day on in which the window of `since_seconds` begins
abbrev pub FromDay : Option ℕ → (now : ℕ) → Event → Type 0
FromDay none now e = Unit
FromDay (some since_seconds) now e =
    (now - since_seconds) / day_seconds ≤ e.created_at / day_seconds

abbrev pub OfSeverity : Option String → Event → Type 0
OfSeverity none e = Unit
OfSeverity (some severity) e = (severity ≡ "") ⊎ (e.severity ≡ severity)

recent_iff :
    (since : Option ℕ) (now : ℕ) (e : Event) → (recent since now e ≡ true) ↔ FromDay since now e
recent_iff none now e = (λ _. tt, λ _. refl)
recent_iff (some n) now e = (
  λ h. leb→le _ _ (sym (stamped_since-day e.created_at (now - n)) ∙ h),
  λ h. stamped_since-day e.created_at (now - n) ∙ le→leb _ _ h,
)

severity_fits_iff :
    (severity : Option String) (e : Event)
    → (severity_fits severity e ≡ true) ↔ OfSeverity severity e
severity_fits_iff none e = (λ _. tt, λ _. refl)
severity_fits_iff (some severity) e = elim (Bool-cases (str_eq severity "")) [
  | inl q ↦ (λ _. inl ((eq_iff severity "").0 q), λ _. rw q refl)
  | inr q ↦ (
    λ h. inr ((eq_iff e.severity severity).0 (rw q at h)),
    λ h. elim h [
      | inl r ↦ absurd (cc (q, (eq_iff severity "").1 r))
      | inr r ↦ rw q ((eq_iff e.severity severity).1 r)
    ],
  )
]

and_parts : (a b : Bool) → (a && b) ≡ true → (a ≡ true) × (b ≡ true)
and_parts true b h = (refl, h)
and_parts false b h = absurd cc

-- tail_events gives events newest first, at most as many as the limit. Each is one of the table, of
-- the severity that was asked for, if one was, and, if a window was, of the day in which it begins or
-- a later one: of that day also those from before the window. An event of the table with these
-- properties is given too, or there are exactly as many as the limit, all of them at least as new.
pub tail_events-newest :
    (db : Db) (since : Option ℕ) (severity : Option String) (limit now : ℕ)
    → Descending (λ e. e.created_at) (tail_events db since severity limit now)
      × (length (tail_events db since severity limit now) ≤ limit)
      × ((e : Event)
          → In e (tail_events db since severity limit now)
          → In e db.events × FromDay since now e × OfSeverity severity e)
      × ((e : Event)
          → In e db.events
          → FromDay since now e
          → OfSeverity severity e
          → In e (tail_events db since severity limit now)
            ⊎ ((length (tail_events db since severity limit now) ≡ limit)
                × ((d : Event)
                    → In d (tail_events db since severity limit now)
                    → e.created_at ≤ d.created_at)))
unfolding tail_events
tail_events-newest db since severity limit now =
    let wanted = is_wanted since severity now in
    let found = select wanted db.events in
    let ordered = order_desc-Descending (λ e. e.created_at) found in
    (
      take-Descending (λ (e : Event). e.created_at) limit _ ordered,
      length-take (λ (e : Event). e.created_at) limit _,
      λ e m. sound e (
          select-In wanted e db.events (
            order_desc-In (λ e. e.created_at) e found
              (take-In (λ (e : Event). e.created_at) limit e _ m))),
      λ e m f o.
          take-first (λ (e : Event). e.created_at) limit e _ ordered
            (In-order_desc (λ e. e.created_at) e found
              (In-select wanted e db.events m (complete e f o))),
    )
  where
    sound :
        (e : Event)
        → In e db.events × (is_wanted since severity now e ≡ true)
        → In e db.events × FromDay since now e × OfSeverity severity e
    sound e (m, h) =
        let (a, b) = and_parts (recent since now e) (severity_fits severity e) h in
        (m, (recent_iff since now e).0 a, (severity_fits_iff severity e).0 b)

    complete :
        (e : Event)
        → FromDay since now e
        → OfSeverity severity e
        → is_wanted since severity now e ≡ true
    complete e f o = rw ((recent_iff since now e).1 f, (severity_fits_iff severity e).1 o) refl
