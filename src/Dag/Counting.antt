-- ===== src/Dag/Counting.antt =====
-- How often a task stands among the dependents of processed tasks: ar724/dag.py
use ztrade_ares_7x.Base.{
  if◌then◌else◌, Bool-cases, length, In, count, among, among→In, In→among, Distinct, ℕ, ◌+◌, ◌≤◌,
  ◌<◌, String, ◌≡◌, refl, sym, ◌∙◌, ap, subst, inl, inr, Bool, true, false, List, [], ◌∷◌, ◌++◌,
  arith, str_eq, eq_iff,
}
use ztrade_ares_7x.Dag.{ids, graph, once_each, dependents, downstream, Task}

abbrev pub occurrences : String → List String → ℕ
occurrences x xs = count (λ d. str_eq d x) xs

pub occurrences-append :
    (x : String) (xs ys : List String)
    → occurrences x (xs ++ ys) ≡ occurrences x xs + occurrences x ys
occurrences-append x [] ys = omega arith
occurrences-append x (d ∷ ds) ys = ground (arith, occurrences-append x ds ys)

pub occurrences-In : (x : String) (xs : List String) → 0 < occurrences x xs → In x xs
occurrences-In x [] h = absurd (omega arith)
occurrences-In x (d ∷ ds) h = elim (Bool-cases (str_eq d x)) [
  | inl e ↦ inl (sym ((eq_iff d x).0 e))
  | inr e ↦ inr (occurrences-In x ds (ground arith))
]

occurrences-absent : (x : String) (xs : List String) → among xs x ≡ false → occurrences x xs ≡ 0
occurrences-absent x [] h = refl
occurrences-absent x (d ∷ ds) h = ground (arith, eq_iff d x, eq_iff x d, occurrences-absent x ds)

-- How many entries of `ds` the names `ps` are, counted name by name.
abbrev pub hits : List String → List String → ℕ
hits [] ds = 0
hits (p ∷ ps) ds = occurrences p ds + hits ps ds

pub hits-append : (ps qs ds : List String) → hits (ps ++ qs) ds ≡ hits ps ds + hits qs ds
hits-append [] qs ds = omega arith
hits-append (p ∷ ps) qs ds = omega (arith, hits-append ps qs ds)

count-among_cons :
    (p : String) (ps ds : List String)
    → among ps p ≡ false
    → count (among (p ∷ ps)) ds ≡ occurrences p ds + count (among ps) ds
count-among_cons p ps [] h = omega arith
count-among_cons p ps (d ∷ ds) h = elim (Bool-cases (str_eq d p)) [
  | inl e ↦
      let same = (eq_iff d p).0 e in
      let absent : among ps d ≡ false = ap (among ps) same ∙ h in
      ground (arith, count-among_cons p ps ds h)
  | inr e ↦ ground (arith, count-among_cons p ps ds h)
]

-- For distinct names this is the number of entries that are among them.
hits-eq_count : (ps ds : List String) → Distinct ps → hits ps ds ≡ count (among ps) ds
hits-eq_count [] ds d = none_of ds
  where
    none_of : (ds : List String) → 0 ≡ count (among []) ds
    none_of [] = refl
    none_of (x ∷ xs) = omega (arith, none_of xs)
hits-eq_count (p ∷ ps) ds d = omega (arith, hits-eq_count ps ds d.1, count-among_cons p ps ds d.0)

count-length : (p : String → Bool) (xs : List String) → count p xs ≤ length xs
count-length p [] = omega arith
count-length p (x ∷ xs) = ground (arith, count-length p xs)

count-full :
    (p : String → Bool) (xs : List String)
    → count p xs ≡ length xs
    → (x : String) → In x xs
    → p x ≡ true
count-full p [] h x m = absurd m
count-full p (y ∷ ys) h x (inl e) =
    subst (λ z. p z ≡ true) (sym e) (ground (arith, count-length p ys))
count-full p (y ∷ ys) h x (inr m) = count-full p ys (ground (arith, count-length p ys)) x m

count-all :
    (p : String → Bool) (xs : List String)
    → ((x : String) → In x xs → p x ≡ true)
    → count p xs ≡ length xs
count-all p [] h = refl
count-all p (y ∷ ys) h =
    let here = h y (inl refl) in ground (arith, count-all p ys (λ x m. h x (inr m)))

pub hits-le : (ps ds : List String) → Distinct ps → hits ps ds ≤ length ds
hits-le ps ds d = omega (arith, hits-eq_count ps ds d, count-length (among ps) ds)

pub hits-full :
    (ps ds : List String) → Distinct ps → hits ps ds ≡ length ds → (x : String) → In x ds → In x ps
hits-full ps ds d h x m =
    among→In ps x (count-full (among ps) ds (sym (hits-eq_count ps ds d) ∙ h) x m)

pub hits-all :
    (ps ds : List String)
    → Distinct ps
    → ((x : String) → In x ds → In x ps)
    → hits ps ds ≡ length ds
hits-all ps ds d h = hits-eq_count ps ds d ∙ count-all (among ps) ds (λ x m. In→among ps x (h x m))

once_each-occurrences :
    (t x tid : String) (ds : List String)
    → occurrences x (once_each t tid ds) ≡ (if str_eq t x then occurrences tid ds else 0)
once_each-occurrences t x tid [] = ground arith
once_each-occurrences t x tid (d ∷ ds) = ground (arith, once_each-occurrences t x tid ds)

dependents-absent :
    (tasks : List Task) (x tid : String)
    → among (ids tasks) x ≡ false
    → occurrences x (dependents tasks tid) ≡ 0
dependents-absent [] x tid h = refl
dependents-absent (t ∷ ts) x tid h = ground (
  arith,
  occurrences-append x (once_each t.id tid t.depends_on) (dependents ts tid),
  once_each-occurrences t.id x tid t.depends_on,
  dependents-absent ts x tid,
  eq_iff x t.id,
  eq_iff t.id x,
)

-- A task stands among the dependents of another as often as it depends on it.
dependents-occurrences :
    (tasks : List Task) (x tid : String)
    → Distinct (ids tasks)
    → occurrences x (dependents tasks tid) ≡ occurrences tid (graph tasks x)
dependents-occurrences [] x tid d = refl
dependents-occurrences (t ∷ ts) x tid d =
    let split = occurrences-append x (once_each t.id tid t.depends_on) (dependents ts tid) in
    let own = once_each-occurrences t.id x tid t.depends_on in
    elim (Bool-cases (among (ids ts) x)) [
      | inl e ↦
          let apart : str_eq t.id x ≡ false = other e in
          let rest = dependents-occurrences ts x tid d.1 in
          rw e (split ∙ omega (arith, rw apart at own, rest))
      | inr e ↦ elim (Bool-cases (str_eq t.id x)) [
        | inl s ↦ rw (e, s) (split ∙ omega (arith, rw s at own, dependents-absent ts x tid e))
        | inr s ↦ rw (e, s) (split ∙ omega (arith, rw s at own, dependents-absent ts x tid e))
      ]
    ]
  where
    other : among (ids ts) x ≡ true → str_eq t.id x ≡ false
    other e = elim (Bool-cases (str_eq t.id x)) [
      | inl s ↦ absurd (cc (e, d.0, ap (among (ids ts)) ((eq_iff t.id x).0 s)))
      | inr s ↦ s
    ]

pub downstream-hits :
    (tasks : List Task) (x : String) (layer : List String)
    → Distinct (ids tasks)
    → occurrences x (downstream tasks layer) ≡ hits layer (graph tasks x)
downstream-hits tasks x [] d = refl
downstream-hits tasks x (tid ∷ tids) d = omega (
  arith,
  occurrences-append x (dependents tasks tid) (downstream tasks tids),
  dependents-occurrences tasks x tid d,
  downstream-hits tasks x tids d,
)
