-- ===== src/Dag/Relax.antt =====
-- The inner loop of `topological_layers` in ar724/dag.py: the counters after it and what it queues.
use ztrade_ares_7x.Base.{
  if◌then◌else◌, Bool-cases, In, ℕ, zero, suc, ◌+◌, ◌-◌, ◌≤◌, ◌<◌, String, ◌≡◌, refl, sym, ◌∙◌, ap,
  subst, ◌⊎◌, inl, inr, true, List, [], ◌∷◌, ◌++◌, append-nil, append_assoc, arith, str_eq, eq_iff,
}
use ztrade_ares_7x.Base.Int.{pos}
use ztrade_ares_7x.Dag.{dec, is_zero, Degrees, lower, relax}
use ztrade_ares_7x.Dag.Counting.{occurrences}

-- What the loop appends to the queue.
abbrev pub fresh : Degrees → List String → List String
fresh deg [] = []
fresh deg (d ∷ ds) =
    let later = fresh (lower deg d) ds in if is_zero (dec (deg d)) then d ∷ later else later

pub relax-queue :
    (deg : Degrees) (queue ds : List String) → (relax deg queue ds).1 ≡ queue ++ fresh deg ds
unfolding relax
relax-queue deg queue [] = sym (append-nil queue)
relax-queue deg queue (d ∷ ds) = elim (Bool-cases (is_zero (dec (deg d)))) [
  | inl e ↦
      rw (e, relax) (relax-queue (lower deg d) (queue ++ d ∷ []) ds ∙ append_assoc queue (d ∷ []) _)
  | inr e ↦ rw (e, relax) (relax-queue (lower deg d) queue ds)
]

dec-pos : (m : ℕ) → 0 < m → dec (pos m) ≡ pos (m - 1)
dec-pos zero h = absurd (omega arith)
dec-pos (suc m) h = ap pos (omega arith)

dec-zero : (m : ℕ) → is_zero (dec (pos m)) ≡ true → m ≡ 1
dec-zero zero h = absurd cc
dec-zero (suc zero) h = refl
dec-zero (suc (suc m)) h = absurd cc

-- One step of the loop leaves the counter of `x` with enough for the rest of the list.
lower-enough :
    (deg : Degrees) (x d : String) (ds : List String) (m : ℕ)
    → deg x ≡ pos m
    → occurrences x (d ∷ ds) ≤ m
    → (k : ℕ) × (lower deg d x ≡ pos k) × (k + occurrences x (d ∷ ds) ≡ m + occurrences x ds)
lower-enough deg x d ds m e h = elim (Bool-cases (str_eq d x)) [
  | inl same ↦
      let some_left : 0 < m = ground arith in
      (
        m - 1,
        rw same (ap (λ z. dec (deg z)) ((eq_iff d x).0 same) ∙ ap dec e ∙ dec-pos m some_left),
        rw same (omega arith),
      )
  | inr other ↦ (m, rw other e, rw other (omega arith))
]

-- The loop lowers each counter by as often as its task occurs.
pub relax-degree :
    (deg : Degrees) (queue ds : List String) (x : String) (m : ℕ)
    → deg x ≡ pos m
    → occurrences x ds ≤ m
    → (relax deg queue ds).0 x ≡ pos (m - occurrences x ds)
unfolding relax
relax-degree deg queue [] x m e h = e ∙ ap pos (omega arith)
relax-degree deg queue (d ∷ ds) x m e h =
    let (k, now, balance) = lower-enough deg x d ds m e h in
    relax-degree (lower deg d) _ ds x k now (omega (arith, balance))
    ∙ ap pos (omega (arith, balance))

-- A queued task had as many dependencies left as it lost in the loop.
pub fresh-lost :
    (deg : Degrees) (ds : List String) (x : String) (m : ℕ)
    → deg x ≡ pos m
    → occurrences x ds ≤ m
    → In x (fresh deg ds)
    → (m ≡ occurrences x ds) × (0 < m)
fresh-lost deg [] x m e h i = absurd i
fresh-lost deg (d ∷ ds) x m e h i =
    let (k, now, balance) = lower-enough deg x d ds m e h in
    let later : In x (fresh (lower deg d) ds) → (m ≡ occurrences x (d ∷ ds)) × (0 < m) = λ j.
      let (all_of, some_of) = fresh-lost (lower deg d) ds x k now (omega (arith, balance)) j in
      (omega (arith, all_of, balance), omega (arith, some_of, balance, all_of)) in
    elim (Bool-cases (is_zero (dec (deg d)))) [
      | inl zeroed ↦ elim (rw zeroed at i) as (λ _. (m ≡ occurrences x (d ∷ ds)) × (0 < m)) [
        | inl same ↦
            let one =
              dec-zero m (subst (λ z. is_zero (dec z) ≡ true) (sym (ap deg same) ∙ e) zeroed) in
            let here = (eq_iff d x).1 (sym same) in ground (arith, one, here)
        | inr j ↦ later j
      ]
      | inr e' ↦ later (rw e' at i)
    ]

pub zero-cases : (n : ℕ) → (n ≡ 0) ⊎ (0 < n)
zero-cases zero = inl refl
zero-cases (suc n) = inr (omega arith)

-- A task that loses all the dependencies it had left is queued.
pub lost-fresh :
    (deg : Degrees) (ds : List String) (x : String)
    → deg x ≡ pos (occurrences x ds)
    → 0 < occurrences x ds
    → In x (fresh deg ds)
lost-fresh deg [] x e h = absurd (omega arith)
lost-fresh deg (d ∷ ds) x e h =
    let (k, now, balance) = lower-enough deg x d ds (occurrences x (d ∷ ds)) e (omega arith) in
    let left : lower deg d x ≡ pos (occurrences x ds) = now ∙ ap pos (omega (arith, balance)) in
    elim (zero-cases (occurrences x ds)) [
      | inr some_left ↦ keep (lost-fresh (lower deg d) ds x left some_left)
      | inl none_left ↦
          let here : str_eq d x ≡ true = ground arith in
          let same = (eq_iff d x).0 here in
          let one : occurrences x (d ∷ ds) ≡ 1 = rw here (omega (arith, none_left)) in
          let zeroed : is_zero (dec (deg d)) ≡ true =
            ap (λ z. is_zero (dec z)) (ap deg same ∙ e ∙ ap pos one) in
          rw zeroed (inl (sym same))
    ]
  where
    keep : In x (fresh (lower deg d) ds) → In x (fresh deg (d ∷ ds))
    keep i = elim (Bool-cases (is_zero (dec (deg d)))) [ inl z ↦ rw z (inr i) | inr z ↦ rw z i ]
