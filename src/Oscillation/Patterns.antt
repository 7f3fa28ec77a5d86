-- ===== src/Oscillation/Patterns.antt =====
-- Which patterns the detector of ar724/oscillation.py reports, at its default thresholds.
use native.Mathlib.Decide.{dec_lt}
use text.Mathlib.TextPositions.{eq_refl}
use ztrade_ares_7x.Base.{
  length, drop, length-drop, ℕ, zero, suc, ◌+◌, ◌-◌, ◌<◌, String, ◌≡◌, refl, sym, ap, subst, ◌≢◌,
  List, [], ◌∷◌, arith, eq_iff,
}
use ztrade_ares_7x.Oscillation.{
  default_detector, recent, param_signal, observe, Param, Detector, joint_structural, per_param,
}
use ztrade_ares_7x.Oscillation.Window.{observe_all}

abbrev pub times : ℕ → Param → List (List Param)
times zero p = []
times (suc n) p = (p ∷ []) ∷ times n p

module _ (digest : List (String × String) → String) where
  -- A candidate that never changes is reported: the sixth time in a row that the same single
  -- parameter is observed, both signals fire, with one structural state and six occurrences.
  observe-constant :
      (p : Param)
      → (observe digest (observe_all digest default_detector (times 5 p)) (p ∷ [])).1
        ≡ joint_structural 1 ∷ per_param p.name 6 ∷ []
  unfolding observe
  observe-constant p = simp eq_refl

abbrev pub alternate : ℕ → String → String → List String
alternate zero a b = []
alternate (suc n) a b = a ∷ alternate n b a

alternating_full :
    (name a b : String) → a ≢ b → param_signal default_detector name (alternate 6 a b) ≡ []
unfolding param_signal
alternating_full name a b ne = ground (arith, eq_iff a b, eq_iff b a, eq_iff a a, eq_iff b b)

alternating_late :
    (name : String) (k : ℕ) (a b : String)
    → a ≢ b
    → param_signal default_detector name (drop k (alternate (k + 6) a b)) ≡ []
alternating_late name zero a b ne = alternating_full name a b ne
alternating_late name (suc k) a b ne =
    let e : suc k + 6 ≡ suc (k + 6) = omega arith in
    rw e (alternating_late name k b a (λ p. ne (sym p)))

length-alternate : (n : ℕ) (a b : String) → length (alternate n a b) ≡ n
length-alternate zero a b = refl
length-alternate (suc n) a b = ap suc (length-alternate n b a)

param_signal-short :
    (d : Detector) (name : String) (values : List String)
    → length values < d.window
    → param_signal d name values ≡ []
unfolding param_signal
param_signal-short d name values h = ground arith

-- Strict alternation is no oscillation for the parameter signal: however often two different
-- values have taken turns, neither occurs four times among the last six, and the signal is silent.
param_signal-alternating :
    (name a b : String) (n : ℕ)
    → a ≢ b
    → param_signal default_detector name (recent 6 (alternate n a b)) ≡ []
param_signal-alternating name a b n ne = elim (dec_lt n 6) [
  | yes few ↦ param_signal-short default_detector name (recent 6 (alternate n a b)) (
      omega (
        arith,
        length-alternate n a b,
        length-drop (length (alternate n a b) - 6) (alternate n a b),
      ))
  | no many ↦
      let k = n - 6 in
      let e : n ≡ k + 6 = omega arith in
      rw (length-alternate n a b) (
        subst (λ m. param_signal default_detector name (drop k (alternate m a b)) ≡ []) (sym e)
          (alternating_late name k a b ne))
]
