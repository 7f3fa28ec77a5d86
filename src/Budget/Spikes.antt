-- ===== src/Budget/Spikes.antt =====
-- The anomaly detector of ar724/budget.py
use ztrade_ares_7x.Base.{
  length, length-append, length-drop, ℕ, ◌+◌, ◌-◌, ◌≤◌, min, ◌≡◌, Option, List, [], ◌∷◌, ◌++◌,
  arith,
}
use ztrade_ares_7x.Budget.{
  append_bounded, observe_call, days_kept, observe_daily, observe_iter, AnomalyDetector, Anomaly,
}

pub length-append_bounded :
    {A : Type 0} (window : ℕ) (xs : List A) (x : A)
    → length (append_bounded window xs x) ≡ min window (length xs + 1)
length-append_bounded window xs x =
    omega (arith, length-drop (length xs + 1 - window) (xs ++ x ∷ []), length-append xs (x ∷ []))

-- No window grows past its bound, whatever costs are observed.
pub record IsBounded (d : AnomalyDetector) : Type 0 where
  pub calls : length d.recent_per_call ≤ d.window
  pub days : length d.recent_daily ≤ days_kept
  pub iters : length d.recent_per_iter ≤ d.window

pub data Observation : Type 0 where
  call daily iter : ℕ → Observation

abbrev pub observe : AnomalyDetector → Observation → AnomalyDetector × Option Anomaly
observe d (call c) = observe_call d c
observe d (daily c) = observe_daily d c
observe d (iter c) = observe_iter d c

abbrev pub observe_all : AnomalyDetector → List Observation → AnomalyDetector
observe_all d [] = d
observe_all d (o ∷ os) = observe_all (observe d o).0 os

observe-IsBounded :
    (d : AnomalyDetector) (o : Observation) → IsBounded d → IsBounded (observe d o).0
unfolding observe_call observe_daily observe_iter
observe-IsBounded d (call c) h = record {
  calls = omega (arith, length-append_bounded d.window d.recent_per_call c);
  days = h.days;
  iters = h.iters;
}
observe-IsBounded d (daily c) h = record {
  calls = h.calls;
  days = omega (arith, length-append_bounded days_kept d.recent_daily c);
  iters = h.iters;
}
observe-IsBounded d (iter c) h = record {
  calls = h.calls;
  days = h.days;
  iters = omega (arith, length-append_bounded d.window d.recent_per_iter c);
}

-- From a new detector, whatever costs are observed in whichever order, each deque stays within
-- its bound: the window for calls and iterations, seven for days.
pub observe_all-IsBounded :
    (d : AnomalyDetector) (os : List Observation) → IsBounded d → IsBounded (observe_all d os)
observe_all-IsBounded d [] h = h
observe_all-IsBounded d (o ∷ os) h =
    observe_all-IsBounded (observe d o).0 os (observe-IsBounded d o h)
