-- ===== src/Oscillation/Checking.antt =====
-- `_check_oscillation` of ar724/conductor.py: the detectors of the runs, which one process keeps.
-- Nothing calls it but what stands behind the expression at which the tick raises.
use ztrade_ares_7x.Base.{
  ◌==◌, if◌then◌else◌, find, ℕ, String, ◌≡◌, refl, ◌∙◌, Bool, false, Option, none, some, List, [],
  ◌∷◌, arith, str_eq,
}
use ztrade_ares_7x.Base.Result.{Result, attribute_error, err, ok}
use ztrade_ares_7x.Db.{Candidate, Db}
use ztrade_ares_7x.Events.{insert_event, iter_event}
use ztrade_ares_7x.Oscillation.{default_detector, observe, Param, Detector, Trigger}
use ztrade_ares_7x.Settings.{LoopConfig}

-- what is at the path of a candidate: no file, one that cannot be read as JSON, JSON that is no
-- object, or an object with its factor_weights, which may be no dictionary or an empty one
pub data MutableFile : Type 0 where
  missing unreadable no_object no_weights : MutableFile
  weights : (first : Param) (others : List Param) → MutableFile

abbrev pub Detectors : Type 0
Detectors = List (ℕ × Detector)

-- `setdefault(run_id, OscillationDetector())`
abbrev pub detector_of : (run_id : ℕ) → Detectors → Detector
detector_of run_id [] = default_detector
detector_of run_id ((r, d) ∷ ds) =
    let rest = detector_of run_id ds in if r == run_id then d else rest

abbrev pub put_detector : (run_id : ℕ) → Detector → Detectors → Detectors
put_detector run_id d [] = (run_id, d) ∷ []
put_detector run_id d ((r, old) ∷ ds) =
    if r == run_id then (r, d) ∷ ds else (r, old) ∷ put_detector run_id d ds

abbrev policy_of : LoopConfig → String
policy_of c = elim (c.oscillation_policy) [ none ↦ "warn" | some policy ↦ policy ]

-- behind `observe`: the event, and whether the policy is to halt
abbrev pub settle :
    Db
    → LoopConfig
    → (run_id iter_id now : ℕ) → Detectors
    → Detector × List Trigger
    → Result Bool × (Db × Detectors)
settle db config run_id iter_id now ds (d, []) = (ok false, (db, put_detector run_id d ds))
settle db config run_id iter_id now ds (d, t ∷ ts) = (
  ok (str_eq (policy_of config) "halt"),
  (
    insert_event db (iter_event "oscillation_detected" "warn" run_id iter_id now),
    put_detector run_id d ds,
  ),
)

module _ (digest : List (String × String) → String) (file_at : String → MutableFile)
    (config : LoopConfig) where
  abbrev pub check_file :
      Db → (run_id iter_id now : ℕ) → Detectors → MutableFile → Result Bool × (Db × Detectors)
  check_file db run_id iter_id now ds (weights p ps) =
      settle db config run_id iter_id now ds (observe digest (detector_of run_id ds) (p ∷ ps))
  check_file db run_id iter_id now ds no_object = (err attribute_error, (db, ds))
  check_file db run_id iter_id now ds _ = (ok false, (db, ds))

  abbrev path_or_empty : Option String → String
  path_or_empty none = ""
  path_or_empty (some path) = path

  abbrev check_candidate :
      Db → (run_id iter_id now : ℕ) → Detectors → Option Candidate → Result Bool × (Db × Detectors)
  check_candidate db run_id iter_id now ds none = (ok false, (db, ds))
  check_candidate db run_id iter_id now ds (some c) =
      check_file db run_id iter_id now ds (file_at (path_or_empty c.mutable_path))

  unfoldable pub check_oscillation :
      Db
      → (run_id : ℕ) (candidate_hash : String) (iter_id now : ℕ) → Detectors
      → Result Bool × (Db × Detectors)
  unfolding insert_event observe
  check_oscillation db run_id candidate_hash iter_id now ds =
      check_candidate db run_id iter_id now ds
        (find (λ c. str_eq c.hash candidate_hash) db.candidates)

detector_of-put :
    (run_id r : ℕ) (d : Detector) (ds : Detectors)
    → detector_of r (put_detector run_id d ds) ≡ (if run_id == r then d else detector_of r ds)
detector_of-put run_id r d [] = refl
detector_of-put run_id r d ((k, old) ∷ ds) = ground (arith, detector_of-put run_id r d ds)

settle-others :
    (db : Db) (config : LoopConfig) (run_id iter_id now r : ℕ) (ds : Detectors)
    (seen : Detector × List Trigger)
    → (run_id == r) ≡ false
    → detector_of r (settle db config run_id iter_id now ds seen).1.1 ≡ detector_of r ds
settle-others db config run_id iter_id now r ds (d, []) other =
    detector_of-put run_id r d ds ∙ rw other
settle-others db config run_id iter_id now r ds (d, t ∷ ts) other =
    detector_of-put run_id r d ds ∙ rw other

-- A check for one run leaves the detectors of all others as they were, whatever it finds.
check_oscillation-others :
    (digest : List (String × String) → String) (file_at : String → MutableFile)
    (config : LoopConfig) (db : Db) (run_id : ℕ) (hash : String) (iter_id now r : ℕ)
    (ds : Detectors)
    → (run_id == r) ≡ false
    → detector_of r (check_oscillation digest file_at config db run_id hash iter_id now ds).1.1
      ≡ detector_of r ds
unfolding check_oscillation
check_oscillation-others digest file_at config db run_id hash iter_id now r ds other =
    by_candidate (find (λ c. str_eq c.hash hash) db.candidates)
  where
    by_file :
        (f : MutableFile)
        → detector_of r (check_file digest file_at config db run_id iter_id now ds f).1.1
          ≡ detector_of r ds
    by_file (weights p ps) =
        settle-others db config run_id iter_id now r ds
          (observe digest (detector_of run_id ds) (p ∷ ps)) other
    by_file no_object = refl
    by_file missing = refl
    by_file unreadable = refl
    by_file no_weights = refl

    by_candidate :
        (c : Option Candidate)
        → detector_of r (check_candidate digest file_at config db run_id iter_id now ds c).1.1
          ≡ detector_of r ds
    by_candidate none = refl
    by_candidate (some c) = by_file (file_at (path_or_empty digest file_at config c.mutable_path))
