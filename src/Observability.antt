-- ===== src/Observability.antt =====
-- The queries of ar724/observability.py: `compute_metrics`, `list_eval_results` and `tail_events`.
-- A time stamp is its second. `now_iso` writes a T between the date and the time, SQLite's
-- `datetime` a blank, and the queries compare these texts. Where two rows have one time stamp,
-- SQLite may give them in either order: here the earlier row comes first.
pub mod Tail
pub mod Examples
use Prim.Native.Nat.{◌%◌}
use ztrade_ares_7x.Base.{
  ltb, leb, ◌==◌, if◌then◌else◌, length, select, count, sum_by, ℕ, zero, suc, ◌-◌, ◌*◌, ◌/◌, max,
  String, Bool, true, false, ◌&&◌, ◌||◌, Option, none, some, List, [], ◌∷◌, map, str_eq,
}
use ztrade_ares_7x.Db.{
  RunStatus, Run, IterStatus, Iteration, PromotionStatus, Promotion, Event, EvalResult, Db,
}

-- the text of a time stamp: its date, the character behind it and the time of the day
pub record Stamp : Type 0 where
  pub day : ℕ
  pub separator : ℕ
  pub second : ℕ

abbrev pub day_seconds : ℕ
day_seconds = 86400

-- `now_iso`
abbrev pub iso : ℕ → Stamp
iso n = record { day = n / day_seconds; separator = 84; second = n % day_seconds }

-- `datetime`
abbrev pub sqlite_time : ℕ → Stamp
sqlite_time n = record { day = n / day_seconds; separator = 32; second = n % day_seconds }

-- `a >= b` of two texts: each part has a fixed width, so the first that differs decides
abbrev pub not_before : Stamp → Stamp → Bool
not_before a b =
    ltb b.day a.day
    || ((a.day == b.day)
        && (ltb b.separator a.separator || ((a.separator == b.separator) && leb b.second a.second)))

-- `created_at >= datetime(…)`
abbrev pub stamped_since : (created_at cutoff : ℕ) → Bool
stamped_since created_at cutoff = not_before (iso created_at) (sqlite_time cutoff)

module _ {A : Type 0} where
  abbrev pub insert_desc : (A → ℕ) → A → List A → List A
  insert_desc key x [] = x ∷ []
  insert_desc key x (y ∷ ys) =
      if leb (key y) (key x) then x ∷ (y ∷ ys) else y ∷ insert_desc key x ys

  -- ORDER BY key DESC
  abbrev pub order_desc : (A → ℕ) → List A → List A
  order_desc key [] = []
  order_desc key (x ∷ xs) = insert_desc key x (order_desc key xs)

  -- LIMIT n
  abbrev pub take : ℕ → List A → List A
  take zero xs = []
  take (suc n) [] = []
  take (suc n) (x ∷ xs) = x ∷ take n xs

  -- SELECT COALESCE(MAX(key), 0)
  abbrev pub max_by : (A → ℕ) → List A → ℕ
  max_by key [] = 0
  max_by key (x ∷ xs) = max (key x) (max_by key xs)

abbrev pub severity_fits : Option String → Event → Bool
severity_fits none e = true
severity_fits (some severity) e = if str_eq severity "" then true else str_eq e.severity severity

abbrev pub recent : Option ℕ → (now : ℕ) → Event → Bool
recent none now e = true
recent (some since_seconds) now e = stamped_since e.created_at (now - since_seconds)

-- the WHERE of `tail_events`
abbrev pub is_wanted : Option ℕ → Option String → (now : ℕ) → Event → Bool
is_wanted since_seconds severity now e = recent since_seconds now e && severity_fits severity e

unfoldable pub tail_events : Db → Option ℕ → Option String → (limit now : ℕ) → List Event
tail_events db since_seconds severity limit now =
    take limit
      (order_desc (λ e. e.created_at) (select (is_wanted since_seconds severity now) db.events))

unfoldable pub list_eval_results : Db → List EvalResult
list_eval_results db = order_desc (λ r. r.created_at) db.eval_results

pub record Metrics : Type 0 where
  pub runs_total_active : ℕ
  pub iterations_completed_total : ℕ
  pub iterations_completed_last_24h : ℕ
  pub promotion_committed_total : ℕ
  pub discards_consecutive_current : ℕ
  pub blockeds_consecutive_current : ℕ
  pub cost_cents_today : ℕ
  pub oscillation_detections_total : ℕ
  pub workers_active_current : ℕ
  pub evaluator_failures_consecutive : ℕ
  pub cost_cents_per_iter : ℕ

abbrev is_running_run : Run → Bool
is_running_run r = elim (r.status) [ RunStatus.running ↦ true | _ ↦ false ]

abbrev is_completed : Iteration → Bool
is_completed i = elim (i.status) [ IterStatus.completed ↦ true | _ ↦ false ]

abbrev is_committed : Promotion → Bool
is_committed p = elim (p.status) [ PromotionStatus.committed ↦ true | _ ↦ false ]

-- a NULL satisfies no comparison
abbrev completed_since : Option ℕ → (cutoff : ℕ) → Bool
completed_since none cutoff = false
completed_since (some t) cutoff = stamped_since t cutoff

-- the whole part of the average, 0 if there is none
abbrev pub average : List ℕ → ℕ
average [] = 0
average (c ∷ cs) = sum_by (λ x. x) (c ∷ cs) / length (c ∷ cs)

-- `completed_at` is that column of an iteration, and `running_slots` the number of the rows of
-- worker_slots that are running: nothing in the program writes either.
unfoldable pub compute_metrics :
    Db → (completed_at : Iteration → Option ℕ) → (running_slots now : ℕ) → Metrics
compute_metrics db completed_at running_slots now = record {
  runs_total_active = count is_running_run db.runs;
  iterations_completed_total = count is_completed db.iterations;
  iterations_completed_last_24h =
      count (λ i. is_completed i && completed_since (completed_at i) (now - day_seconds))
        db.iterations;
  promotion_committed_total = count is_committed db.promotions;
  discards_consecutive_current = max_by (λ r. r.consecutive_discards) db.runs;
  blockeds_consecutive_current = max_by (λ r. r.consecutive_blockeds) db.runs;
  cost_cents_today =
      sum_by (λ c. c.cost_cents)
        (select (λ c. stamped_since c.created_at (now / day_seconds * day_seconds)) db.cost_events);
  oscillation_detections_total = count (λ e. str_eq e.event_type "oscillation_detected") db.events;
  workers_active_current = running_slots;
  evaluator_failures_consecutive = max_by (λ r. r.consecutive_blockeds) db.runs;
  cost_cents_per_iter =
      average (map (λ c. c.cost_cents) (take 10 (order_desc (λ c. c.created_at) db.cost_events)));
}
