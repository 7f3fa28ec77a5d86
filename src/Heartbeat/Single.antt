-- ===== src/Heartbeat/Single.antt =====
-- How many threads a `HeartbeatTimer` of ar724/heartbeat.py has.
use ztrade_ares_7x.Base.{
  if◌then◌else◌, Bool-cases, In, ℕ, ◌≡◌, refl, sym, ◌∙◌, ap, subst, ◌⊎◌, inl, inr, Bool, true,
  false, Option, none, some, List, [], ◌∷◌, arith,
}
use ztrade_ares_7x.Db.{Db}
use ztrade_ares_7x.Heartbeat.{
  alive, start, begin_stop, end_stop, moved, ended, beat_once, advance, new_timer, Place, Thread,
  Timer, Answer, Step, Steps, testing, beating, waiting, update_raises, append_raises, done, starts,
  stops, joins, gives_up, runs, here, then_step,
}

-- no thread, or the one that the handle names
abbrev pub Single : Option ℕ → List Thread → Type 0
Single handle threads =
    (threads ≡ []) ⊎ ((th : Thread) × (threads ≡ th ∷ []) × (handle ≡ some th.id))

alive-one : (th : Thread) → alive (some th.id) (th ∷ []) ≡ true
alive-one th = ground arith

dead-none :
    (handle : Option ℕ) (threads : List Thread)
    → Single handle threads
    → alive handle threads ≡ false
    → threads ≡ []
dead-none handle threads (inl e) h = e
dead-none handle threads (inr (th, e, f)) h = absurd (cc (alive-one th, rw (e, f) at h))

start-Single : (t : Timer) → Single t.handle t.threads → Single (start t).handle (start t).threads
unfolding start
start-Single t s = elim (Bool-cases (alive t.handle t.threads)) [
  | inl e ↦ rw e s
  | inr e ↦
      let empty = dead-none t.handle t.threads s e in
      rw e (inr (record { id = t.next_id; place = testing }, rw empty refl, refl))
]

beat_once-keeps :
    (job_id : ℕ) (has_path : Bool) (answer : Answer) (now : ℕ) (t : Timer)
    → (beat_once job_id has_path answer now t).handle ≡ t.handle
unfolding beat_once
beat_once-keeps job_id has_path update_raises now t = refl
beat_once-keeps job_id has_path append_raises now t = refl
beat_once-keeps job_id true done now t = refl
beat_once-keeps job_id false done now t = refl

moved-Single :
    (th : Thread) (place : Place) (handle : Option ℕ)
    → handle ≡ some th.id
    → Single handle (moved th.id place (th ∷ []))
moved-Single th place handle h = inr (record th { place = place }, ground arith, h)

moved-Single_in :
    (th : Thread) (place : Place) (handle : Option ℕ) (threads : List Thread)
    → threads ≡ th ∷ []
    → handle ≡ some th.id
    → Single handle (moved th.id place threads)
moved-Single_in th place handle threads e h = rw e (moved-Single th place handle h)

ended-Single : (th : Thread) (handle : Option ℕ) → Single handle (ended th.id (th ∷ []))
ended-Single th handle = inl (ground arith)

stop_or_move :
    (b : Bool) (th : Thread) (place : Place) (handle : Option ℕ)
    → handle ≡ some th.id
    → Single handle (if b then ended th.id (th ∷ []) else moved th.id place (th ∷ []))
stop_or_move true th place handle h = ended-Single th handle
stop_or_move false th place handle h = moved-Single th place handle h

advance-Single :
    (job_id : ℕ) (has_path : Bool) (answer : Answer) (now : ℕ) (place : Place) (th : Thread)
    (t : Timer)
    → t.threads ≡ th ∷ []
    → t.handle ≡ some th.id
    → th.place ≡ place
    → Single
        (advance job_id has_path answer now th t).handle
        (advance job_id has_path answer now th t).threads
unfolding advance
advance-Single job_id has_path answer now testing th t e f p =
    rw p (rw e (stop_or_move t.stop_event th beating t.handle f))
advance-Single job_id has_path answer now waiting th t e f p =
    rw p (rw e (stop_or_move t.stop_event th testing t.handle f))
advance-Single job_id has_path answer now beating th t e f p =
    let after = beat_once job_id has_path answer now t in
    rw p (
      moved-Single_in th waiting after.handle t.threads e
        (beat_once-keeps job_id has_path answer now t ∙ f))

one_entry : (x th : Thread) (threads : List Thread) → In x threads → threads ≡ th ∷ [] → x ≡ th
one_entry x th threads m e = only_entry (subst (In x) e m)
  where
    only_entry : In x (th ∷ []) → x ≡ th
    only_entry (inl q) = q
    only_entry (inr q) = absurd q

Step-Single :
    (job_id : ℕ) (has_path : Bool) {t u : Timer}
    → Step job_id has_path true t u
    → Single t.handle t.threads
    → Single u.handle u.threads
unfolding begin_stop end_stop
Step-Single job_id has_path (starts t free) s = start-Single t s
Step-Single job_id has_path (stops t free) s = s
Step-Single job_id has_path (joins t busy dead) s = inl (dead-none t.handle t.threads s dead)
Step-Single job_id has_path (gives_up t patient busy) s = absurd cc
Step-Single job_id has_path (runs t thread answer now m) (inl e) = absurd (subst (In thread) e m)
Step-Single job_id has_path (runs t thread answer now m) (inr (th, e, f)) =
    let same = one_entry thread th t.threads m e in
    advance-Single job_id has_path answer now thread.place thread t (rw same e)
      (f ∙ ap (λ (x : Thread). some x.id) (sym same)) refl

Steps-Single :
    (job_id : ℕ) (has_path : Bool) {t u : Timer}
    → Steps job_id has_path true t u
    → Single t.handle t.threads
    → Single u.handle u.threads
Steps-Single job_id has_path here s = s
Steps-Single job_id has_path (then_step before last) s =
    Step-Single job_id has_path last (Steps-Single job_id has_path before s)

-- As long as no wait of `stop` runs out, however start, stop and the steps of the threads follow one
-- another, a new timer has one thread at most, which is the one that its handle names; and where
-- the handle is None, as after each stop, no thread is left that could beat.
pub new_timer-Single :
    (job_id : ℕ) (has_path : Bool) (db : Db) (t : Timer)
    → Steps job_id has_path true (new_timer db) t
    → Single t.handle t.threads × (t.handle ≡ none → t.threads ≡ [])
new_timer-Single job_id has_path db t r =
    let single = Steps-Single job_id has_path r (inl refl) in
    (single, λ h. dead-none t.handle t.threads single (rw h refl))

-- Where a wait of `stop` runs out while the thread of the handle is still in its beat, a `start`
-- behind it gives the timer one thread more, and lets the old one beat on.
pub given_up-beats :
    (job_id : ℕ) (has_path : Bool) (t : Timer) (th : Thread)
    → t.joining ≡ false
    → t.threads ≡ th ∷ []
    → t.handle ≡ some th.id
    → (u : Timer) × Steps job_id has_path false t u
      × (u.threads ≡ th ∷ (record { id = t.next_id; place = testing } ∷ []))
      × (u.stop_event ≡ false)
unfolding start begin_stop end_stop
given_up-beats job_id has_path t th free e f =
    let stopped = begin_stop t in
    (
      start (end_stop stopped),
      then_step (then_step (then_step here (stops t free)) (gives_up stopped refl (rw f refl)))
          (starts (end_stop stopped) refl),
      rw e refl,
      refl,
    )
