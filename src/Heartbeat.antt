-- ===== src/Heartbeat.antt =====
-- `HeartbeatTimer` of ar724/heartbeat.py: the object, its threads, and the steps that they take in
-- turn. The clock and what the database and the file answer are arguments of a beat. The callback
-- `on_heartbeat` is left out.
pub mod Single
pub mod Examples
use ztrade_ares_7x.Base.{
  ◌==◌, if◌then◌else◌, is_some, any, In, update_where, delete_where, count, ℕ, ◌+◌, ◌≡◌, Bool, true,
  false, Option, none, some, List, [], ◌∷◌, ◌++◌,
}
use ztrade_ares_7x.Db.{Db}
use ztrade_ares_7x.Jobs.{beat}

-- where a thread stands in `_run`: before the test of the event, in `_beat`, or in `wait`
pub data Place : Type 0 where
  testing beating waiting : Place

pub record Thread : Type 0 where
  pub id : ℕ
  pub place : Place

-- a line of events.jsonl: its id is made of the job and the count
pub record Line : Type 0 where
  pub beat_count : ℕ
  pub created_at : ℕ

-- `joining` holds while `stop` waits for the thread of `handle`; `threads` are those alive.
pub record Timer : Type 0 where
  pub stop_event : Bool
  pub handle : Option ℕ
  pub beat_count : ℕ
  pub joining : Bool
  pub threads : List Thread
  pub next_id : ℕ
  pub db : Db
  pub lines : List Line

abbrev pub alive : Option ℕ → List Thread → Bool
alive none threads = false
alive (some i) threads = any (λ t. t.id == i) threads

unfoldable pub start : Timer → Timer
start t = if alive t.handle t.threads then t else record t {
  stop_event = false;
  handle = some t.next_id;
  threads = t.threads ++ record { id = t.next_id; place = testing } ∷ [];
  next_id = t.next_id + 1;
}

-- `stop` up to its wait
unfoldable pub begin_stop : Timer → Timer
begin_stop t = record t { stop_event = true; joining = is_some t.handle }

-- `stop` behind its wait, whether the thread has ended or the time is up
unfoldable pub end_stop : Timer → Timer
end_stop t = record t { handle = none; joining = false }

-- what happens in a beat: the UPDATE raises, the line cannot be written, or neither
pub data Answer : Type 0 where
  update_raises append_raises done : Answer

abbrev pub moved : ℕ → Place → List Thread → List Thread
moved i place threads = update_where (λ t. t.id == i) (λ t. record t { place = place }) threads

abbrev pub ended : ℕ → List Thread → List Thread
ended i threads = delete_where (λ t. t.id == i) threads

-- `_append_event`
abbrev pub append_event : (has_path : Bool) → (now : ℕ) → Timer → Timer
append_event has_path now t =
    if has_path
    then record t { lines = t.lines ++ record { beat_count = t.beat_count; created_at = now } ∷ [] }
    else t

-- `_beat`, behind the count
abbrev pub write_beat : (job_id : ℕ) (has_path : Bool) → Answer → (now : ℕ) → Timer → Timer
write_beat job_id has_path update_raises now t = t
write_beat job_id has_path append_raises now t = record t { db = beat t.db job_id now }
write_beat job_id has_path done now t =
    append_event has_path now (record t { db = beat t.db job_id now })

unfoldable pub beat_once : (job_id : ℕ) (has_path : Bool) → Answer → (now : ℕ) → Timer → Timer
unfolding beat
beat_once job_id has_path answer now t =
    write_beat job_id has_path answer now (record t { beat_count = t.beat_count + 1 })

-- one step of `_run` in the thread `i`
unfoldable pub advance :
    (job_id : ℕ) (has_path : Bool) → Answer → (now : ℕ) → Thread → Timer → Timer
unfolding beat_once
advance job_id has_path answer now thread t = elim (thread.place) [
  | testing ↦ record t {
    threads = if t.stop_event then ended thread.id t.threads else moved thread.id beating t.threads;
  }
  | beating ↦
      let after = beat_once job_id has_path answer now t in
      record after { threads = moved thread.id waiting t.threads }
  | waiting ↦ record t {
    threads = if t.stop_event then ended thread.id t.threads else moved thread.id testing t.threads;
  }
]

-- The steps of the owner of a timer and of its threads. With `patient` no wait of `stop` runs out.
pub data Step (job_id : ℕ) (has_path patient : Bool) : Timer → Timer → Type 0 where
  starts : (t : Timer) → t.joining ≡ false → Step job_id has_path patient t (start t)
  stops : (t : Timer) → t.joining ≡ false → Step job_id has_path patient t (begin_stop t)
  joins :
      (t : Timer)
      → t.joining ≡ true
      → alive t.handle t.threads ≡ false
      → Step job_id has_path patient t (end_stop t)
  gives_up :
      (t : Timer) → patient ≡ false → t.joining ≡ true → Step job_id has_path patient t (end_stop t)
  runs :
      (t : Timer) (thread : Thread) (answer : Answer) (now : ℕ)
      → In thread t.threads
      → Step job_id has_path patient t (advance job_id has_path answer now thread t)

pub data Steps (job_id : ℕ) (has_path patient : Bool) (t : Timer) : Timer → Type 0 where
  here : Steps job_id has_path patient t t
  then_step :
      {u v : Timer}
      → Steps job_id has_path patient t u
      → Step job_id has_path patient u v
      → Steps job_id has_path patient t v

-- `__init__`
abbrev pub new_timer : Db → Timer
new_timer db = record {
  stop_event = false;
  handle = none;
  beat_count = 0;
  joining = false;
  threads = [];
  next_id = 0;
  db = db;
  lines = [];
}
