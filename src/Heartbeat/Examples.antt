-- ===== src/Heartbeat/Examples.antt =====
-- A timer that is started, beats once and is stopped.
use ztrade_ares_7x.Base.{◌≡◌, refl, inl, true, false, none, some, [], ◌∷◌}
use ztrade_ares_7x.Locks.Examples.{empty}
use ztrade_ares_7x.Heartbeat.{
  start, begin_stop, end_stop, beat_once, advance, new_timer, Thread, Timer, Steps, testing,
  beating, waiting, done, starts, stops, joins, runs, here, then_step,
}
use ztrade_ares_7x.Heartbeat.Single.{Single, new_timer-Single, given_up-beats}

abbrev one : Thread
one = record { id = 0; place = testing }

abbrev beating_one : Thread
beating_one = record { id = 0; place = beating }

abbrev waiting_one : Thread
waiting_one = record { id = 0; place = waiting }

abbrev started : Timer
started = record (new_timer empty) { handle = some 0; threads = one ∷ []; next_id = 1 }

abbrev in_beat : Timer
in_beat = record started { threads = beating_one ∷ [] }

abbrev stopping : Timer
stopping = record started {
  threads = waiting_one ∷ [];
  beat_count = 1;
  stop_event = true;
  joining = true;
}

abbrev stopped : Timer
stopped = record stopping { threads = []; joining = false; handle = none }

run_to_stopped : Steps 7 false true (new_timer empty) stopped
unfolding start begin_stop end_stop advance beat_once
run_to_stopped =
    then_step
      (then_step
        (then_step
          (then_step
            (then_step (then_step here (starts (new_timer empty) refl))
              (runs started one done 5 (inl refl)))
            (runs in_beat beating_one done 6 (inl refl)))
          (stops (record stopping { stop_event = false; joining = false }) refl))
        (runs stopping waiting_one done 7 (inl refl)))
      (joins (record stopping { threads = [] }) refl refl)

new_timer-Single_example :
    Single stopped.handle stopped.threads × (stopped.handle ≡ none → stopped.threads ≡ [])
new_timer-Single_example = new_timer-Single 7 false empty stopped run_to_stopped

given_up-beats_test :
    (u : Timer) × Steps 7 false false in_beat u
    × (u.threads ≡ beating_one ∷ (record { id = 1; place = testing } ∷ []))
    × (u.stop_event ≡ false)
given_up-beats_test = given_up-beats 7 false in_beat beating_one refl refl refl
