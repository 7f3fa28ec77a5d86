-- ===== src/Observability/Examples.antt =====
-- Three events: of the day before, of an hour ago and of now.
use ztrade_ares_7x.Base.{length, In, ℕ, ◌≤◌, ◌≡◌, refl, ◌⊎◌, none, some, [], ◌∷◌}
use ztrade_ares_7x.Db.{Event, Db}
use ztrade_ares_7x.Events.{global_event}
use ztrade_ares_7x.Locks.Examples.{empty}
use ztrade_ares_7x.Observability.{tail_events}
use ztrade_ares_7x.Observability.Tail.{Descending, FromDay, OfSeverity, tail_events-newest}

abbrev event_at : ℕ → Event
event_at now = global_event "run_paused" "info" now

abbrev three_events : Db
three_events = record empty { events = event_at 90000 ∷ (event_at 200000 ∷ (event_at 203600 ∷ [])) }

-- a window of a minute, and yet the event of an hour ago
tail_test :
    tail_events three_events (some 60) (some "info") 10 203600
    ≡ event_at 203600 ∷ (event_at 200000 ∷ [])
unfolding tail_events
tail_test = refl

tail_events-newest_example :
    Descending (λ e. e.created_at) (tail_events three_events (some 60) none 1 203600)
    × (length (tail_events three_events (some 60) none 1 203600) ≤ 1)
    × ((e : Event)
        → In e (tail_events three_events (some 60) none 1 203600)
        → In e three_events.events × FromDay (some 60) 203600 e × OfSeverity none e)
    × ((e : Event)
        → In e three_events.events
        → FromDay (some 60) 203600 e
        → OfSeverity none e
        → In e (tail_events three_events (some 60) none 1 203600)
          ⊎ ((length (tail_events three_events (some 60) none 1 203600) ≡ 1)
              × ((d : Event)
                  → In d (tail_events three_events (some 60) none 1 203600)
                  → e.created_at ≤ d.created_at)))
tail_events-newest_example = tail_events-newest three_events (some 60) none 1 203600
