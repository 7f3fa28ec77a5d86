-- ===== src/Events/Log.antt =====
-- The table of events as a log: what may be appended to it.
use mathlib.Core.List.{append-nil, append_assoc}
use ztrade_ares_7x.Base.{All, ◌≡◌, refl, sym, ◌∙◌, ap, true, List, [], ◌∷◌, ◌++◌}
use ztrade_ares_7x.Base.Result.{ok}
use ztrade_ares_7x.Db.{Event, Db}
use ztrade_ares_7x.Events.{is_valid_event_type, is_valid_severity, insert_event, emit_event}

-- `emit_event` takes the event, whatever the database.
abbrev pub IsAccepted : Event → Type 0
IsAccepted e = (db : Db) → emit_event db e ≡ ok (insert_event db e)

pub accepted :
    (e : Event)
    → is_valid_event_type e.event_type ≡ true
    → is_valid_severity e.severity ≡ true
    → IsAccepted e
unfolding emit_event
accepted e t s db = rw (t, s)

-- The new log is the old one with accepted events behind it.
pub record Extends (before after : List Event) : Type 0 where
  pub new : List Event
  pub appended : after ≡ before ++ new
  pub all_accepted : All IsAccepted new

pub Extends-refl : (log : List Event) → Extends log log
Extends-refl log = record { new = []; appended = sym (append-nil log); all_accepted = tt }

pub Extends-one : (log : List Event) (e : Event) → IsAccepted e → Extends log (log ++ e ∷ [])
Extends-one log e h = record { new = e ∷ []; appended = refl; all_accepted = (h, tt) }

All-append :
    (xs ys : List Event) → All IsAccepted xs → All IsAccepted ys → All IsAccepted (xs ++ ys)
All-append [] ys h k = k
All-append (x ∷ xs) ys h k = (h.0, All-append xs ys h.1 k)

pub Extends-trans : (a b c : List Event) → Extends a b → Extends b c → Extends a c
Extends-trans a b c h k = record {
  new = h.new ++ k.new;
  appended = k.appended ∙ ap (λ l. l ++ k.new) h.appended ∙ append_assoc a h.new k.new;
  all_accepted = All-append h.new k.new h.all_accepted k.all_accepted;
}
