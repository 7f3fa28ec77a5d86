-- ===== src/Callbacks/Dispatch.antt =====
-- What `dispatch` of ar724/live_callbacks does with the callbacks of the program and with others.
use ztrade_ares_7x.Base.{
  if◌then◌else◌, String, ◌≡◌, refl, ◌∙◌, ap, not, ◌&&◌, some, [], ◌∷◌, ◌++◌, arith, str_eq,
}
use ztrade_ares_7x.Base.Result.{ok}
use ztrade_ares_7x.Callbacks.{
  Callback, Registry, swallow, dispatch, get_or, is_high, alert_of, feishu_alert, status_of,
  tmux_status, live_callbacks, Event, World,
}

dispatch-append :
    (front back : Registry) (event : Event) (w : World)
    → dispatch (front ++ back) event w ≡ dispatch back event (dispatch front event w).1
unfolding dispatch
dispatch-append [] back event w = refl
dispatch-append ((name, cb) ∷ front) back event w =
    dispatch-append front back event (swallow (cb event w))

-- Whatever callbacks stand before it and whatever they raise, a callback of the registry is called
-- with the event, in its turn, and dispatch itself never raises.
pub dispatch-calls :
    (front back : Registry) (name : String) (cb : Callback) (event : Event) (w : World)
    → ((dispatch (front ++ (name, cb) ∷ back) event w).0 ≡ ok tt)
      × ((dispatch (front ++ (name, cb) ∷ back) event w).1
          ≡ (dispatch back event (swallow (cb event (dispatch front event w).1))).1)
unfolding dispatch
dispatch-calls front back name cb event w =
    let split = dispatch-append front ((name, cb) ∷ back) event w in
    (
      ap (λ r. r.0) split ∙ never_raises back event (swallow (cb event (dispatch front event w).1)),
      ap (λ r. r.1) split,
    )
  where
    never_raises :
        (entries : Registry) (event : Event) (w : World) → (dispatch entries event w).0 ≡ ok tt
    never_raises [] event w = refl
    never_raises ((name, cb) ∷ entries) event w = never_raises entries event (swallow (cb event w))

-- A dispatch to the two callbacks of the program posts one alert if the severity is warn, error or
-- critical, a webhook is set and the post succeeds, and none otherwise; and the board shows the
-- event if its directory and its file can be written, and is as it was otherwise. Neither hinders
-- the other.
pub dispatch_live :
    (event : Event) (w : World)
    → let after = (dispatch live_callbacks event w).1 in
      (after.posted ≡ (
        if is_high (get_or "info" event.severity) && not (str_eq w.webhook "") && w.post_succeeds
        then w.posted ++ alert_of event w ∷ []
        else w.posted))
      × (after.board
          ≡ (if w.mkdir_succeeds && w.open_succeeds then some (status_of event) else w.board))
unfolding dispatch feishu_alert tmux_status
dispatch_live event w = (ground arith, ground arith)
