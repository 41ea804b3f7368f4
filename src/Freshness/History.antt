-- ===== src/Freshness/History.antt =====
-- The state that is reported, by what happened before.
use mikrotik_openvpn_gui.Common.{
  ℕ, ◌+◌, ◌≡◌, refl, String, Bool, true, false, Option, none, some, List, [], ◌∷◌, arith,
  if◌then◌else◌, max,
}
use mikrotik_openvpn_gui.Common.Int.{ℤ}
use mikrotik_openvpn_gui.Freshness.State.{
  Clock, failed, stale, healthy, counted, safe_code, RuntimeState, new_state, mark_event,
  mark_session_events, mark_traffic_samples, mark_reconnect, mark_error, as_dict, has_error, is_old,
  age,
}

module _ (clock : Clock) where
  open clock use {Time, whole, exact}

  -- A call that changes the state.
  pub data Mark : Type 0 where
    event : Bool → ℕ → Mark
    session_marks : ℤ → Bool → Time → Mark
    traffic : ℤ → Time → Mark
    reconnected : Mark
    error_code : List ℕ → Mark

  unfoldable pub mark : Mark → RuntimeState clock → RuntimeState clock
  mark (event reconciliation now) s = mark_event clock reconciliation now s
  mark (session_marks count reconciliation now) s =
      mark_session_events clock count reconciliation now s
  mark (traffic count now) s = mark_traffic_samples clock count now s
  mark reconnected s = mark_reconnect clock s
  mark (error_code code) s = mark_error clock code s

  -- A history has its newest call first.
  unfoldable pub replay : List Mark → RuntimeState clock → RuntimeState clock
  unfolding mark
  replay [] s = s
  replay (m ∷ history) s = mark m (replay history s)

  -- An error came after the last event.
  abbrev pub is_failing : List Mark → Bool
  is_failing [] = false
  is_failing (error_code code ∷ history) = true
  is_failing (event reconciliation now ∷ history) = false
  is_failing (session_marks count reconciliation now ∷ history) = false
  is_failing (traffic count now ∷ history) = is_failing history
  is_failing (reconnected ∷ history) = is_failing history

  -- When the last event came.
  abbrev pub last_event : List Mark → Option ℕ
  last_event [] = none
  last_event (error_code code ∷ history) = last_event history
  last_event (event reconciliation now ∷ history) = some now
  last_event (session_marks count reconciliation now ∷ history) = some (whole now)
  last_event (traffic count now ∷ history) = last_event history
  last_event (reconnected ∷ history) = last_event history

  -- How many events were reported.
  abbrev pub events_of : List Mark → ℕ
  events_of [] = 0
  events_of (error_code code ∷ history) = events_of history
  events_of (event reconciliation now ∷ history) = events_of history + 1
  events_of (session_marks count reconciliation now ∷ history) = events_of history + counted count
  events_of (traffic count now ∷ history) = events_of history
  events_of (reconnected ∷ history) = events_of history

  safe_code_lem : (code : List ℕ) → has_error clock (some (safe_code code)) ≡ true
  safe_code_lem [] = refl
  safe_code_lem (c ∷ cs) = refl

  abbrev Agrees : List Mark → RuntimeState clock → ℕ → Type 0
  Agrees history s stale_after =
      (has_error clock s.last_error ≡ is_failing history)
      × (s.last_event_at ≡ last_event history)
      × (s.event_count ≡ events_of history)
      × (s.session_events ≡ events_of history)
      × (s.stale_after ≡ max 1 stale_after)

  mark-Agrees :
      (m : Mark) (history : List Mark) (s : RuntimeState clock) (stale_after : ℕ)
      → Agrees history s stale_after
      → Agrees (m ∷ history) (mark m s) stale_after
  unfolding mark mark_event mark_session_events mark_traffic_samples mark_reconnect mark_error
  mark-Agrees (event reconciliation now) history s stale_after h =
      (refl, refl, omega (arith, h.2), omega (arith, h.3), h.4)
  mark-Agrees (session_marks count reconciliation now) history s stale_after h =
      (refl, refl, omega (arith, h.2), omega (arith, h.3), h.4)
  mark-Agrees (traffic count now) history s stale_after h = h
  mark-Agrees reconnected history s stale_after h = h
  mark-Agrees (error_code code) history s stale_after h = (safe_code_lem code, h.1, h.2, h.3, h.4)

  replay-Agrees :
      (history : List Mark) (requested effective : String) (socketio : Bool) (stale_after : ℕ)
      → Agrees history
          (replay history (new_state clock requested effective socketio stale_after))
          stale_after
  unfolding replay new_state
  replay-Agrees [] requested effective socketio stale_after = (refl, refl, refl, refl, refl)
  replay-Agrees (m ∷ history) requested effective socketio stale_after =
      mark-Agrees m history
        (replay history (new_state clock requested effective socketio stale_after)) stale_after
        (replay-Agrees history requested effective socketio stale_after)

  -- After any history of calls, the report says error exactly if an error came after the last event,
  -- whatever samples and reconnects followed; else stale exactly if no event came yet or the last one
  -- is older than the limit; and both counters are the number of events that were reported.
  pub as_dict-replay :
      (history : List Mark) (requested effective : String) (socketio : Bool) (stale_after : ℕ)
      (now : Time)
      → let s = replay history (new_state clock requested effective socketio stale_after) in
        ((as_dict clock now s).state ≡ (
          if is_failing history
          then failed
          else if is_old clock (max 1 stale_after) (age clock (whole now) (last_event history))
          then stale
          else healthy))
        × (s.event_count ≡ events_of history)
        × (s.session_events ≡ events_of history)
  unfolding as_dict
  as_dict-replay history requested effective socketio stale_after now =
      let same = replay-Agrees history requested effective socketio stale_after in
      (rw (same.0, same.1, same.4) refl, same.2, same.3)
