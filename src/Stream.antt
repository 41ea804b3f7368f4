-- ===== src/Stream.antt =====
-- The way of an event from the broker into the replay buffer: `_publish` of telemetry_runtime.py,
-- which hands each batch of the broker to `publish` of the gateway. A batch that the gateway refuses
-- stops there, and the state is not told; the broker keeps its number.
pub mod Ascending
mod Tests
use text.Mathlib.Text.{◌==◌ as str_eq}
use mikrotik_openvpn_gui.Common.{
  ℕ, ◌+◌, String, Bool, true, false, ◌||◌, Option, List, [], ◌∷◌, ltb, if◌then◌else◌,
}
use mikrotik_openvpn_gui.Common.Int.{pos}
use mikrotik_openvpn_gui.Gateway.Value.{Floats, codes}
use mikrotik_openvpn_gui.Gateway.Frame.{TelemetryEvent, Frame}
use mikrotik_openvpn_gui.Gateway.Error.{Outcome, ok, err}
use mikrotik_openvpn_gui.Polling.Post.{starts_with}
use mikrotik_openvpn_gui.Freshness.State.{Clock, RuntimeState, mark_session_events}
use mikrotik_openvpn_gui.Gateway.Queue.{Gateway, publish}
use mikrotik_openvpn_gui.Broker.Text.{Conversions}
use mikrotik_openvpn_gui.Broker.Sessions.{TelemetryBroker}
use mikrotik_openvpn_gui.Broker.Run.{BrokerCall, handle}

-- The events of a batch, each with the clock that `publish` reads for it.
abbrev pub stamped : {F : Type 0} → ℕ → List (TelemetryEvent F) → List (TelemetryEvent F × ℕ)
stamped now [] = []
stamped now (e ∷ events) = (e, now) ∷ stamped now events

abbrev pub is_session_event : String → Bool
is_session_event name =
    starts_with (codes "vpn.session.") (codes name) || str_eq name "telemetry.snapshot"

module _ {F : Type 0} where
  -- The number of events of sessions, and whether one of the events is a snapshot.
  abbrev pub session_events : List (TelemetryEvent F) → ℕ
  session_events [] = 0
  session_events (e ∷ events) =
      if is_session_event e.name then 1 + session_events events else session_events events

  abbrev pub has_reconciliation : List (TelemetryEvent F) → Bool
  has_reconciliation [] = false
  has_reconciliation (e ∷ events) = str_eq e.name "telemetry.snapshot" || has_reconciliation events

module _ (floats : Floats) (conversions : Conversions floats.Float)
    (frame_size : Frame floats.Float → Option ℕ) (clock : Clock) where
  open floats use {Float}

  -- `self.broker`, `self.gateway` and `self.state`.
  pub record Runtime : Type 0 where
    pub broker : TelemetryBroker
    pub gateway : Gateway Float
    pub state : RuntimeState clock

  -- `_publish`, with the clock of the gateway and that of the state; what the gateway raises goes on to
  -- the caller.
  unfoldable pub publish_events :
      List (TelemetryEvent Float) → ℕ → clock.Time → Runtime → Outcome Bool × Runtime
  unfolding publish mark_session_events
  publish_events [] now at r = (ok false, r)
  publish_events (e ∷ events) now at r =
      let (answer, g) = publish floats frame_size (stamped now (e ∷ events)) r.gateway in
      let count = session_events (e ∷ events) in
      let published : Runtime = record r { gateway = g } in
      elim answer [
        | err x ↦ (err x, published)
        | ok n ↦ (
          ok true,
          if ltb 0 count
              then record published {
                state =
                    mark_session_events clock (pos count) (has_reconciliation (e ∷ events)) at
                      r.state;
              }
              else published,
        )
      ]

  -- A run of calls of the broker, each with the clocks at which its events are published.
  unfoldable pub run_stream : List (BrokerCall Float × ℕ × clock.Time) → Runtime → Runtime
  unfolding handle publish_events
  run_stream [] r = r
  run_stream ((call, now, at) ∷ calls) r =
      let (events, b) = handle floats conversions call r.broker in
      run_stream calls (publish_events events now at (record r { broker = b })).1
