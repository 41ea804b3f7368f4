-- ===== src/Supervisor/Sampler.antt =====
-- `sample_once` and `run_forever` of `TelemetryInterfaceSampler`. What is outside is an argument, as
-- for an attempt of the supervisor; it has both handlers.
pub mod Checked
use mikrotik_openvpn_gui.Common.{
  ℕ, zero, suc, Bool, true, false, not, Option, none, some, List, [], ◌∷◌, ◌++◌, if◌then◌else◌,
}
use mikrotik_openvpn_gui.Gateway.Value.{Floats, Fields}
use mikrotik_openvpn_gui.Gateway.Frame.{TelemetryEvent}
use mikrotik_openvpn_gui.Broker.Text.{Conversions}
use mikrotik_openvpn_gui.Broker.Sessions.{TelemetryBroker}
use mikrotik_openvpn_gui.Broker.Interfaces.{Rates, Sample, reconcile_interfaces}
use mikrotik_openvpn_gui.Supervisor.Attempt.{
  Failure, credentials_unavailable, other_error, Ended, returned, raised,
}

-- The answers in one sample: the two checks behind the connection and around the reading, and the one
-- under which the broker is changed; `on_sample` and `on_events` say what the two handlers raise.
pub record SampleAnswers (F : Type 0) : Type 0 where
  pub connection : Option Failure
  pub allowed_before : Bool
  pub reading : Option Failure
  pub records : List (Fields F)
  pub allowed_after : Bool
  pub granted : Bool
  pub on_sample : Option Failure
  pub on_events : Option Failure
  pub sample : Sample
  pub now : ℕ

-- How the sample ends, the batch that `on_events` is called with, and the broker after it.
abbrev pub Sampled : Type 0 → Type 0
Sampled F = Ended × List (TelemetryEvent F) × TelemetryBroker

module _ {F : Type 0} where
  -- The dispatch: the broker is changed before the handlers are called, and stays changed where one of
  -- them raises.
  unfoldable pub dispatch_sample :
      Bool
      → Option Failure
      → Option Failure
      → Option (List (TelemetryEvent F) × TelemetryBroker)
      → TelemetryBroker
      → Sampled F
  dispatch_sample granted on_sample on_events result b =
      if not granted then (raised credentials_unavailable, [], b) else elim result [
        | none ↦ (raised other_error, [], b)
        | some (events, after) ↦ elim on_sample [
          | some failure ↦ (raised failure, [], after)
          | none ↦ elim on_events [
            | some failure ↦ (raised failure, events, after)
            | none ↦ (returned, events, after)
          ]
        ]
      ]

module _ (floats : Floats) (conversions : Conversions floats.Float)
    (rates : Rates floats.Float) where
  open floats use {Float}

  unfoldable pub sample_once : SampleAnswers Float → TelemetryBroker → Sampled Float
  unfolding dispatch_sample
  sample_once a b = elim a.connection [
    | some failure ↦ (raised failure, [], b)
    | none ↦
        if not a.allowed_before then (raised credentials_unavailable, [], b) else elim a.reading [
          | some failure ↦ (raised failure, [], b)
          | none ↦
              if not a.allowed_after
              then (raised credentials_unavailable, [], b)
              else dispatch_sample a.granted a.on_sample a.on_events
                  (reconcile_interfaces floats conversions rates a.records a.sample a.now b) b
        ]
  ]

  -- `run_forever`: each sample with whether a stop was requested before it; `left` is what
  -- `max_samples` leaves. A sample that raises ends the run.
  unfoldable pub run_samples :
      List (Bool × SampleAnswers Float) → Option ℕ → TelemetryBroker → Sampled Float
  unfolding sample_once
  run_samples [] left b = (returned, [], b)
  run_samples ((stopped, a) ∷ rounds) (some zero) b = (returned, [], b)
  run_samples ((stopped, a) ∷ rounds) none b =
      if stopped
      then (returned, [], b)
      else let (ended, events, after) = sample_once a b in
        let (last, later, final) = run_samples rounds none after in
        elim ended [
          | raised failure ↦ (raised failure, events, after)
          | returned ↦ (last, events ++ later, final)
        ]
  run_samples ((stopped, a) ∷ rounds) (some (suc left)) b =
      if stopped
      then (returned, [], b)
      else let (ended, events, after) = sample_once a b in
        let (last, later, final) = run_samples rounds (some left) after in
        elim ended [
          | raised failure ↦ (raised failure, events, after)
          | returned ↦ (last, events ++ later, final)
        ]
