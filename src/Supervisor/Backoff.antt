-- ===== src/Supervisor/Backoff.antt =====
-- The waits between the attempts of the supervisor.
use mikrotik_openvpn_gui.Common.{
  ℕ, ◌+◌, ◌≤◌, ◌≡◌, refl, ap, Bool, true, false, Option, none, some, List, [], ◌∷◌, arith,
}
use mikrotik_openvpn_gui.Gateway.Value.{Floats}
use mikrotik_openvpn_gui.Gateway.Frame.{TelemetryEvent}
use mikrotik_openvpn_gui.Broker.Text.{Conversions}
use mikrotik_openvpn_gui.Broker.Sessions.{TelemetryBroker, apply}
use mikrotik_openvpn_gui.Broker.Reconcile.{reconcile}
use mikrotik_openvpn_gui.Supervisor.Attempt.{
  SupervisorConfig, is_valid_config, Supervisor, new_supervisor, Answers, Failure, count_events,
  hand_on, publish_batch, run_attempt, healthy,
}
use mikrotik_openvpn_gui.Supervisor.Attempt.Induction.{run_attempt_induction}
use mikrotik_openvpn_gui.Supervisor.Retry.Induction.{run_forever_induction, Anything, Anything-All}
use mikrotik_openvpn_gui.Supervisor.Retry.{Round, back_off, stop, run_forever}

module _ {F : Type 0} where
  -- The next wait is between the first and the longest of `config`, which the supervisor keeps.
  abbrev pub IsPaced : SupervisorConfig → Supervisor F → Type 0
  IsPaced config s =
      (s.config ≡ config)
      × (config.initial_backoff ≤ s.backoff_seconds)
      × (s.backoff_seconds ≤ config.max_backoff)

  publish_batch-IsPaced :
      (config : SupervisorConfig) (granted : Bool) (on_events after_dispatch : Option Failure)
      (is_snapshot : Bool) (now : ℕ) (result : Option (List (TelemetryEvent F) × TelemetryBroker))
      (s : Supervisor F)
      → IsPaced config s
      → IsPaced config (publish_batch granted on_events after_dispatch is_snapshot now result s).1
  unfolding publish_batch hand_on count_events
  publish_batch-IsPaced config false on after is_snapshot now result s p = p
  publish_batch-IsPaced config true on after is_snapshot now none s p = p
  publish_batch-IsPaced config true on after is_snapshot now (some ([], broker)) s p = p
  publish_batch-IsPaced config true (some f) after is_snapshot now (some (e ∷ batch, broker)) s p =
      p
  publish_batch-IsPaced config true none (some f) is_snapshot now (some (e ∷ batch, broker)) s p = p
  publish_batch-IsPaced config true none none is_snapshot now (some (e ∷ batch, broker)) s p = p

  back_off-IsPaced :
      (config : SupervisorConfig) (failure : Failure) (s : Supervisor F)
      → IsPaced config s
      → IsPaced config (back_off failure s)
  unfolding back_off
  back_off-IsPaced config failure s p = (
    p.0,
    omega (arith, p.1, p.2, ap (λ c. c.max_backoff) p.0),
    omega (arith, p.2, ap (λ c. c.max_backoff) p.0),
  )

  settled :
      (config : SupervisorConfig) (s : Supervisor F)
      → IsPaced config s
      → IsPaced config (record s { status = healthy; backoff_seconds = s.config.initial_backoff })
  settled config s p =
      let same = ap (λ c. c.initial_backoff) p.0 in
      (p.0, omega (arith, same), omega (arith, same, p.1, p.2))

module _ (floats : Floats) (conversions : Conversions floats.Float) where
  open floats use {Float}

  run_attempt-IsPaced :
      (config : SupervisorConfig) (a : Answers Float) (s : Supervisor Float)
      → IsPaced config s
      → IsPaced config (run_attempt floats conversions a s).1
  run_attempt-IsPaced config a s p =
      run_attempt_induction floats conversions a (IsPaced config)
        (λ status attempts reconnects connected code t q. q) (λ t q. settled config t q)
        (λ records t.
          publish_batch-IsPaced config (a.granted 0) (a.on_events 0) (a.after_dispatch 0) true a.now
            (reconcile floats conversions records a.now t.broker) t)
        (λ i reply t.
          publish_batch-IsPaced config (a.granted (i + 1)) (a.on_events (i + 1))
            (a.after_dispatch (i + 1)) false a.now
            (some (apply floats conversions reply a.now t.broker)) t)
        s p

  -- Under limits that the configuration accepts, every run leaves the next wait between the first and
  -- the longest wait of the configuration, and the configuration as it was.
  pub run_forever-IsPaced :
      (config : SupervisorConfig) (broker : TelemetryBroker) (rounds : List (Round Float))
      (max_attempts : Option ℕ)
      → is_valid_config config ≡ true
      → IsPaced config
          (run_forever floats conversions rounds max_attempts (new_supervisor config broker))
  unfolding back_off stop new_supervisor is_valid_config
  run_forever-IsPaced config broker rounds max_attempts valid =
      run_forever_induction floats conversions Anything (IsPaced config)
        (λ round q t. run_attempt-IsPaced config round.answers t) (back_off-IsPaced config)
        (λ t v. v) (λ t v. v) rounds (Anything-All rounds) max_attempts
        (new_supervisor config broker) (refl, omega arith, ground (arith, valid))
