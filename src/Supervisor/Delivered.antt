-- ===== src/Supervisor/Delivered.antt =====
-- What the supervisor hands on is the broker's stream of events, whole.
use mikrotik_openvpn_gui.Common.{
  ℕ, ◌+◌, ◌≤◌, ◌≡◌, ◌++◌, All, inl, inr, Bool, true, false, Option, none, some, List, [], ◌∷◌,
  arith, ltb, length, length-append, Bool-cases,
}
use mikrotik_openvpn_gui.Gateway.Value.{Floats, Fields}
use mikrotik_openvpn_gui.Gateway.Frame.{TelemetryEvent}
use mikrotik_openvpn_gui.Broker.Text.{Conversions}
use mikrotik_openvpn_gui.Broker.Sessions.{TelemetryBroker, apply, max_session_snapshot_records}
use mikrotik_openvpn_gui.Broker.Reconcile.{reconcile, incoming, preserved}
use mikrotik_openvpn_gui.Broker.Numbered.{
  Numbered, Continues, Numbered-append, apply-Continues, reconcile_sessions-Continues,
}
use mikrotik_openvpn_gui.Broker.Bounded.{IsRoomy, apply-IsRoomy, reconcile_sessions-IsRoomy}
use mikrotik_openvpn_gui.Supervisor.Attempt.Induction.{run_attempt_induction}
use mikrotik_openvpn_gui.Supervisor.Retry.Induction.{run_forever_induction, Anything, Anything-All}
use mikrotik_openvpn_gui.Supervisor.Attempt.{
  Supervisor, Answers, Failure, count_events, hand_on, publish_batch, run_attempt,
}
use mikrotik_openvpn_gui.Supervisor.Retry.{Round, back_off, stop, run_forever}

module _ {F : Type 0} where
  -- The events handed on carry the numbers behind `first` without a gap, up to the broker's number,
  -- the counter of events does not exceed them,
  -- and the broker's cache is within its limit.
  abbrev pub IsWhole : ℕ → Supervisor F → Type 0
  IsWhole first s =
      Numbered first s.delivered s.broker.sequence
      × (s.events ≤ length s.delivered)
      × IsRoomy s.broker

  -- The counter of events counts all that were handed on.
  abbrev pub IsCounted : Supervisor F → Type 0
  IsCounted s = s.events ≡ length s.delivered

  -- `on_events` raises nothing, in no publication.
  abbrev pub IsSilent : Round F → Type 0
  IsSilent round = (i : ℕ) → round.answers.on_events i ≡ none

  abbrev pub ContinuesOption :
      TelemetryBroker → Option (List (TelemetryEvent F) × TelemetryBroker) → Type 0
  ContinuesOption b none = Unit
  ContinuesOption b (some result) = Continues b result × IsRoomy result.1

  hand_on-IsWhole :
      (first : ℕ) (on_events after_dispatch : Option Failure) (is_snapshot : Bool) (now : ℕ)
      (batch : List (TelemetryEvent F)) (broker : TelemetryBroker) (s : Supervisor F)
      → IsWhole first s
      → Numbered s.broker.sequence batch broker.sequence × IsRoomy broker
      → IsWhole first
          (hand_on on_events after_dispatch is_snapshot now batch (record s { broker = broker })).1
  unfolding hand_on count_events
  hand_on-IsWhole first on after is_snapshot now [] broker s w h = (rw (h.0) at (w.0), w.1, h.1)
  hand_on-IsWhole first on after is_snapshot now (e ∷ batch) broker s w h =
      let whole =
        Numbered-append first s.broker.sequence broker.sequence s.delivered (e ∷ batch) w.0 h.0 in
      let longer = length-append s.delivered (e ∷ batch) in
      ends on after whole (omega (arith, w.1, longer)) (omega (arith, w.1, longer)) h.1
    where
      ends :
          (on after : Option Failure)
          → Numbered first (s.delivered ++ e ∷ batch) broker.sequence
          → s.events ≤ length (s.delivered ++ e ∷ batch)
          → s.events + length (e ∷ batch) ≤ length (s.delivered ++ e ∷ batch)
          → IsRoomy broker
          → IsWhole first
              (hand_on on after is_snapshot now (e ∷ batch) (record s { broker = broker })).1
      ends (some f) after n less all r = (n, less, r)
      ends none (some f) n less all r = (n, all, r)
      ends none none n less all r = (n, all, r)

  publish_batch-IsWhole :
      (first : ℕ) (granted : Bool) (on_events after_dispatch : Option Failure) (is_snapshot : Bool)
      (now : ℕ) (result : Option (List (TelemetryEvent F) × TelemetryBroker)) (s : Supervisor F)
      → IsWhole first s
      → ContinuesOption s.broker result
      → IsWhole first (publish_batch granted on_events after_dispatch is_snapshot now result s).1
  unfolding publish_batch
  publish_batch-IsWhole first false on after is_snapshot now result s w h = w
  publish_batch-IsWhole first true on after is_snapshot now none s w h = w
  publish_batch-IsWhole first true on after is_snapshot now (some (batch, broker)) s w h =
      hand_on-IsWhole first on after is_snapshot now batch broker s w h

  publish_batch-IsCounted :
      (granted : Bool) (on_events after_dispatch : Option Failure) (is_snapshot : Bool) (now : ℕ)
      (result : Option (List (TelemetryEvent F) × TelemetryBroker)) (s : Supervisor F)
      → on_events ≡ none
      → IsCounted s
      → IsCounted (publish_batch granted on_events after_dispatch is_snapshot now result s).1
  unfolding publish_batch hand_on count_events
  publish_batch-IsCounted false on after is_snapshot now result s e c = c
  publish_batch-IsCounted true on after is_snapshot now none s e c = c
  publish_batch-IsCounted true on after is_snapshot now (some ([], broker)) s e c = c
  publish_batch-IsCounted true on none is_snapshot now (some (x ∷ batch, broker)) s e c =
      rw e omega (arith, c, length-append s.delivered (x ∷ batch))
  publish_batch-IsCounted true on (some f) is_snapshot now (some (x ∷ batch, broker)) s e c =
      rw e omega (arith, c, length-append s.delivered (x ∷ batch))

module _ (floats : Floats) (conversions : Conversions floats.Float) where
  open floats use {Float}

  reconcile-ContinuesOption :
      (records : List (Fields Float)) (now : ℕ) (b : TelemetryBroker)
      → IsRoomy b
      → ContinuesOption b (reconcile floats conversions records now b)
  unfolding reconcile
  reconcile-ContinuesOption records now b roomy =
      let sessions =
        preserved floats conversions b.sessions (incoming floats conversions now records []) in
      elim (Bool-cases (ltb max_session_snapshot_records (length records))) [
        | inl many ↦ rw (many, reconcile) tt
        | inr few ↦
            rw (few, reconcile)
              (
                reconcile_sessions-Continues Float sessions now b,
                reconcile_sessions-IsRoomy Float sessions now b roomy,
              )
      ]

  run_attempt-IsWhole :
      (a : Answers Float) (first : ℕ) (s : Supervisor Float)
      → IsWhole first s
      → IsWhole first (run_attempt floats conversions a s).1
  run_attempt-IsWhole a first s w =
      run_attempt_induction floats conversions a (IsWhole first)
        (λ status attempts reconnects connected code t v. v) (λ t v. v)
        (λ records t v.
          publish_batch-IsWhole first (a.granted 0) (a.on_events 0) (a.after_dispatch 0) true a.now
            (reconcile floats conversions records a.now t.broker) t v
            (reconcile-ContinuesOption records a.now t.broker v.2))
        (λ i reply t v.
          publish_batch-IsWhole first (a.granted (i + 1)) (a.on_events (i + 1))
            (a.after_dispatch (i + 1)) false a.now
            (some (apply floats conversions reply a.now t.broker)) t v
            (
              apply-Continues floats conversions reply a.now t.broker,
              apply-IsRoomy floats conversions reply a.now t.broker v.2,
            ))
        s w

  -- Over every run of attempts, whatever fails and is retried, the exceptions of the handlers of events
  -- included, the events that `on_events` was called with carry the numbers of the broker one by one,
  -- with none left out between two attempts; the counter of events does not exceed their number; and
  -- the broker's cache stays within its limit.
  pub run_forever-IsWhole :
      (first : ℕ) (rounds : List (Round Float)) (max_attempts : Option ℕ) (s : Supervisor Float)
      → IsWhole first s
      → IsWhole first (run_forever floats conversions rounds max_attempts s)
  unfolding back_off stop
  run_forever-IsWhole first rounds max_attempts s w =
      run_forever_induction floats conversions Anything (IsWhole first)
        (λ round q t. run_attempt-IsWhole round.answers first t) (λ failure t v. v) (λ t v. v)
        (λ t v. v) rounds (Anything-All rounds) max_attempts s w

  run_attempt-IsCounted :
      (a : Answers Float) (s : Supervisor Float)
      → ((i : ℕ) → a.on_events i ≡ none)
      → IsCounted s
      → IsCounted (run_attempt floats conversions a s).1
  run_attempt-IsCounted a s silent c =
      run_attempt_induction floats conversions a IsCounted
        (λ status attempts reconnects connected code t v. v) (λ t v. v)
        (λ records t v.
          publish_batch-IsCounted (a.granted 0) (a.on_events 0) (a.after_dispatch 0) true a.now
            (reconcile floats conversions records a.now t.broker) t (silent 0) v)
        (λ i reply t v.
          publish_batch-IsCounted (a.granted (i + 1)) (a.on_events (i + 1))
            (a.after_dispatch (i + 1)) false a.now
            (some (apply floats conversions reply a.now t.broker)) t (silent (i + 1)) v)
        s c

  -- Where `on_events` raises nothing, every run of attempts, whatever else fails, leaves the counter of
  -- events at the number of the events handed on, if it was there before.
  pub run_forever-IsCounted :
      (rounds : List (Round Float)) (max_attempts : Option ℕ) (s : Supervisor Float)
      → All IsSilent rounds
      → IsCounted s
      → IsCounted (run_forever floats conversions rounds max_attempts s)
  unfolding back_off stop
  run_forever-IsCounted rounds max_attempts s silent c =
      run_forever_induction floats conversions IsSilent IsCounted
        (λ round q t. run_attempt-IsCounted round.answers t q) (λ failure t v. v) (λ t v. v)
        (λ t v. v) rounds silent max_attempts s c
