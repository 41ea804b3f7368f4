-- ===== src/Broker/Run.antt =====
-- Every run of the broker's calls.
use mikrotik_openvpn_gui.Common.{
  ℕ, inl, inr, refl, none, some, List, [], ◌∷◌, ◌++◌, length, Bool-cases, ltb,
}
use mikrotik_openvpn_gui.Gateway.Value.{Floats, Fields}
use mikrotik_openvpn_gui.Gateway.Frame.{TelemetryEvent}
use mikrotik_openvpn_gui.Broker.Text.{Conversions}
use mikrotik_openvpn_gui.Broker.Sessions.{
  TelemetryBroker, Reply, apply, max_session_snapshot_records,
}
use mikrotik_openvpn_gui.Broker.Reconcile.{incoming, preserved, reconcile}
use mikrotik_openvpn_gui.Broker.Numbered.{
  Continues, Numbered-append, apply-Continues, reconcile_sessions-Continues,
}
use mikrotik_openvpn_gui.Broker.Bounded.{IsRoomy, apply-IsRoomy, reconcile_sessions-IsRoomy}

-- A reply of the router's stream, or a snapshot, with the clock that is read for it.
pub data BrokerCall (F : Type 0) : Type 0 where
  stream_reply : Reply F → ℕ → BrokerCall F
  snapshot_records : List (Fields F) → ℕ → BrokerCall F

module _ (floats : Floats) (conversions : Conversions floats.Float) where
  open floats use {Float}

  -- A snapshot that raises sends nothing and changes nothing.
  unfoldable pub handle :
      BrokerCall Float → TelemetryBroker → List (TelemetryEvent Float) × TelemetryBroker
  handle (stream_reply reply now) b = apply floats conversions reply now b
  handle (snapshot_records records now) b = elim (reconcile floats conversions records now b) [
    | none ↦ ([], b)
    | some result ↦ result
  ]

  unfoldable pub run_broker :
      List (BrokerCall Float) → TelemetryBroker → List (TelemetryEvent Float) × TelemetryBroker
  unfolding handle
  run_broker [] b = ([], b)
  run_broker (call ∷ calls) b =
      let (events, b1) = handle call b in
      let (others, b2) = run_broker calls b1 in (events ++ others, b2)

  pub handle-Continues :
      (call : BrokerCall Float) (b : TelemetryBroker)
      → Continues b (handle call b) × (IsRoomy b → IsRoomy (handle call b).1)
  unfolding handle reconcile
  handle-Continues (stream_reply reply now) b =
      (apply-Continues floats conversions reply now b, apply-IsRoomy floats conversions reply now b)
  handle-Continues (snapshot_records records now) b =
      elim (Bool-cases (ltb max_session_snapshot_records (length records))) [
        | inl many ↦ rw (many, reconcile, handle) (refl, λ roomy. roomy)
        | inr few ↦
            let sessions =
              preserved floats conversions b.sessions
                (incoming floats conversions now records []) in
            rw (few, reconcile, handle)
              (
                reconcile_sessions-Continues Float sessions now b,
                reconcile_sessions-IsRoomy Float sessions now b,
              )
      ]

  -- Over every run of replies and snapshots, those that raise included, the events carry the numbers
  -- behind the broker's first number, one by one and in order, and the last of them is the number
  -- that the broker ends at; and the cache never holds more sessions than its limit.
  pub run_broker-Continues :
      (calls : List (BrokerCall Float)) (b : TelemetryBroker)
      → IsRoomy b
      → Continues b (run_broker calls b) × IsRoomy (run_broker calls b).1
  unfolding run_broker
  run_broker-Continues [] b roomy = (refl, roomy)
  run_broker-Continues (call ∷ calls) b roomy =
      let (events, b1) = handle call b in
      let (others, b2) = run_broker calls b1 in
      let first = handle-Continues call b in
      let rest = run_broker-Continues calls b1 (first.1 roomy) in
      (Numbered-append b.sequence b1.sequence b2.sequence events others first.0 rest.0, rest.1)
