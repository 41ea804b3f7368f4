-- ===== src/Broker/Reconcile.antt =====
-- `reconcile` and `recovery_snapshot` of telemetry_broker.py.
use mikrotik_openvpn_gui.Common.{
  ℕ, ◌-◌, Bool, true, false, Option, none, some, List, [], ◌∷◌, ◌++◌, ltb, ◌==◌, if◌then◌else◌,
  length, drop,
}
use mikrotik_openvpn_gui.Common.Int.{pos}
use mikrotik_openvpn_gui.Gateway.Value.{
  Floats, Values, Fields, integer, str, list, dict, nil, cons, end, field,
}
use mikrotik_openvpn_gui.Gateway.Frame.{TelemetryEvent}
use mikrotik_openvpn_gui.Gateway.Poll.{BrokerView}
use mikrotik_openvpn_gui.Broker.Text.{Conversions}
use mikrotik_openvpn_gui.Broker.Cache.{Cache, find, put}
use mikrotik_openvpn_gui.Broker.Session.{
  Session, normalize_session, preserve_unobserved, session_payload,
}
use mikrotik_openvpn_gui.Broker.Sessions.{
  Interface, TelemetryBroker, send, announce, max_session_snapshot_records,
}

-- `a < b` of two texts
abbrev pub text_before : List ℕ → List ℕ → Bool
text_before [] [] = false
text_before [] (y ∷ b) = true
text_before (x ∷ a) [] = false
text_before (x ∷ a) (y ∷ b) = if x == y then text_before a b else ltb x y

module _ {V : Type 0} where
  abbrev pub insert_item : List ℕ → V → Cache V → Cache V
  insert_item k v [] = (k, v) ∷ []
  insert_item k v ((j, w) ∷ d) =
      if text_before j k then (j, w) ∷ insert_item k v d else (k, v) ∷ (j, w) ∷ d

  -- `[(key, cache[key]) for key in sorted(cache)]`
  abbrev pub sort_items : Cache V → Cache V
  sort_items [] = []
  sort_items ((k, v) ∷ d) = insert_item k v (sort_items d)

  -- `dict(list(cache.items())[-limit:])`, for a limit that is not 0
  abbrev pub last_items : ℕ → Cache V → Cache V
  last_items limit d = drop (length d - limit) d

module _ {F : Type 0} where
  abbrev pub session_payloads : Cache Session → Values F
  session_payloads [] = nil
  session_payloads ((_, s) ∷ d) = cons (dict (session_payload s)) (session_payloads d)

  -- `_interface_payload`, without rates
  abbrev pub interface_counters : Interface → Fields F
  interface_counters i = field "id" (str i.id) (
      field "name" (str i.name) (
        field "rx_bytes" (integer (pos i.rx_bytes)) (
          field "tx_bytes" (integer (pos i.tx_bytes)) (
            field "rx_packets" (integer (pos i.rx_packets))
              (field "tx_packets" (integer (pos i.tx_packets)) end)))))

  abbrev pub interface_payloads : Cache Interface → Values F
  interface_payloads [] = nil
  interface_payloads ((_, i) ∷ d) = cons (dict (interface_counters i)) (interface_payloads d)

  -- The sessions of the cache that the snapshot does not show any more.
  unfoldable pub departures :
      Cache Session
      → Cache Session
      → ℕ
      → TelemetryBroker
      → List (TelemetryEvent F) × TelemetryBroker
  unfolding send
  departures [] sessions now b = ([], b)
  departures ((k, before) ∷ cached) sessions now b = elim (find k sessions) [
    | some _ ↦ departures cached sessions now b
    | none ↦
        let (event, b1) = send "vpn.session.disconnected" (session_payload before) now b in
        let (events, b2) = departures cached sessions now b1 in (event ∷ events, b2)
  ]

  -- The sessions of the snapshot, against the cache as it was.
  unfoldable pub arrivals :
      Cache Session
      → Cache Session
      → ℕ
      → TelemetryBroker
      → List (TelemetryEvent F) × TelemetryBroker
  unfolding announce
  arrivals cached [] now b = ([], b)
  arrivals cached ((k, s) ∷ sessions) now b =
      let (events, b1) = announce (find k cached) s now b in
      let (others, b2) = arrivals cached sessions now b1 in (events ++ others, b2)

  -- `recovery_snapshot`
  unfoldable pub recovery_snapshot : TelemetryBroker → BrokerView F
  recovery_snapshot b = record {
    sequence = b.sequence;
    sessions = session_payloads (sort_items b.sessions);
    interfaces = interface_payloads (sort_items b.interfaces);
  }

  -- What `reconcile` does under its lock, after the counters are preserved.
  unfoldable pub reconcile_sessions :
      Cache Session → ℕ → TelemetryBroker → List (TelemetryEvent F) × TelemetryBroker
  unfolding departures arrivals send
  reconcile_sessions sessions now b =
      let (gone, b1) = departures b.sessions sessions now b in
      let (here, b2) = arrivals b.sessions sessions now b1 in
      let kept = last_items b.max_sessions sessions in
      let (event, b3) =
        send "telemetry.snapshot"
          (field "sessions" (list (session_payloads kept))
            (field "interfaces" (list (interface_payloads (sort_items b2.interfaces))) end))
          now (record b2 { sessions = kept }) in
      (gone ++ (here ++ event ∷ []), b3)

module _ (floats : Floats) (conversions : Conversions floats.Float) where
  open floats use {Float}

  -- The loop over the records, which comes before any change.
  unfoldable pub incoming :
      ℕ → List (Fields Float) → Cache (Session × Fields Float) → Cache (Session × Fields Float)
  incoming now [] d = d
  incoming now (fields ∷ records) d = elim (normalize_session floats conversions now fields) [
    | none ↦ incoming now records d
    | some s ↦ incoming now records (put s.id (s, fields) d)
  ]

  unfoldable pub preserved : Cache Session → Cache (Session × Fields Float) → Cache Session
  preserved cached [] = []
  preserved cached ((k, (s, fields)) ∷ d) =
      (k, preserve_unobserved floats conversions fields (find k cached) s) ∷ preserved cached d

  -- `none` where it raises: at the first record beyond the limit, before any change.
  unfoldable pub reconcile :
      List (Fields Float)
      → ℕ
      → TelemetryBroker
      → Option (List (TelemetryEvent Float) × TelemetryBroker)
  unfolding incoming preserved reconcile_sessions
  reconcile records now b =
      if ltb max_session_snapshot_records (length records)
      then none
      else some (reconcile_sessions (preserved b.sessions (incoming now records [])) now b)
