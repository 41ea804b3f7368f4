-- ===== src/Broker/Sessions.antt =====
-- `apply` and `reconcile` of telemetry_broker.py. A clock reading is a whole number of seconds.
use mikrotik_openvpn_gui.Common.{
  ℕ, ◌+◌, String, Bool, not, Option, none, some, List, [], ◌∷◌, ◌++◌, ltb, if◌then◌else◌, length,
  min, max,
}
use mikrotik_openvpn_gui.Common.Int.{pos}
use mikrotik_openvpn_gui.Gateway.Value.{
  Floats, Values, Fields, str, list, dict, nil, cons, end, field, codes,
}
use mikrotik_openvpn_gui.Gateway.Limits.{max_cached_sessions, max_cached_interfaces}
use mikrotik_openvpn_gui.Gateway.Frame.{TelemetryEvent}
use mikrotik_openvpn_gui.Broker.Text.{Conversions, text}
use mikrotik_openvpn_gui.Broker.Cache.{Cache, find, put, remove}
use mikrotik_openvpn_gui.Broker.Session.{
  Session, normalize_session, preserve_unobserved, session_payload,
}

abbrev pub max_session_snapshot_records : ℕ
max_session_snapshot_records = 4096

-- An interface with the clock it was sampled by: one that the caller gave, or the monotonic one, in
-- ticks.
pub record Interface : Type 0 where
  pub id : List ℕ
  pub name : List ℕ
  pub rx_bytes : ℕ
  pub tx_bytes : ℕ
  pub rx_packets : ℕ
  pub tx_packets : ℕ
  pub is_explicit : Bool
  pub sampled_at : ℕ

pub record TelemetryBroker : Type 0 where
  pub max_sessions : ℕ
  pub max_interfaces : ℕ
  pub sessions : Cache Session
  pub interfaces : Cache Interface
  pub sequence : ℕ
  pub counter_resets : ℕ
  pub interface_counter_resets : ℕ

-- `__init__`
unfoldable pub new_broker : ℕ → ℕ → TelemetryBroker
new_broker sessions interfaces = record {
  max_sessions = min max_cached_sessions (max 1 sessions);
  max_interfaces = min max_cached_interfaces (max 1 interfaces);
  sessions = [];
  interfaces = [];
  sequence = 0;
  counter_resets = 0;
  interface_counter_resets = 0;
}

-- A reply of the Binary API: whether its kind is `re`, whether it is a record that went away, and
-- its attributes.
pub record Reply (F : Type 0) : Type 0 where
  pub is_record : Bool
  pub dead : Bool
  pub attributes : Fields F

abbrev pub session_event : Option Session → String
session_event none = "vpn.session.connected"
session_event (some _) = "vpn.session.updated"

module _ {F : Type 0} where
  -- `_event`
  unfoldable pub send : String → Fields F → ℕ → TelemetryBroker → TelemetryEvent F × TelemetryBroker
  send name payload now b = (
    record {
      name = name;
      sequence = pos (b.sequence + 1);
      router_timestamp = pos now;
      payload = dict payload;
    },
    record b { sequence = b.sequence + 1 },
  )

  abbrev pub lower : String → ℕ → ℕ → Values F → Values F
  lower name before now names = if ltb now before then cons (str (codes name)) names else names

  -- The counters that went back.
  abbrev pub reset_names : Session → Session → Values F
  reset_names before s = lower "rx_bytes" before.rx_bytes s.rx_bytes (
      lower "tx_bytes" before.tx_bytes s.tx_bytes (
        lower "rx_packets" before.rx_packets s.rx_packets
          (lower "tx_packets" before.tx_packets s.tx_packets nil)))

  -- `_counter_reset_event`: no event or one.
  unfoldable pub reset_event :
      Values F → Session → ℕ → TelemetryBroker → List (TelemetryEvent F) × TelemetryBroker
  unfolding send
  reset_event nil s now b = ([], b)
  reset_event (cons v vs) s now b =
      let (event, sent) =
        send "telemetry.counter_reset"
          (field "id" (str s.id)
            (field "name" (str s.name) (field "fields" (list (cons v vs)) end)))
          now (record b { counter_resets = b.counter_resets + 1 }) in
      (event ∷ [], sent)

  unfoldable pub counter_reset_event :
      Option Session → Session → ℕ → TelemetryBroker → List (TelemetryEvent F) × TelemetryBroker
  unfolding reset_event
  counter_reset_event none s now b = ([], b)
  counter_reset_event (some before) s now b = reset_event (reset_names before s) s now b

  -- The events for a session that a reply or a snapshot shows.
  unfoldable pub announce :
      Option Session → Session → ℕ → TelemetryBroker → List (TelemetryEvent F) × TelemetryBroker
  unfolding counter_reset_event send
  announce before s now b =
      let (resets, b1) = counter_reset_event before s now b in
      let (event, b2) = send (session_event before) (session_payload s) now b1 in
      (resets ++ event ∷ [], b2)

-- `min(…, key=…)`: the first of the keys that were observed longest ago.
abbrev pub oldest : List ℕ → ℕ → Cache Session → List ℕ
oldest k at [] = k
oldest k at ((j, s) ∷ d) = if ltb s.observed_at at then oldest j s.observed_at d else oldest k at d

abbrev pub drop_oldest : Cache Session → Cache Session
drop_oldest [] = []
drop_oldest ((k, s) ∷ d) = remove (oldest k s.observed_at d) ((k, s) ∷ d)

unfoldable pub bounded_cache : ℕ → Cache Session → Cache Session
bounded_cache limit d = if ltb limit (length d) then drop_oldest d else d

module _ (floats : Floats) (conversions : Conversions floats.Float) where
  open floats use {Float}

  unfoldable pub apply_dead :
      List ℕ → ℕ → TelemetryBroker → List (TelemetryEvent Float) × TelemetryBroker
  unfolding send
  apply_dead [] now b = ([], b)
  apply_dead (c ∷ cs) now b = elim (find (c ∷ cs) b.sessions) [
    | none ↦ ([], b)
    | some before ↦
        let (event, sent) =
          send "vpn.session.disconnected" (session_payload before) now
            (record b { sessions = remove (c ∷ cs) b.sessions }) in
        (event ∷ [], sent)
  ]

  unfoldable pub apply_session :
      Fields Float → ℕ → Session → TelemetryBroker → List (TelemetryEvent Float) × TelemetryBroker
  unfolding announce bounded_cache
  apply_session attributes now raw b =
      let before = find raw.id b.sessions in
      let s = preserve_unobserved floats conversions attributes before raw in
      announce before s now
        (record b { sessions = bounded_cache b.max_sessions (put s.id s b.sessions) })

  unfoldable pub apply :
      Reply Float → ℕ → TelemetryBroker → List (TelemetryEvent Float) × TelemetryBroker
  unfolding apply_dead apply_session
  apply reply now b =
      if not reply.is_record
      then ([], b)
      else if reply.dead
      then apply_dead (text floats conversions (".id" ∷ "id" ∷ []) reply.attributes) now b
      else elim (normalize_session floats conversions now reply.attributes) [
        | none ↦ ([], b)
        | some raw ↦ apply_session reply.attributes now raw b
      ]
