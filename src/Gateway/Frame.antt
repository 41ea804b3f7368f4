-- ===== src/Gateway/Frame.antt =====
-- `_build_frame` of telemetry_gateway.py. The size that `json.dumps` gives a frame is a parameter,
-- `none` where it raises.
pub mod Private
pub mod Payload
pub mod Boundary
use text.Mathlib.Text.{◌==◌ as str_eq}
use mikrotik_openvpn_gui.Common.{
  ℕ, String, Bool, true, false, not, ◌&&◌, ◌||◌, Option, none, some, List, [], ◌∷◌, ltb,
  if◌then◌else◌,
}
use mikrotik_openvpn_gui.Common.Int.{ℤ}
use mikrotik_openvpn_gui.Gateway.Value.{
  Floats, Value, Values, Fields, str, list, dict, nil, cons, end, field, get_field, count_values,
}
use mikrotik_openvpn_gui.Gateway.Limits.{
  max_cached_sessions, max_cached_interfaces, max_rate_value, max_frame_bytes, supported_events,
  session_counter_fields, router_metric_fields, among, text_among,
}
use mikrotik_openvpn_gui.Gateway.Error.{
  Outcome, ok, err, ◌>>=◌, unsupported_event, session_limit, interface_limit, reset_scope,
  reset_fields, not_serializable, frame_limit,
}
use mikrotik_openvpn_gui.Gateway.Bounded.{
  bounded_text, bounded_number, bounded_sequence, project, redact_session, redact_interface,
}

-- `TelemetryEvent` of telemetry_broker.py
pub record TelemetryEvent (F : Type 0) : Type 0 where
  pub name : String
  pub sequence : ℤ
  pub router_timestamp : ℤ
  pub payload : Value F

-- The frame that is sent. Its protocol version is a constant.
pub record Frame (F : Type 0) : Type 0 where
  pub event : String
  pub sequence : ℕ
  pub router_timestamp : ℕ
  pub payload : Fields F

module _ (floats : Floats) where
  open floats use {Float}

  redact_sessions : Values Float → Outcome (Values Float)
  redact_sessions nil = ok nil
  redact_sessions (cons v vs) = do
    safe ← redact_session floats v
    others ← redact_sessions vs
    ok (cons (dict safe) others)

  redact_interfaces : Values Float → Outcome (Values Float)
  redact_interfaces nil = ok nil
  redact_interfaces (cons v vs) = do
    safe ← redact_interface floats v
    others ← redact_interfaces vs
    ok (cons (dict safe) others)

  -- `"interfaces" in payload` and what follows, in the snapshot branch.
  snapshot_interfaces : Option (Value Float) → Outcome (Fields Float)
  unfolding redact_interfaces
  snapshot_interfaces none = ok end
  snapshot_interfaces (some (list vs)) =
      if ltb max_cached_interfaces (count_values vs)
      then err interface_limit
      else do safe ← redact_interfaces vs; ok (field "interfaces" (list safe) end)
  snapshot_interfaces (some _) = err interface_limit

  snapshot_sessions : Option (Value Float) → Outcome (Values Float)
  unfolding redact_sessions
  snapshot_sessions none = ok nil
  snapshot_sessions (some (list vs)) =
      if ltb max_cached_sessions (count_values vs) then err session_limit else redact_sessions vs
  snapshot_sessions (some _) = err session_limit

  pub snapshot_payload : Fields Float → Outcome (Fields Float)
  unfolding snapshot_sessions snapshot_interfaces
  snapshot_payload payload = do
    sessions ← snapshot_sessions (get_field "sessions" payload)
    interfaces ← snapshot_interfaces (get_field "interfaces" payload)
    ok (field "sessions" (list sessions) interfaces)

  -- `payload.get("interface", payload)`
  pub interface_payload : Fields Float → Outcome (Fields Float)
  interface_payload payload = elim (get_field "interface" payload) [
    | none ↦ redact_interface floats (dict payload)
    | some v ↦ redact_interface floats v
  ]

  pub reset_scope_field : Option (Value Float) → Outcome (Fields Float → Fields Float)
  reset_scope_field none = ok (λ fs. fs)
  reset_scope_field (some (str cs)) = do
    scope ← bounded_text floats (str cs)
    if text_among cs ("session" ∷ "interface" ∷ [])
        then ok (field "scope" scope)
        else err reset_scope
  reset_scope_field (some v) = do scope ← bounded_text floats v; err reset_scope

  pub reset_text_field : String → Option (Value Float) → Outcome (Fields Float → Fields Float)
  reset_text_field key none = ok (λ fs. fs)
  reset_text_field key (some v) = do safe ← bounded_text floats v; ok (field key safe)

  all_reset_names : Values Float → Bool
  all_reset_names nil = true
  all_reset_names (cons (str cs) vs) = text_among cs session_counter_fields && all_reset_names vs
  all_reset_names (cons _ vs) = false

  pub reset_names_field : Option (Value Float) → Outcome (Fields Float)
  unfolding all_reset_names
  reset_names_field none = ok end
  reset_names_field (some (list vs)) =
      if ltb 4 (count_values vs) || not (all_reset_names vs)
      then err reset_fields
      else ok (field "fields" (list vs) end)
  reset_names_field (some _) = err reset_fields

  reset_payload : Fields Float → Outcome (Fields Float)
  unfolding reset_scope_field reset_text_field reset_names_field
  reset_payload payload = do
    scope ← reset_scope_field (get_field "scope" payload)
    id ← reset_text_field "id" (get_field "id" payload)
    name ← reset_text_field "name" (get_field "name" payload)
    fields ← reset_names_field (get_field "fields" payload)
    ok (scope (id (name fields)))

  -- `100 if key.endswith("_percent") else MAX_RATE_VALUE`
  pub metric_field : String → Value Float → Outcome (Value Float)
  metric_field key v =
      if str_eq key "status"
      then bounded_text floats v
      else if among key ("cpu_percent" ∷ "memory_percent" ∷ "storage_percent" ∷ [])
      then bounded_number floats 100 v
      else bounded_number floats max_rate_value v

  payload_fields : Value Float → Fields Float
  payload_fields (dict fs) = fs
  payload_fields _ = end

  -- The payload of a frame, by the event's name.
  unfoldable pub safe_payload : String → Value Float → Outcome (Fields Float)
  unfolding snapshot_payload interface_payload reset_payload metric_field project payload_fields
  safe_payload name payload =
      let fs = payload_fields payload in
      if not (among name supported_events)
      then err unsupported_event
      else if str_eq name "telemetry.snapshot"
      then snapshot_payload fs
      else if str_eq name "vpn.interface.counters"
      then interface_payload fs
      else if str_eq name "telemetry.counter_reset"
      then reset_payload fs
      else if among name
          ("router.capacity.updated" ∷ "router.health.updated" ∷ "telemetry.reconciled" ∷ [])
      then project floats metric_field router_metric_fields fs
      else redact_session floats (dict fs)

  -- `frame_size` is the length of `json.dumps(frame).encode("utf-8")`.
  unfoldable pub build_frame :
      (Frame Float → Option ℕ) → TelemetryEvent Float → Outcome (Frame Float × ℕ)
  build_frame frame_size event = do
    payload ← safe_payload event.name event.payload
    sequence ← bounded_sequence event.sequence
    timestamp ← bounded_sequence event.router_timestamp
    let frame : Frame Float = record {
      event = event.name;
      sequence = sequence;
      router_timestamp = timestamp;
      payload = payload;
    }
    elim (frame_size frame) [
      | none ↦ err not_serializable
      | some n ↦ if ltb max_frame_bytes n then err frame_limit else ok (frame, n)
    ]
