-- ===== src/Gateway/Frame/Boundary.antt =====
-- The privacy boundary: what `_build_frame` lets through.
use text.Mathlib.Text.{◌==◌ as str_eq}
use mikrotik_openvpn_gui.Common.{
  ℕ, ◌≤◌, ◌≡◌, inl, inr, refl, String, true, Option, some, ◌∷◌, [], arith, Bool-cases, Option-cases,
}
use mikrotik_openvpn_gui.Common.Int.{ℤ, pos, negsuc}
use mikrotik_openvpn_gui.Gateway.Value.{Floats, Value, Fields, dict, get_field}
use mikrotik_openvpn_gui.Gateway.Limits.{
  session_fields, router_metric_fields, supported_events, among, max_frame_bytes, max_frame_number,
}
use mikrotik_openvpn_gui.Gateway.Error.{ok, Outcome-cases}
use mikrotik_openvpn_gui.Gateway.Bounded.{bounded_sequence}
use mikrotik_openvpn_gui.Gateway.Frame.{
  TelemetryEvent, Frame, safe_payload, reset_scope_field, reset_text_field, reset_names_field,
  reset_payload, metric_field, payload_fields, build_frame,
}
use mikrotik_openvpn_gui.Gateway.Frame.Private.{
  SafePayload, OnlyFields-SafePayload, redact_session-OnlyFields, project-OnlyFields,
  metric_field-SafeValue,
}
use mikrotik_openvpn_gui.Gateway.Frame.Payload.{
  snapshot_payload-SafePayload, interface_payload-SafePayload, reset_text_field-Prepends,
  reset_scope_field-Prepends, reset_names_field-SafePayload,
}

sequence_bound : (z : ℤ) (n : ℕ) → bounded_sequence z ≡ ok n → n ≤ max_frame_number
unfolding bounded_sequence
sequence_bound (pos m) n h = ground arith
sequence_bound (negsuc m) n h = cc

module _ (floats : Floats) where
  open floats use {Float}

  reset_payload-SafePayload :
      (payload fs : Fields Float) → reset_payload floats payload ≡ ok fs → SafePayload floats fs
  unfolding reset_payload
  reset_payload-SafePayload payload fs h =
      let scope = get_field "scope" payload in
      let id = get_field "id" payload in
      let name = get_field "name" payload in
      let names = get_field "fields" payload in
      elim (Outcome-cases (reset_scope_field floats scope)) [
        | inr (x, a) ↦ absurd (ground (arith, a))
        | inl (f, a) ↦ elim (Outcome-cases (reset_text_field floats "id" id)) [
          | inr (x, b) ↦ absurd (ground (arith, a, b))
          | inl (g, b) ↦ elim (Outcome-cases (reset_text_field floats "name" name)) [
            | inr (x, c) ↦ absurd (ground (arith, a, b, c))
            | inl (k, c) ↦ elim (Outcome-cases (reset_names_field floats names)) [
              | inr (x, d) ↦ absurd (ground (arith, a, b, c, d))
              | inl (rest, d) ↦
                  let same : fs ≡ f (g (k rest)) = ground (arith, a, b, c, d) in
                  rw same (
                    reset_scope_field-Prepends floats scope f a (g (k rest)) (
                      reset_text_field-Prepends floats "id" id g refl b (k rest) (
                        reset_text_field-Prepends floats "name" name k refl c rest
                          (reset_names_field-SafePayload floats names rest d))))
            ]
          ]
        ]
      ]

  safe_payload-SafePayload :
      (name : String) (payload : Value Float) (fs : Fields Float)
      → safe_payload floats name payload ≡ ok fs
      → SafePayload floats fs
  unfolding safe_payload
  safe_payload-SafePayload name payload fs h =
      let value = payload_fields floats payload in
      elim (Bool-cases (among name supported_events)) [
        | inr no_event ↦ absurd (ground (arith, no_event))
        | inl event ↦ elim (Bool-cases (str_eq name "telemetry.snapshot")) [
          | inl a ↦ snapshot_payload-SafePayload floats value fs (ground (arith, event, a))
          | inr a ↦ elim (Bool-cases (str_eq name "vpn.interface.counters")) [
            | inl b ↦ interface_payload-SafePayload floats value fs (ground (arith, event, a, b))
            | inr b ↦ elim (Bool-cases (str_eq name "telemetry.counter_reset")) [
              | inl c ↦ reset_payload-SafePayload value fs (ground (arith, event, a, b, c))
              | inr c ↦
                  elim (Bool-cases (
                    among name (
                      "router.capacity.updated" ∷ "router.health.updated" ∷ "telemetry.reconciled"
                      ∷ []))) [
                        | inl d ↦ OnlyFields-SafePayload floats router_metric_fields fs refl (
                            project-OnlyFields floats (metric_field floats)
                              (metric_field-SafeValue floats) router_metric_fields
                              router_metric_fields value fs refl
                              (ground (arith, event, a, b, c, d)))
                        | inr d ↦ OnlyFields-SafePayload floats session_fields fs refl (
                            redact_session-OnlyFields floats (dict value) fs
                              (ground (arith, event, a, b, c, d)))
                      ]
            ]
          ]
        ]
      ]

  abbrev pub IsSafeFrame :
      (Frame Float → Option ℕ) → TelemetryEvent Float → Frame Float → ℕ → Type 0
  IsSafeFrame frame_size event frame size =
      SafePayload floats frame.payload
      × (among frame.event supported_events ≡ true)
      × (frame.event ≡ event.name)
      × (frame.sequence ≤ max_frame_number)
      × (frame.router_timestamp ≤ max_frame_number)
      × (frame_size frame ≡ some size)
      × (size ≤ max_frame_bytes)

  -- A frame that `_build_frame` returns has a supported event's name, numbers of at most 63 bits, a
  -- size within the frame limit, and a payload of public fields only: at its top values with no
  -- structure, texts of at most 256 UTF-8 bytes among them, under names of the allow-lists, and
  -- lists of sessions, interfaces or counter names, each with such fields only.
  pub build_frame-SafePayload :
      (frame_size : Frame Float → Option ℕ) (event : TelemetryEvent Float) (frame : Frame Float)
      (size : ℕ)
      → build_frame floats frame_size event ≡ ok (frame, size)
      → IsSafeFrame frame_size event frame size
  unfolding build_frame
  build_frame-SafePayload frame_size event frame size h =
      elim (Outcome-cases (safe_payload floats event.name event.payload)) [
        | inr (x, a) ↦ absurd (ground (arith, a))
        | inl (payload, a) ↦ elim (Outcome-cases (bounded_sequence event.sequence)) [
          | inr (x, b) ↦ absurd (ground (arith, a, b))
          | inl (n, b) ↦ elim (Outcome-cases (bounded_sequence event.router_timestamp)) [
            | inr (x, c) ↦ absurd (ground (arith, a, b, c))
            | inl (t, c) ↦
                let built : Frame Float = record {
                  event = event.name;
                  sequence = n;
                  router_timestamp = t;
                  payload = payload;
                } in
                elim (Option-cases (frame_size built)) [
                  | inl d ↦ absurd (ground (arith, a, b, c, d))
                  | inr (k, d) ↦
                      let same : (k ≤ max_frame_bytes) × (frame ≡ built) × (size ≡ k) =
                        ground (arith, a, b, c, d) in
                      rw (same.1, same.2)
                        (
                          safe_payload-SafePayload event.name event.payload payload a,
                          unfold safe_payload in ground (arith, a),
                          refl,
                          sequence_bound event.sequence n b,
                          sequence_bound event.router_timestamp t c,
                          d,
                          same.0,
                        )
                ]
          ]
        ]
      ]

  -- A frame keeps its event's sequence number.
  pub build_frame-sequence :
      (frame_size : Frame Float → Option ℕ) (event : TelemetryEvent Float) (frame : Frame Float)
      (size n : ℕ)
      → event.sequence ≡ pos n
      → build_frame floats frame_size event ≡ ok (frame, size)
      → frame.sequence ≡ n
  unfolding build_frame bounded_sequence
  build_frame-sequence frame_size event frame size n e h =
      elim (Outcome-cases (safe_payload floats event.name event.payload)) [
        | inr (x, a) ↦ absurd (ground (arith, a))
        | inl (payload, a) ↦ elim (Outcome-cases (bounded_sequence event.router_timestamp)) [
          | inr (x, c) ↦ absurd (ground (arith, a, e, c))
          | inl (t, c) ↦
              let built : Frame Float = record {
                event = event.name;
                sequence = n;
                router_timestamp = t;
                payload = payload;
              } in
              elim (Option-cases (frame_size built)) [
                | inl d ↦ absurd (ground (arith, a, e, c, d))
                | inr (k, d) ↦ ground (arith, a, e, c, d)
              ]
        ]
      ]
