-- ===== src/Gateway/Frame/Payload.antt =====
-- Every frame's payload is made of public fields.
use mikrotik_openvpn_gui.Common.{
  ◌≡◌, inl, inr, refl, String, true, Option, some, none, arith, Option-cases,
}
use mikrotik_openvpn_gui.Gateway.Value.{
  Floats, Value, Values, Fields, str, list, dict, nil, cons, end, field, get_field,
}
use mikrotik_openvpn_gui.Gateway.Limits.{session_fields, interface_counter_fields, among}
use mikrotik_openvpn_gui.Gateway.Error.{ok, Outcome-cases}
use mikrotik_openvpn_gui.Gateway.Bounded.{bounded_text, redact_session, redact_interface}
use mikrotik_openvpn_gui.Gateway.Frame.{
  redact_sessions, redact_interfaces, snapshot_sessions, snapshot_interfaces, snapshot_payload,
  interface_payload, reset_scope_field, reset_text_field, all_reset_names, reset_names_field,
}
use mikrotik_openvpn_gui.Gateway.Frame.Private.{
  SafePayload, SafeField-value, OnlyRows, OnlyCounters, OnlyFields-SafePayload,
  redact_session-OnlyFields, redact_interface-OnlyFields, bounded_text-SafeValue, public_fields,
}

module _ (floats : Floats) where
  open floats use {Float}

  redact_sessions-OnlyRows :
      (vs ws : Values Float) → redact_sessions floats vs ≡ ok ws → OnlyRows floats session_fields ws
  unfolding redact_sessions
  redact_sessions-OnlyRows nil ws h = ground arith
  redact_sessions-OnlyRows (cons v vs) ws h = elim (Outcome-cases (redact_session floats v)) [
    | inr (x, e) ↦ absurd (ground (arith, e))
    | inl (fs, e) ↦ elim (Outcome-cases (redact_sessions floats vs)) [
      | inr (x, d) ↦ absurd (ground (arith, e, d))
      | inl (rest, d) ↦
          let same : ws ≡ cons (dict fs) rest = ground (arith, e, d) in
          rw same (redact_session-OnlyFields floats v fs e, redact_sessions-OnlyRows vs rest d)
    ]
  ]

  redact_interfaces-OnlyRows :
      (vs ws : Values Float)
      → redact_interfaces floats vs ≡ ok ws
      → OnlyRows floats interface_counter_fields ws
  unfolding redact_interfaces
  redact_interfaces-OnlyRows nil ws h = ground arith
  redact_interfaces-OnlyRows (cons v vs) ws h = elim (Outcome-cases (redact_interface floats v)) [
    | inr (x, e) ↦ absurd (ground (arith, e))
    | inl (fs, e) ↦ elim (Outcome-cases (redact_interfaces floats vs)) [
      | inr (x, d) ↦ absurd (ground (arith, e, d))
      | inl (rest, d) ↦
          let same : ws ≡ cons (dict fs) rest = ground (arith, e, d) in
          rw same (redact_interface-OnlyFields floats v fs e, redact_interfaces-OnlyRows vs rest d)
    ]
  ]

  all_reset_names-OnlyCounters :
      (vs : Values Float) → all_reset_names floats vs ≡ true → OnlyCounters floats vs
  unfolding all_reset_names
  all_reset_names-OnlyCounters nil h = tt
  all_reset_names-OnlyCounters (cons (str cs) vs) h =
      ground (arith, all_reset_names-OnlyCounters vs)
  all_reset_names-OnlyCounters (cons _ vs) h = cc

  snapshot_interfaces-SafePayload :
      (v : Option (Value Float)) (fs : Fields Float)
      → snapshot_interfaces floats v ≡ ok fs
      → SafePayload floats fs
  unfolding snapshot_interfaces
  snapshot_interfaces-SafePayload none fs h = ground arith
  snapshot_interfaces-SafePayload (some (list vs)) fs h =
      elim (Outcome-cases (redact_interfaces floats vs)) [
        | inr (x, e) ↦ absurd (ground (arith, e))
        | inl (ws, e) ↦
            let same : fs ≡ field "interfaces" (list ws) end = ground (arith, e) in
            rw same (inr (inl (refl, redact_interfaces-OnlyRows vs ws e)), tt)
      ]
  snapshot_interfaces-SafePayload (some _) fs h = cc

  snapshot_sessions-OnlyRows :
      (v : Option (Value Float)) (ws : Values Float)
      → snapshot_sessions floats v ≡ ok ws
      → OnlyRows floats session_fields ws
  unfolding snapshot_sessions
  snapshot_sessions-OnlyRows none ws h = ground arith
  snapshot_sessions-OnlyRows (some (list vs)) ws h = redact_sessions-OnlyRows vs ws (ground arith)
  snapshot_sessions-OnlyRows (some _) ws h = cc

  pub snapshot_payload-SafePayload :
      (payload fs : Fields Float) → snapshot_payload floats payload ≡ ok fs → SafePayload floats fs
  unfolding snapshot_payload
  snapshot_payload-SafePayload payload fs h =
      let sessions = get_field "sessions" payload in
      let interfaces = get_field "interfaces" payload in
      elim (Outcome-cases (snapshot_sessions floats sessions)) [
        | inr (x, e) ↦ absurd (ground (arith, e))
        | inl (ws, e) ↦ elim (Outcome-cases (snapshot_interfaces floats interfaces)) [
          | inr (x, d) ↦ absurd (ground (arith, e, d))
          | inl (rest, d) ↦
              let same : fs ≡ field "sessions" (list ws) rest = ground (arith, e, d) in
              rw same (
                inl (refl, snapshot_sessions-OnlyRows sessions ws e),
                snapshot_interfaces-SafePayload interfaces rest d,
              )
        ]
      ]

  pub interface_payload-SafePayload :
      (payload fs : Fields Float) → interface_payload floats payload ≡ ok fs → SafePayload floats fs
  unfolding interface_payload
  interface_payload-SafePayload payload fs h = elim (Option-cases (get_field "interface" payload)) [
    | inl e ↦
        OnlyFields-SafePayload floats interface_counter_fields fs refl
          (redact_interface-OnlyFields floats (dict payload) fs (rw (e, interface_payload) at h))
    | inr (v, e) ↦
        OnlyFields-SafePayload floats interface_counter_fields fs refl
          (redact_interface-OnlyFields floats v fs (rw (e, interface_payload) at h))
  ]

  -- A part of the reset's payload puts a safe field in front, or nothing.
  abbrev pub Prepends : (Fields Float → Fields Float) → Type 0
  Prepends f = (fs : Fields Float) → SafePayload floats fs → SafePayload floats (f fs)

  pub reset_text_field-Prepends :
      (k : String) (v : Option (Value Float)) (f : Fields Float → Fields Float)
      → among k public_fields ≡ true
      → reset_text_field floats k v ≡ ok f
      → Prepends f
  unfolding reset_text_field
  reset_text_field-Prepends k none f m h fs safe =
      let same : f ≡ (λ x. x) = ground arith in rw same safe
  reset_text_field-Prepends k (some v) f m h fs safe =
      elim (Outcome-cases (bounded_text floats v)) [
        | inr (x, e) ↦ absurd (ground (arith, e))
        | inl (w, e) ↦
            let same : f ≡ field k w = ground (arith, e) in
            rw same (SafeField-value floats k w m (bounded_text-SafeValue floats v w e), safe)
      ]

  pub reset_scope_field-Prepends :
      (v : Option (Value Float)) (f : Fields Float → Fields Float)
      → reset_scope_field floats v ≡ ok f
      → Prepends f
  unfolding reset_scope_field
  reset_scope_field-Prepends none f h fs safe =
      let same : f ≡ (λ x. x) = ground arith in rw same safe
  reset_scope_field-Prepends (some (str cs)) f h fs safe =
      elim (Outcome-cases (bounded_text floats (str cs))) [
        | inr (x, e) ↦ absurd (ground (arith, e))
        | inl (w, e) ↦
            let same : f ≡ field "scope" w = ground (arith, e) in
            rw same (
              SafeField-value floats "scope" w refl (bounded_text-SafeValue floats (str cs) w e),
              safe,
            )
      ]
  reset_scope_field-Prepends (some v) f h fs safe = elim (Outcome-cases (bounded_text floats v)) [
    | inr (x, e) ↦ absurd (ground (arith, e))
    | inl (w, e) ↦ absurd (ground (arith, e))
  ]

  pub reset_names_field-SafePayload :
      (v : Option (Value Float)) (fs : Fields Float)
      → reset_names_field floats v ≡ ok fs
      → SafePayload floats fs
  unfolding reset_names_field
  reset_names_field-SafePayload none fs h = ground arith
  reset_names_field-SafePayload (some (list vs)) fs h =
      let found : (all_reset_names floats vs ≡ true) × (fs ≡ field "fields" (list vs) end) =
        ground arith in
      rw found.1 (inr (inr (refl, all_reset_names-OnlyCounters vs found.0)), tt)
  reset_names_field-SafePayload (some _) fs h = cc
