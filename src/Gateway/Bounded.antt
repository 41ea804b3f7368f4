-- ===== src/Gateway/Bounded.antt =====
-- `_bounded_text` to `_redact_interface` of telemetry_gateway.py.
use mikrotik_openvpn_gui.Common.{
  ℕ, String, not, ◌||◌, none, some, List, [], ◌∷◌, ltb, if◌then◌else◌, length,
}
use mikrotik_openvpn_gui.Common.Int.{ℤ, pos, negsuc}
use mikrotik_openvpn_gui.Gateway.Value.{
  Floats, Value, Fields, boolean, integer, float, str, dict, end, field, get_field, utf8_length,
}
use mikrotik_openvpn_gui.Gateway.Limits.{
  max_text_bytes, max_counter_value, max_frame_number, max_rate_value, session_text_fields,
  session_counter_fields, session_fields, interface_counter_fields, among,
}
use mikrotik_openvpn_gui.Gateway.Error.{
  Outcome, ok, err, ◌>>=◌, text_type, text_limit, text_encoding, counter_invalid, number_type,
  number_limit, sequence_invalid, flag_type,
}

unfoldable pub bounded_sequence : ℤ → Outcome ℕ
bounded_sequence (pos n) = if ltb max_frame_number n then err sequence_invalid else ok n
bounded_sequence (negsuc n) = err sequence_invalid

module _ (floats : Floats) where
  open floats use {Float, is_negative, exceeds, is_finite}

  unfoldable pub bounded_text : Value Float → Outcome (Value Float)
  bounded_text (str cs) =
      if ltb max_text_bytes (length cs) then err text_limit else elim (utf8_length cs) [
        | none ↦ err text_encoding
        | some n ↦ if ltb max_text_bytes n then err text_limit else ok (str cs)
      ]
  bounded_text _ = err text_type

  unfoldable pub bounded_counter : Value Float → Outcome (Value Float)
  bounded_counter (integer (pos n)) =
      if ltb max_counter_value n then err counter_invalid else ok (integer (pos n))
  bounded_counter _ = err counter_invalid

  unfoldable pub bounded_number : ℕ → Value Float → Outcome (Value Float)
  bounded_number maximum (integer (pos n)) =
      if ltb maximum n then err number_limit else ok (integer (pos n))
  bounded_number maximum (integer (negsuc n)) = err number_limit
  bounded_number maximum (float x) =
      if is_negative x || exceeds x maximum
      then err number_limit
      else if not (is_finite x)
      then err number_limit
      else ok (float x)
  bounded_number maximum _ = err number_type

  unfoldable pub bounded_flag : Value Float → Outcome (Value Float)
  bounded_flag (boolean b) = ok (boolean b)
  bounded_flag _ = err flag_type

  -- The loop over an allow-list: fields that are not there are passed over.
  unfoldable pub project :
      (String → Value Float → Outcome (Value Float))
      → List String
      → Fields Float
      → Outcome (Fields Float)
  project check [] value = ok end
  project check (key ∷ names) value =
      let rest = project check names value in
      elim (get_field key value) [
        | none ↦ rest
        | some v ↦ do safe ← check key v; others ← rest; ok (field key safe others)
      ]

  unfoldable pub session_field : String → Value Float → Outcome (Value Float)
  unfolding bounded_flag
  session_field key v =
      if among key session_text_fields
      then bounded_text v
      else if among key session_counter_fields
      then bounded_counter v
      else bounded_flag v

  unfoldable pub redact_session : Value Float → Outcome (Fields Float)
  unfolding session_field project
  redact_session (dict fs) = project session_field session_fields fs
  redact_session _ = ok end

  unfoldable pub interface_field : String → Value Float → Outcome (Value Float)
  interface_field key v =
      if among key ("id" ∷ "name" ∷ [])
      then bounded_text v
      else if among key session_counter_fields
      then bounded_counter v
      else bounded_number max_rate_value v

  unfoldable pub redact_interface : Value Float → Outcome (Fields Float)
  unfolding interface_field project
  redact_interface (dict fs) = project interface_field interface_counter_fields fs
  redact_interface _ = ok end
