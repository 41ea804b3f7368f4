-- ===== src/Gateway/Frame/Private.antt =====
-- What a frame can carry: the fields of the allow-lists, with values of bounded size.
use text.Mathlib.Text.{◌==◌ as str_eq}
use text.Mathlib.TextEquality.{eq_iff}
use mikrotik_openvpn_gui.Common.{
  ℕ, ◌≤◌, ◌≡◌, ◌⊎◌, inl, inr, refl, String, Bool, true, false, ◌&&◌, some, List, [], ◌∷◌, arith,
  Bool-cases, Option-cases,
}
use mikrotik_openvpn_gui.Common.Int.{pos, negsuc}
use mikrotik_openvpn_gui.Gateway.Value.{
  Floats, Value, Values, Fields, null, boolean, integer, float, str, list, dict, nil, cons, end,
  field, get_field, utf8_length,
}
use mikrotik_openvpn_gui.Gateway.Limits.{
  max_text_bytes, max_counter_value, session_fields, session_counter_fields, session_text_fields,
  interface_counter_fields, max_rate_value, among, text_among,
}
use mikrotik_openvpn_gui.Gateway.Error.{Outcome, ok, Outcome-cases}
use mikrotik_openvpn_gui.Gateway.Bounded.{
  bounded_text, bounded_counter, bounded_number, bounded_flag, project, session_field,
  interface_field, redact_session, redact_interface,
}
use mikrotik_openvpn_gui.Gateway.Frame.{metric_field}

-- Every field name that a frame's payload may have at its top, for a value that is no list.
abbrev pub public_fields : List String
public_fields =
    "scope" ∷ "cpu_percent" ∷ "memory_percent" ∷ "storage_percent" ∷ "status" ∷ "age_seconds"
    ∷ "rx_bytes_per_second" ∷ "tx_bytes_per_second" ∷ "rx_packets_per_second"
    ∷ "tx_packets_per_second" ∷ session_fields

abbrev all_among : List String → List String → Bool
all_among [] others = true
all_among (x ∷ xs) others = among x others && all_among xs others

among_all :
    (k : String) (xs others : List String)
    → all_among xs others ≡ true
    → among k xs ≡ true
    → among k others ≡ true
among_all k [] others h m = cc
among_all k (x ∷ xs) others h m = ground (arith, eq_iff x k, among_all k xs others)

module _ (floats : Floats) where
  open floats use {Float, is_negative, is_finite}

  -- A value with no structure: a text of at most 256 UTF-8 bytes, a number from 0 on that is
  -- finite, or a Boolean.
  abbrev pub SafeValue : Value Float → Type 0
  SafeValue (str cs) = (n : ℕ) × (utf8_length cs ≡ some n) × (n ≤ max_text_bytes)
  SafeValue (integer (pos n)) = n ≤ max_counter_value
  SafeValue (float x) = (is_negative x ≡ false) × (is_finite x ≡ true)
  SafeValue (boolean b) = Unit
  SafeValue _ = ⊥

  abbrev pub OnlyFields : List String → Fields Float → Type 0
  OnlyFields names end = Unit
  OnlyFields names (field k v fs) = (among k names ≡ true) × SafeValue v × OnlyFields names fs

  pub bounded_text-SafeValue : (v w : Value Float) → bounded_text floats v ≡ ok w → SafeValue w
  unfolding bounded_text
  bounded_text-SafeValue (str cs) w h = elim (Option-cases (utf8_length cs)) [
    | inl e ↦ ground (arith, e)
    | inr (n, e) ↦
        let same : (n ≤ max_text_bytes) × (w ≡ str cs) = ground (arith, e) in
        rw same.1 (n, e, same.0)
  ]
  bounded_text-SafeValue null w h = cc
  bounded_text-SafeValue _ w h = cc

  bounded_counter-SafeValue : (v w : Value Float) → bounded_counter floats v ≡ ok w → SafeValue w
  unfolding bounded_counter
  bounded_counter-SafeValue (integer (pos n)) w h = ground arith
  bounded_counter-SafeValue (integer (negsuc n)) w h = cc
  bounded_counter-SafeValue _ w h = cc

  bounded_number-SafeValue :
      (maximum : ℕ) (v w : Value Float)
      → maximum ≤ max_counter_value
      → bounded_number floats maximum v ≡ ok w
      → SafeValue w
  unfolding bounded_number
  bounded_number-SafeValue maximum (integer (pos n)) w small h = ground arith
  bounded_number-SafeValue maximum (integer (negsuc n)) w small h = cc
  bounded_number-SafeValue maximum (float x) w small h = ground arith
  bounded_number-SafeValue maximum _ w small h = cc

  bounded_flag-SafeValue : (v w : Value Float) → bounded_flag floats v ≡ ok w → SafeValue w
  unfolding bounded_flag
  bounded_flag-SafeValue (boolean b) w h = ground arith
  bounded_flag-SafeValue _ w h = cc

  session_field-SafeValue :
      (k : String) (v w : Value Float) → session_field floats k v ≡ ok w → SafeValue w
  unfolding session_field
  session_field-SafeValue k v w h = elim (Bool-cases (among k session_text_fields)) [
    | inl e ↦ bounded_text-SafeValue v w (rw e at h)
    | inr e ↦ elim (Bool-cases (among k session_counter_fields)) [
      | inl d ↦ bounded_counter-SafeValue v w (rw (e, d) at h)
      | inr d ↦ bounded_flag-SafeValue v w (rw (e, d) at h)
    ]
  ]

  interface_field-SafeValue :
      (k : String) (v w : Value Float) → interface_field floats k v ≡ ok w → SafeValue w
  unfolding interface_field
  interface_field-SafeValue k v w h = elim (Bool-cases (among k ("id" ∷ "name" ∷ []))) [
    | inl e ↦ bounded_text-SafeValue v w (rw e at h)
    | inr e ↦ elim (Bool-cases (among k session_counter_fields)) [
      | inl d ↦ bounded_counter-SafeValue v w (rw (e, d) at h)
      | inr d ↦ bounded_number-SafeValue max_rate_value v w (omega arith) (rw (e, d) at h)
    ]
  ]

  pub metric_field-SafeValue :
      (k : String) (v w : Value Float) → metric_field floats k v ≡ ok w → SafeValue w
  unfolding metric_field
  metric_field-SafeValue k v w h = elim (Bool-cases (str_eq k "status")) [
    | inl e ↦ bounded_text-SafeValue v w (rw e at h)
    | inr e ↦
        elim (Bool-cases (among k ("cpu_percent" ∷ "memory_percent" ∷ "storage_percent" ∷ []))) [
          | inl d ↦ bounded_number-SafeValue 100 v w (omega arith) (rw (e, d) at h)
          | inr d ↦ bounded_number-SafeValue max_rate_value v w (omega arith) (rw (e, d) at h)
        ]
  ]

  OnlyFields-wider :
      (names others : List String) (fs : Fields Float)
      → all_among names others ≡ true
      → OnlyFields names fs
      → OnlyFields others fs
  OnlyFields-wider names others end h o = tt
  OnlyFields-wider names others (field k v fs) h o =
      (among_all k names others h o.0, o.1, OnlyFields-wider names others fs h o.2)

  -- A projection keeps names of the list, in its order, and the values that the check accepts.
  pub project-OnlyFields :
      (check : String → Value Float → Outcome (Value Float))
      (checked : (k : String) (v w : Value Float) → check k v ≡ ok w → SafeValue w)
      (all names : List String) (value fs : Fields Float)
      → all_among names all ≡ true
      → project floats check names value ≡ ok fs
      → OnlyFields all fs
  unfolding project
  project-OnlyFields check checked all [] value fs h e = ground arith
  project-OnlyFields check checked all (k ∷ names) value fs h e =
      elim (Option-cases (get_field k value)) [
        | inl d ↦
            project-OnlyFields check checked all names value fs (ground arith)
              (rw (d, project) at e)
        | inr (v, d) ↦ elim (Outcome-cases (check k v)) [
          | inr (x, c) ↦ absurd (ground (arith, d, c))
          | inl (w, c) ↦ elim (Outcome-cases (project floats check names value)) [
            | inr (x, r) ↦ absurd (ground (arith, d, c, r))
            | inl (rest, r) ↦
                let same : fs ≡ field k w rest = ground (arith, d, c, r) in
                rw same (
                  ground arith,
                  checked k v w c,
                  project-OnlyFields check checked all names value rest (ground arith) r,
                )
          ]
        ]
      ]

  pub redact_session-OnlyFields :
      (v : Value Float) (fs : Fields Float)
      → redact_session floats v ≡ ok fs
      → OnlyFields session_fields fs
  unfolding redact_session
  redact_session-OnlyFields (dict value) fs h =
      project-OnlyFields (session_field floats) session_field-SafeValue session_fields
        session_fields value fs refl h
  redact_session-OnlyFields null fs h = ground arith
  redact_session-OnlyFields _ fs h = ground arith

  pub redact_interface-OnlyFields :
      (v : Value Float) (fs : Fields Float)
      → redact_interface floats v ≡ ok fs
      → OnlyFields interface_counter_fields fs
  unfolding redact_interface
  redact_interface-OnlyFields (dict value) fs h =
      project-OnlyFields (interface_field floats) interface_field-SafeValue interface_counter_fields
        interface_counter_fields value fs refl h
  redact_interface-OnlyFields null fs h = ground arith
  redact_interface-OnlyFields _ fs h = ground arith

  -- A list of rows that have only such fields.
  abbrev pub OnlyRows : List String → Values Float → Type 0
  OnlyRows names nil = Unit
  OnlyRows names (cons (dict fs) vs) = OnlyFields names fs × OnlyRows names vs
  OnlyRows names (cons _ vs) = ⊥

  -- The counter names of a reset.
  abbrev pub OnlyCounters : Values Float → Type 0
  OnlyCounters nil = Unit
  OnlyCounters (cons (str cs) vs) = (text_among cs session_counter_fields ≡ true) × OnlyCounters vs
  OnlyCounters (cons _ vs) = ⊥

  abbrev pub SafeField : String → Value Float → Type 0
  SafeField k (list vs) =
      ((k ≡ "sessions") × OnlyRows session_fields vs)
      ⊎ ((k ≡ "interfaces") × OnlyRows interface_counter_fields vs)
      ⊎ ((k ≡ "fields") × OnlyCounters vs)
  SafeField k v = (among k public_fields ≡ true) × SafeValue v

  abbrev pub SafePayload : Fields Float → Type 0
  SafePayload end = Unit
  SafePayload (field k v fs) = SafeField k v × SafePayload fs

  pub SafeField-value :
      (k : String) (v : Value Float) → among k public_fields ≡ true → SafeValue v → SafeField k v
  SafeField-value k (str cs) m h = (m, h)
  SafeField-value k (list vs) m h = absurd h
  SafeField-value k _ m h = (m, h)

  pub OnlyFields-SafePayload :
      (names : List String) (fs : Fields Float)
      → all_among names public_fields ≡ true
      → OnlyFields names fs
      → SafePayload fs
  OnlyFields-SafePayload names end h o = tt
  OnlyFields-SafePayload names (field k v fs) h o = (
    SafeField-value k v (among_all k names public_fields h o.0) o.1,
    OnlyFields-SafePayload names fs h o.2,
  )
