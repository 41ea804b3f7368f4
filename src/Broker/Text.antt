-- ===== src/Broker/Text.antt =====
-- `_text`, `_counter` and `_counter_observed` of telemetry_broker.py. What Python's own conversions
-- give is a parameter.
use mikrotik_openvpn_gui.Common.{
  ℕ, ◌+◌, ◌^◌, String, Bool, true, false, not, Option, none, some, List, [], ◌∷◌, length, ltb, leb,
  if◌then◌else◌,
}
use mikrotik_openvpn_gui.Common.Int.{ℤ, pos, negsuc}
use mikrotik_openvpn_gui.Gateway.Value.{
  Floats, Value, Fields, integer, float, str, get_field, utf8_length,
}
use mikrotik_openvpn_gui.Gateway.Limits.{max_counter_value}

-- `s.strip()`, `str(n)`, `str(x)`, `int(s)` where it does not raise, and `s.isdecimal()`.
pub record Conversions (F : Type 0) : Type 0 where
  pub strip : List ℕ → List ℕ
  pub show_integer : ℤ → List ℕ
  pub show_float : F → List ℕ
  pub parse_integer : List ℕ → Option ℤ
  pub is_decimal : List ℕ → Bool

abbrev pub max_telemetry_text_bytes : ℕ
max_telemetry_text_bytes = 256

-- The size test at the end of the loop's body in `_text`.
unfoldable pub fitting : List ℕ → Option (List ℕ)
fitting cs = if ltb max_telemetry_text_bytes (length cs) then none else elim (utf8_length cs) [
  | none ↦ none
  | some n ↦ if leb n max_telemetry_text_bytes then some cs else none
]

-- `n.bit_length() > 4 * MAX_TELEMETRY_TEXT_BYTES`
abbrev pub is_huge : ℤ → Bool
is_huge (pos n) = leb (2 ^ 1024) n
is_huge (negsuc n) = leb (2 ^ 1024) (n + 1)

module _ (floats : Floats) (conversions : Conversions floats.Float) where
  open floats use {Float, is_finite}
  open conversions use {strip, show_integer, show_float, parse_integer, is_decimal}

  -- What `_text` takes from one value; `none` where it goes on with the next key.
  unfoldable pub text_of : Value Float → Option (List ℕ)
  text_of (str cs) = if ltb max_telemetry_text_bytes (length cs) then none else fitting (strip cs)
  text_of (integer z) = if is_huge z then none else fitting (show_integer z)
  text_of (float x) = if not (is_finite x) then none else fitting (show_float x)
  text_of _ = none

  unfoldable pub text : List String → Fields Float → List ℕ
  text [] fields = []
  text (key ∷ names) fields =
      let rest = text names fields in
      elim (get_field key fields) [
        | none ↦ rest
        | some v ↦ elim (text_of v) [ none ↦ rest | some cs ↦ cs ]
      ]

  -- `not value` holds for an empty text, where `int` would raise as well.
  unfoldable pub counter : List String → Fields Float → ℕ
  counter names fields = elim (text names fields) [
    | [] ↦ 0
    | c ∷ cs ↦ elim (parse_integer (c ∷ cs)) [
      | none ↦ 0
      | some (pos n) ↦ if leb n max_counter_value then n else 0
      | some (negsuc n) ↦ 0
    ]
  ]

  unfoldable pub counter_observed : List String → Fields Float → Bool
  counter_observed names fields = elim (text names fields) [
    | [] ↦ false
    | c ∷ cs ↦ if not (is_decimal (c ∷ cs)) then false else elim (parse_integer (c ∷ cs)) [
      | none ↦ false
      | some (pos n) ↦ leb n max_counter_value
      | some (negsuc n) ↦ true
    ]
  ]
