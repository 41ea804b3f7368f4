-- ===== src/Broker/Samples.antt =====
-- Floats as thousandths, conversions of texts as those of short decimal numbers, a record of a session
-- and a small broker, for tests.
use mikrotik_openvpn_gui.Broker.Interfaces.{Rates, Sample}
use mikrotik_openvpn_gui.Common.{
  ◌/◌, ℕ, ◌+◌, ◌-◌, ◌*◌, Bool, true, false, ◌&&◌, some, none, List, [], ◌∷◌, ltb, leb,
  if◌then◌else◌,
}
use mikrotik_openvpn_gui.Common.Int.{pos}
use mikrotik_openvpn_gui.Gateway.Value.{integer, Floats, Fields, str, end, field, codes}
use mikrotik_openvpn_gui.Broker.Text.{Conversions}
use mikrotik_openvpn_gui.Broker.Sessions.{TelemetryBroker}

abbrev pub test_floats : Floats
test_floats = record {
  Float = ℕ;
  is_negative = λ x. false;
  exceeds = λ x limit. ltb (limit * 1000) x;
  is_finite = λ x. true;
}

abbrev all_digits : List ℕ → Bool
all_digits [] = true
all_digits (c ∷ cs) = leb 48 c && (leb c 57 && all_digits cs)

abbrev digits_value : ℕ → List ℕ → ℕ
digits_value n [] = n
digits_value n (c ∷ cs) = digits_value (n * 10 + (c - 48)) cs

abbrev pub test_conversions : Conversions ℕ
test_conversions = record {
  strip = λ cs. cs;
  show_integer = λ z. codes "7";
  show_float = λ x. codes "0.5";
  parse_integer = λ cs. if all_digits cs then some (pos (digits_value 0 cs)) else none;
  is_decimal = all_digits;
}

abbrev pub eve_record : Fields ℕ
eve_record = field ".id" (str (codes "*1")) (
    field "name" (str (codes "eve"))
      (field "password" (str (codes "hunter2")) (field "rx-byte" (str (codes "50")) end)))

abbrev pub two_seats : TelemetryBroker
two_seats = record {
  max_sessions = 2;
  max_interfaces = 4;
  sessions = [];
  interfaces = [];
  sequence = 7;
  counter_resets = 0;
  interface_counter_resets = 0;
}

abbrev pub whole_rates : Rates ℕ
whole_rates = record { zero_rate = 0; divide = λ difference elapsed. difference / elapsed }

abbrev pub ether_record : ℕ → Fields ℕ
ether_record received =
    field ".id" (str (codes "*9"))
      (field "name" (str (codes "ether1")) (field "rx-byte" (integer (pos received)) end))

abbrev pub monotonic : ℕ → Sample
monotonic at = record { is_explicit = false; sampled_at = at }

-- The second sample is below the first: the counter was reset.
abbrev pub ether_before : TelemetryBroker
ether_before = record two_seats {
  interfaces =
      (
        codes "*9",
        record {
          id = codes "*9";
          name = codes "ether1";
          rx_bytes = 90;
          tx_bytes = 0;
          rx_packets = 0;
          tx_packets = 0;
          is_explicit = false;
          sampled_at = 4;
        },
      )
      ∷ [];
}
