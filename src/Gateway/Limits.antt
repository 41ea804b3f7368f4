-- ===== src/Gateway/Limits.antt =====
-- The limits and the allow-lists of telemetry_gateway.py. Python's sets of names are lists here.
use text.Mathlib.Text.{◌==◌ as str_eq}
use mikrotik_openvpn_gui.Common.{
  ℕ, ◌-◌, ◌*◌, ◌^◌, String, Bool, true, false, ◌||◌, List, [], ◌∷◌, if◌then◌else◌,
}
use mikrotik_openvpn_gui.Gateway.Value.{codes, same_codes}

abbrev pub max_text_bytes : ℕ
max_text_bytes = 256

abbrev pub max_cached_sessions : ℕ
max_cached_sessions = 4096

abbrev pub max_cached_interfaces : ℕ
max_cached_interfaces = 1024

abbrev pub max_counter_value : ℕ
max_counter_value = 2 ^ 64 - 1

abbrev pub max_frame_number : ℕ
max_frame_number = 2 ^ 63 - 1

abbrev pub max_rate_value : ℕ
max_rate_value = 10 ^ 15

abbrev pub max_frame_bytes : ℕ
max_frame_bytes = 8 * 2 ^ 20

abbrev pub protocol_version : ℕ
protocol_version = 1

abbrev pub supported_events : List String
supported_events =
    "telemetry.snapshot" ∷ "vpn.session.connected" ∷ "vpn.session.updated"
    ∷ "vpn.session.disconnected" ∷ "vpn.interface.counters" ∷ "telemetry.counter_reset"
    ∷ "router.capacity.updated" ∷ "router.health.updated" ∷ "telemetry.reconciled" ∷ []

abbrev pub session_text_fields : List String
session_text_fields =
    "id" ∷ "name" ∷ "vpn_address" ∷ "source_address" ∷ "uptime" ∷ "encoding" ∷ "service" ∷ []

abbrev pub session_counter_fields : List String
session_counter_fields = "rx_bytes" ∷ "tx_bytes" ∷ "rx_packets" ∷ "tx_packets" ∷ []

abbrev pub session_fields : List String
session_fields =
    "id" ∷ "name" ∷ "vpn_address" ∷ "source_address" ∷ "uptime" ∷ "encoding" ∷ "service"
    ∷ "rx_bytes" ∷ "tx_bytes" ∷ "rx_packets" ∷ "tx_packets" ∷ "counter_complete" ∷ []

abbrev pub interface_counter_fields : List String
interface_counter_fields =
    "id" ∷ "name" ∷ "rx_bytes" ∷ "tx_bytes" ∷ "rx_packets" ∷ "tx_packets" ∷ "rx_bytes_per_second"
    ∷ "tx_bytes_per_second" ∷ "rx_packets_per_second" ∷ "tx_packets_per_second" ∷ []

abbrev pub router_metric_fields : List String
router_metric_fields =
    "cpu_percent" ∷ "memory_percent" ∷ "storage_percent" ∷ "status" ∷ "age_seconds" ∷ []

-- `key in names`
abbrev pub among : String → List String → Bool
among k [] = false
among k (x ∷ xs) = if str_eq x k then true else among k xs

-- `text in names`, of a text given by its code points
abbrev pub text_among : List ℕ → List String → Bool
text_among cs [] = false
text_among cs (x ∷ xs) = same_codes cs (codes x) || text_among cs xs
