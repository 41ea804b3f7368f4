-- ===== src/Broker/Session.antt =====
-- `normalize_session`, `_preserve_unobserved_counters` and the payloads of telemetry_broker.py.
use mikrotik_openvpn_gui.Common.{
  ℕ, String, Bool, ◌&&◌, Option, none, some, List, [], ◌∷◌, ◌++◌, if◌then◌else◌,
}
use mikrotik_openvpn_gui.Common.Int.{pos}
use mikrotik_openvpn_gui.Gateway.Value.{Floats, Fields, boolean, integer, str, end, field}
use mikrotik_openvpn_gui.Broker.Text.{Conversions, text, counter, counter_observed}

pub record Session : Type 0 where
  pub id : List ℕ
  pub name : List ℕ
  pub vpn_address : List ℕ
  pub source_address : List ℕ
  pub uptime : List ℕ
  pub encoding : List ℕ
  pub service : List ℕ
  pub rx_bytes : ℕ
  pub tx_bytes : ℕ
  pub rx_packets : ℕ
  pub tx_packets : ℕ
  pub counter_complete : Bool
  pub observed_at : ℕ

-- `_SESSION_COUNTERS`
abbrev pub rx_byte_names : List String
rx_byte_names = "rx-byte" ∷ "rx_bytes" ∷ []

abbrev pub tx_byte_names : List String
tx_byte_names = "tx-byte" ∷ "tx_bytes" ∷ []

abbrev pub rx_packet_names : List String
rx_packet_names = "rx-packet" ∷ "rx_packets" ∷ []

abbrev pub tx_packet_names : List String
tx_packet_names = "tx-packet" ∷ "tx_packets" ∷ []

-- `"|".join((username, vpn_address, source_address))` for a session without an id
abbrev pub session_id_of : List ℕ → List ℕ → List ℕ → List ℕ → List ℕ
session_id_of [] username vpn source = username ++ 124 ∷ (vpn ++ 124 ∷ source)
session_id_of (c ∷ cs) username vpn source = c ∷ cs

module _ (floats : Floats) (conversions : Conversions floats.Float) where
  open floats use {Float}

  -- `normalize_session` of a username. The time of the observation is what the callers write into
  -- the session next.
  unfoldable pub named_session : ℕ → Fields Float → List ℕ → Option Session
  named_session now fields [] = none
  named_session now fields (c ∷ username) =
      let vpn =
        text floats conversions ("address" ∷ "remote-address" ∷ "vpn-address" ∷ []) fields in
      let source =
        text floats conversions ("caller-id" ∷ "source-address" ∷ "source" ∷ []) fields in
      let given = text floats conversions (".id" ∷ "id" ∷ []) fields in
      some (record {
        id = session_id_of given (c ∷ username) vpn source;
        name = c ∷ username;
        vpn_address = vpn;
        source_address = source;
        uptime = text floats conversions ("uptime" ∷ []) fields;
        encoding = text floats conversions ("encoding" ∷ "encryption" ∷ []) fields;
        service = text floats conversions ("service" ∷ []) fields;
        rx_bytes = counter floats conversions rx_byte_names fields;
        tx_bytes = counter floats conversions tx_byte_names fields;
        rx_packets = counter floats conversions rx_packet_names fields;
        tx_packets = counter floats conversions tx_packet_names fields;
        counter_complete =
            counter_observed floats conversions rx_byte_names fields
            && (counter_observed floats conversions tx_byte_names fields
                && (counter_observed floats conversions rx_packet_names fields
                    && counter_observed floats conversions tx_packet_names fields));
        observed_at = now;
      })

  unfoldable pub normalize_session : ℕ → Fields Float → Option Session
  unfolding named_session
  normalize_session now fields =
      named_session now fields (text floats conversions ("name" ∷ "user" ∷ "username" ∷ []) fields)

  -- A counter that the record does not show keeps its value.
  unfoldable pub kept : List String → Fields Float → ℕ → ℕ → ℕ
  kept names fields before now =
      if counter_observed floats conversions names fields then now else before

  unfoldable pub preserve_unobserved : Fields Float → Option Session → Session → Session
  unfolding kept
  preserve_unobserved fields none s = s
  preserve_unobserved fields (some before) s = record s {
    rx_bytes = kept rx_byte_names fields before.rx_bytes s.rx_bytes;
    tx_bytes = kept tx_byte_names fields before.tx_bytes s.tx_bytes;
    rx_packets = kept rx_packet_names fields before.rx_packets s.rx_packets;
    tx_packets = kept tx_packet_names fields before.tx_packets s.tx_packets;
  }

module _ {F : Type 0} where
  -- `_payload`
  abbrev pub session_payload : Session → Fields F
  session_payload s = field "id" (str s.id) (
      field "name" (str s.name) (
        field "vpn_address" (str s.vpn_address) (
          field "source_address" (str s.source_address) (
            field "uptime" (str s.uptime) (
              field "encoding" (str s.encoding) (
                field "service" (str s.service) (
                  field "rx_bytes" (integer (pos s.rx_bytes)) (
                    field "tx_bytes" (integer (pos s.tx_bytes)) (
                      field "rx_packets" (integer (pos s.rx_packets)) (
                        field "tx_packets" (integer (pos s.tx_packets))
                          (field "counter_complete" (boolean s.counter_complete) end)))))))))))
