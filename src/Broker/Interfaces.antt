-- ===== src/Broker/Interfaces.antt =====
-- `normalize_interface` and `reconcile_interfaces` of telemetry_broker.py. What a float division
-- gives is a parameter; the division is of a difference that is not negative.
pub mod Accounts
use mikrotik_openvpn_gui.Common.{
  is_empty, ℕ, ◌+◌, ◌-◌, String, Bool, true, false, not, ◌&&◌, ◌||◌, Option, none, some, List, [],
  ◌∷◌, ◌++◌, ltb, if◌then◌else◌, length,
}
use mikrotik_openvpn_gui.Common.Int.{pos}
use mikrotik_openvpn_gui.Gateway.Value.{
  Floats, Values, Fields, integer, float, str, list, dict, nil, cons, end, field, codes,
}
use mikrotik_openvpn_gui.Gateway.Frame.{TelemetryEvent}
use mikrotik_openvpn_gui.Broker.Text.{Conversions, text, counter}
use mikrotik_openvpn_gui.Broker.Cache.{Cache, find, put}
use mikrotik_openvpn_gui.Broker.Session.{
  rx_byte_names, tx_byte_names, rx_packet_names, tx_packet_names,
}
use mikrotik_openvpn_gui.Broker.Sessions.{Interface, TelemetryBroker, send, lower}
use mikrotik_openvpn_gui.Broker.Reconcile.{last_items}

abbrev pub max_interface_snapshot_records : ℕ
max_interface_snapshot_records = 1024

-- `0.0`, and `float(difference) / elapsed`
pub record Rates (F : Type 0) : Type 0 where
  pub zero_rate : F
  pub divide : ℕ → ℕ → F

-- When a snapshot was sampled, and whether its caller gave the clock.
pub record Sample : Type 0 where
  pub is_explicit : Bool
  pub sampled_at : ℕ

-- `float(now)` and `float(previous)` of the same clock, where there is such a sample before.
abbrev pub elapsed_since : Sample → Option Interface → Option (Interface × ℕ)
elapsed_since sample none = none
elapsed_since sample (some before) =
    if (sample.is_explicit && before.is_explicit)
      || (not sample.is_explicit && not before.is_explicit)
    then some (before, sample.sampled_at - before.sampled_at)
    else none

module _ {F : Type 0} where
  -- The counters that went back.
  abbrev pub interface_reset_names : Interface → Interface → Values F
  interface_reset_names before i = lower "rx_bytes" before.rx_bytes i.rx_bytes (
      lower "tx_bytes" before.tx_bytes i.tx_bytes (
        lower "rx_packets" before.rx_packets i.rx_packets
          (lower "tx_packets" before.tx_packets i.tx_packets nil)))

  unfoldable pub interface_reset :
      Values F → Interface → ℕ → TelemetryBroker → List (TelemetryEvent F) × TelemetryBroker
  unfolding send
  interface_reset nil i now b = ([], b)
  interface_reset (cons v vs) i now b =
      let (event, sent) =
        send "telemetry.counter_reset"
          (field "scope" (str (codes "interface")) (
            field "id" (str i.id)
              (field "name" (str i.name) (field "fields" (list (cons v vs)) end))))
          now (record b { interface_counter_resets = b.interface_counter_resets + 1 }) in
      (event ∷ [], sent)

  -- `_interface_reset_event`: no event or one.
  unfoldable pub interface_reset_event :
      Option Interface → Interface → ℕ → TelemetryBroker → List (TelemetryEvent F) × TelemetryBroker
  unfolding interface_reset
  interface_reset_event none i now b = ([], b)
  interface_reset_event (some before) i now b =
      interface_reset (interface_reset_names before i) i now b

  -- `max(0.0, float(difference) / elapsed)`
  unfoldable pub rate : Rates F → ℕ → ℕ → ℕ → F
  rate rates before now elapsed =
      if ltb now before then rates.zero_rate else rates.divide (now - before) elapsed

  -- `_interface_payload`, with rates where time has passed
  unfoldable pub interface_payload : Rates F → Option (Interface × ℕ) → Interface → Fields F
  unfolding rate
  interface_payload rates since i =
      let rate_fields : Fields F = elim since [
        | none ↦ end
        | some (before, elapsed) ↦
            if ltb 0 elapsed
            then field "rx_bytes_per_second" (float (rate rates before.rx_bytes i.rx_bytes elapsed))
                (field "tx_bytes_per_second" (float (rate rates before.tx_bytes i.tx_bytes elapsed))
                  (field "rx_packets_per_second"
                    (float (rate rates before.rx_packets i.rx_packets elapsed))
                    (field "tx_packets_per_second"
                      (float (rate rates before.tx_packets i.tx_packets elapsed)) end)))
            else end
      ] in
      field "id" (str i.id) (
        field "name" (str i.name) (
          field "rx_bytes" (integer (pos i.rx_bytes)) (
            field "tx_bytes" (integer (pos i.tx_bytes)) (
              field "rx_packets" (integer (pos i.rx_packets))
                (field "tx_packets" (integer (pos i.tx_packets)) rate_fields)))))

  -- One interface of the snapshot, in the loop under the lock.
  unfoldable pub sample_interface :
      Rates F
      → Sample
      → List ℕ
      → Interface
      → ℕ
      → TelemetryBroker
      → List (TelemetryEvent F) × TelemetryBroker
  unfolding interface_reset_event interface_payload send
  sample_interface rates sample key i now b =
      let before = find key b.interfaces in
      let (resets, b1) = interface_reset_event before i now b in
      let (event, b2) =
        send "vpn.interface.counters"
          (field "interface" (dict (interface_payload rates (elapsed_since sample before) i)) end)
          now (record b1 { interfaces = put key i b1.interfaces }) in
      (resets ++ event ∷ [], b2)

  unfoldable pub sample_interfaces :
      Rates F
      → Sample
      → Cache Interface
      → ℕ
      → TelemetryBroker
      → List (TelemetryEvent F) × TelemetryBroker
  unfolding sample_interface
  sample_interfaces rates sample [] now b = ([], b)
  sample_interfaces rates sample ((key, i) ∷ incoming) now b =
      let (events, b1) = sample_interface rates sample key i now b in
      let (others, b2) = sample_interfaces rates sample incoming now b1 in (events ++ others, b2)

  -- What `reconcile_interfaces` does under its lock.
  unfoldable pub keep_interfaces :
      Rates F
      → Sample
      → Cache Interface
      → ℕ
      → TelemetryBroker
      → List (TelemetryEvent F) × TelemetryBroker
  unfolding sample_interfaces
  keep_interfaces rates sample incoming now b =
      let (events, b1) = sample_interfaces rates sample incoming now b in
      (events, record b1 { interfaces = last_items b1.max_interfaces incoming })

module _ (floats : Floats) (conversions : Conversions floats.Float)
    (rates : Rates floats.Float) where
  open floats use {Float}

  unfoldable pub normalize_interface : Sample → Fields Float → Option Interface
  normalize_interface sample fields =
      let id = text floats conversions (".id" ∷ "id" ∷ []) fields in
      let name = text floats conversions ("name" ∷ "interface" ∷ []) fields in
      if is_empty id || is_empty name
      then none
      else some (record {
        id = id;
        name = name;
        rx_bytes = counter floats conversions ("rx-byte" ∷ "rx_bytes" ∷ []) fields;
        tx_bytes = counter floats conversions ("tx-byte" ∷ "tx_bytes" ∷ []) fields;
        rx_packets = counter floats conversions ("rx-packet" ∷ "rx_packets" ∷ []) fields;
        tx_packets = counter floats conversions ("tx-packet" ∷ "tx_packets" ∷ []) fields;
        is_explicit = sample.is_explicit;
        sampled_at = sample.sampled_at;
      })

  unfoldable pub incoming_interfaces :
      Sample → List (Fields Float) → Cache Interface → Cache Interface
  unfolding normalize_interface
  incoming_interfaces sample [] d = d
  incoming_interfaces sample (fields ∷ records) d = elim (normalize_interface sample fields) [
    | none ↦ incoming_interfaces sample records d
    | some i ↦ incoming_interfaces sample records (put i.id i d)
  ]

  -- `none` where the snapshot has too many records.
  unfoldable pub reconcile_interfaces :
      List (Fields Float)
      → Sample
      → ℕ
      → TelemetryBroker
      → Option (List (TelemetryEvent Float) × TelemetryBroker)
  unfolding incoming_interfaces keep_interfaces
  reconcile_interfaces records sample now b =
      if ltb max_interface_snapshot_records (length records)
      then none
      else some (keep_interfaces rates sample (incoming_interfaces sample records []) now b)
