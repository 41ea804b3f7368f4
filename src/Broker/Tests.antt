-- ===== src/Broker/Tests.antt =====
-- The broker at concrete inputs.
use mikrotik_openvpn_gui.Common.{
  ℕ, Option, length, ◌≡◌, ◌≢◌, refl, true, false, some, none, List, [], ◌∷◌, arith,
}
use mikrotik_openvpn_gui.Gateway.Value.{dict, codes}
use mikrotik_openvpn_gui.Gateway.Error.{ok}
use mikrotik_openvpn_gui.Gateway.Bounded.{redact_session}
use mikrotik_openvpn_gui.Broker.Text.{text, text_of, fitting, counter, counter_observed}
use mikrotik_openvpn_gui.Broker.Session.{
  Session, session_payload, normalize_session, preserve_unobserved,
}
use mikrotik_openvpn_gui.Broker.Accepted.{IsPublic, redact_session-normalize_session}
use mikrotik_openvpn_gui.Broker.Sessions.{TelemetryBroker}
use mikrotik_openvpn_gui.Broker.Numbered.{Continues}
use mikrotik_openvpn_gui.Broker.Bounded.{IsRoomy}
use mikrotik_openvpn_gui.Gateway.Frame.{TelemetryEvent}
use mikrotik_openvpn_gui.Broker.Interfaces.{incoming_interfaces, reconcile_interfaces}
use mikrotik_openvpn_gui.Broker.Interfaces.Accounts.{Settles, reconcile_interfaces-Settles}
use mikrotik_openvpn_gui.Broker.Run.{
  BrokerCall, stream_reply, snapshot_records, run_broker, run_broker-Continues,
}
use mikrotik_openvpn_gui.Broker.Samples.{
  whole_rates, ether_record, monotonic, ether_before, test_floats, test_conversions, eve_record,
  two_seats,
}

abbrev eve_session : Session
eve_session = record {
  id = codes "*1";
  name = codes "eve";
  vpn_address = [];
  source_address = [];
  uptime = [];
  encoding = [];
  service = [];
  rx_bytes = 50;
  tx_bytes = 0;
  rx_packets = 0;
  tx_packets = 0;
  counter_complete = false;
  observed_at = 5;
}

eve_normalized : normalize_session test_floats test_conversions 5 eve_record ≡ some eve_session
unfolding normalize_session text text_of fitting counter counter_observed
eve_normalized = refl

eve_id : text test_floats test_conversions (".id" ∷ "id" ∷ []) eve_record ≡ codes "*1"
unfolding text text_of fitting
eve_id = refl

eve_has_id : text test_floats test_conversions (".id" ∷ "id" ∷ []) eve_record ≢ []
eve_has_id h = cc eve_id

redact_session-normalize_session_example :
    let sent =
      session_payload
        (preserve_unobserved test_floats test_conversions eve_record none eve_session) in
    (redact_session test_floats (dict sent) ≡ ok sent)
    × IsPublic (preserve_unobserved test_floats test_conversions eve_record none eve_session)
redact_session-normalize_session_example =
    redact_session-normalize_session test_floats test_conversions 5 eve_record none eve_session
      eve_has_id tt eve_normalized

abbrev eve_calls : List (BrokerCall ℕ)
eve_calls =
    stream_reply (record { is_record = true; dead = false; attributes = eve_record }) 5
    ∷ snapshot_records (eve_record ∷ []) 6
    ∷ snapshot_records [] 7
    ∷ []

run_broker-Continues_example :
    Continues two_seats (run_broker test_floats test_conversions eve_calls two_seats)
    × IsRoomy (run_broker test_floats test_conversions eve_calls two_seats).1
run_broker-Continues_example =
    run_broker-Continues test_floats test_conversions eve_calls two_seats (omega arith)

abbrev keep_events : Option (List (TelemetryEvent ℕ) × TelemetryBroker) → ℕ
keep_events none = 0
keep_events (some result) = length result.0

reset_is_told :
    keep_events (
      reconcile_interfaces test_floats test_conversions whole_rates
        (ether_record 50 ∷ [])
        (monotonic 9)
        7
        ether_before)
    ≡ 2
unfolding reconcile_interfaces text text_of fitting counter
reset_is_told = refl

reconcile_interfaces-Settles_example :
    Settles test_floats test_conversions whole_rates 1
      (length (
        incoming_interfaces test_floats test_conversions whole_rates
          (monotonic 9)
          (ether_record 50 ∷ [])
          []))
      ether_before
      (reconcile_interfaces test_floats test_conversions whole_rates
        (ether_record 50 ∷ [])
        (monotonic 9)
        7
        ether_before)
reconcile_interfaces-Settles_example =
    reconcile_interfaces-Settles test_floats test_conversions whole_rates (ether_record 50 ∷ [])
      (monotonic 9) 7 ether_before
