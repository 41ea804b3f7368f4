-- ===== src/Gateway/Tests.antt =====
-- The gateway at concrete inputs: floats are counts of thousandths, and a frame takes ten bytes.
use mikrotik_openvpn_gui.Common.{
  ℕ, ◌≡◌, refl, true, false, Option, some, none, [], ◌∷◌, ltb, length, ◌*◌,
}
use mikrotik_openvpn_gui.Common.Int.{pos}
use mikrotik_openvpn_gui.Common.Dict.{lookup}
use mikrotik_openvpn_gui.Gateway.Value.{Floats, integer, str, dict, nil, end, field, codes}
use mikrotik_openvpn_gui.Gateway.Error.{ok}
use mikrotik_openvpn_gui.Gateway.Principal.{TelemetryPrincipal}
use mikrotik_openvpn_gui.Gateway.Bounded.{
  redact_session, bounded_text, bounded_counter, bounded_sequence,
}
use mikrotik_openvpn_gui.Gateway.Frame.{TelemetryEvent, Frame, build_frame, safe_payload}
use mikrotik_openvpn_gui.Gateway.Frame.Boundary.{build_frame-SafePayload, IsSafeFrame}
use mikrotik_openvpn_gui.Gateway.Queue.{
  Gateway, Subscription, new_gateway, open_subscription, publish, append_entry, bounded_frame,
}
use mikrotik_openvpn_gui.Gateway.Queue.Log.{Publishes, publish-Publishes, new_gateway-Represents}
use mikrotik_openvpn_gui.Gateway.Queue.Budget.{
  IsWithin, new_gateway-IsWithin, open_subscription-IsWithin,
}
use mikrotik_openvpn_gui.Gateway.Poll.{BrokerView, poll}
use mikrotik_openvpn_gui.Gateway.Poll.Complete.{CatchesUp, poll-CatchesUp}

abbrev thousandths : Floats
thousandths = record {
  Float = ℕ;
  is_negative = λ x. false;
  exceeds = λ x limit. ltb (limit * 1000) x;
  is_finite = λ x. true;
}

abbrev ten_bytes : Frame ℕ → Option ℕ
ten_bytes frame = some 10

-- A session event that also carries a password.
abbrev connected : TelemetryEvent ℕ
connected = record {
  name = "vpn.session.connected";
  sequence = pos 1;
  router_timestamp = pos 1700000000;
  payload = dict (
      field "password" (str (codes "hunter2"))
        (field "name" (str (codes "eve")) (field "rx_bytes" (integer (pos 5)) end)));
}

abbrev connected_frame : Frame ℕ
connected_frame = record {
  event = "vpn.session.connected";
  sequence = 1;
  router_timestamp = 1700000000;
  payload = field "name" (str (codes "eve")) (field "rx_bytes" (integer (pos 5)) end);
}

connected_built : build_frame thousandths ten_bytes connected ≡ ok (connected_frame, 10)
unfolding build_frame safe_payload redact_session bounded_text bounded_counter bounded_sequence
connected_built = refl

abbrev eve_browser : TelemetryPrincipal
eve_browser = record {
  authenticated = true;
  auth_method = "routeros";
  role = "viewer";
  capabilities = none;
}

abbrev empty_gateway : Gateway ℕ
empty_gateway = new_gateway 256 16 1000 15

empty_gateway-IsWithin : IsWithin empty_gateway
empty_gateway-IsWithin = new_gateway-IsWithin 256 16 1000 15

open_subscription-IsWithin_example : IsWithin (open_subscription "a" 5 eve_browser empty_gateway).1
open_subscription-IsWithin_example =
    open_subscription-IsWithin "a" 5 eve_browser empty_gateway empty_gateway-IsWithin

-- The second frame pushes the first out: both do not fit into fifteen bytes.
second_stays :
    length
      (publish thousandths ten_bytes ((connected, 7) ∷ (connected, 8) ∷ []) empty_gateway).1.events
    ≡ 1
unfolding publish append_entry bounded_frame build_frame safe_payload redact_session bounded_text
    bounded_counter bounded_sequence new_gateway
second_stays = refl

build_frame-SafePayload_example : IsSafeFrame thousandths ten_bytes connected connected_frame 10
build_frame-SafePayload_example =
    build_frame-SafePayload thousandths ten_bytes connected connected_frame 10 connected_built

abbrev broker_now : BrokerView ℕ
broker_now = record { sequence = 1; sessions = nil; interfaces = nil }

abbrev eve_subscription : Subscription
eve_subscription = record { created_at = 5; last_seen_sequence = 0; client_cursor_seen = false }

abbrev busy_gateway : Gateway ℕ
busy_gateway = record (new_gateway 256 16 1000 15) {
  clients = ("a", eve_subscription) ∷ [];
  events = record { frame = connected_frame; published_at = 7; size = 10 } ∷ [];
  retained_frame_bytes = 10;
}

poll_runs :
    (poll thousandths ten_bytes "a" 1700 9 none broker_now busy_gateway).0 ≡ ok busy_gateway.events
unfolding poll
poll_runs = refl

eve_active : lookup "a" busy_gateway.clients ≡ some eve_subscription
unfolding new_gateway
eve_active = refl

poll-CatchesUp_example :
    CatchesUp thousandths ten_bytes "a" 0 1700 9 broker_now busy_gateway
      (poll thousandths ten_bytes "a" 1700 9 none broker_now busy_gateway)
poll-CatchesUp_example =
    poll-CatchesUp thousandths ten_bytes "a" 1700 9 none broker_now busy_gateway eve_subscription
      eve_active

publish-Publishes_example :
    Publishes thousandths ten_bytes 2 []
      ((connected, 7) ∷ (connected, 8) ∷ [])
      empty_gateway
      (publish thousandths ten_bytes ((connected, 7) ∷ (connected, 8) ∷ []) empty_gateway)
publish-Publishes_example =
    publish-Publishes thousandths ten_bytes ((connected, 7) ∷ (connected, 8) ∷ []) [] empty_gateway
      (new_gateway-Represents 256 16 1000 15)
