-- ===== src/Polling/Tests.antt =====
-- The polling bridge at concrete inputs.
use mikrotik_openvpn_gui.Common.{
  Option, ℕ, ◌≡◌, refl, true, false, some, none, List, [], ◌∷◌, arith, length,
}
use mikrotik_openvpn_gui.Gateway.Value.{Floats, codes, nil}
use mikrotik_openvpn_gui.Gateway.Frame.{Frame}
use mikrotik_openvpn_gui.Gateway.Poll.{BrokerView}
use mikrotik_openvpn_gui.Polling.Poll.{refused, poll_bridge}
use mikrotik_openvpn_gui.Gateway.Principal.{TelemetryPrincipal, may_stream}
use mikrotik_openvpn_gui.Gateway.Queue.{new_gateway, open_subscription}
use mikrotik_openvpn_gui.Polling.Bridge.{
  PollingClient, Bridge, is_streaming, close_client, close_all, expire_idle,
}
use mikrotik_openvpn_gui.Polling.Post.{connect_client, post_packets, post_streaming, post}
use mikrotik_openvpn_gui.Polling.Capacity.{
  IsSeated, BridgeCall, open_client, post_body, run_bridge, run_bridge-IsSeated,
}
use mikrotik_openvpn_gui.Polling.Ownership.{untouched, post_foreign, poll_foreign}

abbrev viewer : TelemetryPrincipal
viewer = record {
  authenticated = true;
  auth_method = "routeros";
  role = "viewer";
  capabilities = some ("sessions.read" ∷ []);
}

abbrev eve_client : PollingClient
eve_client = record {
  session_id = "eve";
  last_activity = 10;
  subscription = none;
  namespace_connected = false;
  pending = [];
}

abbrev eve_bridge : Bridge ℕ
eve_bridge = record {
  gateway = new_gateway 256 16 1000 1000;
  idle_timeout = 45;
  max_clients = 2;
  clients = ("c1", eve_client) ∷ [];
}

abbrev three_calls : List BridgeCall
three_calls =
    open_client "c2" "ann" 11 (some viewer)
    ∷ post_body (codes "40" ∷ []) "s1" 12 (some viewer) "c2" "ann"
    ∷ open_client "c3" "bob" 13 (some viewer)
    ∷ []

run_bridge-IsSeated_example : IsSeated (run_bridge three_calls eve_bridge)
run_bridge-IsSeated_example = run_bridge-IsSeated three_calls eve_bridge (omega arith)

post_foreign_example :
    post (codes "1" ∷ []) "s1" 12 (some viewer) "c1" "ann" eve_bridge
    ≡ (false, untouched (some viewer) 12 eve_bridge)
post_foreign_example =
    post_foreign (codes "1" ∷ []) "s1" 12 (some viewer) "c1" "ann" eve_client eve_bridge refl refl

abbrev no_floats : Floats
no_floats = record {
  Float = Unit;
  is_negative = λ x. false;
  exceeds = λ x limit. false;
  is_finite = λ x. true;
}

abbrev no_size : Frame Unit → Option ℕ
no_size frame = some 1

abbrev quiet_broker : BrokerView Unit
quiet_broker = record { sequence = 0; sessions = nil; interfaces = nil }

abbrev eve_floatless : Bridge Unit
eve_floatless = record {
  gateway = new_gateway 256 16 1000 1000;
  idle_timeout = 45;
  max_clients = 2;
  clients = ("c1", eve_client) ∷ [];
}

poll_foreign_example :
    poll_bridge no_floats no_size
      (λ b. b)
      (λ i. true)
      1700
      12
      quiet_broker
      (some viewer)
      "c1"
      "ann"
      eve_floatless
    ≡ (refused, untouched (some viewer) 12 eve_floatless)
poll_foreign_example =
    poll_foreign no_floats no_size (λ b. b) (λ i. true) 1700 12 quiet_broker (some viewer) "c1"
      "ann" eve_client eve_floatless refl refl

-- A body that closes its client and then connects leaves a subscription that no client has.
subscription_without_client :
    let after =
      (post (codes "1" ∷ codes "40" ∷ []) "s1" 12 (some viewer) "c1" "eve" eve_bridge).1 in
    (length after.clients ≡ 0) × (length after.gateway.clients ≡ 1)
unfolding post post_streaming post_packets connect_client expire_idle close_all close_client
    open_subscription is_streaming may_stream new_gateway
subscription_without_client = (refl, refl)
