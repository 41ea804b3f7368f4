-- ===== src/Polling/Post.antt =====
-- `post` of telemetry_socketio_polling.py: its packets are the texts of the body, split, given by
-- their code points. The client is an object of its own, which a packet may close while the loop
-- still holds it. The clock is read once for a call.
use text.Mathlib.Text.{◌==◌ as str_eq}
use mikrotik_openvpn_gui.Common.{
  ℕ, String, Bool, true, false, not, ◌&&◌, ◌||◌, Option, none, some, List, [], ◌∷◌, ◌++◌, ◌==◌,
  if◌then◌else◌,
}
use mikrotik_openvpn_gui.Common.Dict.{Dict, lookup, insert, contains}
use mikrotik_openvpn_gui.Gateway.Value.{codes, same_codes}
use mikrotik_openvpn_gui.Gateway.Error.{ok, err}
use mikrotik_openvpn_gui.Gateway.Principal.{TelemetryPrincipal}
use mikrotik_openvpn_gui.Gateway.Queue.{open_subscription}
use mikrotik_openvpn_gui.Polling.Bridge.{
  PollingClient, Bridge, is_streaming, close_client, close_if_owned, expire_idle,
}

abbrev pub starts_with : List ℕ → List ℕ → Bool
starts_with [] packet = true
starts_with (x ∷ prefix) [] = false
starts_with (x ∷ prefix) (y ∷ packet) = x == y && starts_with prefix packet

-- What the loop of `post` does with a packet.
pub data PacketKind : Type 0 where
  connect ignore disconnect : PacketKind

abbrev pub packet_kind : Bool → List ℕ → PacketKind
packet_kind connected packet =
    if starts_with (codes "40") packet
    then connect
    else if starts_with (codes "42") packet && connected
    then ignore
    else if same_codes packet (codes "3") || starts_with (codes "3/") packet
    then ignore
    else if starts_with (codes "1") packet
    then disconnect
    else ignore

abbrev pub has_subscription : PollingClient → Bool
has_subscription client = elim client.subscription [ none ↦ false | some _ ↦ true ]

-- A change of the client's object is seen in the table while the object is there.
abbrev pub store : String → PollingClient → Dict PollingClient → Dict PollingClient
store sid client clients = if contains sid clients then insert sid client clients else clients

module _ {F : Type 0} where
  -- The caller may stream, so `open` raises no error but that all places are taken.
  unfoldable pub connect_client :
      String
      → ℕ
      → TelemetryPrincipal
      → String
      → PollingClient
      → Bridge F
      → Option PollingClient × Bridge F
  connect_client identifier now principal sid client b =
      if client.namespace_connected && has_subscription client
      then (some client, b)
      else let opened = open_subscription identifier now principal b.gateway in
        elim opened.0 [
          | err e ↦ (none, record b { gateway = opened.1 })
          | ok subscription ↦
              let client' : PollingClient = record client {
                subscription = some subscription;
                namespace_connected = true;
                pending = client.pending ++ "40/telemetry," ∷ [];
              } in
              (some client', record b { gateway = opened.1; clients = store sid client' b.clients })
        ]

  -- At most one packet of a body opens a subscription: its identifier is an argument.
  unfoldable pub post_packets :
      List (List ℕ)
      → String
      → ℕ
      → TelemetryPrincipal
      → String
      → PollingClient
      → Bridge F
      → Bool × Bridge F
  unfolding connect_client
  post_packets [] identifier now principal sid client b = (true, b)
  post_packets (packet ∷ packets) identifier now principal sid client b =
      elim (packet_kind client.namespace_connected packet) [
        | ignore ↦ post_packets packets identifier now principal sid client b
        | disconnect ↦ post_packets packets identifier now principal sid client (close_client sid b)
        | connect ↦
            let connected = connect_client identifier now principal sid client b in
            elim connected.0 [
              | none ↦ (false, connected.1)
              | some client' ↦ post_packets packets identifier now principal sid client' connected.1
            ]
      ]

  -- What `post` does for a caller that may stream.
  unfoldable pub post_streaming :
      List (List ℕ) → String → ℕ → TelemetryPrincipal → String → String → Bridge F → Bool × Bridge F
  unfolding post_packets
  post_streaming packets identifier now principal sid session_id b =
      let swept = expire_idle now b in
      elim (lookup sid swept.clients) [
        | none ↦ (false, swept)
        | some client ↦
            if not (str_eq client.session_id session_id)
            then (false, swept)
            else let active : PollingClient = record client { last_activity = now } in
              post_packets packets identifier now principal sid active
                (record swept { clients = insert sid active swept.clients })
      ]

  unfoldable pub post :
      List (List ℕ)
      → String
      → ℕ
      → Option TelemetryPrincipal
      → String
      → String
      → Bridge F
      → Bool × Bridge F
  unfolding post_streaming
  post packets identifier now none sid session_id b = (false, close_if_owned sid session_id b)
  post packets identifier now (some principal) sid session_id b =
      if not (is_streaming (some principal))
      then (false, close_if_owned sid session_id b)
      else post_streaming packets identifier now principal sid session_id b
