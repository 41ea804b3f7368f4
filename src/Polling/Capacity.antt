-- ===== src/Polling/Capacity.antt =====
-- The table of clients stays within its limit.
use text.Mathlib.Text.{◌==◌ as str_eq}
use mikrotik_openvpn_gui.Common.{
  ℕ, ◌≤◌, ◌≡◌, ◌⊎◌, inl, inr, refl, ◌∙◌, String, true, false, Option, none, some, List, [], ◌∷◌,
  ◌++◌, arith, length, Bool-cases, Option-cases,
}
use mikrotik_openvpn_gui.Common.Dict.{
  Dict, lookup, insert, length-insert, length-erase, contains-lookup,
}
use mikrotik_openvpn_gui.Gateway.Error.{Outcome-cases}
use mikrotik_openvpn_gui.Gateway.Principal.{TelemetryPrincipal}
use mikrotik_openvpn_gui.Gateway.Queue.{open_subscription}
use mikrotik_openvpn_gui.Polling.Bridge.{
  PollingClient, Bridge, is_streaming, close_client, close_if_owned, close_all, expire_idle,
  idle_clients, handshake,
}
use mikrotik_openvpn_gui.Polling.Post.{
  PacketKind, connect, ignore, disconnect, packet_kind, store, connect_client, post_packets,
  post_streaming, post,
}

store-length :
    (sid : String) (client : PollingClient) (clients : Dict PollingClient)
    → length (store sid client clients) ≡ length clients
store-length sid client clients = ground (arith, length-insert sid client clients)

packet_kind-cases : (kind : PacketKind) → (kind ≡ ignore) ⊎ ((kind ≡ disconnect) ⊎ (kind ≡ connect))
packet_kind-cases ignore = inl refl
packet_kind-cases disconnect = inr (inl refl)
packet_kind-cases connect = inr (inr refl)

module _ {F : Type 0} where
  abbrev pub IsSeated : Bridge F → Type 0
  IsSeated b = length b.clients ≤ b.max_clients

  -- No more clients than before, under the same limit.
  abbrev pub Shrinks : Bridge F → Bridge F → Type 0
  Shrinks b after = (length after.clients ≤ length b.clients) × (after.max_clients ≡ b.max_clients)

  Shrinks-trans : (a b c : Bridge F) → Shrinks a b → Shrinks b c → Shrinks a c
  Shrinks-trans a b c h k = (omega (arith, h.0, k.0), k.1 ∙ h.1)

  pub close_client-Shrinks : (sid : String) (b : Bridge F) → Shrinks b (close_client sid b)
  unfolding close_client
  close_client-Shrinks sid b = ground (arith, length-erase sid b.clients)

  close_all-Shrinks : (sids : List String) (b : Bridge F) → Shrinks b (close_all sids b)
  unfolding close_all
  close_all-Shrinks [] b = (omega arith, refl)
  close_all-Shrinks (sid ∷ sids) b =
      let first = close_client-Shrinks sid b in
      let rest = close_all-Shrinks sids (close_client sid b) in
      (omega (arith, first.0, rest.0), rest.1 ∙ first.1)

  pub expire_idle-Shrinks : (now : ℕ) (b : Bridge F) → Shrinks b (expire_idle now b)
  unfolding expire_idle
  expire_idle-Shrinks now b = close_all-Shrinks (idle_clients now b.idle_timeout b.clients) b

  close_if_owned-Shrinks :
      (sid session_id : String) (b : Bridge F) → Shrinks b (close_if_owned sid session_id b)
  unfolding close_if_owned
  close_if_owned-Shrinks sid session_id b = ground (arith, close_client-Shrinks sid b)

  handshake-IsSeated :
      (sid session_id : String) (now : ℕ) (principal : Option TelemetryPrincipal) (b : Bridge F)
      → IsSeated b
      → IsSeated (handshake sid session_id now principal b).1
  unfolding handshake
  handshake-IsSeated sid session_id now principal b seated =
      let swept = expire_idle now b in
      let fewer = expire_idle-Shrinks now b in
      let client : PollingClient = record {
        session_id = session_id;
        last_activity = now;
        subscription = none;
        namespace_connected = false;
        pending = [];
      } in
      ground (arith, fewer.0, fewer.1, length-insert sid client swept.clients)

  connect_client-Shrinks :
      (identifier : String) (now : ℕ) (principal : TelemetryPrincipal) (sid : String)
      (client : PollingClient) (b : Bridge F)
      → Shrinks b (connect_client identifier now principal sid client b).1
  unfolding connect_client
  connect_client-Shrinks identifier now principal sid client b =
      elim (Outcome-cases (open_subscription identifier now principal b.gateway).0) [
        | inr (x, e) ↦ ground (arith, e)
        | inl (subscription, e) ↦
            let client' : PollingClient = record client {
              subscription = some subscription;
              namespace_connected = true;
              pending = client.pending ++ "40/telemetry," ∷ [];
            } in
            ground (arith, e, store-length sid client' b.clients)
      ]

  post_packets-Shrinks :
      (packets : List (List ℕ)) (identifier : String) (now : ℕ) (principal : TelemetryPrincipal)
      (sid : String) (client : PollingClient) (b : Bridge F)
      → Shrinks b (post_packets packets identifier now principal sid client b).1
  unfolding post_packets
  post_packets-Shrinks [] identifier now principal sid client b = (omega arith, refl)
  post_packets-Shrinks (packet ∷ packets) identifier now principal sid client b =
      let rest = post_packets-Shrinks packets identifier now principal sid in
      let connected = connect_client identifier now principal sid client b in
      let opened = connect_client-Shrinks identifier now principal sid client b in
      elim (packet_kind-cases (packet_kind client.namespace_connected packet)) [
        | inl e ↦ rw (e, post_packets) (rest client b)
        | inr (inl e) ↦
            rw (e, post_packets)
              (Shrinks-trans b (close_client sid b)
                (post_packets packets identifier now principal sid client (close_client sid b)).1
                (close_client-Shrinks sid b) (rest client (close_client sid b)))
        | inr (inr e) ↦ elim (Option-cases connected.0) [
          | inl d ↦ rw (e, post_packets, d) opened
          | inr (client', d) ↦
              rw (e, post_packets, d)
                (Shrinks-trans b connected.1
                  (post_packets packets identifier now principal sid client' connected.1).1 opened
                  (rest client' connected.1))
        ]
      ]

  post_streaming-Shrinks :
      (packets : List (List ℕ)) (identifier : String) (now : ℕ) (principal : TelemetryPrincipal)
      (sid session_id : String) (b : Bridge F)
      → Shrinks b (post_streaming packets identifier now principal sid session_id b).1
  unfolding post_streaming
  post_streaming-Shrinks packets identifier now principal sid session_id b =
      let swept = expire_idle now b in
      let first = expire_idle-Shrinks now b in
      elim (Option-cases (lookup sid swept.clients)) [
        | inl e ↦ rw (e, post_streaming) first
        | inr (client, e) ↦ elim (Bool-cases (str_eq client.session_id session_id)) [
          | inr d ↦ rw (e, post_streaming, d) first
          | inl d ↦
              let active : PollingClient = record client { last_activity = now } in
              let marked : Bridge F = record swept { clients = insert sid active swept.clients } in
              let same : Shrinks swept marked = (
                ground (
                  arith,
                  e,
                  length-insert sid active swept.clients,
                  contains-lookup sid swept.clients,
                ),
                refl,
              ) in
              let after = (post_packets packets identifier now principal sid active marked).1 in
              rw (e, post_streaming, d)
                (Shrinks-trans b swept after first (
                  Shrinks-trans swept marked after same
                    (post_packets-Shrinks packets identifier now principal sid active marked)))
        ]
      ]

  post-Shrinks :
      (packets : List (List ℕ)) (identifier : String) (now : ℕ)
      (principal : Option TelemetryPrincipal) (sid session_id : String) (b : Bridge F)
      → Shrinks b (post packets identifier now principal sid session_id b).1
  unfolding post
  post-Shrinks packets identifier now none sid session_id b =
      close_if_owned-Shrinks sid session_id b
  post-Shrinks packets identifier now (some principal) sid session_id b =
      elim (Bool-cases (is_streaming (some principal))) [
        | inr e ↦ rw (e, post) (close_if_owned-Shrinks sid session_id b)
        | inl e ↦
            rw (e, post) (post_streaming-Shrinks packets identifier now principal sid session_id b)
      ]

-- A request of a browser, with the clock that it reads: a handshake or a body of packets.
pub data BridgeCall : Type 0 where
  open_client : String → String → ℕ → Option TelemetryPrincipal → BridgeCall
  post_body : List (List ℕ) → String → ℕ → Option TelemetryPrincipal → String → String → BridgeCall

module _ {F : Type 0} where
  unfoldable pub run_bridge : List BridgeCall → Bridge F → Bridge F
  run_bridge [] b = b
  run_bridge (open_client sid session_id now principal ∷ calls) b =
      run_bridge calls (handshake sid session_id now principal b).1
  run_bridge (post_body packets identifier now principal sid session_id ∷ calls) b =
      run_bridge calls (post packets identifier now principal sid session_id b).1

  -- Whatever handshakes and bodies of packets arrive, from whomever and in whatever order, the table
  -- never has more clients than its limit.
  pub run_bridge-IsSeated :
      (calls : List BridgeCall) (b : Bridge F) → IsSeated b → IsSeated (run_bridge calls b)
  unfolding run_bridge
  run_bridge-IsSeated [] b seated = seated
  run_bridge-IsSeated (open_client sid session_id now principal ∷ calls) b seated =
      run_bridge-IsSeated calls (handshake sid session_id now principal b).1
        (handshake-IsSeated sid session_id now principal b seated)
  run_bridge-IsSeated (post_body packets identifier now principal sid session_id ∷ calls) b seated =
      let fewer = post-Shrinks packets identifier now principal sid session_id b in
      run_bridge-IsSeated calls (post packets identifier now principal sid session_id b).1
        (omega (arith, fewer.0, fewer.1))
