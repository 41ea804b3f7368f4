-- ===== src/Polling/Poll.antt =====
-- `poll` of telemetry_socketio_polling.py. The clock is read once for a call; what other threads do
-- to the table in the wait for the namespace, and what the resolver says before each frame, are
-- arguments.
use text.Mathlib.Text.{◌==◌ as str_eq}
use mikrotik_openvpn_gui.Common.{
  ℕ, suc, String, Bool, true, false, not, Option, none, some, List, [], ◌∷◌, if◌then◌else◌,
}
use mikrotik_openvpn_gui.Common.Dict.{lookup, insert}
use mikrotik_openvpn_gui.Gateway.Value.{Floats}
use mikrotik_openvpn_gui.Gateway.Error.{GatewayError, ok, err}
use mikrotik_openvpn_gui.Gateway.Principal.{TelemetryPrincipal}
use mikrotik_openvpn_gui.Gateway.Frame.{Frame}
use mikrotik_openvpn_gui.Gateway.Queue.{Entry}
use mikrotik_openvpn_gui.Gateway.Poll.{BrokerView, poll as gateway_poll}
use mikrotik_openvpn_gui.Polling.Bridge.{
  PollingClient, Bridge, is_streaming, close_client, close_if_owned, expire_idle,
}

-- A packet of an answer: a ping, a text that was pending, or a frame.
pub data Packet (F : Type 0) : Type 0 where
  ping : Packet F
  pending_text : String → Packet F
  event_frame : Frame F → Packet F

-- `refused` is Python's `None`; `raised` is an exception of the gateway that passes through.
pub data Answer (F : Type 0) : Type 0 where
  refused : Answer F
  raised : GatewayError → Answer F
  answered : List (Packet F) → Answer F

module _ {F : Type 0} where
  abbrev pub pending_packets : List String → List (Packet F)
  pending_packets [] = []
  pending_packets (t ∷ texts) = pending_text t ∷ pending_packets texts

  -- The frames up to the first one before which the resolver denies the stream, and whether it did.
  abbrev pub allowed_frames : (ℕ → Bool) → ℕ → List (Entry F) → List (Packet F) × Bool
  allowed_frames allowed i [] = ([], true)
  allowed_frames allowed i (e ∷ entries) =
      let rest = allowed_frames allowed (suc i) entries in
      if allowed i then (event_frame e.frame ∷ rest.0, rest.1) else ([], false)

  abbrev pub or_ping : List (Packet F) → List (Packet F)
  or_ping [] = ping ∷ []
  or_ping (p ∷ packets) = p ∷ packets

  -- The loop over the frames and what follows it.
  unfoldable pub answer_frames :
      (ℕ → Bool) → String → List (Entry F) → Bridge F → Answer F × Bridge F
  answer_frames allowed sid entries b =
      let sent = allowed_frames allowed 0 entries in
      (answered (or_ping sent.0), if sent.1 then b else close_client sid b)

module _ (floats : Floats) (frame_size : Frame floats.Float → Option ℕ) where
  open floats use {Float}

  -- `poll` after the wait, of the client that the table then has.
  unfoldable pub answer_client :
      (ℕ → Bool)
      → ℕ
      → ℕ
      → BrokerView Float
      → String
      → PollingClient
      → Bridge Float
      → Answer Float × Bridge Float
  unfolding answer_frames
  answer_client allowed wall now broker sid client b = elim client.pending [
    | t ∷ texts ↦ (
      answered (pending_packets (t ∷ texts)),
      record b { clients = insert sid (record client { pending = [] }) b.clients },
    )
    | [] ↦
        if not client.namespace_connected
        then (answered (ping ∷ []), b)
        else elim client.subscription [
          | none ↦ (answered (ping ∷ []), b)
          | some subscription ↦
              let polled =
                gateway_poll floats frame_size subscription wall now none broker b.gateway in
              elim polled.0 [
                | err e ↦ (raised e, record b { gateway = polled.1 })
                | ok entries ↦ answer_frames allowed sid entries (record b { gateway = polled.1 })
              ]
        ]
  ]

  -- What `poll` does for a caller that may stream.
  unfoldable pub poll_streaming :
      (Bridge Float → Bridge Float)
      → (ℕ → Bool)
      → ℕ
      → ℕ
      → BrokerView Float
      → String
      → String
      → Bridge Float
      → Answer Float × Bridge Float
  unfolding answer_client
  poll_streaming others allowed wall now broker sid session_id b =
      let swept = expire_idle now b in
      elim (lookup sid swept.clients) [
        | none ↦ (refused, swept)
        | some client ↦
            if not (str_eq client.session_id session_id)
            then (refused, swept)
            else let active : PollingClient = record client { last_activity = now } in
              let b' : Bridge Float = record swept { clients = insert sid active swept.clients } in
              if client.namespace_connected
              then answer_client allowed wall now broker sid active b'
              else let later = others b' in
                elim (lookup sid later.clients) [
                  | none ↦ (refused, later)
                  | some current ↦ answer_client allowed wall now broker sid current later
                ]
      ]

  unfoldable pub poll_bridge :
      (Bridge Float → Bridge Float)
      → (ℕ → Bool)
      → ℕ
      → ℕ
      → BrokerView Float
      → Option TelemetryPrincipal
      → String
      → String
      → Bridge Float
      → Answer Float × Bridge Float
  unfolding poll_streaming
  poll_bridge others allowed wall now broker principal sid session_id b =
      if not (is_streaming principal)
      then (refused, close_if_owned sid session_id b)
      else poll_streaming others allowed wall now broker sid session_id b
