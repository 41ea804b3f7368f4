-- ===== src/Polling/Ownership.antt =====
-- A caller cannot reach another session's client.
use text.Mathlib.Text.{◌==◌ as str_eq}
use mikrotik_openvpn_gui.Common.{
  Bool, ℕ, ◌≡◌, ◌⊎◌, inl, inr, refl, ap, ◌∙◌, String, false, Option, none, some, List, [], ◌∷◌,
  arith, if◌then◌else◌, Bool-cases,
}
use mikrotik_openvpn_gui.Common.Dict.{lookup, lookup-erase}
use mikrotik_openvpn_gui.Gateway.Principal.{TelemetryPrincipal, may_stream}
use mikrotik_openvpn_gui.Polling.Bridge.{
  PollingClient, Bridge, is_streaming, close_client, close_if_owned, close_all, expire_idle,
  idle_clients,
}
use mikrotik_openvpn_gui.Gateway.Value.{Floats}
use mikrotik_openvpn_gui.Gateway.Frame.{Frame}
use mikrotik_openvpn_gui.Gateway.Poll.{BrokerView}
use mikrotik_openvpn_gui.Polling.Poll.{refused, poll_streaming, poll_bridge}
use mikrotik_openvpn_gui.Polling.Post.{post_streaming, post}

module _ {F : Type 0} where
  -- Closing clients leaves another one alone, or closes it.
  close_client-lookup :
      (k sid : String) (b : Bridge F)
      → (lookup sid (close_client k b).clients ≡ none)
        ⊎ (lookup sid (close_client k b).clients ≡ lookup sid b.clients)
  unfolding close_client
  close_client-lookup k sid b = ground (arith, lookup-erase k sid b.clients)

  close_all-lookup :
      (sids : List String) (sid : String) (b : Bridge F)
      → (lookup sid (close_all sids b).clients ≡ none)
        ⊎ (lookup sid (close_all sids b).clients ≡ lookup sid b.clients)
  unfolding close_all
  close_all-lookup [] sid b = inr refl
  close_all-lookup (k ∷ sids) sid b = elim (close_all-lookup sids sid (close_client k b)) [
    | inl gone ↦ inl gone
    | inr same ↦ elim (close_client-lookup k sid b) [
      | inl gone ↦ inl (same ∙ gone)
      | inr before ↦ inr (same ∙ before)
    ]
  ]

  -- What a call with another session's identifier leaves: the sweep of idle clients, at most.
  abbrev pub untouched : Option TelemetryPrincipal → ℕ → Bridge F → Bridge F
  untouched principal now b = if is_streaming principal then expire_idle now b else b

  close_if_owned_foreign :
      (sid session_id : String) (client : PollingClient) (b : Bridge F)
      → lookup sid b.clients ≡ some client
      → str_eq client.session_id session_id ≡ false
      → close_if_owned sid session_id b ≡ b
  unfolding close_if_owned
  close_if_owned_foreign sid session_id client b found other =
      rw (found, close_if_owned, other) refl

  post_streaming_foreign :
      (packets : List (List ℕ)) (identifier : String) (now : ℕ) (principal : TelemetryPrincipal)
      (sid session_id : String) (client : PollingClient) (b : Bridge F)
      → lookup sid b.clients ≡ some client
      → str_eq client.session_id session_id ≡ false
      → post_streaming packets identifier now principal sid session_id b
        ≡ (false, expire_idle now b)
  unfolding post_streaming expire_idle
  post_streaming_foreign packets identifier now principal sid session_id client b found other =
      elim (close_all-lookup (idle_clients now b.idle_timeout b.clients) sid b) [
        | inl gone ↦ rw (gone, post_streaming) refl
        | inr same ↦ rw (same, post_streaming, found, other) refl
      ]

  -- `post` with the identifier of a client that another session owns returns false, and does nothing
  -- but drop idle clients; without the right to stream, it does not even that.
  pub post_foreign :
      (packets : List (List ℕ)) (identifier : String) (now : ℕ)
      (principal : Option TelemetryPrincipal) (sid session_id : String) (client : PollingClient)
      (b : Bridge F)
      → lookup sid b.clients ≡ some client
      → str_eq client.session_id session_id ≡ false
      → post packets identifier now principal sid session_id b ≡ (false, untouched principal now b)
  unfolding post is_streaming
  post_foreign packets identifier now none sid session_id client b found other =
      ap (λ (x : Bridge F). (false, x)) (close_if_owned_foreign sid session_id client b found other)
  post_foreign packets identifier now (some principal) sid session_id client b found other =
      elim (Bool-cases (may_stream principal)) [
        | inr e ↦
            rw (e, post)
              (ap (λ (x : Bridge F). (false, x))
                (close_if_owned_foreign sid session_id client b found other))
        | inl e ↦
            rw (e, post)
              (post_streaming_foreign packets identifier now principal sid session_id client b found
                other)
      ]

module _ (floats : Floats) (frame_size : Frame floats.Float → Option ℕ) where
  open floats use {Float}

  poll_streaming_foreign :
      (others : Bridge Float → Bridge Float) (allowed : ℕ → Bool) (wall now : ℕ)
      (broker : BrokerView Float) (sid session_id : String) (client : PollingClient)
      (b : Bridge Float)
      → lookup sid b.clients ≡ some client
      → str_eq client.session_id session_id ≡ false
      → poll_streaming floats frame_size others allowed wall now broker sid session_id b
        ≡ (refused, expire_idle now b)
  unfolding poll_streaming expire_idle
  poll_streaming_foreign others allowed wall now broker sid session_id client b found other =
      elim (close_all-lookup (idle_clients now b.idle_timeout b.clients) sid b) [
        | inl gone ↦ rw (gone, poll_streaming) refl
        | inr same ↦ rw (same, poll_streaming, found, other) refl
      ]

  -- `poll` with the identifier of a client that another session owns is refused, and does nothing but
  -- drop idle clients; without the right to stream, it does not even that.
  pub poll_foreign :
      (others : Bridge Float → Bridge Float) (allowed : ℕ → Bool) (wall now : ℕ)
      (broker : BrokerView Float) (principal : Option TelemetryPrincipal) (sid session_id : String)
      (client : PollingClient) (b : Bridge Float)
      → lookup sid b.clients ≡ some client
      → str_eq client.session_id session_id ≡ false
      → poll_bridge floats frame_size others allowed wall now broker principal sid session_id b
        ≡ (refused, untouched principal now b)
  unfolding poll_bridge
  poll_foreign others allowed wall now broker principal sid session_id client b found other =
      elim (Bool-cases (is_streaming principal)) [
        | inr e ↦
            rw (e, poll_bridge)
              (ap (λ (x : Bridge Float). (refused, x))
                (close_if_owned_foreign sid session_id client b found other))
        | inl e ↦
            rw (e, poll_bridge)
              (poll_streaming_foreign others allowed wall now broker sid session_id client b found
                other)
      ]
