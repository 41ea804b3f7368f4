-- ===== src/Polling/Bridge.antt =====
-- The table of polling clients: `handshake`, `close` and the idle timeout. A clock reading is a
-- number of ticks, and a new client's identifier is an argument.
use text.Mathlib.Text.{◌==◌ as str_eq}
use mikrotik_openvpn_gui.Common.{
  ℕ, ◌+◌, String, Bool, false, not, Option, none, some, List, [], ◌∷◌, leb, if◌then◌else◌, length,
  max,
}
use mikrotik_openvpn_gui.Common.Dict.{Dict, lookup, insert, erase}
use mikrotik_openvpn_gui.Gateway.Principal.{TelemetryPrincipal, may_stream}
use mikrotik_openvpn_gui.Gateway.Queue.{Gateway, close_subscription}

pub record PollingClient : Type 0 where
  pub session_id : String
  pub last_activity : ℕ
  pub subscription : Option String
  pub namespace_connected : Bool
  pub pending : List String

pub record Bridge (F : Type 0) : Type 0 where
  pub gateway : Gateway F
  pub idle_timeout : ℕ
  pub max_clients : ℕ
  pub clients : Dict PollingClient

-- What `handshake` does: no stream for the caller, no place left, or a new client.
pub data Handshake : Type 0 where
  declined no_capacity : Handshake
  accepted : String → Handshake

-- `principal is not None and principal.may_stream`
unfoldable pub is_streaming : Option TelemetryPrincipal → Bool
is_streaming none = false
is_streaming (some principal) = may_stream principal

abbrev pub idle_clients : ℕ → ℕ → Dict PollingClient → List String
idle_clients now timeout [] = []
idle_clients now timeout ((sid, client) ∷ clients) =
    if leb (client.last_activity + timeout) now
    then sid ∷ idle_clients now timeout clients
    else idle_clients now timeout clients

module _ {F : Type 0} where
  -- `__init__`
  unfoldable pub new_bridge : Gateway F → ℕ → ℕ → Bridge F
  new_bridge gateway idle_timeout max_clients = record {
    gateway = gateway;
    idle_timeout = idle_timeout;
    max_clients = max 1 max_clients;
    clients = [];
  }

  abbrev pub without : Option String → Gateway F → Gateway F
  without none g = g
  without (some subscription) g = (close_subscription subscription g).1

  -- `_close_locked`
  unfoldable pub close_client : String → Bridge F → Bridge F
  close_client sid b = elim (lookup sid b.clients) [
    | none ↦ b
    | some client ↦ record b {
      clients = erase sid b.clients;
      gateway = without client.subscription b.gateway;
    }
  ]

  -- `_close_if_owned`
  unfoldable pub close_if_owned : String → String → Bridge F → Bridge F
  unfolding close_client
  close_if_owned sid session_id b = elim (lookup sid b.clients) [
    | none ↦ b
    | some client ↦ if str_eq client.session_id session_id then close_client sid b else b
  ]

  unfoldable pub close_all : List String → Bridge F → Bridge F
  close_all [] b = b
  close_all (sid ∷ sids) b = close_all sids (close_client sid b)

  -- `_expire_idle_locked`
  unfoldable pub expire_idle : ℕ → Bridge F → Bridge F
  unfolding close_all
  expire_idle now b = close_all (idle_clients now b.idle_timeout b.clients) b

  unfoldable pub handshake :
      String → String → ℕ → Option TelemetryPrincipal → Bridge F → Handshake × Bridge F
  unfolding expire_idle
  handshake sid session_id now principal b =
      if not (is_streaming principal)
      then (declined, b)
      else let swept = expire_idle now b in
        if leb swept.max_clients (length swept.clients) then (no_capacity, swept) else (
          accepted sid,
          record swept {
            clients =
                insert sid
                  (record {
                    session_id = session_id;
                    last_activity = now;
                    subscription = none;
                    namespace_connected = false;
                    pending = [];
                  })
                  swept.clients;
          },
        )
