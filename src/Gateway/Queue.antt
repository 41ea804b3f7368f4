-- ===== src/Gateway/Queue.antt =====
-- `TelemetryGatewayContract` of telemetry_gateway.py: its state, `open`, `close` and `publish`. A
-- clock reading is a number of ticks, and a new subscription's identifier is an argument.
pub mod Budget
pub mod Log
use mikrotik_openvpn_gui.Common.{
  ℕ, zero, suc, ◌+◌, ◌-◌, ◌*◌, ◌^◌, String, Bool, true, false, not, ◌||◌, Option, none, some, List,
  [], ◌∷◌, ◌++◌, ltb, leb, if◌then◌else◌, length, drop, min, max,
}
use mikrotik_openvpn_gui.Common.Dict.{Dict, lookup, insert, erase, contains}
use mikrotik_openvpn_gui.Gateway.Value.{Floats}
use mikrotik_openvpn_gui.Gateway.Limits.{max_frame_bytes}
use mikrotik_openvpn_gui.Gateway.Error.{
  Outcome, ok, err, ◌>>=◌, unauthorized, client_limit, frame_limit, replay_budget,
}
use mikrotik_openvpn_gui.Gateway.Principal.{TelemetryPrincipal, may_stream}
use mikrotik_openvpn_gui.Gateway.Frame.{TelemetryEvent, Frame, build_frame}

abbrev pub max_replay_events : ℕ
max_replay_events = 256

abbrev pub max_total_replay_bytes : ℕ
max_total_replay_bytes = 8 * 2 ^ 20

pub record Subscription : Type 0 where
  pub created_at : ℕ
  pub last_seen_sequence : ℕ
  pub client_cursor_seen : Bool

-- A frame that is kept for replay.
pub record Entry (F : Type 0) : Type 0 where
  pub frame : Frame F
  pub published_at : ℕ
  pub size : ℕ

pub record Gateway (F : Type 0) : Type 0 where
  pub max_replay : ℕ
  pub max_replay_bytes : ℕ
  pub frame_byte_limit : ℕ
  pub max_clients : ℕ
  pub events : List (Entry F)
  pub retained_frame_bytes : ℕ
  pub clients : Dict Subscription
  pub delivery_queue_ages : List ℕ
  pub published_events : ℕ
  pub replayed_events : ℕ
  pub snapshot_recoveries : ℕ
  pub rejected_clients : ℕ

-- `__init__`, of the four limits that a caller gives
unfoldable pub new_gateway : {F : Type 0} → ℕ → ℕ → ℕ → ℕ → Gateway F
new_gateway max_replay max_clients frame_bytes replay_bytes =
    let replay_budget_bytes = min max_total_replay_bytes (max 1 replay_bytes) in
    record {
      max_replay = min max_replay_events (max 1 max_replay);
      max_replay_bytes = replay_budget_bytes;
      frame_byte_limit = min (min max_frame_bytes replay_budget_bytes) (max 1 frame_bytes);
      max_clients = max 1 max_clients;
      events = [];
      retained_frame_bytes = 0;
      clients = [];
      delivery_queue_ages = [];
      published_events = 0;
      replayed_events = 0;
      snapshot_recoveries = 0;
      rejected_clients = 0;
    }

module _ {F : Type 0} where
  -- `open`
  unfoldable pub open_subscription :
      String → ℕ → TelemetryPrincipal → Gateway F → Outcome String × Gateway F
  open_subscription identifier now principal g =
      if not (may_stream principal)
      then (err unauthorized, record g { rejected_clients = g.rejected_clients + 1 })
      else if leb g.max_clients (length g.clients)
      then (err client_limit, record g { rejected_clients = g.rejected_clients + 1 })
      else (
        ok identifier,
        record g {
          clients =
              insert identifier
                (record { created_at = now; last_seen_sequence = 0; client_cursor_seen = false })
                g.clients;
        },
      )

  -- `close`
  unfoldable pub close_subscription : String → Gateway F → Bool × Gateway F
  close_subscription identifier g =
      (contains identifier g.clients, record g { clients = erase identifier g.clients })

  -- The `while` loop of `publish`: the oldest frames make room for one of `size` bytes.
  unfoldable pub evict : ℕ → ℕ → ℕ → List (Entry F) → ℕ → List (Entry F) × ℕ
  evict max_replay max_bytes size [] retained = ([], retained)
  evict max_replay max_bytes size (e ∷ events) retained =
      let rest = evict max_replay max_bytes size events (retained - e.size) in
      if leb max_replay (length (e ∷ events)) || ltb max_bytes (retained + size)
      then rest
      else (e ∷ events, retained)

  unfoldable pub append_entry : Entry F → Gateway F → Gateway F
  unfolding evict
  append_entry entry g =
      let (kept, retained) =
        evict g.max_replay g.max_replay_bytes entry.size g.events g.retained_frame_bytes in
      record g { events = kept ++ entry ∷ []; retained_frame_bytes = retained + entry.size }

module _ (floats : Floats) (frame_size : Frame floats.Float → Option ℕ) where
  open floats use {Float}

  -- `_bounded_frame`
  unfoldable pub bounded_frame : ℕ → TelemetryEvent Float → Outcome (Frame Float × ℕ)
  bounded_frame limit event = do
    built ← build_frame floats frame_size event
    if ltb limit built.1 then err frame_limit else ok built

  -- The loop of `publish`. Each event comes with the clock that is read for it.
  unfoldable pub publish_loop :
      List (TelemetryEvent Float × ℕ) → ℕ → Gateway Float → Outcome ℕ × Gateway Float
  publish_loop [] count g = (ok count, record g { published_events = g.published_events + count })
  publish_loop ((event, now) ∷ events) count g = elim (bounded_frame g.frame_byte_limit event) [
    | err e ↦ (err e, g)
    | ok (frame, size) ↦
        if ltb g.max_replay_bytes size
        then (err replay_budget, g)
        else publish_loop events (count + 1)
            (append_entry (record { frame = frame; published_at = now; size = size }) g)
  ]

  unfoldable pub publish :
      List (TelemetryEvent Float × ℕ) → Gateway Float → Outcome ℕ × Gateway Float
  unfolding publish_loop
  publish events g = publish_loop events 0 g
