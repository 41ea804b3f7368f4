-- ===== src/Supervisor/Attempt.antt =====
-- One attempt, `run_attempt`, with `_connect` and `_publish`, of a supervisor that has an `on_events`
-- handler. What the connection, the credentials and the authorization answer is an argument, as is
-- what the handlers raise; a clock reading is a number of ticks, whole seconds for the broker. The
-- thread that watches the authorization only closes the connection, which is one way for the stream
-- to end.
pub mod Cases
pub mod Induction
use mikrotik_openvpn_gui.Common.{
  ℕ, suc, ◌+◌, Bool, true, false, not, ◌&&◌, ◌||◌, Option, none, some, List, [], ◌∷◌, ◌++◌, ltb,
  leb, if◌then◌else◌, length,
}
use mikrotik_openvpn_gui.Gateway.Value.{Floats, Fields}
use mikrotik_openvpn_gui.Gateway.Frame.{TelemetryEvent}
use mikrotik_openvpn_gui.Broker.Text.{Conversions}
use mikrotik_openvpn_gui.Broker.Sessions.{TelemetryBroker, Reply, apply}
use mikrotik_openvpn_gui.Broker.Reconcile.{reconcile}

pub data Status : Type 0 where
  disabled stopped connecting healthy degraded : Status

-- What an attempt raises: an error of the supervisor by its code, or an exception from outside.
pub data Failure : Type 0 where
  credentials_unavailable snapshot_timeout invalid_reply listen_ended : Failure
  timeout_error os_error other_error : Failure

pub record SupervisorConfig : Type 0 where
  pub enabled : Bool
  pub snapshot_limit : ℕ
  pub initial_backoff : ℕ
  pub max_backoff : ℕ

-- `__post_init__`, of the three limits
unfoldable pub is_valid_config : SupervisorConfig → Bool
is_valid_config c =
    ltb 0 c.snapshot_limit && (ltb 0 c.initial_backoff && leb c.initial_backoff c.max_backoff)

-- Its counters, its broker, and the events that `on_events` was called with, oldest first.
pub record Supervisor (F : Type 0) : Type 0 where
  pub config : SupervisorConfig
  pub status : Status
  pub attempts : ℕ
  pub reconnects : ℕ
  pub failures : ℕ
  pub events : ℕ
  pub last_connected_at : Option ℕ
  pub last_event_at : Option ℕ
  pub last_snapshot_at : Option ℕ
  pub last_error_code : Option Failure
  pub backoff_seconds : ℕ
  pub broker : TelemetryBroker
  pub delivered : List (TelemetryEvent F)

unfoldable pub new_supervisor : {F : Type 0} → SupervisorConfig → TelemetryBroker → Supervisor F
new_supervisor config broker = record {
  config = config;
  status = if config.enabled then stopped else disabled;
  attempts = 0;
  reconnects = 0;
  failures = 0;
  events = 0;
  last_connected_at = none;
  last_event_at = none;
  last_snapshot_at = none;
  last_error_code = none;
  backoff_seconds = config.initial_backoff;
  broker = broker;
  delivered = [];
}

-- What comes from the stream: a reply, something else, or nothing more because of a stop request.
pub data Item (F : Type 0) : Type 0 where
  item : Reply F → Item F
  not_a_reply : Item F
  stop_requested : Item F

-- The answers from outside in one attempt. `allowed` answers the authorization checks of the attempt
-- by their number; `granted` answers the last one, in `_publish`, under which the broker is changed.
-- `on_events` and `after_dispatch` say what the two handlers raise in a publication, by its number.
pub record Answers (F : Type 0) : Type 0 where
  pub stopped_before : Bool
  pub connection : Option Failure
  pub allowed : ℕ → Bool
  pub granted : ℕ → Bool
  pub on_events : ℕ → Option Failure
  pub after_dispatch : ℕ → Option Failure
  pub snapshot : Option (List (Fields F) × ℕ)
  pub snapshot_failure : Option Failure
  pub items : List (Item F)
  pub stream_failure : Option Failure
  pub now : ℕ

-- How an attempt ends.
pub data Ended : Type 0 where
  returned : Ended
  raised : Failure → Ended

module _ {F : Type 0} where
  -- The counters, behind the dispatch.
  unfoldable pub count_events : Bool → ℕ → List (TelemetryEvent F) → Supervisor F → Supervisor F
  count_events is_snapshot now batch s = record s {
    events = s.events + length batch;
    last_event_at = some now;
    last_snapshot_at = if is_snapshot then some now else s.last_snapshot_at;
  }

  -- `_publish` behind the change of the broker: `on_events` gets the batch inside the dispatch, where
  -- what it raises leaves the counters out, and `on_events_after_dispatch` gets it at the end. The two
  -- arguments are what they raise.
  unfoldable pub hand_on :
      Option Failure
      → Option Failure
      → Bool
      → ℕ
      → List (TelemetryEvent F)
      → Supervisor F
      → Ended × Supervisor F
  unfolding count_events
  hand_on on_events after_dispatch is_snapshot now [] s = (returned, s)
  hand_on on_events after_dispatch is_snapshot now (e ∷ batch) s =
      let handed : Supervisor F = record s { delivered = s.delivered ++ e ∷ batch } in
      let counted = count_events is_snapshot now (e ∷ batch) handed in
      elim on_events [
        | some failure ↦ (raised failure, handed)
        | none ↦ elim after_dispatch [
          | some failure ↦ (raised failure, counted)
          | none ↦ (returned, counted)
        ]
      ]

  -- `_publish` of what `result` says that the broker does; `none` where the broker raises.
  unfoldable pub publish_batch :
      Bool
      → Option Failure
      → Option Failure
      → Bool
      → ℕ
      → Option (List (TelemetryEvent F) × TelemetryBroker)
      → Supervisor F
      → Ended × Supervisor F
  unfolding hand_on
  publish_batch granted on_events after_dispatch is_snapshot now result s =
      if not granted then (raised credentials_unavailable, s) else elim result [
        | none ↦ (raised other_error, s)
        | some (batch, broker) ↦
            hand_on on_events after_dispatch is_snapshot now batch (record s { broker = broker })
      ]

  abbrev pub has_snapshot : Answers F → Bool
  has_snapshot a = elim a.snapshot [ none ↦ false | some _ ↦ true ]

  abbrev pub was_connected : Supervisor F → ℕ
  was_connected s = elim s.last_connected_at [ none ↦ 0 | some _ ↦ 1 ]

module _ (floats : Floats) (conversions : Conversions floats.Float) where
  open floats use {Float}

  -- The loop over the stream, from the item with number `i`.
  unfoldable pub listen_loop :
      Answers Float → ℕ → List (Item Float) → Supervisor Float → Ended × Supervisor Float
  unfolding publish_batch
  listen_loop a i [] s = elim a.stream_failure [
    | some failure ↦ (raised failure, s)
    | none ↦ (raised listen_ended, s)
  ]
  listen_loop a i (stop_requested ∷ items) s = (returned, s)
  listen_loop a i (not_a_reply ∷ items) s =
      if not (a.allowed (i + 3))
      then (raised credentials_unavailable, s)
      else (raised invalid_reply, s)
  listen_loop a i (item reply ∷ items) s =
      if not (a.allowed (i + 3))
      then (raised credentials_unavailable, s)
      else let published =
          publish_batch (a.granted (i + 1)) (a.on_events (i + 1)) (a.after_dispatch (i + 1)) false
            a.now (some (apply floats conversions reply a.now s.broker)) s in
        elim published.0 [
          | raised failure ↦ (raised failure, published.1)
          | returned ↦ listen_loop a (i + 1) items published.1
        ]

  -- The snapshot, where there is a reader for it.
  unfoldable pub read_snapshot : Answers Float → Supervisor Float → Ended × Supervisor Float
  read_snapshot a s = elim a.snapshot [
    | none ↦ (returned, s)
    | some (records, elapsed) ↦
        if not (a.allowed 1) then (raised credentials_unavailable, s) else elim a.snapshot_failure [
          | some failure ↦ (raised failure, s)
          | none ↦
              if not (a.allowed 2)
              then (raised credentials_unavailable, s)
              else if ltb s.config.snapshot_limit elapsed
              then (raised snapshot_timeout, s)
              else publish_batch (a.granted 0) (a.on_events 0) (a.after_dispatch 0) true a.now
                  (reconcile floats conversions records a.now s.broker) s
        ]
  ]

  -- What follows the connection.
  unfoldable pub run_connected : Answers Float → Supervisor Float → Ended × Supervisor Float
  unfolding read_snapshot listen_loop
  run_connected a s =
      if not (a.allowed 0)
      then (raised credentials_unavailable, s)
      else let connected : Supervisor Float = record s {
        status = if has_snapshot a then connecting else healthy;
        reconnects = s.reconnects + was_connected s;
        last_connected_at = some a.now;
      } in
        let read = read_snapshot a connected in
        elim read.0 [
          | raised failure ↦ (raised failure, read.1)
          | returned ↦ listen_loop a 0 a.items (record (read.1) {
            status = healthy;
            backoff_seconds = read.1.config.initial_backoff;
          })
        ]

  unfoldable pub run_attempt : Answers Float → Supervisor Float → Ended × Supervisor Float
  unfolding run_connected
  run_attempt a s =
      if not s.config.enabled
      then (returned, record s { status = disabled })
      else if a.stopped_before
      then (returned, s)
      else let started : Supervisor Float = record s {
        attempts = s.attempts + 1;
        status = connecting;
        last_error_code = none;
      } in
        elim a.connection [
          | some failure ↦ (raised failure, started)
          | none ↦ run_connected a started
        ]
