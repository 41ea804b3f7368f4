-- ===== src/Freshness/State.antt =====
-- The freshness of the live transport. A reading of the clock is a Python float: a parameter, with
-- the operations on it.
use mikrotik_openvpn_gui.Common.{
  ℕ, ◌+◌, ◌-◌, String, Bool, true, false, Option, none, some, List, [], ◌∷◌, ltb, if◌then◌else◌,
  take, max,
}
use mikrotik_openvpn_gui.Common.Int.{ℤ, pos, negsuc}
use mikrotik_openvpn_gui.Gateway.Value.{codes}

-- `int(t)`, `float(n)` and `max(0.0, t - s)`.
pub record Clock : Type 1 where
  pub Time : Type 0
  pub whole : Time → ℕ
  pub exact : ℕ → Time
  pub elapsed : Time → Time → Time

-- `state` of `as_dict`
pub data Health : Type 0 where
  failed stale healthy : Health

-- `max(0, int(count))`
abbrev pub counted : ℤ → ℕ
counted (pos n) = n
counted (negsuc n) = 0

-- `text[:64] or "telemetry_error"`, of a text that is stripped
abbrev pub safe_code : List ℕ → List ℕ
safe_code stripped = elim (take 64 stripped) [ [] ↦ codes "telemetry_error" | c ∷ cs ↦ c ∷ cs ]

module _ (clock : Clock) where
  open clock use {Time, whole, exact, elapsed}

  pub record RuntimeState : Type 0 where
    pub stale_after : ℕ
    pub requested_transport : String
    pub effective_transport : String
    pub socketio_enabled : Bool
    pub last_event_at : Option ℕ
    pub last_reconciliation_at : Option ℕ
    pub event_count : ℕ
    pub last_session_event_at : Option Time
    pub last_traffic_sample_at : Option Time
    pub session_events : ℕ
    pub traffic_samples : ℕ
    pub reconnects : ℕ
    pub last_error : Option (List ℕ)

  -- `__init__`
  unfoldable pub new_state : String → String → Bool → ℕ → RuntimeState
  new_state requested effective socketio stale_after = record {
    stale_after = max 1 stale_after;
    requested_transport = requested;
    effective_transport = effective;
    socketio_enabled = socketio;
    last_event_at = none;
    last_reconciliation_at = none;
    event_count = 0;
    last_session_event_at = none;
    last_traffic_sample_at = none;
    session_events = 0;
    traffic_samples = 0;
    reconnects = 0;
    last_error = none;
  }

  unfoldable pub mark_event : Bool → ℕ → RuntimeState → RuntimeState
  mark_event reconciliation now s = record s {
    last_event_at = some now;
    last_session_event_at = some (exact now);
    session_events = s.session_events + 1;
    last_reconciliation_at = if reconciliation then some now else s.last_reconciliation_at;
    event_count = s.event_count + 1;
    last_error = none;
  }

  unfoldable pub mark_session_events : ℤ → Bool → Time → RuntimeState → RuntimeState
  mark_session_events count reconciliation now s = record s {
    last_event_at = some (whole now);
    last_session_event_at = some now;
    session_events = s.session_events + counted count;
    last_reconciliation_at = if reconciliation then some (whole now) else s.last_reconciliation_at;
    event_count = s.event_count + counted count;
    last_error = none;
  }

  unfoldable pub mark_traffic_samples : ℤ → Time → RuntimeState → RuntimeState
  mark_traffic_samples count now s = record s {
    last_traffic_sample_at = some now;
    traffic_samples = s.traffic_samples + counted count;
  }

  unfoldable pub mark_reconnect : RuntimeState → RuntimeState
  mark_reconnect s = record s { reconnects = s.reconnects + 1 }

  -- The code is given stripped.
  unfoldable pub mark_error : List ℕ → RuntimeState → RuntimeState
  mark_error stripped s = record s { last_error = some (safe_code stripped) }

  -- What `as_dict` computes, beside the fields that it copies.
  pub record Report : Type 0 where
    pub state : Health
    pub event_age : Option ℕ
    pub reconciliation_age : Option ℕ
    pub session_event_age : Option Time
    pub traffic_sample_age : Option Time

  abbrev pub age : ℕ → Option ℕ → Option ℕ
  age now none = none
  age now (some at) = some (now - at)

  abbrev pub exact_age : Time → Option Time → Option Time
  exact_age now none = none
  exact_age now (some at) = some (elapsed now at)

  -- `if self._last_error: …`
  abbrev pub has_error : Option (List ℕ) → Bool
  has_error none = false
  has_error (some []) = false
  has_error (some (c ∷ cs)) = true

  abbrev pub is_old : ℕ → Option ℕ → Bool
  is_old limit none = true
  is_old limit (some seconds) = ltb limit seconds

  unfoldable pub as_dict : Time → RuntimeState → Report
  as_dict now s =
      let event_age = age (whole now) s.last_event_at in
      record {
        state =
            if has_error s.last_error
            then failed
            else if is_old s.stale_after event_age
            then stale
            else healthy;
        event_age = event_age;
        reconciliation_age = age (whole now) s.last_reconciliation_at;
        session_event_age = exact_age now s.last_session_event_at;
        traffic_sample_age = exact_age now s.last_traffic_sample_at;
      }
