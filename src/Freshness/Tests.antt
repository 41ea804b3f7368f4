-- ===== src/Freshness/Tests.antt =====
-- The freshness state at a concrete history: the clock counts milliseconds.
use mikrotik_openvpn_gui.Common.{ℕ, ◌*◌, ◌-◌, ◌≡◌, true, List, [], ◌∷◌, if◌then◌else◌, max}
use Prim.Native.Nat.{◌/◌}
use mikrotik_openvpn_gui.Common.Int.{pos}
use mikrotik_openvpn_gui.Gateway.Value.{codes}
use mikrotik_openvpn_gui.Freshness.State.{
  Clock, failed, stale, healthy, new_state, as_dict, is_old, age,
}
use mikrotik_openvpn_gui.Freshness.History.{
  Mark, event, traffic, reconnected, error_code, replay, is_failing, last_event, events_of,
  as_dict-replay,
}

abbrev milliseconds : Clock
milliseconds = record {
  Time = ℕ;
  whole = λ t. t / 1000;
  exact = λ n. n * 1000;
  elapsed = λ t s. t - s;
}

abbrev bad_minute : List (Mark milliseconds)
bad_minute = traffic (pos 3) 7000 ∷ reconnected ∷ error_code (codes "timeout") ∷ event true 5 ∷ []

as_dict-replay_example :
    let s = replay milliseconds bad_minute (new_state milliseconds "auto" "sse" true 10) in
    ((as_dict milliseconds 9500 s).state ≡ (
      if is_failing milliseconds bad_minute
      then failed
      else if is_old milliseconds
          (max 1 10)
          (age milliseconds 9 (last_event milliseconds bad_minute))
      then stale
      else healthy))
    × (s.event_count ≡ events_of milliseconds bad_minute)
    × (s.session_events ≡ events_of milliseconds bad_minute)
as_dict-replay_example = as_dict-replay milliseconds bad_minute "auto" "sse" true 10 9500
