-- ===== src/Supervisor/Retry.antt =====
-- `run_forever` and `stop` of telemetry_supervisor.py. The attempts that follow each other are a list
-- of answers, each with what the wait after it says; the list ends where the run is cut short.
pub mod Induction
use mikrotik_openvpn_gui.Common.{
  ℕ, zero, suc, ◌+◌, ◌*◌, min, Bool, true, false, not, Option, none, some, List, [], ◌∷◌, ltb,
  if◌then◌else◌,
}
use mikrotik_openvpn_gui.Gateway.Value.{Floats}
use mikrotik_openvpn_gui.Broker.Text.{Conversions}
use mikrotik_openvpn_gui.Supervisor.Attempt.{
  Status, stopped, disabled, degraded, Failure, Supervisor, Answers, Ended, returned, raised,
  run_attempt,
}

-- The answers in an attempt, whether a stop was requested before it, and whether one comes in the
-- wait after it.
pub record Round (F : Type 0) : Type 0 where
  pub stop_set : Bool
  pub answers : Answers F
  pub stop_in_wait : Bool

module _ {F : Type 0} where
  -- The `except` branch of `run_forever`, up to the wait.
  unfoldable pub back_off : Failure → Supervisor F → Supervisor F
  back_off failure s = record s {
    failures = s.failures + 1;
    status = degraded;
    last_error_code = some failure;
    backoff_seconds = min s.config.max_backoff (s.backoff_seconds * 2);
  }

  -- `stop`, and the end of `run_forever` after it
  unfoldable pub stop : Supervisor F → Supervisor F
  stop s = record s { status = stopped }

module _ (floats : Floats) (conversions : Conversions floats.Float) where
  open floats use {Float}

  -- A clean return comes only after a request to stop; `left` is what `max_attempts` leaves.
  unfoldable pub retry_loop : List (Round Float) → Option ℕ → Supervisor Float → Supervisor Float
  unfolding back_off stop
  retry_loop [] left s = s
  retry_loop (round ∷ rounds) (some zero) s = if round.stop_set then stop s else s
  retry_loop (round ∷ rounds) none s =
      if round.stop_set
      then stop s
      else let tried = run_attempt floats conversions round.answers s in
        elim tried.0 [
          | returned ↦ stop tried.1
          | raised failure ↦
              let rest = retry_loop rounds none (back_off failure tried.1) in
              if round.stop_in_wait then stop (back_off failure tried.1) else rest
        ]
  retry_loop (round ∷ rounds) (some (suc left)) s =
      if round.stop_set
      then stop s
      else let tried = run_attempt floats conversions round.answers s in
        elim tried.0 [
          | returned ↦ stop tried.1
          | raised failure ↦
              let rest = retry_loop rounds (some left) (back_off failure tried.1) in
              if round.stop_in_wait then stop (back_off failure tried.1) else rest
        ]

  unfoldable pub run_forever : List (Round Float) → Option ℕ → Supervisor Float → Supervisor Float
  unfolding retry_loop
  run_forever rounds max_attempts s =
      if not s.config.enabled
      then record s { status = disabled }
      else retry_loop rounds max_attempts s
