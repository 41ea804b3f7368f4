-- ===== src/Supervisor/Outage.antt =====
-- The supervisor while no connection succeeds, and while the authorization is gone.
use mikrotik_openvpn_gui.Common.{
  ℕ, suc, ◌+◌, ◌*◌, ◌^◌, min, ◌≤◌, ◌≡◌, refl, ap, ◌∙◌, Bool, true, false, Option, none, some, List,
  [], ◌∷◌, arith, All, Bool-cases, inl, inr, leb, length,
}
use native.Mathlib.Nat.{pow-suc, one-le-pow, min-eq_right, min-eq_left, mul-le-mul_right}
use mikrotik_openvpn_gui.Gateway.Value.{Floats}
use mikrotik_openvpn_gui.Gateway.Frame.{TelemetryEvent}
use mikrotik_openvpn_gui.Broker.Text.{Conversions}
use mikrotik_openvpn_gui.Broker.Sessions.{TelemetryBroker, apply}
use mikrotik_openvpn_gui.Broker.Reconcile.{reconcile}
use mikrotik_openvpn_gui.Supervisor.Attempt.{
  Supervisor, Answers, Failure, publish_batch, run_attempt, raised, connecting,
}
use mikrotik_openvpn_gui.Supervisor.Attempt.Induction.{run_attempt_induction}
use mikrotik_openvpn_gui.Supervisor.Retry.Induction.{run_forever_induction}
use mikrotik_openvpn_gui.Supervisor.Retry.{Round, back_off, stop, run_forever, retry_loop}

module _ {F : Type 0} where
  -- No connection, and no request to stop.
  abbrev pub IsUnreachable : Round F → Type 0
  IsUnreachable round =
      (round.stop_set ≡ false)
      × (round.stop_in_wait ≡ false)
      × (round.answers.stopped_before ≡ false)
      × ((failure : Failure) × (round.answers.connection ≡ some failure))

  -- The last check of the authorization fails, whenever it is asked.
  abbrev pub IsRevoked : Round F → Type 0
  IsRevoked round = (i : ℕ) → round.answers.granted i ≡ false

  -- The broker and all that was handed on are as in `before`.
  abbrev pub IsUntouched : Supervisor F → Supervisor F → Type 0
  IsUntouched before s =
      (s.broker ≡ before.broker) × (s.delivered ≡ before.delivered) × (s.events ≡ before.events)

  publish_batch-IsUntouched :
      (before : Supervisor F) (granted : Bool) (on_events after_dispatch : Option Failure)
      (is_snapshot : Bool) (now : ℕ) (result : Option (List (TelemetryEvent F) × TelemetryBroker))
      (s : Supervisor F)
      → granted ≡ false
      → IsUntouched before s
      → IsUntouched before
          (publish_batch granted on_events after_dispatch is_snapshot now result s).1
  unfolding publish_batch
  publish_batch-IsUntouched before granted on after is_snapshot now result s e u = rw e u

  -- `run_attempt` up to the connection
  abbrev started : Supervisor F → Supervisor F
  started s = record s { attempts = s.attempts + 1; status = connecting; last_error_code = none }

  -- What `n` failures without a connection make of `s`.
  abbrev pub IsWorn : Supervisor F → ℕ → Supervisor F → Type 0
  IsWorn s n t =
      (t.attempts ≡ s.attempts + n)
      × (t.failures ≡ s.failures + n)
      × (t.backoff_seconds ≡ min s.config.max_backoff (s.backoff_seconds * 2 ^ n))
      × (t.broker ≡ s.broker)

twice : (b n : ℕ) → b * 2 * 2 ^ n ≡ b * 2 ^ suc n
twice b n = grind (arith, pow-suc 2 n)

doubled :
    (longest b n : ℕ) → min longest (min longest (b * 2) * 2 ^ n) ≡ min longest (b * 2 ^ suc n)
doubled longest b n = elim (Bool-cases (leb (b * 2) longest)) [
  | inl small ↦
      let low : b * 2 ≤ longest = ground (arith, small) in
      rw (min-eq_right low) (ap (min longest) (twice b n))
  | inr large ↦
      let high : longest ≤ b * 2 = ground (arith, large) in
      let wide : longest ≤ longest * 2 ^ n = grind (arith, one-le-pow n 2) in
      let grown : longest * 2 ^ n ≤ b * 2 * 2 ^ n = mul-le-mul_right (2 ^ n) high in
      rw (min-eq_left high) omega (arith, twice b n, high, wide, grown)
]

module _ (floats : Floats) (conversions : Conversions floats.Float) where
  open floats use {Float}

  unreachable :
      (a : Answers Float) (failure : Failure) (s : Supervisor Float)
      → s.config.enabled ≡ true
      → a.stopped_before ≡ false
      → a.connection ≡ some failure
      → run_attempt floats conversions a s ≡ (raised failure, started s)
  unfolding run_attempt
  unreachable a failure s e d f = simp (e, d, f)

  retry_loop-IsWorn :
      (rounds : List (Round Float)) (s : Supervisor Float)
      → s.config.enabled ≡ true
      → s.backoff_seconds ≤ s.config.max_backoff
      → All IsUnreachable rounds
      → IsWorn s (length rounds) (retry_loop floats conversions rounds none s)
  unfolding retry_loop back_off
  retry_loop-IsWorn [] s e low u = (omega arith, omega arith, omega (arith, low), refl)
  retry_loop-IsWorn (round ∷ rounds) s e low (u, us) =
      let next = back_off (u.3.0) (started s) in
      let rest = retry_loop-IsWorn rounds next e (omega arith) us in
      let tried = unreachable round.answers u.3.0 s e u.2 u.3.1 in
      rw (u.0, ap (λ r. r.0) tried, u.1, ap (λ r. r.1) tried)
        (
          omega (arith, rest.0),
          omega (arith, rest.1),
          rest.2 ∙ doubled s.config.max_backoff s.backoff_seconds (length rounds),
          rest.3,
        )

  -- Where the last check of the authorization fails throughout, no run changes the broker, hands an
  -- event on, or counts one.
  pub run_forever-IsUntouched :
      (rounds : List (Round Float)) (max_attempts : Option ℕ) (s : Supervisor Float)
      → All IsRevoked rounds
      → IsUntouched s (run_forever floats conversions rounds max_attempts s)
  unfolding back_off stop
  run_forever-IsUntouched rounds max_attempts s revoked =
      run_forever_induction floats conversions IsRevoked (IsUntouched s)
        (λ round q t u.
          run_attempt_induction floats conversions round.answers (IsUntouched s)
            (λ status attempts reconnects connected code v w. w) (λ v w. w)
            (λ records v w.
              publish_batch-IsUntouched s (round.answers.granted 0) (round.answers.on_events 0)
                (round.answers.after_dispatch 0) true round.answers.now
                (reconcile floats conversions records round.answers.now v.broker) v (q 0) w)
            (λ i reply v w.
              publish_batch-IsUntouched s (round.answers.granted (i + 1))
                (round.answers.on_events (i + 1)) (round.answers.after_dispatch (i + 1)) false
                round.answers.now (some (apply floats conversions reply round.answers.now v.broker))
                v (q (i + 1)) w)
            t u)
        (λ failure t u. u) (λ t u. u) (λ t u. u) rounds revoked max_attempts s (refl, refl, refl)

  -- A run of attempts none of which gets a connection fails once for each of them, and its next wait
  -- is the first one doubled as often, cut at the longest wait; the broker is left as it was.
  pub run_forever-IsWorn :
      (rounds : List (Round Float)) (s : Supervisor Float)
      → s.config.enabled ≡ true
      → s.backoff_seconds ≤ s.config.max_backoff
      → All IsUnreachable rounds
      → IsWorn s (length rounds) (run_forever floats conversions rounds none s)
  unfolding run_forever
  run_forever-IsWorn rounds s e low u = simp e (retry_loop-IsWorn rounds s e low u)
