-- ===== src/Supervisor/Retry/Induction.antt =====
-- What every attempt, every failure and every stop keeps, a whole run keeps.
use mikrotik_openvpn_gui.Common.{
  ℕ, zero, suc, inl, inr, not, Option, none, some, List, [], ◌∷◌, if◌then◌else◌, All, Bool-cases,
}
use mikrotik_openvpn_gui.Gateway.Value.{Floats}
use mikrotik_openvpn_gui.Broker.Text.{Conversions}
use mikrotik_openvpn_gui.Supervisor.Attempt.{
  disabled, Failure, Supervisor, returned, raised, run_attempt,
}
use mikrotik_openvpn_gui.Supervisor.Attempt.Cases.{Ended-cases, either}
use mikrotik_openvpn_gui.Supervisor.Retry.{Round, back_off, stop, retry_loop, run_forever}

-- The condition that every round meets.
abbrev pub Anything : {F : Type 0} → Round F → Type 0
Anything round = Unit

pub Anything-All : {F : Type 0} (rounds : List (Round F)) → All Anything rounds
Anything-All [] = tt
Anything-All (round ∷ rounds) = (tt, Anything-All rounds)

module _ (floats : Floats) (conversions : Conversions floats.Float) where
  open floats use {Float}

  -- What is left of the limit on attempts.
  abbrev less : Option ℕ → Option ℕ
  less none = none
  less (some zero) = some zero
  less (some (suc n)) = some n

  module _ (Q : Round Float → Type 0) (P : Supervisor Float → Type 0)
      (attempted : (r : Round Float)
        → Q r
        → (s : Supervisor Float) → P s
        → P (run_attempt floats conversions r.answers s).1)
      (failed : (f : Failure) (s : Supervisor Float) → P s → P (back_off f s))
      (halted : (s : Supervisor Float) → P s → P (stop s)) where
    -- One round, of which the rest of the run keeps `P` from where the round leaves off.
    round_step :
        (round : Round Float) (s : Supervisor Float) (rest : Supervisor Float → Supervisor Float)
        → Q round
        → P s
        → ((t : Supervisor Float) → P t → P (rest t))
        → P (
            if round.stop_set
            then stop s
            else let tried = run_attempt floats conversions round.answers s in
              elim tried.0 [
                | returned ↦ stop tried.1
                | raised failure ↦
                    let next = rest (back_off failure tried.1) in
                    if round.stop_in_wait then stop (back_off failure tried.1) else next
              ])
    round_step round s rest q p keeps =
        let tried = run_attempt floats conversions round.answers s in
        let after = attempted round q s p in
        elim (Bool-cases round.stop_set) [
          | inl e ↦ rw e (halted s p)
          | inr e ↦ elim (Ended-cases tried.0) [
            | inl d ↦ rw (e, d) (halted tried.1 after)
            | inr (failure, d) ↦
                let backed = failed failure tried.1 after in
                elim (Bool-cases round.stop_in_wait) [
                  | inl f ↦ rw (e, d, f) (halted (back_off failure tried.1) backed)
                  | inr f ↦ rw (e, d, f) (keeps (back_off failure tried.1) backed)
                ]
          ]
        ]

    retry_loop_induction :
        (rounds : List (Round Float))
        → All Q rounds
        → (left : Option ℕ) (s : Supervisor Float) → P s
        → P (retry_loop floats conversions rounds left s)
    unfolding retry_loop
    retry_loop_induction [] q left s p = p
    retry_loop_induction (round ∷ rounds) q (some zero) s p = elim (Bool-cases round.stop_set) [
      | inl e ↦ rw (e, retry_loop) (halted s p)
      | inr e ↦ rw (e, retry_loop) p
    ]
    retry_loop_induction (round ∷ rounds) q none s p =
        round_step round s (retry_loop floats conversions rounds none) q.0 p
          (retry_loop_induction rounds q.1 none)
    retry_loop_induction (round ∷ rounds) q (some (suc left)) s p =
        round_step round s (retry_loop floats conversions rounds (some left)) q.0 p
          (retry_loop_induction rounds q.1 (some left))

    pub run_forever_induction :
        ((s : Supervisor Float) → P s → P (record s { status = disabled }))
        → (rounds : List (Round Float)) → All Q rounds
        → (max_attempts : Option ℕ) (s : Supervisor Float) → P s
        → P (run_forever floats conversions rounds max_attempts s)
    unfolding run_forever
    run_forever_induction off rounds q max_attempts s p =
        either P (not s.config.enabled) (record s { status = disabled })
          (retry_loop floats conversions rounds max_attempts s) (off s p)
          (retry_loop_induction rounds q max_attempts s p)
